-- ===== src/Llm/FakeProvider/Candidates/Laws.antt =====
-- What the offline provider proposes.
use content_gap.Prelude.{
  ◌⊎◌, ℕ, ◌+◌, ◌≤◌, min, Bool, true, false, ◌&&◌, List, [], ◌∷◌, ◌≡◌, ◌≢◌, inl, inr, arith, All,
  Bool-cases, length, any, ltb, if◌then◌else◌,
}
use content_gap.Prelude.Text.{Text}
use content_gap.Shared.Enums.{GapType, PriorityLabel, CoverageStatus, NeedType}
use content_gap.Shared.Priority.{compute_priority_score, priority_label_for, prioritize}
use content_gap.Shared.Priority.Bounds.{compute_priority_score_sum}
use content_gap.Shared.Schemas.Payloads.{CandidateGap}
use content_gap.Llm.Types.{CandidateInput, CandidateNeed}
use content_gap.Llm.FakeProvider.Candidates.{
  is_uncovered, build_evidence, candidate_of, candidates_of, is_late, is_strategic, is_context,
  clamp, priority_of, strategic_rank, context_rank,
}
use content_gap.Llm.FakeProvider.Candidates.Templates.{coverage_deficit_of, map_need_to_gap_type}

deficit-uncovered : (c : CoverageStatus) → is_uncovered c ≡ true → 3 ≤ coverage_deficit_of c
unfolding coverage_deficit_of
deficit-uncovered CoverageStatus.none h = omega arith
deficit-uncovered CoverageStatus.mention_only h = omega arith
deficit-uncovered CoverageStatus.weak h = omega arith
deficit-uncovered CoverageStatus.partial h = omega arith
deficit-uncovered CoverageStatus.strong h = cc
deficit-uncovered CoverageStatus.outdated h = omega arith
deficit-uncovered CoverageStatus.unsupported h = omega arith
deficit-uncovered CoverageStatus.oversaturated h = cc

deficit-le : (c : CoverageStatus) → coverage_deficit_of c ≤ 5
unfolding coverage_deficit_of
deficit-le CoverageStatus.none = omega arith
deficit-le CoverageStatus.mention_only = omega arith
deficit-le CoverageStatus.weak = omega arith
deficit-le CoverageStatus.partial = omega arith
deficit-le CoverageStatus.strong = omega arith
deficit-le CoverageStatus.outdated = omega arith
deficit-le CoverageStatus.unsupported = omega arith
deficit-le CoverageStatus.oversaturated = omega arith

between : (b : Bool) (m n : ℕ) → m ≤ n → (m ≤ (if b then n else m)) × ((if b then n else m) ≤ n)
between true m n h = (h, omega arith)
between false m n h = (omega arith, h)

gap_type-unsaturated :
    (n : NeedType) (c : CoverageStatus)
    → is_uncovered c ≡ true
    → map_need_to_gap_type n c ≢ GapType.saturation_gap
unfolding map_need_to_gap_type
gap_type-unsaturated n c u e = ground arith

-- One of the labels P0 to P3.
abbrev pub IsWorthy : PriorityLabel → Type 0
IsWorthy l =
    (l ≡ PriorityLabel.p0_critical_blocker)
    ⊎ (l ≡ PriorityLabel.p1_produce_now)
    ⊎ (l ≡ PriorityLabel.p2_produce_next)
    ⊎ (l ≡ PriorityLabel.p3_validate)

-- The score is 34 at least, the priority of the candidate is labelled P0 to P3 unless it is rejected,
-- and the gap is not one of saturation.
pub record WorthValidating (c : CandidateGap) : Type 0 where
  pub score : 34 ≤ compute_priority_score c.ranking_components
  pub label : IsWorthy (prioritize c.ranking_components false).label
  pub unsaturated : c.gap_type ≢ GapType.saturation_gap

label-IsWorthy : (score : ℕ) → 34 ≤ score → IsWorthy (priority_label_for score false)
unfolding priority_label_for
label-IsWorthy score h = ground arith

module _ (print : ℕ → Text) (is_uuid : Text → Bool) where
  candidate_of-score :
      (input : CandidateInput) (need : CandidateNeed)
      → is_uncovered need.coverage_status ≡ true
      → 34 ≤ compute_priority_score (candidate_of print is_uuid input need).ranking_components
  unfolding candidate_of
  candidate_of-score input need u =
      let evidence = build_evidence input.chunks need.demand_chunk_ids in
      let p = priority_of input.cohorts need.cohort_id in
      let late = between (is_late need.journey_stage) 3 5 (omega arith) in
      let strategic = between (any (λ e. is_strategic e.role) evidence) 3 5 (omega arith) in
      let context = between (any (λ e. is_context e.role) evidence) 1 3 (omega arith) in
      let deficit = deficit-uncovered need.coverage_status u in
      let sum =
        compute_priority_score_sum (clamp (p + (if is_late need.journey_stage then 1 else 0)))
          (if is_late need.journey_stage then 5 else 3) (clamp p)
          (clamp (min 5 (length need.demand_chunk_ids + 2)))
          (coverage_deficit_of need.coverage_status) (strategic_rank evidence)
          (context_rank evidence) 4 4 3
          (omega arith, late.1, omega arith, omega arith, deficit-le need.coverage_status)
          (strategic.1, omega (arith, context.1), omega arith, omega arith, omega arith) in
      omega (arith, sum, late.0, strategic.0, context.0, deficit)

  candidate_of-gap_type :
      (input : CandidateInput) (need : CandidateNeed)
      → is_uncovered need.coverage_status ≡ true
      → (candidate_of print is_uuid input need).gap_type ≢ GapType.saturation_gap
  unfolding candidate_of
  candidate_of-gap_type input need u = gap_type-unsaturated need.need_type need.coverage_status u

  -- Every candidate that the offline provider proposes scores 34 at least, so that its label is one of
  -- P0 to P3 unless it is rejected; and it never reports saturation, since it skips the needs whose
  -- coverage is oversaturated.
  pub candidates_of-WorthValidating :
      (input : CandidateInput) (needs : List CandidateNeed)
      → All WorthValidating (candidates_of print is_uuid input needs)
  unfolding candidates_of prioritize
  candidates_of-WorthValidating input [] = tt
  candidates_of-WorthValidating input (need ∷ needs) =
      elim (Bool-cases
        (is_uncovered need.coverage_status && ltb 0 (length need.demand_chunk_ids))) [
          | inr e ↦ rw (candidates_of, e) (candidates_of-WorthValidating input needs)
          | inl e ↦
              let u : is_uncovered need.coverage_status ≡ true = ground arith in
              rw (candidates_of, e)
                (
                  record {
                    score = candidate_of-score input need u;
                    label = label-IsWorthy _ (candidate_of-score input need u);
                    unsaturated = candidate_of-gap_type input need u;
                  },
                  candidates_of-WorthValidating input needs,
                )
        ]
