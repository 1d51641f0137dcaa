-- ===== src/Llm/FakeProvider/Candidates.antt =====
-- legacy/packages/llm/src/fake-provider.ts, `generateCandidates`: the gaps that the offline provider
-- proposes, their evidence and their ranking.
pub mod Templates
pub mod Laws
pub mod Quotes
use content_gap.Prelude.{
  ℕ, zero, suc, ◌+◌, min, Bool, true, false, not, ◌&&◌, ◌||◌, List, [], ◌∷◌, ◌++◌, Option, none,
  some, map, if◌then◌else◌, ltb, leb, ◌==◌, length, any, take,
}
use content_gap.Prelude.Text.{Text, codes, has, trim, slice, map_get}
use content_gap.Shared.Enums.{CoverageStatus, JourneyStage, OwnerType, EvidenceRole}
use content_gap.Shared.EvidenceStatus.{coverage_literal}
use content_gap.Shared.Priority.{int}
use content_gap.Shared.Results.{Result}
use content_gap.Shared.IdReferences.{AllowedIds}
use content_gap.Shared.Schemas.Payloads.{EvidenceClaim, CandidateGap, CandidateGapResponse}
use content_gap.Shared.Schemas.Parsing.{parse_candidates}
use content_gap.Shared.Schemas.Encoding.{json_of_candidates}
use content_gap.Llm.Types.{CandidateInput, CandidateNeed, EvidenceChunk, CohortPriority}
use content_gap.Llm.Validate.{validate_response}
use content_gap.Llm.FakeProvider.Candidates.Templates.{
  coverage_deficit_of, map_need_to_gap_type, title_for, missing_support_for, consequence_for,
  role_for, asset_for, touchpoint_for,
}

abbrev pub is_uncovered : CoverageStatus → Bool
is_uncovered CoverageStatus.strong = false
is_uncovered CoverageStatus.oversaturated = false
is_uncovered _ = true

abbrev pub role_by_owner : OwnerType → EvidenceRole
role_by_owner OwnerType.voc = EvidenceRole.customer_demand
role_by_owner OwnerType.business_brief = EvidenceRole.strategic_priority
role_by_owner OwnerType.competitor = EvidenceRole.competitor_context
role_by_owner OwnerType.owned = EvidenceRole.current_coverage

unfoldable pub claim_of : EvidenceChunk → Text → EvidenceClaim
claim_of chunk id = record {
  role = role_by_owner chunk.owner_type;
  chunk_id = id;
  exact_quote = slice (trim chunk.text) 0 240;
}

-- The loop of `buildEvidence`, with the room that is left of four.
unfoldable pub evidence_loop : List EvidenceChunk → ℕ → List Text → List Text → List EvidenceClaim
unfolding claim_of
evidence_loop chunks room seen [] = []
evidence_loop chunks zero seen (id ∷ ids) = []
evidence_loop chunks (suc room) seen (id ∷ ids) =
    let skip = evidence_loop chunks (suc room) seen ids in
    let rest = evidence_loop chunks room (id ∷ seen) ids in
    elim (map_get (λ c. c.id) id chunks) [
      | none ↦ skip
      | some chunk ↦ if has seen id then skip else claim_of chunk id ∷ rest
    ]

unfoldable pub build_evidence : List EvidenceChunk → List Text → List EvidenceClaim
unfolding evidence_loop
build_evidence chunks chunk_ids = evidence_loop chunks 4 [] chunk_ids

abbrev pub is_late : JourneyStage → Bool
is_late JourneyStage.evaluate = true
is_late JourneyStage.decide = true
is_late _ = false

-- `clamp` of a natural number
abbrev pub clamp : ℕ → ℕ
clamp n = min 5 n

abbrev pub is_strategic : EvidenceRole → Bool
is_strategic EvidenceRole.strategic_priority = true
is_strategic _ = false

abbrev pub is_context : EvidenceRole → Bool
is_context EvidenceRole.competitor_context = true
is_context _ = false

abbrev pub priority_of : List CohortPriority → Text → ℕ
priority_of cohorts cohort_id = elim (map_get (λ c. c.id) cohort_id cohorts) [
  | none ↦ 3
  | some c ↦ c.priority
]

abbrev pub strategic_rank : List EvidenceClaim → ℕ
strategic_rank evidence = if any (λ e. is_strategic e.role) evidence then 5 else 3

abbrev pub context_rank : List EvidenceClaim → ℕ
context_rank evidence = if any (λ e. is_context e.role) evidence then 3 else 1

-- `print` is the conversion of a number to a string.
module _ (print : ℕ → Text) (is_uuid : Text → Bool) where
  unfoldable pub candidate_of : CandidateInput → CandidateNeed → CandidateGap
  unfolding build_evidence coverage_deficit_of map_need_to_gap_type title_for missing_support_for
      consequence_for role_for asset_for touchpoint_for
  candidate_of input need =
      let evidence = build_evidence input.chunks need.demand_chunk_ids in
      let priority = priority_of input.cohorts need.cohort_id in
      let gap_type = map_need_to_gap_type need.need_type need.coverage_status in
      record {
        cohort_id = need.cohort_id;
        journey_stage = need.journey_stage;
        gap_type = gap_type;
        title = title_for gap_type need.normalized_need;
        customer_question_or_belief = need.normalized_need;
        missing_decision_support = missing_support_for gap_type;
        commercial_consequence = consequence_for need.journey_stage;
        recommended_content_role = role_for gap_type;
        recommended_asset_type = asset_for gap_type;
        suggested_touchpoint = touchpoint_for need.journey_stage;
        generation_reason =
            codes "Need \""
            ++ (need.normalized_need
                ++ (codes "\" has coverage="
                    ++ (coverage_literal need.coverage_status
                        ++ (codes " with "
                            ++ (print (length need.demand_chunk_ids)
                                ++ codes " demand evidence item(s).")))));
        evidence = evidence;
        ranking_components = record {
          commercial_impact =
              int (clamp (priority + (if is_late need.journey_stage then 1 else 0)));
          journey_blockage = int (if is_late need.journey_stage then 5 else 3);
          cohort_priority = int (clamp priority);
          demand_strength = int (clamp (min 5 (length need.demand_chunk_ids + 2)));
          coverage_deficit = int (coverage_deficit_of need.coverage_status);
          strategic_alignment = int (strategic_rank evidence);
          competitive_opportunity = int (context_rank evidence);
          actionability = int 4;
          production_feasibility = int 4;
          learning_value = int 3;
        };
      }

  -- The loop over the needs.
  unfoldable pub candidates_of : CandidateInput → List CandidateNeed → List CandidateGap
  unfolding candidate_of
  candidates_of input [] = []
  candidates_of input (need ∷ needs) =
      let rest = candidates_of input needs in
      if is_uncovered need.coverage_status && ltb 0 (length need.demand_chunk_ids)
      then candidate_of input need ∷ rest
      else rest

  abbrev pub allowed_of : CandidateInput → AllowedIds
  allowed_of input = record {
    chunk_ids = map (λ c. c.id) input.chunks;
    cohort_ids = map (λ c. c.id) input.cohorts;
    content_unit_ids = [];
  }

  -- `generateCandidates` less the counting of tokens
  unfoldable pub fake_candidates : CandidateInput → Result CandidateGapResponse
  unfolding candidates_of validate_response parse_candidates json_of_candidates
  fake_candidates input =
      validate_response (parse_candidates is_uuid) json_of_candidates
        (record { candidates = take 60 (candidates_of input input.needs) }) (allowed_of input)
