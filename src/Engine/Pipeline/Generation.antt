-- ===== src/Engine/Pipeline/Generation.antt =====
-- legacy/packages/analysis-engine/src/pipeline.ts, stage `candidate-generation`: what the model is
-- shown of the needs, and the rows of the candidates that it proposes.
pub mod Laws
pub mod Found
use content_gap.Prelude.{
  ℕ, suc, Bool, true, false, not, ◌&&◌, List, [], ◌∷◌, ◌++◌, Option, none, some, map, filter, any,
  if◌then◌else◌,
}
use mathlib.Core.Option
use content_gap.Prelude.Text.{Text, codes, text_eq, map_get}
use content_gap.Shared.Enums.{CoverageStatus, GapCandidateStatus, PriorityLabel}
use content_gap.Shared.Results.{Result, ok}
use content_gap.Shared.Schemas.Payloads.{CandidateGap, CandidateGapResponse}
use content_gap.Database.Tables.{Cohort, GapCandidate}
use content_gap.Llm.Types.{CandidateInput, CandidateNeed, EvidenceChunk, LlmResult}
use content_gap.Engine.Pipeline.Store.{
  M, pure, lift, after, ◌>>=◌, ◌>>◌, modify, Store, Corpus, chunk_by_id, owner_of_chunk,
}
use content_gap.Engine.Pipeline.Verification.{NeedRow, Coverage, CoverageEntry}

abbrev status_or_none : Option Coverage → CoverageStatus
status_or_none none = CoverageStatus.none
status_or_none (some cov) = cov.status

abbrev units_or_empty : Option Coverage → List Text
units_or_empty none = []
units_or_empty (some cov) = cov.unit_ids

-- An element of `candNeeds`.
unfoldable pub candidate_need : List CoverageEntry → NeedRow → CandidateNeed
unfolding map_get
candidate_need coverage_by_need_key n =
    let cov =
      Option.map (λ (e : CoverageEntry). e.coverage)
        (map_get (λ e. e.need_key) n.id coverage_by_need_key) in
    record {
      need_key = n.id;
      cohort_id = n.cohort_id;
      journey_stage = n.journey_stage;
      normalized_need = n.normalized_need;
      need_type = n.need_type;
      coverage_status = status_or_none cov;
      demand_chunk_ids = n.supporting_chunk_ids;
      coverage_unit_ids = units_or_empty cov;
    }

-- `evidenceChunkPool.set(…)`: a key that is there keeps its place, and its value, which is the same.
unfoldable pub pool_set : EvidenceChunk → List EvidenceChunk → List EvidenceChunk
pool_set c pool = if any (λ d. text_eq d.id c.id) pool then pool else pool ++ (c ∷ [])

module _ (corpus : Corpus) where
  -- The loop over the supporting chunks of a need.
  unfoldable pub pool_ids : List EvidenceChunk → List Text → List EvidenceChunk
  unfolding pool_set chunk_by_id owner_of_chunk
  pool_ids pool [] = pool
  pool_ids pool (cid ∷ cids) = elim (chunk_by_id corpus cid) [
    | none ↦ pool_ids pool cids
    | some ch ↦
        pool_ids
          (pool_set (record { id = cid; text = ch.text; owner_type = owner_of_chunk corpus cid })
            pool)
          cids
  ]

  unfoldable pub evidence_chunk_pool : List EvidenceChunk → List NeedRow → List EvidenceChunk
  unfolding pool_ids
  evidence_chunk_pool pool [] = pool
  evidence_chunk_pool pool (n ∷ ns) = evidence_chunk_pool (pool_ids pool n.supporting_chunk_ids) ns

  unfoldable pub candidate_input : List Cohort → List CoverageEntry → List NeedRow → CandidateInput
  unfolding evidence_chunk_pool candidate_need
  candidate_input cohort_rows coverage_by_need_key need_rows = record {
    cohorts = map (λ c. record { id = c.id; name = c.name; priority = c.priority }) cohort_rows;
    needs = map (candidate_need coverage_by_need_key) need_rows;
    chunks = evidence_chunk_pool [] need_rows;
  }

-- `new_id` gives the ids of the database.
module _ (project_id run_id : Text) (new_id : ℕ → Text) where
  unfoldable pub delete_candidates : M (Unit {0})
  delete_candidates = modify λ s. record s {
    gap_candidates =
        filter (λ c. not (text_eq c.project_id project_id && text_eq c.run_id run_id))
          s.gap_candidates;
  }

  unfoldable pub candidate_row : Text → CandidateGap → GapCandidate
  candidate_row id c = record {
    id = id;
    project_id = project_id;
    run_id = run_id;
    cohort_id = c.cohort_id;
    journey_stage = c.journey_stage;
    gap_type = c.gap_type;
    title = c.title;
    candidate_data = c;
    generation_reason = c.generation_reason;
    status = GapCandidateStatus.candidate;
    rejection_reason = none;
    priority_score = 0;
    priority_label = PriorityLabel.p5_reject;
    is_shadow_sample = false;
  }

  unfoldable pub insert_candidate : CandidateGap → M Text
  unfolding candidate_row
  insert_candidate c s =
      let id = new_id s.next_id in
      (
        record s {
          gap_candidates = s.gap_candidates ++ (candidate_row id c ∷ []);
          next_id = suc s.next_id;
        },
        ok id,
      )

  unfoldable pub insert_candidates : List CandidateGap → M (List Text)
  unfolding insert_candidate
  insert_candidates [] = pure []
  insert_candidates (c ∷ cs) = do
    id ← insert_candidate c
    ids ← insert_candidates cs
    pure (id ∷ ids)

  -- The stage.
  unfoldable pub generate_candidates :
      (CandidateInput → Result (LlmResult CandidateGapResponse))
      → (Text → LlmResult CandidateGapResponse → M (Unit {0}))
      → CandidateInput
      → M (List Text)
  unfolding delete_candidates insert_candidates
  generate_candidates provider record_usage input = do
    delete_candidates
    res ← lift (provider input)
    record_usage (codes "candidate-generation") res
    insert_candidates res.content.candidates
