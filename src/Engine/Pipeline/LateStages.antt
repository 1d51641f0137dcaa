-- ===== src/Engine/Pipeline/LateStages.antt =====
-- legacy/packages/analysis-engine/src/pipeline.ts: the stages `evidence-verification`,
-- `critique-rejection` and `publication` in the order in which `runPipeline` runs them.
pub mod SameGaps
pub mod Laws
pub mod Calls
use content_gap.Prelude.{ℕ, List, []}
use content_gap.Prelude.Text.{Text}
use content_gap.Shared.Results.{Result, ok}
use content_gap.Shared.Schemas.Payloads.{CritiqueVerdict}
use content_gap.Database.Tables.{SourceSnapshot}
use content_gap.Llm.Types.{CritiqueInput, LlmResult}
use content_gap.Engine.Pipeline.Store.{M, after, ◌>>=◌, ◌>>◌, Store, Verified, Corpus, record_usage}
use content_gap.Engine.Pipeline.Verification.{NeedRow, CoverageEntry, verify_candidates}
use content_gap.Engine.Pipeline.Critique.{critique_each}
use content_gap.Engine.Pipeline.Publication.{publish}

-- What a run has at hand when the late stages begin. `new_id` stands for the ids of the database,
-- `digest` for SHA-256, and the others for the functions and methods of their names.
pub record Run : Type 0 where
  pub project_id : Text
  pub run_id : Text
  pub provider : Text
  pub model : Text
  pub estimate_cost_usd : ℕ → ℕ → Text
  pub to_lower_case : Text → Text
  pub strip_symbols : Text → Text
  pub new_id : ℕ → Text
  pub digest : Text → Text
  pub critique : CritiqueInput → Result (LlmResult CritiqueVerdict)
  pub corpus : Corpus
  pub snapshots : List SourceSnapshot
  pub need_rows : List NeedRow
  pub coverage_by_need_key : List CoverageEntry
  pub max_published_gaps : ℕ

module _ (run : Run) where
  unfoldable pub critique_stage : List Verified → M (List Verified)
  unfolding critique_each record_usage
  critique_stage verified =
      critique_each run.to_lower_case run.strip_symbols run.corpus run.critique
        (record_usage run.project_id run.run_id run.provider run.model run.estimate_cost_usd) []
        verified

  unfoldable pub publish_stage : List Verified → M (Unit {0})
  unfolding publish
  publish_stage verified =
      publish run.project_id run.run_id run.new_id run.digest run.corpus run.snapshots
        run.max_published_gaps verified

  unfoldable pub verify_stage : List Text → M (List Verified)
  unfolding verify_candidates
  verify_stage candidate_ids s = (
    s,
    ok (
        verify_candidates run.corpus run.need_rows run.coverage_by_need_key s.gap_candidates
          candidate_ids),
  )

  unfoldable pub late_stages : List Text → M (Unit {0})
  unfolding verify_stage critique_stage publish_stage
  late_stages candidate_ids = do
    verified ← verify_stage candidate_ids
    judged ← critique_stage verified
    publish_stage judged
