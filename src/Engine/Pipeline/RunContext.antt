-- ===== src/Engine/Pipeline/RunContext.antt =====
-- legacy/packages/analysis-engine/src/pipeline.ts, what `runPipeline` is given, what its early stages
-- leave to the late ones, and the stage `semantic-dedup` on the table.
use content_gap.Prelude.{ℕ, ◌-◌, ◌*◌, Bool, List, [], ◌++◌, Option, some, filter, length}
use content_gap.Prelude.Text.{Text, codes, decimal}
use content_gap.Shared.Dates.{is_older_than}
use content_gap.Shared.Results.{Failure, Result, ok}
use content_gap.Database.Tables.{Cohort, Source, SourceSnapshot}
use content_gap.Llm.Types.{LlmProvider}
use content_gap.Engine.SemanticDedup.{DedupState, dedup_loop}
use content_gap.Engine.Retrieval.{Floats}
use content_gap.Engine.Pipeline.Store.{M, Verified, Corpus}
use content_gap.Engine.Pipeline.StageLog.{Counts, counts}
use content_gap.Engine.Pipeline.CoverageMatrix.{project_signals}
use content_gap.Engine.Pipeline.Verification.{NeedRow, CoverageEntry}

-- What a run is given, and what it reads and never writes. `message_of` is the message of an error,
-- `date_parse` is `Date.parse`, `date_error` what the database throws for a text
-- that it does not take for a date, and the others are the functions and
-- the configuration of their names.
pub record RunDeps (F : Type 0) : Type 0 where
  pub project_id : Text
  pub run_id : Text
  pub llm : LlmProvider
  pub embed : List Text → Result (List (List F))
  pub floats : Floats F
  pub estimate_cost_usd : ℕ → ℕ → Text
  pub to_lower_case : Text → Text
  pub strip_symbols : Text → Text
  pub split_words : Text → List Text
  pub date_parse : Text → Option ℕ
  pub reference_date : Text
  pub new_id : ℕ → Text
  pub date_error : Text → Option Failure
  pub digest : Text → Text
  pub message_of : Failure → Text
  pub max_chunks_per_run : ℕ
  pub max_published_gaps : ℕ
  pub cohorts : List Cohort
  pub sources : List Source
  pub snapshots : List SourceSnapshot

-- `isOlderThan(…, 365 * 2, referenceDate)`
unfoldable pub is_outdated : {F : Type 0} → RunDeps F → Option Text → Bool
unfolding is_older_than
is_outdated deps date = is_older_than deps.date_parse date (365 * 2) deps.reference_date

-- The stage `semantic-dedup` on the table, whose rows of other projects it leaves alone.
unfoldable pub dedup_stage : (Text → Text) → Text → M DedupState
unfolding dedup_loop project_signals
dedup_stage to_lower_case project_id s =
    let d =
      dedup_loop to_lower_case (record { table = s.extracted_signals; seen = []; removed = 0 })
        (project_signals project_id s) in
    (record s { extracted_signals = d.table }, ok d)

-- What the late stages need of the early ones.
pub record Prepared : Type 0 where
  pub corpus : Corpus
  pub need_rows : List NeedRow
  pub coverage_by_need_key : List CoverageEntry
  pub candidate_ids : List Text

abbrev pub dedup_counts : ℕ → DedupState → Counts
dedup_counts n d = record {
  input_count = n;
  output_count = n - d.removed;
  note = some (decimal d.removed ++ codes " duplicate signals collapsed");
}

abbrev pub judged_counts : ℕ → List Verified → Counts
judged_counts n vs = counts n (n - length (filter (λ v. v.rejected) vs))
