-- ===== src/Engine/Pipeline/Runs.antt =====
-- legacy/packages/analysis-engine/src/pipeline.ts, `runPipeline` as a whole: the stages in order, each
-- with its entry in the log, and the record that a run leaves behind.
pub mod Growth
pub mod Early
pub mod Intake
pub mod Analysis
pub mod Logged
pub mod Calls
pub mod Steps
pub mod Known
pub mod Conclusion
pub mod Outcome
pub mod Processed
pub mod Entries
pub mod Order
use content_gap.Prelude.{
  ℕ, ◌+◌, ◌-◌, ◌*◌, Bool, true, false, not, List, [], ◌∷◌, ◌++◌, Option, none, some, filter, length,
  if◌then◌else◌, ◌==◌,
}
use content_gap.Prelude.Text.{Text, codes, text_eq, decimal}
use content_gap.Shared.Enums.{RunStatus}
use content_gap.Shared.Dates.{is_older_than}
use content_gap.Shared.Results.{Failure, Result, ok, err}
use content_gap.Database.Tables.{Cohort, Source, SourceSnapshot}
use content_gap.Llm.Types.{LlmProvider}
use content_gap.Engine.SemanticDedup.{DedupState, dedup_loop}
use content_gap.Engine.Retrieval.{Floats, Indexed}
use content_gap.Engine.Pipeline.Store.{M, Store, Verified, Corpus, record_usage}
use content_gap.Engine.Pipeline.StageLog.{
  StageLogEntry, RunState, RunM, done, next, ◌>>=◌, ◌>>◌, Counts, counts, counting, stage, plain,
}
use content_gap.Engine.Pipeline.Normalization.{
  Snap, current_snaps, ingestion_stage, normalization_stage,
}
use content_gap.Engine.Pipeline.ChunkStage.{chunking_stage, extraction_stage}
use content_gap.Engine.Pipeline.DecisionSupport.{load_corpus, index_corpus, decision_support_stage}
use content_gap.Engine.Pipeline.CoverageMatrix.{
  match_needs, coverage_stage, project_signals, read_signals,
}
use content_gap.Engine.Pipeline.Verification.{NeedRow, CoverageEntry}
use content_gap.Engine.Pipeline.Generation.{candidate_input, generate_candidates}
use content_gap.Engine.Pipeline.Publication.{published, shadow_ids}
use content_gap.Engine.Pipeline.LateStages.{Run, verify_stage, critique_stage, publish_stage}
use content_gap.Engine.Pipeline.RunContext.{
  RunDeps, is_outdated, dedup_stage, Prepared, dedup_counts, judged_counts,
}

module _ {F : Type 0} (deps : RunDeps F) where
  abbrev pub project_cohorts : List Cohort
  project_cohorts = filter (λ c. text_eq c.project_id deps.project_id) deps.cohorts

  unfoldable pub prepared_run : Prepared → Run
  prepared_run p = record {
    project_id = deps.project_id;
    run_id = deps.run_id;
    provider = deps.llm.name;
    model = deps.llm.model;
    estimate_cost_usd = deps.estimate_cost_usd;
    to_lower_case = deps.to_lower_case;
    strip_symbols = deps.strip_symbols;
    new_id = deps.new_id;
    digest = deps.digest;
    critique = deps.llm.critique;
    corpus = p.corpus;
    snapshots = deps.snapshots;
    need_rows = p.need_rows;
    coverage_by_need_key = p.coverage_by_need_key;
    max_published_gaps = deps.max_published_gaps;
  }

  -- The stages on the new units.
  unfoldable pub chunk_and_extract : List Text → RunM (Unit {0})
  unfolding stage chunking_stage extraction_stage record_usage
  chunk_and_extract new_unit_ids = do
    stage deps.message_of (codes "chunking") (counts (length new_unit_ids))
        (chunking_stage deps.new_id deps.embed deps.max_chunks_per_run 0 new_unit_ids)
    stage deps.message_of (codes "extraction") (counts (length new_unit_ids)) (
        extraction_stage deps.project_id deps.new_id project_cohorts deps.llm.extract
          (record_usage deps.project_id deps.run_id deps.llm.name deps.llm.model
            deps.estimate_cost_usd)
          0 new_unit_ids)
    done tt

  -- The stages up to the extraction of signals.
  unfoldable pub intake : RunM (Unit {0})
  unfolding stage ingestion_stage normalization_stage chunking_stage extraction_stage record_usage
      current_snaps
  intake = do
    snaps ←
        stage deps.message_of (codes "ingestion")
          (counting
            (length (current_snaps deps.project_id deps.sources deps.snapshots deps.snapshots)))
          (ingestion_stage deps.project_id deps.sources deps.snapshots)
    new_unit_ids ← stage deps.message_of (codes "normalization") (counting (length snaps)) (
        normalization_stage deps.project_id deps.sources deps.snapshots deps.new_id deps.date_error
          snaps)
    chunk_and_extract new_unit_ids

  unfoldable pub map_needs : Corpus → List (Indexed F) → RunM (List NeedRow)
  unfolding stage decision_support_stage record_usage
  map_needs corpus vectors =
      stage deps.message_of (codes "decision-support-map") (counting (length project_cohorts)) (
        decision_support_stage deps.floats deps.embed deps.to_lower_case deps.split_words
          deps.project_id deps.new_id project_cohorts corpus vectors deps.llm.map_decision_support
          (record_usage deps.project_id deps.run_id deps.llm.name deps.llm.model
            deps.estimate_cost_usd))

  unfoldable pub map_coverage : Corpus → List (Indexed F) → List NeedRow → RunM (List CoverageEntry)
  unfolding stage coverage_stage match_needs record_usage is_outdated
  map_coverage corpus vectors needs =
      stage deps.message_of (codes "coverage-matrix") (counting (length needs)) (
        coverage_stage deps.project_id needs corpus (is_outdated deps)
          (match_needs deps.floats deps.embed deps.to_lower_case deps.split_words corpus vectors
            needs)
          deps.llm.classify_coverage
          (record_usage deps.project_id deps.run_id deps.llm.name deps.llm.model
            deps.estimate_cost_usd))

  unfoldable pub propose : Corpus → List NeedRow → List CoverageEntry → RunM (List Text)
  unfolding stage candidate_input generate_candidates record_usage
  propose corpus needs coverage =
      stage deps.message_of (codes "candidate-generation") (counting (length needs)) (
        generate_candidates deps.project_id deps.run_id deps.new_id deps.llm.generate_candidates
          (record_usage deps.project_id deps.run_id deps.llm.name deps.llm.model
            deps.estimate_cost_usd)
          (candidate_input corpus project_cohorts coverage needs))

  -- The stages that compare what is needed with what is there, up to the candidates, on the corpus and
  -- its vectors.
  unfoldable pub compare_needs : Corpus → List (Indexed F) → RunM Prepared
  unfolding stage plain dedup_stage map_needs map_coverage propose read_signals
  compare_needs corpus vectors = do
    sigs ← plain (read_signals deps.project_id)
    stage deps.message_of (codes "semantic-dedup") (dedup_counts (length sigs))
        (dedup_stage deps.to_lower_case deps.project_id)
    needs ← map_needs corpus vectors
    coverage ← map_coverage corpus vectors needs
    ids ← propose corpus needs coverage
    done (record {
      corpus = corpus;
      need_rows = needs;
      coverage_by_need_key = coverage;
      candidate_ids = ids;
    })

  -- The corpus is loaded once, after the intake.
  unfoldable pub analysis : RunM Prepared
  unfolding plain load_corpus index_corpus compare_needs
  analysis r =
      let corpus = load_corpus deps.project_id r.store in
      next (compare_needs corpus) (plain (index_corpus deps.embed corpus) r)

  abbrev pub published_counts : Prepared → List Verified → Unit {0} → Counts
  published_counts p judged x = record {
    input_count = length judged;
    output_count = length (published deps.max_published_gaps judged);
    note = some (
        decimal (
          length (
            shadow_ids deps.project_id deps.run_id deps.new_id deps.digest p.corpus deps.snapshots
              deps.max_published_gaps judged))
        ++ codes " shadow candidates");
  }

  unfoldable pub decision : Prepared → RunM (Unit {0})
  unfolding stage prepared_run verify_stage critique_stage publish_stage published shadow_ids
  decision p = do
    verified ←
        stage deps.message_of (codes "evidence-verification") (counting (length p.candidate_ids))
          (verify_stage (prepared_run p) p.candidate_ids)
    judged ←
        stage deps.message_of (codes "critique-rejection") (judged_counts (length verified))
          (critique_stage (prepared_run p) verified)
    stage deps.message_of (codes "publication") (published_counts p judged)
        (publish_stage (prepared_run p) judged)

  unfoldable pub stages : RunM (Unit {0})
  unfolding intake analysis decision
  stages = do intake; p ← analysis; decision p

-- The columns of `analysis_runs` that the end of a run sets, less times and the division of the cost by
-- the gaps; `usage` is absent on failure.
pub record RunUsage : Type 0 where
  pub llm_calls : ℕ
  pub input_tokens : ℕ
  pub output_tokens : ℕ
  pub estimated_cost_usd : Text
  pub ignored_injection_attempts : ℕ
  pub published_gaps : ℕ

pub record AnalysisRun : Type 0 where
  pub id : Text
  pub project_id : Text
  pub status : RunStatus
  pub error_summary : Option Text
  pub stage_log : List StageLogEntry
  pub usage : Option RunUsage

pub record Finished : Type 0 where
  pub store : Store
  pub run : AnalysisRun
  pub published_gap_ids : List Text

-- `usage` and `publishedGapIds` are variables of the run.
abbrev pub begin : Store → RunState
begin s = record {
  store = record s {
    usage = record { input_tokens = 0; output_tokens = 0; calls = 0; suspicious = [] };
    published_gap_ids = [];
  };
  stage_log = [];
}

module _ {F : Type 0} (deps : RunDeps F) where
  unfoldable pub conclude : RunState × Result (Unit {0}) → Finished
  conclude (r, err e) = record {
    store = r.store;
    run = record {
      id = deps.run_id;
      project_id = deps.project_id;
      status = RunStatus.failed;
      error_summary = some (deps.message_of e);
      stage_log = r.stage_log;
      usage = none;
    };
    published_gap_ids = r.store.published_gap_ids;
  }
  conclude (r, ok x) = record {
    store = r.store;
    run = record {
      id = deps.run_id;
      project_id = deps.project_id;
      status = if r.store.usage.calls == 0 then RunStatus.partial else RunStatus.succeeded;
      error_summary = none;
      stage_log = r.stage_log;
      usage = some (record {
        llm_calls = r.store.usage.calls;
        input_tokens = r.store.usage.input_tokens;
        output_tokens = r.store.usage.output_tokens;
        estimated_cost_usd =
            deps.estimate_cost_usd r.store.usage.input_tokens r.store.usage.output_tokens;
        ignored_injection_attempts = length r.store.usage.suspicious;
        published_gaps = length r.store.published_gap_ids;
      });
    };
    published_gap_ids = r.store.published_gap_ids;
  }

  unfoldable pub run_pipeline : Store → Finished
  unfolding stages conclude
  run_pipeline s = conclude (stages deps (begin s))
