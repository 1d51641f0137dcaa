-- ===== src/Engine/Pipeline/Runs/Steps.antt =====
-- The stages before the decision write no gap, and the stage of the needs calls the model.
use content_gap.Prelude.{ℕ, List, All, length}
use content_gap.Prelude.Text.{Text, codes}
use content_gap.Engine.Pipeline.Store.{Corpus, record_usage}
use content_gap.Engine.Pipeline.Normalization.{pending, normalization_stage, ingestion_stage}
use content_gap.Engine.Pipeline.ChunkStage.{chunking_stage, extraction_stage}
use content_gap.Llm.Types.{LlmResult}
use content_gap.Engine.Retrieval.{Indexed}
use content_gap.Engine.Pipeline.Verification.{NeedRow, CoverageEntry}
use content_gap.Engine.Pipeline.Generation.{candidate_input}
use content_gap.Engine.Pipeline.CoverageMatrix.{read_signals}
use content_gap.Engine.Pipeline.LateStages.{
  late_stages, verify_stage, critique_stage, publish_stage,
}
use content_gap.Engine.Pipeline.StageLog.{
  RunState, RunM, done, ◌>>=◌, stage, plain, counting, counts, log_stage,
}
use content_gap.Engine.Pipeline.Runs.{
  project_cohorts, prepared_run, published_counts, chunk_and_extract, intake, map_needs,
  map_coverage, propose, compare_needs, decision,
}
use content_gap.Engine.Pipeline.RunContext.{
  is_outdated, RunDeps, Prepared, dedup_stage, judged_counts, dedup_counts,
}
use content_gap.Engine.Pipeline.Runs.Growth.{Owned, Grows, Keeps, record_usage-Keeps}
use content_gap.Engine.Pipeline.Runs.Early.{normalization_stage-Adds}
use content_gap.Engine.Pipeline.Runs.Intake.{chunking_stage-Grows, extraction_stage-Keeps}
use content_gap.Engine.Pipeline.Runs.Analysis.{
  dedup_stage-Keeps, read_signals-Keeps, decision_support_stage-Keeps, match_needs-Keeps,
  coverage_stage-Keeps, generate_candidates-Keeps,
}
use content_gap.Engine.Pipeline.Runs.Logged.{
  Logs, Logs-bind, Logs-stage, KeepsRun, KeepsRun-bind, KeepsRun-then, KeepsRun-done,
  KeepsRun-plain, KeepsRun-stage, ids-Grows, next-Grows, log_stage-Grows,
}
use content_gap.Engine.Pipeline.Runs.Calls.{
  Calls, Calls-earlier, Calls-later, Calls-then, Calls-stage, decision_support_stage-OkCalled,
}

module _ {F : Type 0} (deps : RunDeps F) where
  abbrev pid : Text
  pid = deps.project_id

  -- The decision, less its log, is the late stages.
  pub decision-Logs :
      (p : Prepared) → Logs (decision deps p) (late_stages (prepared_run deps p) p.candidate_ids)
  unfolding decision late_stages
  decision-Logs p =
      Logs-bind
        (Logs-stage deps.message_of (codes "evidence-verification")
          (counting (length p.candidate_ids)) (verify_stage (prepared_run deps p) p.candidate_ids))
        λ verified.
          Logs-bind
            (Logs-stage deps.message_of (codes "critique-rejection")
              (judged_counts (length verified)) (critique_stage (prepared_run deps p) verified))
            λ judged.
              Logs-stage deps.message_of (codes "publication") (published_counts deps p judged)
                (publish_stage (prepared_run deps p) judged)

  extraction_Keeps :
      (ids : List Text)
      → Keeps pid (
          extraction_stage pid deps.new_id
            (project_cohorts deps)
            deps.llm.extract
            (record_usage pid deps.run_id deps.llm.name deps.llm.model deps.estimate_cost_usd)
            0
            ids)
  extraction_Keeps ids =
      extraction_stage-Keeps pid deps.new_id (project_cohorts deps) deps.llm.extract
        (record_usage pid deps.run_id deps.llm.name deps.llm.model deps.estimate_cost_usd)
        (λ operation u.
          record_usage-Keeps pid deps.run_id deps.llm.name deps.llm.model deps.estimate_cost_usd
            operation u)
        ids 0

  extraction-KeepsRun :
      (ids : List Text)
      → KeepsRun pid (
          stage deps.message_of (codes "extraction") (counts (length ids)) (
            extraction_stage pid deps.new_id
              (project_cohorts deps)
              deps.llm.extract
              (record_usage pid deps.run_id deps.llm.name deps.llm.model deps.estimate_cost_usd)
              0
              ids))
  extraction-KeepsRun ids =
      KeepsRun-stage pid deps.message_of (codes "extraction") (counts (length ids))
        (extraction_Keeps ids)

  chunk_and_extract-Grows :
      (ids : List Text) (r : RunState)
      → All (Owned pid r.store.content_units) ids
      → Grows pid r.store (chunk_and_extract deps ids r).0.store
  unfolding chunk_and_extract stage
  chunk_and_extract-Grows ids r owned =
      let q = chunking_stage deps.new_id deps.embed deps.max_chunks_per_run 0 ids r.store in
      next-Grows pid _
        (log_stage deps.message_of (codes "chunking") (counts (length ids)) r.stage_log q)
        (log_stage-Grows pid deps.message_of (codes "chunking") (counts (length ids)) r.stage_log q
          (chunking_stage-Grows pid deps.new_id deps.embed deps.max_chunks_per_run ids 0 r.store
            owned))
        λ n. KeepsRun-then pid (extraction-KeepsRun ids) (KeepsRun-done pid tt)

  pub intake-Grows : (r : RunState) → Grows pid r.store (intake deps r).0.store
  unfolding intake stage ingestion_stage log_stage
  intake-Grows r =
      let snaps = pending pid deps.sources deps.snapshots r.store.content_units in
      ids-Grows pid deps.message_of (codes "normalization") (counting (length snaps)) _
        (chunk_and_extract deps)
        (normalization_stage pid deps.sources deps.snapshots deps.new_id deps.date_error snaps
          r.store)
        (normalization_stage-Adds pid deps.sources deps.snapshots deps.new_id deps.date_error snaps
          r.store)
        chunk_and_extract-Grows

  intake-KeepsRun : KeepsRun pid (intake deps)
  intake-KeepsRun = record { from = intake-Grows }

  abbrev usage_Keeps :
      {T : Type 0} (operation : Text) (u : LlmResult T)
      → Keeps pid (
          record_usage pid deps.run_id deps.llm.name deps.llm.model deps.estimate_cost_usd operation
            u)
  usage_Keeps operation u =
      record_usage-Keeps pid deps.run_id deps.llm.name deps.llm.model deps.estimate_cost_usd
        operation u

  coverage-KeepsRun :
      (corpus : Corpus) (vectors : List (Indexed F)) (needs : List NeedRow)
      → KeepsRun pid (map_coverage deps corpus vectors needs)
  unfolding map_coverage
  coverage-KeepsRun corpus vectors needs =
      KeepsRun-stage pid deps.message_of (codes "coverage-matrix") (counting (length needs)) (
        coverage_stage-Keeps pid needs corpus (is_outdated deps) _ deps.llm.classify_coverage _
          (match_needs-Keeps pid deps.floats deps.embed deps.to_lower_case deps.split_words
            deps.new_id (project_cohorts deps) corpus vectors needs)
          (λ operation u. usage_Keeps operation u))

  needs-KeepsRun :
      (corpus : Corpus) (vectors : List (Indexed F)) → KeepsRun pid (map_needs deps corpus vectors)
  unfolding map_needs
  needs-KeepsRun corpus vectors =
      KeepsRun-stage pid deps.message_of (codes "decision-support-map")
        (counting (length (project_cohorts deps)))
        (decision_support_stage-Keeps pid deps.floats deps.embed deps.to_lower_case deps.split_words
          deps.new_id (project_cohorts deps) corpus vectors deps.llm.map_decision_support _
          (λ operation u. usage_Keeps operation u))

  needs-Calls :
      (corpus : Corpus) (vectors : List (Indexed F)) → Calls (map_needs deps corpus vectors)
  unfolding map_needs
  needs-Calls corpus vectors =
      Calls-stage deps.message_of (codes "decision-support-map")
        (counting (length (project_cohorts deps))) _
        (decision_support_stage-OkCalled pid deps.run_id deps.llm.name deps.llm.model
          deps.estimate_cost_usd deps.floats deps.embed deps.to_lower_case deps.split_words
          deps.new_id (project_cohorts deps) corpus vectors deps.llm.map_decision_support)

  propose-KeepsRun :
      (corpus : Corpus) (needs : List NeedRow) (coverage : List CoverageEntry)
      → KeepsRun pid (propose deps corpus needs coverage)
  unfolding propose
  propose-KeepsRun corpus needs coverage =
      KeepsRun-stage pid deps.message_of (codes "candidate-generation") (counting (length needs)) (
        generate_candidates-Keeps pid deps.run_id deps.new_id deps.llm.generate_candidates _
          (candidate_input corpus (project_cohorts deps) coverage needs)
          (λ operation u. usage_Keeps operation u))

  -- What follows the needs, in `compare_needs`.
  abbrev pub after_needs : Corpus → List (Indexed F) → List NeedRow → RunM Prepared
  after_needs corpus vectors needs = map_coverage deps corpus vectors needs >>= λ coverage.
      propose deps corpus needs coverage >>= λ ids. done (record {
        corpus = corpus;
        need_rows = needs;
        coverage_by_need_key = coverage;
        candidate_ids = ids;
      })

  after_needs-KeepsRun :
      (corpus : Corpus) (vectors : List (Indexed F)) (needs : List NeedRow)
      → KeepsRun pid (after_needs corpus vectors needs)
  after_needs-KeepsRun corpus vectors needs =
      KeepsRun-bind pid (coverage-KeepsRun corpus vectors needs) λ coverage.
        KeepsRun-bind pid (propose-KeepsRun corpus needs coverage) λ ids. KeepsRun-done pid _

  dedup-KeepsRun :
      (n : ℕ)
      → KeepsRun pid (
          stage deps.message_of
            (codes "semantic-dedup")
            (dedup_counts n)
            (dedup_stage deps.to_lower_case pid))
  dedup-KeepsRun n =
      KeepsRun-stage pid deps.message_of (codes "semantic-dedup") (dedup_counts n)
        (dedup_stage-Keeps pid deps.to_lower_case)

  pub compare_needs-KeepsRun :
      (corpus : Corpus) (vectors : List (Indexed F))
      → KeepsRun pid (compare_needs deps corpus vectors)
  unfolding compare_needs
  compare_needs-KeepsRun corpus vectors =
      KeepsRun-bind pid (KeepsRun-plain pid (read_signals-Keeps pid)) λ sigs.
        KeepsRun-then pid (dedup-KeepsRun (length sigs)) (
          KeepsRun-bind pid (needs-KeepsRun corpus vectors)
            λ needs. after_needs-KeepsRun corpus vectors needs)

  pub compare_needs-Calls :
      (corpus : Corpus) (vectors : List (Indexed F)) → Calls (compare_needs deps corpus vectors)
  unfolding compare_needs
  compare_needs-Calls corpus vectors = Calls-later (plain (read_signals pid)) λ sigs.
      Calls-then
        (stage deps.message_of (codes "semantic-dedup") (dedup_counts (length sigs))
          (dedup_stage deps.to_lower_case pid))
        (Calls-earlier pid (needs-Calls corpus vectors)
          λ needs. after_needs-KeepsRun corpus vectors needs)
