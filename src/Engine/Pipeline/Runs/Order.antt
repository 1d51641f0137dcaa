-- ===== src/Engine/Pipeline/Runs/Order.antt =====
-- The log of a run: the stages, in their order.
use content_gap.Prelude.{List, [], ◌∷◌, ◌++◌, none, length, ◌≡◌, refl, ◌⊎◌, inl, inr}
use content_gap.Prelude.Text.{Text, codes}
use content_gap.Shared.Enums.{RunStatus}
use content_gap.Shared.Results.{Result, ok, err}
use content_gap.Engine.Retrieval.{Indexed}
use content_gap.Engine.Pipeline.Store.{M, Store, Corpus}
use content_gap.Engine.Pipeline.DecisionSupport.{load_corpus, index_corpus, decision_support_stage}
use content_gap.Engine.Pipeline.StageLog.{RunState, Counts, stage}
use content_gap.Engine.Pipeline.Runs.{
  chunk_and_extract, intake, map_needs, map_coverage, propose, compare_needs, analysis, decision,
  stages, begin, conclude, run_pipeline,
}
use content_gap.Engine.Pipeline.RunContext.{is_outdated, RunDeps, Prepared}
use content_gap.Engine.Pipeline.Runs.Entries.{
  marks, passed, Stopped, RunLogs, InOrder, InOrder-bind, InOrder-done, InOrder-plain,
  InOrder-stage,
}
use content_gap.Engine.Pipeline.Store.{record_usage}
use content_gap.Engine.Pipeline.StageLog.{counts, counting}
use content_gap.Engine.Pipeline.Normalization.{current_snaps, ingestion_stage, normalization_stage}
use content_gap.Engine.Pipeline.ChunkStage.{chunking_stage, extraction_stage}
use content_gap.Engine.Pipeline.CoverageMatrix.{match_needs, coverage_stage, read_signals}
use content_gap.Engine.Pipeline.Generation.{candidate_input, generate_candidates}
use content_gap.Engine.Pipeline.Verification.{NeedRow, CoverageEntry}
use content_gap.Engine.Pipeline.LateStages.{verify_stage, critique_stage, publish_stage}
use content_gap.Engine.Pipeline.Runs.{
  project_cohorts, dedup_stage, dedup_counts, judged_counts, published_counts, prepared_run,
}

abbrev intake_names : List Text
intake_names =
    codes "ingestion" ∷ codes "normalization" ∷ codes "chunking" ∷ codes "extraction" ∷ []

abbrev analysis_names : List Text
analysis_names =
    codes "semantic-dedup"
    ∷ codes "decision-support-map"
    ∷ codes "coverage-matrix"
    ∷ codes "candidate-generation"
    ∷ []

abbrev decision_names : List Text
decision_names =
    codes "evidence-verification" ∷ codes "critique-rejection" ∷ codes "publication" ∷ []

-- The stages of a run.
abbrev pub stage_names : List Text
stage_names = intake_names ++ (analysis_names ++ decision_names)

module _ {F : Type 0} (deps : RunDeps F) where
  abbrev by_stage :
      {A : Type 0} (name : Text) (count : A → Counts) (m : M A)
      → InOrder (name ∷ []) (stage deps.message_of name count m)
  by_stage name count m = InOrder-stage deps.message_of name count m

  extract-InOrder :
      (ids : List Text)
      → InOrder (codes "chunking" ∷ codes "extraction" ∷ []) (chunk_and_extract deps ids)
  unfolding chunk_and_extract
  extract-InOrder ids =
      InOrder-bind (codes "chunking" ∷ []) (codes "extraction" ∷ [])
        (by_stage (codes "chunking") (counts (length ids))
          (chunking_stage deps.new_id deps.embed deps.max_chunks_per_run 0 ids))
        λ x.
          InOrder-bind (codes "extraction" ∷ []) []
            (by_stage (codes "extraction") (counts (length ids)) (
              extraction_stage deps.project_id deps.new_id (project_cohorts deps) deps.llm.extract
                (record_usage deps.project_id deps.run_id deps.llm.name deps.llm.model
                  deps.estimate_cost_usd)
                0 ids))
            λ y. InOrder-done tt

  intake-InOrder : InOrder intake_names (intake deps)
  unfolding intake
  intake-InOrder =
      InOrder-bind (codes "ingestion" ∷ [])
        (codes "normalization" ∷ codes "chunking" ∷ codes "extraction" ∷ [])
        (by_stage (codes "ingestion")
          (counting
            (length (current_snaps deps.project_id deps.sources deps.snapshots deps.snapshots)))
          (ingestion_stage deps.project_id deps.sources deps.snapshots))
        λ snaps.
          InOrder-bind (codes "normalization" ∷ []) (codes "chunking" ∷ codes "extraction" ∷ [])
            (by_stage (codes "normalization") (counting (length snaps)) (
              normalization_stage deps.project_id deps.sources deps.snapshots deps.new_id
                deps.date_error snaps))
            λ ids. extract-InOrder ids

  needs-InOrder :
      (corpus : Corpus) (vectors : List (Indexed F))
      → InOrder (codes "decision-support-map" ∷ []) (map_needs deps corpus vectors)
  unfolding map_needs
  needs-InOrder corpus vectors =
      by_stage (codes "decision-support-map") (counting (length (project_cohorts deps))) (
        decision_support_stage deps.floats deps.embed deps.to_lower_case deps.split_words
          deps.project_id deps.new_id (project_cohorts deps) corpus vectors
          deps.llm.map_decision_support
          (record_usage deps.project_id deps.run_id deps.llm.name deps.llm.model
            deps.estimate_cost_usd))

  coverage-InOrder :
      (corpus : Corpus) (vectors : List (Indexed F)) (needs : List NeedRow)
      → InOrder (codes "coverage-matrix" ∷ []) (map_coverage deps corpus vectors needs)
  unfolding map_coverage
  coverage-InOrder corpus vectors needs =
      by_stage (codes "coverage-matrix") (counting (length needs)) (
        coverage_stage deps.project_id needs corpus (is_outdated deps)
          (match_needs deps.floats deps.embed deps.to_lower_case deps.split_words corpus vectors
            needs)
          deps.llm.classify_coverage
          (record_usage deps.project_id deps.run_id deps.llm.name deps.llm.model
            deps.estimate_cost_usd))

  propose-InOrder :
      (corpus : Corpus) (needs : List NeedRow) (coverage : List CoverageEntry)
      → InOrder (codes "candidate-generation" ∷ []) (propose deps corpus needs coverage)
  unfolding propose
  propose-InOrder corpus needs coverage =
      by_stage (codes "candidate-generation") (counting (length needs)) (
        generate_candidates deps.project_id deps.run_id deps.new_id deps.llm.generate_candidates
          (record_usage deps.project_id deps.run_id deps.llm.name deps.llm.model
            deps.estimate_cost_usd)
          (candidate_input corpus (project_cohorts deps) coverage needs))

  compare_needs-InOrder :
      (corpus : Corpus) (vectors : List (Indexed F))
      → InOrder analysis_names (compare_needs deps corpus vectors)
  unfolding compare_needs
  compare_needs-InOrder corpus vectors =
      InOrder-bind [] analysis_names (InOrder-plain (read_signals deps.project_id)) λ sigs.
        InOrder-bind (codes "semantic-dedup" ∷ [])
          (codes "decision-support-map"
            ∷ codes "coverage-matrix"
            ∷ codes "candidate-generation"
            ∷ [])
          (by_stage (codes "semantic-dedup") (dedup_counts (length sigs))
            (dedup_stage deps.to_lower_case deps.project_id))
          λ d.
            InOrder-bind (codes "decision-support-map" ∷ [])
              (codes "coverage-matrix" ∷ codes "candidate-generation" ∷ [])
              (needs-InOrder corpus vectors)
              λ needs.
                InOrder-bind (codes "coverage-matrix" ∷ []) (codes "candidate-generation" ∷ [])
                  (coverage-InOrder corpus vectors needs)
                  λ coverage.
                    InOrder-bind (codes "candidate-generation" ∷ []) []
                      (propose-InOrder corpus needs coverage)
                      λ ids. InOrder-done (record {
                        corpus = corpus;
                        need_rows = needs;
                        coverage_by_need_key = coverage;
                        candidate_ids = ids;
                      })

  analysis-InOrder : InOrder analysis_names (analysis deps)
  unfolding analysis
  analysis-InOrder = record {
    from = λ r.
        (InOrder-bind [] analysis_names
            (InOrder-plain (index_corpus deps.embed (load_corpus deps.project_id r.store)))
            (compare_needs-InOrder (load_corpus deps.project_id r.store))).from
          r;
  }

  decision-InOrder : (p : Prepared) → InOrder decision_names (decision deps p)
  unfolding decision
  decision-InOrder p =
      InOrder-bind (codes "evidence-verification" ∷ [])
        (codes "critique-rejection" ∷ codes "publication" ∷ [])
        (by_stage (codes "evidence-verification") (counting (length p.candidate_ids))
          (verify_stage (prepared_run deps p) p.candidate_ids))
        λ verified.
          InOrder-bind (codes "critique-rejection" ∷ []) (codes "publication" ∷ [])
            (by_stage (codes "critique-rejection") (judged_counts (length verified))
              (critique_stage (prepared_run deps p) verified))
            λ judged.
              by_stage (codes "publication") (published_counts deps p judged)
                (publish_stage (prepared_run deps p) judged)

  stages-InOrder : InOrder stage_names (stages deps)
  unfolding stages
  stages-InOrder =
      InOrder-bind intake_names (analysis_names ++ decision_names) intake-InOrder
        λ x. InOrder-bind analysis_names decision_names analysis-InOrder decision-InOrder

  conclude-logged :
      (q : RunState × Result (Unit {0}))
      → RunLogs stage_names [] q
      → ((conclude deps q).run.error_summary ≡ none)
          × (marks (conclude deps q).run.stage_log ≡ passed stage_names)
        ⊎ ((conclude deps q).run.status ≡ RunStatus.failed)
          × Stopped stage_names [] (conclude deps q).run.stage_log
  unfolding conclude
  conclude-logged (r, ok x) h = inl (refl, h)
  conclude-logged (r, err e) h = inr (refl, h)

  -- The stages of a run go in the order of the code. A run that ends without an error has logged each of
  -- the eleven stages once, in order and none as failed. A run that fails has logged some of the first
  -- stages as passed and then, if it failed within a stage, that next stage as failed, and no other.
  pub run_pipeline-stages :
      (s : Store)
      → ((run_pipeline deps s).run.error_summary ≡ none)
          × (marks (run_pipeline deps s).run.stage_log ≡ passed stage_names)
        ⊎ ((run_pipeline deps s).run.status ≡ RunStatus.failed)
          × Stopped stage_names [] (run_pipeline deps s).run.stage_log
  unfolding run_pipeline
  run_pipeline-stages s = conclude-logged (stages deps (begin s)) (stages-InOrder.from (begin s))
