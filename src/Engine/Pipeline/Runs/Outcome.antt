-- ===== src/Engine/Pipeline/Runs/Outcome.antt =====
-- A run as a whole: what it can leave behind.
use content_gap.Prelude.{◌≡◌, refl, sym, ap, ◌∙◌, subst, ◌⊎◌, inl}
use content_gap.Shared.Results.{Result, ok, err}
use content_gap.Engine.Pipeline.Store.{Store}
use content_gap.Engine.Pipeline.DecisionSupport.{load_corpus, index_corpus}
use content_gap.Engine.Pipeline.StageLog.{RunState, next, ◌>>=◌, plain}
use content_gap.Engine.Pipeline.Runs.{
  compare_needs, intake, analysis, decision, stages, begin, conclude, run_pipeline,
}
use content_gap.Engine.Pipeline.RunContext.{RunDeps, Prepared}
use content_gap.Engine.Pipeline.Runs.Growth.{AllOwned, Grows}
use content_gap.Engine.Pipeline.Runs.Analysis.{index_corpus-Keeps}
use content_gap.Engine.Pipeline.Runs.Logged.{KeepsRun-plain, next-Grows}
use content_gap.Engine.Pipeline.Runs.Calls.{RunCalled, next-later}
use content_gap.Engine.Pipeline.Runs.Steps.{
  intake-Grows, compare_needs-KeepsRun, compare_needs-Calls,
}
use content_gap.Engine.Pipeline.Runs.Known.{
  owned_UnitsKnown, compare_needs-Gives, RunGives, next-Gives,
}
use content_gap.Engine.Pipeline.Runs.Conclusion.{
  early_run, corpus_of_run, IsFailedRun, IsSucceededRun, Outcome, decision-Outcome,
}

module _ {F : Type 0} (deps : RunDeps F) where
  -- What the stages up to the decision leave: an error, or a run that is ready for it.
  early-Outcome :
      (s : Store) (q : RunState × Result Prepared)
      → AllOwned deps.project_id s
      → Grows deps.project_id (begin s).store (intake deps (begin s)).0.store
      → Grows deps.project_id (intake deps (begin s)).0.store q.0.store
      → RunGives deps (corpus_of_run deps s) q
      → RunCalled q
      → early_run deps s ≡ q
      → stages deps (begin s) ≡ next (decision deps) q
      → Outcome deps s (conclude deps (next (decision deps) q))
  unfolding conclude
  early-Outcome s (r, err e) owned g h gives called early whole = inl (record {
    failure = e;
    thrown = ap (λ w. w.1) whole;
    status = refl;
    summary = refl;
    gaps = h.gaps ∙ g.gaps;
    evidence = h.gap_evidence ∙ g.gap_evidence;
    ids = h.ids ∙ g.ids;
  })
  early-Outcome s (r, ok p) owned g h gives called early whole =
      decision-Outcome deps s p r
        (record {
          corpus = gives;
          known = owned_UnitsKnown deps.project_id _ (g.owned owned);
          gaps = h.gaps ∙ g.gaps;
          evidence = h.gap_evidence ∙ g.gap_evidence;
          ids = h.ids ∙ g.ids;
          called = called;
        })
        early whole

  analysis-Grows : (r : RunState) → Grows deps.project_id r.store (analysis deps r).0.store
  unfolding analysis
  analysis-Grows r =
      let corpus = load_corpus deps.project_id r.store in
      next-Grows deps.project_id (compare_needs deps corpus)
        (plain (index_corpus deps.embed corpus) r)
        ((KeepsRun-plain deps.project_id
            (index_corpus-Keeps deps.project_id deps.embed corpus)).from
          r)
        (compare_needs-KeepsRun deps corpus)

  analysis-Called : (r : RunState) → RunCalled (analysis deps r)
  unfolding analysis
  analysis-Called r =
      let corpus = load_corpus deps.project_id r.store in
      next-later (compare_needs deps corpus) (plain (index_corpus deps.embed corpus) r)
        (compare_needs-Calls deps corpus)

  analysis-Gives :
      (r : RunState) → RunGives deps (load_corpus deps.project_id r.store) (analysis deps r)
  unfolding analysis
  analysis-Gives r =
      let corpus = load_corpus deps.project_id r.store in
      next-Gives deps corpus (compare_needs deps corpus) (plain (index_corpus deps.embed corpus) r)
        (compare_needs-Gives deps corpus)

  after_intake-Outcome :
      (s : Store) (q : RunState × Result (Unit {0}))
      → intake deps (begin s) ≡ q
      → AllOwned deps.project_id s
      → stages deps (begin s) ≡ next (λ _. analysis deps >>= decision deps) q
      → Outcome deps s (conclude deps (next (λ _. analysis deps >>= decision deps) q))
  unfolding conclude
  after_intake-Outcome s (r, err e) h owned whole =
      let g =
        subst (λ w. Grows deps.project_id (begin s).store w.0.store) h
          (intake-Grows deps (begin s)) in
      inl (record {
        failure = e;
        thrown = ap (λ w. w.1) whole;
        status = refl;
        summary = refl;
        gaps = g.gaps;
        evidence = g.gap_evidence;
        ids = g.ids;
      })
  after_intake-Outcome s (r, ok x) h owned whole =
      early-Outcome s (analysis deps r) owned (intake-Grows deps (begin s))
        (subst (λ w. Grows deps.project_id w.0.store (analysis deps r).0.store) (sym h)
          (analysis-Grows r))
        (subst (λ w. RunGives deps (load_corpus deps.project_id w.0.store) (analysis deps r))
          (sym h) (analysis-Gives r))
        (analysis-Called r) (ap (next (λ _. analysis deps)) h) whole

  -- If every chunk of the database belongs to a unit of the project, then whatever the model and the
  -- embeddings answer, whichever of their calls fails, and if the database fails on nothing but a date
  -- that it refuses, a run ends in one of two ways. It is stored as FAILED with the message of what its
  -- stages threw, and has written no gap and no evidence and gives no gap. Or it is stored as SUCCEEDED
  -- (never as PARTIAL), and has appended one gap for each of the best candidates that its critique
  -- judged, at most `max_published_gaps`, none of them rejected or labelled for rejection, and evidence
  -- that quotes chunks of the corpus word for word at the stored offsets.
  pub run_pipeline-outcome :
      (s : Store)
      → AllOwned deps.project_id s
      → IsFailedRun deps s (run_pipeline deps s) ⊎ IsSucceededRun deps s (run_pipeline deps s)
  unfolding run_pipeline stages
  run_pipeline-outcome s owned = after_intake-Outcome s (intake deps (begin s)) refl owned refl
