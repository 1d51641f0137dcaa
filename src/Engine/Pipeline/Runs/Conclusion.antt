-- ===== src/Engine/Pipeline/Runs/Conclusion.antt =====
-- The ends of a run, and that its decision comes to one of them.
use content_gap.Prelude.{
  ℕ, ◌≤◌, true, false, List, [], ◌++◌, none, some, ◌≡◌, refl, sym, ap, ◌∙◌, subst, ◌⊎◌, inl, inr,
  arith, All, length, ◌==◌,
}
use content_gap.Shared.Enums.{RunStatus}
use content_gap.Shared.Results.{Failure, Result, ok, err}
use content_gap.Database.Tables.{GapEvidence}
use content_gap.Engine.Pipeline.Store.{Store, Verified, Corpus}
use content_gap.Engine.Pipeline.DecisionSupport.{load_corpus}
use content_gap.Engine.Pipeline.Publication.{survives, published}
use content_gap.Engine.Pipeline.Publication.Rows.{IsExactRow, gap_rows}
use content_gap.Engine.Pipeline.LateStages.{late_stages, critique_stage}
use content_gap.Engine.Pipeline.Verification.{verify_candidates}
use content_gap.Engine.Pipeline.LateStages.Laws.{
  UnitsKnown, IsPublishedBy, IsUnpublished, late_stages-outcome,
}
use content_gap.Engine.Pipeline.LateStages.Calls.{late_stages-calls}
use content_gap.Engine.Pipeline.StageLog.{RunState, next}
use content_gap.Engine.Pipeline.Runs.{
  prepared_run, intake, analysis, stages, decision, Finished, begin, conclude,
}
use content_gap.Engine.Pipeline.RunContext.{RunDeps, Prepared}
use content_gap.Engine.Pipeline.Runs.Logged.{erase}
use content_gap.Engine.Pipeline.Runs.Steps.{decision-Logs}

module _ {F : Type 0} (deps : RunDeps F) where
  -- The corpus that a run loads after its intake.
  abbrev pub corpus_of_run : Store → Corpus
  corpus_of_run s = load_corpus deps.project_id (intake deps (begin s)).0.store

  -- The stages before the decision.
  abbrev pub early_run : Store → RunState × Result Prepared
  early_run s = next (λ _. analysis deps) (intake deps (begin s))

  -- A failed run: the message of what its stages threw is stored, and it has published nothing.
  pub record IsFailedRun (s : Store) (f : Finished) : Type 0 where
    pub failure : Failure
    pub thrown : (stages deps (begin s)).1 ≡ err failure
    pub status : f.run.status ≡ RunStatus.failed
    pub summary : f.run.error_summary ≡ some (deps.message_of failure)
    pub gaps : f.store.gaps ≡ s.gaps
    pub evidence : f.store.gap_evidence ≡ s.gap_evidence
    pub ids : f.published_gap_ids ≡ []

  -- What the critique of a run judged, and on what.
  pub record IsJudgedRun (s : Store) (judged : List Verified) : Type 0 where
    pub ready : RunState
    pub prepared : Prepared
    pub early : early_run s ≡ (ready, ok prepared)
    pub critiqued :
        (critique_stage
          (prepared_run deps prepared)
          (verify_candidates prepared.corpus prepared.need_rows prepared.coverage_by_need_key
            ready.store.gap_candidates prepared.candidate_ids)
          ready.store).1
        ≡ ok judged

  -- A run that succeeds: it has appended a row of `gaps` for each of the best candidates that its
  -- critique judged, at most the cap, none of them rejected or labelled for rejection, and rows of
  -- evidence that quote the corpus.
  pub record IsSucceededRun (s : Store) (f : Finished) : Type 0 where
    pub status : f.run.status ≡ RunStatus.succeeded
    pub summary : f.run.error_summary ≡ none
    pub judged : List Verified
    pub by_critique : IsJudgedRun s judged
    pub capped : length (published deps.max_published_gaps judged) ≤ deps.max_published_gaps
    pub surviving : All (λ v. survives v ≡ true) (published deps.max_published_gaps judged)
    pub first_id : ℕ
    pub gaps :
        f.store.gaps
        ≡ s.gaps
          ++ gap_rows deps.project_id deps.run_id deps.new_id deps.digest
              (corpus_of_run s)
              deps.snapshots
              first_id
              (published deps.max_published_gaps judged)
    pub rows : List GapEvidence
    pub evidence : f.store.gap_evidence ≡ s.gap_evidence ++ rows
    pub exact : All (IsExactRow (corpus_of_run s)) rows

  abbrev pub Outcome : Store → Finished → Type 0
  Outcome s f = IsFailedRun s f ⊎ IsSucceededRun s f

  -- What holds of a run before its decision.
  pub record IsReady (s : Store) (p : Prepared) (t : Store) : Type 0 where
    pub corpus : p.corpus ≡ corpus_of_run s
    pub known : UnitsKnown (corpus_of_run s)
    pub gaps : t.gaps ≡ s.gaps
    pub evidence : t.gap_evidence ≡ s.gap_evidence
    pub ids : t.published_gap_ids ≡ []
    pub called : 1 ≤ t.usage.calls

  conclude-unpublished :
      (s t : Store) (p : Prepared) (r : RunState × Result (Unit {0}))
      → IsReady s p t
      → IsUnpublished t (erase r)
      → stages deps (begin s) ≡ r
      → Outcome s (conclude deps r)
  unfolding conclude
  conclude-unpublished s t p (r, ok x) ready u whole = cc u.failed
  conclude-unpublished s t p (r, err e) ready u whole = inl (record {
    failure = e;
    thrown = ap (λ w. w.1) whole;
    status = refl;
    summary = refl;
    gaps = u.gaps ∙ ready.gaps;
    evidence = u.evidence ∙ ready.evidence;
    ids = u.ids ∙ ready.ids;
  })

  some_calls : (n : ℕ) → 1 ≤ n → (n == 0) ≡ false
  some_calls n h = ground arith

  conclude-published :
      (s t : Store) (p : Prepared) (judged : List Verified) (r : RunState × Result (Unit {0}))
      → IsReady s p t
      → IsJudgedRun s judged
      → IsPublishedBy (prepared_run deps p) t (published deps.max_published_gaps judged) (erase r)
      → t.usage.calls ≤ r.0.store.usage.calls
      → Outcome s (conclude deps r)
  unfolding conclude prepared_run
  conclude-published s t p judged (r, err e) ready j u calls = cc u.succeeded
  conclude-published s t p judged (r, ok x) ready j u calls = inr (record {
    status = rw (some_calls r.store.usage.calls (omega (arith, ready.called, calls))) refl;
    summary = refl;
    judged = judged;
    by_critique = j;
    capped = u.capped;
    surviving = u.surviving;
    first_id = t.next_id;
    gaps =
        subst
          (λ corpus.
            r.store.gaps
            ≡ s.gaps
              ++ gap_rows deps.project_id deps.run_id deps.new_id deps.digest corpus deps.snapshots
                  t.next_id (published deps.max_published_gaps judged))
          ready.corpus (rw (← ready.gaps) u.gaps);
    rows = u.rows;
    evidence = rw (← ready.evidence) u.evidence;
    exact = subst (λ corpus. All (IsExactRow corpus) u.rows) ready.corpus u.exact;
  })

  pub decision-Outcome :
      (s : Store) (p : Prepared) (r : RunState)
      → IsReady s p r.store
      → early_run s ≡ (r, ok p)
      → stages deps (begin s) ≡ decision deps p r
      → Outcome s (conclude deps (decision deps p r))
  unfolding prepared_run
  decision-Outcome s p r ready early whole =
      let run = prepared_run deps p in
      let q : erase (decision deps p r) ≡ late_stages run p.candidate_ids r.store =
        (decision-Logs deps p).from r in
      let known : UnitsKnown p.corpus = subst UnitsKnown (sym ready.corpus) ready.known in
      let calls : r.store.usage.calls ≤ (erase (decision deps p r)).0.usage.calls =
        rw q (late_stages-calls run p.candidate_ids r.store) in
      elim (late_stages-outcome run known p.candidate_ids r.store) [
        | inl u ↦
            conclude-unpublished s r.store p (decision deps p r) ready
              (subst (IsUnpublished r.store) (sym q) u) whole
        | inr d ↦
            conclude-published s r.store p d.judged (decision deps p r) ready
              (record { ready = r; prepared = p; early = early; critiqued = d.critiqued })
              (subst (IsPublishedBy run r.store (published deps.max_published_gaps d.judged))
                (sym q) d.by)
              calls
      ]
