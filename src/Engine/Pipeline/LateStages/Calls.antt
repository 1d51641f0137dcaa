-- ===== src/Engine/Pipeline/LateStages/Calls.antt =====
-- The late stages only add to the count of the calls of the model.
use content_gap.Prelude.{ℕ, ◌≤◌, List, [], ◌∷◌, ◌++◌, Option, none, some, arith}
use content_gap.Shared.Enums.{GapCandidateStatus}
use content_gap.Database.Tables.{ContentUnit, GapCandidate, GapEvidence}
use content_gap.Prelude.Text.{Text, codes}
use content_gap.Shared.Results.{Result, ok, err}
use content_gap.Engine.Pipeline.Store.{
  M, after, ◌>>=◌, ◌>>◌, Store, Verified, VerifiedEvidence, chunk_by_id, unit_by_id,
  update_candidate, modify,
}
use content_gap.Engine.Pipeline.Publication.{
  defined, insert_gap, insert_evidence, publish_each, mark_shadow, publish, published, shadow_ids,
  evidence_row,
}
use content_gap.Engine.Pipeline.LateStages.{
  Run, verify_stage, critique_stage, publish_stage, late_stages,
}
use content_gap.Engine.Pipeline.LateStages.SameGaps.{critique_each-SameGaps}

record Mono {A : Type 0} (m : M A) : Type 0 where
  from : (s : Store) → s.usage.calls ≤ (m s).0.usage.calls

after-calls :
    {A B : Type 0} (n : ℕ) (f : A → M B) (r : Store × Result A)
    → n ≤ r.0.usage.calls
    → ((a : A) → Mono (f a))
    → n ≤ (after f r).0.usage.calls
after-calls n f (t, ok a) h k = omega (arith, h, (k a).from t)
after-calls n f (t, err e) h k = h

Mono-bind :
    {A B : Type 0} {m : M A} {f : A → M B} → Mono m → ((a : A) → Mono (f a)) → Mono (m >>= f)
Mono-bind {m} {f} h k = record { from = λ s. after-calls s.usage.calls f (m s) (h.from s) k }

Mono-then : {A B : Type 0} {m : M A} {k : M B} → Mono m → Mono k → Mono (m >> k)
Mono-then {m} {k} h l = record {
  from = λ s. after-calls s.usage.calls (λ _. k) (m s) (h.from s) (λ _. l);
}

Mono-defined : {A : Type 0} (property : Text) (o : Option A) → Mono (defined property o)
Mono-defined property none = record { from = λ s. omega arith }
Mono-defined property (some a) = record { from = λ s. omega arith }

module _ (run : Run) where
  abbrev store_evidence : Text → List VerifiedEvidence → M (Unit {0})
  store_evidence gap_id es =
      insert_evidence run.project_id run.run_id run.new_id run.digest run.corpus run.snapshots
        gap_id es

  abbrev row_of : Text → VerifiedEvidence → ContentUnit → GapEvidence
  row_of gap_id e unit =
      evidence_row run.project_id run.run_id run.new_id run.digest run.corpus run.snapshots gap_id e
        unit

  abbrev append_row : GapEvidence → M (Unit {0})
  append_row row = modify (λ s. record s { gap_evidence = s.gap_evidence ++ (row ∷ []) })

  append_row-Mono : (row : GapEvidence) → Mono (append_row row)
  append_row-Mono row = record { from = λ s. omega arith }

  insert_evidence-Mono :
      (gap_id : Text) (es : List VerifiedEvidence) → Mono (store_evidence gap_id es)
  unfolding insert_evidence
  insert_evidence-Mono gap_id [] = record { from = λ s. omega arith }
  insert_evidence-Mono gap_id (e ∷ es) =
      Mono-bind {m = defined (codes "contentUnitId") (chunk_by_id run.corpus e.chunk_id)}
        {f = λ chunk.
          defined (codes "sourceSnapshotId") (unit_by_id run.corpus chunk.content_unit_id)
          >>= λ unit. append_row (row_of gap_id e unit) >> store_evidence gap_id es}
        (Mono-defined (codes "contentUnitId") (chunk_by_id run.corpus e.chunk_id))
        λ chunk.
          Mono-bind
            {m = defined (codes "sourceSnapshotId") (unit_by_id run.corpus chunk.content_unit_id)}
            {f = λ unit. append_row (row_of gap_id e unit) >> store_evidence gap_id es}
            (Mono-defined (codes "sourceSnapshotId") (unit_by_id run.corpus chunk.content_unit_id))
            λ unit.
              Mono-then (append_row-Mono (row_of gap_id e unit)) (insert_evidence-Mono gap_id es)

  insert_gap-Mono :
      (v : Verified)
      → Mono (insert_gap run.project_id run.run_id run.new_id run.digest run.corpus run.snapshots v)
  unfolding insert_gap
  insert_gap-Mono v = record { from = λ s. omega arith }

  update_candidate-Mono :
      (id : Text) (f : GapCandidate → GapCandidate) → Mono (update_candidate id f)
  unfolding update_candidate
  update_candidate-Mono id f = record { from = λ s. omega arith }

  mark_shadow-Mono :
      (ids : List Text)
      → Mono
          (mark_shadow run.project_id run.run_id run.new_id run.digest run.corpus run.snapshots ids)
  unfolding mark_shadow
  mark_shadow-Mono ids = record { from = λ s. omega arith }

  publish_each-Mono :
      (vs : List Verified)
      → Mono
          (publish_each run.project_id run.run_id run.new_id run.digest run.corpus run.snapshots vs)
  unfolding publish_each
  publish_each-Mono [] = record { from = λ s. omega arith }
  publish_each-Mono (v ∷ vs) = Mono-bind (insert_gap-Mono v) λ gap_id.
      Mono-then
        (update_candidate-Mono v.candidate_id
          λ c. record c { status = GapCandidateStatus.published })
        (Mono-then (insert_evidence-Mono gap_id v.evidence) (publish_each-Mono vs))

  publish_stage-Mono : (judged : List Verified) → Mono (publish_stage run judged)
  unfolding publish_stage publish
  publish_stage-Mono judged =
      Mono-then (publish_each-Mono (published run.max_published_gaps judged)) (
        mark_shadow-Mono (
          shadow_ids run.project_id run.run_id run.new_id run.digest run.corpus run.snapshots
            run.max_published_gaps judged))

  critique_stage-Mono : (vs : List Verified) → Mono (critique_stage run vs)
  unfolding critique_stage
  critique_stage-Mono vs = record { from = λ s. (critique_each-SameGaps run [] vs s).calls }

  pub late_stages-calls :
      (ids : List Text) (s : Store) → s.usage.calls ≤ (late_stages run ids s).0.usage.calls
  unfolding late_stages verify_stage
  late_stages-calls ids s =
      (Mono-bind (critique_stage-Mono _) λ judged. publish_stage-Mono judged).from s
