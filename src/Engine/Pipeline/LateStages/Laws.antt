-- ===== src/Engine/Pipeline/LateStages/Laws.antt =====
-- The late stages as a whole: what a run can have published when they end.
use content_gap.Prelude.{
  ◌≤◌, true, List, [], ◌∷◌, ◌++◌, some, ◌≡◌, refl, sym, ap, ◌⊎◌, inl, inr, All, All_of_mem,
  All-weaken, length, subst,
}
use content_gap.Prelude.Text.{Text}
use content_gap.Shared.Results.{Failure, Result, ok, err}
use content_gap.Database.Tables.{GapEvidence, Chunk, ContentUnit}
use content_gap.Engine.Pipeline.Store.{
  M, after, outcome-cases, Store, Verified, VerifiedEvidence, Corpus, chunk_by_id, unit_by_id,
}
use content_gap.Engine.Pipeline.Verification.{verify_candidates}
use content_gap.Engine.Pipeline.Verification.Laws.{IsExact, verify_candidates-IsSupported}
use content_gap.Engine.Pipeline.Critique.Laws.{Pairwise, critique_each-IsJudged}
use content_gap.Engine.Pipeline.Publication.{
  survives, published, publish_each, publish, mark_shadow,
}
use content_gap.Engine.Pipeline.Publication.Selection.{published-IsBest}
use content_gap.Engine.Pipeline.Publication.Rows.{
  IsStored, IsExactRow, gap_rows, publish_each-IsPublished,
}
use content_gap.Engine.Pipeline.LateStages.{
  Run, verify_stage, critique_stage, publish_stage, late_stages,
}
use content_gap.Engine.Pipeline.LateStages.SameGaps.{SameGaps, critique_each-SameGaps, log}

-- Every chunk of the corpus belongs to a unit of it.
abbrev pub UnitsKnown : Corpus → Type 0
UnitsKnown corpus =
    (id : Text) (chunk : Chunk)
    → chunk_by_id corpus id ≡ some chunk
    → (unit : ContentUnit) × (unit_by_id corpus chunk.content_unit_id ≡ some unit)

Pairwise-All :
    {A B : Type 0} {R : A → B → Type 0} {P : A → Type 0} {Q : B → Type 0}
    → ((a : A) (b : B) → P a → R a b → Q b)
    → (xs : List A) (ys : List B) → All P xs
    → Pairwise R xs ys
    → All Q ys
Pairwise-All f [] [] h e = tt
Pairwise-All f [] (y ∷ ys) h e = absurd e
Pairwise-All f (x ∷ xs) [] h e = absurd e
Pairwise-All f (x ∷ xs) (y ∷ ys) h e = (f x y h.0 e.0, Pairwise-All f xs ys h.1 e.1)

IsExact-IsStored :
    (corpus : Corpus)
    → UnitsKnown corpus
    → (e : VerifiedEvidence) → IsExact corpus e
    → IsStored corpus e
IsExact-IsStored corpus known e exact =
    let (unit, k) = known e.chunk_id exact.chunk exact.known in
    record { exact = exact; unit = unit; unit_known = k }

-- What the late stages may leave behind: an error, with the published gaps of before; or a list of at
-- most the cap of candidates, none rejected or labelled for rejection, each with one new row of `gaps`,
-- and with rows of evidence that all quote a chunk word for word.
pub record IsPublishedBy (run : Run) (s : Store) (chosen : List Verified)
    (r : Store × Result (Unit {0})) : Type 0 where
  pub capped : length chosen ≤ run.max_published_gaps
  pub surviving : All (λ v. survives v ≡ true) chosen
  pub rows : List GapEvidence
  pub succeeded : r.1 ≡ ok tt
  pub gaps :
      r.0.gaps
      ≡ s.gaps
        ++ gap_rows run.project_id run.run_id run.new_id run.digest run.corpus run.snapshots
            s.next_id chosen
  pub evidence : r.0.gap_evidence ≡ s.gap_evidence ++ rows
  pub exact : All (IsExactRow run.corpus) rows

pub record IsUnpublished (s : Store) (r : Store × Result (Unit {0})) : Type 0 where
  pub failure : Failure
  pub failed : r.1 ≡ err failure
  pub gaps : r.0.gaps ≡ s.gaps
  pub evidence : r.0.gap_evidence ≡ s.gap_evidence
  pub ids : r.0.published_gap_ids ≡ s.published_gap_ids

module _ (run : Run) (known : UnitsKnown run.corpus) where
  publish_stage-IsPublishedBy :
      (s : Store) (judged : List Verified)
      → All (λ v. All (IsStored run.corpus) v.evidence) judged
      → IsPublishedBy run s (published run.max_published_gaps judged) (publish_stage run judged s)
  unfolding publish_stage publish mark_shadow
  publish_stage-IsPublishedBy s judged h =
      let best = published-IsBest run.max_published_gaps judged in
      let stored =
        All-weaken (λ v m. All_of_mem _ h m.0) (published run.max_published_gaps judged)
          best.among in
      let p =
        publish_each-IsPublished run.project_id run.run_id run.new_id run.digest run.corpus
          run.snapshots (published run.max_published_gaps judged) s stored in
      let surviving =
        All-weaken (λ v m. m.1) (published run.max_published_gaps judged) best.among in
      elim (outcome-cases (publishing (published run.max_published_gaps judged) s)) [
        | inr (t, f, e) ↦ cc (rw e at p.succeeded)
        | inl (t, x, e) ↦
            let q = rw e at p in
            rw (publish_stage, publish, e)
              record {
                capped = best.capped;
                surviving = surviving;
                rows = q.rows;
                succeeded = refl;
                gaps = q.gaps;
                evidence = q.evidence;
                exact = q.exact;
              }
      ]
    where
      publishing : List Verified → M (Unit {0})
      publishing =
          publish_each run.project_id run.run_id run.new_id run.digest run.corpus run.snapshots

  judged-IsStored :
      (s : Store) (ids : List Text) (judged : List Verified) (t : Store)
      → critique_stage run
          (verify_candidates run.corpus run.need_rows run.coverage_by_need_key s.gap_candidates ids)
          s
        ≡ (t, ok judged)
      → All (λ v. All (IsStored run.corpus) v.evidence) judged
  unfolding critique_stage
  judged-IsStored s ids judged t e =
      let vs =
        verify_candidates run.corpus run.need_rows run.coverage_by_need_key s.gap_candidates ids in
      let supported =
        verify_candidates-IsSupported run.corpus run.need_rows run.coverage_by_need_key
          s.gap_candidates ids in
      let each =
        critique_each-IsJudged run.to_lower_case run.strip_symbols run.corpus run.critique (log run)
          [] vs s t judged (All-weaken (λ v h. h.not_rejected) vs supported) e in
      Pairwise-All
        (λ v w h j.
          rw j.judgement.same_evidence
            (All-weaken (IsExact-IsStored run.corpus known) v.evidence h.exact))
        vs judged supported each

  same_IsPublishedBy :
      (s t : Store) (chosen : List Verified) (r : Store × Result (Unit {0}))
      → SameGaps s t
      → IsPublishedBy run t chosen r
      → IsPublishedBy run s chosen r
  same_IsPublishedBy s t chosen r same p = record {
    capped = p.capped;
    surviving = p.surviving;
    rows = p.rows;
    succeeded = p.succeeded;
    gaps = rw (← same.gaps, ← same.next) p.gaps;
    evidence = rw (← same.gap_evidence) p.evidence;
    exact = p.exact;
  }

  -- The late stages came to their end: the critique judged the candidates that the verification made of
  -- the table, and the best of the judged ones are published.
  pub record IsDecided (ids : List Text) (s : Store) (r : Store × Result (Unit {0})) : Type 0 where
    pub judged : List Verified
    pub critiqued :
        (critique_stage run
          (verify_candidates run.corpus run.need_rows run.coverage_by_need_key s.gap_candidates ids)
          s).1
        ≡ ok judged
    pub by : IsPublishedBy run s (published run.max_published_gaps judged) r

  -- Whatever the language model answers, and whenever it fails, if the chunks' units are known the late
  -- stages either fail with no gap and no evidence written, or succeed and append: one gap for each of
  -- the best candidates that the critique judged, at most the cap, none of them rejected or labelled for
  -- rejection, and evidence that all quotes a chunk of the corpus word for word at the stored offsets.
  pub late_stages-outcome :
      (ids : List Text) (s : Store)
      → IsUnpublished s (late_stages run ids s) ⊎ IsDecided ids s (late_stages run ids s)
  unfolding late_stages verify_stage critique_stage
  late_stages-outcome ids s =
      let vs =
        verify_candidates run.corpus run.need_rows run.coverage_by_need_key s.gap_candidates ids in
      let same : SameGaps s (critique_stage run vs s).0 = critique_each-SameGaps run [] vs s in
      elim (outcome-cases (critique_stage run vs s)) [
        | inr (t, f, e) ↦
            let same_t : SameGaps s t = subst (λ r. SameGaps s r.0) e same in
            inl (
              subst (λ r. IsUnpublished s (after (publish_stage run) r)) (sym e)
                record {
                  failure = f;
                  failed = refl;
                  gaps = same_t.gaps;
                  evidence = same_t.gap_evidence;
                  ids = same_t.ids;
                })
        | inl (t, judged, e) ↦
            let same_t : SameGaps s t = subst (λ r. SameGaps s r.0) e same in
            let p = publish_stage-IsPublishedBy t judged (judged-IsStored s ids judged t e) in
            inr (record {
              judged = judged;
              critiqued = ap (λ r. r.1) e;
              by =
                  subst
                    (λ r.
                      IsPublishedBy run s (published run.max_published_gaps judged)
                        (after (publish_stage run) r))
                    (sym e)
                    (same_IsPublishedBy s t (published run.max_published_gaps judged)
                      (publish_stage run judged t) same_t p);
            })
      ]
