-- ===== src/Engine/Pipeline/Runs/Known.antt =====
-- The corpus of a run: each of its chunks belongs to a unit of it, and the decision stands on it.
use content_gap.Prelude.{
  Bool, true, List, [], ◌∷◌, some, ◌≡◌, refl, ◌∙◌, inl, inr, Bool-cases, Option-cases, All_of_mem,
  find, Memᴰ-filter_of, length,
}
use content_gap.Prelude.Text.{Text, codes, text_eq, text_eq_iff, map_get}
use content_gap.Shared.Results.{Result, ok, err}
use content_gap.Engine.Retrieval.{Indexed}
use content_gap.Engine.Pipeline.Verification.{NeedRow, CoverageEntry}
use content_gap.Engine.Pipeline.CoverageMatrix.{read_signals}
use content_gap.Engine.Pipeline.StageLog.{RunState, RunM, done, next, ◌>>=◌, stage, plain}
use content_gap.Engine.Pipeline.Runs.{map_needs, map_coverage, propose, compare_needs}
use content_gap.Engine.Pipeline.RunContext.{RunDeps, Prepared, dedup_stage, dedup_counts}
use content_gap.Database.Tables.{ContentUnit}
use content_gap.Engine.Pipeline.Store.{Store, Corpus, chunk_by_id, unit_by_id}
use content_gap.Engine.Pipeline.DecisionSupport.{load_corpus}
use content_gap.Engine.Pipeline.LateStages.Laws.{UnitsKnown}
use content_gap.Engine.Pipeline.Runs.Growth.{Owned, AllOwned}
use mathlib.Core.List.{Memᴰ}

Memᴰ-map_get :
    {A : Type 0} (key : A → Text) (k : Text) (xs : List A) (a : A)
    → map_get key k xs ≡ some a
    → Memᴰ a xs
unfolding map_get
Memᴰ-map_get key k [] a e = cc
Memᴰ-map_get key k (x ∷ xs) a e = elim (Option-cases (map_get key k xs)) [
  | inr (y, q) ↦ Memᴰ.tail (Memᴰ-map_get key k xs a (q ∙ (rw q at e)))
  | inl q ↦ elim (Bool-cases (text_eq (key x) k)) [
    | inl t ↦ let same : some x ≡ some a = rw (q, t) at e in Memᴰ.head (cc)
    | inr f ↦ cc (rw (q, f) at e)
  ]
]

find_of_member :
    {A : Type 0} (p : A → Bool) (xs : List A) (a : A)
    → Memᴰ a xs
    → p a ≡ true
    → (b : A) × (find p xs ≡ some b)
find_of_member p [] a m h = elim m [ ]
find_of_member p (x ∷ xs) a (Memᴰ.head e) h = rw (← e, h) (a, refl)
find_of_member p (x ∷ xs) a (Memᴰ.tail m) h = elim (Bool-cases (p x)) [
  | inl e ↦ rw e (x, refl)
  | inr e ↦ rw e (find_of_member p xs a m h)
]

-- If each chunk of the database belongs to a unit of the project, each chunk of the corpus does.
pub owned_UnitsKnown :
    (project_id : Text) (s : Store) → AllOwned project_id s → UnitsKnown (load_corpus project_id s)
unfolding load_corpus chunk_by_id unit_by_id
owned_UnitsKnown project_id s owned id chunk e =
    let o : Owned project_id s.content_units chunk.content_unit_id =
      All_of_mem _ owned (Memᴰ-map_get (λ c. c.id) id s.chunks chunk e) in
    let p : ContentUnit → Bool = λ u. text_eq u.id chunk.content_unit_id in
    find_of_member p _ o.unit
      (Memᴰ-filter_of (λ u. text_eq u.project_id project_id) o.stored
        ((text_eq_iff o.unit.project_id project_id).1 o.of_project))
      ((text_eq_iff o.unit.id chunk.content_unit_id).1 o.same_id)

module _ {F : Type 0} (deps : RunDeps F) where
  -- If the computation succeeds, what it gives stands on the corpus.
  abbrev pub RunGives : Corpus → RunState × Result Prepared → Type 0
  RunGives corpus (r, ok p) = p.corpus ≡ corpus
  RunGives corpus (r, err e) = Unit

  pub record Gives (corpus : Corpus) (m : RunM Prepared) : Type 0 where
    pub from : (r : RunState) → RunGives corpus (m r)

  pub next-Gives :
      {A : Type 0} (corpus : Corpus) (f : A → RunM Prepared) (q : RunState × Result A)
      → ((a : A) → Gives corpus (f a))
      → RunGives corpus (next f q)
  next-Gives corpus f (r, ok a) h = (h a).from r
  next-Gives corpus f (r, err e) h = tt

  Gives-later :
      {A : Type 0} (corpus : Corpus) (m : RunM A) {f : A → RunM Prepared}
      → ((a : A) → Gives corpus (f a))
      → Gives corpus (m >>= f)
  Gives-later corpus m {f} h = record { from = λ r. next-Gives corpus f (m r) h }

  abbrev prepared : Corpus → List NeedRow → List CoverageEntry → List Text → Prepared
  prepared corpus needs coverage ids = record {
    corpus = corpus;
    need_rows = needs;
    coverage_by_need_key = coverage;
    candidate_ids = ids;
  }

  Gives-done : (p : Prepared) → Gives p.corpus (done p)
  Gives-done p = record { from = λ r. refl }

  pub compare_needs-Gives :
      (corpus : Corpus) (vectors : List (Indexed F))
      → Gives corpus (compare_needs deps corpus vectors)
  unfolding compare_needs
  compare_needs-Gives corpus vectors =
      Gives-later corpus (plain (read_signals deps.project_id)) λ sigs.
        Gives-later corpus
          (stage deps.message_of (codes "semantic-dedup") (dedup_counts (length sigs))
            (dedup_stage deps.to_lower_case deps.project_id))
          λ d. Gives-later corpus (map_needs deps corpus vectors) λ needs.
            Gives-later corpus (map_coverage deps corpus vectors needs) λ coverage.
              Gives-later corpus (propose deps corpus needs coverage)
                {f = λ ids. done (prepared corpus needs coverage ids)}
                λ ids. Gives-done (prepared corpus needs coverage ids)
