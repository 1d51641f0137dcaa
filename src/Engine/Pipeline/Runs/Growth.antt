-- ===== src/Engine/Pipeline/Runs/Growth.antt =====
-- What no stage before the decision changes: the published gaps; and what all of them keep: the units,
-- the ownership of the chunks, and the count of calls of the model.
use content_gap.Prelude.{
  ℕ, suc, ◌++◌, Option, Option-cases, inl, inr, ◌≤◌, List, [], ◌∷◌, ◌≡◌, refl, ◌∙◌, arith, All,
  All-weaken, All-append,
}
use content_gap.Prelude.Text.{Text}
use content_gap.Shared.Results.{Failure, Result, ok, err}
use content_gap.Database.Tables.{ContentUnit, Chunk, ExtractedSignalRow, DecisionNeed}
use content_gap.Llm.Types.{LlmResult}
use content_gap.Engine.Pipeline.Store.{
  M, pure, lift, after, ◌>>=◌, ◌>>◌, modify, Store, record_usage, refused_date, insert_unit,
  insert_chunk, insert_signal, insert_need,
}
use mathlib.Core.List.{Memᴰ}
use mathlib.Core.List.Memᴰ as MemD

module _ (project_id : Text) where
  -- Some unit of the project has this id.
  pub record Owned (units : List ContentUnit) (id : Text) : Type 0 where
    pub unit : ContentUnit
    pub stored : Memᴰ unit units
    pub same_id : unit.id ≡ id
    pub of_project : unit.project_id ≡ project_id

  -- Each chunk belongs to a unit of the project.
  abbrev pub AllOwned : Store → Type 0
  AllOwned s = All (λ c. Owned s.content_units c.content_unit_id) s.chunks

  pub record Grows (s t : Store) : Type 0 where
    pub gaps : t.gaps ≡ s.gaps
    pub gap_evidence : t.gap_evidence ≡ s.gap_evidence
    pub ids : t.published_gap_ids ≡ s.published_gap_ids
    pub calls : s.usage.calls ≤ t.usage.calls
    pub units : (u : ContentUnit) → Memᴰ u s.content_units → Memᴰ u t.content_units
    pub owned : AllOwned s → AllOwned t

  pub Grows-refl : (s : Store) → Grows s s
  Grows-refl s = record {
    gaps = refl;
    gap_evidence = refl;
    ids = refl;
    calls = omega arith;
    units = λ u m. m;
    owned = λ h. h;
  }

  pub Grows-trans : {s t u : Store} → Grows s t → Grows t u → Grows s u
  Grows-trans p q = record {
    gaps = q.gaps ∙ p.gaps;
    gap_evidence = q.gap_evidence ∙ p.gap_evidence;
    ids = q.ids ∙ p.ids;
    calls = omega (arith, p.calls, q.calls);
    units = λ u m. q.units u (p.units u m);
    owned = λ h. q.owned (p.owned h);
  }

  pub Owned-Grows :
      {s t : Store} {id : Text} → Grows s t → Owned s.content_units id → Owned t.content_units id
  Owned-Grows g o = record {
    unit = o.unit;
    stored = g.units o.unit o.stored;
    same_id = o.same_id;
    of_project = o.of_project;
  }

  -- What a computation does to the store whether it succeeds or not.
  pub record Keeps {A : Type 0} (m : M A) : Type 0 where
    pub from : (s : Store) → Grows s (m s).0

  pub after-Grows :
      {A B : Type 0} {s : Store} (f : A → M B) (r : Store × Result A)
      → Grows s r.0
      → ((a : A) → Keeps (f a))
      → Grows s (after f r).0
  after-Grows f (t, ok a) h k = Grows-trans h ((k a).from t)
  after-Grows f (t, err e) h k = h

  pub Keeps-bind :
      {A B : Type 0} {m : M A} {f : A → M B} → Keeps m → ((a : A) → Keeps (f a)) → Keeps (m >>= f)
  Keeps-bind {m} {f} k l = record { from = λ s. after-Grows f (m s) (k.from s) l }

  pub Keeps-then : {A B : Type 0} {m : M A} {k : M B} → Keeps m → Keeps k → Keeps (m >> k)
  Keeps-then {m} {k} h l = record { from = λ s. after-Grows (λ _. k) (m s) (h.from s) (λ _. l) }

  pub Keeps-pure : {A : Type 0} (a : A) → Keeps (pure a)
  Keeps-pure a = record { from = Grows-refl }

  pub Keeps-lift : {A : Type 0} (r : Result A) → Keeps (lift r)
  Keeps-lift r = record { from = Grows-refl }

  -- A computation that writes neither the published gaps nor the corpus.
  pub same_corpus :
      {s t : Store}
      → t.gaps ≡ s.gaps
      → t.gap_evidence ≡ s.gap_evidence
      → t.published_gap_ids ≡ s.published_gap_ids
      → s.usage.calls ≤ t.usage.calls
      → t.content_units ≡ s.content_units
      → t.chunks ≡ s.chunks
      → Grows s t
  same_corpus {s} {t} g e i c u k = record {
    gaps = g;
    gap_evidence = e;
    ids = i;
    calls = c;
    units = λ v m. rw u m;
    owned = λ h. rw (k, u) h;
  }

  pub Keeps-modify : (f : Store → Store) → ((s : Store) → Grows s (f s)) → Keeps (modify f)
  Keeps-modify f h = record { from = h }

  pub insert_signal-Keeps :
      (new_id : ℕ → Text) (row : Text → ExtractedSignalRow) → Keeps (insert_signal new_id row)
  unfolding insert_signal
  insert_signal-Keeps new_id row = record {
    from = λ s. same_corpus refl refl refl (omega arith) refl refl;
  }

  pub insert_need-Keeps :
      (new_id : ℕ → Text) (row : Text → DecisionNeed) → Keeps (insert_need new_id row)
  unfolding insert_need
  insert_need-Keeps new_id row = record {
    from = λ s. same_corpus refl refl refl (omega arith) refl refl;
  }

  pub record_usage-Keeps :
      {T : Type 0} (run_id provider model : Text) (cost : ℕ → ℕ → Text) (operation : Text)
      (u : LlmResult T)
      → Keeps (record_usage project_id run_id provider model cost operation u)
  unfolding record_usage
  record_usage-Keeps run_id provider model cost operation u = record {
    from = λ s. same_corpus refl refl refl (omega arith) refl refl;
  }

  pub unit_added-Grows :
      (new_id : ℕ → Text) (row : Text → ContentUnit) (s : Store)
      → Grows s (record s {
        content_units = s.content_units ++ (row (new_id s.next_id) ∷ []);
        next_id = suc s.next_id;
      })
  unit_added-Grows new_id row s = record {
    gaps = refl;
    gap_evidence = refl;
    ids = refl;
    calls = omega arith;
    units = λ u m. MemD.append_left (row (new_id s.next_id) ∷ []) m;
    owned =
        All-weaken
          (λ c o. record {
            unit = o.unit;
            stored = MemD.append_left (row (new_id s.next_id) ∷ []) o.stored;
            same_id = o.same_id;
            of_project = o.of_project;
          })
          s.chunks;
  }

  pub insert_unit-Grows :
      (new_id : ℕ → Text) (date_error : Text → Option Failure) (row : Text → ContentUnit)
      (s : Store)
      → Grows s (insert_unit new_id date_error row s).0
  unfolding insert_unit
  insert_unit-Grows new_id date_error row s =
      elim (Option-cases (refused_date date_error (row (new_id s.next_id)).published_at)) [
        | inl e ↦ rw (insert_unit, e) (unit_added-Grows new_id row s)
        | inr (f, e) ↦ rw (insert_unit, e) (Grows-refl s)
      ]

  pub insert_chunk-Grows :
      (new_id : ℕ → Text) (row : Text → Chunk) (s : Store)
      → Owned s.content_units (row (new_id s.next_id)).content_unit_id
      → Grows s (insert_chunk new_id row s).0
  unfolding insert_chunk
  insert_chunk-Grows new_id row s o = record {
    gaps = refl;
    gap_evidence = refl;
    ids = refl;
    calls = omega arith;
    units = λ u m. m;
    owned = λ h. All-append _ s.chunks (row (new_id s.next_id) ∷ []) h (o, tt);
  }
