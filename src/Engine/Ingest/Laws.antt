-- ===== src/Engine/Ingest/Laws.antt =====
-- legacy/packages/analysis-engine/src/ingest.ts: what ingestion keeps true of the snapshots.
use content_gap.Prelude.{
  ℕ, Bool, true, false, List, [], ◌∷◌, ◌++◌, map, ◌≡◌, ◌≢◌, refl, sym, ◌∙◌, inl, inr, All,
  All-append, All-map, All-weaken, Bool-cases, Option-cases,
}
use content_gap.Prelude.Sorting.{IsSorted}
use content_gap.Prelude.Text.{Text, text_eq, text_eq_iff}
use content_gap.Database.Tables.{SourceSnapshot}
use content_gap.Engine.Ingest.{
  IngestInput, IngestStore, IngestOutcome, is_current_of, existing_source, resolve_source, retire,
  new_snapshot, unchanged, has_snapshot, add_snapshot, store_content, ingest_content,
}

-- Two current snapshots belong to different sources.
abbrev pub NotBothCurrent : SourceSnapshot → SourceSnapshot → Type 0
NotBothCurrent a b = a.is_current ≡ true → b.is_current ≡ true → a.source_id ≢ b.source_id

-- No source has two current snapshots.
abbrev pub OneCurrent : List SourceSnapshot → Type 0
OneCurrent = IsSorted NotBothCurrent

IsSorted-append :
    {A : Type 0} (R : A → A → Type 0) (xs : List A) (y : A)
    → IsSorted R xs
    → All (λ x. R x y) xs
    → IsSorted R (xs ++ (y ∷ []))
IsSorted-append R [] y h k = (tt, tt)
IsSorted-append R (x ∷ xs) y h k =
    (All-append (R x) xs (y ∷ []) h.0 (k.0, tt), IsSorted-append R xs y h.1 k.1)

module _ (new_id : ℕ → Text) (digest : Text → Text) (now : ℕ) where
  abbrev retired : Text → SourceSnapshot → SourceSnapshot
  retired = retire new_id digest now

  pub retire-source_id : (id : Text) (s : SourceSnapshot) → (retired id s).source_id ≡ s.source_id
  unfolding retire
  retire-source_id id s = elim (Bool-cases (is_current_of id s)) [
    | inl e ↦ rw (retire, e) refl
    | inr e ↦ rw (retire, e) refl
  ]

  pub retire-is_current :
      (id : Text) (s : SourceSnapshot)
      → (retired id s).is_current ≡ true
      → (s.is_current ≡ true) × (s.source_id ≢ id)
  unfolding retire is_current_of
  retire-is_current id s h = elim (Bool-cases (is_current_of id s)) [
    | inl e ↦ cc (rw (retire, e) at h)
    | inr e ↦
        let cur : s.is_current ≡ true = rw (retire, e) at h in
        (cur, λ same. other cur ((text_eq_iff s.source_id id).1 same) e)
  ]
    where
      other : s.is_current ≡ true → text_eq s.source_id id ≡ true → is_current_of id s ≡ false → ⊥
      other c t e = cc (rw (is_current_of, t, c) at e)

  retire-NotBothCurrent :
      (id : Text) (a b : SourceSnapshot)
      → NotBothCurrent a b
      → NotBothCurrent (retired id a) (retired id b)
  retire-NotBothCurrent id a b h p q =
      let (ca, na) = retire-is_current id a p in
      let (cb, nb) = retire-is_current id b q in
      λ e. h ca cb (sym (retire-source_id id a) ∙ e ∙ retire-source_id id b)

  retire-OneCurrent :
      (id : Text) (xs : List SourceSnapshot) → OneCurrent xs → OneCurrent (map (retired id) xs)
  retire-OneCurrent id [] h = tt
  retire-OneCurrent id (x ∷ xs) h = (
    All-map _ (retired id) xs (All-weaken (λ b. retire-NotBothCurrent id x b) xs h.0),
    retire-OneCurrent id xs h.1,
  )

  abbrev store : IngestInput → Text → IngestStore → IngestOutcome
  store = store_content new_id digest now

  abbrev same_hash : IngestInput → Text → List SourceSnapshot → Bool
  same_hash = unchanged new_id digest now

  abbrev known_hash : IngestInput → Text → List SourceSnapshot → Bool
  known_hash = has_snapshot new_id digest now

  retired-new :
      (input : IngestInput) (id new : Text) (xs : List SourceSnapshot)
      → All
          (λ x. NotBothCurrent x (new_snapshot new_id digest now input id new))
          (map (retired id) xs)
  unfolding new_snapshot
  retired-new input id new [] = tt
  retired-new input id new (x ∷ xs) = (
    (λ c d e. (retire-is_current id x c).1 (sym (retire-source_id id x) ∙ e)),
    retired-new input id new xs,
  )

  store_content-OneCurrent :
      (input : IngestInput) (id : Text) (st : IngestStore)
      → OneCurrent st.snapshots
      → OneCurrent (store input id st).store.snapshots
  unfolding store_content add_snapshot
  store_content-OneCurrent input id st h = elim (Bool-cases (same_hash input id st.snapshots)) [
    | inl e ↦ rw (store_content, e) h
    | inr e ↦
        let kept = retire-OneCurrent id st.snapshots h in
        elim (Bool-cases (known_hash input id (map (retired id) st.snapshots))) [
          | inl k ↦ rw (store_content, e, add_snapshot, k) kept
          | inr k ↦
              rw (store_content, e, add_snapshot, k)
                (IsSorted-append NotBothCurrent (map (retired id) st.snapshots)
                  (new_snapshot new_id digest now input id (new_id st.next_id)) kept
                  (retired-new input id (new_id st.next_id) st.snapshots))
        ]
  ]

  resolve_source-snapshots :
      (input : IngestInput) (st : IngestStore)
      → (resolve_source new_id digest now input st).0.snapshots ≡ st.snapshots
  unfolding resolve_source
  resolve_source-snapshots input st = elim (Option-cases (existing_source input st.sources)) [
    | inl e ↦ rw (resolve_source, e) refl
    | inr (s, e) ↦ rw (resolve_source, e) refl
  ]

  -- Ingestion keeps at most one current snapshot of each source.
  pub ingest_content-OneCurrent :
      (input : IngestInput) (st : IngestStore)
      → OneCurrent st.snapshots
      → OneCurrent (ingest_content new_id digest now input st).store.snapshots
  unfolding ingest_content
  ingest_content-OneCurrent input st h =
      let r = resolve_source new_id digest now input st in
      store_content-OneCurrent input r.1 r.0 (rw (resolve_source-snapshots input st) h)
