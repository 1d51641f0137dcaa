-- ===== src/Engine/Ingest/Reverted.antt =====
-- legacy/packages/analysis-engine/src/ingest.ts: content that a source had before its current one.
use content_gap.Prelude.{
  ℕ, Bool, true, false, ◌&&◌, List, [], ◌∷◌, none, some, map, find, ◌≡◌, ◌≢◌, ◌↔◌, refl, sym, ap,
  ◌∙◌, inl, inr, arith, Bool-cases, Option-cases, Memᴰ-any, any_of_mem,
}
use content_gap.Prelude.Text.{Text, text_eq, text_eq_iff}
use content_gap.Shared.Hashing.{content_hash}
use content_gap.Shared.Results.{err}
use content_gap.Database.Tables.{Source, SourceSnapshot}
use content_gap.Engine.Ingest.{
  IngestInput, IngestStore, IngestOutcome, duplicate_snapshot, is_current_of, existing_source,
  resolve_source, retire, unchanged, has_snapshot, add_snapshot, store_content, ingest_content,
}
use mathlib.Core.List.{Memᴰ}

module _ (new_id : ℕ → Text) (digest : Text → Text) (now : ℕ) where
  abbrev hash_of : IngestInput → Text
  hash_of input = content_hash digest input.text

  abbrev store : IngestInput → Text → IngestStore → IngestOutcome
  store = store_content new_id digest now

  abbrev retired : Text → SourceSnapshot → SourceSnapshot
  retired = retire new_id digest now

  -- The source has had the content of the input, and its current content is another.
  pub record IsReverted (input : IngestInput) (id : Text) (snapshots : List SourceSnapshot)
      : Type 0 where
    pub earlier : SourceSnapshot
    pub kept : Memᴰ earlier snapshots
    pub its : earlier.source_id ≡ id
    pub same : earlier.content_hash ≡ hash_of input
    pub replaced :
        (current : SourceSnapshot)
        → find (is_current_of id) snapshots ≡ some current
        → current.content_hash ≢ hash_of input

  abbrev holds : IngestInput → Text → SourceSnapshot → Bool
  holds input id s = text_eq s.source_id id && text_eq s.content_hash (hash_of input)

  holds-retired :
      (input : IngestInput) (id : Text) (s : SourceSnapshot)
      → holds input id (retired id s) ≡ holds input id s
  unfolding retire
  holds-retired input id s = elim (Bool-cases (is_current_of id s)) [
    | inl e ↦ rw (retire, e) refl
    | inr e ↦ rw (retire, e) refl
  ]

  -- Retiring the current snapshot keeps its row, and so its entry in the index.
  has_snapshot-retired :
      (input : IngestInput) (id : Text) (xs : List SourceSnapshot)
      → has_snapshot new_id digest now input id (map (retired id) xs)
        ≡ has_snapshot new_id digest now input id xs
  unfolding has_snapshot
  has_snapshot-retired input id [] = refl
  has_snapshot-retired input id (x ∷ xs) =
      rw (holds-retired input id x, has_snapshot-retired input id xs) refl

  replaced_iff :
      (input : IngestInput) (id : Text) (snapshots : List SourceSnapshot)
      → (unchanged new_id digest now input id snapshots ≡ false) ↔ (
          (current : SourceSnapshot)
          → find (is_current_of id) snapshots ≡ some current
          → current.content_hash ≢ hash_of input)
  unfolding unchanged
  replaced_iff input id snapshots = elim (Option-cases (find (is_current_of id) snapshots)) [
    | inl e ↦ rw (unchanged, e) ((λ h c q. cc), (λ h. refl))
    | inr (s, e) ↦ (
      (λ h c q same.
          let here : c ≡ s = cc in
          cc (
            rw (unchanged, e) at h,
            (text_eq_iff s.content_hash (hash_of input)).1
                (ap (λ x. x.content_hash) (sym here) ∙ same),
          )),
      (λ h. elim (Bool-cases (text_eq s.content_hash (hash_of input))) [
        | inl t ↦ absurd (h s e ((text_eq_iff s.content_hash (hash_of input)).0 t))
        | inr f ↦ rw (unchanged, e) f
      ]),
    )
  ]

  holds_parts :
      (input : IngestInput) (id : Text) (s : SourceSnapshot)
      → (holds input id s ≡ true) ↔ ((s.source_id ≡ id) × (s.content_hash ≡ hash_of input))
  holds_parts input id s = (
    (λ h. (
      (text_eq_iff s.source_id id).0 (ground arith),
      (text_eq_iff s.content_hash (hash_of input)).0 (ground arith),
    )),
    (λ h.
        rw ((text_eq_iff s.source_id id).1 h.0, (text_eq_iff s.content_hash (hash_of input)).1 h.1)
          refl),
  )

  store_content-err_iff :
      (input : IngestInput) (id : Text) (st : IngestStore)
      → ((store input id st).result ≡ err duplicate_snapshot) ↔ (
          (unchanged new_id digest now input id st.snapshots ≡ false)
          × (has_snapshot new_id digest now input id st.snapshots ≡ true))
  unfolding store_content add_snapshot
  store_content-err_iff input id st =
      let same = has_snapshot-retired input id st.snapshots in
      elim (Bool-cases (unchanged new_id digest now input id st.snapshots)) [
        | inl e ↦ rw (store_content, e) ((λ h. cc), (λ h. cc))
        | inr e ↦ elim (Bool-cases (has_snapshot new_id digest now input id st.snapshots)) [
          | inl k ↦
              rw (store_content, e, add_snapshot, same ∙ k, k) ((λ h. (refl, refl)), (λ h. refl))
          | inr k ↦ rw (store_content, e, add_snapshot, same ∙ k, k) ((λ h. cc), (λ h. cc))
        ]
      ]

  refusal_iff :
      (input : IngestInput) (id : Text) (snapshots : List SourceSnapshot)
      → ((unchanged new_id digest now input id snapshots ≡ false)
          × (has_snapshot new_id digest now input id snapshots ≡ true))
        ↔ IsReverted input id snapshots
  unfolding has_snapshot
  refusal_iff input id snapshots = (
    (λ h.
        let (x, m, e) = Memᴰ-any (holds input id) snapshots h.1 in
        let (i, c) = (holds_parts input id x).0 e in
        record {
          earlier = x;
          kept = m;
          its = i;
          same = c;
          replaced = (replaced_iff input id snapshots).0 h.0;
        }),
    (λ r. (
      (replaced_iff input id snapshots).1 r.replaced,
      any_of_mem (holds input id) r.kept ((holds_parts input id r.earlier).1 (r.its, r.same)),
    )),
  )

  -- Ingestion into a source that exists throws exactly when the content is not the current content of
  -- the source but was its content before: the unique index on source and hash refuses the row.
  pub ingest_content-IsReverted_iff :
      (input : IngestInput) (st : IngestStore) (s : Source)
      → existing_source input st.sources ≡ some s
      → ((ingest_content new_id digest now input st).result ≡ err duplicate_snapshot)
        ↔ IsReverted input s.id st.snapshots
  unfolding ingest_content resolve_source
  ingest_content-IsReverted_iff input st s e =
      let a = store_content-err_iff input s.id st in
      let b = refusal_iff input s.id st.snapshots in
      rw (ingest_content, resolve_source, e) ((λ h. b.0 (a.0 h)), (λ r. a.1 (b.1 r)))

  -- What a thrown ingestion leaves: no current snapshot of the source, and a store on which the same
  -- ingestion throws again and changes nothing.
  pub record IsStuck (input : IngestInput) (id : Text) (st : IngestStore) (out : IngestOutcome)
      : Type 0 where
    pub sources : out.store.sources ≡ st.sources
    pub no_current : find (is_current_of id) out.store.snapshots ≡ none
    pub again : ingest_content new_id digest now input out.store ≡ out
