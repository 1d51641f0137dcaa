-- ===== src/Worker/Refresh/Others.antt =====
-- legacy/packages/analysis-engine/src/ingest.ts: an ingestion looks at the snapshots of its source alone.
use content_gap.Prelude.{
  ℕ, suc, Bool, true, false, not, ◌&&◌, List, [], ◌∷◌, ◌++◌, map, find, filter, any, ◌≡◌, ◌≢◌, refl,
  sym, ap, ◌∙◌, inl, inr, Bool-cases, Option-cases,
}
use content_gap.Prelude.Filters.{filter-append, find-filter, any-filter}
use content_gap.Prelude.Text.{Text, text_eq, text_eq_iff}
use content_gap.Shared.Hashing.{content_hash}
use content_gap.Shared.Results.{Failure, err}
use content_gap.Database.Tables.{SourceSnapshot}
use content_gap.Engine.Ingest.{
  IngestInput, IngestStore, IngestOutcome, is_current_of, unchanged, retire, new_snapshot,
  has_snapshot, add_snapshot, store_content,
}
use content_gap.Engine.Ingest.Laws.{retire-source_id}
use content_gap.Worker.Refresh.Alike.{noteless, processed-IsAlike}

-- A snapshot of another source.
abbrev pub other : Text → SourceSnapshot → Bool
other k x = not (text_eq x.source_id k)

-- Two stores that differ in the notes on the sources and in the snapshots of one source alone.
pub record SameOthers (k : Text) (a b : IngestStore) : Type 0 where
  pub sources : map noteless a.sources ≡ map noteless b.sources
  pub snapshots : filter (other k) a.snapshots ≡ filter (other k) b.snapshots
  pub next_id : a.next_id ≡ b.next_id

not-its :
    (j k : Text) (x : SourceSnapshot) → j ≢ k → other k x ≡ false → text_eq x.source_id j ≡ false
not-its j k x ne h = elim (Bool-cases (text_eq x.source_id k)) [
  | inr e ↦ cc (rw e at h)
  | inl e ↦ elim (Bool-cases (text_eq x.source_id j)) [
    | inr f ↦ f
    | inl f ↦ absurd (ne (sym ((text_eq_iff x.source_id j).0 f) ∙ (text_eq_iff x.source_id k).0 e))
  ]
]

module _ (new_id : ℕ → Text) (digest : Text → Text) (now : ℕ) where
  abbrev retired : Text → SourceSnapshot → SourceSnapshot
  retired = retire new_id digest now

  other-retired : (j k : Text) (x : SourceSnapshot) → other k (retired j x) ≡ other k x
  other-retired j k x = ap (λ id. not (text_eq id k)) (retire-source_id new_id digest now j x)

  filter-retired :
      (j k : Text) (xs : List SourceSnapshot)
      → filter (other k) (map (retired j) xs) ≡ map (retired j) (filter (other k) xs)
  filter-retired j k [] = refl
  filter-retired j k (x ∷ xs) = elim (Bool-cases (other k x)) [
    | inl e ↦ rw (other-retired j k x ∙ e, e) (ap (λ l. retired j x ∷ l) (filter-retired j k xs))
    | inr e ↦ rw (other-retired j k x ∙ e, e) (filter-retired j k xs)
  ]

  own-retired : (k : Text) (x : SourceSnapshot) → other k x ≡ true → retired k x ≡ x
  unfolding retire is_current_of
  own-retired k x h = elim (Bool-cases (text_eq x.source_id k)) [
    | inl e ↦ cc (rw e at h)
    | inr e ↦ rw (retire, is_current_of, e) refl
  ]

  -- Retiring the snapshot of a source leaves those of the others.
  filter-own_retired :
      (k : Text) (xs : List SourceSnapshot)
      → filter (other k) (map (retired k) xs) ≡ filter (other k) xs
  filter-own_retired k [] = refl
  filter-own_retired k (x ∷ xs) = elim (Bool-cases (other k x)) [
    | inl e ↦
        rw (other-retired k k x ∙ e, e)
          (ap (λ y. y ∷ filter (other k) (map (retired k) xs)) (own-retired k x e)
            ∙ ap (λ l. x ∷ l) (filter-own_retired k xs))
    | inr e ↦ rw (other-retired k k x ∙ e, e) (filter-own_retired k xs)
  ]

  -- A thrown ingestion touches its own source alone.
  pub thrown-SameOthers :
      (input : IngestInput) (k : Text) (st : IngestStore) (e : Failure)
      → (store_content new_id digest now input k st).result ≡ err e
      → SameOthers k (store_content new_id digest now input k st).store st
  unfolding store_content add_snapshot
  thrown-SameOthers input k st e h =
      elim (Bool-cases (unchanged new_id digest now input k st.snapshots)) [
        | inl u ↦ cc (rw (store_content, u) at h)
        | inr u ↦
            elim (Bool-cases
              (has_snapshot new_id digest now input k (map (retired k) st.snapshots))) [
                | inr n ↦ cc (rw (store_content, u, add_snapshot, n) at h)
                | inl n ↦
                    rw (store_content, u, add_snapshot, n)
                      (record {
                        sources = refl;
                        snapshots = filter-own_retired k st.snapshots;
                        next_id = refl;
                      })
              ]
      ]

  unchanged-others :
      (input : IngestInput) (j k : Text) (xs ys : List SourceSnapshot)
      → j ≢ k
      → filter (other k) xs ≡ filter (other k) ys
      → unchanged new_id digest now input j xs ≡ unchanged new_id digest now input j ys
  unfolding unchanged is_current_of
  unchanged-others input j k xs ys ne h =
      let drops : (x : SourceSnapshot) → other k x ≡ false → is_current_of j x ≡ false =
        λ x o. rw (is_current_of, not-its j k x ne o) refl in
      let same : find (is_current_of j) xs ≡ find (is_current_of j) ys =
        sym (find-filter (is_current_of j) (other k) drops xs)
        ∙ ap (find (is_current_of j)) h
        ∙ find-filter (is_current_of j) (other k) drops ys in
      elim (Option-cases (find (is_current_of j) ys)) [
        | inl e ↦ rw (unchanged, same ∙ e, e) refl
        | inr (s, e) ↦ rw (unchanged, same ∙ e, e) refl
      ]

  has_snapshot-others :
      (input : IngestInput) (j k : Text) (xs ys : List SourceSnapshot)
      → j ≢ k
      → filter (other k) xs ≡ filter (other k) ys
      → has_snapshot new_id digest now input j xs ≡ has_snapshot new_id digest now input j ys
  unfolding has_snapshot
  has_snapshot-others input j k xs ys ne h =
      let p : SourceSnapshot → Bool =
        λ s. text_eq s.source_id j && text_eq s.content_hash (content_hash digest input.text) in
      let drops : (x : SourceSnapshot) → other k x ≡ false → p x ≡ false =
        λ x o. rw (not-its j k x ne o) refl in
      sym (any-filter p (other k) drops xs) ∙ ap (any p) h ∙ any-filter p (other k) drops ys

  -- The outcomes agree but for the notes and one source's snapshots.
  pub record SameOutcome (k : Text) (r q : IngestOutcome) : Type 0 where
    pub store : SameOthers k r.store q.store
    pub result : r.result ≡ q.result

  adding-SameOutcome :
      (input : IngestInput) (j k : Text) (a b : IngestStore)
      → j ≢ k
      → SameOthers k a b
      → SameOutcome k
          (add_snapshot new_id digest now input j a)
          (add_snapshot new_id digest now input j b)
  unfolding add_snapshot
  adding-SameOutcome input j k a b ne h =
      let same = has_snapshot-others input j k a.snapshots b.snapshots ne h.snapshots in
      elim (Bool-cases (has_snapshot new_id digest now input j b.snapshots)) [
        | inl e ↦ rw (add_snapshot, same ∙ e, e) (record { store = h; result = refl })
        | inr e ↦
            rw (add_snapshot, same ∙ e, e)
              (record {
                store = record {
                  sources = processed-IsAlike new_id digest now j a.sources b.sources h.sources;
                  snapshots =
                      filter-append (other k) a.snapshots _
                      ∙ ap
                          (λ l.
                            l
                            ++ filter (other k)
                                (new_snapshot new_id digest now input j (new_id a.next_id) ∷ []))
                          h.snapshots
                      ∙ ap
                          (λ n.
                            filter (other k) b.snapshots
                            ++ filter (other k)
                                (new_snapshot new_id digest now input j (new_id n) ∷ []))
                          h.next_id
                      ∙ sym (filter-append (other k) b.snapshots _);
                  next_id = ap suc h.next_id;
                };
                result = refl;
              })
      ]

  -- An ingestion into another source does the same to both.
  pub storing-SameOutcome :
      (input : IngestInput) (j k : Text) (a b : IngestStore)
      → j ≢ k
      → SameOthers k a b
      → SameOutcome k
          (store_content new_id digest now input j a)
          (store_content new_id digest now input j b)
  unfolding store_content
  storing-SameOutcome input j k a b ne h =
      let same = unchanged-others input j k a.snapshots b.snapshots ne h.snapshots in
      let aside : IngestStore → IngestStore =
        λ c. record c { snapshots = map (retired j) c.snapshots } in
      elim (Bool-cases (unchanged new_id digest now input j b.snapshots)) [
        | inl e ↦
            rw (store_content, same ∙ e, e)
              (record {
                store = record {
                  sources = processed-IsAlike new_id digest now j a.sources b.sources h.sources;
                  snapshots = h.snapshots;
                  next_id = h.next_id;
                };
                result = refl;
              })
        | inr e ↦
            rw (store_content, same ∙ e, e)
              (adding-SameOutcome input j k (aside a) (aside b) ne (record {
                sources = h.sources;
                snapshots =
                    filter-retired j k a.snapshots
                    ∙ ap (map (retired j)) h.snapshots
                    ∙ sym (filter-retired j k b.snapshots);
                next_id = h.next_id;
              }))
      ]
