-- ===== src/Worker/Refresh/Alike.antt =====
-- legacy/packages/analysis-engine/src/ingest.ts: ingestion does not look at the notes on the sources.
use content_gap.Prelude.{
  ℕ, suc, Bool, ◌&&◌, List, [], ◌∷◌, ◌++◌, Option, none, some, map, find, ◌≡◌, refl, sym, ap, ◌∙◌,
  subst, inl, inr, Bool-cases, Option-cases,
}
use content_gap.Prelude.Text.{Text, text_eq, is_empty}
use content_gap.Shared.Enums.{SourceStatus}
use content_gap.Database.Tables.{Source}
use content_gap.Engine.Ingest.{
  IngestInput, IngestStore, IngestOutcome, same_owner, has_url, existing_source, new_source,
  resolve_source, mark_processed, unchanged, retire, new_snapshot, has_snapshot, add_snapshot,
  store_content, ingest_content,
}
use mathlib.Core.List.{map-append}

-- A source less what a fetch or an ingestion notes on it.
abbrev pub noteless : Source → Source
noteless s = record s {
  last_success_at = none;
  last_failure_at = none;
  status = SourceStatus.pending;
  error_message = none;
}

-- Two stores that differ in the notes on the sources alone.
pub record IsAlike (a b : IngestStore) : Type 0 where
  pub sources : map noteless a.sources ≡ map noteless b.sources
  pub snapshots : a.snapshots ≡ b.snapshots
  pub next_id : a.next_id ≡ b.next_id

abbrev pub id_of : Option Source → Option Text
id_of none = none
id_of (some s) = some s.id

find-noteless :
    (p : Source → Bool) (xs : List Source)
    → ((s : Source) → p (noteless s) ≡ p s)
    → id_of (find p xs) ≡ id_of (find p (map noteless xs))
find-noteless p [] h = refl
find-noteless p (x ∷ xs) h = elim (Bool-cases (p x)) [
  | inl e ↦ rw (e, h x ∙ e) refl
  | inr e ↦ rw (e, h x ∙ e) (find-noteless p xs h)
]

pub existing-noteless :
    (input : IngestInput) (xs ys : List Source)
    → map noteless xs ≡ map noteless ys
    → id_of (existing_source input xs) ≡ id_of (existing_source input ys)
unfolding existing_source
existing-noteless input xs ys h = elim (Option-cases input.url) [
  | inl e ↦ rw (existing_source, e) refl
  | inr (url, e) ↦ elim (Bool-cases (is_empty url)) [
    | inl q ↦ rw (existing_source, e, q) refl
    | inr q ↦
        let p : Source → Bool = λ s.
          text_eq s.project_id input.project_id
          && (same_owner s.owner_type input.owner_type && has_url url s.canonical_url) in
        rw (existing_source, e, q)
          (find-noteless p xs (λ s. refl)
            ∙ ap (λ l. id_of (find p l)) h
            ∙ sym (find-noteless p ys (λ s. refl)))
  ]
]

pub map_same :
    (f : Source → Source) (xs : List Source)
    → ((s : Source) → noteless (f s) ≡ noteless s)
    → map noteless (map f xs) ≡ map noteless xs
map_same f [] h = refl
map_same f (x ∷ xs) h =
    ap (λ l. noteless (f x) ∷ l) (map_same f xs h) ∙ ap (λ y. y ∷ map noteless xs) (h x)

pub IsAlike-refl : (a : IngestStore) → IsAlike a a
IsAlike-refl a = record { sources = refl; snapshots = refl; next_id = refl }

pub IsAlike-sym : {a b : IngestStore} → IsAlike a b → IsAlike b a
IsAlike-sym h = record {
  sources = sym h.sources;
  snapshots = sym h.snapshots;
  next_id = sym h.next_id;
}

pub IsAlike-trans : {a b c : IngestStore} → IsAlike a b → IsAlike b c → IsAlike a c
IsAlike-trans h k = record {
  sources = h.sources ∙ k.sources;
  snapshots = h.snapshots ∙ k.snapshots;
  next_id = h.next_id ∙ k.next_id;
}

module _ (new_id : ℕ → Text) (digest : Text → Text) (now : ℕ) where
  abbrev resolve : IngestInput → IngestStore → IngestStore × Text
  resolve = resolve_source new_id digest now

  abbrev storing : IngestInput → Text → IngestStore → IngestOutcome
  storing = store_content new_id digest now

  pub processed-noteless :
      (id : Text) (xs : List Source)
      → map noteless (mark_processed new_id digest now id xs) ≡ map noteless xs
  processed-noteless id xs =
      map_same _ xs
        λ s. elim (Bool-cases (text_eq s.id id)) [ inl e ↦ rw e refl | inr e ↦ rw e refl ]

  -- The two resolutions come to alike stores and the same source.
  record SameSource (r q : IngestStore × Text) : Type 0 where
    store : IsAlike r.0 q.0
    id : r.1 ≡ q.1

  resolve-SameSource :
      (input : IngestInput) (a b : IngestStore)
      → IsAlike a b
      → SameSource (resolve input a) (resolve input b)
  unfolding resolve_source
  resolve-SameSource input a b h =
      let same = existing-noteless input a.sources b.sources h.sources in
      elim (Option-cases (existing_source input a.sources)) [
        | inl e ↦ elim (Option-cases (existing_source input b.sources)) [
          | inl f ↦
              rw (resolve_source, e, f)
                (record {
                  store = record {
                    sources =
                        map-append noteless a.sources _
                        ∙ ap
                            (λ l.
                              l
                              ++ map noteless
                                  (new_source new_id digest now input (new_id a.next_id) ∷ []))
                            h.sources
                        ∙ ap
                            (λ n.
                              map noteless b.sources
                              ++ map noteless (new_source new_id digest now input (new_id n) ∷ []))
                            h.next_id
                        ∙ sym (map-append noteless b.sources _);
                    snapshots = h.snapshots;
                    next_id = ap suc h.next_id;
                  };
                  id = ap new_id h.next_id;
                })
          | inr (t, f) ↦ cc (rw (e, f) at same)
        ]
        | inr (s, e) ↦ elim (Option-cases (existing_source input b.sources)) [
          | inl f ↦ cc (rw (e, f) at same)
          | inr (t, f) ↦
              rw (resolve_source, e, f) (record { store = h; id = cc (rw (e, f) at same) })
        ]
      ]

  pub record SameResult (r q : IngestOutcome) : Type 0 where
    pub store : IsAlike r.store q.store
    pub result : r.result ≡ q.result

  pub processed-IsAlike :
      (id : Text) (xs ys : List Source)
      → map noteless xs ≡ map noteless ys
      → map noteless (mark_processed new_id digest now id xs)
        ≡ map noteless (mark_processed new_id digest now id ys)
  processed-IsAlike id xs ys h = processed-noteless id xs ∙ h ∙ sym (processed-noteless id ys)

  adding-SameResult :
      (input : IngestInput) (id : Text) (a b : IngestStore)
      → IsAlike a b
      → SameResult
          (add_snapshot new_id digest now input id a)
          (add_snapshot new_id digest now input id b)
  unfolding add_snapshot
  adding-SameResult input id a b h =
      let same : has_snapshot new_id digest now input id a.snapshots
          ≡ has_snapshot new_id digest now input id b.snapshots =
        ap (has_snapshot new_id digest now input id) h.snapshots in
      elim (Bool-cases (has_snapshot new_id digest now input id b.snapshots)) [
        | inl e ↦ rw (add_snapshot, same ∙ e, e) (record { store = h; result = refl })
        | inr e ↦
            rw (add_snapshot, same ∙ e, e)
              (record {
                store = record {
                  sources = processed-IsAlike id a.sources b.sources h.sources;
                  snapshots =
                      ap
                        (λ l.
                          l ++ (new_snapshot new_id digest now input id (new_id a.next_id) ∷ []))
                        h.snapshots
                      ∙ ap
                          (λ n.
                            b.snapshots
                            ++ (new_snapshot new_id digest now input id (new_id n) ∷ []))
                          h.next_id;
                  next_id = ap suc h.next_id;
                };
                result = refl;
              })
      ]

  storing-SameResult :
      (input : IngestInput) (id : Text) (a b : IngestStore)
      → IsAlike a b
      → SameResult (storing input id a) (storing input id b)
  unfolding store_content
  storing-SameResult input id a b h =
      let same : unchanged new_id digest now input id a.snapshots
          ≡ unchanged new_id digest now input id b.snapshots =
        ap (unchanged new_id digest now input id) h.snapshots in
      let retired : IngestStore → IngestStore =
        λ c. record c { snapshots = map (retire new_id digest now id) c.snapshots } in
      elim (Bool-cases (unchanged new_id digest now input id b.snapshots)) [
        | inl e ↦
            rw (store_content, same ∙ e, e)
              (record {
                store = record {
                  sources = processed-IsAlike id a.sources b.sources h.sources;
                  snapshots = h.snapshots;
                  next_id = h.next_id;
                };
                result = refl;
              })
        | inr e ↦
            rw (store_content, same ∙ e, e)
              (adding-SameResult input id (retired a) (retired b) (record {
                sources = h.sources;
                snapshots = ap (map (retire new_id digest now id)) h.snapshots;
                next_id = h.next_id;
              }))
      ]

  pub ingest-SameResult :
      (input : IngestInput) (a b : IngestStore)
      → IsAlike a b
      → SameResult
          (ingest_content new_id digest now input a)
          (ingest_content new_id digest now input b)
  unfolding ingest_content
  ingest-SameResult input a b h =
      let r = resolve-SameSource input a b h in
      subst
        (λ id.
          SameResult (storing input (resolve input a).1 (resolve input a).0)
            (storing input id (resolve input b).0))
        r.id
        (storing-SameResult input (resolve input a).1 (resolve input a).0 (resolve input b).0
          r.store)
