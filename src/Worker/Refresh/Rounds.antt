-- ===== src/Worker/Refresh/Rounds.antt =====
-- legacy/apps/worker/src/refresh.ts: one round of the loop, on stores that differ in one source.
use content_gap.Prelude.{
  ℕ, true, false, List, [], ◌∷◌, ◌++◌, some, map, filter, ◌≡◌, ◌≢◌, refl, sym, ap, ◌∙◌, inl, inr,
  subst, Bool-cases, Option-cases, if◌then◌else◌,
}
use content_gap.Prelude.Text.{Text}
use content_gap.Shared.Results.{Failure, Result, ok, err, Result-cases}
use content_gap.Database.Tables.{Source}
use content_gap.Engine.Ingest.{
  IngestInput, IngestStore, IngestOutcome, existing_source, resolve_source, unchanged, has_snapshot,
  retire, add_snapshot, store_content, ingest_content,
}
use content_gap.Worker.Refresh.{
  FetchResult, RefreshState, error_of, add_failure, mark_failed, refresh_input, note_ingestion,
  refresh_fetched, refresh_one, refresh_each,
}
use content_gap.Worker.Refresh.Laws.{is_fetched}
use content_gap.Worker.Refresh.Alike.{
  noteless, map_same, id_of, existing-noteless, processed-noteless,
}
use content_gap.Worker.Refresh.Others.{
  other, SameOthers, SameOutcome, thrown-SameOthers, storing-SameOutcome,
}
use content_gap.Worker.Refresh.Isolation.{failed-noteless, failing-IsSameRefresh}

-- Two refreshes that differ in the notes on the sources, in the snapshots of one source and in the
-- reported failures alone.
pub record SameBut (k : Text) (a b : RefreshState) : Type 0 where
  pub store : SameOthers k a.store b.store
  pub changed : a.changed ≡ b.changed

SameBut-trans : {k : Text} {a b c : RefreshState} → SameBut k a b → SameBut k b c → SameBut k a c
SameBut-trans h g = record {
  store = record {
    sources = h.store.sources ∙ g.store.sources;
    snapshots = h.store.snapshots ∙ g.store.snapshots;
    next_id = h.store.next_id ∙ g.store.next_id;
  };
  changed = h.changed ∙ g.changed;
}

module _ (new_id : ℕ → Text) (digest : Text → Text) (now : ℕ) where
  ingest-found :
      (input : IngestInput) (st : IngestStore) (s : Source)
      → existing_source input st.sources ≡ some s
      → ingest_content new_id digest now input st ≡ store_content new_id digest now input s.id st
  unfolding ingest_content resolve_source
  ingest-found input st s e = rw (ingest_content, resolve_source, e) refl

  store_content-noteless :
      (input : IngestInput) (j : Text) (st : IngestStore)
      → map noteless (store_content new_id digest now input j st).store.sources
        ≡ map noteless st.sources
  unfolding store_content add_snapshot
  store_content-noteless input j st =
      elim (Bool-cases (unchanged new_id digest now input j st.snapshots)) [
        | inl e ↦ rw (store_content, e) (processed-noteless new_id digest now j st.sources)
        | inr e ↦
            elim (Bool-cases (
              has_snapshot new_id digest now input j
                (map (retire new_id digest now j) st.snapshots))) [
                  | inl h ↦ rw (store_content, e, add_snapshot, h) refl
                  | inr h ↦
                      rw (store_content, e, add_snapshot, h)
                        (processed-noteless new_id digest now j st.sources)
                ]
      ]

module _ (new_id : ℕ → Text) (digest : Text → Text) (now : ℕ) (fetch : Source → Result FetchResult)
    (message_of : Failure → Text) (project_id : Text) where
  abbrev one : Source → RefreshState → RefreshState
  one = refresh_one new_id digest now fetch message_of project_id

  abbrev each : List Source → RefreshState → RefreshState
  each = refresh_each new_id digest now fetch message_of project_id

  abbrev input_of : Source → FetchResult → IngestInput
  input_of = refresh_input new_id digest now fetch message_of project_id

  abbrev note : Source → IngestOutcome → RefreshState → RefreshState
  note = note_ingestion new_id digest now fetch message_of

  -- The ingestion of what a source's fetch gives throws; the content is of the source `k`.
  pub record Throws (s : Source) (k : Text) (st : RefreshState) : Type 0 where
    pub res : FetchResult
    pub fetched : fetch s ≡ ok res
    pub good : res.is_ok ≡ true
    pub source : Source
    pub found : existing_source (input_of s res) st.store.sources ≡ some source
    pub its : source.id ≡ k
    pub failure : Failure
    pub thrown : (ingest_content new_id digest now (input_of s res) st.store).result ≡ err failure

  -- Whatever its fetch gives, the source's content is of the source `j`.
  abbrev pub ResolvesTo : Source → List Source → Text → Type 0
  ResolvesTo t sources j =
      (res : FetchResult) → id_of (existing_source (input_of t res) sources) ≡ some j

  round-good :
      (s : Source) (res : FetchResult) (st : RefreshState)
      → fetch s ≡ ok res
      → res.is_ok ≡ true
      → one s st ≡ note s (ingest_content new_id digest now (input_of s res) st.store) st
  unfolding refresh_one refresh_fetched
  round-good s res st e good = rw (refresh_one, e, refresh_fetched, good) refl

  -- A round whose fetch is ok, when the content goes to a source that is there.
  round-found :
      (s : Source) (res : FetchResult) (x : Source) (st : RefreshState)
      → fetch s ≡ ok res
      → res.is_ok ≡ true
      → existing_source (input_of s res) st.store.sources ≡ some x
      → one s st ≡ note s (store_content new_id digest now (input_of s res) x.id st.store) st
  round-found s res x st e good found =
      round-good s res st e good
      ∙ ap (λ o. note s o st) (ingest-found new_id digest now (input_of s res) st.store x found)

  noted_error-SameBut :
      (s : Source) (k : Text) (out : IngestOutcome) (st : RefreshState) (e : Failure)
      → out.result ≡ err e
      → SameOthers k out.store st.store
      → SameBut k (note s out st) st
  unfolding note_ingestion add_failure
  noted_error-SameBut s k out st e thrown same =
      rw (note_ingestion, thrown) (record { store = same; changed = refl })

  pub thrown-SameBut :
      (s : Source) (k : Text) (st : RefreshState) → Throws s k st → SameBut k (one s st) st
  thrown-SameBut s k st h =
      let input = input_of s h.res in
      let out = store_content new_id digest now input h.source.id st.store in
      let thrown : out.result ≡ err h.failure =
        ap (λ o. o.result) (sym (ingest-found new_id digest now input st.store h.source h.found))
        ∙ h.thrown in
      subst (λ x. SameBut k x st) (sym (round-found s h.res h.source st h.fetched h.good h.found))
        (noted_error-SameBut s k out st h.failure thrown (
          subst (λ i. SameOthers i out.store st.store) h.its
            (thrown-SameOthers new_id digest now input h.source.id st.store h.failure thrown)))

  pub unfetched-SameBut :
      (s : Source) (k : Text) (st : RefreshState)
      → is_fetched (fetch s) ≡ false
      → SameBut k (one s st) st
  unfetched-SameBut s k st h =
      let same = failing-IsSameRefresh new_id digest now fetch message_of project_id s st h in
      record {
        store = record {
          sources = same.store.sources;
          snapshots = ap (filter (other k)) same.store.snapshots;
          next_id = same.store.next_id;
        };
        changed = same.changed;
      }

  noted-SameBut :
      (k : Text) (s : Source) (r q : IngestOutcome) (a b : RefreshState)
      → SameOutcome new_id digest now k r q
      → a.changed ≡ b.changed
      → SameBut k (note s r a) (note s q b)
  unfolding note_ingestion add_failure
  noted-SameBut k s r q a b same h = elim (Result-cases q.result) [
    | inl (x, e) ↦
        rw (note_ingestion, same.result ∙ e, e)
          (record {
            store = same.store;
            changed = ap (λ l. if x.changed then l ++ (s.id ∷ []) else l) h;
          })
    | inr (f, e) ↦
        rw (note_ingestion, same.result ∙ e, e) (record { store = same.store; changed = h })
  ]

  noted-sources :
      (s : Source) (q : IngestOutcome) (b : RefreshState)
      → (note s q b).store.sources ≡ q.store.sources
  unfolding note_ingestion add_failure
  noted-sources s q b = elim (Result-cases q.result) [
    | inl (x, e) ↦ rw (note_ingestion, e) refl
    | inr (f, e) ↦ rw (note_ingestion, e) refl
  ]

  -- The source that an input of another source goes to is there in both stores.
  source_of :
      (input : IngestInput) (sources : List Source) (j : Text)
      → id_of (existing_source input sources) ≡ some j
      → (s : Source) × (existing_source input sources ≡ some s) × (s.id ≡ j)
  source_of input sources j h = elim (Option-cases (existing_source input sources)) [
    | inl e ↦ cc (rw e at h)
    | inr (s, e) ↦ (s, e, cc (rw e at h))
  ]

  -- What a round of another source keeps.
  pub record Kept (k : Text) (t : Source) (a b : RefreshState) : Type 0 where
    pub same : SameBut k (one t a) (one t b)
    pub sources : map noteless (one t b).store.sources ≡ map noteless b.store.sources

  ingested-Kept :
      (k j : Text) (t : Source) (res : FetchResult) (a b : RefreshState)
      → fetch t ≡ ok res
      → res.is_ok ≡ true
      → j ≢ k
      → SameBut k a b
      → ResolvesTo t b.store.sources j
      → Kept k t a b
  ingested-Kept k j t res a b e good ne same to =
      let input = input_of t res in
      let (y, fy, iy) = source_of input b.store.sources j (to res) in
      let (x, fx, ix) =
        source_of input a.store.sources j
          (existing-noteless input a.store.sources b.store.sources same.store.sources ∙ to res) in
      let stored = store_content new_id digest now input j in
      let qa : one t a ≡ note t (stored a.store) a =
        round-found t res x a e good fx
        ∙ ap (λ i. note t (store_content new_id digest now input i a.store) a) ix in
      let qb : one t b ≡ note t (stored b.store) b =
        round-found t res y b e good fy
        ∙ ap (λ i. note t (store_content new_id digest now input i b.store) b) iy in
      record {
        same =
            subst (λ u. SameBut k u (one t b)) (sym qa)
              (subst (λ u. SameBut k (note t (stored a.store) a) u) (sym qb)
                (noted-SameBut k t (stored a.store) (stored b.store) a b
                  (storing-SameOutcome new_id digest now input j k a.store b.store ne same.store)
                  same.changed));
        sources =
            ap (λ u. map noteless u.store.sources) qb
            ∙ ap (map noteless) (noted-sources t (stored b.store) b)
            ∙ store_content-noteless new_id digest now input j b.store;
      }

  pub round-Kept :
      (k j : Text) (t : Source) (a b : RefreshState)
      → j ≢ k
      → SameBut k a b
      → ResolvesTo t b.store.sources j
      → Kept k t a b
  unfolding refresh_one refresh_fetched add_failure
  round-Kept k j t a b ne same to = elim (Result-cases (fetch t)) [
    | inr (f, e) ↦ record {
      same = rw (refresh_one, e) (record { store = same.store; changed = same.changed });
      sources = rw (refresh_one, e) refl;
    }
    | inl (res, e) ↦ elim (Bool-cases res.is_ok) [
      | inl good ↦ ingested-Kept k j t res a b e good ne same to
      | inr bad ↦
          let noted : (xs : List Source)
              → map noteless
                  (map (mark_failed new_id digest now fetch message_of t.id (error_of res)) xs)
                ≡ map noteless xs =
            λ xs.
              map_same _ xs (
                failed-noteless new_id digest now fetch message_of project_id t.id
                  (error_of res)) in
          record {
            same =
                rw (refresh_one, e, refresh_fetched, bad)
                  (record {
                    store = record {
                      sources =
                          noted a.store.sources ∙ same.store.sources ∙ sym (noted b.store.sources);
                      snapshots = same.store.snapshots;
                      next_id = same.store.next_id;
                    };
                    changed = same.changed;
                  });
            sources = rw (refresh_one, e, refresh_fetched, bad) (noted b.store.sources);
          }
    ]
  ]
