-- ===== src/Worker/Refresh/Isolation.antt =====
-- legacy/apps/worker/src/refresh.ts: a source whose fetch fails changes nothing for the others.
use content_gap.Prelude.{
  ℕ, true, false, List, [], ◌∷◌, ◌++◌, filter, ◌≡◌, refl, ap, ◌∙◌, inl, inr, Bool-cases,
  if◌then◌else◌,
}
use content_gap.Prelude.Text.{Text, text_eq}
use content_gap.Shared.Results.{Failure, Result, Result-cases}
use content_gap.Database.Tables.{Source}
use content_gap.Engine.Ingest.{IngestStore, IngestOutcome, ingest_content}
use content_gap.Worker.Refresh.{
  FetchResult, RefreshState, url_sources, error_of, add_failure, mark_failed, refresh_input,
  note_ingestion, refresh_fetched, refresh_one, refresh_each, refresh_project,
}
use content_gap.Worker.Refresh.Laws.{is_fetched}
use content_gap.Worker.Refresh.Alike.{
  noteless, map_same, IsAlike, IsAlike-refl, IsAlike-trans, SameResult, ingest-SameResult,
}

-- The states of two refreshes that agree on all but the notes and the failures.
pub record IsSameRefresh (a b : RefreshState) : Type 0 where
  pub store : IsAlike a.store b.store
  pub changed : a.changed ≡ b.changed

abbrev pub fetched : (Source → Result FetchResult) → List Source → List Source
fetched fetch ss = filter (λ s. is_fetched (fetch s)) ss

module _ (new_id : ℕ → Text) (digest : Text → Text) (now : ℕ) (fetch : Source → Result FetchResult)
    (message_of : Failure → Text) (project_id : Text) where
  abbrev one : Source → RefreshState → RefreshState
  one = refresh_one new_id digest now fetch message_of project_id

  abbrev each : List Source → RefreshState → RefreshState
  each = refresh_each new_id digest now fetch message_of project_id

  pub failed-noteless :
      (id error : Text) (s : Source)
      → noteless (mark_failed new_id digest now fetch message_of id error s) ≡ noteless s
  unfolding mark_failed
  failed-noteless id error s = elim (Bool-cases (text_eq s.id id)) [
    | inl e ↦ rw e refl
    | inr e ↦ rw e refl
  ]

  -- A failure leaves a store alike.
  pub failing-IsSameRefresh :
      (s : Source) (st : RefreshState) → is_fetched (fetch s) ≡ false → IsSameRefresh (one s st) st
  unfolding refresh_one refresh_fetched add_failure
  failing-IsSameRefresh s st h = elim (Result-cases (fetch s)) [
    | inr (f, e) ↦ rw (refresh_one, e) (record { store = IsAlike-refl st.store; changed = refl })
    | inl (res, e) ↦
        let bad : res.is_ok ≡ false = rw e at h in
        rw (refresh_one, e, refresh_fetched, bad)
          (record {
            store = record {
              sources = map_same _ st.store.sources (failed-noteless s.id (error_of res));
              snapshots = refl;
              next_id = refl;
            };
            changed = refl;
          })
  ]

  -- Ingestions that agree are noted alike.
  noted-IsSameRefresh :
      (s : Source) (r q : IngestOutcome) (a b : RefreshState)
      → SameResult new_id digest now r q
      → a.changed ≡ b.changed
      → IsSameRefresh
          (note_ingestion new_id digest now fetch message_of s r a)
          (note_ingestion new_id digest now fetch message_of s q b)
  unfolding note_ingestion add_failure
  noted-IsSameRefresh s r q a b same h = elim (Result-cases q.result) [
    | inl (x, e) ↦
        rw (note_ingestion, same.result ∙ e, e)
          (record {
            store = same.store;
            changed = ap (λ l. if x.changed then l ++ (s.id ∷ []) else l) h;
          })
    | inr (f, e) ↦
        rw (note_ingestion, same.result ∙ e, e) (record { store = same.store; changed = h })
  ]

  -- An answer does the same to states that agree.
  fetched-IsSameRefresh :
      (s : Source) (a b : RefreshState)
      → IsSameRefresh a b
      → is_fetched (fetch s) ≡ true
      → IsSameRefresh (one s a) (one s b)
  unfolding refresh_one refresh_fetched
  fetched-IsSameRefresh s a b same h = elim (Result-cases (fetch s)) [
    | inr (f, e) ↦ cc (rw e at h)
    | inl (res, e) ↦
        let good : res.is_ok ≡ true = rw e at h in
        let input = refresh_input new_id digest now fetch message_of project_id s res in
        rw (refresh_one, e, refresh_fetched, good)
          (noted-IsSameRefresh s (ingest_content new_id digest now input a.store)
            (ingest_content new_id digest now input b.store) a b
            (ingest-SameResult new_id digest now input a.store b.store same.store) same.changed)
  ]

  each-IsSameRefresh :
      (ss : List Source) (a b : RefreshState)
      → IsSameRefresh a b
      → IsSameRefresh (each ss a) (each (fetched fetch ss) b)
  unfolding refresh_each
  each-IsSameRefresh [] a b same = same
  each-IsSameRefresh (s ∷ ss) a b same = elim (Bool-cases (is_fetched (fetch s))) [
    | inl e ↦ rw e (each-IsSameRefresh ss (one s a) (one s b) (fetched-IsSameRefresh s a b same e))
    | inr e ↦
        let left = failing-IsSameRefresh s a e in
        rw e (
          each-IsSameRefresh ss (one s a) b (record {
            store = IsAlike-trans left.store same.store;
            changed = left.changed ∙ same.changed;
          }))
  ]

  -- A failed source does not invalidate the others: a refresh leaves the same snapshots, the same
  -- sources but for the notes on them, and the same list of changes, as the loop over those sources
  -- alone whose fetch is ok.
  pub refresh_project-isolated :
      (store : IngestStore)
      → let r = refresh_project new_id digest now fetch message_of project_id store in
        let st =
          refresh_each new_id digest now fetch message_of project_id
            (fetched fetch (url_sources project_id store.sources))
            (record { store = store; changed = []; failed = [] }) in
        IsAlike r.0 st.store × (r.1.changed ≡ st.changed)
  unfolding refresh_project
  refresh_project-isolated store =
      let start : RefreshState = record { store = store; changed = []; failed = [] } in
      let same =
        each-IsSameRefresh (url_sources project_id store.sources) start start
          (record { store = IsAlike-refl store; changed = refl }) in
      (same.store, same.changed)
