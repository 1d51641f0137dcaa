-- ===== src/Worker/Refresh/Laws.antt =====
-- legacy/apps/worker/src/refresh.ts: the snapshots after a refresh.
use content_gap.Prelude.{ℕ, Bool, false, List, [], ◌∷◌, inl, inr, Bool-cases}
use content_gap.Prelude.Text.{Text}
use content_gap.Shared.Results.{Failure, Result, ok, err, Result-cases}
use content_gap.Database.Tables.{Source}
use content_gap.Engine.Ingest.{IngestStore, IngestOutcome, ingest_content}
use content_gap.Engine.Ingest.Laws.{OneCurrent, ingest_content-OneCurrent}
use content_gap.Worker.Refresh.{
  FetchResult, RefreshState, url_sources, add_failure, refresh_input, refresh_fetched, refresh_one,
  refresh_each, refresh_project, note_ingestion,
}

abbrev pub is_fetched : Result FetchResult → Bool
is_fetched (ok res) = res.is_ok
is_fetched (err e) = false

module _ (new_id : ℕ → Text) (digest : Text → Text) (now : ℕ) (fetch : Source → Result FetchResult)
    (message_of : Failure → Text) where
  abbrev one : Text → Source → RefreshState → RefreshState
  one = refresh_one new_id digest now fetch message_of

  abbrev each : Text → List Source → RefreshState → RefreshState
  each = refresh_each new_id digest now fetch message_of

  noted-OneCurrent :
      (s : Source) (out : IngestOutcome) (st : RefreshState)
      → OneCurrent out.store.snapshots
      → OneCurrent (note_ingestion new_id digest now fetch message_of s out st).store.snapshots
  unfolding note_ingestion add_failure
  noted-OneCurrent s out st h = elim (Result-cases out.result) [
    | inl (r, e) ↦ rw (note_ingestion, e) h
    | inr (f, e) ↦ rw (note_ingestion, e) h
  ]

  fetched-OneCurrent :
      (project_id : Text) (s : Source) (res : FetchResult) (st : RefreshState)
      → OneCurrent st.store.snapshots
      → OneCurrent
          (refresh_fetched new_id digest now fetch message_of project_id s res st).store.snapshots
  unfolding refresh_fetched
  fetched-OneCurrent project_id s res st h = elim (Bool-cases res.is_ok) [
    | inl e ↦
        let input = refresh_input new_id digest now fetch message_of project_id s res in
        rw (refresh_fetched, e)
          (noted-OneCurrent s (ingest_content new_id digest now input st.store) st
            (ingest_content-OneCurrent new_id digest now input st.store h))
    | inr e ↦ rw (refresh_fetched, e) h
  ]

  one-OneCurrent :
      (project_id : Text) (s : Source) (st : RefreshState)
      → OneCurrent st.store.snapshots
      → OneCurrent (one project_id s st).store.snapshots
  unfolding refresh_one add_failure
  one-OneCurrent project_id s st h = elim (Result-cases (fetch s)) [
    | inl (res, e) ↦ rw (refresh_one, e) (fetched-OneCurrent project_id s res st h)
    | inr (f, e) ↦ rw (refresh_one, e) h
  ]

  each-OneCurrent :
      (project_id : Text) (ss : List Source) (st : RefreshState)
      → OneCurrent st.store.snapshots
      → OneCurrent (each project_id ss st).store.snapshots
  unfolding refresh_each
  each-OneCurrent project_id [] st h = h
  each-OneCurrent project_id (s ∷ ss) st h =
      each-OneCurrent project_id ss (one project_id s st) (one-OneCurrent project_id s st h)

  -- A refresh keeps at most one current snapshot of each source, also when fetches or ingestions fail.
  refresh_project-OneCurrent :
      (project_id : Text) (store : IngestStore)
      → OneCurrent store.snapshots
      → OneCurrent (refresh_project new_id digest now fetch message_of project_id store).0.snapshots
  unfolding refresh_project
  refresh_project-OneCurrent project_id store h =
      each-OneCurrent project_id (url_sources project_id store.sources)
        (record { store = store; changed = []; failed = [] }) h
