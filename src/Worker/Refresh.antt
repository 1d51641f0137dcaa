-- ===== src/Worker/Refresh.antt =====
-- legacy/apps/worker/src/refresh.ts: the sources of a project that are fetched again, what is stored of
-- them, and which of them changed or failed.
pub mod Laws
pub mod Alike
pub mod Others
pub mod Isolation
pub mod Rounds
pub mod Removal
use content_gap.Prelude.{
  ℕ, Bool, true, false, not, ◌&&◌, List, [], ◌∷◌, ◌++◌, Option, none, some, map, filter, length,
  if◌then◌else◌,
}
use content_gap.Prelude.Text.{Text, codes, text_eq, is_empty}
use content_gap.Shared.Enums.{CrawlMethod, SourceStatus}
use content_gap.Shared.Results.{Failure, Result, ok, err}
use content_gap.Database.Tables.{Source}
use content_gap.Engine.Ingest.{IngestInput, IngestStore, IngestOutcome, ingest_content}

pub record FailedSource : Type 0 where
  pub source_id : Text
  pub error : Text

pub record RefreshResult : Type 0 where
  pub project_id : Text
  pub checked : ℕ
  pub changed : List Text
  pub failed : List FailedSource

-- What a fetch gives.
pub record FetchResult : Type 0 where
  pub is_ok : Bool
  pub title : Text
  pub text : Text
  pub error : Option Text

abbrev pub is_http : CrawlMethod → Bool
is_http CrawlMethod.http = true
is_http _ = false

abbrev pub has_text : Option Text → Bool
has_text none = false
has_text (some url) = not (is_empty url)

-- The rows of the query, and of them those that have an address.
unfoldable pub url_sources : Text → List Source → List Source
url_sources project_id sources =
    filter (λ s. is_http s.crawl_method && has_text s.canonical_url)
      (filter (λ s. text_eq s.project_id project_id && s.refresh_enabled) sources)

-- The tables, and the lists that the loop fills.
pub record RefreshState : Type 0 where
  pub store : IngestStore
  pub changed : List Text
  pub failed : List FailedSource

abbrev pub error_of : FetchResult → Text
error_of res = elim res.error [ none ↦ codes "fetch_failed" | some e ↦ e ]

unfoldable pub add_failure : Source → Text → RefreshState → RefreshState
add_failure s error st = record st {
  failed = st.failed ++ (record { source_id = s.id; error = error } ∷ []);
}

-- `fetch` is what each source's address gives, or an exception, and `message_of` the message of one.
module _ (new_id : ℕ → Text) (digest : Text → Text) (now : ℕ) (fetch : Source → Result FetchResult)
    (message_of : Failure → Text) where
  unfoldable pub mark_failed : Text → Text → Source → Source
  mark_failed id error s =
      if text_eq s.id id
      then record s {
        status = SourceStatus.failed;
        last_failure_at = some now;
        error_message = some error;
      }
      else s

  unfoldable pub refresh_input : Text → Source → FetchResult → IngestInput
  refresh_input project_id s res = record {
    project_id = project_id;
    owner_type = s.owner_type;
    competitor_slot = s.competitor_slot;
    source_type = s.source_type;
    name = s.name;
    url = s.canonical_url;
    title = res.title;
    text = res.text;
    crawl_method = CrawlMethod.http;
    published_at = none;
  }

  -- What the loop notes of an ingestion; the `catch` also takes what it throws.
  unfoldable pub note_ingestion : Source → IngestOutcome → RefreshState → RefreshState
  unfolding add_failure
  note_ingestion s out st =
      let kept = record st { store = out.store } in
      elim out.result [
        | ok r ↦ record kept {
          changed = if r.changed then st.changed ++ (s.id ∷ []) else st.changed;
        }
        | err e ↦ add_failure s (message_of e) kept
      ]

  -- A source whose fetch gave an answer.
  unfoldable pub refresh_fetched : Text → Source → FetchResult → RefreshState → RefreshState
  unfolding add_failure mark_failed refresh_input note_ingestion ingest_content
  refresh_fetched project_id s res st =
      if not res.is_ok
      then add_failure s (error_of res) (record st {
        store = record st.store {
          sources = map (mark_failed s.id (error_of res)) st.store.sources;
        };
      })
      else note_ingestion s
          (ingest_content new_id digest now (refresh_input project_id s res) st.store) st

  unfoldable pub refresh_one : Text → Source → RefreshState → RefreshState
  unfolding refresh_fetched add_failure
  refresh_one project_id s st = elim (fetch s) [
    | ok res ↦ refresh_fetched project_id s res st
    | err e ↦ add_failure s (message_of e) st
  ]

  unfoldable pub refresh_each : Text → List Source → RefreshState → RefreshState
  unfolding refresh_one
  refresh_each project_id [] st = st
  refresh_each project_id (s ∷ ss) st = refresh_each project_id ss (refresh_one project_id s st)

  unfoldable pub refresh_project : Text → IngestStore → IngestStore × RefreshResult
  unfolding url_sources refresh_each
  refresh_project project_id store =
      let todo = url_sources project_id store.sources in
      let st = refresh_each project_id todo (record { store = store; changed = []; failed = [] }) in
      (
        st.store,
        record {
          project_id = project_id;
          checked = length todo;
          changed = st.changed;
          failed = st.failed;
        },
      )
