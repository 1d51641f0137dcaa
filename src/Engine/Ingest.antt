-- ===== src/Engine/Ingest.antt =====
-- legacy/packages/analysis-engine/src/ingest.ts: a source takes in content, and keeps a snapshot of it
-- only if its hash is not that of the current one.
pub mod Laws
pub mod Reverted
use content_gap.Prelude.{
  ℕ, suc, Bool, true, false, ◌&&◌, List, [], ◌∷◌, ◌++◌, Option, none, some, map, find, any,
  if◌then◌else◌,
}
use content_gap.Prelude.Text.{Text, codes, text_eq, is_empty}
use content_gap.Shared.Enums.{OwnerType, CrawlMethod, SourceStatus}
use content_gap.Shared.EvidenceStatus.{owner_type_literal}
use content_gap.Shared.Hashing.{content_hash}
use content_gap.Shared.Results.{Failure, Result, ok, err, error}
use content_gap.Database.Tables.{Source, SourceSnapshot}

pub record IngestInput : Type 0 where
  pub project_id : Text
  pub owner_type : OwnerType
  pub competitor_slot : Option ℕ
  pub source_type : Text
  pub name : Text
  pub url : Option Text
  pub title : Text
  pub text : Text
  pub crawl_method : CrawlMethod
  pub published_at : Option Text

pub record IngestStore : Type 0 where
  pub sources : List Source
  pub snapshots : List SourceSnapshot
  pub next_id : ℕ

pub record IngestResult : Type 0 where
  pub source_id : Text
  pub changed : Bool

-- The tables after a call, and what it returns or throws: there is no transaction, so that what is
-- written before an exception stays.
pub record IngestOutcome : Type 0 where
  pub store : IngestStore
  pub result : Result IngestResult

-- Two owners as the database compares them.
abbrev pub same_owner : OwnerType → OwnerType → Bool
same_owner a b = text_eq (owner_type_literal a) (owner_type_literal b)

abbrev pub has_url : Text → Option Text → Bool
has_url url none = false
has_url url (some u) = text_eq u url

-- `existing[0]`
unfoldable pub existing_source : IngestInput → List Source → Option Source
existing_source input sources = elim input.url [
  | none ↦ none
  | some url ↦
      if is_empty url
      then none
      else find
          (λ s.
            text_eq s.project_id input.project_id
            && (same_owner s.owner_type input.owner_type && has_url url s.canonical_url))
          sources
]

-- What PostgreSQL throws for a second row of one source with one hash; the index is
-- `uq_snapshot_source_hash` of database/migrations/0000_init.sql.
abbrev pub duplicate_snapshot : Failure
duplicate_snapshot =
    error (codes "duplicate key value violates unique constraint \"uq_snapshot_source_hash\"")

unfoldable pub is_current_of : Text → SourceSnapshot → Bool
is_current_of source_id s = text_eq s.source_id source_id && s.is_current

-- `new_id` gives the ids of the database, `digest` is SHA-256, `now` the time of the call.
module _ (new_id : ℕ → Text) (digest : Text → Text) (now : ℕ) where
  abbrev pub new_source : IngestInput → Text → Source
  new_source input id = record {
    id = id;
    project_id = input.project_id;
    owner_type = input.owner_type;
    competitor_slot = input.competitor_slot;
    source_type = input.source_type;
    name = input.name;
    canonical_url = input.url;
    crawl_method = input.crawl_method;
    refresh_enabled = true;
    last_success_at = none;
    last_failure_at = none;
    status = SourceStatus.pending;
    error_message = none;
  }

  -- The source of the input, and the store with it.
  unfoldable pub resolve_source : IngestInput → IngestStore → IngestStore × Text
  unfolding existing_source
  resolve_source input st = elim (existing_source input st.sources) [
    | some s ↦ (st, s.id)
    | none ↦ (
      record st {
        sources = st.sources ++ (new_source input (new_id st.next_id) ∷ []);
        next_id = suc st.next_id;
      },
      new_id st.next_id,
    )
  ]

  abbrev pub mark_processed : Text → List Source → List Source
  mark_processed source_id sources =
      map
        (λ s.
          if text_eq s.id source_id
          then record s { last_success_at = some now; status = SourceStatus.processed }
          else s)
        sources

  unfoldable pub retire : Text → SourceSnapshot → SourceSnapshot
  unfolding is_current_of
  retire source_id s = if is_current_of source_id s then record s { is_current = false } else s

  unfoldable pub new_snapshot : IngestInput → Text → Text → SourceSnapshot
  unfolding content_hash
  new_snapshot input source_id id = record {
    id = id;
    source_id = source_id;
    content_hash = content_hash digest input.text;
    raw_content = input.text;
    normalized_content = input.text;
    metadata = record {
      title = some input.title;
      published_at = input.published_at;
      competitor_slot = input.competitor_slot;
    };
    is_current = true;
  }

  -- The test `current[0]?.contentHash === hash`
  unfoldable pub unchanged : IngestInput → Text → List SourceSnapshot → Bool
  unfolding is_current_of content_hash
  unchanged input source_id snapshots = elim (find (is_current_of source_id) snapshots) [
    | none ↦ false
    | some cur ↦ text_eq cur.content_hash (content_hash digest input.text)
  ]

  -- The index has a row of the source with the hash of the input.
  unfoldable pub has_snapshot : IngestInput → Text → List SourceSnapshot → Bool
  unfolding content_hash
  has_snapshot input source_id snapshots =
      any
        (λ s.
          text_eq s.source_id source_id && text_eq s.content_hash (content_hash digest input.text))
        snapshots

  -- The insertion of the new snapshot, and what follows it.
  unfoldable pub add_snapshot : IngestInput → Text → IngestStore → IngestOutcome
  unfolding has_snapshot new_snapshot
  add_snapshot input source_id st =
      if has_snapshot input source_id st.snapshots
      then record { store = st; result = err duplicate_snapshot }
      else record {
        store = record {
          sources = mark_processed source_id st.sources;
          snapshots = st.snapshots ++ (new_snapshot input source_id (new_id st.next_id) ∷ []);
          next_id = suc st.next_id;
        };
        result = ok (record { source_id = source_id; changed = true });
      }

  -- The part of `ingestContent` after the source is known.
  unfoldable pub store_content : IngestInput → Text → IngestStore → IngestOutcome
  unfolding unchanged retire add_snapshot
  store_content input source_id st =
      if unchanged input source_id st.snapshots
      then record {
        store = record st { sources = mark_processed source_id st.sources };
        result = ok (record { source_id = source_id; changed = false });
      }
      else add_snapshot input source_id
          (record st { snapshots = map (retire source_id) st.snapshots })

  unfoldable pub ingest_content : IngestInput → IngestStore → IngestOutcome
  unfolding resolve_source store_content
  ingest_content input st = let r = resolve_source input st in store_content input r.1 r.0
