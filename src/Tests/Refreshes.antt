-- ===== src/Tests/Refreshes.antt =====
-- The weekly refresh of legacy/apps/worker/src/refresh.ts on two sources, of which one
-- fails in its fetch or in its ingestion.
use content_gap.Prelude.{
  ℕ, ◌≢◌, false, inr, ◌++◌, true, [], ◌∷◌, none, some, ◌≡◌, refl, if◌then◌else◌,
}
use content_gap.Prelude.Text.{Text, codes, text_eq, text_eq_iff, trim, trim_start, is_space}
use content_gap.Shared.Enums.{OwnerType, CrawlMethod, SourceStatus}
use content_gap.Shared.Results.{Failure, Result, ok, err, error}
use content_gap.Database.Tables.{Source, SourceSnapshot}
use content_gap.Shared.Hashing.{content_hash}
use content_gap.Engine.Ingest.{IngestStore, duplicate_snapshot, existing_source, ingest_content}
use content_gap.Worker.Refresh.Rounds.{Throws, SameBut}
use content_gap.Worker.Refresh.Removal.{Elsewhere, refresh_each-isolated}
use content_gap.Worker.Refresh.{
  RefreshState, refresh_input, FetchResult, refresh_each, refresh_project,
}
use content_gap.Shared.EvidenceStatus.{owner_type_literal}
use mathlib.Core.List.{reverse}

abbrev home : Source
home = record {
  id = codes "s1";
  project_id = codes "p";
  owner_type = OwnerType.owned;
  competitor_slot = none;
  source_type = codes "URL";
  name = codes "Home";
  canonical_url = some (codes "https://example.com");
  crawl_method = CrawlMethod.http;
  refresh_enabled = true;
  last_success_at = none;
  last_failure_at = none;
  status = SourceStatus.pending;
  error_message = none;
}

abbrev away : Source
away = record home { id = codes "s2"; canonical_url = some (codes "https://example.org") }

abbrev store : IngestStore
store = record { sources = away ∷ home ∷ []; snapshots = []; next_id = 0 }

abbrev fetch : Source → Result FetchResult
fetch s =
    if text_eq s.id (codes "s1")
    then ok (record { is_ok = true; title = codes "Home"; text = codes "Welcome."; error = none })
    else err (error (codes "timeout"))

abbrev new_id : ℕ → Text
new_id n = n ∷ []

abbrev message_of : Failure → Text
message_of e = codes "timeout"

one_changed :
    (refresh_project new_id reverse 7 fetch message_of (codes "p") store).1.changed
    ≡ codes "s1" ∷ []
unfolding refresh_project text_eq owner_type_literal
one_changed = refl

-- The first source goes back to what it said before its current content, and the second one is new.
abbrev fetch_both : Source → Result FetchResult
fetch_both s = ok (record {
  is_ok = true;
  title = codes "Page";
  text = if text_eq s.id (codes "s1") then codes "Welcome." else codes "Hello.";
  error = none;
})

abbrev before : SourceSnapshot
before = record {
  id = codes "n1";
  source_id = codes "s1";
  content_hash = content_hash reverse (codes "Welcome.");
  raw_content = codes "Welcome.";
  normalized_content = codes "Welcome.";
  metadata = record { title = some (codes "Home"); published_at = none; competitor_slot = none };
  is_current = false;
}

abbrev current : SourceSnapshot
current = record before {
  id = codes "n2";
  content_hash = content_hash reverse (codes "Bye.");
  is_current = true;
}

abbrev start : RefreshState
start = record {
  store = record { sources = home ∷ away ∷ []; snapshots = before ∷ current ∷ []; next_id = 0 };
  changed = [];
  failed = [];
}

home-Throws : Throws new_id reverse 7 fetch_both message_of (codes "p") home (codes "s1") start
unfolding ingest_content refresh_input content_hash text_eq owner_type_literal trim trim_start
    is_space
home-Throws = record {
  res = record { is_ok = true; title = codes "Page"; text = codes "Welcome."; error = none };
  fetched = refl;
  good = refl;
  source = home;
  found = refl;
  its = refl;
  failure = duplicate_snapshot;
  thrown = refl;
}

away-Elsewhere :
    Elsewhere new_id reverse 7 fetch_both message_of
      (codes "p")
      (codes "s1")
      start.store.sources
      away
unfolding existing_source refresh_input text_eq owner_type_literal
away-Elsewhere = (codes "s2", differ, (λ res. refl))
  where
    differ : codes "s2" ≢ codes "s1"
    differ e = let same = (text_eq_iff (codes "s2") (codes "s1")).1 e in cc same

refresh_each-isolated_example :
    SameBut
      (codes "s1")
      (refresh_each new_id reverse 7 fetch_both message_of
        (codes "p")
        ([] ++ (home ∷ (away ∷ [])))
        start)
      (refresh_each new_id reverse 7 fetch_both message_of (codes "p") ([] ++ (away ∷ [])) start)
unfolding refresh_each
refresh_each-isolated_example =
    refresh_each-isolated new_id reverse 7 fetch_both message_of (codes "p") [] (away ∷ []) home
      (codes "s1") start (inr home-Throws) (away-Elsewhere, tt)
