-- ===== src/Tests/Snapshots.antt =====
-- Ingestion of legacy/packages/analysis-engine/src/ingest.ts at one page.
use content_gap.Prelude.{ℕ, true, [], ◌∷◌, none, some, ◌≡◌, refl, ◌↔◌}
use content_gap.Prelude.Text.{Text, codes, text_eq, trim, trim_start, is_space}
use content_gap.Shared.Enums.{OwnerType, CrawlMethod, SourceStatus}
use content_gap.Shared.EvidenceStatus.{owner_type_literal}
use content_gap.Shared.Results.{err}
use content_gap.Database.Tables.{Source}
use content_gap.Engine.Ingest.{
  IngestInput, IngestStore, duplicate_snapshot, existing_source, ingest_content,
}
use content_gap.Engine.Ingest.Reverted.{IsReverted, ingest_content-IsReverted_iff}
use content_gap.Engine.Ingest.Laws.{OneCurrent, ingest_content-OneCurrent}
use mathlib.Core.List.{reverse}

abbrev page : IngestInput
page = record {
  project_id = codes "p";
  owner_type = OwnerType.owned;
  competitor_slot = none;
  source_type = codes "URL";
  name = codes "Home";
  url = some (codes "https://example.com");
  title = codes "Home";
  text = codes "Welcome.";
  crawl_method = CrawlMethod.http;
  published_at = none;
}

abbrev empty : IngestStore
empty = record { sources = []; snapshots = []; next_id = 0 }

abbrev new_id : ℕ → Text
new_id n = n ∷ []

abbrev once : IngestStore
once = (ingest_content new_id reverse 7 page empty).store

ingest_content-OneCurrent_example : OneCurrent once.snapshots
ingest_content-OneCurrent_example = ingest_content-OneCurrent new_id reverse 7 page empty tt

-- The page changes once, and then goes back to what it said at first.
abbrev other : IngestInput
other = record page { text = codes "Hello." }

abbrev twice : IngestStore
twice = (ingest_content new_id reverse 7 other once).store

abbrev source : Source
source = record {
  id = new_id 0;
  project_id = codes "p";
  owner_type = OwnerType.owned;
  competitor_slot = none;
  source_type = codes "URL";
  name = codes "Home";
  canonical_url = some (codes "https://example.com");
  crawl_method = CrawlMethod.http;
  refresh_enabled = true;
  last_success_at = some 7;
  last_failure_at = none;
  status = SourceStatus.processed;
  error_message = none;
}

source_known : existing_source page twice.sources ≡ some source
unfolding ingest_content text_eq owner_type_literal trim trim_start is_space
source_known = refl

ingest_content-IsReverted_iff_example :
    ((ingest_content new_id reverse 7 page twice).result ≡ err duplicate_snapshot)
    ↔ IsReverted new_id reverse 7 page source.id twice.snapshots
ingest_content-IsReverted_iff_example =
    ingest_content-IsReverted_iff new_id reverse 7 page twice source source_known
