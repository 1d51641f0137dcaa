-- ===== src/Engine/Pipeline/Normalization.antt =====
-- legacy/packages/analysis-engine/src/pipeline.ts, stages `ingestion` and `normalization`: the current
-- snapshots that have no content units yet, and the units that are made of them.
use content_gap.Prelude.{
  ℕ, Bool, not, ◌&&◌, List, [], ◌∷◌, ◌++◌, Option, none, some, map, find, filter, any,
  if◌then◌else◌,
}
use content_gap.Prelude.Text.{Text, text_eq, split_on, trim, is_empty, map_get}
use content_gap.Shared.Enums.{OwnerType, AssetType}
use content_gap.Shared.Results.{Failure, ok}
use content_gap.Database.Tables.{Source, SourceSnapshot, ContentUnit}
use content_gap.Llm.Heuristics.{detect_language}
use content_gap.Engine.Chunking.{newline}
use content_gap.Engine.Pipeline.Store.{M, pure, ◌>>=◌, insert_unit}

-- A row of the join of the snapshots and their sources.
pub record Snap : Type 0 where
  pub snap : SourceSnapshot
  pub owner_type : OwnerType

unfoldable pub has_units : List ContentUnit → Text → Bool
has_units units snapshot_id = any (λ u. text_eq u.source_snapshot_id snapshot_id) units

-- The body of a snapshot of customers' voices as its rows.
unfoldable pub voc_rows : Text → List Text
voc_rows content = filter (λ r. not (is_empty r)) (map trim (split_on newline content))

-- `sources` and `snapshots` are the tables, which the run only reads.
module _ (project_id : Text) (sources : List Source) (snapshots : List SourceSnapshot) where
  unfoldable pub current_snaps : List SourceSnapshot → List Snap
  current_snaps [] = []
  current_snaps (s ∷ ss) =
      let rest = current_snaps ss in
      elim (find (λ src. text_eq src.id s.source_id) sources) [
        | none ↦ rest
        | some src ↦
            if text_eq src.project_id project_id && s.is_current
            then record { snap = s; owner_type = src.owner_type } ∷ rest
            else rest
      ]

  unfoldable pub pending : List ContentUnit → List Snap
  unfolding current_snaps has_units
  pending units = filter (λ s. not (has_units units s.snap.id)) (current_snaps snapshots)

  unfoldable pub ingestion_stage : M (List Snap)
  unfolding pending
  ingestion_stage s = (s, ok (pending s.content_units))

  -- `sourceById.get(id)`
  unfoldable pub source_by_id : Text → Option Source
  unfolding map_get
  source_by_id id = map_get (λ s. s.id) id (filter (λ s. text_eq s.project_id project_id) sources)

  abbrev pub url_of : Option Source → Option Text
  url_of none = none
  url_of (some s) = s.canonical_url

  abbrev pub slot_of : Option Source → Option ℕ
  slot_of none = none
  slot_of (some s) = s.competitor_slot

  unfoldable pub voc_unit : SourceSnapshot → Text → Text → ContentUnit
  unfolding source_by_id
  voc_unit snap row id = record {
    id = id;
    project_id = project_id;
    source_snapshot_id = snap.id;
    title = [];
    body = row;
    language = detect_language row;
    published_at = none;
    asset_type = AssetType.social_post;
    url = url_of (source_by_id snap.source_id);
    owner_type = OwnerType.voc;
    competitor_slot = none;
  }

  -- `meta.title ?? source?.name ?? ""`
  abbrev pub title_or_name : Option Text → Option Source → Text
  title_or_name (some title) source = title
  title_or_name none (some s) = s.name
  title_or_name none none = []

  unfoldable pub article_unit : Snap → Text → ContentUnit
  unfolding source_by_id
  article_unit p id = record {
    id = id;
    project_id = project_id;
    source_snapshot_id = p.snap.id;
    title = title_or_name p.snap.metadata.title (source_by_id p.snap.source_id);
    body = p.snap.normalized_content;
    language = detect_language p.snap.normalized_content;
    published_at = p.snap.metadata.published_at;
    asset_type = AssetType.article;
    url = url_of (source_by_id p.snap.source_id);
    owner_type = p.owner_type;
    competitor_slot = slot_of (source_by_id p.snap.source_id);
  }

  module _ (new_id : ℕ → Text) (date_error : Text → Option Failure) where
    unfoldable pub normalize_rows : SourceSnapshot → List Text → M (List Text)
    unfolding insert_unit voc_unit
    normalize_rows snap [] = pure []
    normalize_rows snap (row ∷ rows) = do
      id ← insert_unit new_id date_error (voc_unit snap row)
      ids ← normalize_rows snap rows
      pure (id ∷ ids)

    unfoldable pub normalize_article : Snap → M (List Text)
    unfolding insert_unit article_unit
    normalize_article p = do id ← insert_unit new_id date_error (article_unit p); pure (id ∷ [])

    unfoldable pub normalize_snap : Snap → M (List Text)
    unfolding normalize_rows normalize_article voc_rows
    normalize_snap p = elim p.owner_type [
      | OwnerType.voc ↦ normalize_rows p.snap (voc_rows p.snap.normalized_content)
      | _ ↦ normalize_article p
    ]

    -- The stage gives the ids of the new units.
    unfoldable pub normalization_stage : List Snap → M (List Text)
    unfolding normalize_snap
    normalization_stage [] = pure []
    normalization_stage (p ∷ ps) = do
      created ← normalize_snap p
      later ← normalization_stage ps
      pure (created ++ later)
