-- ===== src/Shared/IdReferences.antt =====
-- legacy/packages/shared/src/schemas.ts, `collectReferencedIds` and `validateIdReferences`: the guard
-- that a model's response names only the ids of its input.
pub mod Occurrences
pub mod Laws
use content_gap.Prelude.{
  ℕ, Bool, true, false, not, ◌&&◌, ◌||◌, List, [], ◌∷◌, ◌++◌, Option, none, some, if◌then◌else◌,
}
use content_gap.Prelude.Text.{Text, codes, text_eq, has, is_empty}
use content_gap.Shared.Results.{
  IdKind, chunk, cohort, content_unit, unknown_id, Result, ok, err, ◌>>=◌, ◌>>◌,
}

-- A parsed JSON value; numbers carry no id and are kept as the text they print as.
mutual
  pub data Json : Type 0 where
    null : Json
    boolean : Bool → Json
    number : Text → Json
    string : Text → Json
    array : Items → Json
    object : Fields → Json

  pub data Items : Type 0 where
    nil : Items
    cons : Json → Items → Items

  pub data Fields : Type 0 where
    end : Fields
    field : Text → Json → Fields → Fields

-- `key && isIdKey(key)`
abbrev pub is_id_key : List Text → Option Text → Bool
is_id_key keys none = false
is_id_key keys (some k) = not (is_empty k) && has keys k

-- `walk`
unfoldable mutual
  pub walk : List Text → Json → Option Text → List Text
  walk keys null key = []
  walk keys (boolean b) key = []
  walk keys (number n) key = []
  walk keys (string v) key = if is_id_key keys key then v ∷ [] else []
  walk keys (array xs) key = walk_items keys xs key
  walk keys (object fs) key = walk_fields keys fs

  pub walk_items : List Text → Items → Option Text → List Text
  walk_items keys nil key = []
  walk_items keys (cons v xs) key = walk keys v key ++ walk_items keys xs key

  pub walk_fields : List Text → Fields → List Text
  walk_fields keys end = []
  walk_fields keys (field k v fs) = walk keys v (some k) ++ walk_fields keys fs

unfoldable pub collect_referenced_ids : Json → List Text → List Text
unfolding walk
collect_referenced_ids value keys = walk keys value none

pub record AllowedIds : Type 0 where
  pub chunk_ids : List Text
  pub cohort_ids : List Text
  pub content_unit_ids : List Text

abbrev pub chunk_keys : List Text
chunk_keys = codes "evidenceChunkId" ∷ codes "chunkId" ∷ codes "supportingChunkIds" ∷ []

abbrev pub cohort_keys : List Text
cohort_keys = codes "cohortId" ∷ codes "primaryCohortId" ∷ codes "secondaryCohortIds" ∷ []

abbrev pub content_unit_keys : List Text
content_unit_keys = codes "contentUnitId" ∷ codes "matchedContentUnitIds" ∷ []

-- The loops that throw at the first id that fails their test.
pub check_ids : IdKind → (Text → Bool) → List Text → Result (Unit {0})
check_ids kind allowed [] = ok tt
check_ids kind allowed (id ∷ ids) =
    if allowed id then check_ids kind allowed ids else err (unknown_id kind id)

unfoldable pub validate_id_references : Json → AllowedIds → Result (Unit {0})
unfolding collect_referenced_ids check_ids
validate_id_references value allowed = do
  check_ids chunk (has allowed.chunk_ids) (collect_referenced_ids value chunk_keys)
  check_ids cohort (λ id. is_empty id || has allowed.cohort_ids id)
      (collect_referenced_ids value cohort_keys)
  check_ids content_unit (has allowed.content_unit_ids)
      (collect_referenced_ids value content_unit_keys)
