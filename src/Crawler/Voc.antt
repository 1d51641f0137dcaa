-- ===== src/Crawler/Voc.antt =====
-- legacy/packages/crawler/src/parsers.ts, the objects of `parseCsv`, and `normalizeVocRows` with
-- `pick` and `splitTags`, and `VocRowSchema` of legacy/packages/shared/src/schemas.ts.
pub mod Laws
use content_gap.Prelude.{
  ℕ, suc, ◌+◌, Bool, true, false, not, ◌||◌, List, [], ◌∷◌, ◌++◌, Option, none, some, map, filter,
  take, find, if◌then◌else◌, ◌==◌, length,
}
use content_gap.Prelude.Text.{Text, codes, text_eq, trim, is_empty}
use content_gap.Shared.Enums.{JourneyStage}
use content_gap.Shared.Results.{Result, ok, err, ◌>>=◌}
use content_gap.Shared.Dates.{parse_date_or_null}
use content_gap.Shared.Schemas.Parsing.{short, medium_min1, parse_array, parse_nullable, parse_text}
use content_gap.Llm.Injection.{lower_ascii}
use content_gap.Crawler.Csv.{csv_rows}

-- An object that is used as a map.
pub record Field (V : Type 0) : Type 0 where
  pub key : Text
  pub value : V

-- `obj[key] = value` for a string, which an object does not take for its prototype.
unfoldable pub set_field : Text → Text → List (Field Text) → List (Field Text)
set_field key value [] =
    if text_eq key (codes "__proto__") then [] else record { key = key; value = value } ∷ []
set_field key value (f ∷ fs) =
    let rest = set_field key value fs in
    if text_eq f.key key then record { key = key; value = value } ∷ fs else f ∷ rest

abbrev pub cell : List Text → Text × List Text
cell [] = ([], [])
cell (c ∷ cs) = (trim c, cs)

-- The loop over the headings; the second list is what is left of the row.
unfoldable pub row_object : List Text → List Text → List (Field Text) → List (Field Text)
unfolding set_field
row_object [] r obj = obj
row_object (h ∷ hs) r obj = let c = cell r in row_object hs c.1 (set_field h c.0 obj)

unfoldable pub parse_csv : Text → List (List (Field Text))
unfolding csv_rows row_object
parse_csv content = elim (csv_rows content) [
  | [] ↦ []
  | headers ∷ rows ↦ map (λ r. row_object (map trim headers) r []) rows
]

-- A value of a row: a string, a number as `String` shows it, nothing (`null` or `undefined`), or
-- anything else.
pub data VocValue : Type 0 where
  string_value : Text → VocValue
  number_value : Text → VocValue
  nothing : VocValue
  other : VocValue

abbrev pub VocObject : Type 0
VocObject = List (Field VocValue)

unfoldable pub get_field : VocObject → Text → VocValue
get_field row key = elim (find (λ f. text_eq f.key key) row) [
  | none ↦ VocValue.nothing
  | some f ↦ f.value
]

-- `row[k] ?? row[k.toLowerCase()]`; the keys are ASCII.
unfoldable pub get_either : VocObject → Text → VocValue
unfolding get_field
get_either row key = elim (get_field row key) [
  | VocValue.nothing ↦ get_field row (map lower_ascii key)
  | v ↦ v
]

-- What the body of the loop of `pick` gives, with `none` where the loop goes on.
unfoldable pub picked : VocValue → Option Text
picked (VocValue.string_value v) = if is_empty (trim v) then none else some (trim v)
picked (VocValue.number_value shown) = some shown
picked VocValue.nothing = none
picked VocValue.other = none

unfoldable pub pick : VocObject → List Text → Text
unfolding get_either picked
pick row [] = []
pick row (k ∷ ks) =
    let rest = pick row ks in elim (picked (get_either row k)) [ some v ↦ v | none ↦ rest ]

abbrev pub is_tag_end : ℕ → Bool
is_tag_end c = c == b';' || c == b',' || c == b'|'

-- `raw.split(/[;,|]/)`
unfoldable pub split_at_tags : Text → List Text
split_at_tags [] = [] ∷ []
split_at_tags (c ∷ s) =
    let rest = split_at_tags s in
    if is_tag_end c then [] ∷ rest else elim rest [ [] ↦ (c ∷ []) ∷ [] | p ∷ ps ↦ (c ∷ p) ∷ ps ]

unfoldable pub split_tags : Text → Option (List Text)
unfolding split_at_tags
split_tags raw =
    if is_empty raw
    then none
    else some (take 30 (filter (λ t. not (is_empty t)) (map trim (split_at_tags raw))))

-- `s || undefined`
abbrev pub or_undefined : Text → Option Text
or_undefined s = if is_empty s then none else some s

abbrev pub or_undefined_date : Option Text → Option Text
or_undefined_date none = none
or_undefined_date (some s) = or_undefined s

pub record VocRow : Type 0 where
  pub text : Text
  pub source_type : Option Text
  pub date : Option Text
  pub customer_type : Option Text
  pub journey_stage : Option JourneyStage
  pub outcome : Option Text
  pub tags : Option (List Text)

-- `VocRowSchema.safeParse`
unfoldable pub parse_voc_row : VocRow → Result VocRow
unfolding parse_text parse_array
parse_voc_row c = do
  text ← medium_min1 c.text
  source_type ← parse_nullable short c.source_type
  date ← parse_nullable short c.date
  customer_type ← parse_nullable short c.customer_type
  outcome ← parse_nullable short c.outcome
  tags ← parse_nullable (parse_array short 0 30) c.tags
  ok (record {
    text = text;
    source_type = source_type;
    date = date;
    customer_type = customer_type;
    journey_stage = c.journey_stage;
    outcome = outcome;
    tags = tags;
  })

unfoldable pub voc_candidate : VocObject → Text → VocRow
unfolding pick parse_date_or_null split_tags
voc_candidate r text = record {
  text = text;
  source_type =
      or_undefined
        (pick r (codes "sourceType" ∷ codes "source_type" ∷ codes "source" ∷ codes "channel" ∷ []));
  date = or_undefined_date (
      parse_date_or_null
        (some (pick r (codes "date" ∷ codes "created_at" ∷ codes "timestamp" ∷ []))));
  customer_type =
      or_undefined (pick r (codes "customerType" ∷ codes "customer_type" ∷ codes "persona" ∷ []));
  journey_stage = none;
  outcome = or_undefined (pick r (codes "outcome" ∷ codes "result" ∷ []));
  tags = split_tags (pick r (codes "tags" ∷ codes "labels" ∷ []));
}

-- The keys of a row's text.
abbrev pub text_keys : List Text
text_keys =
    codes "text"
    ∷ codes "quote"
    ∷ codes "message"
    ∷ codes "comment"
    ∷ codes "body"
    ∷ codes "content"
    ∷ []

-- A row that is kept, with `none` for one that is skipped.
unfoldable pub voc_row : VocObject → Option VocRow
unfolding pick voc_candidate parse_voc_row
voc_row r =
    let text = pick r text_keys in
    if is_empty text
    then none
    else elim (parse_voc_row (voc_candidate r text)) [ ok row ↦ some row | err e ↦ none ]

pub record VocRows : Type 0 where
  pub rows : List VocRow
  pub skipped : ℕ

unfoldable pub normalize_each : List VocObject → VocRows → VocRows
unfolding voc_row
normalize_each [] st = st
normalize_each (r ∷ rs) st = elim (voc_row r) [
  | none ↦ normalize_each rs (record st { skipped = suc st.skipped })
  | some row ↦ normalize_each rs (record st { rows = st.rows ++ (row ∷ []) })
]

unfoldable pub normalize_voc_rows : List VocObject → VocRows
unfolding normalize_each
normalize_voc_rows rows = normalize_each rows (record { rows = []; skipped = 0 })
