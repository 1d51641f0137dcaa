-- ===== src/Crawler/Csv.antt =====
-- legacy/packages/crawler/src/parsers.ts: the loop of `parseCsv`, which cuts a text into rows of
-- fields.
pub mod RoundTrip
use content_gap.Prelude.{
  Bool, true, false, not, ◌==◌, ◌&&◌, ◌||◌, if◌then◌else◌, List, [], ◌∷◌, ◌++◌, any, ℕ,
}
use content_gap.Prelude.Text.{Text, is_empty}

-- The variables of the loop; `skip` is an `i++` of the body, which passes over the next character.
pub record Scanner : Type 0 where
  pub rows : List (List Text)
  pub field : Text
  pub row : List Text
  pub in_quotes : Bool
  pub skip : Bool

-- `content[i + 1] === c`
unfoldable pub next_is : ℕ → Text → Bool
next_is c [] = false
next_is c (d ∷ s) = d == c

abbrev pub add_char : ℕ → Scanner → Scanner
add_char c st = record st { field = st.field ++ (c ∷ []) }

abbrev pub end_field : Scanner → Scanner
end_field st = record st { row = st.row ++ (st.field ∷ []); field = [] }

-- `if (row.some((f) => f.length > 0)) rows.push(row)`
unfoldable pub push_row : List Text → List (List Text) → List (List Text)
push_row row rows = if any (λ f. not (is_empty f)) row then rows ++ (row ∷ []) else rows

abbrev pub end_row : Bool → Scanner → Scanner
end_row skip st = record st {
  rows = push_row (st.row ++ (st.field ∷ [])) st.rows;
  field = [];
  row = [];
  skip = skip;
}

-- The body of the loop at the character `c`, before `s`.
unfoldable pub read_char : ℕ → Text → Scanner → Scanner
read_char c s st =
    if st.in_quotes
    then if c == b'"'
      then if next_is b'"' s
        then record (add_char b'"' st) { skip = true }
        else record st { in_quotes = false }
      else add_char c st
    else if c == b'"'
    then record st { in_quotes = true }
    else if c == b','
    then end_field st
    else if c == 10 || c == 13
    then end_row (c == 13 && next_is 10 s) st
    else add_char c st

unfoldable pub read_chars : Text → Scanner → Scanner
read_chars [] st = st
read_chars (c ∷ s) st =
    read_chars s (if st.skip then record st { skip = false } else read_char c s st)

-- `if (field.length > 0 || row.length > 0) { … }`
has_fields : List Text → Bool
has_fields [] = false
has_fields (f ∷ fs) = true

unfoldable pub last_row : Scanner → List (List Text)
unfolding has_fields
last_row st =
    if not (is_empty st.field) || has_fields st.row
    then push_row (st.row ++ (st.field ∷ [])) st.rows
    else st.rows

unfoldable pub csv_rows : Text → List (List Text)
csv_rows content =
    last_row (
      read_chars content
        record { rows = []; field = []; row = []; in_quotes = false; skip = false })
