-- ===== src/Crawler/Voc/Laws.antt =====
-- legacy/packages/crawler/src/parsers.ts, `normalizeVocRows`: every row is kept or counted, and what is kept
-- is within the limits.
use content_gap.Prelude.{
  ℕ, suc, ◌+◌, ◌≤◌, ◌&&◌, List, [], ◌∷◌, ◌++◌, Option, none, some, ◌≡◌, refl, ap, ◌∙◌, inl, inr,
  Bool-cases, Option-cases, All, All-append, length, length-append, leb, arith,
}
use content_gap.Prelude.Text.{Text, trim, is_empty}
use content_gap.Shared.Results.{Result, ok, err, >>=-eq-ok}
use content_gap.Shared.Schemas.Parsing.{medium_min1, short, parse_nullable, parse_array, parse_text}
use content_gap.Crawler.Voc.{
  VocObject, VocRow, parse_voc_row, voc_candidate, voc_row, VocRows, normalize_each,
  normalize_voc_rows, pick, text_keys,
}

-- A row within the limits of the schema.
abbrev pub IsBounded : VocRow → Type 0
IsBounded row = (1 ≤ length row.text) × (length row.text ≤ 2000)

parse_text-bounds :
    (least most : ℕ) (s t : Text)
    → parse_text least most s ≡ ok t
    → (least ≤ length t) × (length t ≤ most)
unfolding parse_text
parse_text-bounds least most s t h =
    elim (Bool-cases (leb least (length (trim s)) && leb (length (trim s)) most)) [
      | inl e ↦
          let made : ok (trim s) ≡ ok t = rw (parse_text, e) at h in
          let same : trim s ≡ t = cc in rw (← same) (ground (arith, e), ground (arith, e))
      | inr e ↦ cc (rw (parse_text, e) at h)
    ]

parse_voc_row-IsBounded : (c row : VocRow) → parse_voc_row c ≡ ok row → IsBounded row
unfolding parse_voc_row
parse_voc_row-IsBounded c row h =
    let (text, p, h1) = >>=-eq-ok (medium_min1 c.text) _ h in
    let (source_type, p2, h2) = >>=-eq-ok (parse_nullable short c.source_type) _ h1 in
    let (date, p3, h3) = >>=-eq-ok (parse_nullable short c.date) _ h2 in
    let (customer_type, p4, h4) = >>=-eq-ok (parse_nullable short c.customer_type) _ h3 in
    let (outcome, p5, h5) = >>=-eq-ok (parse_nullable short c.outcome) _ h4 in
    let (tags, p6, h6) = >>=-eq-ok (parse_nullable (parse_array short 0 30) c.tags) _ h5 in
    let bounds = parse_text-bounds 1 2000 c.text text p in
    let same : text ≡ row.text = ap (λ r. elim r [ ok v ↦ v.text | err e ↦ [] ]) h6 in
    rw (← same) bounds

abbrev kept_of : Result VocRow → Option VocRow
kept_of r = elim r [ ok row ↦ some row | err e ↦ none ]

kept-IsBounded :
    (c row : VocRow) (r : Result VocRow)
    → parse_voc_row c ≡ r
    → kept_of r ≡ some row
    → IsBounded row
kept-IsBounded c row (ok v) e h =
    let same : v ≡ row = cc in parse_voc_row-IsBounded c row (e ∙ ap ok same)
kept-IsBounded c row (err f) e h = cc

voc_row-IsBounded : (r : VocObject) (row : VocRow) → voc_row r ≡ some row → IsBounded row
unfolding voc_row
voc_row-IsBounded r row h = elim (Bool-cases (is_empty (pick r text_keys))) [
  | inl e ↦ cc (rw (voc_row, e) at h)
  | inr e ↦
      kept-IsBounded (voc_candidate r (pick r text_keys)) row
        (parse_voc_row (voc_candidate r (pick r text_keys))) refl (rw (voc_row, e) at h)
]

normalize_each-accounted :
    (rs : List VocObject) (st : VocRows)
    → All IsBounded st.rows
    → (length (normalize_each rs st).rows + (normalize_each rs st).skipped
        ≡ length st.rows + st.skipped + length rs)
      × All IsBounded (normalize_each rs st).rows
unfolding normalize_each
normalize_each-accounted [] st h = (omega arith, h)
normalize_each-accounted (r ∷ rs) st h = elim (Option-cases (voc_row r)) [
  | inl e ↦
      let (n, k) = normalize_each-accounted rs (record st { skipped = suc st.skipped }) h in
      rw (normalize_each, e) (omega (arith, n), k)
  | inr (row, e) ↦
      let (n, k) =
        normalize_each-accounted rs (record st { rows = st.rows ++ (row ∷ []) })
          (All-append IsBounded st.rows (row ∷ []) h (voc_row-IsBounded r row e, tt)) in
      rw (normalize_each, e) (omega (arith, n, length-append st.rows (row ∷ [])), k)
]

-- Each row of customers' voices is kept or counted as skipped, and each row that is kept has a text of
-- 1 to 2000 characters.
pub normalize_voc_rows-accounted :
    (rs : List VocObject)
    → (length (normalize_voc_rows rs).rows + (normalize_voc_rows rs).skipped ≡ length rs)
      × All IsBounded (normalize_voc_rows rs).rows
unfolding normalize_voc_rows
normalize_voc_rows-accounted rs =
    let (n, k) = normalize_each-accounted rs (record { rows = []; skipped = 0 }) tt in
    (omega (arith, n), k)
