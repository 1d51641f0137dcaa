-- ===== src/Crawler/Csv/RoundTrip.antt =====
-- legacy/packages/crawler/src/parsers.ts: what is written with quotes is read back.
use content_gap.Prelude.{
  Bool, true, false, not, ◌==◌, ==_iff, if◌then◌else◌, List, [], ◌∷◌, ◌++◌, any, map, ◌≡◌, refl, ap,
  ◌∙◌, append-nil, append_assoc, Bool-cases, inl, inr, All, ℕ,
}
use content_gap.Prelude.Text.{Text, is_empty}
use content_gap.Crawler.Csv.{Scanner, next_is, push_row, read_char, read_chars, last_row, csv_rows}

-- The text of a field in quotes: each quote is written twice.
unfoldable pub double : Text → Text
double [] = []
double (c ∷ s) = let rest = double s in if c == b'"' then b'"' ∷ b'"' ∷ rest else c ∷ rest

-- A field in quotes, before a text.
unfoldable pub quoted : Text → Text → Text
quoted f s = b'"' ∷ (double f ++ (b'"' ∷ s))

-- The fields of a row but the first, and the end of the line.
unfoldable pub fields_tail : List Text → Text → Text
fields_tail [] s = 10 ∷ s
fields_tail (f ∷ fs) s = b',' ∷ quoted f (fields_tail fs s)

pub record Row : Type 0 where
  pub first : Text
  pub others : List Text

abbrev pub fields : Row → List Text
fields r = r.first ∷ r.others

-- The CSV text of rows.
unfoldable pub csv_of : List Row → Text
csv_of [] = []
csv_of (r ∷ rs) = quoted r.first (fields_tail r.others (csv_of rs))

abbrev scanner : List (List Text) → Text → List Text → Bool → Scanner
scanner rows field row in_quotes = record {
  rows = rows;
  field = field;
  row = row;
  in_quotes = in_quotes;
  skip = false;
}

append_one {ℓ} :
    {A : Type ℓ} (xs : List A) (x : A) (ys : List A) → (xs ++ (x ∷ [])) ++ ys ≡ xs ++ (x ∷ ys)
append_one xs x ys = append_assoc xs (x ∷ []) ys

module _ (rows : List (List Text)) (row : List Text) where
  read_char-plain :
      (c : ℕ) (g s : Text)
      → (c == b'"') ≡ false
      → read_char c s (scanner rows g row true) ≡ scanner rows (g ++ (c ∷ [])) row true
  unfolding read_char
  read_char-plain c g s e = rw (read_char, e) refl

  read_chars-double :
      (f g s : Text)
      → next_is b'"' s ≡ false
      → read_chars (double f ++ (b'"' ∷ s)) (scanner rows g row true)
        ≡ read_chars s (scanner rows (g ++ f) row false)
  unfolding read_chars read_char double next_is
  read_chars-double [] g s n = rw (n, append-nil g) refl
  read_chars-double (c ∷ f) g s n = elim (Bool-cases (c == b'"')) [
    | inl e ↦
        let quote : c ≡ b'"' = (==_iff c b'"').0 e in
        let rest = read_chars-double f (g ++ (b'"' ∷ [])) s n in
        rw (quote, ← append_one g b'"' f) rest
    | inr e ↦
        let rest = read_chars-double f (g ++ (c ∷ [])) s n in
        rw (e) (
          ap (read_chars (double f ++ (b'"' ∷ s))) (read_char-plain c g (double f ++ (b'"' ∷ s)) e)
          ∙ rw (← append_one g c f) rest)
  ]

  next_is-fields_tail : (fs : List Text) (s : Text) → next_is b'"' (fields_tail fs s) ≡ false
  unfolding fields_tail next_is
  next_is-fields_tail [] s = refl
  next_is-fields_tail (f ∷ fs) s = refl

read_chars-quoted :
    (rows : List (List Text)) (row : List Text) (f : Text) (s : Text)
    → next_is b'"' s ≡ false
    → read_chars (quoted f s) (scanner rows [] row false) ≡ read_chars s (scanner rows f row false)
unfolding read_chars read_char quoted
read_chars-quoted rows row f s n = read_chars-double rows row f [] s n

read_chars-fields_tail :
    (rows : List (List Text)) (fs : List Text) (row : List Text) (f s : Text)
    → read_chars (fields_tail fs s) (scanner rows f row false)
      ≡ read_chars s (scanner (push_row (row ++ (f ∷ fs)) rows) [] [] false)
unfolding read_chars read_char fields_tail
read_chars-fields_tail rows [] row f s = refl
read_chars-fields_tail rows (g ∷ fs) row f s =
    read_chars-quoted rows (row ++ (f ∷ [])) g (fields_tail fs s)
      (next_is-fields_tail rows row fs s)
    ∙ read_chars-fields_tail rows fs (row ++ (f ∷ [])) g s
    ∙ ap (λ r. read_chars s (scanner (push_row r rows) [] [] false)) (append_one row f (g ∷ fs))

-- Some field of the row is not empty.
unfoldable pub NotEmpty : Row → Type 0
NotEmpty r = any (λ f. not (is_empty f)) (fields r) ≡ true

read_chars-csv_of :
    (rs : List Row) (rows : List (List Text))
    → All NotEmpty rs
    → read_chars (csv_of rs) (scanner rows [] [] false)
      ≡ scanner (rows ++ map fields rs) [] [] false
unfolding csv_of read_chars push_row NotEmpty
read_chars-csv_of [] rows h = rw (append-nil rows) refl
read_chars-csv_of (r ∷ rs) rows h =
    read_chars-quoted rows [] r.first (fields_tail r.others (csv_of rs))
      (next_is-fields_tail rows [] r.others (csv_of rs))
    ∙ read_chars-fields_tail rows r.others [] r.first (csv_of rs)
    ∙ rw (h.0, ← append_one rows (fields r) (map fields rs))
        (read_chars-csv_of rs (rows ++ (fields r ∷ [])) h.1)

-- Rows that each have a field that is not empty, written with every field in quotes, are read back,
-- whatever commas, quotes and line breaks the fields hold.
pub csv_rows-csv_of : (rs : List Row) → All NotEmpty rs → csv_rows (csv_of rs) ≡ map fields rs
unfolding csv_rows last_row
csv_rows-csv_of rs h = rw (read_chars-csv_of rs [] h) refl
