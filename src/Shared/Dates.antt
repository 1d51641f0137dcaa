-- ===== src/Shared/Dates.antt =====
-- legacy/packages/shared/src/dates.ts: dates in a few formats, and whether a date is old.
pub mod Ranges
use content_gap.Prelude.{
  ℕ, ◌+◌, ◌-◌, ◌*◌, ◌<◌, Bool, true, false, not, ◌&&◌, ◌||◌, List, [], ◌∷◌, ◌++◌, Option, none,
  some, if◌then◌else◌, leb, ltb, ◌==◌, length, all,
}
use content_gap.Prelude.Text.{Text, codes, trim, is_empty, decimal}

abbrev pub is_digit : ℕ → Bool
is_digit c = leb b'0' c && leb c b'9'

-- The digits that a text begins with, and what follows them: `\d{1,2}` and `\d{4}` match these digits
-- or nothing, since what comes after them in the patterns is no digit.
unfoldable pub span_digits : Text → Text × Text
span_digits [] = ([], [])
span_digits (c ∷ s) =
    let rest = span_digits s in if is_digit c then (c ∷ rest.0, rest.1) else ([], c ∷ s)

-- `Number(s)` of digits
unfoldable pub number_from : ℕ → Text → ℕ
number_from n [] = n
number_from n (c ∷ s) = number_from (10 * n + (c - b'0')) s

abbrev pub number_of : Text → ℕ
number_of s = number_from 0 s

-- The groups of a match.
pub record DateParts : Type 0 where
  pub first : Text
  pub second : Text
  pub third : Text
  pub rest : Text

-- Digits, a separator, digits, a separator, digits.
unfoldable pub date_parts : (ℕ → Bool) → Text → Option DateParts
unfolding span_digits
date_parts is_separator s =
    let a = span_digits s in
    elim a.1 [
      | [] ↦ none
      | c ∷ t ↦
          let b = span_digits t in
          elim b.1 [
            | [] ↦ none
            | d ∷ u ↦
                let e = span_digits u in
                if is_separator c && is_separator d
                then some (record { first = a.0; second = b.0; third = e.0; rest = e.1 })
                else none
          ]
    ]

abbrev pub is_short : Text → Bool
is_short s = length s == 1 || length s == 2

abbrev pub is_line_end : ℕ → Bool
is_line_end c = c == b'\n' || c == b'\r' || c == 0x2028 || c == 0x2029

-- `(?:[T ].*)?$`
abbrev pub is_time : Text → Bool
is_time [] = true
is_time (c ∷ s) = (c == b'T' || c == b' ') && all (λ d. not (is_line_end d)) s

unfoldable pub pad_start : Text → Text
pad_start s = if ltb (length s) 2 then (if is_empty s then codes "00" else b'0' ∷ s) else s

abbrev pub dashed : Text → Text → Text → Text
dashed y m d = y ++ (b'-' ∷ (m ++ (b'-' ∷ d)))

unfoldable pub pad : Text → Text → Text → Option Text
unfolding pad_start number_from
pad y m d =
    let month = number_of (pad_start m) in
    let day = number_of (pad_start d) in
    if ltb month 1 || ltb 12 month || ltb day 1 || ltb 31 day
    then none
    else some (dashed y (pad_start m) (pad_start d))

unfoldable pub iso_date : Text → Option Text
unfolding date_parts
iso_date raw = elim (date_parts (λ c. c == b'-') raw) [
  | none ↦ none
  | some p ↦
      if length p.first == 4 && length p.second == 2 && length p.third == 2 && is_time p.rest
      then some (dashed p.first p.second p.third)
      else none
]

-- `yyyy/mm/dd`, with `none` where the pattern does not match.
unfoldable pub slash_date : Text → Option (Option Text)
unfolding date_parts pad
slash_date raw = elim (date_parts (λ c. c == b'/') raw) [
  | none ↦ none
  | some p ↦
      if length p.first == 4 && is_short p.second && is_short p.third && is_empty p.rest
      then some (pad p.first p.second p.third)
      else none
]

-- The two numbers of a date that ends in its year.
unfoldable pub day_and_month : Text → ℕ → ℕ → Option Text
unfolding pad decimal
day_and_month year a b =
    if ltb 12 a && leb b 12
    then pad year (decimal b) (decimal a)
    else if ltb 12 b && leb a 12
    then pad year (decimal a) (decimal b)
    else pad year (decimal b) (decimal a)

unfoldable pub dmy_date : Text → Option Text
unfolding date_parts day_and_month number_from
dmy_date raw = elim (date_parts (λ c. c == b'/' || c == b'-') raw) [
  | none ↦ none
  | some p ↦
      if is_short p.first && is_short p.second && length p.third == 4 && is_empty p.rest
      then day_and_month p.third (number_of p.first) (number_of p.second)
      else none
]

unfoldable pub parse_date_or_null : Option Text → Option Text
unfolding iso_date slash_date dmy_date
parse_date_or_null none = none
parse_date_or_null (some input) =
    let raw = trim input in
    if is_empty raw then none else elim (iso_date raw) [
      | some iso ↦ some iso
      | none ↦ elim (slash_date raw) [ some r ↦ r | none ↦ dmy_date raw ]
    ]

-- `date_parse` is `Date.parse`, in milliseconds from the start of the year 0000, with `none` for NaN.
unfoldable pub is_older_than : (Text → Option ℕ) → Option Text → ℕ → Text → Bool
is_older_than date_parse none days reference_iso = false
is_older_than date_parse (some iso_date) days reference_iso =
    if is_empty iso_date then false else elim (date_parse (iso_date ++ codes "T00:00:00Z")) [
      | none ↦ false
      | some then_ms ↦ elim (date_parse (reference_iso ++ codes "T00:00:00Z")) [
        | none ↦ false
        | some ref ↦ ltb (then_ms + days * 86400000) ref
      ]
    ]
