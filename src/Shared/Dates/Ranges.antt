-- ===== src/Shared/Dates/Ranges.antt =====
-- legacy/packages/shared/src/dates.ts: the months and the days of what is parsed.
use content_gap.Prelude.{
  ℕ, ◌≤◌, ◌||◌, ◌&&◌, none, some, ◌≡◌, inl, inr, Bool-cases, Option-cases, ltb, leb, length, ◌==◌,
  arith,
}
use content_gap.Prelude.Text.{Text, trim, is_empty, decimal}
use content_gap.Shared.Dates.{
  number_of, pad_start, dashed, pad, date_parts, is_short, iso_date, slash_date, day_and_month,
  dmy_date, parse_date_or_null,
}

-- A month and a day in their ranges, behind the year.
pub record IsInRange (t : Text) : Type 0 where
  pub year : Text
  pub month : Text
  pub day : Text
  pub made : t ≡ dashed year month day
  pub some_month : 1 ≤ number_of month
  pub last_month : number_of month ≤ 12
  pub some_day : 1 ≤ number_of day
  pub last_day : number_of day ≤ 31

pad-IsInRange : (y m d : Text) (t : Text) → pad y m d ≡ some t → IsInRange t
unfolding pad
pad-IsInRange y m d t h =
    let mm = number_of (pad_start m) in
    let dd = number_of (pad_start d) in
    elim (Bool-cases (ltb mm 1 || ltb 12 mm || ltb dd 1 || ltb 31 dd)) [
      | inl e ↦ cc (rw (pad, e) at h)
      | inr e ↦
          let made : some (dashed y (pad_start m) (pad_start d)) ≡ some t = rw (pad, e) at h in
          record {
            year = y;
            month = pad_start m;
            day = pad_start d;
            made = cc;
            some_month = ground (arith, e);
            last_month = ground (arith, e);
            some_day = ground (arith, e);
            last_day = ground (arith, e);
          }
    ]

day_and_month-IsInRange :
    (year : Text) (a b : ℕ) (t : Text) → day_and_month year a b ≡ some t → IsInRange t
unfolding day_and_month
day_and_month-IsInRange year a b t h = elim (Bool-cases (ltb 12 a && leb b 12)) [
  | inl e ↦ pad-IsInRange year (decimal b) (decimal a) t (rw (day_and_month, e) at h)
  | inr e ↦ elim (Bool-cases (ltb 12 b && leb a 12)) [
    | inl f ↦ pad-IsInRange year (decimal a) (decimal b) t (rw (day_and_month, e, f) at h)
    | inr f ↦ pad-IsInRange year (decimal b) (decimal a) t (rw (day_and_month, e, f) at h)
  ]
]

dmy-IsInRange : (raw t : Text) → dmy_date raw ≡ some t → IsInRange t
unfolding dmy_date
dmy-IsInRange raw t h = elim (Option-cases (date_parts (λ c. c == b'/' || c == b'-') raw)) [
  | inl e ↦ cc (rw (dmy_date, e) at h)
  | inr (p, e) ↦
      elim (Bool-cases
        (is_short p.first && is_short p.second && length p.third == 4 && is_empty p.rest)) [
          | inl f ↦
              day_and_month-IsInRange p.third (number_of p.first) (number_of p.second) t
                (rw (dmy_date, e, f) at h)
          | inr f ↦ cc (rw (dmy_date, e, f) at h)
        ]
]

slash-IsInRange : (raw t : Text) → slash_date raw ≡ some (some t) → IsInRange t
unfolding slash_date
slash-IsInRange raw t h = elim (Option-cases (date_parts (λ c. c == b'/') raw)) [
  | inl e ↦ cc (rw (slash_date, e) at h)
  | inr (p, e) ↦
      elim (Bool-cases
        (length p.first == 4 && is_short p.second && is_short p.third && is_empty p.rest)) [
          | inl f ↦
              let made : some (pad p.first p.second p.third) ≡ some (some t) =
                rw (slash_date, e, f) at h in
              pad-IsInRange p.first p.second p.third t cc
          | inr f ↦ cc (rw (slash_date, e, f) at h)
        ]
]

-- If the input, trimmed, is no ISO date, then a date that is parsed of it has a month from 1 to 12 and
-- a day from 1 to 31.
pub parse_date_or_null-IsInRange :
    (input t : Text)
    → iso_date (trim input) ≡ none
    → parse_date_or_null (some input) ≡ some t
    → IsInRange t
unfolding parse_date_or_null
parse_date_or_null-IsInRange input t no_iso h = elim (Bool-cases (is_empty (trim input))) [
  | inl e ↦ cc (rw (parse_date_or_null, e) at h)
  | inr e ↦ elim (Option-cases (slash_date (trim input))) [
    | inl f ↦ dmy-IsInRange (trim input) t (rw (parse_date_or_null, e, no_iso, f) at h)
    | inr (r, f) ↦
        let same : r ≡ some t = rw (parse_date_or_null, e, no_iso, f) at h in
        slash-IsInRange (trim input) t (rw same at f)
  ]
]
