-- ===== src/Tests/Uploads.antt =====
-- Uploaded CSV, legacy/packages/crawler/src/parsers.ts.
use content_gap.Prelude.{◌+◌, List, [], ◌∷◌, none, some, All, length, ◌≡◌, refl}
use content_gap.Prelude.Text.{codes, trim, trim_start, is_space}
use content_gap.Crawler.Voc.{VocValue, VocObject, normalize_voc_rows}
use content_gap.Crawler.Voc.Laws.{IsBounded, normalize_voc_rows-accounted}
use content_gap.Shared.Dates.{iso_date, parse_date_or_null}
use content_gap.Shared.Dates.Ranges.{IsInRange, parse_date_or_null-IsInRange}
use content_gap.Prelude.{List, [], ◌∷◌, map, ◌≡◌, refl, All}
use content_gap.Prelude.Text.{codes}
use content_gap.Crawler.Csv.{csv_rows}
use content_gap.Crawler.Csv.RoundTrip.{Row, fields, csv_of, NotEmpty, csv_rows-csv_of}

abbrev two_rows : List Row
two_rows =
    record { first = codes "text"; others = codes "tags" ∷ [] }
    ∷ record { first = []; others = codes "a, \"b\"" ∷ [] }
    ∷ []

two_rows-NotEmpty : All NotEmpty two_rows
unfolding NotEmpty
two_rows-NotEmpty = (refl, (refl, tt))

csv_rows-csv_of_example : csv_rows (csv_of two_rows) ≡ map fields two_rows
csv_rows-csv_of_example = csv_rows-csv_of two_rows two_rows-NotEmpty

abbrev voices : List VocObject
voices =
    (record { key = codes "text"; value = VocValue.string_value (codes "Is it worth it?") } ∷ [])
    ∷ (record { key = codes "name"; value = VocValue.number_value (codes "7") } ∷ [])
    ∷ []

normalize_voc_rows-accounted_example :
    (length (normalize_voc_rows voices).rows + (normalize_voc_rows voices).skipped ≡ 2)
    × All IsBounded (normalize_voc_rows voices).rows
normalize_voc_rows-accounted_example = normalize_voc_rows-accounted voices

no_iso_date : iso_date (trim (codes "31/12/2025")) ≡ none
unfolding iso_date trim trim_start is_space
no_iso_date = refl

day_first : parse_date_or_null (some (codes "31/12/2025")) ≡ some (codes "2025-12-31")
unfolding parse_date_or_null trim trim_start is_space
day_first = refl

-- An ISO date is not looked at.
no_such_date : parse_date_or_null (some (codes "2024-13-99")) ≡ some (codes "2024-13-99")
unfolding parse_date_or_null trim trim_start is_space
no_such_date = refl

parse_date_or_null-IsInRange_example : IsInRange (codes "2025-12-31")
parse_date_or_null-IsInRange_example =
    parse_date_or_null-IsInRange (codes "31/12/2025") (codes "2025-12-31") no_iso_date day_first
