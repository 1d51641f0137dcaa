-- ===== src/Tests/Crawlers.antt =====
-- The rules of robots.txt, legacy/packages/crawler/src/robots.ts.
use content_gap.Prelude.{arith, refl, none, List, [], ◌∷◌, ◌≡◌}
use content_gap.Prelude.Sorting.{IsSorted}
use content_gap.Prelude.Text.{codes, text_eq}
use content_gap.Crawler.RateLimiter.{Call, earliest, wait_ms, acquire, min_interval_ms}
use content_gap.Crawler.RateLimiter.Spacing.{IsTimed, AreSpaced, acquire-AreSpaced}
use content_gap.Prelude.{
  ◌≤◌, true, false, Option, some, [], ◌∷◌, ◌++◌, map, length, ◌+◌, leb, ◌&&◌, if◌then◌else◌, ◌≡◌,
  refl, ◌↔◌,
}
use content_gap.Prelude.Text.{Text, codes, starts_with, text_eq, trim, trim_start, is_space}
use content_gap.Crawler.Robots.{
  RobotsRules, permits, body, Url, Answer, load, is_allowed, cached, longest, split_lines,
  starts_newline, strip_comment, raw_key, raw_value, applies_to, read_directive, read_line,
  read_lines, extend_first,
}
use content_gap.Crawler.Robots.Laws.{permits_iff}
use mathlib.Core.List.{Memᴰ}

-- `toLowerCase` on ASCII.
abbrev lower : Text → Text
lower s = map (λ c. if leb 65 c && leb c 90 then c + 32 else c) s

abbrev rules : RobotsRules
rules = record { disallow = codes "/ad" ∷ []; allow = codes "/ads" ∷ [] }

permits_iff_example : (permits rules (codes "/adx") ≡ true) ↔ (
    (d : Text)
    → Memᴰ d (codes "/ad" ∷ [])
    → starts_with (codes "/adx") d ≡ true
    → (a : Text) × Memᴰ a (codes "/ads" ∷ [])
      × (starts_with (codes "/adx") a ≡ true)
      × (length d ≤ length a))
permits_iff_example = permits_iff (codes "/adx") rules

abbrev file : Text
file = codes "User-Agent: *" ++ (10 ∷ codes "Disallow:" ++ (13 ∷ 10 ∷ codes "Disallow: /ad # x"))

abbrev site : Text → Option Url
site url = some (record { origin = codes "h"; pathname = url })

abbrev refused : Answer
refused = record {
  allowed = false;
  cache =
      record { origin = codes "h"; rules = record { disallow = codes "/ad" ∷ []; allow = [] } }
      ∷ [];
}

first : is_allowed lower (codes "bot") site true (codes "/ads") (λ o. body file) [] ≡ some refused
unfolding is_allowed cached load longest permits split_lines starts_newline extend_first
    strip_comment raw_key raw_value applies_to read_directive read_line read_lines text_eq trim
    trim_start is_space starts_with
first = refl

-- Two calls for one domain, the second of which sleeps until it is allowed, and one for another.
abbrev calls : List Call
calls =
    record { domain = codes "a.com"; now = 5; granted = 5 }
    ∷ record { domain = codes "b.com"; now = 6; granted = 6 }
    ∷ record { domain = codes "a.com"; now = 7; granted = 2005 }
    ∷ []

calls-IsTimed : IsTimed 2000 0 (λ d. none) calls
unfolding wait_ms earliest acquire text_eq
calls-IsTimed = IsTimed.called (omega arith) (omega arith) (
    IsTimed.called (omega arith) (omega arith)
      (IsTimed.called (omega arith) (omega arith) IsTimed.ended))

acquire-AreSpaced_example : IsSorted (AreSpaced 2000) calls
acquire-AreSpaced_example = acquire-AreSpaced 2000 0 (λ d. none) calls calls-IsTimed

interval : min_interval_ms (record { requests = 1; seconds = 2 }) ≡ 2000
unfolding min_interval_ms
interval = refl
