-- ===== src/Crawler/Robots/Laws.antt =====
-- legacy/packages/crawler/src/robots.ts: which rule wins, and what the cache keeps.
use content_gap.Prelude.{
  ℕ, suc, ◌≤◌, max, Bool, true, false, Option, some, List, [], ◌∷◌, length, filter, ◌≡◌, refl, ap,
  sym, ◌∙◌, ◌↔◌, ◌⊎◌, inl, inr, All, All-append, not, ◌&&◌, Bool-cases, Option-cases, arith, leb,
}
use content_gap.Prelude.Text.{Text, starts_with, text_eq, text_eq_refl, codes, trim, is_empty}
use content_gap.Crawler.Robots.{
  RobotsRules, longest, match_len, permits, Fetched, Url, Cached, cached, Answer, answer,
  is_allowed, failed, not_ok, body, Parser, read_directive, read_line, read_lines, split_lines,
  strip_comment, load,
}
use mathlib.Core.List.{Memᴰ}

le-longest : (best : ℕ) (ps : List Text) → best ≤ longest best ps
unfolding longest
le-longest best [] = omega arith
le-longest best (p ∷ ps) = omega (arith, le-longest (max best (suc (length p))) ps)

module _ (path : Text) where
  length_lt-longest :
      {p : Text} {ps : List Text} (best : ℕ)
      → Memᴰ p ps
      → starts_with path p ≡ true
      → suc (length p) ≤ longest best (filter (starts_with path) ps)
  unfolding longest
  length_lt-longest best (Memᴰ.head {x} {xs} e) h =
      rw (e, ap (starts_with path) (sym e) ∙ h)
        (omega (arith, le-longest (max best (suc (length x))) (filter (starts_with path) xs)))
  length_lt-longest best (Memᴰ.tail {x} {xs} m) h = elim (Bool-cases (starts_with path x)) [
    | inl e ↦ rw e (length_lt-longest (max best (suc (length x))) m h)
    | inr e ↦ rw e (length_lt-longest best m h)
  ]

  -- A pattern of the list that the path starts with, as long as the length says.
  Longest : ℕ → List Text → Type 0
  Longest n ps = (p : Text) × Memᴰ p ps × (starts_with path p ≡ true) × (n ≡ suc (length p))

  later : (n : ℕ) (x : Text) (ps : List Text) → Longest n ps → Longest n (x ∷ ps)
  unfolding Longest
  later n x ps (p, m, s, e) = (p, Memᴰ.tail m, s, e)

  longest-cases :
      (best : ℕ) (ps : List Text)
      → (longest best (filter (starts_with path) ps) ≡ best)
        ⊎ Longest (longest best (filter (starts_with path) ps)) ps
  unfolding longest Longest
  longest-cases best [] = inl refl
  longest-cases best (x ∷ xs) = elim (Bool-cases (starts_with path x)) [
    | inl e ↦ rw e (elim (longest-cases (max best (suc (length x))) xs) [
      | inl h ↦ elim (Bool-cases (leb best (length x))) [
        | inl le ↦ inr (x, Memᴰ.head refl, e, ground arith)
        | inr gt ↦ inl (ground arith)
      ]
      | inr h ↦ inr (later _ x xs h)
    ])
    | inr e ↦ rw e (elim (longest-cases best xs) [ inl h ↦ inl h | inr h ↦ inr (later _ x xs h) ])
  ]

  -- A path is allowed exactly when each `Disallow` pattern that it starts with is matched by some
  -- `Allow` pattern that it starts with and that is at least as long.
  pub permits_iff :
      (rules : RobotsRules)
      → (permits rules path ≡ true) ↔ (
          (d : Text)
          → Memᴰ d rules.disallow
          → starts_with path d ≡ true
          → (a : Text) × Memᴰ a rules.allow × (starts_with path a ≡ true) × (length d ≤ length a))
  unfolding permits Longest
  permits_iff rules = (to, from)
    where
      to :
          permits rules path ≡ true
          → (d : Text) → Memᴰ d rules.disallow
          → starts_with path d ≡ true
          → (a : Text) × Memᴰ a rules.allow × (starts_with path a ≡ true) × (length d ≤ length a)
      to h d m s =
          let dis = length_lt-longest 0 m s in
          let le : match_len path rules.disallow ≤ match_len path rules.allow = ground arith in
          elim (longest-cases 0 rules.allow) [
            | inl z ↦ ground arith
            | inr (a, n, t, e) ↦ (a, n, t, omega arith)
          ]

      from :
          ((d : Text)
            → Memᴰ d rules.disallow
            → starts_with path d ≡ true
            → (a : Text) × Memᴰ a rules.allow × (starts_with path a ≡ true) × (length d ≤ length a))
          → permits rules path ≡ true
      from h = elim (longest-cases 0 rules.disallow) [
        | inl z ↦ ground arith
        | inr (d, m, s, e) ↦
            let (a, n, t, le) = h d m s in let allow = length_lt-longest 0 n t in ground arith
      ]

module _ (to_lower_case : Text → Text) (user_agent : Text) (parse_url : Text → Option Url)
    (enabled : Bool) where
  answer-again :
      (u : Url) (fetch again : Text → Fetched) (cache : List Cached)
      → answer to_lower_case user_agent parse_url enabled u again
          (answer to_lower_case user_agent parse_url enabled u fetch cache).cache
        ≡ answer to_lower_case user_agent parse_url enabled u fetch cache
  unfolding cached
  answer-again u fetch again cache = elim (Option-cases (cached u.origin cache)) [
    | inl e ↦ rw (answer, e, text_eq_refl u.origin) (rw (answer, e) refl)
    | inr (rules, e) ↦ rw (answer, e, e) (rw (answer, e) refl)
  ]

  -- Once a call has answered, asking for the same address again, with the cache that the call left,
  -- gives the same answer and the same cache, whatever a new request for robots.txt would give.
  pub is_allowed-again :
      (url : Text) (fetch again : Text → Fetched) (cache : List Cached) (a : Answer)
      → is_allowed to_lower_case user_agent parse_url enabled url fetch cache ≡ some a
      → is_allowed to_lower_case user_agent parse_url enabled url again a.cache ≡ some a
  unfolding is_allowed
  is_allowed-again url fetch again cache a h = elim (Bool-cases enabled) [
    | inr off ↦ ground arith
    | inl on ↦ elim (Option-cases (parse_url url)) [
      | inl bad ↦ cc
      | inr (u, good) ↦
          let same : answer to_lower_case user_agent parse_url enabled u fetch cache ≡ a = cc in
          rw (on, good, ← same) (ap some (answer-again u fetch again cache))
    ]
  ]

unfoldable pub NotBlank : Text → Type 0
NotBlank p = is_empty p ≡ false

-- No pattern of the rules is empty.
pub record NoneBlank (rules : RobotsRules) : Type 0 where
  pub disallow : All NotBlank rules.disallow
  pub allow : All NotBlank rules.allow

module _ (to_lower_case : Text → Text) (user_agent : Text) where
  read_directive-NoneBlank :
      (key value : Text) (p : Parser)
      → NoneBlank p.rules
      → NoneBlank (read_directive to_lower_case user_agent key value p).rules
  unfolding read_directive NotBlank
  read_directive-NoneBlank key value p h = elim (Bool-cases (text_eq key (codes "user-agent"))) [
    | inl a ↦ rw a h
    | inr a ↦
        elim (Bool-cases (p.applies && text_eq key (codes "disallow") && not (is_empty value))) [
          | inl d ↦
              rw (a, d)
                record {
                  disallow = All-append NotBlank _ _ h.disallow (ground arith, tt);
                  allow = h.allow;
                }
          | inr d ↦
              elim (Bool-cases (p.applies && text_eq key (codes "allow") && not (is_empty value))) [
                | inl w ↦
                    rw (a, d, w)
                      record {
                        disallow = h.disallow;
                        allow = All-append NotBlank _ _ h.allow (ground arith, tt);
                      }
                | inr w ↦ rw (a, d, w) h
              ]
        ]
  ]

  read_line-NoneBlank :
      (line : Text) (p : Parser)
      → NoneBlank p.rules
      → NoneBlank (read_line to_lower_case user_agent line p).rules
  unfolding read_line
  read_line-NoneBlank line p h = elim (Bool-cases (is_empty (trim (strip_comment line)))) [
    | inl e ↦ rw e h
    | inr e ↦ rw e (read_directive-NoneBlank _ _ p h)
  ]

  read_lines-NoneBlank :
      (p : Parser) (lines : List Text)
      → NoneBlank p.rules
      → NoneBlank (read_lines to_lower_case user_agent lines p).rules
  unfolding read_lines
  read_lines-NoneBlank p [] h = h
  read_lines-NoneBlank p (l ∷ ls) h =
      read_lines-NoneBlank (read_line to_lower_case user_agent l p) ls (read_line-NoneBlank l p h)

  -- Whatever a request gives, no pattern of the rules that are read from it is empty: a line
  -- `Disallow:` without a path forbids nothing.
  pub load-NoneBlank : (fetched : Fetched) → NoneBlank (load to_lower_case user_agent fetched)
  unfolding load
  load-NoneBlank failed = record { disallow = tt; allow = tt }
  load-NoneBlank not_ok = record { disallow = tt; allow = tt }
  load-NoneBlank (body text) =
      read_lines-NoneBlank _ (split_lines text) record { disallow = tt; allow = tt }
