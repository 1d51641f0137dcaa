-- ===== src/Crawler/Robots.antt =====
-- legacy/packages/crawler/src/robots.ts: the parser of robots.txt, the cache of rules for each origin
-- and the decision on a path.
pub mod Laws
use content_gap.Prelude.{
  ℕ, suc, max, Bool, true, false, not, ◌==◌, leb, ◌&&◌, ◌||◌, if◌then◌else◌, Option, none, some,
  List, [], ◌∷◌, ◌++◌, length, filter, any,
}
use content_gap.Prelude.Text.{Text, codes, text_eq, trim, starts_with, is_empty}

-- `RobotsRules`
pub record RobotsRules : Type 0 where
  pub disallow : List Text
  pub allow : List Text

abbrev pub no_rules : RobotsRules
no_rules = record { disallow = []; allow = [] }

-- The fold of `matchLen`, one more than in the source, where it starts at -1.
unfoldable pub longest : ℕ → List Text → ℕ
longest best [] = best
longest best (p ∷ ps) = longest (max best (suc (length p))) ps

abbrev pub match_len : Text → List Text → ℕ
match_len path patterns = longest 0 (filter (starts_with path) patterns)

-- The decision of `isAllowed` on the rules of the origin.
unfoldable pub permits : RobotsRules → Text → Bool
permits rules path =
    let dis = match_len path rules.disallow in
    let allow = match_len path rules.allow in if dis == 0 then true else leb dis allow

-- `split(/\r?\n/)`
unfoldable pub starts_newline : Text → Bool
starts_newline [] = false
starts_newline (c ∷ s) = c == 10

unfoldable pub extend_first : ℕ → List Text → List Text
extend_first c [] = (c ∷ []) ∷ []
extend_first c (l ∷ ls) = (c ∷ l) ∷ ls

unfoldable pub split_lines : Text → List Text
unfolding starts_newline extend_first
split_lines [] = [] ∷ []
split_lines (c ∷ s) =
    let rest = split_lines s in
    if c == 10 then [] ∷ rest else if c == 13 && starts_newline s then rest else extend_first c rest

-- `replace(/#.*$/, "")`: the dot stops at the end of a line, and there is no flag `m`.
abbrev pub is_terminator : ℕ → Bool
is_terminator c = c == 10 || c == 13 || c == 0x2028 || c == 0x2029

unfoldable pub strip_comment : Text → Text
strip_comment [] = []
strip_comment (c ∷ s) =
    let rest = strip_comment s in if c == b'#' && not (any is_terminator s) then [] else c ∷ rest

-- `[rawKey, ...rest] = clean.split(":")`, with `rest.join(":")`
unfoldable pub raw_key : Text → Text
raw_key [] = []
raw_key (c ∷ s) = let rest = raw_key s in if c == b':' then [] else c ∷ rest

unfoldable pub raw_value : Text → Text
raw_value [] = []
raw_value (c ∷ s) = let rest = raw_value s in if c == b':' then s else rest

-- The variables of the loop of `load`.
pub record Parser : Type 0 where
  pub applies : Bool
  pub rules : RobotsRules

-- What the request gives: a failure, a response that is not ok, or a text.
pub data Fetched : Type 0 where
  failed not_ok : Fetched
  body : Text → Fetched

pub record Url : Type 0 where
  pub origin : Text
  pub pathname : Text

-- An entry of the map `cache`.
pub record Cached : Type 0 where
  pub origin : Text
  pub rules : RobotsRules

pub record Answer : Type 0 where
  pub allowed : Bool
  pub cache : List Cached

unfoldable pub cached : Text → List Cached → Option RobotsRules
cached origin [] = none
cached origin (e ∷ es) =
    let rest = cached origin es in if text_eq origin e.origin then some e.rules else rest

module _ (to_lower_case : Text → Text) (user_agent : Text) where
  unfoldable pub applies_to : Text → Bool
  applies_to value =
      text_eq value (codes "*") || text_eq (to_lower_case value) (to_lower_case user_agent)

  unfoldable pub read_directive : Text → Text → Parser → Parser
  read_directive key value p =
      if text_eq key (codes "user-agent")
      then record { applies = applies_to value; rules = p.rules }
      else if p.applies && text_eq key (codes "disallow") && not (is_empty value)
      then record {
        applies = p.applies;
        rules = record { disallow = p.rules.disallow ++ (value ∷ []); allow = p.rules.allow };
      }
      else if p.applies && text_eq key (codes "allow") && not (is_empty value)
      then record {
        applies = p.applies;
        rules = record { disallow = p.rules.disallow; allow = p.rules.allow ++ (value ∷ []) };
      }
      else p

  unfoldable pub read_line : Text → Parser → Parser
  read_line line p =
      let clean = trim (strip_comment line) in
      if is_empty clean
      then p
      else read_directive (trim (to_lower_case (raw_key clean))) (trim (raw_value clean)) p

  unfoldable pub read_lines : List Text → Parser → Parser
  read_lines [] p = p
  read_lines (l ∷ ls) p = read_lines ls (read_line l p)

  unfoldable pub load : Fetched → RobotsRules
  load failed = no_rules
  load not_ok = no_rules
  load (body text) =
      let p = read_lines (split_lines text) (record { applies = false; rules = no_rules }) in
      p.rules

  -- `fetch` is what a request for an origin's robots.txt gives now; `none` is the exception of
  -- `new URL`, whose parser is `parse_url`.
  module _ (parse_url : Text → Option Url) (enabled : Bool) where
    abbrev pub answer : Url → (Text → Fetched) → List Cached → Answer
    answer u fetch cache = elim (cached u.origin cache) [
      | some rules ↦ record { allowed = permits rules u.pathname; cache = cache }
      | none ↦
          let rules = load (fetch u.origin) in
          record {
            allowed = permits rules u.pathname;
            cache = record { origin = u.origin; rules = rules } ∷ cache;
          }
    ]

    unfoldable pub is_allowed : Text → (Text → Fetched) → List Cached → Option Answer
    is_allowed url fetch cache =
        if enabled
        then elim (parse_url url) [ some u ↦ some (answer u fetch cache) | none ↦ none ]
        else some (record { allowed = true; cache = cache })
