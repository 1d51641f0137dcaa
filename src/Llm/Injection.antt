-- ===== src/Llm/Injection.antt =====
-- legacy/packages/llm/src/heuristics.ts, `detectInjection`: spans of a source that look like
-- instructions to a model. Each regular expression of the list is written as the list of the patterns
-- that its alternatives give; no two of them match at one place.
use content_gap.Prelude.{
  ℕ, ◌+◌, ◌&&◌, List, [], ◌∷◌, ◌++◌, Option, none, some, map, take, if◌then◌else◌, leb, ltb,
}
use content_gap.Prelude.Text.{Text, codes, slice}
use content_gap.Engine.VerifyEvidence.{Atom, lit, spaces, exec}

abbrev ignoring : List (List Atom)
ignoring =
    (map lit (codes "ignore all previous instructions"))
    ∷ (map lit (codes "ignore all prior instructions"))
    ∷ (map lit (codes "ignore all above instructions"))
    ∷ (map lit (codes "ignore the previous instructions"))
    ∷ (map lit (codes "ignore the prior instructions"))
    ∷ (map lit (codes "ignore the above instructions"))
    ∷ (map lit (codes "ignore previous instructions"))
    ∷ (map lit (codes "ignore prior instructions"))
    ∷ (map lit (codes "ignore above instructions"))
    ∷ []

abbrev disregarding : List (List Atom)
disregarding =
    (map lit (codes "disregard your system prompt"))
    ∷ (map lit (codes "disregard your previous prompt"))
    ∷ (map lit (codes "disregard the system prompt"))
    ∷ (map lit (codes "disregard the previous prompt"))
    ∷ []

abbrev you_are_now : List (List Atom)
you_are_now = (map lit (codes "you are now")) ∷ []

abbrev system_prompt : List (List Atom)
system_prompt = (map lit (codes "system prompt")) ∷ []

abbrev revealing : List (List Atom)
revealing =
    (map lit (codes "reveal your prompt"))
    ∷ (map lit (codes "reveal your instructions"))
    ∷ (map lit (codes "reveal your api key"))
    ∷ (map lit (codes "reveal the prompt"))
    ∷ (map lit (codes "reveal the instructions"))
    ∷ (map lit (codes "reveal the api key"))
    ∷ []

abbrev assistant_says : List (List Atom)
assistant_says =
    (map lit (codes "assistant:")) ∷ (map lit (codes "assistant") ++ (spaces ∷ lit b':' ∷ [])) ∷ []

abbrev tags : List (List Atom)
tags =
    (map lit (codes "</system>"))
    ∷ (map lit (codes "</instruction>"))
    ∷ (map lit (codes "</admin>"))
    ∷ (map lit (codes "<system>"))
    ∷ (map lit (codes "<instruction>"))
    ∷ (map lit (codes "<admin>"))
    ∷ []

abbrev acting : List (List Atom)
acting =
    (map lit (codes "act as an "))
    ∷ (map lit (codes "act as a "))
    ∷ (map lit (codes "act as the "))
    ∷ []

abbrev arabic_ignoring : List (List Atom)
arabic_ignoring =
    (map lit (
      0x62a ∷ 0x62c ∷ 0x627 ∷ 0x647 ∷ 0x644 ∷ b' ' ∷ 0x643 ∷ 0x644 ∷ b' ' ∷ 0x627 ∷ 0x644 ∷ 0x62a
      ∷ 0x639 ∷ 0x644 ∷ 0x64a ∷ 0x645 ∷ 0x627 ∷ 0x62a ∷ []))
    ∷ (map lit (
        0x62a ∷ 0x62c ∷ 0x627 ∷ 0x647 ∷ 0x644 ∷ b' ' ∷ 0x627 ∷ 0x644 ∷ 0x62a ∷ 0x639 ∷ 0x644 ∷ 0x64a
        ∷ 0x645 ∷ 0x627 ∷ 0x62a ∷ []))
    ∷ []

abbrev arabic_you_are_now : List (List Atom)
arabic_you_are_now =
    (map lit (0x623 ∷ 0x646 ∷ 0x62a ∷ b' ' ∷ 0x627 ∷ 0x644 ∷ 0x622 ∷ 0x646 ∷ [])) ∷ []

abbrev pub injection_patterns : List (List (List Atom))
injection_patterns =
    ignoring ∷ disregarding ∷ you_are_now ∷ system_prompt ∷ revealing ∷ assistant_says ∷ tags
    ∷ acting ∷ arabic_ignoring ∷ arabic_you_are_now ∷ []

abbrev pub lower_ascii : ℕ → ℕ
lower_ascii c = if leb b'A' c && leb c b'Z' then c + 32 else c

abbrev earlier : Option (ℕ × ℕ) → Option (ℕ × ℕ) → Option (ℕ × ℕ)
earlier none b = b
earlier (some a) none = some a
earlier (some (i, n)) (some (j, m)) = if ltb j i then some (j, m) else some (i, n)

-- `re.exec(text)` for a regular expression with the flag `i`: the place and the length of the match.
unfoldable pub exec_any : List (List Atom) → Text → Option (ℕ × ℕ)
unfolding exec
exec_any [] text = none
exec_any (p ∷ ps) text = let rest = exec_any ps text in earlier (exec p (map lower_ascii text)) rest

unfoldable pub injections : List (List (List Atom)) → Text → List Text
unfolding exec_any
injections [] text = []
injections (re ∷ res) text =
    let rest = injections res text in
    elim (exec_any re text) [ none ↦ rest | some (i, n) ↦ take 120 (slice text i (i + n)) ∷ rest ]

unfoldable pub detect_injection : Text → List Text
unfolding injections
detect_injection text = injections injection_patterns text
