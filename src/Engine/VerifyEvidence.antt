-- ===== src/Engine/VerifyEvidence.antt =====
-- legacy/packages/analysis-engine/src/verify-evidence.ts: a quote counts as evidence only if it stands
-- in the chunk, exactly or up to white space.
pub mod Patterns
pub mod Exec
pub mod Laws
use content_gap.Prelude.{
  ℕ, suc, ◌+◌, Bool, true, false, ◌&&◌, List, [], ◌∷◌, Option, none, some, if◌then◌else◌, leb, ltb,
  ◌==◌, length,
}
use content_gap.Prelude.Text.{Text, is_space, trim, index_of, is_empty}
use mathlib.Core.Option

-- The offset `none` is the -1 of the source.
pub record QuoteVerification : Type 0 where
  pub verified : Bool
  pub start_offset : Option ℕ
  pub end_offset : Option ℕ
  pub normalized : Bool

-- The regular expression of the source: an escaped character, or `\s+`.
pub data Atom : Type 0 where
  lit : ℕ → Atom
  spaces : Atom

abbrev pub add_spaces : List Atom → List Atom
add_spaces (spaces ∷ p) = spaces ∷ p
add_spaces p = spaces ∷ p

-- `escapeRegex(trimmed).replace(/\s+/g, "\\s+")`
unfoldable pub pattern_of : Text → List Atom
pattern_of [] = []
pattern_of (c ∷ s) = if is_space c then add_spaces (pattern_of s) else lit c ∷ pattern_of s

-- `\s+` before the rest of a pattern: as many as there are, and fewer if the rest then fails.
unfoldable pub spaces_then : (Text → Option ℕ) → Text → Option ℕ
spaces_then k [] = none
spaces_then k (c ∷ s) =
    let longer = spaces_then k s in
    if is_space c then elim longer [ some n ↦ some (suc n) | none ↦ Option.map suc (k s) ] else none

-- The length of the match at the start of a text.
unfoldable pub match_here : List Atom → Text → Option ℕ
unfolding spaces_then
match_here [] s = some 0
match_here (lit c ∷ p) [] = none
match_here (lit c ∷ p) (d ∷ s) = if c == d then Option.map suc (match_here p s) else none
match_here (spaces ∷ p) s = spaces_then (match_here p) s

abbrev pub shift : ℕ × ℕ → ℕ × ℕ
shift (i, n) = (suc i, n)

-- `re.exec(text)`: the index of the first match and its length.
unfoldable pub exec : List Atom → Text → Option (ℕ × ℕ)
unfolding match_here
exec p [] = Option.map (λ n. (0, n)) (match_here p [])
exec p (c ∷ s) =
    let later = Option.map shift (exec p s) in
    elim (match_here p (c ∷ s)) [ some n ↦ some (0, n) | none ↦ later ]

abbrev pub not_verified : QuoteVerification
not_verified = record {
  verified = false;
  start_offset = none;
  end_offset = none;
  normalized = false;
}

abbrev pub verified_at : ℕ → ℕ → Bool → QuoteVerification
verified_at start end normalized = record {
  verified = true;
  start_offset = some start;
  end_offset = some end;
  normalized = normalized;
}

-- The search for a trimmed quote that is not empty.
unfoldable pub search_quote : Text → Text → QuoteVerification
unfolding pattern_of exec
search_quote chunk_text trimmed = elim (index_of chunk_text trimmed) [
  | some exact ↦ verified_at exact (exact + length trimmed) false
  | none ↦ elim (exec (pattern_of trimmed) chunk_text) [
    | some (index, n) ↦ verified_at index (index + n) true
    | none ↦ not_verified
  ]
]

unfoldable pub verify_quote : Text → Text → QuoteVerification
unfolding search_quote
verify_quote chunk_text quote =
    let trimmed = trim quote in
    if is_empty trimmed then not_verified else search_quote chunk_text trimmed

unfoldable pub offsets_valid : Text → Option ℕ → Option ℕ → Bool
offsets_valid chunk_text (some start) (some end) = ltb start end && leb end (length chunk_text)
offsets_valid chunk_text _ _ = false
