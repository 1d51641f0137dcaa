-- ===== src/Engine/Pipeline/Titles.antt =====
-- legacy/packages/analysis-engine/src/pipeline.ts, `titleSimilar`: whether critique takes two titles
-- for one.
use content_gap.Prelude.{
  ℕ, ◌*◌, min, Bool, true, false, ◌||◌, List, [], ◌∷◌, if◌then◌else◌, leb, ◌==◌, length, filter,
}
use content_gap.Prelude.Text.{Text, text_eq, has, is_space, trim}
use content_gap.Shared.EvidenceStatus.{distinct}

abbrev push_front : ℕ → List Text → List Text
push_front c [] = (c ∷ []) ∷ []
push_front c (t ∷ ts) = (c ∷ t) ∷ ts

-- `s.split(/\s+/)`, with an empty piece more between the spaces of a run, which the test of lengths
-- that follows drops.
unfoldable pub split_spaces : Text → List Text
split_spaces [] = [] ∷ []
split_spaces (c ∷ s) =
    let rest = split_spaces s in if is_space c then [] ∷ rest else push_front c rest

-- The set of the words of four characters or more.
unfoldable pub long_words : Text → List Text
unfolding split_spaces
long_words s = distinct (filter (λ t. leb 4 (length t)) (split_spaces s))

-- The share of the smaller set that both have is at least 0.8.
unfoldable pub words_overlap : List Text → List Text → Bool
words_overlap ta tb =
    if length ta == 0 || length tb == 0
    then false
    else leb (4 * min (length ta) (length tb)) (5 * length (filter (has tb) ta))

-- `to_lower_case` is `toLowerCase`, and `strip_symbols` the replacement of what is no letter, digit or
-- white space of Unicode.
module _ (to_lower_case strip_symbols : Text → Text) where
  unfoldable pub norm : Text → Text
  norm s = trim (strip_symbols (to_lower_case s))

  unfoldable pub title_similar : Text → Text → Bool
  unfolding norm long_words words_overlap
  title_similar a b =
      if text_eq (norm a) (norm b)
      then true
      else words_overlap (long_words (norm a)) (long_words (norm b))
