-- ===== src/Engine/Retrieval.antt =====
-- legacy/packages/analysis-engine/src/retrieval.ts and `cosineSimilarity` of llm/src/embeddings.ts: the
-- vectors of texts, the most similar ones to a query, and the gate on common words.
pub mod Laws
use content_gap.Prelude.{
  ℕ, Bool, true, false, not, List, [], ◌∷◌, ◌++◌, Option, none, some, map, filter, any, take, leb,
  length, if◌then◌else◌,
}
use content_gap.Prelude.Text.{Text, codes, text_eq, has, map_get}
use content_gap.Prelude.Sorting.{sort_by}
use content_gap.Shared.Results.{Result, ok, err, error, ◌>>=◌}

-- The floating-point numbers, as far as the code uses them; `above` is `>`.
pub record Floats (F : Type 0) : Type 0 where
  pub nought : F
  pub add : F → F → F
  pub mul : F → F → F
  pub above : F → F → Bool

-- `Embeddable`
pub record Embeddable : Type 0 where
  pub id : Text
  pub text : Text

-- An entry of the map `vectors`; `none` is an `undefined`, where the provider gave too few vectors.
pub record Indexed (F : Type 0) : Type 0 where
  pub id : Text
  pub vector : Option (List F)

pub record Scored (F : Type 0) : Type 0 where
  pub id : Text
  pub score : F

module _ {F : Type 0} where
  unfoldable pub missing : List (Indexed F) → List Embeddable → List Embeddable
  missing vectors items = filter (λ i. not (any (λ v. text_eq v.id i.id) vectors)) items

  unfoldable pub pair_up : List Embeddable → List (List F) → List (Indexed F)
  pair_up [] vecs = []
  pair_up (m ∷ ms) [] = record { id = m.id; vector = none } ∷ pair_up ms []
  pair_up (m ∷ ms) (v ∷ vs) = record { id = m.id; vector = some v } ∷ pair_up ms vs

  -- `Retriever.index`; `embed` is the provider of embeddings.
  unfoldable pub index :
      (List Text → Result (List (List F)))
      → List Embeddable
      → List (Indexed F)
      → Result (List (Indexed F))
  unfolding missing pair_up
  index embed items vectors = elim (missing vectors items) [
    | [] ↦ ok vectors
    | m ∷ ms ↦ embed (map (λ i. i.text) (m ∷ ms)) >>= λ vecs. ok (vectors ++ pair_up (m ∷ ms) vecs)
  ]

  -- `this.vectors.get(id)`
  unfoldable pub vector_of : List (Indexed F) → Text → Option (List F)
  unfolding map_get
  vector_of vectors id = elim (map_get (λ v. v.id) id vectors) [ none ↦ none | some v ↦ v.vector ]

  abbrev pub first_of : List (List F) → Option (List F)
  first_of [] = none
  first_of (v ∷ vs) = some v

module _ {F : Type 0} (floats : Floats F) where
  unfoldable pub dot_from : F → List F → List F → F
  dot_from dot (x ∷ a) (y ∷ b) = dot_from (floats.add dot (floats.mul x y)) a b
  dot_from dot [] b = dot
  dot_from dot (x ∷ a) [] = dot

  unfoldable pub cosine_similarity : List F → List F → F
  unfolding dot_from
  cosine_similarity a b = dot_from floats.nought a b

  -- `cosineSimilarity(qv!, v)`, with the exception where there is no vector for the query.
  unfoldable pub score_of : Option (List F) → Text → List F → Result (Scored F)
  unfolding cosine_similarity
  score_of none id v = err (error (codes "Cannot read properties of undefined (reading 'length')"))
  score_of (some qv) id v = ok (record { id = id; score = cosine_similarity qv v })

  unfoldable pub scored : List (Indexed F) → Option (List F) → List Text → Result (List (Scored F))
  unfolding score_of vector_of
  scored vectors qv [] = ok []
  scored vectors qv (id ∷ ids) = elim (vector_of vectors id) [
    | none ↦ scored vectors qv ids
    | some v ↦ score_of qv id v >>= λ s. scored vectors qv ids >>= λ rest. ok (s ∷ rest)
  ]

  abbrev pub score_above : Scored F → Scored F → Bool
  score_above a b = floats.above a.score b.score

  -- `Retriever.topK`
  unfoldable pub top_k :
      (List Text → Result (List (List F)))
      → List (Indexed F)
      → Text
      → List Text
      → ℕ
      → Result (List (Scored F))
  unfolding scored
  top_k embed vectors query_text candidate_ids k = embed (query_text ∷ []) >>= λ vecs.
      scored vectors (first_of vecs) candidate_ids >>= λ all. ok (take k (sort_by score_above all))

-- `split_words` is the split at what is no letter or digit of Unicode.
module _ (to_lower_case : Text → Text) (split_words : Text → List Text) where
  unfoldable pub toks : Text → List Text
  toks s = filter (λ t. leb 4 (length t)) (split_words (to_lower_case s))

  unfoldable pub keyword_overlap : Text → Text → Bool
  unfolding toks
  keyword_overlap a b = any (has (toks b)) (toks a)
