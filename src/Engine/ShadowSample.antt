-- ===== src/Engine/ShadowSample.antt =====
-- legacy/packages/analysis-engine/src/shadow-sample.ts: the candidates that are shown to evaluators
-- although they were not published.
pub mod Laws
use content_gap.Prelude.{ℕ, ◌+◌, ◌/◌, min, max, Bool, List, [], ◌∷◌, ◌++◌, map, length, take}
use content_gap.Prelude.Text.{Text}
use content_gap.Prelude.TextOrder.{text_lt}
use content_gap.Prelude.Sorting.{sort_by}

-- `Math.ceil(n * 0.2)`. In binary floating point it is this for every n up to 25, and beyond that
-- both are at least 5, which the minimum with 5 makes the same.
abbrev pub fifth : ℕ → ℕ
fifth n = (n + 4) / 5

abbrev pub shadow_target : ℕ → ℕ
shadow_target n = min n (max 1 (min 5 (fifth n)))

pub record Ranked (A : Type 0) : Type 0 where
  pub c : A
  pub key : Text

-- `digest` is the hexadecimal SHA-256 of `node:crypto`.
module _ {A : Type 0} (id : A → Text) (digest : Text → Text) where
  abbrev pub rank_key : Text → A → Text
  rank_key run_id c = digest (run_id ++ (b':' ∷ id c))

  abbrev pub rank : Text → A → Ranked A
  rank run_id c = record { c = c; key = rank_key run_id c }

  abbrev pub key_before : Ranked A → Ranked A → Bool
  key_before a b = text_lt a.key b.key

  -- The ranking of a pool that is not empty.
  unfoldable pub ranked : List A → Text → List (Ranked A)
  ranked pool run_id = sort_by key_before (map (rank run_id) pool)

  unfoldable pub select_shadow_sample : List A → Text → List A
  unfolding ranked
  select_shadow_sample [] run_id = []
  select_shadow_sample (x ∷ xs) run_id =
      map (λ r. r.c) (take (shadow_target (length (x ∷ xs))) (ranked (x ∷ xs) run_id))
