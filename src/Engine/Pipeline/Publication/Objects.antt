-- ===== src/Engine/Pipeline/Publication/Objects.antt =====
-- legacy/packages/analysis-engine/src/pipeline.ts, stage `publication`: the candidates as objects that are
-- told apart by their places, and as values.
use content_gap.Prelude.{
  ℕ, zero, suc, ◌≤◌, List, [], ◌∷◌, map, ◌≡◌, ◌≢◌, refl, ap, ◌∙◌, arith, All, All-weaken, take,
  filter,
}
use content_gap.Prelude.Filters.{map-filter}
use content_gap.Prelude.Sorting.{IsSorted, map-sort_by, sort_by}
use content_gap.Engine.Pipeline.Store.{Verified}
use content_gap.Engine.Pipeline.Publication.{
  scores_above, survives, survivors, published, numbered, published_objects,
}

abbrev pub Object : Type 0
Object = ℕ × Verified

abbrev pub value : Object → Verified
value o = o.1

pub map-numbered : (n : ℕ) (vs : List Verified) → map value (numbered n vs) ≡ vs
unfolding numbered
map-numbered n [] = refl
map-numbered n (v ∷ vs) = ap (λ l. v ∷ l) (map-numbered (suc n) vs)

map-take : {A B : Type 0} (f : A → B) (n : ℕ) (xs : List A) → map f (take n xs) ≡ take n (map f xs)
map-take f zero xs = refl
map-take f (suc n) [] = refl
map-take f (suc n) (x ∷ xs) = ap (λ l. f x ∷ l) (map-take f n xs)

-- The values of the published objects are the published candidates.
pub map-published_objects :
    (most : ℕ) (vs : List Verified) → map value (published_objects most vs) ≡ published most vs
unfolding published_objects published survivors
map-published_objects most vs =
    let kept : List Object = filter (λ o. survives o.1) (numbered 0 vs) in
    map-take value most (sort_by (λ a b. scores_above a.1 b.1) kept)
    ∙ ap (take most) (
        map-sort_by value scores_above kept
        ∙ ap (sort_by scores_above)
            (map-filter value survives (numbered 0 vs) ∙ ap (filter survives) (map-numbered 0 vs)))

-- Two objects.
abbrev pub Distinct : Object → Object → Type 0
Distinct a b = a.0 ≢ b.0

later : (n : ℕ) (vs : List Verified) → All (λ o. n ≤ o.0) (numbered n vs)
unfolding numbered
later n [] = tt
later n (v ∷ vs) =
    (omega arith, All-weaken (λ o h. omega (arith, h)) (numbered (suc n) vs) (later (suc n) vs))

pub numbered-Distinct : (n : ℕ) (vs : List Verified) → IsSorted Distinct (numbered n vs)
unfolding numbered
numbered-Distinct n [] = tt
numbered-Distinct n (v ∷ vs) = (
  All-weaken (λ o h e. omega (arith, h, e)) (numbered (suc n) vs) (later (suc n) vs),
  numbered-Distinct (suc n) vs,
)
