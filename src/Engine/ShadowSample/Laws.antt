-- ===== src/Engine/ShadowSample/Laws.antt =====
-- The size of the shadow sample, and which candidates it holds.
use content_gap.Prelude.{
  min, false, List, [], ◌∷◌, ◌++◌, map, ◌≡◌, refl, sym, ap, subst, ◌∙◌, arith, length, take, drop,
  length-take, length-map, take-append-drop, All, All-take, All-drop,
}
use content_gap.Prelude.Text.{Text}
use content_gap.Prelude.TextOrder.{text_lt, text_lt_asymm, text_le_trans}
use content_gap.Prelude.Sorting.{
  sort_by, sort_by-perm, All-perm, sort_by-IsSorted, IsSorted, length-perm, map-perm, front_back,
}
use content_gap.Engine.ShadowSample.{
  fifth, shadow_target, Ranked, rank_key, rank, key_before, ranked, select_shadow_sample,
}
use mathlib.Core.List.{Permᴰ, map-append}
use mathlib.Core.List.Permᴰ as PermD

map-unrank :
    {A : Type 0} (f : A → Ranked A) (xs : List A)
    → ((a : A) → (f a).c ≡ a)
    → map (λ r. r.c) (map f xs) ≡ xs
map-unrank f [] h = refl
map-unrank f (x ∷ xs) h = rw (h x, map-unrank f xs h)

module _ {A : Type 0} (id : A → Text) (digest : Text → Text) where
  ranked-IsSorted :
      (pool : List A) (run_id : Text)
      → IsSorted (λ a b. text_lt b.key a.key ≡ false) (ranked id digest pool run_id)
  unfolding ranked
  ranked-IsSorted pool run_id =
      sort_by-IsSorted (key_before id digest) (λ a b. text_lt b.key a.key ≡ false)
        (λ a b. text_lt_asymm a.key b.key) (λ a b h. h) (λ a b c. text_le_trans a.key b.key c.key)
        (map (rank id digest run_id) pool)

  ranked-perm :
      (pool : List A) (run_id : Text) → Permᴰ (map (λ r. r.c) (ranked id digest pool run_id)) pool
  unfolding ranked
  ranked-perm pool run_id =
      subst
        (Permᴰ (map (λ r. r.c) (sort_by (key_before id digest) (map (rank id digest run_id) pool))))
        (map-unrank (rank id digest run_id) pool (λ a. refl))
        (map-perm (λ r. r.c)
          (sort_by-perm (key_before id digest) (map (rank id digest run_id) pool)))

  -- The sample holds a fifth of the pool, rounded up, and at most five; so of every pool that is not
  -- empty it holds something.
  pub length-select_shadow_sample :
      (pool : List A) (run_id : Text)
      → length (select_shadow_sample id digest pool run_id) ≡ min 5 (fifth (length pool))
  unfolding select_shadow_sample
  length-select_shadow_sample [] run_id = omega arith
  length-select_shadow_sample (x ∷ xs) run_id = omega (
    arith,
    length-map {0, 0} (take (shadow_target (length (x ∷ xs))) (ranked id digest (x ∷ xs) run_id))
        (λ r. r.c),
    length-take {0} (shadow_target (length (x ∷ xs))) (ranked id digest (x ∷ xs) run_id),
    length-map {0, 0} (ranked id digest (x ∷ xs) run_id) (λ r. r.c),
    length-perm (ranked-perm (x ∷ xs) run_id),
  )

  keys_of_ranked :
      (run_id : Text) (xs : List A)
      → All (λ r. r.key ≡ rank_key id digest run_id r.c) (map (rank id digest run_id) xs)
  keys_of_ranked run_id [] = tt
  keys_of_ranked run_id (x ∷ xs) = (refl, keys_of_ranked run_id xs)

  ranked_keys :
      (pool : List A) (run_id : Text)
      → All (λ r. r.key ≡ rank_key id digest run_id r.c) (ranked id digest pool run_id)
  unfolding ranked
  ranked_keys pool run_id =
      All-perm _
        (PermD.symm (sort_by-perm (key_before id digest) (map (rank id digest run_id) pool)))
        (keys_of_ranked run_id pool)

  -- `b` does not come before `a` in the order of the digests.
  abbrev pub NotBefore : Text → A → A → Type 0
  NotBefore run_id a b = text_lt (rank_key id digest run_id b) (rank_key id digest run_id a) ≡ false

  unrank-All :
      (run_id : Text) (r : Ranked A) (rs : List (Ranked A))
      → r.key ≡ rank_key id digest run_id r.c
      → All (λ q. q.key ≡ rank_key id digest run_id q.c) rs
      → All (λ q. text_lt q.key r.key ≡ false) rs
      → All (NotBefore run_id r.c) (map (λ q. q.c) rs)
  unrank-All run_id r [] e k h = tt
  unrank-All run_id r (q ∷ rs) e k h = (rw (← e, ← k.0) h.0, unrank-All run_id r rs e k.1 h.1)

  unrank_pairs :
      (run_id : Text) (rs qs : List (Ranked A))
      → All (λ r. r.key ≡ rank_key id digest run_id r.c) rs
      → All (λ r. r.key ≡ rank_key id digest run_id r.c) qs
      → All (λ r. All (λ q. text_lt q.key r.key ≡ false) qs) rs
      → All (λ a. All (NotBefore run_id a) (map (λ q. q.c) qs)) (map (λ r. r.c) rs)
  unrank_pairs run_id [] qs k l h = tt
  unrank_pairs run_id (r ∷ rs) qs k l h =
      (unrank-All run_id r qs k.0 l h.0, unrank_pairs run_id rs qs k.1 l h.1)

  -- The sample and the candidates left out are together the pool, none twice and none lost, and no
  -- candidate left out has a smaller digest of the run and its id than one in the sample.
  pub select_shadow_sample-least :
      (pool : List A) (run_id : Text)
      → (rest : List A) × Permᴰ (select_shadow_sample id digest pool run_id ++ rest) pool
        × All (λ a. All (NotBefore run_id a) rest) (select_shadow_sample id digest pool run_id)
  unfolding select_shadow_sample
  select_shadow_sample-least [] run_id = ([], Permᴰ.nil, tt)
  select_shadow_sample-least (x ∷ xs) run_id =
      let n = shadow_target (length (x ∷ xs)) in
      let rs = ranked id digest (x ∷ xs) run_id in
      (
        map (λ r. r.c) (drop n rs),
        subst (λ l. Permᴰ l (x ∷ xs))
            (ap (map (λ (r : Ranked A). r.c)) (sym (take-append-drop n rs))
              ∙ map-append (λ r. r.c) (take n rs) (drop n rs))
            (ranked-perm (x ∷ xs) run_id),
        unrank_pairs run_id (take n rs) (drop n rs) (All-take _ n rs (ranked_keys (x ∷ xs) run_id))
            (All-drop _ n rs (ranked_keys (x ∷ xs) run_id))
            (front_back _ n rs (ranked-IsSorted (x ∷ xs) run_id)),
      )
