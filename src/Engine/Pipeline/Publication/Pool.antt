-- ===== src/Engine/Pipeline/Publication/Pool.antt =====
-- legacy/packages/analysis-engine/src/pipeline.ts, stage `publication`: the candidates that are not
-- published, from which the shadow sample is drawn.
use content_gap.Prelude.{
  ℕ, zero, suc, Bool, true, false, not, List, [], ◌∷◌, ◌++◌, map, ◌≡◌, ◌≢◌, refl, ap, ◌∙◌, sym,
  subst, arith, All, All-of_forall, All_of_mem, any_of_mem, take, drop, filter, take-append-drop,
  append_assoc, ◌==◌,
}
use content_gap.Prelude.Filters.{
  map-filter, filter-All, filter-none, filter-append, filter-perm, filter-perm_parts,
}
use content_gap.Prelude.Sorting.{
  IsSorted-perm, IsSorted-across, map-sort_by, map-perm, sort_by, sort_by-perm,
}
use content_gap.Engine.Pipeline.Store.{Verified}
use content_gap.Engine.Pipeline.Publication.{
  scores_above, survives, survivors, published, numbered, published_objects, included,
  not_published,
}
use content_gap.Engine.Pipeline.Publication.Objects.{
  Object, value, map-numbered, Distinct, numbered-Distinct,
}
use mathlib.Core.List.{Permᴰ, map-append}
use mathlib.Core.List.Permᴰ

map-drop : {A B : Type 0} (f : A → B) (n : ℕ) (xs : List A) → map f (drop n xs) ≡ drop n (map f xs)
map-drop f zero xs = refl
map-drop f (suc n) [] = refl
map-drop f (suc n) (x ∷ xs) = map-drop f n xs

same_refl : (n : ℕ) → (n == n) ≡ true
same_refl n = ground arith

same-false : (m n : ℕ) → m ≢ n → (m == n) ≡ false
same-false m n h = ground arith

-- No object is included in a list of others.
included-false :
    (o : Object) (objects : List Object)
    → All (λ q. Distinct q o) objects
    → not (included objects o) ≡ true
included-false o [] h = refl
included-false o (q ∷ qs) h = rw (same-false q.0 o.0 h.0) (included-false o qs h.1)

module _ (most : ℕ) (verified : List Verified) where
  abbrev objects : List Object
  objects = numbered 0 verified

  abbrev lives : Object → Bool
  lives o = survives o.1

  abbrev sorted : List Object
  sorted = sort_by (λ a b. scores_above a.1 b.1) (filter lives objects)

  abbrev chosen : List Object
  chosen = take most sorted

  -- The objects that the stage does not publish, for want of a place or because they do not survive.
  abbrev others : List Object
  others = drop most sorted ++ filter (λ o. not (lives o)) objects

  chosen-others-perm : Permᴰ (chosen ++ others) objects
  chosen-others-perm =
      let split : chosen ++ others ≡ sorted ++ filter (λ o. not (lives o)) objects =
        sym (append_assoc chosen (drop most sorted) (filter (λ o. not (lives o)) objects))
        ∙ ap (λ l. l ++ filter (λ o. not (lives o)) objects) (take-append-drop most sorted) in
      subst (λ l. Permᴰ l objects) (sym split)
        (Permᴰ.trans
          (Permᴰ.append_right (filter (λ o. not (lives o)) objects)
            (sort_by-perm (λ a b. scores_above a.1 b.1) (filter lives objects)))
          (filter-perm_parts lives objects))

  others-excluded : All (λ o. not (included chosen o) ≡ true) others
  others-excluded =
      let apart : All (λ q. All (Distinct q) others) chosen =
        IsSorted-across Distinct chosen others (
          IsSorted-perm Distinct (λ a b h e. h (sym e)) (Permᴰ.symm chosen-others-perm)
            (numbered-Distinct 0 verified)) in
      All-of_forall _ others (λ o m.
        included-false o chosen
          (All-of_forall _ chosen (λ q k. All_of_mem _ (All_of_mem _ apart k) m)))

  chosen-included : All (λ o. included chosen o ≡ true) chosen
  chosen-included = All-of_forall _ chosen (λ o m. any_of_mem (λ q. q.0 == o.0) m (same_refl o.0))

  excluded-perm : Permᴰ others (filter (λ o. not (included chosen o)) objects)
  excluded-perm =
      let keeps : filter (λ o. not (included chosen o)) (chosen ++ others) ≡ others =
        filter-append (λ o. not (included chosen o)) chosen others
        ∙ ap (λ l. l ++ filter (λ o. not (included chosen o)) others)
            (filter-none (included chosen) chosen chosen-included)
        ∙ filter-All (λ o. not (included chosen o)) others others-excluded in
      subst (λ l. Permᴰ l (filter (λ o. not (included chosen o)) objects)) keeps
        (filter-perm (λ o. not (included chosen o)) chosen-others-perm)

  map-others :
      map value others ≡ drop most (survivors verified) ++ filter (λ v. not (survives v)) verified
  unfolding survivors
  map-others =
      map-append value (drop most sorted) (filter (λ o. not (lives o)) objects)
      ∙ ap (λ l. l ++ map value (filter (λ o. not (lives o)) objects))
          (map-drop value most sorted
            ∙ ap (drop most) (
                map-sort_by value scores_above (filter lives objects)
                ∙ ap (sort_by scores_above) (
                    map-filter value survives objects
                    ∙ ap (filter survives) (map-numbered 0 verified))))
      ∙ ap (λ l. drop most (sort_by scores_above (filter survives verified)) ++ l)
          (map-filter value (λ v. not (survives v)) objects
            ∙ ap (filter (λ v. not (survives v))) (map-numbered 0 verified))

  -- The candidates that are not published are the survivors beyond the cap, and those that do not
  -- survive.
  pub not_published-perm :
      Permᴰ
        (drop most (survivors verified) ++ filter (λ v. not (survives v)) verified)
        (not_published most verified)
  unfolding not_published published_objects
  not_published-perm =
      subst (λ l. Permᴰ l (not_published most verified)) map-others (map-perm value excluded-perm)

  -- The published candidates and those from which the shadow sample is drawn are together the
  -- candidates that the stage is given: none is lost, and none is both published and in the pool.
  pub published-not_published-perm :
      Permᴰ (published most verified ++ not_published most verified) verified
  unfolding published survivors
  published-not_published-perm =
      let front = published most verified in
      let dead = filter (λ v. not (survives v)) verified in
      let back = drop most (survivors verified) in
      let split : front ++ (back ++ dead) ≡ survivors verified ++ dead =
        sym (append_assoc front back dead)
        ∙ ap (λ l. l ++ dead) (take-append-drop most (survivors verified)) in
      Permᴰ.trans (Permᴰ.append_left front (Permᴰ.symm not_published-perm)) (
        subst (λ l. Permᴰ l verified) (sym split)
          (Permᴰ.trans
            (Permᴰ.append_right dead (sort_by-perm scores_above (filter survives verified)))
            (filter-perm_parts survives verified)))
