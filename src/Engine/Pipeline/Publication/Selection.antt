-- ===== src/Engine/Pipeline/Publication/Selection.antt =====
-- Which candidates the stage `publication` publishes.
use content_gap.Prelude.{
  All-append, ℕ, zero, suc, ◌≤◌, Bool, true, false, not, List, [], ◌∷◌, map, ◌≡◌, refl, ap, ◌⊎◌,
  inl, inr, arith, All, All-weaken, All-filter_self, All-of_forall, All_of_mem, Memᴰ-take,
  Memᴰ-filter, length, length-take, take, drop, filter,
}
use content_gap.Prelude.Sorting.{
  IsSorted, IsSorted-take, sort_by-perm, sort_by-IsSorted, All-perm, front_back,
}
use content_gap.Engine.Pipeline.Store.{Verified}
use content_gap.Engine.Pipeline.Publication.{
  scores_above, survives, survivors, published, not_published,
}
use content_gap.Engine.Pipeline.Publication.Pool.{not_published-perm}
use mathlib.Core.List.{Memᴰ, Permᴰ}
use mathlib.Core.List.Permᴰ

abbrev pub ScoresLeast : Verified → Verified → Type 0
ScoresLeast a b = b.score ≤ a.score

survivors-IsSorted : (vs : List Verified) → IsSorted ScoresLeast (survivors vs)
unfolding survivors
survivors-IsSorted vs =
    sort_by-IsSorted scores_above ScoresLeast (λ a b h. ground arith) (λ a b h. ground arith)
      (λ a b c p q. omega arith) (filter survives vs)

-- A list as the members of it.
All-members : {A : Type 0} (xs : List A) → All (λ x. Memᴰ x xs) xs
All-members xs = All-of_forall _ xs (λ a m. m)

Memᴰ-perm : {A : Type 0} {a : A} {xs ys : List A} → Permᴰ xs ys → Memᴰ a xs → Memᴰ a ys
Memᴰ-perm {ys} p m = All_of_mem _ (All-perm _ (Permᴰ.symm p) (All-members ys)) m

Memᴰ-map : {A B : Type 0} (f : A → B) {a : A} {xs : List A} → Memᴰ a xs → Memᴰ (f a) (map f xs)
Memᴰ-map f (Memᴰ.head e) = Memᴰ.head (ap f e)
Memᴰ-map f (Memᴰ.tail m) = Memᴰ.tail (Memᴰ-map f m)

-- The list of published candidates is a best choice: it is no longer than the cap; each of them is a
-- candidate that was not rejected and is not labelled for rejection; they stand by descending score;
-- and a candidate left out was rejected or labelled so, or scores no more than each that is
-- published, the cap being reached.
pub record IsBest (most : ℕ) (verified chosen left_out : List Verified) : Type 0 where
  pub capped : length chosen ≤ most
  pub among : All (λ v. Memᴰ v verified × (survives v ≡ true)) chosen
  pub in_order : IsSorted ScoresLeast chosen
  pub no_better :
      All
        (λ v. (survives v ≡ false) ⊎ (All (λ p. v.score ≤ p.score) chosen × (length chosen ≡ most)))
        left_out

left_over : {A : Type 0} {a : A} (n : ℕ) (xs : List A) → Memᴰ a (drop n xs) → length (take n xs) ≡ n
left_over zero xs m = refl
left_over (suc n) [] m = elim m [ ]
left_over (suc n) (x ∷ xs) m = ap suc (left_over n xs m)

not-true : (b : Bool) → not b ≡ true → b ≡ false
not-true true h = cc
not-true false h = refl

module _ (most : ℕ) (verified : List Verified) where
  to_filter : (v : Verified) → Memᴰ v (survivors verified) → Memᴰ v (filter survives verified)
  unfolding survivors
  to_filter v m = Memᴰ-perm (sort_by-perm scores_above (filter survives verified)) m

  abbrev NoBetter : Verified → Type 0
  NoBetter v =
      (survives v ≡ false)
      ⊎ (All (λ p. v.score ≤ p.score) (published most verified)
          × (length (published most verified) ≡ most))

  -- A survivor beyond the cap.
  beyond_cap : (v : Verified) → Memᴰ v (drop most (survivors verified)) → NoBetter v
  unfolding published
  beyond_cap v m = inr (
    All-weaken (λ p h. All_of_mem _ h m) (take most (survivors verified))
        (front_back ScoresLeast most (survivors verified) (survivors-IsSorted verified)),
    left_over most (survivors verified) m,
  )

  not_published-NoBetter : All NoBetter (not_published most verified)
  not_published-NoBetter = All-perm NoBetter (not_published-perm most verified) (
      All-append NoBetter (drop most (survivors verified)) (filter (λ v. not (survives v)) verified)
        (All-of_forall _ (drop most (survivors verified)) beyond_cap)
        (All-weaken (λ v h. inl (not-true (survives v) h)) (filter (λ v. not (survives v)) verified)
          (All-filter_self (λ v. not (survives v)) verified)))

-- Whatever the candidates are, the stage publishes at most as many as the cap, each one of them that
-- was not rejected nor labelled for rejection, by descending score; and each that it leaves out
-- was rejected or labelled so, or the cap is reached by candidates that score at least as high.
pub published-IsBest :
    (most : ℕ) (verified : List Verified)
    → IsBest most verified (published most verified) (not_published most verified)
unfolding published
published-IsBest most verified = record {
  capped = omega (arith, length-take {0} most (survivors verified));
  among = All-of_forall _ (published most verified) λ v m.
      Memᴰ-filter survives verified
        (to_filter most verified v (Memᴰ-take most (survivors verified) m));
  in_order = IsSorted-take ScoresLeast most (survivors verified) (survivors-IsSorted verified);
  no_better = not_published-NoBetter most verified;
}
