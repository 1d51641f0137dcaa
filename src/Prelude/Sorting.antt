-- ===== src/Prelude/Sorting.antt =====
-- JavaScript's `Array.prototype.sort`, which is stable, as a stable insertion sort. The comparator is
-- given by the test that its first argument must stand before its second.
use Prim.Native.Nat.{ℕ, zero, suc}
use mathlib.Core.Path.{◌≡◌, refl, ap, ◌∙◌, subst}
use mathlib.Core.Logic.{inl, inr}
use mathlib.Core.Bool.{Bool, true, false}
use mathlib.Core.List.{List, [], ◌∷◌, ◌++◌, map, Permᴰ}
use mathlib.Core.List.Permᴰ
use content_gap.Prelude.Tests.{if◌then◌else◌, Bool-cases}
use content_gap.Prelude.Lists.{All, All-drop, All-take, length, take, drop}

module _ {ℓ} {A : Type ℓ} where
  pub insert_by : (A → A → Bool) → A → List A → List A
  insert_by before x [] = x ∷ []
  insert_by before x (y ∷ ys) = if before y x then y ∷ insert_by before x ys else x ∷ y ∷ ys

  unfoldable pub sort_by : (A → A → Bool) → List A → List A
  unfolding insert_by
  sort_by before [] = []
  sort_by before (x ∷ xs) = insert_by before x (sort_by before xs)

-- Each element is related to all that stand after it.
abbrev pub IsSorted {ℓ κ} : {A : Type ℓ} → (A → A → Type κ) → List A → Type κ
IsSorted R [] = Unit
IsSorted R (x ∷ xs) = All (R x) xs × IsSorted R xs

module _ {ℓ} {A : Type ℓ} (before : A → A → Bool) where
  insert_by-perm : (x : A) (ys : List A) → Permᴰ (insert_by before x ys) (x ∷ ys)
  unfolding insert_by
  insert_by-perm x [] = Permᴰ.refl (x ∷ [])
  insert_by-perm x (y ∷ ys) = elim (Bool-cases (before y x)) [
    | inl e ↦ rw e (Permᴰ.trans (Permᴰ.cons refl (insert_by-perm x ys)) (Permᴰ.swap refl refl))
    | inr e ↦ rw e (Permᴰ.refl (x ∷ y ∷ ys))
  ]

  -- Sorting loses nothing and makes nothing up.
  pub sort_by-perm : (xs : List A) → Permᴰ (sort_by before xs) xs
  unfolding sort_by
  sort_by-perm [] = Permᴰ.nil
  sort_by-perm (x ∷ xs) =
      Permᴰ.trans (insert_by-perm x (sort_by before xs)) (Permᴰ.cons refl (sort_by-perm xs))

module _ {ℓ κ} {A : Type ℓ} (P : A → Type κ) where
  pub All-perm : {xs ys : List A} → Permᴰ xs ys → All P xs → All P ys
  All-perm Permᴰ.nil h = h
  All-perm (Permᴰ.cons e p) h = (rw (← e) h.0, All-perm p h.1)
  All-perm (Permᴰ.swap e f) h = (rw (← f) h.1.0, (rw (← e) h.0, h.1.1))
  All-perm (Permᴰ.trans p q) h = All-perm q (All-perm p h)

module _ {ℓ κ} {A : Type ℓ} (before : A → A → Bool) (R : A → A → Type κ)
    (yes_before : (a b : A) → before a b ≡ true → R a b)
    (not_before : (a b : A) → before a b ≡ false → R b a)
    (trans : (a b c : A) → R a b → R b c → R a c) where
  All-weaken : (x y : A) (ys : List A) → R x y → All (R y) ys → All (R x) ys
  All-weaken x y [] r h = tt
  All-weaken x y (z ∷ ys) r h = (trans x y z r h.0, All-weaken x y ys r h.1)

  insert_by-IsSorted : (x : A) (ys : List A) → IsSorted R ys → IsSorted R (insert_by before x ys)
  unfolding insert_by
  insert_by-IsSorted x [] h = (tt, tt)
  insert_by-IsSorted x (y ∷ ys) h = elim (Bool-cases (before y x)) [
    | inl e ↦ rw e (
      All-perm (R y) (Permᴰ.symm (insert_by-perm before x ys)) (yes_before y x e, h.0),
      insert_by-IsSorted x ys h.1,
    )
    | inr e ↦ rw e ((not_before y x e, All-weaken x y ys (not_before y x e) h.0), h)
  ]

  -- The result is in order, whenever the comparator is that of a transitive order.
  pub sort_by-IsSorted : (xs : List A) → IsSorted R (sort_by before xs)
  unfolding sort_by
  sort_by-IsSorted [] = tt
  sort_by-IsSorted (x ∷ xs) = insert_by-IsSorted x (sort_by before xs) (sort_by-IsSorted xs)

pub length-perm : {A : Type 0} {xs ys : List A} → Permᴰ xs ys → length xs ≡ length ys
length-perm Permᴰ.nil = refl
length-perm (Permᴰ.cons e p) = ap suc (length-perm p)
length-perm (Permᴰ.swap e f) = refl
length-perm (Permᴰ.trans p q) = length-perm p ∙ length-perm q

pub map-perm :
    {A B : Type 0} (f : A → B) {xs ys : List A} → Permᴰ xs ys → Permᴰ (map f xs) (map f ys)
map-perm f Permᴰ.nil = Permᴰ.nil
map-perm f (Permᴰ.cons e p) = Permᴰ.cons (ap f e) (map-perm f p)
map-perm f (Permᴰ.swap e g) = Permᴰ.swap (ap f e) (ap f g)
map-perm f (Permᴰ.trans p q) = Permᴰ.trans (map-perm f p) (map-perm f q)

pub IsSorted-take :
    {A : Type 0} (R : A → A → Type 0) (n : ℕ) (xs : List A) → IsSorted R xs → IsSorted R (take n xs)
IsSorted-take R zero xs h = tt
IsSorted-take R (suc n) [] h = tt
IsSorted-take R (suc n) (x ∷ xs) h = (All-take (R x) n xs h.0, IsSorted-take R n xs h.1)

-- The front of a sorted list is related to its back.
pub front_back :
    {A : Type 0} (R : A → A → Type 0) (n : ℕ) (xs : List A)
    → IsSorted R xs
    → All (λ a. All (R a) (drop n xs)) (take n xs)
front_back R zero xs h = tt
front_back R (suc n) [] h = tt
front_back R (suc n) (x ∷ xs) h = (All-drop (R x) n xs h.0, front_back R n xs h.1)

-- Sorting images by the images' order.
module _ {ℓ κ} {A : Type ℓ} {B : Type κ} (f : A → B) (before : B → B → Bool) where
  map-insert_by :
      (x : A) (ys : List A)
      → map f (insert_by (λ a b. before (f a) (f b)) x ys) ≡ insert_by before (f x) (map f ys)
  unfolding insert_by
  map-insert_by x [] = refl
  map-insert_by x (y ∷ ys) = elim (Bool-cases (before (f y) (f x))) [
    | inl e ↦ rw e (ap (λ l. f y ∷ l) (map-insert_by x ys))
    | inr e ↦ rw e refl
  ]

  pub map-sort_by :
      (xs : List A) → map f (sort_by (λ a b. before (f a) (f b)) xs) ≡ sort_by before (map f xs)
  unfolding sort_by
  map-sort_by [] = refl
  map-sort_by (x ∷ xs) =
      map-insert_by x (sort_by (λ a b. before (f a) (f b)) xs)
      ∙ ap (insert_by before (f x)) (map-sort_by xs)

-- A symmetric relation of all pairs does not depend on the order of the list.
module _ {A : Type 0} (R : A → A → Type 0) (symmetric : (a b : A) → R a b → R b a) where
  pub IsSorted-perm : {xs ys : List A} → Permᴰ xs ys → IsSorted R xs → IsSorted R ys
  IsSorted-perm Permᴰ.nil h = h
  IsSorted-perm (Permᴰ.cons {a} {b} {l₁} {l₂} e p) h =
      (All-perm (R b) p (subst (λ x. All (R x) l₁) e h.0), IsSorted-perm p h.1)
  IsSorted-perm (Permᴰ.swap {a} {b} {a'} {b'} {l} e f) h =
      let pair : R a' b' = subst (λ x. R x b') f (subst (R b) e (symmetric a b h.0.0)) in
      ((pair, subst (λ x. All (R x) l) f h.1.0), (subst (λ x. All (R x) l) e h.0.1, h.1.1))
  IsSorted-perm (Permᴰ.trans p q) h = IsSorted-perm q (IsSorted-perm p h)

-- The parts of a list are related.
pub IsSorted-across :
    {A : Type 0} (R : A → A → Type 0) (xs ys : List A)
    → IsSorted R (xs ++ ys)
    → All (λ x. All (R x) ys) xs
IsSorted-across R [] ys h = tt
IsSorted-across {A} R (x ∷ xs) ys h = (back xs ys h.0, IsSorted-across R xs ys h.1)
  where
    back : (us ws : List A) → All (R x) (us ++ ws) → All (R x) ws
    back [] ws k = k
    back (u ∷ us) ws k = back us ws k.1
