-- ===== src/Prelude/Filters.antt =====
-- Filters of lists.
use content_gap.Prelude.Tests.{Bool-cases, if◌then◌else◌}
use content_gap.Prelude.Lists.{filter, All, find, any}
use mathlib.Core.Bool.{Bool, true, false, not}
use mathlib.Core.List.{List, [], ◌∷◌, ◌++◌, map, Permᴰ}
use mathlib.Core.List.Permᴰ
use mathlib.Core.Path.{◌≡◌, refl, ap, subst}
use mathlib.Core.Logic.{inl, inr}

pub filter-append :
    {A : Type 0} (p : A → Bool) (xs ys : List A) → filter p (xs ++ ys) ≡ filter p xs ++ filter p ys
filter-append p [] ys = refl
filter-append p (x ∷ xs) ys = elim (Bool-cases (p x)) [
  | inl e ↦ rw e (ap (λ l. x ∷ l) (filter-append p xs ys))
  | inr e ↦ rw e (filter-append p xs ys)
]

pub filter-All :
    {A : Type 0} (p : A → Bool) (xs : List A) → All (λ x. p x ≡ true) xs → filter p xs ≡ xs
filter-All p [] h = refl
filter-All p (x ∷ xs) h = rw h.0 (ap (λ l. x ∷ l) (filter-All p xs h.1))

pub filter-none :
    {A : Type 0} (p : A → Bool) (xs : List A)
    → All (λ x. p x ≡ true) xs
    → filter (λ x. not (p x)) xs ≡ []
filter-none p [] h = refl
filter-none p (x ∷ xs) h = rw h.0 (filter-none p xs h.1)

pub filter-not-filter :
    {A : Type 0} (p : A → Bool) (xs : List A) → filter p (filter (λ x. not (p x)) xs) ≡ []
filter-not-filter p [] = refl
filter-not-filter p (x ∷ xs) = elim (Bool-cases (p x)) [
  | inl e ↦ rw e (filter-not-filter p xs)
  | inr e ↦ rw (e, e) (filter-not-filter p xs)
]

pub filter_idem : {A : Type 0} (p : A → Bool) (xs : List A) → filter p (filter p xs) ≡ filter p xs
filter_idem p [] = refl
filter_idem p (x ∷ xs) = elim (Bool-cases (p x)) [
  | inl e ↦ rw (e, e) (ap (λ l. x ∷ l) (filter_idem p xs))
  | inr e ↦ rw e (filter_idem p xs)
]

pub map-filter :
    {A B : Type 0} (f : A → B) (p : B → Bool) (xs : List A)
    → map f (filter (λ x. p (f x)) xs) ≡ filter p (map f xs)
map-filter f p [] = refl
map-filter f p (x ∷ xs) = elim (Bool-cases (p (f x))) [
  | inl e ↦ rw e (ap (λ l. f x ∷ l) (map-filter f p xs))
  | inr e ↦ rw e (map-filter f p xs)
]

-- A filter and its complement divide a list.
pub filter-perm_parts :
    {A : Type 0} (p : A → Bool) (xs : List A) → Permᴰ (filter p xs ++ filter (λ x. not (p x)) xs) xs
filter-perm_parts p [] = Permᴰ.nil
filter-perm_parts p (x ∷ xs) = elim (Bool-cases (p x)) [
  | inl e ↦ rw e (Permᴰ.cons refl (filter-perm_parts p xs))
  | inr e ↦ rw e (
      Permᴰ.trans (Permᴰ.middle x (filter p xs) (filter (λ y. not (p y)) xs))
        (Permᴰ.cons refl (filter-perm_parts p xs)))
]

keep-perm :
    {A : Type 0} {x y : A} {xs ys : List A} (b : Bool)
    → x ≡ y
    → Permᴰ xs ys
    → Permᴰ (if b then x ∷ xs else xs) (if b then y ∷ ys else ys)
keep-perm true e q = Permᴰ.cons e q
keep-perm false e q = q

keep-swap :
    {A : Type 0} (x y : A) (xs : List A) (b c : Bool)
    → Permᴰ
        (if b then x ∷ (if c then y ∷ xs else xs) else (if c then y ∷ xs else xs))
        (if c then y ∷ (if b then x ∷ xs else xs) else (if b then x ∷ xs else xs))
keep-swap x y xs true true = Permᴰ.swap refl refl
keep-swap x y xs true false = Permᴰ.refl (x ∷ xs)
keep-swap x y xs false true = Permᴰ.refl (y ∷ xs)
keep-swap x y xs false false = Permᴰ.refl xs

pub filter-perm :
    {A : Type 0} (p : A → Bool) {xs ys : List A} → Permᴰ xs ys → Permᴰ (filter p xs) (filter p ys)
filter-perm p Permᴰ.nil = Permᴰ.nil
filter-perm p (Permᴰ.cons {a} {b} {l₁} {l₂} e q) =
    subst (λ y. Permᴰ (filter p (a ∷ l₁)) (filter p (y ∷ l₂))) e
      (keep-perm (p a) refl (filter-perm p q))
filter-perm p (Permᴰ.swap {a} {b} {a'} {b'} {l} e f) =
    subst (λ x. Permᴰ (filter p (a ∷ b ∷ l)) (filter p (x ∷ b' ∷ l))) f
      (subst (λ y. Permᴰ (filter p (a ∷ b ∷ l)) (filter p (b ∷ y ∷ l))) e
        (keep-swap a b (filter p l) (p a) (p b)))
filter-perm p (Permᴰ.trans q r) = Permᴰ.trans (filter-perm p q) (filter-perm p r)

-- A filter that keeps all that a test is true of does not change what the test finds.
module _ {A : Type 0} (p q : A → Bool) (dropped : (x : A) → q x ≡ false → p x ≡ false) where
  pub find-filter : (xs : List A) → find p (filter q xs) ≡ find p xs
  find-filter [] = refl
  find-filter (x ∷ xs) = elim (Bool-cases (q x)) [
    | inr e ↦ rw (e, dropped x e) (find-filter xs)
    | inl e ↦ rw e (elim (Bool-cases (p x)) [ inl h ↦ rw h refl | inr h ↦ rw h (find-filter xs) ])
  ]

  pub any-filter : (xs : List A) → any p (filter q xs) ≡ any p xs
  any-filter [] = refl
  any-filter (x ∷ xs) = elim (Bool-cases (q x)) [
    | inr e ↦ rw (e, dropped x e) (any-filter xs)
    | inl e ↦ rw e (elim (Bool-cases (p x)) [ inl h ↦ rw h refl | inr h ↦ rw h (any-filter xs) ])
  ]
