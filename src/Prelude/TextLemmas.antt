-- ===== src/Prelude/TextLemmas.antt =====
-- What `startsWith` and `indexOf` find.
use content_gap.Prelude.Lists.{length, take, drop, take-append, drop-append, take-append-drop}
use content_gap.Prelude.Tests.{Bool-cases, Option-cases}
use content_gap.Prelude.Text.{Text, slice, starts_with, index_of}
use Prim.Native.Nat.{ℕ, zero, suc, ◌+◌, ◌-◌, ◌≤◌}
use mathlib.Core.Path.{◌≡◌, refl, ap, sym, ◌∙◌}
use mathlib.Core.Logic.{inl, inr}
use mathlib.Core.Bool.{true}
use mathlib.Core.Option.{some}
use mathlib.Core.List.{[], ◌∷◌, ◌++◌}
use native.Mathlib.Omega.{arith}

pub starts_with-append : (t post : Text) → starts_with (t ++ post) t ≡ true
unfolding starts_with
starts_with-append [] [] = refl
starts_with-append [] (c ∷ post) = refl
starts_with-append (c ∷ t) post = ground (arith, starts_with-append t post)

starts_with-take :
    (s t : Text) → starts_with s t ≡ true → (take (length t) s ≡ t) × (length t ≤ length s)
unfolding starts_with
starts_with-take [] [] h = (refl, omega arith)
starts_with-take (c ∷ s) [] h = (refl, omega arith)
starts_with-take [] (c ∷ t) h = cc
starts_with-take (c ∷ s) (d ∷ t) h = ground (arith, starts_with-take s t)

pub slice-suc : (c : ℕ) (s : Text) (i n : ℕ) → slice (c ∷ s) (suc i) (suc i + n) ≡ slice s i (i + n)
slice-suc c s i n = let e : suc i + n - suc i ≡ i + n - i = omega arith in rw e

pub slice_zero : (s : Text) (n : ℕ) → slice s 0 (0 + n) ≡ take n s
slice_zero s n = let e : 0 + n - 0 ≡ n = omega arith in rw e

-- A found text stands at the index found.
pub index_of-slice :
    (s t : Text) (i : ℕ)
    → index_of s t ≡ some i
    → (slice s i (i + length t) ≡ t) × (i + length t ≤ length s)
unfolding index_of
index_of-slice [] t i h = elim (Bool-cases (starts_with [] t)) [
  | inl e ↦
      let z : i ≡ 0 = ground arith in
      let (p, q) = starts_with-take [] t e in rw (z, slice_zero [] (length t)) (p, omega arith)
  | inr e ↦ cc (rw e at h)
]
index_of-slice (c ∷ s) t i h = elim (Bool-cases (starts_with (c ∷ s) t)) [
  | inl e ↦
      let z : i ≡ 0 = ground arith in
      let (p, q) = starts_with-take (c ∷ s) t e in
      rw (z, slice_zero (c ∷ s) (length t)) (p, omega arith)
  | inr e ↦ elim (Option-cases (index_of s t)) [
    | inl f ↦ cc (rw (e, f) at h)
    | inr (j, f) ↦
        let z : i ≡ suc j = ground arith in
        let (p, q) = index_of-slice s t j f in rw (z, slice-suc c s j (length t)) (p, omega arith)
  ]
]

-- A text that occurs is found, at its first occurrence or before the one given.
pub index_of-append :
    (pre t post : Text) → (i : ℕ) × (index_of (pre ++ (t ++ post)) t ≡ some i) × (i ≤ length pre)
unfolding index_of
index_of-append [] [] [] = (0, refl, omega arith)
index_of-append [] (c ∷ t) post = (0, rw (starts_with-append (c ∷ t) post), omega arith)
index_of-append [] [] (c ∷ post) = (0, refl, omega arith)
index_of-append (c ∷ pre) t post = elim (Bool-cases (starts_with (c ∷ pre ++ (t ++ post)) t)) [
  | inl e ↦ (0, rw e, omega arith)
  | inr e ↦ let (i, f, le) = index_of-append pre t post in (suc i, rw (e, f), omega arith)
]

-- What stands behind `pre` in a text is the slice at its offsets.
pub slice-append :
    (pre t post : Text) → slice (pre ++ (t ++ post)) (length pre) (length pre + length t) ≡ t
slice-append pre t post =
    let e : length pre + length t - length pre ≡ length t = omega arith in
    rw (e, drop-append pre (t ++ post)) (take-append t post)

take-append_le : (k : ℕ) (s t : Text) → k ≤ length s → take k (s ++ t) ≡ take k s
take-append_le zero s t h = refl
take-append_le (suc k) [] t h = absurd (omega arith)
take-append_le (suc k) (c ∷ s) t h = ap (◌∷◌ c) (take-append_le k s t (omega arith))

-- Of two splits of one text, the shorter front is a front of the longer.
pub front_of_front :
    (s t a b : Text) → s ++ t ≡ a ++ b → length a ≤ length s → s ≡ a ++ drop (length a) s
front_of_front s t a b e h =
    let same : take (length a) s ≡ a =
      sym (take-append_le (length a) s t h) ∙ ap (take (length a)) e ∙ take-append a b in
    sym (take-append-drop (length a) s) ∙ ap (λ (x : Text). x ++ drop (length a) s) same
