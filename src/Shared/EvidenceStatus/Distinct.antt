-- ===== src/Shared/EvidenceStatus/Distinct.antt =====
-- legacy/packages/shared/src/evidence-status.ts: the set of keys by which sources are counted.
use content_gap.Prelude.{
  suc, ◌≤◌, Bool, true, false, not, List, [], ◌∷◌, ◌≡◌, refl, sym, ◌∙◌, ◌≢◌, inl, inr, arith,
  Bool-cases, length, filter, Memᴰ-filter, Memᴰ-filter_of, length-filter-le,
}
use content_gap.Prelude.Text.{Text, text_eq, text_eq_iff, text_ne_iff}
use content_gap.Shared.EvidenceStatus.{distinct}
use mathlib.Core.List.{Memᴰ}
use mathlib.Core.List.Memᴰ as MemD

distinct-mem : {k : Text} (ks : List Text) → Memᴰ k (distinct ks) → Memᴰ k ks
unfolding distinct
distinct-mem [] m = m
distinct-mem (j ∷ ks) (Memᴰ.head e) = Memᴰ.head e
distinct-mem (j ∷ ks) (Memᴰ.tail m) = Memᴰ.tail (distinct-mem ks (Memᴰ-filter _ (distinct ks) m).0)

mem-distinct : {k : Text} {ks : List Text} → Memᴰ k ks → Memᴰ k (distinct ks)
unfolding distinct
mem-distinct (Memᴰ.head e) = Memᴰ.head e
mem-distinct {k} (Memᴰ.tail {x} {xs} m) = elim (Bool-cases (text_eq x k)) [
  | inl e ↦ Memᴰ.head (sym ((text_eq_iff x k).0 e))
  | inr e ↦ Memᴰ.tail (Memᴰ-filter_of (λ j. not (text_eq x j)) (mem-distinct m) (rw e))
]

-- Two different members.
abbrev pub Differ : List Text → Type 0
Differ ks = (j : Text) × (k : Text) × Memᴰ j ks × Memᴰ k ks × (j ≢ k)

pub not-true : {b : Bool} → not b ≡ true → b ≡ false
not-true {b} h = ground arith

pub distinct-Differ : (ks : List Text) → 2 ≤ length (distinct ks) → Differ ks
unfolding distinct
distinct-Differ [] h = elim h [ ]
distinct-Differ (j ∷ ks) h = go (filter (λ i. not (text_eq j i)) (distinct ks)) refl (omega arith)
  where
    go :
        (rest : List Text)
        → filter (λ i. not (text_eq j i)) (distinct ks) ≡ rest
        → 1 ≤ length rest
        → Differ (j ∷ ks)
    go [] e n = elim n [ ]
    go (k ∷ rest) e n =
        let (m, ne) =
          Memᴰ-filter {a = k} (λ i. not (text_eq j i)) (distinct ks) (rw e (Memᴰ.head refl)) in
        (j, k, Memᴰ.head refl, Memᴰ.tail (distinct-mem ks m), (text_ne_iff j k).0 (not-true ne))

nonempty_of_mem : {k : Text} {ks : List Text} → Memᴰ k ks → 1 ≤ length ks
nonempty_of_mem (Memᴰ.head e) = omega arith
nonempty_of_mem (Memᴰ.tail m) = omega arith

pub Differ-distinct : (ks : List Text) → Differ ks → 2 ≤ length (distinct ks)
unfolding distinct
Differ-distinct [] (j, k, m, n, ne) = elim m [ ]
Differ-distinct (i ∷ ks) (j, k, m, n, ne) = elim (Bool-cases (text_eq i j)) [
  | inl e ↦ others k n (λ f. ne (sym ((text_eq_iff i j).0 e) ∙ f))
  | inr e ↦ others j m ((text_ne_iff i j).0 e)
]
  where
    others :
        (l : Text)
        → Memᴰ l (i ∷ ks)
        → i ≢ l
        → 2 ≤ suc (length (filter (λ i'. not (text_eq i i')) (distinct ks)))
    others l m f =
        let inside : Memᴰ l (distinct ks) = elim (MemD.cases_cons m) [
          | inl e ↦ absurd (f (sym e))
          | inr t ↦ mem-distinct t
        ] in
        let kept = Memᴰ-filter_of (λ i'. not (text_eq i i')) inside (rw ((text_ne_iff i l).1 f)) in
        omega (arith, nonempty_of_mem kept)

pub length-distinct-le : (ks : List Text) → length (distinct ks) ≤ length ks
unfolding distinct
length-distinct-le [] = omega arith
length-distinct-le (k ∷ ks) =
    omega (arith, length-distinct-le ks, length-filter-le (λ j. not (text_eq k j)) (distinct ks))
