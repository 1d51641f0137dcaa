-- ===== src/Shared/Hashing/Comparison.antt =====
-- legacy/packages/shared/src/hashing.ts: the comparison in constant time compares.
use content_gap.Prelude.{
  ℕ, true, [], ◌∷◌, ◌≡◌, ◌↔◌, refl, length, ◌==◌, inl, inr, Bool-cases, arith,
}
use content_gap.Prelude.Bits.{bit_or-eq_zero_iff, bit_xor-eq_zero_iff}
use content_gap.Prelude.Text.{Text}
use content_gap.Shared.Hashing.{mismatch_from, timing_safe_equal_hex}
use Prim.Native.Nat.{bit_or, bit_xor}

mismatch_from-eq_zero :
    (m : ℕ) (a b : Text) → length a ≡ length b → mismatch_from m a b ≡ 0 → (m ≡ 0) × (a ≡ b)
unfolding mismatch_from
mismatch_from-eq_zero m [] [] e h = (h, refl)
mismatch_from-eq_zero m [] (y ∷ b) e h = absurd (omega (arith, e))
mismatch_from-eq_zero m (x ∷ a) [] e h = absurd (omega (arith, e))
mismatch_from-eq_zero m (x ∷ a) (y ∷ b) e h =
    let (z, same) = mismatch_from-eq_zero (bit_or m (bit_xor x y)) a b (omega (arith, e)) h in
    let (none_yet, digits) = (bit_or-eq_zero_iff m (bit_xor x y)).0 z in
    let first : x ≡ y = (bit_xor-eq_zero_iff x y).0 digits in (none_yet, rw (first, same) refl)

mismatch_from_same : (a : Text) → mismatch_from 0 a a ≡ 0
unfolding mismatch_from
mismatch_from_same [] = refl
mismatch_from_same (x ∷ a) =
    let none_yet : bit_or 0 (bit_xor x x) ≡ 0 =
      (bit_or-eq_zero_iff 0 (bit_xor x x)).1 (refl, (bit_xor-eq_zero_iff x x).1 refl) in
    rw none_yet (mismatch_from_same a)

-- The comparison of secrets says yes exactly on the same string.
pub timing_safe_equal_hex_iff : (a b : Text) → (timing_safe_equal_hex a b ≡ true) ↔ (a ≡ b)
unfolding timing_safe_equal_hex
timing_safe_equal_hex_iff a b = (
  (λ h. elim (Bool-cases (length a == length b)) [
    | inl e ↦
        let zero_left : (mismatch_from 0 a b == 0) ≡ true = rw (timing_safe_equal_hex, e) at h in
        (mismatch_from-eq_zero 0 a b (ground (arith, e)) (ground (arith, zero_left))).1
    | inr e ↦ cc (rw (timing_safe_equal_hex, e) at h)
  ]),
  (λ e.
      rw (← e, timing_safe_equal_hex)
        (let same : (length a == length a) ≡ true = ground arith in
          rw (same, mismatch_from_same a) refl)),
)
