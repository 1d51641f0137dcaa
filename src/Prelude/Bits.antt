-- ===== src/Prelude/Bits.antt =====
-- When `^` and `|` of JavaScript give 0 on numbers that are not negative.
use Prim.Native.Nat.{
  ℕ, zero, suc, ◌/◌, ◌%◌, ◌≤◌, max, bit_or, bit_xor, bit_or-bitwise, bit_xor-bitwise, digits,
  differ,
}
use mathlib.Core.Path.{◌≡◌, refl, ap, sym, ◌∙◌}
use mathlib.Core.Logic.{◌↔◌}
use native.Mathlib.Omega.{arith}

differ-eq_zero : (x y : ℕ) → differ x y ≡ 0 → x ≡ y
differ-eq_zero zero y h = sym h
differ-eq_zero (suc x) zero h = omega (arith, h)
differ-eq_zero (suc x) (suc y) h = ap suc (differ-eq_zero x y h)

differ_self : (x : ℕ) → differ x x ≡ 0
differ_self zero = refl
differ_self (suc x) = differ_self x

digits-differ-eq_zero : (n a b : ℕ) → a ≤ n → digits (λ b. b) differ n a b ≡ 0 → a ≡ b
digits-differ-eq_zero zero a b le h = omega (arith, le, h)
digits-differ-eq_zero (suc n) zero b le h = sym h
digits-differ-eq_zero (suc n) (suc a) b le h =
    let high : suc a / 2 ≡ b / 2 =
      digits-differ-eq_zero n (suc a / 2) (b / 2) (omega (arith, le)) (omega (arith, h)) in
    let low : suc a % 2 ≡ b % 2 = differ-eq_zero (suc a % 2) (b % 2) (omega (arith, h)) in
    omega (arith, high, low)

digits-differ_self : (n a : ℕ) → a ≤ n → digits (λ b. b) differ n a a ≡ 0
digits-differ_self zero a le = omega (arith, le)
digits-differ_self (suc n) zero le = refl
digits-differ_self (suc n) (suc a) le =
    let high = digits-differ_self n (suc a / 2) (omega (arith, le)) in
    let low = differ_self (suc a % 2) in omega (arith, high, low)

digits-max-eq_zero : (n a b : ℕ) → a ≤ n → digits (λ b. b) max n a b ≡ 0 → (a ≡ 0) × (b ≡ 0)
digits-max-eq_zero zero a b le h = (omega (arith, le), h)
digits-max-eq_zero (suc n) zero b le h = (refl, h)
digits-max-eq_zero (suc n) (suc a) b le h =
    let high = digits-max-eq_zero n (suc a / 2) (b / 2) (omega (arith, le)) (omega (arith, h)) in
    let low : max (suc a % 2) (b % 2) ≡ 0 = omega (arith, h) in
    (omega (arith, high.0, low), omega (arith, high.1, low))

pub bit_xor-eq_zero_iff : (a b : ℕ) → (bit_xor a b ≡ 0) ↔ (a ≡ b)
bit_xor-eq_zero_iff a b = (
  (λ h. digits-differ-eq_zero a a b (omega arith) (sym (λ i. bit_xor-bitwise a b i) ∙ h)),
  (λ e.
      (λ i. bit_xor-bitwise a b i)
      ∙ ap (digits (λ b. b) differ a a) (sym e)
      ∙ digits-differ_self a a (omega arith)),
)

pub bit_or-eq_zero_iff : (a b : ℕ) → (bit_or a b ≡ 0) ↔ ((a ≡ 0) × (b ≡ 0))
bit_or-eq_zero_iff a b = (
  (λ h. digits-max-eq_zero a a b (omega arith) (sym (λ i. bit_or-bitwise a b i) ∙ h)),
  (λ e. (λ i. bit_or-bitwise a b i) ∙ ap (λ x. digits (λ b. b) max x x b) e.0 ∙ e.1),
)
