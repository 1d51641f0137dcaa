-- ===== src/Shared/Results.antt =====
-- What a call of the program throws, and a call that returns or throws.
use content_gap.Prelude.{◌≡◌, refl, arith, ◌⊎◌, inl, inr}
use content_gap.Prelude.Text.{Text}

pub data IdKind : Type 0 where
  chunk cohort content_unit : IdKind

-- `ZodError`, `UnknownIdError(kind, id)`, and any other `Error(message)`.
pub data Failure : Type 0 where
  zod_error : Failure
  unknown_id : IdKind → Text → Failure
  error : Text → Failure

pub data Result {κ} (T : Type κ) : Type κ where
  err : Failure → Result T
  ok : T → Result T

-- What is thrown skips the rest.
module _ {ℓ κ} {T : Type ℓ} {U : Type κ} where
  infixl 5 ◌>>=◌ ◌>>◌
  abbrev pub ◌>>=◌ : Result T → (T → Result U) → Result U
  err failure >>= next = err failure
  ok value >>= next = next value

  abbrev pub ◌>>◌ : Result T → Result U → Result U
  err failure >> next = err failure
  ok value >> next = next

  pub >>-eq-ok :
      (first : Result T) (next : Result U) {u : U}
      → (first >> next) ≡ ok u
      → (value : T) × (first ≡ ok value) × (next ≡ ok u)
  >>-eq-ok (err failure) next h = cc
  >>-eq-ok (ok value) next h = (value, refl, h)

  pub >>-eq-err :
      (first : Result T) (next : Result U) {thrown : Failure}
      → (first >> next) ≡ err thrown
      → (first ≡ err thrown) ⊎ (next ≡ err thrown)
  >>-eq-err (err failure) next h = inl (ground arith)
  >>-eq-err (ok value) next h = inr h

  pub >>=-eq-ok :
      (m : Result T) (next : T → Result U) {u : U}
      → (m >>= next) ≡ ok u
      → (value : T) × (m ≡ ok value) × (next value ≡ ok u)
  >>=-eq-ok (err failure) next h = cc
  >>=-eq-ok (ok value) next h = (value, refl, h)

pub Result-cases :
    {A : Type 0} (r : Result A) → ((a : A) × (r ≡ ok a)) ⊎ ((e : Failure) × (r ≡ err e))
Result-cases (ok a) = inl (a, refl)
Result-cases (err e) = inr (e, refl)
