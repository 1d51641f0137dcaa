-- ===== src/Api/Auth/Laws.antt =====
-- legacy/apps/api/src/auth.ts: a token opens the project that it was made for, and no other.
use content_gap.Prelude.{
  ℕ, Bool, true, false, List, [], ◌∷◌, Option, some, find, ◌≡◌, ◌≢◌, ◌↔◌, refl, sym, ap, ◌∙◌, inl,
  inr, Bool-cases, Option-cases, All_of_mem,
}
use content_gap.Prelude.Sorting.{IsSorted}
use content_gap.Prelude.Text.{Text, text_eq, text_eq_iff}
use content_gap.Shared.Hashing.{timing_safe_equal_hex}
use content_gap.Shared.Hashing.Comparison.{timing_safe_equal_hex_iff}
use content_gap.Database.Tables.{ProjectToken}
use content_gap.Api.Auth.{AuthedProject, token_of, is_expired, check_row, verify_token}
use mathlib.Core.List.{Memᴰ}

-- The column `token_hash` is unique.
abbrev pub HaveOwnHashes : List ProjectToken → Type 0
HaveOwnHashes = IsSorted (λ a b. a.token_hash ≢ b.token_hash)

-- A row of the table with the hash of the token, that has not expired, and what is told of it.
pub record IsOpenedBy (digest : Text → Text) (now : ℕ) (tokens : List ProjectToken) (token : Text)
    (p : AuthedProject) : Type 0 where
  pub row : ProjectToken
  pub stored : Memᴰ row tokens
  pub same_hash : row.token_hash ≡ digest token
  pub live : is_expired now row ≡ false
  pub told : p ≡ record { project_id = row.project_id; token_id = row.id }

found_stored :
    (p : ProjectToken → Bool) (xs : List ProjectToken) (row : ProjectToken)
    → find p xs ≡ some row
    → Memᴰ row xs × (p row ≡ true)
found_stored p [] row h = cc
found_stored p (x ∷ xs) row h = elim (Bool-cases (p x)) [
  | inl e ↦
      let first : some x ≡ some row = rw e at h in
      let same : row ≡ x = cc in (Memᴰ.head same, rw same e)
  | inr e ↦ let (m, q) = found_stored p xs row (rw e at h) in (Memᴰ.tail m, q)
]

stored_found :
    (hash : Text) (xs : List ProjectToken) (row : ProjectToken)
    → HaveOwnHashes xs
    → Memᴰ row xs
    → row.token_hash ≡ hash
    → find (λ t. text_eq t.token_hash hash) xs ≡ some row
stored_found hash [] row u m h = elim m [ ]
stored_found hash (x ∷ xs) row u (Memᴰ.head e) h =
    let same : text_eq x.token_hash hash ≡ true =
      (text_eq_iff x.token_hash hash).1 (ap (λ t. t.token_hash) (sym e) ∙ h) in
    rw same (ap some (sym e))
stored_found hash (x ∷ xs) row u (Memᴰ.tail m) h = elim (Bool-cases (text_eq x.token_hash hash)) [
  | inl e ↦ absurd (All_of_mem _ u.0 m ((text_eq_iff x.token_hash hash).0 e ∙ sym h))
  | inr e ↦ rw e (stored_found hash xs row u.1 m h)
]

check_row_iff :
    (now : ℕ) (hash : Text) (row : ProjectToken) (tokens : List ProjectToken) (p : AuthedProject)
    → row.token_hash ≡ hash
    → ((check_row now hash row tokens).1 ≡ some p) ↔ (
        (is_expired now row ≡ false)
        × (p ≡ record { project_id = row.project_id; token_id = row.id }))
unfolding check_row
check_row_iff now hash row tokens p h =
    let same : timing_safe_equal_hex row.token_hash hash ≡ true =
      (timing_safe_equal_hex_iff row.token_hash hash).1 h in
    elim (Bool-cases (is_expired now row)) [
      | inl e ↦ rw (check_row, same, e) ((λ q. cc), (λ q. cc))
      | inr e ↦ rw (check_row, same, e) ((λ q. (refl, cc)), (λ q. cc))
    ]

module _ (digest : Text → Text) (now : ℕ) (header : Option Text) (tokens : List ProjectToken)
    (p : AuthedProject) where
  abbrev has_hash : Text → ProjectToken → Bool
  has_hash token t = text_eq t.token_hash (digest token)

  opened :
      (verify_token digest now header tokens).1 ≡ some p
      → (token : Text) × (token_of header ≡ some token) × IsOpenedBy digest now tokens token p
  unfolding verify_token
  opened h = elim (Option-cases (token_of header)) [
    | inl e ↦ cc (rw (verify_token, e) at h)
    | inr (token, e) ↦ elim (Option-cases (find (has_hash token) tokens)) [
      | inl f ↦ cc (rw (verify_token, e, f) at h)
      | inr (row, f) ↦
          let (m, q) = found_stored (has_hash token) tokens row f in
          let same = (text_eq_iff row.token_hash (digest token)).0 q in
          let checked : (check_row now (digest token) row tokens).1 ≡ some p =
            rw (verify_token, e, f) at h in
          let (live, told) = (check_row_iff now (digest token) row tokens p same).0 checked in
          (token, e, record { row = row; stored = m; same_hash = same; live = live; told = told })
    ]
  ]

  opens :
      HaveOwnHashes tokens
      → (token : Text) → token_of header ≡ some token
      → IsOpenedBy digest now tokens token p
      → (verify_token digest now header tokens).1 ≡ some p
  unfolding verify_token
  opens unique token e o =
      let found = stored_found (digest token) tokens o.row unique o.stored o.same_hash in
      rw (verify_token, e, found)
        ((check_row_iff now (digest token) o.row tokens p o.same_hash).1 (o.live, o.told))

-- If the hashes of the tokens are unique, as the table says, then a request is let in, to a project and
-- by a token, exactly when it has a token that is not empty, and the table has a row with its hash that
-- has not expired, and the row is of that project.
pub verify_token_iff :
    (digest : Text → Text) (now : ℕ) (header : Option Text) (tokens : List ProjectToken)
    (p : AuthedProject)
    → HaveOwnHashes tokens
    → ((verify_token digest now header tokens).1 ≡ some p)
      ↔ ((token : Text) × (token_of header ≡ some token) × IsOpenedBy digest now tokens token p)
verify_token_iff digest now header tokens p unique =
    (opened digest now header tokens p, (λ o. opens digest now header tokens p unique o.0 o.1 o.2))
