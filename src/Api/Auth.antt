-- ===== src/Api/Auth.antt =====
-- legacy/apps/api/src/auth.ts: which project the token of a request opens.
pub mod Laws
use content_gap.Prelude.{
  ℕ, Bool, true, false, not, ◌&&◌, List, [], ◌∷◌, Option, none, some, map, find, drop,
  if◌then◌else◌, ltb,
}
use content_gap.Prelude.Text.{
  Text, codes, text_eq, is_empty, is_space, trim, trim_start, starts_with,
}
use content_gap.Shared.Hashing.{timing_safe_equal_hex}
use content_gap.Database.Tables.{ProjectToken}
use content_gap.Llm.Injection.{lower_ascii}

pub record AuthedProject : Type 0 where
  pub project_id : Text
  pub token_id : Text

abbrev starts_blank : Text → Bool
starts_blank [] = false
starts_blank (c ∷ s) = is_space c

-- `authHeader.replace(/^Bearer\s+/i, "")`
unfoldable pub without_bearer : Text → Text
unfolding starts_with trim_start is_space
without_bearer header =
    if starts_with (map lower_ascii header) (codes "bearer") && starts_blank (drop 6 header)
    then trim_start (drop 6 header)
    else header

-- The token of the header, with `none` where the code stops.
unfoldable pub token_of : Option Text → Option Text
unfolding without_bearer trim
token_of none = none
token_of (some header) =
    let token = trim (without_bearer header) in
    if is_empty header then none else if is_empty token then none else some token

-- `row.expiresAt && row.expiresAt.getTime() < Date.now()`
unfoldable pub is_expired : ℕ → ProjectToken → Bool
is_expired now row = elim row.expires_at [ none ↦ false | some time ↦ ltb time now ]

abbrev pub touch : ℕ → Text → List ProjectToken → List ProjectToken
touch now id tokens =
    map (λ t. if text_eq t.id id then record t { last_used_at = some now } else t) tokens

-- The checks on the row that was found.
unfoldable pub check_row :
    ℕ → Text → ProjectToken → List ProjectToken → List ProjectToken × Option AuthedProject
unfolding is_expired timing_safe_equal_hex
check_row now hash row tokens =
    if not (timing_safe_equal_hex row.token_hash hash)
    then (tokens, none)
    else if is_expired now row
    then (tokens, none)
    else (touch now row.id tokens, some (record { project_id = row.project_id; token_id = row.id }))

-- `digest` is SHA-256 in hexadecimal digits.
unfoldable pub verify_token :
    (Text → Text) → ℕ → Option Text → List ProjectToken → List ProjectToken × Option AuthedProject
unfolding token_of check_row
verify_token digest now header tokens = elim (token_of header) [
  | none ↦ (tokens, none)
  | some token ↦ elim (find (λ t. text_eq t.token_hash (digest token)) tokens) [
    | none ↦ (tokens, none)
    | some row ↦ check_row now (digest token) row tokens
  ]
]
