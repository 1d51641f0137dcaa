-- ===== src/Tests/Requests.antt =====
-- A token of legacy/apps/api/src/auth.ts.
use content_gap.Prelude.{[], ◌∷◌, none, some, ◌≡◌, ◌↔◌, refl}
use content_gap.Prelude.Text.{Text, codes, text_eq}
use content_gap.Database.Tables.{ProjectToken}
use content_gap.Api.Auth.{token_of, verify_token, AuthedProject}
use content_gap.Api.Auth.Laws.{IsOpenedBy, verify_token_iff}
use mathlib.Core.List.{reverse}

abbrev row : ProjectToken
row = record {
  id = codes "t1";
  project_id = codes "p";
  token_hash = codes "terces";
  label = [];
  last_used_at = none;
  expires_at = some 9;
}

abbrev told : AuthedProject
told = record { project_id = codes "p"; token_id = codes "t1" }

verify_token_iff_example :
    ((verify_token reverse 7 (some (codes "bearer  secret")) (row ∷ [])).1 ≡ some told) ↔ (
      (token : Text) × (token_of (some (codes "bearer  secret")) ≡ some token)
      × IsOpenedBy reverse 7 (row ∷ []) token told)
verify_token_iff_example =
    verify_token_iff reverse 7 (some (codes "bearer  secret")) (row ∷ []) told (tt, tt)

let_in : (verify_token reverse 7 (some (codes "bearer  secret")) (row ∷ [])).1 ≡ some told
unfolding verify_token text_eq
let_in = refl
