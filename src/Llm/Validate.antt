-- ===== src/Llm/Validate.antt =====
-- legacy/packages/llm/src/validate.ts: every response of a provider passes its schema and the guard on
-- ids.
pub mod Laws
use content_gap.Prelude.{ℕ, ◌+◌, ◌/◌, max, length}
use content_gap.Prelude.Text.{Text}
use content_gap.Shared.Results.{Result, ok, ◌>>=◌, ◌>>◌}
use content_gap.Shared.IdReferences.{Json, AllowedIds, validate_id_references}

-- `parse` is that of the schema, and `json_of` shows a parsed value to the guard.
unfoldable pub validate_response :
    {A : Type 0} → (A → Result A) → (A → Json) → A → AllowedIds → Result A
validate_response parse json_of raw allowed = do
  parsed ← parse raw
  validate_id_references (json_of parsed) allowed
  ok parsed

unfoldable pub estimate_tokens : Text → ℕ
estimate_tokens text = max 1 ((length text + 3) / 4)
