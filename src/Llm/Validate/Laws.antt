-- ===== src/Llm/Validate/Laws.antt =====
-- What a validated response is known to be.
use content_gap.Prelude.{◌≡◌, refl, ◌↔◌}
use content_gap.Shared.Results.{Result, ok, err, ◌>>=◌, ◌>>◌}
use content_gap.Shared.IdReferences.{Json, AllowedIds, validate_id_references}
use content_gap.Shared.IdReferences.Laws.{OnlyAllowed, validate_id_references_iff}
use content_gap.Llm.Validate.{validate_response}

module _ {A : Type 0} (parse : A → Result A) (json_of : A → Json) (raw : A)
    (allowed : AllowedIds) where
  -- A response comes through with a value exactly when the schema parses the raw response to this
  -- value and every id in the parsed value, not in the raw one, is among the allowed ids.
  pub validate_response_iff :
      (value : A)
      → (validate_response parse json_of raw allowed ≡ ok value)
        ↔ ((parse raw ≡ ok value) × OnlyAllowed (json_of value) allowed)
  unfolding validate_response
  validate_response_iff value = (to (parse raw) refl, from)
    where
      to :
          (r : Result A)
          → parse raw ≡ r
          → (r >>= λ parsed. validate_id_references (json_of parsed) allowed >> ok parsed)
            ≡ ok value
          → (r ≡ ok value) × OnlyAllowed (json_of value) allowed
      to (err e) p h = cc
      to (ok parsed) p h = guard (validate_id_references (json_of parsed) allowed) refl h
        where
          guard :
              (g : Result (Unit {0}))
              → validate_id_references (json_of parsed) allowed ≡ g
              → (g >> ok parsed) ≡ ok value
              → (ok parsed ≡ ok value) × OnlyAllowed (json_of value) allowed
          guard (err e) q k = cc
          guard (ok tt) q k =
              let same : parsed ≡ value = cc in
              (k, rw (← same) ((validate_id_references_iff (json_of parsed) allowed).0 q))

      from :
          (parse raw ≡ ok value) × OnlyAllowed (json_of value) allowed
          → validate_response parse json_of raw allowed ≡ ok value
      from (p, o) = rw (p, (validate_id_references_iff (json_of value) allowed).1 o)
