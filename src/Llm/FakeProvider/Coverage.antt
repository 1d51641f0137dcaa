-- ===== src/Llm/FakeProvider/Coverage.antt =====
-- legacy/packages/llm/src/fake-provider.ts, `classifyCoverage`: how well owned content covers a need.
pub mod Laws
use content_gap.Prelude.{
  ℕ, Bool, true, false, ◌&&◌, ◌||◌, List, [], ◌∷◌, ◌++◌, map, if◌then◌else◌, leb, ltb, ◌==◌, length,
  filter, any, all, take,
}
use content_gap.Prelude.Text.{Text, codes, has}
use content_gap.Shared.Enums.{CoverageStatus}
use content_gap.Shared.Results.{Result}
use content_gap.Shared.IdReferences.{AllowedIds}
use content_gap.Shared.Schemas.Payloads.{CoverageClassification, CoverageResponse}
use content_gap.Shared.Schemas.Parsing.{parse_coverage}
use content_gap.Shared.Schemas.Encoding.{json_of_coverage}
use content_gap.Llm.Types.{CoverageInput, CoverageNeed, OwnedUnit}
use content_gap.Llm.Validate.{validate_response}

unfoldable pub matches_of : CoverageInput → CoverageNeed → List OwnedUnit
matches_of input need = filter (λ u. has u.matched_need_keys need.need_key) input.owned_units

abbrev pub with_proof : List OwnedUnit → List OwnedUnit
with_proof matches = filter (λ m. m.has_proof_signal) matches

-- The chain of tests on the matches of a need, of which there is one at least.
unfoldable pub coverage_status : List OwnedUnit → CoverageStatus
coverage_status matches =
    if all (λ m. m.is_outdated) matches
    then CoverageStatus.outdated
    else if any (λ m. m.has_unsupported_claim) matches && length (with_proof matches) == 0
    then CoverageStatus.unsupported
    else if leb 4 (length matches) && length (with_proof matches) == 0
    then CoverageStatus.oversaturated
    else if ltb 0 (length (with_proof matches)) && any (λ m. m.connects_to_offer) matches
    then CoverageStatus.strong
    else if ltb 0 (length (with_proof matches))
    then CoverageStatus.partial
    else if any (λ m. m.has_cta || m.connects_to_offer) matches
    then CoverageStatus.weak
    else CoverageStatus.mention_only

-- `print` is the conversion of a number to a string.
module _ (print : ℕ → Text) (is_uuid : Text → Bool) where
  unfoldable pub classify_need : CoverageInput → CoverageNeed → CoverageClassification
  unfolding matches_of coverage_status
  classify_need input need =
      let matches = matches_of input need in
      if length matches == 0
      then record {
        need_key = need.need_key;
        coverage_status = CoverageStatus.none;
        matched_content_unit_ids = [];
        summary = codes "No owned asset addresses this need.";
        has_proof = false;
        connects_to_offer = false;
        has_next_action = false;
      }
      else record {
        need_key = need.need_key;
        coverage_status = coverage_status matches;
        matched_content_unit_ids = take 20 (map (λ m. m.id) matches);
        summary =
            print (length matches)
            ++ (codes " owned asset(s) touch this need; "
                ++ (print (length (with_proof matches)) ++ codes " include proof."));
        has_proof = ltb 0 (length (with_proof matches));
        connects_to_offer = any (λ m. m.connects_to_offer) matches;
        has_next_action = any (λ m. m.has_cta) matches;
      }

  abbrev pub allowed_units : CoverageInput → AllowedIds
  allowed_units input = record {
    chunk_ids = [];
    cohort_ids = [];
    content_unit_ids = map (λ u. u.id) input.owned_units;
  }

  -- `classifyCoverage` less the counting of tokens
  unfoldable pub fake_coverage : CoverageInput → Result CoverageResponse
  unfolding classify_need validate_response parse_coverage json_of_coverage
  fake_coverage input =
      validate_response (parse_coverage is_uuid) json_of_coverage
        (record { classifications = map (classify_need input) input.needs }) (allowed_units input)
