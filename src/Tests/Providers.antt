-- ===== src/Tests/Providers.antt =====
-- The offline provider of legacy/packages/llm at small inputs.
use content_gap.Prelude.{◌≤◌, true, false, List, [], ◌∷◌, none, some, ◌≡◌, ◌↔◌, ◌⊎◌, All, length}
use content_gap.Prelude.Text.{Text, codes}
use content_gap.Shared.Enums.{CoverageStatus, JourneyStage, NeedType, OwnerType}
use content_gap.Shared.Results.{ok}
use content_gap.Shared.IdReferences.{AllowedIds}
use content_gap.Shared.IdReferences.Laws.{OnlyAllowed}
use content_gap.Shared.Schemas.Payloads.{CoverageResponse}
use content_gap.Shared.Schemas.Parsing.{parse_coverage}
use content_gap.Shared.Schemas.Encoding.{json_of_coverage}
use content_gap.Llm.Types.{OwnedUnit, CandidateInput}
use content_gap.Llm.Heuristics.{KeywordCohort, keyword_score, match_cohort}
use content_gap.Llm.Heuristics.Laws.{IsFirstBest, match_cohort-IsFirstBest}
use content_gap.Llm.Validate.{validate_response}
use content_gap.Llm.Validate.Laws.{validate_response_iff}
use content_gap.Llm.FakeProvider.Candidates.{build_evidence, candidates_of}
use content_gap.Llm.FakeProvider.Candidates.Laws.{WorthValidating, candidates_of-WorthValidating}
use content_gap.Llm.FakeProvider.Candidates.Quotes.{IsQuoted, build_evidence-IsQuoted}

abbrev response : CoverageResponse
response = record {
  classifications =
      record {
        need_key = codes "n1";
        coverage_status = CoverageStatus.weak;
        matched_content_unit_ids = codes "u1" ∷ [];
        summary = codes " one asset ";
        has_proof = false;
        connects_to_offer = false;
        has_next_action = true;
      }
      ∷ [];
}

abbrev allowed : AllowedIds
allowed = record { chunk_ids = []; cohort_ids = []; content_unit_ids = codes "u1" ∷ [] }

validate_response_iff_example :
    (validate_response (parse_coverage (λ s. true)) json_of_coverage response allowed ≡ ok response)
    ↔ ((parse_coverage (λ s. true) response ≡ ok response)
        × OnlyAllowed (json_of_coverage response) allowed)
validate_response_iff_example =
    validate_response_iff (parse_coverage (λ s. true)) json_of_coverage response allowed response

abbrev owned : OwnedUnit
owned = record {
  id = codes "u1";
  title = codes "Results";
  text = codes "Our results.";
  has_proof_signal = true;
  connects_to_offer = true;
  has_cta = true;
  is_outdated = false;
  has_unsupported_claim = false;
  matched_need_keys = codes "n1" ∷ [];
}

abbrev owned_units : List OwnedUnit
owned_units = owned ∷ []

abbrev input : CandidateInput
input = record {
  cohorts = record { id = codes "k1"; name = codes "Owners"; priority = 4 } ∷ [];
  needs =
      record {
        need_key = codes "n1";
        cohort_id = codes "k1";
        journey_stage = JourneyStage.evaluate;
        normalized_need = codes "Is it worth it?";
        need_type = NeedType.objection;
        coverage_status = CoverageStatus.weak;
        demand_chunk_ids = codes "c1" ∷ codes "c1" ∷ [];
        coverage_unit_ids = [];
      }
      ∷ [];
  chunks =
      record { id = codes "c1"; text = codes " Is it worth it? "; owner_type = OwnerType.voc } ∷ [];
}

candidates_of-WorthValidating_example :
    All WorthValidating (candidates_of (λ n. n ∷ []) (λ s. true) input input.needs)
candidates_of-WorthValidating_example =
    candidates_of-WorthValidating (λ n. n ∷ []) (λ s. true) input input.needs

build_evidence-IsQuoted_example :
    All (IsQuoted input.chunks) (build_evidence input.chunks (codes "c1" ∷ codes "c1" ∷ []))
    × (length (build_evidence input.chunks (codes "c1" ∷ codes "c1" ∷ [])) ≤ 4)
build_evidence-IsQuoted_example =
    build_evidence-IsQuoted input.chunks (codes "c1" ∷ codes "c1" ∷ [])

abbrev keyword_cohorts : List KeywordCohort
keyword_cohorts =
    record { id = codes "k1"; keywords = codes "price" ∷ [] }
    ∷ record { id = codes "k2"; keywords = codes "price" ∷ codes "proof" ∷ [] }
    ∷ []

match_cohort-IsFirstBest_example :
    ((match_cohort (λ s. s) (codes "proof of price") keyword_cohorts ≡ none)
      × All (λ d. keyword_score (λ s. s) (codes "proof of price") d.keywords ≤ 0) keyword_cohorts)
    ⊎ ((id : Text) × (match_cohort (λ s. s) (codes "proof of price") keyword_cohorts ≡ some id)
        × IsFirstBest (λ s. s) (codes "proof of price") keyword_cohorts id)
match_cohort-IsFirstBest_example =
    match_cohort-IsFirstBest (λ s. s) (codes "proof of price") keyword_cohorts
