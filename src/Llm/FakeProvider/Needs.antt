-- ===== src/Llm/FakeProvider/Needs.antt =====
-- legacy/packages/llm/src/fake-provider.ts, `mapDecisionSupport`: the needs of each cohort, and the
-- voices of customers that speak of them.
use content_gap.Prelude.{
  Bool, true, not, ◌&&◌, ◌||◌, List, [], ◌∷◌, ◌++◌, Option, none, some, map, filter, any, take,
  if◌then◌else◌, leb, length,
}
use content_gap.Prelude.Text.{Text, text_eq, includes, is_empty, slice}
use content_gap.Shared.Enums.{NeedType, JourneyStage}
use content_gap.Shared.Results.{Result}
use content_gap.Shared.IdReferences.{AllowedIds}
use content_gap.Shared.Schemas.Payloads.{DecisionSupportNeed, DecisionSupportResponse}
use content_gap.Shared.Schemas.Parsing.{parse_decision_support}
use content_gap.Shared.Schemas.Encoding.{json_of_decision_support}
use content_gap.Llm.Types.{DecisionSupportInput, CohortInput, VocSignalInput}
use content_gap.Llm.Validate.{validate_response}
use content_gap.Engine.Pipeline.Titles.{split_spaces}

-- `mkNeed`
unfoldable pub mk_need : Text → NeedType → Text → JourneyStage → List Text → DecisionSupportNeed
mk_need cohort_id need_type text stage supporting = record {
  cohort_id = cohort_id;
  journey_stage = stage;
  need_type = need_type;
  normalized_need = slice text 0 300;
  description = [];
  supporting_chunk_ids = supporting;
}

-- `v.cohortId === cohort.id || v.cohortId === null`
abbrev speaks_for : Text → Option Text → Bool
speaks_for cohort_id none = true
speaks_for cohort_id (some id) = text_eq id cohort_id

module _ (to_lower_case : Text → Text) (is_uuid : Text → Bool) where
  unfoldable pub overlaps : Text → Text → List Text → Bool
  unfolding split_spaces
  overlaps text need_text keywords =
      let lower = to_lower_case text in
      any (includes lower) (filter (λ t. leb 4 (length t)) (split_spaces (to_lower_case need_text)))
      || any (λ k. not (is_empty k) && includes lower (to_lower_case k)) keywords

  unfoldable pub support_for_cohort : List VocSignalInput → CohortInput → Text → List Text
  unfolding overlaps
  support_for_cohort voc_signals cohort need_text = take 10 (
      map (λ v. v.chunk_id)
        (filter (λ v. speaks_for cohort.id v.cohort_id && overlaps v.text need_text cohort.keywords)
          voc_signals))

  unfoldable pub needs_of_cohort : List VocSignalInput → CohortInput → List DecisionSupportNeed
  unfolding mk_need support_for_cohort
  needs_of_cohort voc_signals cohort =
      let need = λ (type : NeedType) (stage : JourneyStage) (text : Text).
        mk_need cohort.id type text stage (support_for_cohort voc_signals cohort text) in
      let unless_empty = λ (type : NeedType) (stage : JourneyStage) (text : Text).
        if is_empty text then [] else need type stage text ∷ [] in
      map (need NeedType.objection JourneyStage.evaluate) cohort.objections
      ++ (map (need NeedType.decision_criterion JourneyStage.evaluate) cohort.decision_criteria
          ++ (unless_empty NeedType.question JourneyStage.explore cohort.active_problem
              ++ (unless_empty NeedType.current_belief JourneyStage.evaluate cohort.current_belief
                  ++ unless_empty NeedType.desired_decision_movement JourneyStage.decide
                      cohort.desired_outcome)))

  unfoldable pub needs_of_cohorts :
      List VocSignalInput → List CohortInput → List DecisionSupportNeed
  unfolding needs_of_cohort
  needs_of_cohorts voc_signals [] = []
  needs_of_cohorts voc_signals (cohort ∷ cohorts) =
      needs_of_cohort voc_signals cohort ++ needs_of_cohorts voc_signals cohorts

  abbrev pub allowed_for_decision : DecisionSupportInput → AllowedIds
  allowed_for_decision input = record {
    chunk_ids = map (λ v. v.chunk_id) input.voc_signals;
    cohort_ids = map (λ c. c.id) input.cohorts;
    content_unit_ids = [];
  }

  -- `mapDecisionSupport` less the counting of tokens
  unfoldable pub fake_needs : DecisionSupportInput → Result DecisionSupportResponse
  unfolding needs_of_cohorts validate_response parse_decision_support json_of_decision_support
  fake_needs input =
      validate_response (parse_decision_support is_uuid) json_of_decision_support
        (record { needs = take 80 (needs_of_cohorts input.voc_signals input.cohorts) })
        (allowed_for_decision input)
