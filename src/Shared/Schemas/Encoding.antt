-- ===== src/Shared/Schemas/Encoding.antt =====
-- The parsed payloads as the JSON values that `validateIdReferences` walks. Enum members stand as
-- texts that no key of an id leads to, so one placeholder serves for all of them.
use content_gap.Prelude.{List, [], ◌∷◌, Option, none, some}
use content_gap.Prelude.Text.{Text, codes}
use content_gap.Shared.IdReferences.{
  Json, null, boolean, string, array, object, Items, nil, cons, end, field,
}
use content_gap.Shared.Schemas.Payloads.{
  ExtractedSignal, ExtractionResponse, DecisionSupportNeed, DecisionSupportResponse,
  CoverageClassification, CoverageResponse, EvidenceClaim, CandidateGap, CandidateGapResponse,
}

unfoldable pub items_of {ℓ} : {A : Type ℓ} → (A → Json) → List A → Items
items_of f [] = nil
items_of f (x ∷ xs) = cons (f x) (items_of f xs)

abbrev pub nullable_text : Option Text → Json
nullable_text none = null
nullable_text (some s) = string s

-- A member of an enum.
abbrev pub literal : Json
literal = string (codes "LITERAL")

unfoldable pub json_of_signal : ExtractedSignal → Json
json_of_signal s = object (
    field (codes "type") literal (
      field (codes "normalizedLabel") (string s.normalized_label) (
        field (codes "rawText") (string s.raw_text) (
          field (codes "journeyStage") literal (
            field (codes "cohortId") (nullable_text s.cohort_id)
              (field (codes "evidenceChunkId") (string s.evidence_chunk_id) end))))))

unfoldable pub json_of_extraction : ExtractionResponse → Json
unfolding json_of_signal items_of
json_of_extraction r = object (
    field (codes "contentUnitId") (string r.content_unit_id) (
      field (codes "language") literal (
        field (codes "primaryCohortId") (nullable_text r.primary_cohort_id) (
          field (codes "secondaryCohortIds") (array (items_of string r.secondary_cohort_ids)) (
            field (codes "journeyStages") (array (items_of (λ s. literal) r.journey_stages)) (
              field (codes "contentRole") literal (
                field (codes "signals") (array (items_of json_of_signal r.signals)) (
                  field (codes "proofUsed") (array (items_of string r.proof_used)) (
                    field (codes "claims") (array (items_of string r.claims))
                      (field (codes "cta") (nullable_text r.cta) end))))))))))

unfoldable pub json_of_need : DecisionSupportNeed → Json
unfolding items_of
json_of_need n = object (
    field (codes "cohortId") (string n.cohort_id) (
      field (codes "journeyStage") literal (
        field (codes "needType") literal (
          field (codes "normalizedNeed") (string n.normalized_need) (
            field (codes "description") (string n.description) (
              field (codes "supportingChunkIds") (array (items_of string n.supporting_chunk_ids))
                end))))))

unfoldable pub json_of_decision_support : DecisionSupportResponse → Json
unfolding json_of_need items_of
json_of_decision_support r =
    object (field (codes "needs") (array (items_of json_of_need r.needs)) end)

unfoldable pub json_of_classification : CoverageClassification → Json
unfolding items_of
json_of_classification c = object (
    field (codes "needKey") (string c.need_key) (
      field (codes "coverageStatus") literal (
        field (codes "matchedContentUnitIds") (array (items_of string c.matched_content_unit_ids)) (
          field (codes "summary") (string c.summary) (
            field (codes "hasProof") (boolean c.has_proof) (
              field (codes "connectsToOffer") (boolean c.connects_to_offer)
                (field (codes "hasNextAction") (boolean c.has_next_action) end)))))))

unfoldable pub json_of_coverage : CoverageResponse → Json
unfolding json_of_classification items_of
json_of_coverage r = object (
    field (codes "classifications") (array (items_of json_of_classification r.classifications)) end)

unfoldable pub json_of_claim : EvidenceClaim → Json
json_of_claim e = object (
    field (codes "role") literal (
      field (codes "chunkId") (string e.chunk_id)
        (field (codes "exactQuote") (string e.exact_quote) end)))

-- The ranking components are an object of ten numbers, in which no id can stand.
unfoldable pub json_of_candidate : CandidateGap → Json
unfolding json_of_claim items_of
json_of_candidate c = object (
    field (codes "cohortId") (string c.cohort_id) (
      field (codes "journeyStage") literal (
        field (codes "gapType") literal (
          field (codes "title") (string c.title) (
            field (codes "customerQuestionOrBelief") (string c.customer_question_or_belief) (
              field (codes "missingDecisionSupport")
                (array (items_of string c.missing_decision_support))
                (field (codes "commercialConsequence") (string c.commercial_consequence) (
                  field (codes "recommendedContentRole") literal (
                    field (codes "recommendedAssetType") literal (
                      field (codes "suggestedTouchpoint") (string c.suggested_touchpoint) (
                        field (codes "generationReason") (string c.generation_reason) (
                          field (codes "evidence") (array (items_of json_of_claim c.evidence))
                            (field (codes "rankingComponents") (object end) end)))))))))))))

unfoldable pub json_of_candidates : CandidateGapResponse → Json
unfolding json_of_candidate items_of
json_of_candidates r =
    object (field (codes "candidates") (array (items_of json_of_candidate r.candidates)) end)
