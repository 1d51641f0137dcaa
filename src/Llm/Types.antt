-- ===== src/Llm/Types.antt =====
-- legacy/packages/llm/src/types.ts: inputs and results of the provider's operations.
use content_gap.Prelude.{ℕ, Bool, List, Option}
use content_gap.Prelude.Text.{Text}
use content_gap.Shared.Enums.{JourneyStage, NeedType, CoverageStatus, GapType, Language, OwnerType}
use content_gap.Shared.Results.{Result}
use content_gap.Shared.Schemas.Payloads.{
  ExtractionResponse, DecisionSupportResponse, CoverageResponse, CandidateGapResponse,
  CritiqueVerdict,
}

pub record LlmUsage : Type 0 where
  pub input_tokens : ℕ
  pub output_tokens : ℕ

pub record LlmResult (T : Type 0) : Type 0 where
  pub content : T
  pub usage : LlmUsage
  pub suspicious_instructions : List Text

pub record TextChunk : Type 0 where
  pub id : Text
  pub text : Text

pub record UnitInput : Type 0 where
  pub id : Text
  pub title : Text
  pub body : Text
  pub language : Language
  pub owner_type : OwnerType

pub record CohortKeywords : Type 0 where
  pub id : Text
  pub name : Text
  pub keywords : List Text

pub record ExtractionInput : Type 0 where
  pub content_unit : UnitInput
  pub chunks : List TextChunk
  pub cohorts : List CohortKeywords

pub record VocSignalInput : Type 0 where
  pub chunk_id : Text
  pub text : Text
  pub cohort_id : Option Text

pub record CohortInput : Type 0 where
  pub id : Text
  pub name : Text
  pub keywords : List Text
  pub objections : List Text
  pub decision_criteria : List Text
  pub active_problem : Text
  pub current_belief : Text
  pub desired_outcome : Text

pub record DecisionSupportInput : Type 0 where
  pub cohorts : List CohortInput
  pub approved_proof : List Text
  pub commercial_priority : Text
  pub voc_signals : List VocSignalInput

pub record CoverageNeed : Type 0 where
  pub need_key : Text
  pub cohort_id : Text
  pub journey_stage : JourneyStage
  pub normalized_need : Text
  pub description : Text

pub record OwnedUnit : Type 0 where
  pub id : Text
  pub title : Text
  pub text : Text
  pub has_proof_signal : Bool
  pub connects_to_offer : Bool
  pub has_cta : Bool
  pub is_outdated : Bool
  pub has_unsupported_claim : Bool
  pub matched_need_keys : List Text

pub record CoverageInput : Type 0 where
  pub needs : List CoverageNeed
  pub owned_units : List OwnedUnit

pub record CohortPriority : Type 0 where
  pub id : Text
  pub name : Text
  pub priority : ℕ

pub record CandidateNeed : Type 0 where
  pub need_key : Text
  pub cohort_id : Text
  pub journey_stage : JourneyStage
  pub normalized_need : Text
  pub need_type : NeedType
  pub coverage_status : CoverageStatus
  pub demand_chunk_ids : List Text
  pub coverage_unit_ids : List Text

pub record EvidenceChunk : Type 0 where
  pub id : Text
  pub text : Text
  pub owner_type : OwnerType

pub record CandidateInput : Type 0 where
  pub cohorts : List CohortPriority
  pub needs : List CandidateNeed
  pub chunks : List EvidenceChunk

pub record CritiqueInput : Type 0 where
  pub title : Text
  pub gap_type : GapType
  pub cohort_id : Text
  pub coverage_status : CoverageStatus
  pub has_verified_customer_demand : Bool
  pub has_verified_owned_coverage_already : Bool
  pub is_duplicate_of_title : Option Text
  pub looks_like_non_content_problem : Bool

pub record LlmProvider : Type 0 where
  pub name : Text
  pub model : Text
  pub extract : ExtractionInput → Result (LlmResult ExtractionResponse)
  pub map_decision_support : DecisionSupportInput → Result (LlmResult DecisionSupportResponse)
  pub classify_coverage : CoverageInput → Result (LlmResult CoverageResponse)
  pub generate_candidates : CandidateInput → Result (LlmResult CandidateGapResponse)
  pub critique : CritiqueInput → Result (LlmResult CritiqueVerdict)
