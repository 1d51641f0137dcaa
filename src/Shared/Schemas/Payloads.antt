-- ===== src/Shared/Schemas/Payloads.antt =====
-- legacy/packages/shared/src/schemas.ts: the types that `z.infer` gives for the model's payloads.
use content_gap.Prelude.{Bool, List, Option}
use content_gap.Prelude.Text.{Text}
use content_gap.Shared.Enums.{
  SignalType, JourneyStage, Language, ContentRole, NeedType, CoverageStatus, GapType, AssetType,
  EvidenceRole, CritiqueAction,
}
use content_gap.Shared.Priority.{RankingComponents}

pub record ExtractedSignal : Type 0 where
  pub type : SignalType
  pub normalized_label : Text
  pub raw_text : Text
  pub journey_stage : JourneyStage
  pub cohort_id : Option Text
  pub evidence_chunk_id : Text

pub record ExtractionResponse : Type 0 where
  pub content_unit_id : Text
  pub language : Language
  pub primary_cohort_id : Option Text
  pub secondary_cohort_ids : List Text
  pub journey_stages : List JourneyStage
  pub content_role : ContentRole
  pub signals : List ExtractedSignal
  pub proof_used : List Text
  pub claims : List Text
  pub cta : Option Text

pub record DecisionSupportNeed : Type 0 where
  pub cohort_id : Text
  pub journey_stage : JourneyStage
  pub need_type : NeedType
  pub normalized_need : Text
  pub description : Text
  pub supporting_chunk_ids : List Text

pub record DecisionSupportResponse : Type 0 where
  pub needs : List DecisionSupportNeed

pub record CoverageClassification : Type 0 where
  pub need_key : Text
  pub coverage_status : CoverageStatus
  pub matched_content_unit_ids : List Text
  pub summary : Text
  pub has_proof : Bool
  pub connects_to_offer : Bool
  pub has_next_action : Bool

pub record CoverageResponse : Type 0 where
  pub classifications : List CoverageClassification

-- An element of `evidence` of a candidate.
pub record EvidenceClaim : Type 0 where
  pub role : EvidenceRole
  pub chunk_id : Text
  pub exact_quote : Text

pub record CandidateGap : Type 0 where
  pub cohort_id : Text
  pub journey_stage : JourneyStage
  pub gap_type : GapType
  pub title : Text
  pub customer_question_or_belief : Text
  pub missing_decision_support : List Text
  pub commercial_consequence : Text
  pub recommended_content_role : ContentRole
  pub recommended_asset_type : AssetType
  pub suggested_touchpoint : Text
  pub generation_reason : Text
  pub evidence : List EvidenceClaim
  pub ranking_components : RankingComponents

pub record CandidateGapResponse : Type 0 where
  pub candidates : List CandidateGap

pub record CritiqueVerdict : Type 0 where
  pub action : CritiqueAction
  pub reason : Text
  pub merge_with_title : Option Text
