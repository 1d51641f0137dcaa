-- ===== src/Database/Tables.antt =====
-- legacy/packages/database/src/schema.ts: the rows that ingestion and the pipeline read and write.
-- Times are numbers of milliseconds, ids are texts, JSON columns have the type of what is stored.
use content_gap.Prelude.{ℕ, Bool, List, Option}
use content_gap.Prelude.Text.{Text}
use content_gap.Shared.Enums.{
  OwnerType, SourceStatus, CrawlMethod, Language, AssetType, SignalType, JourneyStage, NeedType,
  CoverageStatus, GapType, GapCandidateStatus, PriorityLabel, ContentRole, EvidenceStatus,
  EvidenceRole,
}
use content_gap.Shared.Schemas.Payloads.{CandidateGap}
use content_gap.Shared.Priority.{RankingComponents}

pub record Cohort : Type 0 where
  pub id : Text
  pub project_id : Text
  pub name : Text
  pub active_problem : Text
  pub current_belief : Text
  pub desired_outcome : Text
  pub objections : List Text
  pub decision_criteria : List Text
  pub priority : ℕ
  pub exact_language : List Text

pub record Source : Type 0 where
  pub id : Text
  pub project_id : Text
  pub owner_type : OwnerType
  pub competitor_slot : Option ℕ
  pub source_type : Text
  pub name : Text
  pub canonical_url : Option Text
  pub crawl_method : CrawlMethod
  pub refresh_enabled : Bool
  pub last_success_at : Option ℕ
  pub last_failure_at : Option ℕ
  pub status : SourceStatus
  pub error_message : Option Text

pub record SnapshotMetadata : Type 0 where
  pub title : Option Text
  pub published_at : Option Text
  pub competitor_slot : Option ℕ

pub record SourceSnapshot : Type 0 where
  pub id : Text
  pub source_id : Text
  pub content_hash : Text
  pub raw_content : Text
  pub normalized_content : Text
  pub metadata : SnapshotMetadata
  pub is_current : Bool

-- The owner and the slot stand in the unit's `metadata_json`.
pub record ContentUnit : Type 0 where
  pub id : Text
  pub project_id : Text
  pub source_snapshot_id : Text
  pub title : Text
  pub body : Text
  pub language : Language
  pub published_at : Option Text
  pub asset_type : AssetType
  pub url : Option Text
  pub owner_type : OwnerType
  pub competitor_slot : Option ℕ

pub record Chunk : Type 0 where
  pub id : Text
  pub content_unit_id : Text
  pub chunk_index : ℕ
  pub text : Text
  pub start_offset : ℕ
  pub end_offset : ℕ
  pub token_count : ℕ

pub record ExtractedSignalRow : Type 0 where
  pub id : Text
  pub project_id : Text
  pub content_unit_id : Text
  pub chunk_id : Text
  pub signal_type : SignalType
  pub normalized_label : Text
  pub raw_text : Text
  pub cohort_id : Option Text
  pub journey_stage : JourneyStage
  pub evidence_weight : ℕ

pub record DecisionNeed : Type 0 where
  pub id : Text
  pub project_id : Text
  pub cohort_id : Text
  pub journey_stage : JourneyStage
  pub need_type : NeedType
  pub normalized_need : Text
  pub description : Text
  pub evidence : List Text

pub record CoverageCell : Type 0 where
  pub project_id : Text
  pub cohort_id : Text
  pub journey_stage : JourneyStage
  pub need_type : NeedType
  pub normalized_need : Text
  pub coverage_status : CoverageStatus
  pub coverage_strength : ℕ
  pub supporting_asset_count : ℕ
  pub effective_asset_count : ℕ
  pub evidence : List Text

pub record GapCandidate : Type 0 where
  pub id : Text
  pub project_id : Text
  pub run_id : Text
  pub cohort_id : Text
  pub journey_stage : JourneyStage
  pub gap_type : GapType
  pub title : Text
  pub candidate_data : CandidateGap
  pub generation_reason : Text
  pub status : GapCandidateStatus
  pub rejection_reason : Option Text
  pub priority_score : ℕ
  pub priority_label : PriorityLabel
  pub is_shadow_sample : Bool

pub record Gap : Type 0 where
  pub id : Text
  pub project_id : Text
  pub gap_candidate_id : Text
  pub run_id : Text
  pub cohort_id : Text
  pub journey_stage : JourneyStage
  pub gap_type : GapType
  pub title : Text
  pub customer_need : Text
  pub current_coverage_summary : Text
  pub missing_decision_support : List Text
  pub commercial_consequence : Text
  pub recommended_content_role : ContentRole
  pub recommended_asset_type : AssetType
  pub suggested_touchpoint : Text
  pub evidence_status : EvidenceStatus
  pub evidence_status_rule : Text
  pub priority_label : PriorityLabel
  pub priority_score : ℕ
  pub ranking_components : RankingComponents
  pub ranking_reason : Text
  pub status : Text

pub record GapEvidence : Type 0 where
  pub gap_id : Text
  pub source_id : Option Text
  pub source_snapshot_id : Text
  pub content_unit_id : Text
  pub chunk_id : Text
  pub evidence_role : EvidenceRole
  pub exact_quote : Text
  pub quote_start_offset : ℕ
  pub quote_end_offset : ℕ

pub record ProjectToken : Type 0 where
  pub id : Text
  pub project_id : Text
  pub token_hash : Text
  pub label : Text
  pub last_used_at : Option ℕ
  pub expires_at : Option ℕ

pub record Evaluation : Type 0 where
  pub gap_id : Option Text
  pub gap_candidate_id : Option Text
  pub evaluator_name : Text
  pub validity_rating : ℕ
  pub commercial_relevance_rating : ℕ
  pub novelty_rating : ℕ
  pub evidence_quality_rating : ℕ
  pub actionability_rating : ℕ
  pub accepted_into_plan : Bool
