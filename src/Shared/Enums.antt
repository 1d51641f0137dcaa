-- ===== src/Shared/Enums.antt =====
-- legacy/packages/shared/src/enums.ts: the unions of string literals, as data types.

pub data OwnerType : Type 0 where
  business_brief owned voc competitor : OwnerType

pub data SourceType : Type 0 where
  url sitemap file_txt file_md file_csv file_json capture : SourceType

pub data CrawlMethod : Type 0 where
  http playwright upload capture : CrawlMethod

pub data SourceStatus : Type 0 where
  pending processing processed failed needs_attention : SourceStatus

pub data SignalType : Type 0 where
  question objection belief trigger pain desired_outcome decision_criterion proof claim : SignalType
  alternative cta commercial_consequence : SignalType

pub data JourneyStage : Type 0 where
  trigger explore evaluate decide experience repeat unknown : JourneyStage

pub data ContentRole : Type 0 where
  awareness value bridge proof conversion retention : ContentRole

pub data AssetType : Type 0 where
  article landing_page case_study process_breakdown comparison faq guide proof_asset : AssetType
  video_transcript social_post unknown : AssetType

pub data CoverageStatus : Type 0 where
  none mention_only weak partial strong outdated unsupported oversaturated : CoverageStatus

pub data GapType : Type 0 where
  cohort_coverage_gap journey_stage_gap question_gap objection_gap belief_gap proof_gap : GapType
  offer_connection_gap touchpoint_gap format_gap competitor_white_space freshness_gap : GapType
  duplication_gap saturation_gap evidence_gap : GapType

pub data EvidenceStatus : Type 0 where
  strong_evidence partial_evidence hypothesis : EvidenceStatus

pub data EvidenceRole : Type 0 where
  customer_demand strategic_priority current_coverage competitor_context : EvidenceRole
  commercial_consequence missing_proof : EvidenceRole

pub data PriorityLabel : Type 0 where
  p0_critical_blocker p1_produce_now p2_produce_next p3_validate p4_monitor : PriorityLabel
  p5_reject : PriorityLabel

pub data GapCandidateStatus : Type 0 where
  candidate verified published rejected merged shadow : GapCandidateStatus

pub data RunTriggerType : Type 0 where
  ingestion weekly_refresh manual_setup test : RunTriggerType

pub data RunStatus : Type 0 where
  queued running succeeded partial failed : RunStatus

pub data Language : Type 0 where
  ar en mixed unknown : Language

-- The literal union of `needType` in schemas.ts.
pub data NeedType : Type 0 where
  question objection current_belief required_belief decision_criterion required_proof : NeedType
  risk alternative desired_decision_movement : NeedType

-- The literal union of `action` in `CritiqueVerdictSchema`.
pub data CritiqueAction : Type 0 where
  accept downgrade merge reject mark_non_content : CritiqueAction
