-- ===== src/Llm/FakeProvider/Candidates/Templates.antt =====
-- legacy/packages/llm/src/fake-provider.ts: the tables from which the offline provider fills a gap.
use content_gap.Prelude.{ℕ, List, [], ◌∷◌, ◌++◌}
use content_gap.Prelude.Text.{Text, codes, slice}
use content_gap.Shared.Enums.{
  CoverageStatus, NeedType, GapType, JourneyStage, ContentRole, AssetType,
}

-- `COVERAGE_DEFICIT`
unfoldable pub coverage_deficit_of : CoverageStatus → ℕ
coverage_deficit_of CoverageStatus.none = 5
coverage_deficit_of CoverageStatus.mention_only = 4
coverage_deficit_of CoverageStatus.weak = 4
coverage_deficit_of CoverageStatus.partial = 3
coverage_deficit_of CoverageStatus.outdated = 4
coverage_deficit_of CoverageStatus.unsupported = 4
coverage_deficit_of CoverageStatus.strong = 0
coverage_deficit_of CoverageStatus.oversaturated = 1

abbrev gap_type_of_need : NeedType → GapType
gap_type_of_need NeedType.objection = GapType.objection_gap
gap_type_of_need NeedType.current_belief = GapType.belief_gap
gap_type_of_need NeedType.required_belief = GapType.belief_gap
gap_type_of_need NeedType.required_proof = GapType.proof_gap
gap_type_of_need NeedType.decision_criterion = GapType.offer_connection_gap
gap_type_of_need NeedType.question = GapType.question_gap
gap_type_of_need _ = GapType.journey_stage_gap

unfoldable pub map_need_to_gap_type : NeedType → CoverageStatus → GapType
map_need_to_gap_type need_type CoverageStatus.outdated = GapType.freshness_gap
map_need_to_gap_type need_type CoverageStatus.unsupported = GapType.evidence_gap
map_need_to_gap_type need_type CoverageStatus.oversaturated = GapType.saturation_gap
map_need_to_gap_type need_type _ = gap_type_of_need need_type

abbrev prefix_of : GapType → Text
prefix_of GapType.objection_gap = codes "Missing evidence addressing"
prefix_of GapType.belief_gap = codes "Belief shift needed for"
prefix_of GapType.proof_gap = codes "Missing proof for"
prefix_of GapType.question_gap = codes "Unanswered question:"
prefix_of GapType.offer_connection_gap = codes "No offer connection for"
prefix_of GapType.freshness_gap = codes "Outdated coverage of"
prefix_of GapType.evidence_gap = codes "Unsupported claim around"
prefix_of GapType.saturation_gap = codes "Oversaturated angle:"
prefix_of GapType.journey_stage_gap = codes "Journey-stage gap:"
prefix_of _ = codes "Gap:"

unfoldable pub title_for : GapType → Text → Text
title_for gap_type need = slice (prefix_of gap_type ++ (b' ' ∷ need)) 0 300

unfoldable pub missing_support_for : GapType → List Text
missing_support_for GapType.objection_gap =
    codes "Direct rebuttal" ∷ codes "Operational proof" ∷ codes "Before/after comparison" ∷ []
missing_support_for GapType.proof_gap =
    codes "Case study" ∷ codes "Quantified result" ∷ codes "Third-party validation" ∷ []
missing_support_for GapType.belief_gap =
    codes "Reframe of current belief" ∷ codes "Evidence for better belief" ∷ []
missing_support_for GapType.question_gap = codes "Clear answer" ∷ codes "Worked example" ∷ []
missing_support_for GapType.offer_connection_gap =
    codes "Link to offer mechanism" ∷ codes "Next action" ∷ []
missing_support_for GapType.freshness_gap = codes "Updated data" ∷ codes "Current examples" ∷ []
missing_support_for GapType.evidence_gap =
    codes "Substantiating proof" ∷ codes "Source citation" ∷ []
missing_support_for _ = codes "Decision support" ∷ []

unfoldable pub consequence_for : JourneyStage → Text
consequence_for JourneyStage.evaluate =
    codes "The buyer cannot compare confidently and delays or defaults to a competitor."
consequence_for JourneyStage.decide =
    codes "The buyer stalls at the decision point and the deal slips."
consequence_for JourneyStage.explore =
    codes "The prospect never forms the belief needed to consider the offer."
consequence_for JourneyStage.trigger =
    codes "The prospect does not connect their trigger to this category."
consequence_for _ = codes "Reduced conversion at this stage."

unfoldable pub role_for : GapType → ContentRole
role_for GapType.proof_gap = ContentRole.proof
role_for GapType.evidence_gap = ContentRole.proof
role_for GapType.offer_connection_gap = ContentRole.conversion
role_for GapType.objection_gap = ContentRole.bridge
role_for _ = ContentRole.value

unfoldable pub asset_for : GapType → AssetType
asset_for GapType.objection_gap = AssetType.process_breakdown
asset_for GapType.proof_gap = AssetType.case_study
asset_for GapType.evidence_gap = AssetType.proof_asset
asset_for GapType.question_gap = AssetType.faq
asset_for GapType.offer_connection_gap = AssetType.landing_page
asset_for _ = AssetType.article

unfoldable pub touchpoint_for : JourneyStage → Text
touchpoint_for JourneyStage.decide = codes "LANDING_PAGE_AND_SALES_FOLLOW_UP"
touchpoint_for _ = codes "ARTICLE_AND_NURTURE"
