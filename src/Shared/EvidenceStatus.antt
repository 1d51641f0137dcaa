-- ===== src/Shared/EvidenceStatus.antt =====
-- legacy/packages/shared/src/evidence-status.ts: the rules that turn evidence into an operating
-- category.
pub mod Keys
pub mod Distinct
pub mod Laws
use content_gap.Prelude.{
  ℕ, Bool, true, false, not, ◌&&◌, ◌||◌, List, [], ◌∷◌, ◌++◌, map, if◌then◌else◌, leb, ltb, ◌==◌,
  length, filter, any, all,
}
use content_gap.Prelude.Text.{Text, codes, text_eq}
use content_gap.Shared.Enums.{OwnerType, EvidenceRole, EvidenceStatus, CoverageStatus}

pub record EvidenceInputItem : Type 0 where
  pub role : EvidenceRole
  pub owner_type : OwnerType
  pub verified : Bool

pub record EvidenceStatusResult : Type 0 where
  pub status : EvidenceStatus
  pub rule_id : Text
  pub explanation : Text

-- The string literals behind the enums that are printed into keys and reasons.
unfoldable pub owner_type_literal : OwnerType → Text
owner_type_literal OwnerType.business_brief = codes "BUSINESS_BRIEF"
owner_type_literal OwnerType.owned = codes "OWNED"
owner_type_literal OwnerType.voc = codes "VOC"
owner_type_literal OwnerType.competitor = codes "COMPETITOR"

unfoldable pub evidence_role_literal : EvidenceRole → Text
evidence_role_literal EvidenceRole.customer_demand = codes "CUSTOMER_DEMAND"
evidence_role_literal EvidenceRole.strategic_priority = codes "STRATEGIC_PRIORITY"
evidence_role_literal EvidenceRole.current_coverage = codes "CURRENT_COVERAGE"
evidence_role_literal EvidenceRole.competitor_context = codes "COMPETITOR_CONTEXT"
evidence_role_literal EvidenceRole.commercial_consequence = codes "COMMERCIAL_CONSEQUENCE"
evidence_role_literal EvidenceRole.missing_proof = codes "MISSING_PROOF"

unfoldable pub coverage_literal : CoverageStatus → Text
coverage_literal CoverageStatus.none = codes "NONE"
coverage_literal CoverageStatus.mention_only = codes "MENTION_ONLY"
coverage_literal CoverageStatus.weak = codes "WEAK"
coverage_literal CoverageStatus.partial = codes "PARTIAL"
coverage_literal CoverageStatus.strong = codes "STRONG"
coverage_literal CoverageStatus.outdated = codes "OUTDATED"
coverage_literal CoverageStatus.unsupported = codes "UNSUPPORTED"
coverage_literal CoverageStatus.oversaturated = codes "OVERSATURATED"

-- `${e.ownerType}:${e.role}`
unfoldable pub source_key : EvidenceInputItem → Text
unfolding owner_type_literal evidence_role_literal
source_key e = owner_type_literal e.owner_type ++ (b':' ∷ evidence_role_literal e.role)

-- The members of `new Set(list)`, in the order of insertion.
unfoldable pub distinct : List Text → List Text
distinct [] = []
distinct (k ∷ ks) = k ∷ filter (λ j. not (text_eq k j)) (distinct ks)

-- `FIRST_PARTY.includes(o)`
abbrev pub is_first_party : OwnerType → Bool
is_first_party OwnerType.business_brief = true
is_first_party OwnerType.voc = true
is_first_party _ = false

abbrev pub is_voc : OwnerType → Bool
is_voc OwnerType.voc = true
is_voc _ = false

abbrev pub is_competitor : OwnerType → Bool
is_competitor OwnerType.competitor = true
is_competitor _ = false

abbrev pub is_customer_demand : EvidenceRole → Bool
is_customer_demand EvidenceRole.customer_demand = true
is_customer_demand _ = false

abbrev pub is_strong : CoverageStatus → Bool
is_strong CoverageStatus.strong = true
is_strong _ = false

-- The values that `classifyEvidenceStatus` computes from its arguments.
pub record EvidenceFacts : Type 0 where
  pub verified : List EvidenceInputItem
  pub distinct_sources : ℕ
  pub has_first_party : Bool
  pub has_customer_demand : Bool
  pub only_competitor : Bool
  pub coverage_insufficient : Bool

unfoldable pub evidence_facts : List EvidenceInputItem → CoverageStatus → EvidenceFacts
evidence_facts evidence owned_coverage =
    let verified = filter (λ e. e.verified) evidence in
    record {
      verified = verified;
      distinct_sources = length (distinct (map source_key verified));
      has_first_party = any (λ e. is_first_party e.owner_type) verified;
      has_customer_demand = any (λ e. is_customer_demand e.role || is_voc e.owner_type) verified;
      only_competitor = ltb 0 (length verified) && all (λ e. is_competitor e.owner_type) verified;
      coverage_insufficient = not (is_strong owned_coverage);
    }

unfoldable pub status_of_facts : EvidenceFacts → EvidenceStatusResult
status_of_facts f =
    if leb 2 (length f.verified)
      && leb 2 f.distinct_sources
      && f.has_first_party
      && f.coverage_insufficient
    then record {
      status = EvidenceStatus.strong_evidence;
      rule_id = codes "STRONG.multi-independent-first-party";
      explanation =
          codes
            "Two or more independent verified evidence items, at least one first-party (strategy or VoC), and owned coverage is demonstrably insufficient.";
    }
    else if length f.verified == 0 || f.only_competitor || not f.has_customer_demand
    then record {
      status = EvidenceStatus.hypothesis;
      rule_id = codes "HYPOTHESIS.inference-or-competitor-only";
      explanation =
          codes
            "The idea rests on inference or mostly competitor context; direct first-party customer demand is not verified.";
    }
    else record {
      status = EvidenceStatus.partial_evidence;
      rule_id = codes "PARTIAL.single-or-indirect";
      explanation =
          codes
            "One credible verified evidence source, or indirect evidence, or ambiguous owned coverage.";
    }

unfoldable pub classify_evidence_status :
    List EvidenceInputItem → CoverageStatus → EvidenceStatusResult
unfolding status_of_facts evidence_facts
classify_evidence_status evidence owned_coverage =
    status_of_facts (evidence_facts evidence owned_coverage)
