-- ===== src/Tests/Guards.antt =====
-- Evidence statuses and the guard on ids of legacy/packages/shared.
use content_gap.Prelude.{true, false, [], ◌∷◌, ◌≡◌, ◌≢◌, refl, ◌↔◌, ◌⊎◌, none}
use content_gap.Prelude.Text.{Text, codes, has, text_eq}
use content_gap.Shared.Enums.{OwnerType, EvidenceRole, EvidenceStatus, CoverageStatus}
use content_gap.Shared.EvidenceStatus.{EvidenceInputItem, classify_evidence_status, is_first_party}
use content_gap.Shared.EvidenceStatus.Laws.{
  Verified, Independent, classify_evidence_status-strong_iff,
}
use content_gap.Shared.Results.{unknown_id, chunk, cohort, content_unit, ok, err}
use content_gap.Shared.IdReferences.{
  Json, string, array, object, nil, cons, end, field, AllowedIds, chunk_keys, cohort_keys,
  content_unit_keys, validate_id_references,
}
use content_gap.Shared.IdReferences.Occurrences.{Occurs}
use content_gap.Shared.IdReferences.Laws.{
  OnlyAllowed, validate_id_references_iff, validate_id_references-err,
}

abbrev demand : EvidenceInputItem
demand = record { role = EvidenceRole.customer_demand; owner_type = OwnerType.voc; verified = true }

abbrev priority : EvidenceInputItem
priority = record {
  role = EvidenceRole.strategic_priority;
  owner_type = OwnerType.business_brief;
  verified = true;
}

abbrev rival : EvidenceInputItem
rival = record {
  role = EvidenceRole.competitor_context;
  owner_type = OwnerType.competitor;
  verified = true;
}

classify_evidence_status-strong_iff_example :
    ((classify_evidence_status (demand ∷ priority ∷ []) CoverageStatus.weak).status
      ≡ EvidenceStatus.strong_evidence)
    ↔ (Independent (demand ∷ priority ∷ [])
        × Verified (λ e. is_first_party e.owner_type) (demand ∷ priority ∷ [])
        × (CoverageStatus.weak ≢ CoverageStatus.strong))
classify_evidence_status-strong_iff_example =
    classify_evidence_status-strong_iff (demand ∷ priority ∷ []) CoverageStatus.weak

one_demand :
    (classify_evidence_status (demand ∷ []) CoverageStatus.none).status
    ≡ EvidenceStatus.partial_evidence
unfolding classify_evidence_status
one_demand = refl

-- `{ "chunkId": "c1", "secondaryCohortIds": ["k1", "k2"] }`
abbrev value : Json
value = object (
    field (codes "chunkId") (string (codes "c1")) (
      field (codes "secondaryCohortIds")
        (array (cons (string (codes "k1")) (cons (string (codes "k2")) nil))) end))

abbrev allowed : AllowedIds
allowed = record {
  chunk_ids = codes "c1" ∷ [];
  cohort_ids = codes "k1" ∷ [];
  content_unit_ids = [];
}

rejects : validate_id_references value allowed ≡ err (unknown_id cohort (codes "k2"))
unfolding validate_id_references text_eq
rejects = refl

validate_id_references_iff_example :
    (validate_id_references value allowed ≡ ok tt) ↔ OnlyAllowed value allowed
validate_id_references_iff_example = validate_id_references_iff value allowed

validate_id_references-err_example :
    (id : Text) × ((unknown_id cohort (codes "k2") ≡ unknown_id chunk id)
        × Occurs chunk_keys id none value
        × (has allowed.chunk_ids id ≡ false)
      ⊎ (unknown_id cohort (codes "k2") ≡ unknown_id cohort id)
        × Occurs cohort_keys id none value
        × (id ≢ [])
        × (has allowed.cohort_ids id ≡ false)
      ⊎ (unknown_id cohort (codes "k2") ≡ unknown_id content_unit id)
        × Occurs content_unit_keys id none value
        × (has allowed.content_unit_ids id ≡ false))
validate_id_references-err_example = validate_id_references-err value allowed rejects
