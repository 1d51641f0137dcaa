-- ===== src/Llm/FakeProvider/Coverage/Laws.antt =====
-- What the coverage statuses of the offline provider mean.
use content_gap.Prelude.{◌≤◌, ◌<◌, true, false, List, ◌≡◌, ◌↔◌, arith, length, any, all}
use content_gap.Shared.Enums.{CoverageStatus}
use content_gap.Llm.Types.{OwnedUnit}
use content_gap.Llm.FakeProvider.Coverage.{with_proof, coverage_status}

-- Coverage is strong exactly when not all matches are outdated, one of them has proof and one leads to
-- the offer; it is partial exactly when not all are outdated, one has proof and none leads to the
-- offer; and it is oversaturated exactly when four or more match, not all of them outdated, with no
-- proof among them and no unsupported claim.
pub coverage_status-strong_iff :
    (matches : List OwnedUnit)
    → ((coverage_status matches ≡ CoverageStatus.strong) ↔ (
        (all (λ m. m.is_outdated) matches ≡ false)
        × (0 < length (with_proof matches))
        × (any (λ m. m.connects_to_offer) matches ≡ true)))
      × ((coverage_status matches ≡ CoverageStatus.partial) ↔ (
          (all (λ m. m.is_outdated) matches ≡ false)
          × (0 < length (with_proof matches))
          × (any (λ m. m.connects_to_offer) matches ≡ false)))
      × ((coverage_status matches ≡ CoverageStatus.oversaturated) ↔ (
          (all (λ m. m.is_outdated) matches ≡ false)
          × (any (λ m. m.has_unsupported_claim) matches ≡ false)
          × (4 ≤ length matches)
          × (length (with_proof matches) ≡ 0)))
unfolding coverage_status
coverage_status-strong_iff matches = ground arith
