-- ===== src/Shared/Priority/Labels.antt =====
-- What the priority labels mean.
use content_gap.Prelude.{ℕ, ◌≤◌, ◌<◌, ◌≡◌, ◌↔◌, ◌⊎◌, Bool, true, false, arith}
use content_gap.Shared.Enums.{
  p0_critical_blocker, p1_produce_now, p2_produce_next, p3_validate, p4_monitor, p5_reject,
}
use content_gap.Shared.Priority.{priority_label_for}

-- Each label is given on exactly one range of scores, and a rejection gives the last label.
pub priority_label_for_iff :
    (score : ℕ) (rejected : Bool)
    → (priority_label_for score rejected ≡ p0_critical_blocker ↔ (rejected ≡ false) × (75 ≤ score))
      × (priority_label_for score rejected ≡ p1_produce_now
          ↔ (rejected ≡ false) × (62 ≤ score) × (score < 75))
      × (priority_label_for score rejected ≡ p2_produce_next
          ↔ (rejected ≡ false) × (48 ≤ score) × (score < 62))
      × (priority_label_for score rejected ≡ p3_validate
          ↔ (rejected ≡ false) × (34 ≤ score) × (score < 48))
      × (priority_label_for score rejected ≡ p4_monitor
          ↔ (rejected ≡ false) × (1 ≤ score) × (score < 34))
      × (priority_label_for score rejected ≡ p5_reject ↔ (rejected ≡ true) ⊎ (score ≡ 0))
unfolding priority_label_for
priority_label_for_iff score true = ground arith
priority_label_for_iff score false = ground arith
