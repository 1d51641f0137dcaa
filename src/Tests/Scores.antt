-- ===== src/Tests/Scores.antt =====
-- Scores and labels of legacy/packages/shared/src/priority.ts.
use content_gap.Prelude.{ℕ, ◌≡◌, refl, ◌≤◌, arith}
use content_gap.Shared.Priority.{
  RankingComponents, RankingKey, clamp05, int, component, max_priority_score,
  compute_priority_score,
}
use content_gap.Shared.Priority.Bounds.{compute_priority_score-le, Below}

abbrev components : ℕ → RankingComponents
components n = record {
  commercial_impact = int n;
  journey_blockage = int 4;
  cohort_priority = int 3;
  demand_strength = int 2;
  coverage_deficit = int 5;
  strategic_alignment = int 1;
  competitive_opportunity = int 0;
  actionability = int 4;
  production_feasibility = int 3;
  learning_value = int 9;
}

score_of_components : compute_priority_score (components 5) ≡ 61
unfolding compute_priority_score clamp05
score_of_components = refl

compute_priority_score-le_example :
    (compute_priority_score (components 5) ≤ max_priority_score) × (max_priority_score ≡ 90)
compute_priority_score-le_example = compute_priority_score-le (components 5)

components-Below : Below (components 2) (components 5)
unfolding clamp05 component
components-Below RankingKey.commercial_impact = omega arith
components-Below RankingKey.journey_blockage = omega arith
components-Below RankingKey.cohort_priority = omega arith
components-Below RankingKey.demand_strength = omega arith
components-Below RankingKey.coverage_deficit = omega arith
components-Below RankingKey.strategic_alignment = omega arith
components-Below RankingKey.competitive_opportunity = omega arith
components-Below RankingKey.actionability = omega arith
components-Below RankingKey.production_feasibility = omega arith
components-Below RankingKey.learning_value = omega arith

abbrev score : ℕ
score = 61
