-- ===== src/Shared/Priority.antt =====
-- legacy/packages/shared/src/priority.ts and analysis-engine/src/prioritize.ts: the ranking
-- heuristic and its labels.
pub mod Bounds
pub mod Labels
use content_gap.Prelude.{
  ℕ, suc, ◌+◌, ◌*◌, ◌/◌, min, List, [], ◌∷◌, Bool, true, false, if◌then◌else◌, leb,
}
use content_gap.Shared.Enums.{
  PriorityLabel, p0_critical_blocker, p1_produce_now, p2_produce_next, p3_validate, p4_monitor,
  p5_reject,
}

-- A JavaScript number: NaN, the infinities, `n / (d + 1)`, or `-(n + 1) / (d + 1)`.
pub data Number : Type 0 where
  nan : Number
  infinity neg_infinity : Number
  nonneg : ℕ → ℕ → Number
  neg : ℕ → ℕ → Number

abbrev pub int : ℕ → Number
int n = nonneg n 0

-- `Math.round` of a fraction that is not negative: the nearest integer, halves upwards.
unfoldable pub round : ℕ → ℕ → ℕ
round n d = (2 * n + suc d) / (2 * suc d)

unfoldable pub clamp05 : Number → ℕ
unfolding round
clamp05 nan = 0
clamp05 infinity = 5
clamp05 neg_infinity = 0
clamp05 (nonneg n d) = min 5 (round n d)
clamp05 (neg n d) = 0

pub record RankingComponents : Type 0 where
  pub commercial_impact : Number
  pub journey_blockage : Number
  pub cohort_priority : Number
  pub demand_strength : Number
  pub coverage_deficit : Number
  pub strategic_alignment : Number
  pub competitive_opportunity : Number
  pub actionability : Number
  pub production_feasibility : Number
  pub learning_value : Number

-- `keyof RankingComponents`
pub data RankingKey : Type 0 where
  commercial_impact journey_blockage cohort_priority demand_strength : RankingKey
  coverage_deficit strategic_alignment competitive_opportunity actionability : RankingKey
  production_feasibility learning_value : RankingKey

unfoldable pub ranking_weights : RankingKey → ℕ
ranking_weights commercial_impact = 3
ranking_weights journey_blockage = 3
ranking_weights cohort_priority = 2
ranking_weights demand_strength = 2
ranking_weights coverage_deficit = 2
ranking_weights strategic_alignment = 2
ranking_weights competitive_opportunity = 1
ranking_weights actionability = 1
ranking_weights production_feasibility = 1
ranking_weights learning_value = 1

-- `Object.keys(RANKING_WEIGHTS)`
abbrev pub ranking_keys : List RankingKey
ranking_keys =
    commercial_impact ∷ journey_blockage ∷ cohort_priority ∷ demand_strength ∷ coverage_deficit
    ∷ strategic_alignment ∷ competitive_opportunity ∷ actionability ∷ production_feasibility
    ∷ learning_value ∷ []

-- `c[key]`
unfoldable pub component : RankingComponents → RankingKey → Number
component c commercial_impact = c.commercial_impact
component c journey_blockage = c.journey_blockage
component c cohort_priority = c.cohort_priority
component c demand_strength = c.demand_strength
component c coverage_deficit = c.coverage_deficit
component c strategic_alignment = c.strategic_alignment
component c competitive_opportunity = c.competitive_opportunity
component c actionability = c.actionability
component c production_feasibility = c.production_feasibility
component c learning_value = c.learning_value

-- `MAX_PRIORITY_SCORE`, the fold over the weights
max_priority_from : ℕ → List RankingKey → ℕ
max_priority_from s [] = s
max_priority_from s (k ∷ ks) = max_priority_from (s + ranking_weights k * 5) ks

unfoldable pub max_priority_score : ℕ
unfolding max_priority_from ranking_weights
max_priority_score = max_priority_from 0 ranking_keys

-- The loop of `computePriorityScore`.
score_from : RankingComponents → ℕ → List RankingKey → ℕ
score_from c score [] = score
score_from c score (k ∷ ks) = score_from c (score + clamp05 (component c k) * ranking_weights k) ks

unfoldable pub compute_priority_score : RankingComponents → ℕ
unfolding score_from ranking_weights component
compute_priority_score c = score_from c 0 ranking_keys

pub record Threshold : Type 0 where
  pub least : ℕ
  pub label : PriorityLabel

abbrev pub priority_thresholds : List Threshold
priority_thresholds =
    record { least = 75; label = p0_critical_blocker }
    ∷ record { least = 62; label = p1_produce_now }
    ∷ record { least = 48; label = p2_produce_next }
    ∷ record { least = 34; label = p3_validate }
    ∷ record { least = 1; label = p4_monitor }
    ∷ []

first_reached : List Threshold → ℕ → PriorityLabel
first_reached [] score = p5_reject
first_reached (t ∷ ts) score = if leb t.least score then t.label else first_reached ts score

unfoldable pub priority_label_for : ℕ → Bool → PriorityLabel
unfolding first_reached
priority_label_for score true = p5_reject
priority_label_for score false = first_reached priority_thresholds score

pub record Prioritized : Type 0 where
  pub score : ℕ
  pub label : PriorityLabel

unfoldable pub prioritize : RankingComponents → Bool → Prioritized
prioritize components rejected =
    let score = compute_priority_score components in
    record { score = score; label = priority_label_for score rejected }
