-- ===== src/Shared/Priority/Bounds.antt =====
-- Bounds of the priority score, and how it depends on the components.
use content_gap.Prelude.{ℕ, ◌+◌, ◌*◌, ◌≤◌, List, [], ◌∷◌, ◌≡◌, refl, arith}
use content_gap.Shared.Priority.{
  Number, nan, infinity, neg_infinity, nonneg, neg, int, clamp05, RankingComponents, RankingKey,
  ranking_weights, ranking_keys, component, score_from, compute_priority_score, max_priority_score,
  max_priority_from,
}

pub clamp05-le : (n : Number) → clamp05 n ≤ 5
unfolding clamp05
clamp05-le nan = omega arith
clamp05-le infinity = omega arith
clamp05-le neg_infinity = omega arith
clamp05-le (nonneg n d) = omega arith
clamp05-le (neg n d) = omega arith

-- An integer from 0 to 5 is kept.
pub clamp05-int : (n : ℕ) → n ≤ 5 → clamp05 (int n) ≡ n
unfolding clamp05
clamp05-int n h = omega arith

score_from-le :
    (c : RankingComponents) (s m : ℕ) (ks : List RankingKey)
    → s ≤ m
    → score_from c s ks ≤ max_priority_from m ks
unfolding score_from max_priority_from
score_from-le c s m [] h = h
score_from-le c s m (k ∷ ks) h =
    score_from-le c (s + clamp05 (component c k) * ranking_weights k) (m + ranking_weights k * 5) ks
      (grind (arith, clamp05-le (component c k)))

-- The score never exceeds the maximum that the weights allow, 90, whatever the components hold:
-- NaN, infinities, negative numbers and fractions included.
pub compute_priority_score-le :
    (c : RankingComponents)
    → (compute_priority_score c ≤ max_priority_score) × (max_priority_score ≡ 90)
unfolding compute_priority_score max_priority_score
compute_priority_score-le c = (score_from-le c 0 0 ranking_keys (omega arith), refl)

-- Two components are in order after rounding and clamping.
abbrev pub Below : RankingComponents → RankingComponents → Type 0
Below c c' = (k : RankingKey) → clamp05 (component c k) ≤ clamp05 (component c' k)

score_from_mono :
    (c c' : RankingComponents) (s s' : ℕ) (ks : List RankingKey)
    → Below c c'
    → s ≤ s'
    → score_from c s ks ≤ score_from c' s' ks
unfolding score_from
score_from_mono c c' s s' [] b h = h
score_from_mono c c' s s' (k ∷ ks) b h =
    score_from_mono c c' (s + clamp05 (component c k) * ranking_weights k)
      (s' + clamp05 (component c' k) * ranking_weights k) ks b (grind (arith, b k))

-- Raising components never lowers the score.
pub compute_priority_score_mono :
    (c c' : RankingComponents) → Below c c' → compute_priority_score c ≤ compute_priority_score c'
unfolding compute_priority_score
compute_priority_score_mono c c' b = score_from_mono c c' 0 0 ranking_keys b (omega arith)

-- The weighted sum that the comments of the file give, for integer components from 0 to 5.
pub compute_priority_score_sum :
    (a b c d e f g h i j : ℕ)
    → (a ≤ 5) × (b ≤ 5) × (c ≤ 5) × (d ≤ 5) × (e ≤ 5)
    → (f ≤ 5) × (g ≤ 5) × (h ≤ 5) × (i ≤ 5) × (j ≤ 5)
    → compute_priority_score (record {
      commercial_impact = int a;
      journey_blockage = int b;
      cohort_priority = int c;
      demand_strength = int d;
      coverage_deficit = int e;
      strategic_alignment = int f;
      competitive_opportunity = int g;
      actionability = int h;
      production_feasibility = int i;
      learning_value = int j;
    })
      ≡ 3 * (a + b) + 2 * (c + d + e + f) + g + h + i + j
unfolding compute_priority_score
compute_priority_score_sum a b c d e f g h i j p q = omega (
  arith,
  clamp05-int a p.0,
  clamp05-int b p.1,
  clamp05-int c p.2,
  clamp05-int d p.3,
  clamp05-int e p.4,
  clamp05-int f q.0,
  clamp05-int g q.1,
  clamp05-int h q.2,
  clamp05-int i q.3,
  clamp05-int j q.4,
)
