-- ===== src/Llm/Heuristics/Laws.antt =====
-- Which cohort a text is matched with.
use content_gap.Prelude.{
  ℕ, ◌≤◌, ◌<◌, true, false, ◌&&◌, List, [], ◌∷◌, ◌++◌, Option, none, some, ◌≡◌, refl, ap, ◌↔◌, ◌⊎◌,
  inl, inr, arith, All, Bool-cases, ltb,
}
use content_gap.Prelude.Text.{Text}
use content_gap.Llm.Heuristics.{
  KeywordCohort, Best, keyword_score, beats, best_cohort, match_cohort,
}

abbrev value : Option Best → ℕ
value none = 0
value (some b) = b.score

module _ (to_lower_case : Text → Text) where
  abbrev score : Text → KeywordCohort → ℕ
  score lower c = keyword_score to_lower_case lower c.keywords

  -- The first of the cohorts with the highest count of keywords, which is positive.
  pub record IsFirstBest (lower : Text) (cohorts : List KeywordCohort) (id : Text) : Type 0 where
    pub before : List KeywordCohort
    pub cohort : KeywordCohort
    pub after : List KeywordCohort
    pub split : cohorts ≡ before ++ (cohort ∷ after)
    pub same_id : cohort.id ≡ id
    pub positive : 0 < keyword_score to_lower_case lower cohort.keywords
    pub above : All (λ d. score lower d < score lower cohort) before
    pub not_below : All (λ d. score lower d ≤ score lower cohort) after

  beats_iff :
      (n : ℕ) (best : Option Best)
      → ((ltb 0 n && beats to_lower_case n best) ≡ true) ↔ (value best < n)
  beats_iff n none = ground arith
  beats_iff n (some b) = ground arith

  -- What the loop does to the best cohort so far: it keeps it, or finds the first of the better ones.
  record IsBetter (lower : Text) (best : Option Best) (cohorts : List KeywordCohort)
      (result : Option Best) : Type 0 where
    before : List KeywordCohort
    cohort : KeywordCohort
    after : List KeywordCohort
    split : cohorts ≡ before ++ (cohort ∷ after)
    found : result ≡ some (record { id = cohort.id; score = score lower cohort })
    better : value best < score lower cohort
    above : All (λ d. score lower d < score lower cohort) before
    not_below : All (λ d. score lower d ≤ score lower cohort) after

  abbrev IsKept : Text → Option Best → List KeywordCohort → Option Best → Type 0
  IsKept lower best cohorts result = (result ≡ best) × All (λ d. score lower d ≤ value best) cohorts

  best_cohort-cases :
      (lower : Text) (best : Option Best) (cohorts : List KeywordCohort)
      → IsKept lower best cohorts (best_cohort to_lower_case lower best cohorts)
        ⊎ IsBetter lower best cohorts (best_cohort to_lower_case lower best cohorts)
  unfolding best_cohort
  best_cohort-cases lower best [] = inl (refl, tt)
  best_cohort-cases lower best (c ∷ cohorts) =
      let n = score lower c in
      elim (Bool-cases (ltb 0 n && beats to_lower_case n best)) [
        | inl e ↦
            let b : Option Best = some (record { id = c.id; score = n }) in
            let more = (beats_iff n best).0 e in
            rw (best_cohort, e)
              (elim (best_cohort-cases lower b cohorts) [
                | inl (same, all) ↦ inr record {
                  before = [];
                  cohort = c;
                  after = cohorts;
                  split = refl;
                  found = same;
                  better = more;
                  above = tt;
                  not_below = all;
                }
                | inr r ↦ inr record {
                  before = c ∷ r.before;
                  cohort = r.cohort;
                  after = r.after;
                  split = ap (◌∷◌ c) r.split;
                  found = r.found;
                  better = omega (arith, more, r.better);
                  above = (r.better, r.above);
                  not_below = r.not_below;
                }
              ])
        | inr e ↦
            let less : n ≤ value best = not_more n best e in
            rw (best_cohort, e)
              (elim (best_cohort-cases lower best cohorts) [
                | inl (same, all) ↦ inl (same, (less, all))
                | inr r ↦ inr record {
                  before = c ∷ r.before;
                  cohort = r.cohort;
                  after = r.after;
                  split = ap (◌∷◌ c) r.split;
                  found = r.found;
                  better = r.better;
                  above = (omega (arith, less, r.better), r.above);
                  not_below = r.not_below;
                }
              ])
      ]
    where
      not_more :
          (n : ℕ) (best : Option Best)
          → (ltb 0 n && beats to_lower_case n best) ≡ false
          → n ≤ value best
      not_more n none h = ground arith
      not_more n (some b) h = ground arith

  -- A text is matched with no cohort exactly when no keyword of any cohort stands in it, and otherwise
  -- with a cohort that has the most keywords in it, the first of these in the order of the input.
  pub match_cohort-IsFirstBest :
      (text : Text) (cohorts : List KeywordCohort)
      → ((match_cohort to_lower_case text cohorts ≡ none)
          × All (λ d. keyword_score to_lower_case (to_lower_case text) d.keywords ≤ 0) cohorts)
        ⊎ ((id : Text) × (match_cohort to_lower_case text cohorts ≡ some id)
            × IsFirstBest (to_lower_case text) cohorts id)
  unfolding match_cohort
  match_cohort-IsFirstBest text cohorts =
      elim (best_cohort-cases (to_lower_case text) none cohorts) [
        | inl (same, all) ↦ inl (rw (match_cohort, same) refl, all)
        | inr r ↦ inr (
          r.cohort.id,
          rw (match_cohort, r.found) refl,
          record {
            before = r.before;
            cohort = r.cohort;
            after = r.after;
            split = r.split;
            same_id = refl;
            positive = r.better;
            above = r.above;
            not_below = r.not_below;
          },
        )
      ]
