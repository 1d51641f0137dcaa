-- ===== src/Llm/Heuristics.antt =====
-- legacy/packages/llm/src/heuristics.ts: what the offline provider reads in a text.
pub mod Laws
use content_gap.Prelude.{
  ℕ, ◌+◌, ◌*◌, Bool, true, ◌&&◌, ◌||◌, not, List, [], ◌∷◌, ◌++◌, Option, none, some, find, filter,
  length, any, if◌then◌else◌, ltb, leb, ◌==◌,
}
use content_gap.Prelude.Text.{Text, codes, includes, is_empty}
use content_gap.Shared.Enums.{SignalType, JourneyStage, Language}
use content_gap.Llm.Lexicons.{Lexicon, StageTerms, signal_lexicons, stage_lexicon}
use mathlib.Core.Option

abbrev is_arabic : ℕ → Bool
is_arabic c = leb 0x600 c && leb c 0x6ff

abbrev is_latin : ℕ → Bool
is_latin c = leb b'A' c && leb c b'Z' || leb b'a' c && leb c b'z'

-- The branches of `detectLanguage` on the two counts; the ratio is compared without a division.
unfoldable pub language_of_counts : ℕ → ℕ → Language
language_of_counts arabic latin =
    if arabic == 0 && latin == 0
    then Language.unknown
    else if ltb 0 arabic && ltb 0 latin
    then if ltb (3 * (arabic + latin)) (20 * arabic) && ltb (20 * arabic) (17 * (arabic + latin))
      then Language.mixed
      else if leb (17 * (arabic + latin)) (20 * arabic)
      then Language.ar
      else Language.en
    else if ltb 0 arabic
    then Language.ar
    else Language.en

unfoldable pub detect_language : Text → Language
unfolding language_of_counts
detect_language text =
    language_of_counts (length (filter is_arabic text)) (length (filter is_latin text))

-- `/[?…]/.test(text)` with the question mark of either script
unfoldable pub asks : Text → Bool
asks text = any (λ c. c == b'?' || c == 0x61f) text

pub record Hit : Type 0 where
  pub type : SignalType
  pub term : Text

pub record KeywordCohort : Type 0 where
  pub id : Text
  pub keywords : List Text

pub record Best : Type 0 where
  pub id : Text
  pub score : ℕ

-- The first hit of a lexicon.
unfoldable pub lexicon_hit : Text → Lexicon → List Hit
lexicon_hit lower lex = elim (find (includes lower) lex.terms) [
  | none ↦ []
  | some term ↦ record { type = lex.type; term = term } ∷ []
]

unfoldable pub lexicon_hits : Text → List Lexicon → List Hit
unfolding lexicon_hit
lexicon_hits lower [] = []
lexicon_hits lower (lex ∷ rest) = lexicon_hit lower lex ++ lexicon_hits lower rest

unfoldable pub first_stage : Text → List StageTerms → Option JourneyStage
first_stage lower [] = none
first_stage lower (s ∷ rest) =
    let later = first_stage lower rest in
    if any (includes lower) s.terms then some s.stage else later

module _ (to_lower_case : Text → Text) where
  unfoldable pub detect_signals : Text → List Hit
  unfolding lexicon_hits asks
  detect_signals text =
      lexicon_hits (to_lower_case text) signal_lexicons
      ++ (if asks text then record { type = SignalType.question; term = codes "?" } ∷ [] else [])

  unfoldable pub detect_journey_stage : Text → JourneyStage
  unfolding first_stage asks
  detect_journey_stage text = elim (first_stage (to_lower_case text) stage_lexicon) [
    | some stage ↦ stage
    | none ↦ if asks text then JourneyStage.explore else JourneyStage.unknown
  ]

  -- The count of the keywords of a cohort that a text in lower case has.
  unfoldable pub keyword_score : Text → List Text → ℕ
  keyword_score lower keywords =
      length (filter (λ kw. not (is_empty kw) && includes lower (to_lower_case kw)) keywords)

  abbrev pub beats : ℕ → Option Best → Bool
  beats score none = true
  beats score (some best) = ltb best.score score

  -- The loop over the cohorts.
  unfoldable pub best_cohort : Text → Option Best → List KeywordCohort → Option Best
  unfolding keyword_score
  best_cohort lower best [] = best
  best_cohort lower best (c ∷ cohorts) =
      let score = keyword_score lower c.keywords in
      best_cohort lower
        (if ltb 0 score && beats score best
          then some (record { id = c.id; score = score })
          else best)
        cohorts

  unfoldable pub match_cohort : Text → List KeywordCohort → Option Text
  unfolding best_cohort
  match_cohort text cohorts =
      Option.map (λ (best : Best). best.id) (best_cohort (to_lower_case text) none cohorts)
