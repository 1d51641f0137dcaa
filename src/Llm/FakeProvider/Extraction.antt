-- ===== src/Llm/FakeProvider/Extraction.antt =====
-- legacy/packages/llm/src/fake-provider.ts, `extract`: the signals that the offline provider reads in
-- the chunks of a unit.
use content_gap.Prelude.{
  ℕ, zero, suc, ◌+◌, min, Bool, true, false, List, [], ◌∷◌, ◌++◌, Option, none, some, map, find,
  filter, any, take, drop, if◌then◌else◌, length, ◌==◌,
}
use content_gap.Prelude.Text.{Text, codes, trim, slice, index_of, is_empty}
use content_gap.Shared.Enums.{SignalType, JourneyStage, ContentRole}
use content_gap.Shared.Results.{Result}
use content_gap.Shared.IdReferences.{AllowedIds}
use content_gap.Shared.Schemas.Payloads.{ExtractedSignal, ExtractionResponse}
use content_gap.Shared.Schemas.Parsing.{parse_extraction}
use content_gap.Shared.Schemas.Encoding.{json_of_extraction}
use content_gap.Llm.Types.{ExtractionInput, TextChunk}
use content_gap.Llm.Heuristics.{
  Hit, KeywordCohort, detect_signals, detect_journey_stage, match_cohort, detect_language,
}
use content_gap.Llm.Validate.{validate_response}
use mathlib.Core.Option

-- `map[type] ?? type.toLowerCase()`; the two types without an entry are never detected.
unfoldable pub label_of_type : SignalType → Text
label_of_type SignalType.objection = codes "objection"
label_of_type SignalType.proof = codes "proof point"
label_of_type SignalType.desired_outcome = codes "desired outcome"
label_of_type SignalType.decision_criterion = codes "decision criterion"
label_of_type SignalType.pain = codes "pain point"
label_of_type SignalType.cta = codes "call to action"
label_of_type SignalType.claim = codes "claim"
label_of_type SignalType.alternative = codes "alternative comparison"
label_of_type SignalType.question = codes "customer question"
label_of_type SignalType.belief = codes "belief"
label_of_type SignalType.trigger = codes "trigger"
label_of_type SignalType.commercial_consequence = codes "commercial_consequence"

unfoldable pub normalize_label : SignalType → Text → Text
unfolding label_of_type
normalize_label type term = slice (label_of_type type ++ (codes ": " ++ term)) 0 200

-- `s.indexOf(c, start)` for a text of one code unit
unfoldable pub index_from : Text → ℕ → ℕ → Option ℕ
unfolding index_of
index_from s c start = Option.map (λ i. start + i) (index_of (drop start s) (c ∷ []))

-- `s.lastIndexOf(c, last) + 1`, which is 0 if there is none
unfoldable pub after_last : Text → ℕ → ℕ → ℕ
after_last [] c last = 0
after_last (a ∷ s) c zero = if a == c then 1 else 0
after_last (a ∷ s) c (suc last) =
    let later = after_last s c last in
    elim later [ zero ↦ if a == c then 1 else 0 | suc k ↦ suc (suc k) ]

-- The candidates for the end of the sentence that are positive.
abbrev positive : Option ℕ → List ℕ
positive none = []
positive (some zero) = []
positive (some (suc n)) = suc n ∷ []

abbrev least : ℕ → List ℕ → ℕ
least n [] = n
least n (m ∷ ms) = least (min n m) ms

unfoldable pub sentence_end : Text → ℕ → ℕ
unfolding index_from
sentence_end text idx =
    let ends =
      positive (index_from text b'.' idx)
      ++ (positive (index_from text 0x61f idx) ++ positive (index_from text b'?' idx)) in
    elim ends [ [] ↦ min (length text) (idx + 160) | n ∷ ns ↦ suc (least n ns) ]

abbrev or_else : Text → Text → Text
or_else s t = if is_empty s then t else s

abbrev is_proof : SignalType → Bool
is_proof SignalType.proof = true
is_proof _ = false

abbrev is_cta : SignalType → Bool
is_cta SignalType.cta = true
is_cta _ = false

abbrev is_objection : SignalType → Bool
is_objection SignalType.objection = true
is_objection _ = false

abbrev is_question : SignalType → Bool
is_question SignalType.question = true
is_question _ = false

abbrev is_claim : SignalType → Bool
is_claim SignalType.claim = true
is_claim _ = false

-- `inferContentRole`
unfoldable pub infer_content_role : List SignalType → ContentRole
infer_content_role types =
    if any is_proof types
    then ContentRole.proof
    else if any is_cta types
    then ContentRole.conversion
    else if any is_objection types
    then ContentRole.bridge
    else if any is_question types
    then ContentRole.value
    else ContentRole.awareness

abbrev stage_code : JourneyStage → ℕ
stage_code JourneyStage.trigger = 0
stage_code JourneyStage.explore = 1
stage_code JourneyStage.evaluate = 2
stage_code JourneyStage.decide = 3
stage_code JourneyStage.experience = 4
stage_code JourneyStage.repeat = 5
stage_code JourneyStage.unknown = 6

-- `stages.add(stage)`
unfoldable pub add_stage : List JourneyStage → JourneyStage → List JourneyStage
add_stage stages stage =
    if any (λ s. stage_code s == stage_code stage) stages then stages else stages ++ (stage ∷ [])

unfoldable pub stages_or_unknown : List JourneyStage → List JourneyStage
stages_or_unknown [] = JourneyStage.unknown ∷ []
stages_or_unknown (s ∷ ss) = s ∷ ss

module _ (to_lower_case : Text → Text) (is_uuid : Text → Bool) where
  unfoldable pub first_sentence_containing : Text → Text → Text
  unfolding sentence_end after_last index_of
  first_sentence_containing text term = elim (index_of (to_lower_case text) (to_lower_case term)) [
    | none ↦ slice text 0 200
    | some idx ↦
        or_else (slice (trim (slice text (after_last text b'.' idx) (sentence_end text idx))) 0 300)
          (slice text 0 200)
  ]

  unfoldable pub signals_of_chunk : List KeywordCohort → TextChunk → List ExtractedSignal
  unfolding detect_signals detect_journey_stage match_cohort normalize_label
      first_sentence_containing
  signals_of_chunk cohorts chunk =
      map
        (λ (d : Hit). record {
          type = d.type;
          normalized_label = normalize_label d.type d.term;
          raw_text = first_sentence_containing chunk.text d.term;
          journey_stage = detect_journey_stage to_lower_case chunk.text;
          cohort_id = match_cohort to_lower_case chunk.text cohorts;
          evidence_chunk_id = chunk.id;
        })
        (take 6 (detect_signals to_lower_case chunk.text))

  unfoldable pub signals_of_chunks : List KeywordCohort → List TextChunk → List ExtractedSignal
  unfolding signals_of_chunk
  signals_of_chunks cohorts [] = []
  signals_of_chunks cohorts (chunk ∷ chunks) =
      signals_of_chunk cohorts chunk ++ signals_of_chunks cohorts chunks

  unfoldable pub stages_of_chunks : List JourneyStage → List TextChunk → List JourneyStage
  unfolding add_stage detect_journey_stage
  stages_of_chunks stages [] = stages
  stages_of_chunks stages (chunk ∷ chunks) =
      stages_of_chunks (add_stage stages (detect_journey_stage to_lower_case chunk.text)) chunks

  abbrev cohort_keywords : ExtractionInput → List KeywordCohort
  cohort_keywords input = map (λ c. record { id = c.id; keywords = c.keywords }) input.cohorts

  unfoldable pub raw_extraction : ExtractionInput → ExtractionResponse
  unfolding signals_of_chunks stages_of_chunks stages_or_unknown infer_content_role match_cohort
      detect_language
  raw_extraction input =
      let signals = signals_of_chunks (cohort_keywords input) input.chunks in
      record {
        content_unit_id = input.content_unit.id;
        language = detect_language input.content_unit.body;
        primary_cohort_id =
            match_cohort to_lower_case input.content_unit.body (cohort_keywords input);
        secondary_cohort_ids = [];
        journey_stages = stages_or_unknown (stages_of_chunks [] input.chunks);
        content_role = infer_content_role (map (λ s. s.type) signals);
        signals = signals;
        proof_used =
            take 10 (map (λ s. s.normalized_label) (filter (λ s. is_proof s.type) signals));
        claims = take 10 (map (λ s. s.normalized_label) (filter (λ s. is_claim s.type) signals));
        cta = Option.map (λ s. s.normalized_label) (find (λ s. is_cta s.type) signals);
      }

  abbrev pub allowed_from : ExtractionInput → AllowedIds
  allowed_from input = record {
    chunk_ids = map (λ c. c.id) input.chunks;
    cohort_ids = map (λ c. c.id) input.cohorts;
    content_unit_ids = input.content_unit.id ∷ [];
  }

  -- `extract` less the counting of tokens
  unfoldable pub fake_extraction : ExtractionInput → Result ExtractionResponse
  unfolding raw_extraction validate_response parse_extraction json_of_extraction
  fake_extraction input =
      validate_response (parse_extraction is_uuid) json_of_extraction (raw_extraction input)
        (allowed_from input)
