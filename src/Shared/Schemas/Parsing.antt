-- ===== src/Shared/Schemas/Parsing.antt =====
-- legacy/packages/shared/src/schemas.ts: `parse` of the schemas of the model's payloads.
use content_gap.Prelude.{
  ℕ, suc, ◌/◌, ◌%◌, Bool, false, ◌&&◌, List, [], ◌∷◌, Option, none, some, if◌then◌else◌, leb, ◌==◌,
  length, all,
}
use content_gap.Prelude.Text.{Text, trim}
use content_gap.Shared.Results.{zod_error, Result, ok, err, ◌>>=◌}
use content_gap.Shared.Priority.{Number, nonneg, RankingComponents, ranking_keys, component}
use content_gap.Shared.Schemas.Payloads.{
  ExtractedSignal, ExtractionResponse, DecisionSupportNeed, DecisionSupportResponse,
  CoverageClassification, CoverageResponse, EvidenceClaim, CandidateGap, CandidateGapResponse,
  CritiqueVerdict,
}

-- `z.string().trim().min(least).max(most)`
unfoldable pub parse_text : ℕ → ℕ → Text → Result Text
parse_text least most s =
    let t = trim s in if leb least (length t) && leb (length t) most then ok t else err zod_error

abbrev pub short : Text → Result Text
short = parse_text 0 300

abbrev pub short_min1 : Text → Result Text
short_min1 = parse_text 1 300

abbrev pub medium : Text → Result Text
medium = parse_text 0 2000

abbrev pub medium_min1 : Text → Result Text
medium_min1 = parse_text 1 2000

unfoldable pub parse_each {ℓ} : {A : Type ℓ} → (A → Result A) → List A → Result (List A)
parse_each p [] = ok []
parse_each p (x ∷ xs) = do y ← p x; ys ← parse_each p xs; ok (y ∷ ys)

-- `z.array(schema).min(least).max(most)`
unfoldable pub parse_array {ℓ} : {A : Type ℓ} → (A → Result A) → ℕ → ℕ → List A → Result (List A)
unfolding parse_each
parse_array p least most xs =
    if leb least (length xs) && leb (length xs) most then parse_each p xs else err zod_error

-- `schema.nullable()`
abbrev pub parse_nullable {ℓ} : {A : Type ℓ} → (A → Result A) → Option A → Result (Option A)
parse_nullable p none = ok none
parse_nullable p (some a) = do ok (some (← p a))

-- `z.number().int().min(0).max(5)`
unfoldable pub is_rank : Number → Bool
is_rank (nonneg n d) = n % suc d == 0 && leb (n / suc d) 5
is_rank _ = false

unfoldable pub parse_ranking : RankingComponents → Result RankingComponents
unfolding is_rank component
parse_ranking c = if all (λ k. is_rank (component c k)) ranking_keys then ok c else err zod_error

-- zod's test for the shape of a UUID
module _ (is_uuid : Text → Bool) where
  unfoldable pub uuid : Text → Result Text
  uuid s = if is_uuid s then ok s else err zod_error

  unfoldable pub parse_signal : ExtractedSignal → Result ExtractedSignal
  unfolding parse_text uuid
  parse_signal s = do
    normalized_label ← short_min1 s.normalized_label
    raw_text ← medium_min1 s.raw_text
    cohort_id ← parse_nullable uuid s.cohort_id
    evidence_chunk_id ← uuid s.evidence_chunk_id
    ok (record s {
      normalized_label = normalized_label;
      raw_text = raw_text;
      cohort_id = cohort_id;
      evidence_chunk_id = evidence_chunk_id;
    })

  unfoldable pub parse_extraction : ExtractionResponse → Result ExtractionResponse
  unfolding parse_text uuid parse_array parse_signal
  parse_extraction r = do
    content_unit_id ← uuid r.content_unit_id
    primary_cohort_id ← parse_nullable uuid r.primary_cohort_id
    secondary_cohort_ids ← parse_array uuid 0 5 r.secondary_cohort_ids
    journey_stages ← parse_array (λ s. ok s) 1 7 r.journey_stages
    signals ← parse_array parse_signal 0 60 r.signals
    proof_used ← parse_array short 0 30 r.proof_used
    claims ← parse_array short 0 30 r.claims
    cta ← parse_nullable short r.cta
    ok (record r {
      content_unit_id = content_unit_id;
      primary_cohort_id = primary_cohort_id;
      secondary_cohort_ids = secondary_cohort_ids;
      journey_stages = journey_stages;
      signals = signals;
      proof_used = proof_used;
      claims = claims;
      cta = cta;
    })

  unfoldable pub parse_need : DecisionSupportNeed → Result DecisionSupportNeed
  unfolding parse_text uuid parse_array
  parse_need n = do
    cohort_id ← uuid n.cohort_id
    normalized_need ← short_min1 n.normalized_need
    description ← medium n.description
    supporting_chunk_ids ← parse_array uuid 0 20 n.supporting_chunk_ids
    ok (record n {
      cohort_id = cohort_id;
      normalized_need = normalized_need;
      description = description;
      supporting_chunk_ids = supporting_chunk_ids;
    })

  unfoldable pub parse_decision_support : DecisionSupportResponse → Result DecisionSupportResponse
  unfolding parse_array parse_need
  parse_decision_support r = do
    needs ← parse_array parse_need 0 80 r.needs
    ok (record { needs = needs })

  unfoldable pub parse_classification : CoverageClassification → Result CoverageClassification
  unfolding parse_text uuid parse_array
  parse_classification c = do
    need_key ← short_min1 c.need_key
    matched_content_unit_ids ← parse_array uuid 0 20 c.matched_content_unit_ids
    summary ← medium c.summary
    ok (record c {
      need_key = need_key;
      matched_content_unit_ids = matched_content_unit_ids;
      summary = summary;
    })

  unfoldable pub parse_coverage : CoverageResponse → Result CoverageResponse
  unfolding parse_array parse_classification
  parse_coverage r = do
    classifications ← parse_array parse_classification 0 120 r.classifications
    ok (record { classifications = classifications })

  unfoldable pub parse_claim : EvidenceClaim → Result EvidenceClaim
  unfolding parse_text uuid
  parse_claim e = do
    chunk_id ← uuid e.chunk_id
    exact_quote ← medium_min1 e.exact_quote
    ok (record e { chunk_id = chunk_id; exact_quote = exact_quote })

  unfoldable pub parse_candidate : CandidateGap → Result CandidateGap
  unfolding parse_text uuid parse_array parse_claim parse_ranking
  parse_candidate c = do
    cohort_id ← uuid c.cohort_id
    title ← short_min1 c.title
    customer_question_or_belief ← medium c.customer_question_or_belief
    missing_decision_support ← parse_array short 0 20 c.missing_decision_support
    commercial_consequence ← medium c.commercial_consequence
    suggested_touchpoint ← short c.suggested_touchpoint
    generation_reason ← medium c.generation_reason
    evidence ← parse_array parse_claim 0 12 c.evidence
    ranking_components ← parse_ranking c.ranking_components
    ok (record c {
      cohort_id = cohort_id;
      title = title;
      customer_question_or_belief = customer_question_or_belief;
      missing_decision_support = missing_decision_support;
      commercial_consequence = commercial_consequence;
      suggested_touchpoint = suggested_touchpoint;
      generation_reason = generation_reason;
      evidence = evidence;
      ranking_components = ranking_components;
    })

  unfoldable pub parse_candidates : CandidateGapResponse → Result CandidateGapResponse
  unfolding parse_array parse_candidate
  parse_candidates r = do
    candidates ← parse_array parse_candidate 0 60 r.candidates
    ok (record { candidates = candidates })

unfoldable pub parse_verdict : CritiqueVerdict → Result CritiqueVerdict
unfolding parse_text
parse_verdict v = do
  reason ← medium_min1 v.reason
  merge_with_title ← parse_nullable short v.merge_with_title
  ok (record v { reason = reason; merge_with_title = merge_with_title })
