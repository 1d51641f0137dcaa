-- ===== src/Engine/Pipeline/Verification.antt =====
-- legacy/packages/analysis-engine/src/pipeline.ts, stage `evidence-verification`: each candidate keeps
-- the claims whose quotes stand in their chunks, and gets the status that these claims support.
pub mod Claims
pub mod Laws
use mathlib.Core.Option
use content_gap.Prelude.{
  ℕ, Bool, true, false, ◌&&◌, List, [], ◌∷◌, ◌++◌, Option, none, some, map, find, if◌then◌else◌,
}
use content_gap.Prelude.Text.{Text, codes, text_eq, slice, is_empty, map_get}
use content_gap.Shared.Enums.{JourneyStage, NeedType, CoverageStatus, PriorityLabel}
use content_gap.Shared.EvidenceStatus.{
  EvidenceInputItem, coverage_literal, classify_evidence_status,
}
use content_gap.Shared.Schemas.Payloads.{CandidateGap, EvidenceClaim}
use content_gap.Database.Tables.{Chunk, GapCandidate}
use content_gap.Engine.VerifyEvidence.{QuoteVerification, verify_quote, offsets_valid}
use content_gap.Engine.Pipeline.Store.{
  VerifiedEvidence, Verified, Corpus, chunk_by_id, owner_of_chunk,
}

-- An element of `needRows`, and a value of `coverageByNeedKey`.
pub record NeedRow : Type 0 where
  pub id : Text
  pub cohort_id : Text
  pub journey_stage : JourneyStage
  pub need_type : NeedType
  pub normalized_need : Text
  pub supporting_chunk_ids : List Text

pub record Coverage : Type 0 where
  pub status : CoverageStatus
  pub unit_ids : List Text
  pub summary : Text
  pub has_proof : Bool

pub record CoverageEntry : Type 0 where
  pub need_key : Text
  pub coverage : Coverage

abbrev pub need_key_of : Text → Text → Text
need_key_of cohort_id need = cohort_id ++ (b'|' ∷ need)

abbrev no_coverage : Coverage
no_coverage = record {
  status = CoverageStatus.none;
  unit_ids = [];
  summary = [];
  has_proof = false;
}

-- What is pushed for a claim with a verification of its quote.
unfoldable pub keep : EvidenceClaim → Text → Option ℕ → Option ℕ → List VerifiedEvidence
keep ev text (some start) (some end) =
    record {
      role = ev.role;
      chunk_id = ev.chunk_id;
      quote = slice text start end;
      start = start;
      end = end;
    }
    ∷ []
keep ev text _ _ = []

unfoldable pub keep_verified : EvidenceClaim → Text → QuoteVerification → List VerifiedEvidence
unfolding keep
keep_verified ev text v =
    if v.verified && offsets_valid text v.start_offset v.end_offset
    then keep ev text v.start_offset v.end_offset
    else []

module _ (corpus : Corpus) where
  unfoldable pub verify_claim : EvidenceClaim → List VerifiedEvidence
  unfolding keep_verified
  verify_claim ev = elim (chunk_by_id corpus ev.chunk_id) [
    | none ↦ []
    | some chunk ↦ keep_verified ev chunk.text (verify_quote chunk.text ev.exact_quote)
  ]

  -- The loop over the evidence of a candidate.
  unfoldable pub verify_claims : List EvidenceClaim → List VerifiedEvidence
  unfolding verify_claim
  verify_claims [] = []
  verify_claims (ev ∷ evs) = verify_claim ev ++ verify_claims evs

  -- `evForStatus`
  unfoldable pub input_item : VerifiedEvidence → EvidenceInputItem
  unfolding owner_of_chunk
  input_item e = record {
    role = e.role;
    owner_type = owner_of_chunk corpus e.chunk_id;
    verified = true;
  }

module _ (corpus : Corpus) (need_rows : List NeedRow)
    (coverage_by_need_key : List CoverageEntry) where
  unfoldable pub need_id_of : CandidateGap → Option Text
  unfolding map_get
  need_id_of content =
      Option.map (λ n. n.id)
        (map_get (λ n. need_key_of n.cohort_id n.normalized_need)
          (need_key_of content.cohort_id content.customer_question_or_belief) need_rows)

  unfoldable pub coverage_of : CandidateGap → Coverage
  unfolding need_id_of
  coverage_of content = elim (need_id_of content) [
    | none ↦ no_coverage
    | some need_id ↦
        if is_empty need_id
        then no_coverage
        else elim (map_get (λ c. c.need_key) need_id coverage_by_need_key) [
          | none ↦ no_coverage
          | some entry ↦ entry.coverage
        ]
  ]

  unfoldable pub verify_candidate : Text → GapCandidate → Verified
  unfolding verify_claims coverage_of input_item
  verify_candidate candidate_id cand =
      let content = cand.candidate_data in
      let evidence = verify_claims corpus content.evidence in
      let cov = coverage_of content in
      let status_result = classify_evidence_status (map (input_item corpus) evidence) cov.status in
      record {
        candidate_id = candidate_id;
        content = content;
        evidence = evidence;
        evidence_status = status_result.status;
        evidence_status_rule = status_result.rule_id ++ (codes ": " ++ status_result.explanation);
        coverage_status = cov.status;
        coverage_summary =
            if is_empty cov.summary
            then codes "Coverage: " ++ coverage_literal cov.status
            else cov.summary;
        score = 0;
        label = PriorityLabel.p5_reject;
        rejected = false;
        rejection_reason = none;
      }

  -- The stage, given the table of candidates.
  unfoldable pub verify_candidates : List GapCandidate → List Text → List Verified
  unfolding verify_candidate
  verify_candidates table [] = []
  verify_candidates table (candidate_id ∷ ids) =
      let rest = verify_candidates table ids in
      elim (find (λ c. text_eq c.id candidate_id) table) [
        | none ↦ rest
        | some cand ↦ verify_candidate candidate_id cand ∷ rest
      ]
