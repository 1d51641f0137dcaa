-- ===== src/Engine/Pipeline/Verification/Laws.antt =====
-- What the stage `evidence-verification` promises of the evidence that it keeps.
use content_gap.Prelude.{
  ◌<◌, ◌≤◌, false, List, [], ◌∷◌, map, ◌≡◌, refl, inl, inr, some, find, Option-cases, All, length,
}
use content_gap.Prelude.Text.{Text, text_eq, slice}
use content_gap.Shared.EvidenceStatus.{classify_evidence_status}
use content_gap.Shared.Schemas.Payloads.{EvidenceClaim}
use content_gap.Database.Tables.{Chunk, GapCandidate}
use content_gap.Engine.Pipeline.Store.{VerifiedEvidence, Verified, Corpus, chunk_by_id}
use content_gap.Engine.Pipeline.Verification.Claims.{
  IsKept, nothing, kept, dropped, verify_claims-IsKept,
}
use content_gap.Engine.Pipeline.Verification.{
  NeedRow, CoverageEntry, input_item, coverage_of, verify_candidate, verify_candidates,
}

-- A piece of evidence that stands word for word in a chunk of the corpus.
pub record IsExact (corpus : Corpus) (e : VerifiedEvidence) : Type 0 where
  pub chunk : Chunk
  pub known : chunk_by_id corpus e.chunk_id ≡ some chunk
  pub quoted : e.quote ≡ slice chunk.text e.start e.end
  pub not_empty : e.start < e.end
  pub in_range : e.end ≤ length chunk.text

IsKept-IsExact :
    (corpus : Corpus) {evs : List EvidenceClaim} {es : List VerifiedEvidence}
    → IsKept corpus evs es
    → All (IsExact corpus) es
IsKept-IsExact corpus nothing = tt
IsKept-IsExact corpus (kept q k) = (
  record {
    chunk = q.chunk;
    known = q.known;
    quoted = q.quoted;
    not_empty = q.not_empty;
    in_range = q.in_range;
  },
  IsKept-IsExact corpus k,
)
IsKept-IsExact corpus (dropped untrue k) = IsKept-IsExact corpus k

-- What the stage says of a candidate: its data is that of a row with its id; its evidence is what the
-- true claims of this data give, in their order, and nothing else, so that each piece of it stands
-- word for word in a chunk of the corpus; and its status is the one that the rules give this evidence
-- and the coverage of its need, with every piece counted as verified.
pub record IsSupported (corpus : Corpus) (needs : List NeedRow) (coverage : List CoverageEntry)
    (table : List GapCandidate) (v : Verified) : Type 0 where
  pub row : GapCandidate
  pub found : find (λ c. text_eq c.id v.candidate_id) table ≡ some row
  pub same_content : v.content ≡ row.candidate_data
  pub kept : IsKept corpus v.content.evidence v.evidence
  pub exact : All (IsExact corpus) v.evidence
  pub covered : v.coverage_status ≡ (coverage_of corpus needs coverage v.content).status
  pub status :
      v.evidence_status
      ≡ (classify_evidence_status (map (input_item corpus) v.evidence) v.coverage_status).status
  pub not_rejected : v.rejected ≡ false

module _ (corpus : Corpus) (needs : List NeedRow) (coverage : List CoverageEntry)
    (table : List GapCandidate) where
  verify_candidate-IsSupported :
      (id : Text) (row : GapCandidate)
      → find (λ c. text_eq c.id id) table ≡ some row
      → IsSupported corpus needs coverage table (verify_candidate corpus needs coverage id row)
  unfolding verify_candidate
  verify_candidate-IsSupported id row e = record {
    row = row;
    found = e;
    same_content = refl;
    kept = verify_claims-IsKept corpus row.candidate_data.evidence;
    exact = IsKept-IsExact corpus (verify_claims-IsKept corpus row.candidate_data.evidence);
    covered = refl;
    status = refl;
    not_rejected = refl;
  }

  -- Whatever a language model claims, every candidate that leaves the stage is supported: its data is
  -- that of its row; its evidence is what those claims of it give, in their order and nothing else,
  -- whose quote is not blank and agrees up to white space with some part of an existing chunk; each
  -- piece is a nonempty part of that chunk at the stored offsets that agrees with the quote up to white
  -- space, in the role of the claim; its evidence status is what the rules give for this evidence and
  -- the coverage of its need; and it is not rejected yet.
  pub verify_candidates-IsSupported :
      (ids : List Text)
      → All
          (IsSupported corpus needs coverage table)
          (verify_candidates corpus needs coverage table ids)
  unfolding verify_candidates
  verify_candidates-IsSupported [] = tt
  verify_candidates-IsSupported (id ∷ ids) =
      elim (Option-cases (find (λ c. text_eq c.id id) table)) [
        | inl e ↦ rw (verify_candidates, e) (verify_candidates-IsSupported ids)
        | inr (row, e) ↦
            rw (verify_candidates, e)
              (verify_candidate-IsSupported id row e, verify_candidates-IsSupported ids)
      ]
