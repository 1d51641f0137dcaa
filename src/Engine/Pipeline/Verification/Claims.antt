-- ===== src/Engine/Pipeline/Verification/Claims.antt =====
-- legacy/packages/analysis-engine/src/pipeline.ts, stage `evidence-verification`: which claims of a
-- candidate are kept as evidence, and as what.
use content_gap.Prelude.{
  ◌<◌, ◌≤◌, true, false, List, [], ◌∷◌, ◌++◌, ◌≡◌, ◌≢◌, refl, sym, ap, ◌∙◌, ◌⊎◌, inl, inr, some,
  Bool-cases, Option-cases, length,
}
use content_gap.Prelude.Text.{Text, slice, trim}
use content_gap.Shared.Schemas.Payloads.{EvidenceClaim}
use content_gap.Database.Tables.{Chunk}
use content_gap.Engine.VerifyEvidence.{verify_quote}
use content_gap.Engine.VerifyEvidence.Laws.{
  SameWords, verify_quote-offsets_valid, verify_quote-Found, verify_quote_iff,
}
use content_gap.Engine.Pipeline.Store.{VerifiedEvidence, Corpus, chunk_by_id}
use content_gap.Engine.Pipeline.Verification.{keep, keep_verified, verify_claim, verify_claims}

-- A claim that is true: its quote is not blank, and some part of its chunk, which is one of the corpus,
-- agrees with it up to white space.
pub record Stands (corpus : Corpus) (ev : EvidenceClaim) : Type 0 where
  pub chunk : Chunk
  pub known : chunk_by_id corpus ev.chunk_id ≡ some chunk
  pub not_blank : trim ev.exact_quote ≢ []
  pub part :
      (pre : Text) × (w : Text) × (post : Text) × (chunk.text ≡ pre ++ (w ++ post))
      × SameWords w (trim ev.exact_quote)

-- A piece of evidence that a claim gives: the part of the claim's chunk between its offsets, which
-- agrees with the claimed quote up to white space, in the role of the claim.
pub record IsQuoted (corpus : Corpus) (ev : EvidenceClaim) (e : VerifiedEvidence) : Type 0 where
  pub same_role : e.role ≡ ev.role
  pub same_chunk : e.chunk_id ≡ ev.chunk_id
  pub chunk : Chunk
  pub known : chunk_by_id corpus e.chunk_id ≡ some chunk
  pub quoted : e.quote ≡ slice chunk.text e.start e.end
  pub not_empty : e.start < e.end
  pub in_range : e.end ≤ length chunk.text
  pub same_words : SameWords e.quote (trim ev.exact_quote)

-- The evidence is what the true claims give, in their order, and nothing else.
pub data IsKept (corpus : Corpus) : List EvidenceClaim → List VerifiedEvidence → Type 0 where
  nothing : IsKept corpus [] []
  kept :
      {ev : EvidenceClaim} {e : VerifiedEvidence} {evs : List EvidenceClaim}
      {es : List VerifiedEvidence}
      → IsQuoted corpus ev e
      → IsKept corpus evs es
      → IsKept corpus (ev ∷ evs) (e ∷ es)
  dropped :
      {ev : EvidenceClaim} {evs : List EvidenceClaim} {es : List VerifiedEvidence}
      → ¬ Stands corpus ev
      → IsKept corpus evs es
      → IsKept corpus (ev ∷ evs) es

module _ (corpus : Corpus) where
  -- What becomes of one claim.
  abbrev Verdict : EvidenceClaim → Type 0
  Verdict ev =
      ((verify_claim corpus ev ≡ []) × ¬ Stands corpus ev)
      ⊎ ((e : VerifiedEvidence) × (verify_claim corpus ev ≡ e ∷ []) × IsQuoted corpus ev e)

  false-claim :
      (ev : EvidenceClaim) (chunk : Chunk)
      → chunk_by_id corpus ev.chunk_id ≡ some chunk
      → (verify_quote chunk.text ev.exact_quote).verified ≡ false
      → ¬ Stands corpus ev
  false-claim ev chunk k v s =
      let same : s.chunk ≡ chunk = cc (s.known, k) in
      let holds = (verify_quote_iff s.chunk.text ev.exact_quote).1 (s.not_blank, s.part) in
      cc (ap (λ c. (verify_quote c.text ev.exact_quote).verified) (sym same) ∙ holds, v)

  true-claim :
      (ev : EvidenceClaim) (chunk : Chunk)
      → chunk_by_id corpus ev.chunk_id ≡ some chunk
      → (verify_quote chunk.text ev.exact_quote).verified ≡ true
      → (e : VerifiedEvidence) × (verify_claim corpus ev ≡ e ∷ []) × IsQuoted corpus ev e
  unfolding verify_claim keep_verified keep
  true-claim ev chunk k v =
      let found = verify_quote-Found chunk.text ev.exact_quote v in
      let valid = verify_quote-offsets_valid chunk.text ev.exact_quote v in
      (
        record {
          role = ev.role;
          chunk_id = ev.chunk_id;
          quote = slice chunk.text found.start found.end;
          start = found.start;
          end = found.end;
        },
        rw (verify_claim, k, keep_verified, v, valid, found.starts, found.ends, keep),
        record {
          same_role = refl;
          same_chunk = refl;
          chunk = chunk;
          known = k;
          quoted = refl;
          not_empty = found.not_empty;
          in_range = found.in_range;
          same_words = found.same_words;
        },
      )

  verify_claim-Verdict : (ev : EvidenceClaim) → Verdict ev
  unfolding verify_claim keep_verified
  verify_claim-Verdict ev = elim (Option-cases (chunk_by_id corpus ev.chunk_id)) [
    | inl k ↦ inl (rw (verify_claim, k) refl, λ s. cc (s.known, k))
    | inr (chunk, k) ↦ elim (Bool-cases (verify_quote chunk.text ev.exact_quote).verified) [
      | inl v ↦ inr (true-claim ev chunk k v)
      | inr v ↦ inl (rw (verify_claim, k, keep_verified, v) refl, false-claim ev chunk k v)
    ]
  ]

  pub verify_claims-IsKept :
      (evs : List EvidenceClaim) → IsKept corpus evs (verify_claims corpus evs)
  unfolding verify_claims
  verify_claims-IsKept [] = nothing
  verify_claims-IsKept (ev ∷ evs) = elim (verify_claim-Verdict ev) [
    | inl (e, untrue) ↦ rw (verify_claims, e) (dropped untrue (verify_claims-IsKept evs))
    | inr (x, e, q) ↦ rw (verify_claims, e) (kept q (verify_claims-IsKept evs))
  ]
