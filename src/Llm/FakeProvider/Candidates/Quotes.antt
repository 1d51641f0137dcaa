-- ===== src/Llm/FakeProvider/Candidates/Quotes.antt =====
-- The evidence that the offline provider cites stands in its chunks.
use content_gap.Prelude.{
  ℕ, zero, suc, ◌-◌, ◌≤◌, true, List, [], ◌∷◌, ◌++◌, append_assoc, some, ◌≡◌, ◌≢◌, refl, sym, ap,
  ◌∙◌, inl, inr, arith, All, Bool-cases, Option-cases, length, drop, take-append-drop, length-take,
}
use content_gap.Prelude.Text.{Text, trim, trim_start, is_space, slice, has, map_get}
use content_gap.Shared.Schemas.Payloads.{EvidenceClaim}
use content_gap.Llm.Types.{EvidenceChunk}
use content_gap.Engine.VerifyEvidence.{verify_quote}
use content_gap.Engine.VerifyEvidence.Laws.{verify_quote_iff}
use content_gap.Llm.FakeProvider.Candidates.{claim_of, evidence_loop, build_evidence}
use mathlib.Core.List.{reverse, reverse-append, reverse-reverse}

-- A part of a text.
record IsPart (part whole : Text) : Type 0 where
  before : Text
  after : Text
  split : whole ≡ before ++ (part ++ after)

trim_start-suffix : (s : Text) → (p : Text) × (s ≡ p ++ trim_start s)
unfolding trim_start
trim_start-suffix [] = ([], refl)
trim_start-suffix (c ∷ s) = elim (Bool-cases (is_space c)) [
  | inl e ↦ let (p, h) = trim_start-suffix s in (c ∷ p, rw (trim_start, e) (ap (◌∷◌ c) h))
  | inr e ↦ ([], rw (trim_start, e) refl)
]

trim-IsPart : (s : Text) → IsPart (trim s) s
unfolding trim
trim-IsPart s =
    let (p, h) = trim_start-suffix s in
    let (q, k) = trim_start-suffix (reverse (trim_start s)) in
    let v = trim_start (reverse (trim_start s)) in
    record {
      before = p;
      after = reverse q;
      split =
          h
          ∙ ap (λ u. p ++ u)
              (sym (reverse-reverse (trim_start s)) ∙ ap reverse k ∙ reverse-append q v);
    }

reassociate : (q p a r t : Text) → q ++ ((p ++ (a ++ r)) ++ t) ≡ (q ++ p) ++ (a ++ (r ++ t))
reassociate q p a r t = simp (append_assoc)

IsPart-trans : (a b c : Text) → IsPart a b → IsPart b c → IsPart a c
IsPart-trans a b c p q = record {
  before = q.before ++ p.before;
  after = p.after ++ q.after;
  split =
      q.split
      ∙ ap (λ u. q.before ++ (u ++ q.after)) p.split
      ∙ reassociate q.before p.before a p.after q.after;
}

less_zero : (n : ℕ) → n - 0 ≡ n
less_zero n = omega arith

slice-IsPart : (s : Text) (n : ℕ) → IsPart (slice s 0 n) s
slice-IsPart s n = record {
  before = [];
  after = drop n s;
  split = rw (less_zero n) (sym (take-append-drop n s));
}

-- The claim quotes a known chunk, and the quote verifies unless it is blank.
pub record IsQuoted (chunks : List EvidenceChunk) (ev : EvidenceClaim) : Type 0 where
  pub chunk : EvidenceChunk
  pub known : map_get (λ c. c.id) ev.chunk_id chunks ≡ some chunk
  pub verified : trim ev.exact_quote ≢ [] → (verify_quote chunk.text ev.exact_quote).verified ≡ true
  pub short : length ev.exact_quote ≤ 240

claim_of-IsQuoted :
    (chunks : List EvidenceChunk) (chunk : EvidenceChunk) (id : Text)
    → map_get (λ c. c.id) id chunks ≡ some chunk
    → IsQuoted chunks (claim_of chunk id)
unfolding claim_of
claim_of-IsQuoted chunks chunk id k =
    let quote = slice (trim chunk.text) 0 240 in
    let part = IsPart-trans (trim quote) quote chunk.text (trim-IsPart quote) (
      IsPart-trans quote (trim chunk.text) chunk.text (slice-IsPart (trim chunk.text) 240)
        (trim-IsPart chunk.text)) in
    record {
      chunk = chunk;
      known = k;
      verified = λ ne.
          (verify_quote_iff chunk.text quote).1
            (ne, (part.before, trim quote, part.after, part.split, refl));
      short = omega (arith, length-take {0} 240 (trim chunk.text));
    }

module _ (chunks : List EvidenceChunk) where
  evidence_loop-IsQuoted :
      (room : ℕ) (seen ids : List Text)
      → All (IsQuoted chunks) (evidence_loop chunks room seen ids)
        × (length (evidence_loop chunks room seen ids) ≤ room)
  unfolding evidence_loop
  evidence_loop-IsQuoted room seen [] = (tt, omega arith)
  evidence_loop-IsQuoted zero seen (id ∷ ids) = (tt, omega arith)
  evidence_loop-IsQuoted (suc room) seen (id ∷ ids) =
      elim (Option-cases (map_get (λ c. c.id) id chunks)) [
        | inl e ↦ rw (evidence_loop, e) (evidence_loop-IsQuoted (suc room) seen ids)
        | inr (chunk, e) ↦ elim (Bool-cases (has seen id)) [
          | inl s ↦ rw (evidence_loop, e, s) (evidence_loop-IsQuoted (suc room) seen ids)
          | inr s ↦
              let rest = evidence_loop-IsQuoted room (id ∷ seen) ids in
              rw (evidence_loop, e, s)
                ((claim_of-IsQuoted chunks chunk id e, rest.0), omega (arith, rest.1))
        ]
      ]

  -- The offline provider cites at most four pieces of evidence for a need, each from a chunk that it
  -- was given and at most 240 characters long; and each passes the pipeline's verification against
  -- this chunk, unless it is blank.
  pub build_evidence-IsQuoted :
      (ids : List Text)
      → All (IsQuoted chunks) (build_evidence chunks ids) × (length (build_evidence chunks ids) ≤ 4)
  unfolding build_evidence
  build_evidence-IsQuoted ids = evidence_loop-IsQuoted 4 [] ids
