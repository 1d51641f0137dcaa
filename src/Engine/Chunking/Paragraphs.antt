-- ===== src/Engine/Chunking/Paragraphs.antt =====
-- Splitting a body without a run of three newlines loses nothing: its paragraphs, joined by two
-- newlines, are the body.
use content_gap.Prelude.{
  ℕ, zero, suc, ◌≤◌, false, List, [], ◌∷◌, ◌++◌, ◌≡◌, refl, ap, sym, ◌∙◌, inl, inr, arith,
  if◌then◌else◌, Bool-cases, leb, ◌==◌, ==_iff,
}
use content_gap.Prelude.Text.{Text, includes, starts_with}
use content_gap.Engine.Chunking.{newline, newlines, attach, scan, lead, split_paragraphs}

-- Each paragraph with two newlines behind it.
abbrev pub terminated : List Text → Text
terminated [] = []
terminated (p ∷ ps) = p ++ (newline ∷ newline ∷ terminated ps)

abbrev triple : Text
triple = newline ∷ newline ∷ newline ∷ []

-- No three newlines in a row.
abbrev pub NoTriple : Text → Type 0
NoTriple s = includes s triple ≡ false

NoTriple-tail : (c : ℕ) (s : Text) → NoTriple (c ∷ s) → NoTriple s
unfolding includes
NoTriple-tail c s h = ground arith

starts_triple : (c : ℕ) (s : Text) → NoTriple (c ∷ s) → starts_with (c ∷ s) triple ≡ false
unfolding includes
starts_triple c s h = ground arith

pub record ScanOk (s : Text) (r : ℕ × List Text) : Type 0 where
  pub first : Text
  pub others : List Text
  pub nonempty : r.1 ≡ first ∷ others
  pub whole : s ++ (newline ∷ newline ∷ []) ≡ newlines r.0 ++ terminated r.1
  pub few : r.0 ≤ 2
  pub rest : Text
  pub starts : s ≡ newlines r.0 ++ rest

few_newlines : (k : ℕ) (s rest : Text) → NoTriple (newline ∷ s) → s ≡ newlines k ++ rest → k ≤ 1
unfolding includes starts_with
few_newlines zero s rest h e = omega arith
few_newlines (suc zero) s rest h e = omega arith
few_newlines (suc (suc k)) s rest h e = cc (rw e at h)

attach-terminated :
    (c k : ℕ) (p : Text) (ps : List Text)
    → k ≤ 2
    → terminated (attach c k (p ∷ ps)) ≡ c ∷ (newlines k ++ terminated (p ∷ ps))
unfolding attach
attach-terminated c zero p ps h = refl
attach-terminated c (suc zero) p ps h = refl
attach-terminated c (suc (suc zero)) p ps h = refl
attach-terminated c (suc (suc (suc k))) p ps h = absurd (omega arith)

attach-cons :
    (c k : ℕ) (p : Text) (ps : List Text)
    → (q : Text) × (qs : List Text) × (attach c k (p ∷ ps) ≡ q ∷ qs)
unfolding attach
attach-cons c k p ps = elim (Bool-cases (leb 2 k)) [
  | inl e ↦ (c ∷ [], p ∷ ps, rw e)
  | inr e ↦ (c ∷ (newlines k ++ p), ps, rw e)
]

scan-ScanOk : (s : Text) → NoTriple s → ScanOk s (scan s)
unfolding scan
scan-ScanOk [] h = record {
  first = [];
  others = [];
  nonempty = refl;
  whole = refl;
  few = omega arith;
  rest = [];
  starts = refl;
}
scan-ScanOk (c ∷ s) h = step (scan s) (scan-ScanOk s (NoTriple-tail c s h))
  where
    step :
        (r : ℕ × List Text)
        → ScanOk s r
        → ScanOk (c ∷ s) (if c == newline then (suc r.0, r.1) else (0, attach c r.0 r.1))
    step (k, ps) ok = elim (Bool-cases (c == newline)) [
      | inl e ↦
          let z : c ≡ newline = (==_iff c newline).0 e in
          rw (e, z)
            (record {
              first = ok.first;
              others = ok.others;
              nonempty = ok.nonempty;
              whole = ap (◌∷◌ newline) ok.whole;
              few = omega (arith, few_newlines k s ok.rest (rw z at h) ok.starts);
              rest = ok.rest;
              starts = ap (◌∷◌ newline) ok.starts;
            })
      | inr e ↦
          rw (e, ok.nonempty)
            (let (q, qs, f) = attach-cons c k ok.first ok.others in
              record {
                first = q;
                others = qs;
                nonempty = f;
                whole =
                    ap (◌∷◌ c) (rw ok.nonempty at ok.whole)
                    ∙ sym (attach-terminated c k ok.first ok.others ok.few);
                few = omega arith;
                rest = c ∷ s;
                starts = refl;
              })
    ]

lead-terminated :
    (k : ℕ) (p : Text) (ps : List Text)
    → k ≤ 2
    → terminated (lead (k, p ∷ ps)) ≡ newlines k ++ terminated (p ∷ ps)
unfolding lead
lead-terminated zero p ps h = refl
lead-terminated (suc zero) p ps h = refl
lead-terminated (suc (suc zero)) p ps h = refl
lead-terminated (suc (suc (suc k))) p ps h = absurd (omega arith)

-- The paragraphs of a body without a run of three newlines, each with two newlines behind it, are the
-- body with two newlines behind it.
pub split_paragraphs-terminated :
    (body : Text)
    → NoTriple body
    → terminated (split_paragraphs body) ≡ body ++ (newline ∷ newline ∷ [])
unfolding split_paragraphs
split_paragraphs-terminated body h = go (scan body) (scan-ScanOk body h)
  where
    go :
        (r : ℕ × List Text) → ScanOk body r → terminated (lead r) ≡ body ++ (newline ∷ newline ∷ [])
    go (k, ps) ok =
        ap (λ qs. terminated (lead (k, qs))) ok.nonempty
        ∙ lead-terminated k ok.first ok.others ok.few
        ∙ sym (rw ok.nonempty at ok.whole)
