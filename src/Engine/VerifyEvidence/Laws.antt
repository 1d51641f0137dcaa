-- ===== src/Engine/VerifyEvidence/Laws.antt =====
-- A quote is verified exactly when the chunk holds it, up to white space, at the offsets given.
use content_gap.Prelude.{
  ℕ, zero, suc, ◌+◌, ◌-◌, ◌≤◌, ◌<◌, true, false, [], ◌∷◌, ◌++◌, ◌≡◌, refl, ap, sym, ◌∙◌, ◌≢◌, ◌↔◌,
  inl, inr, some, arith, if◌then◌else◌, ltb, leb, ◌&&◌, Option-cases, length, take, drop,
  take-append-drop,
}
use content_gap.Prelude.Text.{Text, slice, trim, index_of, is_empty}
use content_gap.Prelude.TextLemmas.{index_of-slice, index_of-append}
use content_gap.Engine.VerifyEvidence.{
  pattern_of, exec, QuoteVerification, not_verified, verified_at, search_quote, verify_quote,
  offsets_valid,
}
use content_gap.Engine.VerifyEvidence.Patterns.{Matches-pattern_of_iff, pattern_of-ne-nil}
use content_gap.Engine.VerifyEvidence.Exec.{exec_sound, exec_complete}

-- The texts agree up to the lengths of runs of white space and the characters in them.
abbrev pub SameWords : Text → Text → Type 0
SameWords w q = pattern_of w ≡ pattern_of q

-- Where the verification says that the quote stands, and how exactly.
pub record Found (chunk_text trimmed : Text) (v : QuoteVerification) : Type 0 where
  pub start : ℕ
  pub end : ℕ
  pub starts : v.start_offset ≡ some start
  pub ends : v.end_offset ≡ some end
  pub in_range : end ≤ length chunk_text
  pub not_empty : start < end
  pub same_words : SameWords (slice chunk_text start end) trimmed
  pub exact : v.normalized ≡ false → slice chunk_text start end ≡ trimmed

pattern_of-nil : pattern_of [] ≡ []
unfolding pattern_of
pattern_of-nil = refl

omega-zero : (i : ℕ) → i + 0 - i ≡ 0
omega-zero i = omega arith

Found-exact :
    (chunk_text : Text) (c : ℕ) (t : Text) (i : ℕ)
    → index_of chunk_text (c ∷ t) ≡ some i
    → Found chunk_text (c ∷ t) (verified_at i (i + length (c ∷ t)) false)
Found-exact chunk_text c t i h =
    let (same, fits) = index_of-slice chunk_text (c ∷ t) i h in
    record {
      start = i;
      end = i + length (c ∷ t);
      starts = refl;
      ends = refl;
      in_range = fits;
      not_empty = omega arith;
      same_words = ap pattern_of same;
      exact = λ e. same;
    }

Found-normalized :
    (chunk_text : Text) (c : ℕ) (t : Text) (i n : ℕ)
    → exec (pattern_of (c ∷ t)) chunk_text ≡ some (i, n)
    → Found chunk_text (c ∷ t) (verified_at i (i + n) true)
Found-normalized chunk_text c t i n h =
    let (m, fits) = exec_sound (pattern_of (c ∷ t)) chunk_text i n h in
    let same = (Matches-pattern_of_iff (c ∷ t) (slice chunk_text i (i + n))).0 m in
    record {
      start = i;
      end = i + n;
      starts = refl;
      ends = refl;
      in_range = fits;
      not_empty = positive n same;
      same_words = same;
      exact = λ e. cc;
    }
  where
    positive : (n : ℕ) → SameWords (slice chunk_text i (i + n)) (c ∷ t) → i < i + n
    positive zero same =
        let nothing : slice chunk_text i (i + 0) ≡ [] = rw (omega-zero i) refl in
        absurd (pattern_of-ne-nil c t (sym same ∙ ap pattern_of nothing ∙ pattern_of-nil))
    positive (suc k) same = omega arith

search_quote-Found :
    (chunk_text : Text) (c : ℕ) (t : Text)
    → (search_quote chunk_text (c ∷ t)).verified ≡ true
    → Found chunk_text (c ∷ t) (search_quote chunk_text (c ∷ t))
unfolding search_quote
search_quote-Found chunk_text c t h = elim (Option-cases (index_of chunk_text (c ∷ t))) [
  | inr (i, e) ↦ rw (e, search_quote) (Found-exact chunk_text c t i e)
  | inl e ↦ elim (Option-cases (exec (pattern_of (c ∷ t)) chunk_text)) [
    | inr ((i, n), f) ↦ rw (e, f, search_quote) (Found-normalized chunk_text c t i n f)
    | inl f ↦ cc (rw (e, f, search_quote) at h)
  ]
]

search_quote_complete :
    (pre w post : Text) (t : Text)
    → SameWords w t
    → (search_quote (pre ++ (w ++ post)) t).verified ≡ true
unfolding search_quote
search_quote_complete pre w post t same =
    let m = (Matches-pattern_of_iff t w).1 same in
    let (i, n, e, le) = exec_complete (pattern_of t) pre w post m in
    elim (Option-cases (index_of (pre ++ (w ++ post)) t)) [
      | inr (j, f) ↦ rw (f, search_quote)
      | inl f ↦ rw (f, e, search_quote)
    ]

is_empty-false : (t : Text) → t ≢ [] → is_empty t ≡ false
is_empty-false [] ne = absurd (ne refl)
is_empty-false (c ∷ t) ne = refl

in_order : (i j n : ℕ) → i < j → j ≤ n → (ltb i j && leb j n) ≡ true
in_order i j n p q = ground arith

parts_of_slice :
    (s : Text) (i j : ℕ) (t : Text)
    → i ≤ j
    → SameWords (slice s i j) t
    → (pre : Text) × (w : Text) × (post : Text) × (s ≡ pre ++ (w ++ post)) × SameWords w t
parts_of_slice s i j t le same = (
  take i s,
  slice s i j,
  drop (j - i) (drop i s),
  rw (take-append-drop (j - i) (drop i s)) (sym (take-append-drop i s)),
  same,
)

-- A verified quote is not blank; the offsets given delimit a nonempty part of the chunk that agrees
-- with the trimmed quote up to white space, and is the trimmed quote itself unless the result says
-- that it was normalized.
pub verify_quote-Found :
    (chunk_text quote : Text)
    → (verify_quote chunk_text quote).verified ≡ true
    → Found chunk_text (trim quote) (verify_quote chunk_text quote)
unfolding verify_quote
verify_quote-Found chunk_text quote h = go (trim quote) refl h
  where
    go :
        (t : Text)
        → trim quote ≡ t
        → (if is_empty t then not_verified else search_quote chunk_text t).verified ≡ true
        → Found chunk_text t (if is_empty t then not_verified else search_quote chunk_text t)
    go [] e v = cc
    go (c ∷ t) e v = search_quote-Found chunk_text c t v

-- Verification succeeds exactly when the quote is not blank and some part of the chunk agrees with it
-- up to white space.
pub verify_quote_iff :
    (chunk_text quote : Text)
    → ((verify_quote chunk_text quote).verified ≡ true) ↔ (
        (trim quote ≢ [])
        × ((pre : Text) × (w : Text) × (post : Text) × (chunk_text ≡ pre ++ (w ++ post))
            × SameWords w (trim quote)))
unfolding verify_quote
verify_quote_iff chunk_text quote = (to, from)
  where
    to :
        (verify_quote chunk_text quote).verified ≡ true
        → (trim quote ≢ [])
          × ((pre : Text) × (w : Text) × (post : Text) × (chunk_text ≡ pre ++ (w ++ post))
              × SameWords w (trim quote))
    to h =
        let found = verify_quote-Found chunk_text quote h in
        (
          (λ e. cc (rw e at h)),
          parts_of_slice chunk_text found.start found.end (trim quote)
              (omega (arith, found.not_empty)) found.same_words,
        )

    from :
        (trim quote ≢ [])
          × ((pre : Text) × (w : Text) × (post : Text) × (chunk_text ≡ pre ++ (w ++ post))
              × SameWords w (trim quote))
        → (verify_quote chunk_text quote).verified ≡ true
    from (ne, (pre, w, post, e, same)) = rw e (not_blank (trim quote) ne same)
      where
        not_blank :
            (t : Text)
            → t ≢ []
            → SameWords w t
            → (if is_empty t then not_verified else search_quote (pre ++ (w ++ post)) t).verified
              ≡ true
        not_blank [] ne same = absurd (ne refl)
        not_blank (c ∷ t) ne same = search_quote_complete pre w post (c ∷ t) same

-- A quote that stands in the chunk word for word is verified as it is, no later than there.
pub verify_quote-exact :
    (pre quote post : Text)
    → trim quote ≢ []
    → (i : ℕ) × (i ≤ length pre)
      × (verify_quote (pre ++ (trim quote ++ post)) quote
          ≡ verified_at i (i + length (trim quote)) false)
unfolding verify_quote search_quote
verify_quote-exact pre quote post ne =
    let (i, e, le) = index_of-append pre (trim quote) post in
    (i, le, rw (is_empty-false (trim quote) ne, search_quote, e))

-- Whatever is verified has valid offsets: the second test of the pipeline never drops evidence.
pub verify_quote-offsets_valid :
    (chunk_text quote : Text)
    → (verify_quote chunk_text quote).verified ≡ true
    → offsets_valid chunk_text
        (verify_quote chunk_text quote).start_offset
        (verify_quote chunk_text quote).end_offset
      ≡ true
unfolding offsets_valid
verify_quote-offsets_valid chunk_text quote h =
    let found = verify_quote-Found chunk_text quote h in
    rw (found.starts, found.ends, offsets_valid)
      (in_order found.start found.end (length chunk_text) found.not_empty found.in_range)
