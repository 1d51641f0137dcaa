-- ===== src/Engine/Chunking/Drift.antt =====
-- Where three newlines follow one another the offsets are wrong: the loop counts two.
use content_gap.Prelude.{
  ℕ, suc, ◌+◌, ◌-◌, ◌<◌, true, false, [], ◌∷◌, ◌++◌, ◌≡◌, refl, ap, sym, ◌∙◌, ◌≢◌, arith, leb, ltb,
  ◌==◌, length, length-append, All, take, drop, drop-append, append_assoc,
}
use content_gap.Prelude.Text.{Text, slice}
use content_gap.Engine.Chunking.{
  chunk_chars, newline, piece_of, scan, split_paragraphs, chunk_paragraphs, chunk_text,
}
use content_gap.Engine.Chunking.Offsets.{IsSlice}

abbrev pub NoNewline : Text → Type 0
NoNewline = All (λ c. (c == newline) ≡ false)

-- Two paragraphs with three newlines between them.
abbrev pub spaced : Text → Text → Text
spaced p q = p ++ (newline ∷ newline ∷ newline ∷ q)

scan-NoNewline : (q : Text) → NoNewline q → scan q ≡ (0, q ∷ [])
unfolding scan
scan-NoNewline [] h = refl
scan-NoNewline (c ∷ q) h = rw (scan-NoNewline q h.1, h.0) refl

scan-spaced :
    (c : ℕ) (p q : Text)
    → NoNewline (c ∷ p)
    → NoNewline q
    → scan (spaced (c ∷ p) q) ≡ (0, (c ∷ p) ∷ q ∷ [])
unfolding scan
scan-spaced c [] q h k = rw (scan-NoNewline q k, h.0) refl
scan-spaced c (d ∷ p) q h k = rw (scan-spaced d p q h.1 k, h.0) refl

split_paragraphs-spaced :
    (c : ℕ) (p q : Text)
    → NoNewline (c ∷ p)
    → NoNewline q
    → split_paragraphs (spaced (c ∷ p) q) ≡ (c ∷ p) ∷ q ∷ []
unfolding split_paragraphs
split_paragraphs-spaced c p q h k = rw (scan-spaced c p q h k)

chunk_paragraphs_two :
    (c : ℕ) (p : Text) (d : ℕ) (q : Text)
    → chunk_chars < length (c ∷ p) + length (d ∷ q)
    → chunk_paragraphs ((c ∷ p) ∷ (d ∷ q) ∷ [])
      ≡ piece_of (c ∷ p) 0 ∷ piece_of (d ∷ q) (length (c ∷ p) + 2) ∷ []
unfolding chunk_paragraphs
chunk_paragraphs_two c p d q h =
    let full : ltb chunk_chars (length (c ∷ p) + length (d ∷ q)) ≡ true = ground arith in
    let offset : 0 + (length (c ∷ p) + 2) ≡ length (c ∷ p) + 2 = omega arith in
    rw (full, offset) refl

slice_head :
    (body : Text) (i n d : ℕ) (q r : Text)
    → drop i body ≡ newline ∷ r
    → slice body i (i + suc n) ≡ d ∷ q
    → newline ≡ d
slice_head body i n d q r e h =
    let width : i + suc n - i ≡ suc n = omega arith in
    let same : take (suc n) (newline ∷ r) ≡ d ∷ q = rw (width, e) at h in cc

newline-ne : (d : ℕ) → (d == newline) ≡ false → newline ≢ d
newline-ne d h e = ground arith

-- A body of two paragraphs that do not fit one piece, with three newlines between them, is cut at the
-- right place, and the offsets of the second piece do not delimit its text.
pub chunk_text_drift :
    (c : ℕ) (p : Text) (d : ℕ) (q : Text)
    → NoNewline (c ∷ p)
    → NoNewline (d ∷ q)
    → chunk_chars < length (c ∷ p) + length (d ∷ q)
    → (chunk_text (spaced (c ∷ p) (d ∷ q))
        ≡ piece_of (c ∷ p) 0 ∷ piece_of (d ∷ q) (length (c ∷ p) + 2) ∷ [])
      × ¬ IsSlice (spaced (c ∷ p) (d ∷ q)) (piece_of (d ∷ q) (length (c ∷ p) + 2))
unfolding chunk_text
chunk_text_drift c p d q h k long = (cut, wrong)
  where
    body : Text
    body = spaced (c ∷ p) (d ∷ q)

    too_long : leb (length body) chunk_chars ≡ false
    too_long =
        longer (length body)
          (omega (arith, length-append {0} p (newline ∷ newline ∷ newline ∷ d ∷ q)))
      where
        longer : (n : ℕ) → chunk_chars < n → leb n chunk_chars ≡ false
        longer n l = ground arith

    cut : chunk_text body ≡ piece_of (c ∷ p) 0 ∷ piece_of (d ∷ q) (length (c ∷ p) + 2) ∷ []
    cut =
        rw (chunk_text, too_long, split_paragraphs-spaced c p (d ∷ q) h k)
          (chunk_paragraphs_two c p d q long)

    wrong : ¬ IsSlice body (piece_of (d ∷ q) (length (c ∷ p) + 2))
    wrong (e, _, _) =
        let front = (c ∷ p) ++ (newline ∷ newline ∷ []) in
        let size : length front ≡ length (c ∷ p) + 2 =
          length-append (c ∷ p) (newline ∷ newline ∷ []) in
        let whole : body ≡ front ++ (newline ∷ d ∷ q) =
          sym (append_assoc (c ∷ p) (newline ∷ newline ∷ []) (newline ∷ d ∷ q)) in
        let after : drop (length (c ∷ p) + 2) body ≡ newline ∷ d ∷ q =
          ap (λ n. drop n body) (sym size)
          ∙ ap (drop (length front)) whole
          ∙ drop-append front (newline ∷ d ∷ q) in
        newline-ne d k.0 (slice_head body (length (c ∷ p) + 2) (length q) d q (d ∷ q) after e)
