-- ===== src/Engine/Chunking/Offsets.antt =====
-- Each piece stands in the body at its offsets, unless three newlines follow one another.
use content_gap.Prelude.{
  ℕ, ◌+◌, ◌≤◌, false, not, ◌&&◌, List, [], ◌∷◌, ◌++◌, ◌≡◌, refl, ap, sym, subst, ◌∙◌, ◌≢◌, inl, inr,
  arith, if◌then◌else◌, Bool-cases, leb, ltb, length, drop, length-append, append_assoc, append-nil,
  All, All-append,
}
use content_gap.Prelude.Text.{Text, is_empty, slice}
use content_gap.Prelude.TextLemmas.{slice-append, front_of_front}
use content_gap.Engine.Chunking.{
  chunk_chars, newline, Piece, ChunkState, piece_of, flush_full, append_paragraph, chunk_loop,
  last_piece, chunk_start, chunk_paragraphs, split_paragraphs, chunk_text,
}
use content_gap.Engine.Chunking.Paragraphs.{terminated, NoTriple, split_paragraphs-terminated}

abbrev two : Text → Text
two s = newline ∷ newline ∷ s

-- A text that stands in another one, with two newlines behind it.
record StandsIn (whole text : Text) (start : ℕ) : Type 0 where
  pre : Text
  post : Text
  parts : whole ≡ pre ++ (text ++ two post)
  start_is : length pre ≡ start

StandsIn-extend :
    {whole text : Text} {start : ℕ} (later : Text)
    → StandsIn whole text start
    → StandsIn (whole ++ later) text start
StandsIn-extend {whole} {text} later h = record {
  pre = h.pre;
  post = h.post ++ later;
  parts =
      ap (λ (s : Text). s ++ later) h.parts
      ∙ append_assoc h.pre (text ++ two h.post) later
      ∙ ap (◌++◌ h.pre) (append_assoc text (two h.post) later);
  start_is = h.start_is;
}

abbrev PieceOk : Text → Piece → Type 0
PieceOk whole p = StandsIn whole p.text p.start × (p.end ≡ p.start + length p.text) × (p.text ≢ [])

-- The same at the end.
record AtEnd (seen text : Text) (start : ℕ) : Type 0 where
  pre : Text
  parts : seen ≡ pre ++ (text ++ two [])
  start_is : length pre ≡ start

record Inv (seen : Text) (s : ChunkState) : Type 0 where
  offset_is : s.offset ≡ length seen
  buffer : s.buf ≢ [] → AtEnd seen s.buf s.buf_start
  pieces_ok : All (PieceOk seen) s.pieces

ne_nil : {t : Text} → is_empty t ≡ false → t ≢ []
ne_nil {t} h e = cc (rw e at h)

AtEnd-StandsIn : {seen text : Text} {start : ℕ} → AtEnd seen text start → StandsIn seen text start
AtEnd-StandsIn h = record { pre = h.pre; post = []; parts = h.parts; start_is = h.start_is }

flushed-PieceOk :
    (seen buf : Text) (start : ℕ)
    → buf ≢ []
    → AtEnd seen buf start
    → PieceOk seen (piece_of buf start)
flushed-PieceOk seen buf start ne h = (AtEnd-StandsIn h, refl, ne)

flush_full-Inv : (p seen : Text) (s : ChunkState) → Inv seen s → Inv seen (flush_full p s)
unfolding flush_full
flush_full-Inv p seen s v =
    elim (Bool-cases (not (is_empty s.buf) && ltb chunk_chars (length s.buf + length p))) [
      | inr e ↦ rw e v
      | inl e ↦
          let ne : s.buf ≢ [] = ne_nil (ground arith) in
          rw e (record {
            offset_is = v.offset_is;
            buffer = λ absurd_ne. absurd (absurd_ne refl);
            pieces_ok =
                All-append (PieceOk seen) s.pieces (piece_of s.buf s.buf_start ∷ []) v.pieces_ok
                  (flushed-PieceOk seen s.buf s.buf_start ne (v.buffer ne), tt);
          })
    ]

PieceOk-extend :
    {seen : Text} (later : Text) (p : Piece) → PieceOk seen p → PieceOk (seen ++ later) p
PieceOk-extend later p h = (StandsIn-extend later h.0, h.1, h.2)

pieces_extend :
    (seen later : Text) (ps : List Piece) → All (PieceOk seen) ps → All (PieceOk (seen ++ later)) ps
pieces_extend seen later [] h = tt
pieces_extend seen later (p ∷ ps) h = (PieceOk-extend later p h.0, pieces_extend seen later ps h.1)

buffer_after :
    (p seen buf : Text) (start offset : ℕ)
    → offset ≡ length seen
    → (buf ≢ [] → AtEnd seen buf start)
    → AtEnd
        (seen ++ (p ++ two []))
        (if is_empty buf then p else buf ++ two p)
        (if is_empty buf then offset else start)
buffer_after p seen [] start offset o h = record { pre = seen; parts = refl; start_is = sym o }
buffer_after p seen (c ∷ buf) start offset o h =
    let a = h (λ e. cc) in
    record {
      pre = a.pre;
      parts =
          ap (λ (s : Text). s ++ (p ++ two [])) a.parts
          ∙ append_assoc a.pre (c ∷ buf ++ two []) (p ++ two [])
          ∙ ap (◌++◌ a.pre) (regroup (c ∷ buf));
      start_is = a.start_is;
    }
  where
    regroup : (b : Text) → (b ++ two []) ++ (p ++ two []) ≡ (b ++ two p) ++ two []
    regroup b = simp append_assoc

append_paragraph-Inv :
    (p seen : Text) (s : ChunkState)
    → Inv seen s
    → Inv (seen ++ (p ++ two [])) (append_paragraph p s)
unfolding append_paragraph
append_paragraph-Inv p seen s v = record {
  offset_is =
      omega
        (arith, v.offset_is, length-append {0} seen (p ++ two []), length-append {0} p (two []));
  buffer = λ ne. buffer_after p seen s.buf s.buf_start s.offset v.offset_is v.buffer;
  pieces_ok = pieces_extend seen (p ++ two []) s.pieces v.pieces_ok;
}

chunk_loop-Inv :
    (ps : List Text) (seen : Text) (s : ChunkState)
    → Inv seen s
    → Inv (seen ++ terminated ps) (chunk_loop s ps)
unfolding chunk_loop
chunk_loop-Inv [] seen s v = rw (append-nil seen) v
chunk_loop-Inv (p ∷ ps) seen s v =
    let next =
      chunk_loop-Inv ps (seen ++ (p ++ two [])) (append_paragraph p (flush_full p s))
        (append_paragraph-Inv p seen (flush_full p s) (flush_full-Inv p seen s v)) in
    let e : (seen ++ (p ++ two [])) ++ terminated ps ≡ seen ++ terminated (p ∷ ps) =
      simp append_assoc in
    subst (λ t. Inv t (chunk_loop (append_paragraph p (flush_full p s)) ps)) e next

chunk_paragraphs-PieceOk : (ps : List Text) → All (PieceOk (terminated ps)) (chunk_paragraphs ps)
unfolding chunk_paragraphs
chunk_paragraphs-PieceOk ps = finish (chunk_loop chunk_start ps) (
    chunk_loop-Inv ps [] chunk_start
      (record { offset_is = refl; buffer = λ ne. absurd (ne refl); pieces_ok = tt }))
  where
    finish : (s : ChunkState) → Inv (terminated ps) s → All (PieceOk (terminated ps)) (last_piece s)
    finish s v = elim (Bool-cases (is_empty s.buf)) [
      | inl e ↦ rw (last_piece, e) v.pieces_ok
      | inr e ↦
          rw (last_piece, e)
            (All-append (PieceOk (terminated ps)) s.pieces (piece_of s.buf s.buf_start ∷ [])
              v.pieces_ok
              (flushed-PieceOk _ s.buf s.buf_start (ne_nil e) (v.buffer (ne_nil e)), tt))
    ]

-- The piece is the part of the body that its offsets delimit.
abbrev pub IsSlice : Text → Piece → Type 0
IsSlice body p = (slice body p.start p.end ≡ p.text) × (p.start ≤ p.end) × (p.end ≤ length body)

front_fits :
    (body pre text post : Text)
    → body ++ two [] ≡ (pre ++ text) ++ two post
    → length (pre ++ text) ≤ length body
front_fits body pre text post e = omega (
  arith,
  length-append {0} (pre ++ text) (two post),
  length-append {0} body (two []),
  ap (length {A = ℕ}) e,
)

slice_of_front :
    (body pre text : Text) (i : ℕ)
    → length pre ≡ i
    → body ≡ (pre ++ text) ++ drop (length (pre ++ text)) body
    → slice body i (i + length text) ≡ text
slice_of_front body pre text i e h =
    let rest = drop (length (pre ++ text)) body in
    ap (λ (s : Text). slice s i (i + length text)) (h ∙ append_assoc pre text rest)
    ∙ subst (λ j. slice (pre ++ (text ++ rest)) j (j + length text) ≡ text) e
        (slice-append pre text rest)

PieceOk-IsSlice : (body : Text) (p : Piece) → PieceOk (body ++ two []) p → IsSlice body p
PieceOk-IsSlice body p (h, e, ne) =
    let split = h.parts ∙ sym (append_assoc h.pre p.text (two h.post)) in
    let fits = front_fits body h.pre p.text h.post split in
    let front = front_of_front body (two []) (h.pre ++ p.text) (two h.post) split fits in
    (
      subst (λ j. slice body p.start j ≡ p.text) (sym e)
          (slice_of_front body h.pre p.text p.start h.start_is front),
      omega arith,
      omega (arith, length-append {0} h.pre p.text, h.start_is),
    )

pieces-IsSlice :
    (body : Text) (ps : List Piece) → All (PieceOk (body ++ two [])) ps → All (IsSlice body) ps
pieces-IsSlice body [] h = tt
pieces-IsSlice body (p ∷ ps) h = (PieceOk-IsSlice body p h.0, pieces-IsSlice body ps h.1)

whole-IsSlice : (body : Text) → IsSlice body (piece_of body 0)
whole-IsSlice body = (
  subst (λ (s : Text). slice s 0 (0 + length body) ≡ body) (append-nil body)
      (slice-append [] body []),
  omega arith,
  omega arith,
)

-- If no three newlines follow one another in a body, the offsets of each of its pieces delimit the
-- piece's text in the body.
pub chunk_text-IsSlice : (body : Text) → NoTriple body → All (IsSlice body) (chunk_text body)
unfolding chunk_text
chunk_text-IsSlice body h = elim (Bool-cases (leb (length body) chunk_chars)) [
  | inl e ↦ rw e (whole-IsSlice body, tt)
  | inr e ↦ rw e (
      pieces-IsSlice body (chunk_paragraphs (split_paragraphs body)) (
        subst (λ t. All (PieceOk t) (chunk_paragraphs (split_paragraphs body)))
          (split_paragraphs-terminated body h) (chunk_paragraphs-PieceOk (split_paragraphs body))))
]
