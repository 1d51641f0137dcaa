-- ===== src/Engine/Chunking/Sizes.antt =====
-- How long the pieces are.
use content_gap.Prelude.{
  ◌+◌, ◌≤◌, false, not, ◌&&◌, List, [], ◌∷◌, ◌++◌, ◌≡◌, refl, ◌⊎◌, inl, inr, arith, if◌then◌else◌,
  Bool-cases, leb, leb→le, ltb, length, length-append, All, All-append,
}
use content_gap.Prelude.Text.{Text, is_empty}
use content_gap.Engine.Chunking.{
  chunk_chars, newline, ChunkState, piece_of, flush_full, append_paragraph, chunk_loop, last_piece,
  chunk_start, chunk_paragraphs, split_paragraphs, chunk_text,
}
use mathlib.Core.List.{Memᴰ}

-- At most the 1200 characters and one separator, or a whole paragraph.
abbrev pub Fits : List Text → Text → Type 0
Fits ps t = (length t ≤ chunk_chars + 2) ⊎ Memᴰ t ps

abbrev SizesOk : List Text → ChunkState → Type 0
SizesOk ps s = Fits ps s.buf × All (λ p. Fits ps p.text) s.pieces

flush_full-SizesOk :
    (ps : List Text) (p : Text) (s : ChunkState)
    → SizesOk ps s
    → SizesOk ps (flush_full p s)
      × (((flush_full p s).buf ≡ []) ⊎ (length (flush_full p s).buf + length p ≤ chunk_chars))
unfolding flush_full
flush_full-SizesOk ps p s v =
    elim (Bool-cases (not (is_empty s.buf) && ltb chunk_chars (length s.buf + length p))) [
      | inl e ↦ rw e (
        (
          inl (omega arith),
          All-append (λ q. Fits ps q.text) s.pieces (piece_of s.buf s.buf_start ∷ []) v.1 (v.0, tt),
        ),
        inl refl,
      )
      | inr e ↦ rw e (v, room s.buf e)
    ]
  where
    room :
        (buf : Text)
        → (not (is_empty buf) && ltb chunk_chars (length buf + length p)) ≡ false
        → (buf ≡ []) ⊎ (length buf + length p ≤ chunk_chars)
    room [] h = inl refl
    room (c ∷ buf) h = inr (ground arith)

append_paragraph-SizesOk :
    (ps : List Text) (p : Text) (s : ChunkState)
    → Memᴰ p ps
    → SizesOk ps s
    → (s.buf ≡ []) ⊎ (length s.buf + length p ≤ chunk_chars)
    → SizesOk ps (append_paragraph p s)
unfolding append_paragraph
append_paragraph-SizesOk ps p s m v h = (fits s.buf h, v.1)
  where
    fits :
        (buf : Text)
        → (buf ≡ []) ⊎ (length buf + length p ≤ chunk_chars)
        → Fits ps (if is_empty buf then p else buf ++ (newline ∷ newline ∷ p))
    fits [] h = inr m
    fits (c ∷ buf) (inl e) = cc
    fits (c ∷ buf) (inr le) = inl (omega (arith, length-append {0} buf (newline ∷ newline ∷ p)))

chunk_loop-SizesOk :
    (ps rest : List Text) (s : ChunkState)
    → ((t : Text) → Memᴰ t rest → Memᴰ t ps)
    → SizesOk ps s
    → SizesOk ps (chunk_loop s rest)
unfolding chunk_loop
chunk_loop-SizesOk ps [] s sub v = v
chunk_loop-SizesOk ps (p ∷ rest) s sub v =
    let (w, room) = flush_full-SizesOk ps p s v in
    chunk_loop-SizesOk ps rest (append_paragraph p (flush_full p s)) (λ t m. sub t (Memᴰ.tail m))
      (append_paragraph-SizesOk ps p (flush_full p s) (sub p (Memᴰ.head refl)) w room)

-- A piece is never longer than 1202 characters unless it is the whole body, no longer than 1200, or
-- one paragraph that no separator divides.
pub chunk_text-Fits :
    (body : Text) → All (λ p. Fits (split_paragraphs body) p.text) (chunk_text body)
unfolding chunk_text chunk_paragraphs
chunk_text-Fits body = elim (Bool-cases (leb (length body) chunk_chars)) [
  | inl e ↦ rw e (inl (omega (arith, leb→le (length body) chunk_chars e)), tt)
  | inr e ↦ rw e (
      finish (chunk_loop chunk_start (split_paragraphs body)) (
        chunk_loop-SizesOk (split_paragraphs body) (split_paragraphs body) chunk_start (λ t m. m)
          (inl (omega arith), tt)))
]
  where
    finish :
        (s : ChunkState)
        → SizesOk (split_paragraphs body) s
        → All (λ p. Fits (split_paragraphs body) p.text) (last_piece s)
    finish s v = elim (Bool-cases (is_empty s.buf)) [
      | inl e ↦ rw (last_piece, e) v.1
      | inr e ↦
          rw (last_piece, e)
            (All-append (λ p. Fits (split_paragraphs body) p.text) s.pieces
              (piece_of s.buf s.buf_start ∷ []) v.1 (v.0, tt))
    ]
