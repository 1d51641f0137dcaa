-- ===== src/Engine/Chunking.antt =====
-- legacy/packages/analysis-engine/src/pipeline.ts, `chunkText`: a body as pieces of whole paragraphs.
pub mod Paragraphs
pub mod Offsets
pub mod Sizes
pub mod Drift
use content_gap.Prelude.{
  ℕ, zero, suc, ◌+◌, Bool, true, false, not, ◌&&◌, List, [], ◌∷◌, ◌++◌, if◌then◌else◌, leb, ltb,
  ◌==◌, length,
}
use content_gap.Prelude.Text.{Text, is_empty}

abbrev pub chunk_chars : ℕ
chunk_chars = 1200

abbrev pub newline : ℕ
newline = b'\n'

abbrev pub newlines : ℕ → Text
newlines zero = []
newlines (suc k) = newline ∷ newlines k

pub record Piece : Type 0 where
  pub text : Text
  pub start : ℕ
  pub end : ℕ

-- A character in front of `k` newlines and the paragraphs that follow them.
unfoldable pub attach : ℕ → ℕ → List Text → List Text
attach c k [] = (c ∷ newlines k) ∷ []
attach c k (p ∷ ps) = if leb 2 k then (c ∷ []) ∷ p ∷ ps else (c ∷ (newlines k ++ p)) ∷ ps

-- The newlines at the start of a text, and the paragraphs of what follows them.
unfoldable pub scan : Text → ℕ × List Text
unfolding attach
scan [] = (0, [] ∷ [])
scan (c ∷ s) = let (k, ps) = scan s in if c == newline then (suc k, ps) else (0, attach c k ps)

unfoldable pub lead : ℕ × List Text → List Text
lead (k, []) = newlines k ∷ []
lead (k, p ∷ ps) = if leb 2 k then [] ∷ p ∷ ps else (newlines k ++ p) ∷ ps

-- `body.split(/\n{2,}/)`
unfoldable pub split_paragraphs : Text → List Text
unfolding scan lead
split_paragraphs body = lead (scan body)

-- The variables of the loop.
pub record ChunkState : Type 0 where
  pub pieces : List Piece
  pub offset : ℕ
  pub buf : Text
  pub buf_start : ℕ

abbrev pub piece_of : Text → ℕ → Piece
piece_of buf buf_start = record { text = buf; start = buf_start; end = buf_start + length buf }

-- The first `if` of the loop: a full buffer becomes a piece.
unfoldable pub flush_full : Text → ChunkState → ChunkState
flush_full p s =
    if not (is_empty s.buf) && ltb chunk_chars (length s.buf + length p)
    then record s { pieces = s.pieces ++ piece_of s.buf s.buf_start ∷ []; buf = [] }
    else s

-- The rest of a round of the loop.
unfoldable pub append_paragraph : Text → ChunkState → ChunkState
append_paragraph p s = record s {
  buf_start = if is_empty s.buf then s.offset else s.buf_start;
  buf = if is_empty s.buf then p else s.buf ++ (newline ∷ newline ∷ p);
  offset = s.offset + (length p + 2);
}

unfoldable pub chunk_loop : ChunkState → List Text → ChunkState
unfolding flush_full append_paragraph
chunk_loop s [] = s
chunk_loop s (p ∷ ps) = chunk_loop (append_paragraph p (flush_full p s)) ps

unfoldable pub last_piece : ChunkState → List Piece
last_piece s = if is_empty s.buf then s.pieces else s.pieces ++ piece_of s.buf s.buf_start ∷ []

abbrev pub chunk_start : ChunkState
chunk_start = record { pieces = []; offset = 0; buf = []; buf_start = 0 }

unfoldable pub chunk_paragraphs : List Text → List Piece
unfolding chunk_loop last_piece
chunk_paragraphs ps = last_piece (chunk_loop chunk_start ps)

unfoldable pub chunk_text : Text → List Piece
unfolding chunk_paragraphs split_paragraphs
chunk_text body =
    if leb (length body) chunk_chars
    then piece_of body 0 ∷ []
    else chunk_paragraphs (split_paragraphs body)
