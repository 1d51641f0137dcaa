-- ===== src/Shared/Hashing.antt =====
-- legacy/packages/shared/src/hashing.ts: the hash that gates snapshots, and the comparison of secrets.
pub mod Comparison
use content_gap.Prelude.{
  ℕ, suc, Bool, true, false, ◌||◌, ◌&&◌, [], ◌∷◌, if◌then◌else◌, ◌==◌, ltb, not, length,
}
use Prim.Native.Nat.{bit_or, bit_xor}
use content_gap.Prelude.Text.{Text, trim}

abbrev starts_newline : Text → Bool
starts_newline [] = false
starts_newline (c ∷ s) = c == b'\n'

-- `replace(/\r\n/g, "\n")`
unfoldable pub replace_crlf : Text → Text
replace_crlf [] = []
replace_crlf (c ∷ s) =
    let rest = replace_crlf s in if c == b'\r' && starts_newline s then rest else c ∷ rest

-- `replace(/[ \t]+/g, " ")`; the Boolean says that a blank stands before.
unfoldable pub squeeze_blanks : Bool → Text → Text
squeeze_blanks in_run [] = []
squeeze_blanks in_run (c ∷ s) =
    let more = squeeze_blanks true s in
    let other = squeeze_blanks false s in
    if c == b' ' || c == b'\t' then (if in_run then more else b' ' ∷ more) else c ∷ other

-- `replace(/\n{3,}/g, "\n\n")`; the number counts the newlines before.
unfoldable pub squeeze_newlines : ℕ → Text → Text
squeeze_newlines n [] = []
squeeze_newlines n (c ∷ s) =
    let more = squeeze_newlines (suc n) s in
    let other = squeeze_newlines 0 s in
    if c == b'\n' then (if ltb n 2 then c ∷ more else more) else c ∷ other

unfoldable pub normalized : Text → Text
unfolding replace_crlf squeeze_blanks squeeze_newlines
normalized content = trim (squeeze_newlines 0 (squeeze_blanks false (replace_crlf content)))

-- `digest` is the hexadecimal SHA-256 of the UTF-8 encoding.
unfoldable pub content_hash : (Text → Text) → Text → Text
unfolding normalized
content_hash digest content = digest (normalized content)

-- `mismatch`, from what it holds so far
unfoldable pub mismatch_from : ℕ → Text → Text → ℕ
mismatch_from mismatch [] b = mismatch
mismatch_from mismatch (x ∷ a) [] = mismatch
mismatch_from mismatch (x ∷ a) (y ∷ b) = mismatch_from (bit_or mismatch (bit_xor x y)) a b

unfoldable pub timing_safe_equal_hex : Text → Text → Bool
unfolding mismatch_from
timing_safe_equal_hex a b = if not (length a == length b) then false else mismatch_from 0 a b == 0
