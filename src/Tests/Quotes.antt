-- ===== src/Tests/Quotes.antt =====
-- Quotes, pieces of text, the sample and the signals of legacy/packages/analysis-engine.
use content_gap.Prelude.{
  ℕ, zero, suc, ap, ◌+◌, true, false, List, [], ◌∷◌, ◌++◌, none, ◌≡◌, ◌≢◌, refl, ◌↔◌, arith, All,
  length,
}
use content_gap.Prelude.Text.{
  Text, codes, includes, starts_with, trim_start, index_of, is_empty, trim, is_space,
}
use content_gap.Shared.Enums.{SignalType, JourneyStage}
use content_gap.Database.Tables.{ExtractedSignalRow}
use content_gap.Engine.VerifyEvidence.{verify_quote}
use content_gap.Engine.VerifyEvidence.Laws.{Found, SameWords, verify_quote-Found, verify_quote_iff}
use content_gap.Engine.Chunking.{chunk_text, split_paragraphs, newline, piece_of}
use content_gap.Engine.Chunking.Offsets.{IsSlice, chunk_text-IsSlice}
use content_gap.Engine.Chunking.Sizes.{Fits, chunk_text-Fits}
use content_gap.Engine.Chunking.Paragraphs.{NoTriple}
use content_gap.Engine.Chunking.Drift.{NoNewline, spaced, chunk_text_drift}
use content_gap.Engine.ShadowSample.{select_shadow_sample}
use content_gap.Engine.ShadowSample.Laws.{NotBefore, select_shadow_sample-least}
use content_gap.Engine.SemanticDedup.{semantic_dedup}
use content_gap.Engine.SemanticDedup.Laws.{UniqueBy, IsDeduplicated, semantic_dedup-IsDeduplicated}
use mathlib.Core.List.{Permᴰ, reverse}

abbrev chunk : Text
chunk = codes "We book a   demo first."

abbrev quote : Text
quote = codes " a demo "

quote_verified : (verify_quote chunk quote).verified ≡ true
unfolding verify_quote trim is_space trim_start index_of
quote_verified = refl

verify_quote-Found_example : Found chunk (trim quote) (verify_quote chunk quote)
verify_quote-Found_example = verify_quote-Found chunk quote quote_verified

verify_quote_iff_example : ((verify_quote chunk quote).verified ≡ true) ↔ (
    (trim quote ≢ [])
    × ((pre : Text) × (w : Text) × (post : Text) × (chunk ≡ pre ++ (w ++ post))
        × SameWords w (trim quote)))
verify_quote_iff_example = verify_quote_iff chunk quote

letter_ne_nil : {c : ℕ} {t : Text} → c ∷ t ≢ []
letter_ne_nil e = no_conf (ap is_empty e)
  where
    no_conf : false ≢ true
    no_conf h = cc

quote_not_blank : trim quote ≢ []
unfolding trim is_space trim_start
quote_not_blank e = absurd (letter_ne_nil e)

abbrev body : Text
body = codes "One." ++ (newline ∷ newline ∷ codes "Two.")

body-NoTriple : NoTriple body
unfolding includes starts_with
body-NoTriple = refl

chunk_text-Fits_example : All (λ p. Fits (split_paragraphs body) p.text) (chunk_text body)
chunk_text-Fits_example = chunk_text-Fits body

chunk_text-IsSlice_example : All (IsSlice body) (chunk_text body)
chunk_text-IsSlice_example = chunk_text-IsSlice body body-NoTriple

-- A paragraph of n letters.
unfoldable many : ℕ → Text
many zero = []
many (suc n) = b'a' ∷ many n

length-many : (n : ℕ) → length (many n) ≡ n
unfolding many
length-many zero = refl
length-many (suc n) = ap suc (length-many n)

many-NoNewline : (n : ℕ) → NoNewline (many n)
unfolding many
many-NoNewline zero = tt
many-NoNewline (suc n) = (refl, many-NoNewline n)

chunk_text_drift_example :
    (chunk_text (spaced (b'a' ∷ many 700) (b'b' ∷ many 700))
      ≡ piece_of (b'a' ∷ many 700) 0
        ∷ piece_of (b'b' ∷ many 700) (length (b'a' ∷ many 700) + 2)
        ∷ [])
    × ¬ IsSlice
        (spaced (b'a' ∷ many 700) (b'b' ∷ many 700))
        (piece_of (b'b' ∷ many 700) (length (b'a' ∷ many 700) + 2))
chunk_text_drift_example =
    chunk_text_drift b'a' (many 700) b'b' (many 700) (refl, many-NoNewline 700)
      (refl, many-NoNewline 700) (omega (arith, length-many 700))

abbrev pool : List Text
pool = codes "c1" ∷ codes "c2" ∷ codes "c3" ∷ codes "c4" ∷ codes "c5" ∷ codes "c6" ∷ []

abbrev sample : List Text
sample = select_shadow_sample (λ id. id) reverse pool (codes "run")

select_shadow_sample-least_example :
    (rest : List Text) × Permᴰ (sample ++ rest) pool
    × All (λ a. All (NotBefore (λ id. id) reverse (codes "run") a) rest) sample
select_shadow_sample-least_example =
    select_shadow_sample-least (λ id. id) reverse pool (codes "run")

abbrev signal : Text → Text → ExtractedSignalRow
signal id label = record {
  id = id;
  project_id = codes "p";
  content_unit_id = codes "u";
  chunk_id = codes "c";
  signal_type = SignalType.pain;
  normalized_label = label;
  raw_text = label;
  cohort_id = none;
  journey_stage = JourneyStage.unknown;
  evidence_weight = 1;
}

abbrev signals : List ExtractedSignalRow
signals = signal (codes "1") (codes "slow") ∷ signal (codes "2") (codes "slow") ∷ []

signals-UniqueBy : UniqueBy (λ r. r.id) signals
signals-UniqueBy = ((λ e. absurd (apart e), tt), (tt, tt))
  where
    apart : codes "1" ≢ codes "2"
    apart e = ground arith

semantic_dedup-IsDeduplicated_example :
    IsDeduplicated
      (λ s. s)
      signals
      (semantic_dedup (λ s. s) signals).table
      (semantic_dedup (λ s. s) signals).removed
semantic_dedup-IsDeduplicated_example =
    semantic_dedup-IsDeduplicated (λ s. s) signals signals-UniqueBy
