-- ===== src/Engine/Pipeline/ChunkStage.antt =====
-- legacy/packages/analysis-engine/src/pipeline.ts, stages `chunking` and `extraction`: the chunks of
-- the new units, up to a limit for the run, and the signals that the model finds in them.
pub mod Limit
use content_gap.Prelude.{
  ℕ, suc, ◌+◌, ◌/◌, Bool, true, false, List, [], ◌∷◌, ◌++◌, Option, none, some, map, find, filter,
  if◌then◌else◌, ltb, length,
}
use content_gap.Prelude.Text.{Text, codes, text_eq, decimal}
use content_gap.Shared.Enums.{OwnerType}
use content_gap.Shared.Results.{Result, ok, error}
use content_gap.Shared.Schemas.Payloads.{ExtractedSignal, ExtractionResponse}
use content_gap.Database.Tables.{Cohort, ContentUnit, Chunk, ExtractedSignalRow}
use content_gap.Llm.Types.{CohortKeywords, ExtractionInput, LlmResult}
use content_gap.Engine.Chunking.{Piece, chunk_text}
use content_gap.Engine.Pipeline.Store.{
  M, Store, pure, throw, lift, after, ◌>>◌, insert_chunk, insert_signal,
}

-- `SELECT … FROM content_units WHERE id = …`
unfoldable pub stored_unit : Store → Text → Option ContentUnit
stored_unit s id = find (λ u. text_eq u.id id) s.content_units

-- `Math.ceil(text.length / 4)`
abbrev pub token_count_of : Text → ℕ
token_count_of text = (length text + 3) / 4

unfoldable pub chunk_row : Text → ℕ → Piece → Text → Chunk
chunk_row unit_id i piece id = record {
  id = id;
  content_unit_id = unit_id;
  chunk_index = i;
  text = piece.text;
  start_offset = piece.start;
  end_offset = piece.end;
  token_count = token_count_of piece.text;
}

unfoldable pub limit_message : ℕ → Text
unfolding decimal
limit_message max_chunks = codes "maxChunksPerRun (" ++ (decimal max_chunks ++ codes ") exceeded")

-- `embed` is the provider of embeddings; the vectors that the code stores are not read back.
module _ {V : Type 0} (new_id : ℕ → Text) (embed : List Text → Result V) (max_chunks : ℕ) where
  unfoldable pub insert_pieces : Text → ℕ → List Piece → M (Unit {0})
  unfolding insert_chunk chunk_row
  insert_pieces unit_id i [] = pure tt
  insert_pieces unit_id i (p ∷ ps) =
      insert_chunk new_id (chunk_row unit_id i p) >> insert_pieces unit_id (suc i) ps

  -- A round of the loop, at a unit that was found, with the count of the chunks so far.
  unfoldable pub chunk_unit : ℕ → ContentUnit → M ℕ
  unfolding insert_pieces chunk_text limit_message
  chunk_unit count unit =
      let pieces = chunk_text unit.body in
      if ltb max_chunks (count + length pieces)
      then throw (error (limit_message max_chunks))
      else lift (embed (map (λ p. p.text) pieces))
        >> (insert_pieces unit.id 0 pieces >> pure (count + length pieces))

  unfoldable pub chunking_stage : ℕ → List Text → M ℕ
  unfolding chunk_unit stored_unit
  chunking_stage count [] s = (s, ok count)
  chunking_stage count (id ∷ ids) s = elim (stored_unit s id) [
    | none ↦ chunking_stage count ids s
    | some unit ↦ after (λ n. chunking_stage n ids) (chunk_unit count unit s)
  ]

abbrev pub weighs_double : OwnerType → Bool
weighs_double OwnerType.voc = true
weighs_double OwnerType.business_brief = true
weighs_double _ = false

-- The cohorts as the model is shown them; the last keyword is the name.
unfoldable pub cohort_keywords : Cohort → CohortKeywords
cohort_keywords c = record {
  id = c.id;
  name = c.name;
  keywords = c.exact_language ++ (c.name ∷ []);
}

module _ (project_id : Text) (new_id : ℕ → Text) (cohorts : List Cohort)
    (extract : ExtractionInput → Result (LlmResult ExtractionResponse))
    (record_usage : Text → LlmResult ExtractionResponse → M (Unit {0})) where
  unfoldable pub extraction_input : Store → ContentUnit → ExtractionInput
  unfolding cohort_keywords
  extraction_input s unit = record {
    content_unit = record {
      id = unit.id;
      title = unit.title;
      body = unit.body;
      language = unit.language;
      owner_type = unit.owner_type;
    };
    chunks =
        map (λ c. record { id = c.id; text = c.text })
          (filter (λ c. text_eq c.content_unit_id unit.id) s.chunks);
    cohorts = map cohort_keywords cohorts;
  }

  unfoldable pub signal_row : ContentUnit → ExtractedSignal → Text → ExtractedSignalRow
  signal_row unit sig id = record {
    id = id;
    project_id = project_id;
    content_unit_id = unit.id;
    chunk_id = sig.evidence_chunk_id;
    signal_type = sig.type;
    normalized_label = sig.normalized_label;
    raw_text = sig.raw_text;
    cohort_id = sig.cohort_id;
    journey_stage = sig.journey_stage;
    evidence_weight = if weighs_double unit.owner_type then 2 else 1;
  }

  unfoldable pub insert_signals : ContentUnit → ℕ → List ExtractedSignal → M ℕ
  unfolding insert_signal signal_row
  insert_signals unit count [] = pure count
  insert_signals unit count (sig ∷ sigs) =
      insert_signal new_id (signal_row unit sig) >> insert_signals unit (suc count) sigs

  unfoldable pub extract_unit : ℕ → ContentUnit → M ℕ
  unfolding extraction_input insert_signals
  extract_unit count unit s =
      after
        (λ res.
          record_usage (codes "extraction") res >> insert_signals unit count res.content.signals)
        (lift (extract (extraction_input s unit)) s)

  unfoldable pub extraction_stage : ℕ → List Text → M ℕ
  unfolding extract_unit stored_unit
  extraction_stage count [] s = (s, ok count)
  extraction_stage count (id ∷ ids) s = elim (stored_unit s id) [
    | none ↦ extraction_stage count ids s
    | some unit ↦ after (λ n. extraction_stage n ids) (extract_unit count unit s)
  ]
