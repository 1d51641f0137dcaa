-- ===== src/Engine/Pipeline/DecisionSupport.antt =====
-- legacy/packages/analysis-engine/src/pipeline.ts: the corpus and its vectors, and the stage
-- `decision-support-map`, which asks the model for the needs of the cohorts and looks for the
-- customers' and the brief's chunks that speak of them.
pub mod Recompute
use content_gap.Prelude.{ℕ, Bool, not, ◌||◌, List, [], ◌∷◌, ◌++◌, none, some, map, filter}
use content_gap.Prelude.Text.{Text, codes, text_eq, has}
use content_gap.Shared.Enums.{OwnerType}
use content_gap.Shared.Results.{Result}
use content_gap.Shared.Schemas.Payloads.{DecisionSupportNeed, DecisionSupportResponse}
use content_gap.Database.Tables.{Cohort, ContentUnit, Chunk, DecisionNeed}
use content_gap.Llm.Types.{DecisionSupportInput, LlmResult}
use content_gap.Llm.Heuristics.{match_cohort}
use content_gap.Engine.Ingest.{same_owner}
use content_gap.Engine.Chunking.{newline}
use content_gap.Engine.Retrieval.{Floats, Indexed, Scored, index, top_k, keyword_overlap}
use content_gap.Engine.Pipeline.Store.{
  M, Store, pure, lift, ◌>>=◌, ◌>>◌, modify, Corpus, chunk_by_id, owner_of_chunk, insert_need,
}
use content_gap.Engine.Pipeline.Verification.{NeedRow}
use content_gap.Engine.Pipeline.ChunkStage.{cohort_keywords}

-- `allUnits` and `allChunks`: the units of the project, and the chunks of every project.
unfoldable pub load_corpus : Text → Store → Corpus
load_corpus project_id s = record {
  chunks = s.chunks;
  units = filter (λ u. text_eq u.project_id project_id) s.content_units;
}

abbrev pub unit_key : Text → Text
unit_key id = codes "unit:" ++ id

abbrev pub unit_text : ContentUnit → Text
unit_text u = u.title ++ (newline ∷ u.body)

unfoldable pub index_corpus :
    {F : Type 0} → (List Text → Result (List (List F))) → Corpus → M (List (Indexed F))
unfolding index
index_corpus embed corpus = do
  vectors ← lift (index embed (map (λ c. record { id = c.id; text = c.text }) corpus.chunks) [])
  lift (
      index embed (map (λ u. record { id = unit_key u.id; text = unit_text u }) corpus.units)
        vectors)

unfoldable pub chunks_of_owner : Corpus → OwnerType → List Chunk
unfolding owner_of_chunk
chunks_of_owner corpus owner =
    filter (λ c. same_owner (owner_of_chunk corpus c.id) owner) corpus.chunks

-- `chunkById.get(id)!.text`, for ids of chunks of the corpus.
unfoldable pub text_of_chunk : Corpus → Text → Text
unfolding chunk_by_id
text_of_chunk corpus id = elim (chunk_by_id corpus id) [ none ↦ [] | some c ↦ c.text ]

-- `split_words` is the split at what is no letter or digit of Unicode.
module _ {F : Type 0} (floats : Floats F) (embed : List Text → Result (List (List F)))
    (to_lower_case : Text → Text) (split_words : Text → List Text) (project_id : Text)
    (new_id : ℕ → Text) (cohorts : List Cohort) (corpus : Corpus) (vectors : List (Indexed F)) where
  -- `cohortKeywords.find(…)!` is the entry of the cohort itself, since ids are primary keys.
  unfoldable pub decision_input : DecisionSupportInput
  unfolding chunks_of_owner match_cohort cohort_keywords
  decision_input = record {
    cohorts =
        map
          (λ c. record {
            id = c.id;
            name = c.name;
            keywords = (cohort_keywords c).keywords;
            objections = c.objections;
            decision_criteria = c.decision_criteria;
            active_problem = c.active_problem;
            current_belief = c.current_belief;
            desired_outcome = c.desired_outcome;
          })
          cohorts;
    approved_proof = [];
    commercial_priority = [];
    voc_signals =
        map
          (λ c. record {
            chunk_id = c.id;
            text = c.text;
            cohort_id =
                match_cohort to_lower_case c.text (
                  map (λ k. record { id = k.id; keywords = (cohort_keywords k).keywords }) cohorts);
          })
          (chunks_of_owner corpus OwnerType.voc);
  }

  unfoldable pub demand_pool : List Text
  unfolding chunks_of_owner
  demand_pool =
      map (λ c. c.id)
        (chunks_of_owner corpus OwnerType.voc ++ chunks_of_owner corpus OwnerType.business_brief)

  -- The gate on the shortlist.
  unfoldable pub speaks_of : DecisionSupportNeed → Text → Bool
  unfolding keyword_overlap text_of_chunk
  speaks_of need id =
      keyword_overlap to_lower_case split_words (text_of_chunk corpus id) need.normalized_need
      || has need.supporting_chunk_ids id

  abbrev or_supporting : DecisionSupportNeed → List Text → List Text
  or_supporting need [] = need.supporting_chunk_ids
  or_supporting need (id ∷ ids) = id ∷ ids

  unfoldable pub evidence_ids : DecisionSupportNeed → List (Scored F) → List Text
  unfolding speaks_of
  evidence_ids need shortlisted =
      or_supporting need (filter (speaks_of need) (map (λ s. s.id) shortlisted))

  unfoldable pub need_row : DecisionSupportNeed → List Text → Text → DecisionNeed
  need_row need evidence id = record {
    id = id;
    project_id = project_id;
    cohort_id = need.cohort_id;
    journey_stage = need.journey_stage;
    need_type = need.need_type;
    normalized_need = need.normalized_need;
    description = need.description;
    evidence = evidence;
  }

  unfoldable pub inserted_need : DecisionSupportNeed → List Text → Text → NeedRow
  inserted_need need evidence id = record {
    id = id;
    cohort_id = need.cohort_id;
    journey_stage = need.journey_stage;
    need_type = need.need_type;
    normalized_need = need.normalized_need;
    supporting_chunk_ids = evidence;
  }

  -- A round of the loop.
  unfoldable pub add_need : DecisionSupportNeed → M NeedRow
  unfolding demand_pool evidence_ids insert_need need_row inserted_need top_k
  add_need need = do
    shortlisted ← lift (top_k floats embed vectors need.normalized_need demand_pool 6)
    id ← insert_need new_id (need_row need (evidence_ids need shortlisted))
    pure (inserted_need need (evidence_ids need shortlisted) id)

  unfoldable pub add_needs : List DecisionSupportNeed → M (List NeedRow)
  unfolding add_need
  add_needs [] = pure []
  add_needs (n ∷ ns) = do row ← add_need n; rows ← add_needs ns; pure (row ∷ rows)

  unfoldable pub delete_needs : M (Unit {0})
  delete_needs = modify λ s. record s {
    decision_needs = filter (λ n. not (text_eq n.project_id project_id)) s.decision_needs;
  }

  -- The stage.
  unfoldable pub decision_support_stage :
      (DecisionSupportInput → Result (LlmResult DecisionSupportResponse))
      → (Text → LlmResult DecisionSupportResponse → M (Unit {0}))
      → M (List NeedRow)
  unfolding delete_needs decision_input add_needs
  decision_support_stage provider record_usage = do
    delete_needs
    res ← lift (provider decision_input)
    record_usage (codes "decision-support") res
    add_needs res.content.needs
