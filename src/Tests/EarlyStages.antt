-- ===== src/Tests/EarlyStages.antt =====
-- The early stages of legacy/packages/analysis-engine/src/pipeline.ts, and retrieval with whole numbers in
-- place of the floating-point ones.
use content_gap.Prelude.{
  ℕ, false, Option, ◌⊎◌, ◌==◌, if◌then◌else◌, List, [], ◌∷◌, none, some, ◌≡◌, refl, length, arith,
  true, All, none,
}
use content_gap.Prelude.Text.{split_on, Text, codes, text_eq, trim, trim_start, is_space}
use content_gap.Prelude.Sorting.{sort_by}
use content_gap.Shared.Results.{Failure, Result, ok, error}
use content_gap.Llm.Types.{LlmResult}
use content_gap.Engine.Retrieval.{Indexed, Scored, top_k, first_of}
use content_gap.Engine.Retrieval.Laws.{IsOrdered, IsTop, top_k-IsTop}
use content_gap.Engine.Pipeline.Store.{Store}
use content_gap.Shared.Enums.{OwnerType, CrawlMethod, SourceStatus, JourneyStage, NeedType}
use content_gap.Shared.Schemas.Payloads.{DecisionSupportNeed, DecisionSupportResponse}
use content_gap.Database.Tables.{Source, SourceSnapshot}
use content_gap.Engine.Pipeline.Store.{M, record_usage}
use content_gap.Engine.Pipeline.Normalization.{pending, normalization_stage}
use content_gap.Engine.Pipeline.ChunkStage.{chunking_stage}
use content_gap.Engine.Pipeline.ChunkStage.Limit.{IsWithin, chunking_stage-IsWithin}
use content_gap.Engine.Pipeline.DecisionSupport.{decision_support_stage}
use content_gap.Engine.Pipeline.DecisionSupport.Recompute.{
  IsRecomputed, decision_support_stage-IsRecomputed,
}
use content_gap.Engine.Pipeline.Runs.Processed.{
  IsProcessed, Refused, normalization_stage-IsProcessed,
}
use content_gap.Engine.Pipeline.Verification.{NeedRow}
use content_gap.Engine.Pipeline.CoverageMatrix.{Matched, match_needs, coverage_input}
use content_gap.Engine.Pipeline.CoverageMatrix.Offered.{IsOffered, coverage_input-IsOffered}
use content_gap.Engine.Pipeline.Store.{Corpus}
use content_gap.Shared.EvidenceStatus.{owner_type_literal}
use content_gap.Tests.Fixtures.{unit, corpus, numbers, embed, answer, new_id, full_store}

numbers-IsOrdered : IsOrdered numbers
numbers-IsOrdered = record { asymm = λ x y h. ground arith; trans = λ x y z h k. ground arith }

abbrev vectors : List (Indexed ℕ)
vectors =
    record { id = codes "a"; vector = some (1 ∷ []) }
    ∷ record { id = codes "b"; vector = some (3 ∷ []) }
    ∷ record { id = codes "c"; vector = some (2 ∷ []) }
    ∷ []

abbrev best : List (Scored ℕ)
best = record { id = codes "b"; score = 12 } ∷ record { id = codes "c"; score = 8 } ∷ []

best_two :
    top_k numbers embed vectors (codes "what") (codes "a" ∷ codes "b" ∷ codes "c" ∷ []) 2 ≡ ok best
unfolding top_k text_eq sort_by
best_two = refl

top_k-IsTop_example :
    (vecs : List (List ℕ)) × (embed (codes "what" ∷ []) ≡ ok vecs)
    × IsTop numbers vectors (first_of vecs) (codes "a" ∷ codes "b" ∷ codes "c" ∷ []) 2 best
top_k-IsTop_example =
    top_k-IsTop numbers embed vectors (codes "what") (codes "a" ∷ codes "b" ∷ codes "c" ∷ []) 2
      numbers-IsOrdered best_two

chunking_stage-IsWithin_example :
    IsWithin new_id embed 10 0 full_store
      (chunking_stage new_id embed 10 0 (codes "u1" ∷ []) full_store)
chunking_stage-IsWithin_example =
    chunking_stage-IsWithin new_id embed 10 (codes "u1" ∷ []) full_store

-- One snapshot of a page, and one of customers' voices without a row.
abbrev page : Source
page = record {
  id = codes "s1";
  project_id = codes "p";
  owner_type = OwnerType.owned;
  competitor_slot = none;
  source_type = [];
  name = codes "Page";
  canonical_url = none;
  crawl_method = CrawlMethod.upload;
  refresh_enabled = false;
  last_success_at = none;
  last_failure_at = none;
  status = SourceStatus.processed;
  error_message = none;
}

abbrev voices : Source
voices = record page { id = codes "s2"; owner_type = OwnerType.voc }

abbrev snapshot : SourceSnapshot
snapshot = record {
  id = codes "n1";
  source_id = codes "s1";
  content_hash = [];
  raw_content = [];
  normalized_content = codes "Is it worth it?";
  is_current = true;
  metadata = record { title = some (codes "Page"); published_at = none; competitor_slot = none };
}

abbrev snapshots : List SourceSnapshot
snapshots =
    snapshot
    ∷ record snapshot { id = codes "n2"; source_id = codes "s2"; normalized_content = codes " " }
    ∷ []

-- The database takes the texts of ten characters for dates.
abbrev date_error : Text → Option Failure
date_error date = if length date == 10 then none else some (error (codes "invalid date"))

abbrev normalized : Store × Result (List Text)
normalized =
    normalization_stage (codes "p") (page ∷ voices ∷ []) snapshots new_id date_error
      (pending (codes "p") (page ∷ voices ∷ []) snapshots full_store.content_units) full_store

normalization_stage-IsProcessed_example :
    IsProcessed (codes "p") (page ∷ voices ∷ []) snapshots new_id date_error full_store normalized
    ⊎ Refused date_error
        (pending (codes "p") (page ∷ voices ∷ []) snapshots full_store.content_units)
        normalized
normalization_stage-IsProcessed_example =
    normalization_stage-IsProcessed (codes "p") (page ∷ voices ∷ []) snapshots new_id date_error
      full_store

one_unit_made : length normalized.0.content_units ≡ 2
unfolding normalization_stage pending text_eq split_on trim trim_start is_space
one_unit_made = refl

abbrev log : Text → LlmResult DecisionSupportResponse → M (Unit {0})
log = record_usage (codes "p") (codes "r") (codes "fake") (codes "fake") (λ i o. [])

log_keeps_needs :
    (operation : Text) (u : LlmResult DecisionSupportResponse) (w : Store)
    → (log operation u w).0.decision_needs ≡ w.decision_needs
unfolding record_usage
log_keeps_needs operation u w = refl

abbrev need : DecisionSupportNeed
need = record {
  cohort_id = codes "k1";
  journey_stage = JourneyStage.evaluate;
  need_type = NeedType.objection;
  normalized_need = codes "Is it worth it?";
  description = [];
  supporting_chunk_ids = codes "c1" ∷ [];
}

abbrev no_words : Text → List Text
no_words s = s ∷ []

decision_support_stage-IsRecomputed_example : IsRecomputed (codes "p") full_store (
    decision_support_stage numbers embed
      (λ s. s)
      no_words
      (codes "p")
      new_id
      []
      corpus
      vectors
      (λ i. answer (record { needs = need ∷ [] }))
      log
      full_store)
decision_support_stage-IsRecomputed_example =
    decision_support_stage-IsRecomputed (codes "p") numbers embed (λ s. s) no_words new_id [] corpus
      vectors (λ i. answer (record { needs = need ∷ [] })) log full_store log_keeps_needs

-- A corpus with one owned unit, and a need that shares a word with it.
abbrev owned_corpus : Corpus
owned_corpus = record corpus { units = record unit { owner_type = OwnerType.owned } ∷ [] }

abbrev need_row : NeedRow
need_row = record {
  id = codes "d1";
  cohort_id = codes "k1";
  journey_stage = JourneyStage.evaluate;
  need_type = NeedType.objection;
  normalized_need = codes "what worth";
  supporting_chunk_ids = [];
}

abbrev unit_vectors : List (Indexed ℕ)
unit_vectors = record { id = codes "unit:u1"; vector = some (1 ∷ []) } ∷ []

abbrev matched : List Matched
matched = record { need_id = codes "d1"; unit_ids = codes "u1" ∷ [] } ∷ []

one_match :
    match_needs numbers embed
      (λ s. s)
      (split_on b' ')
      owned_corpus
      unit_vectors
      (need_row ∷ [])
      full_store
    ≡ (full_store, ok matched)
unfolding match_needs text_eq sort_by split_on owner_type_literal
one_match = refl

coverage_input-IsOffered_example :
    All
      (IsOffered numbers embed (λ s. s) (split_on b' ') owned_corpus unit_vectors (need_row ∷ []))
      (coverage_input (λ d. false) [] (need_row ∷ []) matched owned_corpus).owned_units
coverage_input-IsOffered_example =
    coverage_input-IsOffered numbers embed (λ s. s) (split_on b' ') owned_corpus unit_vectors
      (λ d. false) [] (need_row ∷ []) full_store full_store matched one_match
