-- ===== src/Tests/Runs.antt =====
-- The run of legacy/packages/analysis-engine/src/pipeline.ts on a project of one unit.
use content_gap.Prelude.{ℕ, [], ◌∷◌, none, ◌≡◌, refl, ◌⊎◌, length, none}
use content_gap.Prelude.Text.{codes, text_eq, trim, trim_start, is_space, index_of}
use content_gap.Prelude.Sorting.{sort_by}
use content_gap.Shared.Priority.{prioritize, priority_label_for, compute_priority_score, clamp05}
use content_gap.Engine.VerifyEvidence.{verify_quote, offsets_valid}
use content_gap.Shared.Enums.{Language, ContentRole}
use content_gap.Llm.Types.{LlmProvider}
use content_gap.Engine.Pipeline.Runs.{chunk_and_extract, run_pipeline}
use content_gap.Engine.Pipeline.RunContext.{RunDeps}
use content_gap.Engine.Pipeline.Runs.Growth.{AllOwned}
use content_gap.Engine.Pipeline.Runs.Conclusion.{IsFailedRun, IsSucceededRun}
use content_gap.Engine.Pipeline.Runs.Outcome.{run_pipeline-outcome}
use content_gap.Shared.Enums.{RunStatus}
use content_gap.Engine.Pipeline.Runs.Entries.{marks, passed, Stopped}
use content_gap.Engine.Pipeline.Runs.Order.{stage_names, run_pipeline-stages}
use mathlib.Core.List.{Memᴰ, reverse}
use content_gap.Tests.Fixtures.{unit, content, critique, numbers, embed, answer, new_id, full_store}

abbrev model : LlmProvider
model = record {
  name = codes "fake";
  model = codes "fake";
  extract = λ i. answer (record {
    content_unit_id = i.content_unit.id;
    language = Language.en;
    primary_cohort_id = none;
    secondary_cohort_ids = [];
    journey_stages = [];
    content_role = ContentRole.proof;
    signals = [];
    proof_used = [];
    claims = [];
    cta = none;
  });
  map_decision_support = λ i. answer (record { needs = [] });
  classify_coverage = λ i. answer (record { classifications = [] });
  generate_candidates = λ i. answer (record { candidates = content ∷ [] });
  critique = critique;
}

abbrev deps : RunDeps ℕ
deps = record {
  project_id = codes "p";
  run_id = codes "r";
  llm = model;
  embed = embed;
  floats = numbers;
  estimate_cost_usd = λ i o. [];
  to_lower_case = λ s. s;
  strip_symbols = λ s. s;
  split_words = λ s. s ∷ [];
  date_parse = λ date. none;
  reference_date = codes "2026-01-01";
  new_id = new_id;
  date_error = λ date. none;
  digest = reverse;
  message_of = λ e. codes "error";
  max_chunks_per_run = 10;
  max_published_gaps = 10;
  cohorts = [];
  sources = [];
  snapshots = [];
}

full_store-AllOwned : AllOwned (codes "p") full_store
full_store-AllOwned =
    (record { unit = unit; stored = Memᴰ.head refl; same_id = refl; of_project = refl }, tt)

run_pipeline-outcome_example :
    IsFailedRun deps full_store (run_pipeline deps full_store)
    ⊎ IsSucceededRun deps full_store (run_pipeline deps full_store)
run_pipeline-outcome_example = run_pipeline-outcome deps full_store full_store-AllOwned

one_gap_published : length (run_pipeline deps full_store).published_gap_ids ≡ 1
unfolding run_pipeline chunk_and_extract text_eq sort_by prioritize priority_label_for
    compute_priority_score clamp05 verify_quote trim trim_start is_space index_of offsets_valid
one_gap_published = refl

run_pipeline-stages_example :
    ((run_pipeline deps full_store).run.error_summary ≡ none)
      × (marks (run_pipeline deps full_store).run.stage_log ≡ passed stage_names)
    ⊎ ((run_pipeline deps full_store).run.status ≡ RunStatus.failed)
      × Stopped stage_names [] (run_pipeline deps full_store).run.stage_log
run_pipeline-stages_example = run_pipeline-stages deps full_store
