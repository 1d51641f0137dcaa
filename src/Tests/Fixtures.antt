-- ===== src/Tests/Fixtures.antt =====
-- A project of one unit and one candidate, and a model that answers by rules.
use content_gap.Engine.Retrieval.{Floats}
use content_gap.Prelude.{ℕ, List, ◌+◌, ◌*◌, ltb, length, map}
use content_gap.Prelude.{false, [], ◌∷◌, Option, none, some}
use content_gap.Prelude.Text.{Text, codes}
use content_gap.Shared.Enums.{
  OwnerType, Language, AssetType, JourneyStage, GapType, ContentRole, EvidenceRole,
  GapCandidateStatus, PriorityLabel, CritiqueAction,
}
use content_gap.Shared.Priority.{int}
use content_gap.Shared.Results.{Result, ok}
use content_gap.Shared.Schemas.Payloads.{EvidenceClaim, CandidateGap, CritiqueVerdict}
use content_gap.Database.Tables.{Chunk, ContentUnit, GapCandidate}
use content_gap.Llm.Types.{CritiqueInput, LlmResult}
use content_gap.Engine.Pipeline.Store.{Store, Corpus}
use content_gap.Engine.Pipeline.LateStages.{Run}
use mathlib.Core.List.{reverse}

abbrev pub chunk : Chunk
chunk = record {
  id = codes "c1";
  content_unit_id = codes "u1";
  chunk_index = 0;
  text = codes "Is it worth it?";
  start_offset = 0;
  end_offset = 15;
  token_count = 4;
}

abbrev pub unit : ContentUnit
unit = record {
  id = codes "u1";
  project_id = codes "p";
  source_snapshot_id = codes "s1";
  title = codes "Interview";
  body = codes "Is it worth it?";
  language = Language.en;
  published_at = none;
  asset_type = AssetType.unknown;
  url = none;
  owner_type = OwnerType.voc;
  competitor_slot = none;
}

abbrev pub corpus : Corpus
corpus = record { chunks = chunk ∷ []; units = unit ∷ [] }

abbrev pub claim : EvidenceClaim
claim = record {
  role = EvidenceRole.customer_demand;
  chunk_id = codes "c1";
  exact_quote = codes "worth it";
}

abbrev pub content : CandidateGap
content = record {
  cohort_id = codes "k1";
  journey_stage = JourneyStage.decide;
  gap_type = GapType.proof_gap;
  title = codes "Proof of worth";
  customer_question_or_belief = codes "Is it worth it?";
  missing_decision_support = [];
  commercial_consequence = [];
  recommended_content_role = ContentRole.proof;
  recommended_asset_type = AssetType.case_study;
  suggested_touchpoint = [];
  generation_reason = [];
  evidence = claim ∷ [];
  ranking_components = record {
    commercial_impact = int 5;
    journey_blockage = int 5;
    cohort_priority = int 5;
    demand_strength = int 5;
    coverage_deficit = int 5;
    strategic_alignment = int 5;
    competitive_opportunity = int 5;
    actionability = int 5;
    production_feasibility = int 5;
    learning_value = int 5;
  };
}

abbrev pub candidate : GapCandidate
candidate = record {
  id = codes "g1";
  project_id = codes "p";
  run_id = codes "r";
  cohort_id = codes "k1";
  journey_stage = JourneyStage.decide;
  gap_type = GapType.proof_gap;
  title = codes "Proof of worth";
  candidate_data = content;
  generation_reason = [];
  status = GapCandidateStatus.candidate;
  rejection_reason = none;
  priority_score = 0;
  priority_label = PriorityLabel.p5_reject;
  is_shadow_sample = false;
}

abbrev pub store : Store
store = record {
  content_units = [];
  chunks = [];
  extracted_signals = [];
  decision_needs = [];
  coverage_cells = [];
  gap_candidates = candidate ∷ [];
  gaps = [];
  gap_evidence = [];
  usage_events = [];
  usage = record { input_tokens = 0; output_tokens = 0; calls = 0; suspicious = [] };
  published_gap_ids = [];
  next_id = 0;
}

-- A model that merges the duplicates it is told of and accepts everything else.
abbrev pub action_on : Option Text → CritiqueAction
action_on none = CritiqueAction.accept
action_on (some title) = CritiqueAction.merge

abbrev pub critique : CritiqueInput → Result (LlmResult CritiqueVerdict)
critique i = ok (record {
  content = record {
    action = action_on i.is_duplicate_of_title;
    reason = codes "because";
    merge_with_title = i.is_duplicate_of_title;
  };
  usage = record { input_tokens = 1; output_tokens = 1 };
  suspicious_instructions = [];
})

abbrev pub run : Run
run = record {
  project_id = codes "p";
  run_id = codes "r";
  provider = codes "fake";
  model = codes "fake";
  estimate_cost_usd = λ i o. [];
  to_lower_case = λ s. s;
  strip_symbols = λ s. s;
  new_id = λ n. n ∷ [];
  digest = reverse;
  critique = critique;
  corpus = corpus;
  snapshots = [];
  need_rows = [];
  coverage_by_need_key = [];
  max_published_gaps = 10;
}

abbrev pub numbers : Floats ℕ
numbers = record { nought = 0; add = λ x y. x + y; mul = λ x y. x * y; above = λ x y. ltb y x }

abbrev pub embed : List Text → Result (List (List ℕ))
embed texts = ok (map (λ t. length t ∷ []) texts)

abbrev pub answer : {T : Type 0} → T → Result (LlmResult T)
answer content = ok (record {
  content = content;
  usage = record { input_tokens = 1; output_tokens = 1 };
  suspicious_instructions = [];
})

abbrev pub new_id : ℕ → Text
new_id n = n ∷ []

abbrev pub full_store : Store
full_store = record store { content_units = unit ∷ []; chunks = chunk ∷ []; gap_candidates = [] }
