-- ===== src/Tests/Generated.antt =====
-- The stage `candidate-generation` of legacy/packages/analysis-engine/src/pipeline.ts on one candidate.
use content_gap.Prelude.{ℕ, List, [], ◌∷◌, map, ◌≡◌, arith, All}
use content_gap.Prelude.Text.{Text, codes}
use content_gap.Shared.Enums.{AssetType, ContentRole, GapType, JourneyStage, NeedType}
use content_gap.Shared.Priority.{int}
use content_gap.Shared.Results.{ok}
use content_gap.Shared.Schemas.Payloads.{CandidateGap}
use content_gap.Engine.Pipeline.Store.{Store, Corpus}
use content_gap.Engine.Pipeline.Verification.{NeedRow, verify_candidates}
use content_gap.Engine.Pipeline.Generation.{candidate_input, insert_candidates}
use content_gap.Engine.Pipeline.Generation.Laws.{IsOffered, candidate_input-IsOffered}
use content_gap.Engine.Pipeline.Generation.Found.{insert_candidates-verified}

abbrev corpus : Corpus
corpus = record {
  chunks =
      record {
        id = codes "c1";
        content_unit_id = codes "u1";
        chunk_index = 0;
        text = codes "Is it worth it?";
        start_offset = 0;
        end_offset = 15;
        token_count = 4;
      }
      ∷ [];
  units = [];
}

abbrev need : NeedRow
need = record {
  id = codes "n1";
  cohort_id = codes "k1";
  journey_stage = JourneyStage.evaluate;
  need_type = NeedType.objection;
  normalized_need = codes "Is it worth it?";
  supporting_chunk_ids = codes "c1" ∷ codes "c2" ∷ codes "c1" ∷ [];
}

candidate_input-IsOffered_example :
    All (IsOffered corpus) (candidate_input corpus [] [] (need ∷ [])).chunks
candidate_input-IsOffered_example = candidate_input-IsOffered corpus [] [] (need ∷ [])

abbrev proposed : CandidateGap
proposed = record {
  cohort_id = codes "k1";
  journey_stage = JourneyStage.decide;
  gap_type = GapType.proof_gap;
  title = codes "Proof of worth";
  customer_question_or_belief = codes "Is it worth it?";
  missing_decision_support = [];
  commercial_consequence = [];
  recommended_content_role = ContentRole.proof;
  recommended_asset_type = AssetType.case_study;
  suggested_touchpoint = [];
  generation_reason = [];
  evidence = [];
  ranking_components = record {
    commercial_impact = int 5;
    journey_blockage = int 5;
    cohort_priority = int 5;
    demand_strength = int 5;
    coverage_deficit = int 5;
    strategic_alignment = int 5;
    competitive_opportunity = int 5;
    actionability = int 5;
    production_feasibility = int 5;
    learning_value = int 5;
  };
}

abbrev before : Store
before = record {
  content_units = [];
  chunks = [];
  extracted_signals = [];
  decision_needs = [];
  coverage_cells = [];
  gap_candidates = [];
  gaps = [];
  gap_evidence = [];
  usage_events = [];
  usage = record { input_tokens = 0; output_tokens = 0; calls = 0; suspicious = [] };
  published_gap_ids = [];
  next_id = 0;
}

abbrev new_id : ℕ → Text
new_id n = n ∷ []

new_id-injective : (i j : ℕ) → new_id i ≡ new_id j → i ≡ j
new_id-injective i j e = ground arith

insert_candidates-verified_example :
    (ids : List Text) × ((insert_candidates (codes "p") (codes "r") new_id (proposed ∷ []) before).1
      ≡ ok ids)
    × (map
          (λ v. v.content)
          (verify_candidates corpus [] []
            (insert_candidates
              (codes "p")
              (codes "r")
              new_id
              (proposed ∷ [])
              before).0.gap_candidates
            ids)
        ≡ proposed ∷ [])
insert_candidates-verified_example =
    insert_candidates-verified (codes "p") (codes "r") new_id new_id-injective corpus [] []
      (proposed ∷ []) before tt
