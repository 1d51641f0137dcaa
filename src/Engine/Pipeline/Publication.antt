-- ===== src/Engine/Pipeline/Publication.antt =====
-- legacy/packages/analysis-engine/src/pipeline.ts, stage `publication`: the candidates that become
-- gaps, their evidence, and the shadow sample of the others.
pub mod Objects
pub mod Selection
pub mod Pool
pub mod Rows
use content_gap.Prelude.{
  ℕ, suc, Bool, true, false, not, ◌&&◌, List, [], ◌∷◌, ◌++◌, Option, none, some, map, find, filter,
  take, if◌then◌else◌, ltb, any, ◌==◌,
}
use mathlib.Core.Option
use content_gap.Prelude.Text.{Text, codes, text_eq, has}
use content_gap.Prelude.Sorting.{sort_by}
use content_gap.Shared.Enums.{PriorityLabel, GapCandidateStatus}
use content_gap.Shared.Results.{ok, error}
use content_gap.Database.Tables.{GapCandidate, Gap, GapEvidence, Chunk, ContentUnit, SourceSnapshot}
use content_gap.Engine.ShadowSample.{select_shadow_sample}
use content_gap.Engine.Pipeline.Store.{
  M, pure, throw, lift, after, ◌>>=◌, ◌>>◌, modify, Store, Verified, VerifiedEvidence, Corpus,
  chunk_by_id, unit_by_id, update_candidate,
}

abbrev pub is_p5 : PriorityLabel → Bool
is_p5 PriorityLabel.p5_reject = true
is_p5 _ = false

abbrev pub scores_above : Verified → Verified → Bool
scores_above a b = ltb b.score a.score

abbrev pub survives : Verified → Bool
survives v = not v.rejected && not (is_p5 v.label)

unfoldable pub survivors : List Verified → List Verified
survivors verified = sort_by scores_above (filter survives verified)

unfoldable pub published : ℕ → List Verified → List Verified
unfolding survivors
published max_published_gaps verified = take max_published_gaps (survivors verified)

-- The candidates as objects: `includes` compares objects, which are told apart by their places in the
-- list that the stage is given.
unfoldable pub numbered : ℕ → List Verified → List (ℕ × Verified)
numbered n [] = []
numbered n (v ∷ vs) = (n, v) ∷ numbered (suc n) vs

-- The objects that are published.
unfoldable pub published_objects : ℕ → List Verified → List (ℕ × Verified)
unfolding numbered
published_objects max_published_gaps verified =
    take max_published_gaps
      (sort_by (λ a b. scores_above a.1 b.1) (filter (λ o. survives o.1) (numbered 0 verified)))

-- `published.includes(v)`
abbrev pub included : List (ℕ × Verified) → ℕ × Verified → Bool
included objects o = any (λ q. q.0 == o.0) objects

unfoldable pub not_published : ℕ → List Verified → List Verified
unfolding numbered published_objects
not_published max_published_gaps verified =
    map (λ o. o.1)
      (filter (λ o. not (included (published_objects max_published_gaps verified) o))
        (numbered 0 verified))

-- The row of `gaps` without its id; `project_id` and `run_id` are the run's.
unfoldable pub gap_of : Text → Text → Text → Verified → Gap
gap_of project_id run_id gap_id v = record {
  id = gap_id;
  project_id = project_id;
  gap_candidate_id = v.candidate_id;
  run_id = run_id;
  cohort_id = v.content.cohort_id;
  journey_stage = v.content.journey_stage;
  gap_type = v.content.gap_type;
  title = v.content.title;
  customer_need = v.content.customer_question_or_belief;
  current_coverage_summary = v.coverage_summary;
  missing_decision_support = v.content.missing_decision_support;
  commercial_consequence = v.content.commercial_consequence;
  recommended_content_role = v.content.recommended_content_role;
  recommended_asset_type = v.content.recommended_asset_type;
  suggested_touchpoint = v.content.suggested_touchpoint;
  evidence_status = v.evidence_status;
  evidence_status_rule = v.evidence_status_rule;
  priority_label = v.label;
  priority_score = v.score;
  ranking_components = v.content.ranking_components;
  ranking_reason = v.content.generation_reason;
  status = codes "PUBLISHED";
}

-- The expression `chunkById.get(e.chunkId)!` or `allUnits.find(…)!`, and the property read next: on
-- `undefined` that is a `TypeError`.
abbrev pub defined : {A : Type 0} → Text → Option A → M A
defined property none =
    throw
      (error (codes "Cannot read properties of undefined (reading '" ++ (property ++ codes "')")))
defined property (some a) = pure a

-- `new_id` gives the ids of the database, `digest` is the hexadecimal SHA-256.
module _ (project_id run_id : Text) (new_id : ℕ → Text) (digest : Text → Text) (corpus : Corpus)
    (snapshots : List SourceSnapshot) where
  unfoldable pub insert_gap : Verified → M Text
  unfolding gap_of
  insert_gap v s =
      let gap_id = new_id s.next_id in
      (
        record s {
          gaps = s.gaps ++ (gap_of project_id run_id gap_id v ∷ []);
          published_gap_ids = s.published_gap_ids ++ (gap_id ∷ []);
          next_id = suc s.next_id;
        },
        ok gap_id,
      )

  unfoldable pub evidence_row : Text → VerifiedEvidence → ContentUnit → GapEvidence
  evidence_row gap_id e unit = record {
    gap_id = gap_id;
    source_id =
        Option.map (λ snap. snap.source_id)
          (find (λ snap. text_eq snap.id unit.source_snapshot_id) snapshots);
    source_snapshot_id = unit.source_snapshot_id;
    content_unit_id = unit.id;
    chunk_id = e.chunk_id;
    evidence_role = e.role;
    exact_quote = e.quote;
    quote_start_offset = e.start;
    quote_end_offset = e.end;
  }

  -- The loop over the evidence of a published candidate.
  unfoldable pub insert_evidence : Text → List VerifiedEvidence → M (Unit {0})
  unfolding evidence_row
  insert_evidence gap_id [] = pure tt
  insert_evidence gap_id (e ∷ es) = do
    chunk ← defined (codes "contentUnitId") (chunk_by_id corpus e.chunk_id)
    unit ← defined (codes "sourceSnapshotId") (unit_by_id corpus chunk.content_unit_id)
    modify λ s. record s { gap_evidence = s.gap_evidence ++ (evidence_row gap_id e unit ∷ []) }
    insert_evidence gap_id es

  unfoldable pub publish_each : List Verified → M (Unit {0})
  unfolding insert_gap insert_evidence update_candidate
  publish_each [] = pure tt
  publish_each (v ∷ vs) = do
    gap_id ← insert_gap v
    update_candidate v.candidate_id λ c. record c { status = GapCandidateStatus.published }
    insert_evidence gap_id v.evidence
    publish_each vs

  unfoldable pub shadow_ids : ℕ → List Verified → List Text
  unfolding not_published select_shadow_sample
  shadow_ids max_published_gaps verified =
      select_shadow_sample (λ id. id) digest
        (map (λ v. v.candidate_id) (not_published max_published_gaps verified)) run_id

  -- `UPDATE gap_candidates SET … WHERE id IN …`
  unfoldable pub mark_shadow : List Text → M (Unit {0})
  mark_shadow ids = modify λ s. record s {
    gap_candidates =
        map
          (λ c.
            if has ids c.id
            then record c { is_shadow_sample = true; status = GapCandidateStatus.shadow }
            else c)
          s.gap_candidates;
  }

  -- The stage. The update is left out when no id is in the sample, and then changes nothing.
  unfoldable pub publish : ℕ → List Verified → M (Unit {0})
  unfolding published publish_each shadow_ids mark_shadow
  publish max_published_gaps verified = do
    publish_each (published max_published_gaps verified)
    mark_shadow (shadow_ids max_published_gaps verified)
