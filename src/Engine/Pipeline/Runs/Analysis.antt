-- ===== src/Engine/Pipeline/Runs/Analysis.antt =====
-- The stages from `semantic-dedup` to `candidate-generation`: what they keep, and that the model was
-- called.
use content_gap.Prelude.{ℕ, Bool, List, [], ◌∷◌, Option, find, refl, Option-cases, inl, inr, arith}
use content_gap.Prelude.Text.{Text, text_eq, codes}
use content_gap.Shared.Results.{Result}
use content_gap.Shared.Schemas.Payloads.{
  DecisionSupportNeed, DecisionSupportResponse, CoverageClassification, CoverageResponse,
  CandidateGap, CandidateGapResponse,
}
use content_gap.Database.Tables.{Cohort, DecisionNeed, CoverageCell}
use content_gap.Llm.Types.{DecisionSupportInput, CoverageInput, CandidateInput, LlmResult}
use content_gap.Engine.Retrieval.{Floats, Indexed, Scored}
use content_gap.Engine.Pipeline.Store.{M, Store, Corpus}
use content_gap.Engine.Pipeline.Verification.{NeedRow, CoverageEntry}
use content_gap.Engine.Pipeline.DecisionSupport.{
  index_corpus, add_need, add_needs, delete_needs, decision_support_stage, need_row, evidence_ids,
  inserted_need, decision_input,
}
use content_gap.Engine.Pipeline.CoverageMatrix.{
  Matched, match_need, match_needs, add_cells, insert_cell, delete_cells, coverage_stage,
  coverage_cell, set_coverage, coverage_value, read_signals, coverage_input,
}
use content_gap.Engine.Pipeline.Generation.{
  delete_candidates, insert_candidate, insert_candidates, generate_candidates,
}
use content_gap.Engine.Pipeline.RunContext.{dedup_stage}
use content_gap.Engine.Pipeline.Runs.Growth.{
  Grows, Grows-refl, Keeps, Keeps-bind, Keeps-then, Keeps-pure, Keeps-lift, after-Grows,
  same_corpus, insert_need-Keeps,
}

pub read_signals-Keeps : (project_id : Text) → Keeps project_id (read_signals project_id)
unfolding read_signals
read_signals-Keeps project_id = record { from = Grows-refl project_id }

module _ (project_id : Text) where
  pub dedup_stage-Keeps :
      (to_lower_case : Text → Text) → Keeps project_id (dedup_stage to_lower_case project_id)
  unfolding dedup_stage
  dedup_stage-Keeps to_lower_case = record {
    from = λ s. same_corpus project_id refl refl refl (omega arith) refl refl;
  }

  module _ {F : Type 0} (embed : List Text → Result (List (List F))) where
    pub index_corpus-Keeps : (corpus : Corpus) → Keeps project_id (index_corpus embed corpus)
    unfolding index_corpus
    index_corpus-Keeps corpus =
        Keeps-bind project_id (Keeps-lift project_id _) λ vectors. Keeps-lift project_id _

  module _ {F : Type 0} (floats : Floats F) (embed : List Text → Result (List (List F)))
      (to_lower_case : Text → Text) (split_words : Text → List Text) (new_id : ℕ → Text)
      (cohorts : List Cohort) (corpus : Corpus) (vectors : List (Indexed F)) where
    abbrev new_row : DecisionSupportNeed → List (Scored F) → Text → DecisionNeed
    new_row need shortlisted =
        need_row floats embed to_lower_case split_words project_id new_id cohorts corpus vectors
          need
          (evidence_ids floats embed to_lower_case split_words project_id new_id cohorts corpus
            vectors need shortlisted)

    abbrev new_need : DecisionSupportNeed → List (Scored F) → Text → NeedRow
    new_need need shortlisted =
        inserted_need floats embed to_lower_case split_words project_id new_id cohorts corpus
          vectors need
          (evidence_ids floats embed to_lower_case split_words project_id new_id cohorts corpus
            vectors need shortlisted)

    pub add_needs-Keeps :
        (needs : List DecisionSupportNeed)
        → Keeps project_id (
            add_needs floats embed to_lower_case split_words project_id new_id cohorts corpus
              vectors needs)
    unfolding add_needs add_need
    add_needs-Keeps [] = Keeps-pure project_id []
    add_needs-Keeps (n ∷ ns) =
        Keeps-bind project_id
          (Keeps-bind project_id (Keeps-lift project_id _) λ shortlisted.
            Keeps-bind project_id (insert_need-Keeps project_id new_id (new_row n shortlisted))
              λ id. Keeps-pure project_id (new_need n shortlisted id))
          λ row.
            Keeps-bind project_id (add_needs-Keeps ns) λ rows. Keeps-pure project_id (row ∷ rows)

    delete_needs-Keeps : Keeps project_id (
        delete_needs floats embed to_lower_case split_words project_id new_id cohorts corpus
          vectors)
    unfolding delete_needs
    delete_needs-Keeps = record {
      from = λ s. same_corpus project_id refl refl refl (omega arith) refl refl;
    }

    pub decision_support_stage-Keeps :
        (provider : DecisionSupportInput → Result (LlmResult DecisionSupportResponse))
        (record_usage : Text → LlmResult DecisionSupportResponse → M (Unit {0}))
        → ((operation : Text) (u : LlmResult DecisionSupportResponse)
            → Keeps project_id (record_usage operation u))
        → Keeps project_id (
            decision_support_stage floats embed to_lower_case split_words project_id new_id cohorts
              corpus vectors provider record_usage)
    unfolding decision_support_stage
    decision_support_stage-Keeps provider record_usage usage =
        Keeps-then project_id delete_needs-Keeps (
          Keeps-bind project_id
            (Keeps-lift project_id (
              provider (
                decision_input floats embed to_lower_case split_words project_id new_id cohorts
                  corpus vectors)))
            λ res.
              Keeps-then project_id (usage (codes "decision-support") res)
                (add_needs-Keeps res.content.needs))

    pub match_needs-Keeps :
        (needs : List NeedRow)
        → Keeps project_id (match_needs floats embed to_lower_case split_words corpus vectors needs)
    unfolding match_needs match_need
    match_needs-Keeps [] = Keeps-pure project_id []
    match_needs-Keeps (n ∷ ns) =
        Keeps-bind project_id
          (Keeps-bind project_id (Keeps-lift project_id _) λ top. Keeps-pure project_id _)
          λ m. Keeps-bind project_id (match_needs-Keeps ns) λ ms. Keeps-pure project_id (m ∷ ms)

  module _ (need_rows : List NeedRow) where
    insert_cell-Keeps :
        (cell : CoverageCell) → Keeps project_id (insert_cell project_id need_rows cell)
    unfolding insert_cell
    insert_cell-Keeps cell = record {
      from = λ s. same_corpus project_id refl refl refl (omega arith) refl refl;
    }

    delete_cells-Keeps : Keeps project_id (delete_cells project_id need_rows)
    unfolding delete_cells
    delete_cells-Keeps = record {
      from = λ s. same_corpus project_id refl refl refl (omega arith) refl refl;
    }

    add_cells-Grows :
        (cs : List CoverageClassification) (entries : List CoverageEntry) (s : Store)
        → Grows project_id s (add_cells project_id need_rows entries cs s).0
    unfolding add_cells
    add_cells-Grows [] entries s = Grows-refl project_id s
    add_cells-Grows (c ∷ cs) entries s =
        elim (Option-cases (find (λ n. text_eq n.id c.need_key) need_rows)) [
          | inl e ↦ rw (add_cells, e) (add_cells-Grows cs entries s)
          | inr (need, e) ↦
              let entries' =
                set_coverage project_id need_rows c.need_key (coverage_value project_id need_rows c)
                  entries in
              rw (add_cells, e)
                (after-Grows project_id (λ _. add_cells project_id need_rows entries' cs)
                  (insert_cell project_id need_rows (coverage_cell project_id need_rows need c) s)
                  ((insert_cell-Keeps (coverage_cell project_id need_rows need c)).from s)
                  (λ _. record { from = add_cells-Grows cs entries' }))
        ]

    add_cells-Keeps :
        (cs : List CoverageClassification) (entries : List CoverageEntry)
        → Keeps project_id (add_cells project_id need_rows entries cs)
    add_cells-Keeps cs entries = record { from = add_cells-Grows cs entries }

    pub coverage_stage-Keeps :
        (corpus : Corpus) (is_old : Option Text → Bool) (shortlist : M (List Matched))
        (provider : CoverageInput → Result (LlmResult CoverageResponse))
        (record_usage : Text → LlmResult CoverageResponse → M (Unit {0}))
        → Keeps project_id shortlist
        → ((operation : Text) (u : LlmResult CoverageResponse)
            → Keeps project_id (record_usage operation u))
        → Keeps project_id
            (coverage_stage project_id need_rows corpus is_old shortlist provider record_usage)
    unfolding coverage_stage
    coverage_stage-Keeps corpus is_old shortlist provider record_usage keeps usage =
        Keeps-then project_id delete_cells-Keeps (
          Keeps-bind project_id (read_signals-Keeps project_id) λ signals.
            Keeps-bind project_id keeps λ m.
              Keeps-bind project_id
                (Keeps-lift project_id
                  (provider (coverage_input is_old signals need_rows m corpus)))
                λ res.
                  Keeps-then project_id (usage (codes "coverage") res)
                    (add_cells-Keeps res.content.classifications []))

  module _ (run_id : Text) (new_id : ℕ → Text) where
    delete_candidates-Keeps : Keeps project_id (delete_candidates project_id run_id new_id)
    unfolding delete_candidates
    delete_candidates-Keeps = record {
      from = λ s. same_corpus project_id refl refl refl (omega arith) refl refl;
    }

    insert_candidate-Keeps :
        (c : CandidateGap) → Keeps project_id (insert_candidate project_id run_id new_id c)
    unfolding insert_candidate
    insert_candidate-Keeps c = record {
      from = λ s. same_corpus project_id refl refl refl (omega arith) refl refl;
    }

    insert_candidates-Keeps :
        (cs : List CandidateGap) → Keeps project_id (insert_candidates project_id run_id new_id cs)
    unfolding insert_candidates
    insert_candidates-Keeps [] = Keeps-pure project_id []
    insert_candidates-Keeps (c ∷ cs) = Keeps-bind project_id (insert_candidate-Keeps c) λ id.
        Keeps-bind project_id (insert_candidates-Keeps cs) λ ids. Keeps-pure project_id (id ∷ ids)

    pub generate_candidates-Keeps :
        (provider : CandidateInput → Result (LlmResult CandidateGapResponse))
        (record_usage : Text → LlmResult CandidateGapResponse → M (Unit {0}))
        (input : CandidateInput)
        → ((operation : Text) (u : LlmResult CandidateGapResponse)
            → Keeps project_id (record_usage operation u))
        → Keeps project_id
            (generate_candidates project_id run_id new_id provider record_usage input)
    unfolding generate_candidates
    generate_candidates-Keeps provider record_usage input usage =
        Keeps-then project_id delete_candidates-Keeps (
          Keeps-bind project_id (Keeps-lift project_id (provider input)) λ res.
            Keeps-then project_id (usage (codes "candidate-generation") res)
              (insert_candidates-Keeps res.content.candidates))
