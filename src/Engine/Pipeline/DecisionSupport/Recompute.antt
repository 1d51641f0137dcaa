-- ===== src/Engine/Pipeline/DecisionSupport/Recompute.antt =====
-- The stage `decision-support-map`: it replaces the needs of the project, and no others.
use content_gap.Prelude.{
  ℕ, Bool, true, not, List, [], ◌∷◌, ◌++◌, ◌≡◌, refl, sym, ap, ◌∙◌, All, All-append, map, filter,
  append-nil, append_assoc,
}
use content_gap.Prelude.Filters.{
  filter-append, filter-All, filter-none, filter-not-filter, filter_idem,
}
use content_gap.Prelude.Text.{Text, codes, text_eq, text_eq_refl}
use content_gap.Shared.Results.{Result, ok, err}
use content_gap.Shared.Schemas.Payloads.{DecisionSupportNeed, DecisionSupportResponse}
use content_gap.Database.Tables.{Cohort, DecisionNeed}
use content_gap.Llm.Types.{DecisionSupportInput, LlmResult}
use content_gap.Engine.Retrieval.{Floats, Indexed, Scored, top_k}
use content_gap.Engine.Pipeline.Store.{
  M, pure, lift, after, ◌>>=◌, ◌>>◌, Store, Corpus, insert_need,
}
use content_gap.Engine.Pipeline.Verification.{NeedRow}
use content_gap.Engine.Pipeline.DecisionSupport.{
  demand_pool, evidence_ids, need_row, inserted_need, add_need, add_needs, delete_needs,
  decision_input, decision_support_stage,
}
use mathlib.Core.List.{map-append}

-- What the run keeps of a row of `decision_needs`.
abbrev pub view : DecisionNeed → NeedRow
view n = record {
  id = n.id;
  cohort_id = n.cohort_id;
  journey_stage = n.journey_stage;
  need_type = n.need_type;
  normalized_need = n.normalized_need;
  supporting_chunk_ids = n.evidence;
}

module _ (project_id : Text) where
  abbrev pub of_project : DecisionNeed → Bool
  of_project n = text_eq n.project_id project_id

  -- The rows that the computation gives are those that it appended.
  abbrev Views : {A : Type 0} → (A → List NeedRow) → List DecisionNeed → Result A → Type 0
  Views f new (ok a) = map view new ≡ f a
  Views f new (err e) = Unit

  record AddsNeeds {A : Type 0} (f : A → List NeedRow) (s : Store) (r : Store × Result A)
      : Type 0 where
    new : List DecisionNeed
    needs : r.0.decision_needs ≡ s.decision_needs ++ new
    ours : All (λ n. of_project n ≡ true) new
    views : Views f new r.1

  pub record IsRecomputed (s : Store) (r : Store × Result (List NeedRow)) : Type 0 where
    pub others :
        filter (λ n. not (of_project n)) r.0.decision_needs
        ≡ filter (λ n. not (of_project n)) s.decision_needs
    pub ours : Views (λ rows. rows) (filter of_project r.0.decision_needs) r.1

  module _ {F : Type 0} (floats : Floats F) (embed : List Text → Result (List (List F)))
      (to_lower_case : Text → Text) (split_words : Text → List Text) (new_id : ℕ → Text)
      (cohorts : List Cohort) (corpus : Corpus) (vectors : List (Indexed F)) where
    abbrev adding : List DecisionSupportNeed → M (List NeedRow)
    adding =
        add_needs floats embed to_lower_case split_words project_id new_id cohorts corpus vectors

    abbrev adding_one : DecisionSupportNeed → M NeedRow
    adding_one =
        add_need floats embed to_lower_case split_words project_id new_id cohorts corpus vectors

    abbrev evidence_of : DecisionSupportNeed → List (Scored F) → List Text
    evidence_of =
        evidence_ids floats embed to_lower_case split_words project_id new_id cohorts corpus vectors

    abbrev row_of : DecisionSupportNeed → List Text → Text → DecisionNeed
    row_of =
        need_row floats embed to_lower_case split_words project_id new_id cohorts corpus vectors

    abbrev kept_of : DecisionSupportNeed → List Text → Text → NeedRow
    kept_of =
        inserted_need floats embed to_lower_case split_words project_id new_id cohorts corpus
          vectors

    -- The part of a round that follows the retrieval.
    shortlisted_AddsNeeds :
        (need : DecisionSupportNeed) (s : Store) (r : Result (List (Scored F)))
        → AddsNeeds
            (λ row. row ∷ [])
            s
            (after
              (λ top. insert_need new_id (row_of need (evidence_of need top)) >>= λ id.
                pure (kept_of need (evidence_of need top) id))
              (lift r s))
    unfolding insert_need need_row inserted_need
    shortlisted_AddsNeeds need s (err e) = record {
      new = [];
      needs = sym (append-nil s.decision_needs);
      ours = tt;
      views = tt;
    }
    shortlisted_AddsNeeds need s (ok top) = record {
      new = row_of need (evidence_of need top) (new_id s.next_id) ∷ [];
      needs = refl;
      ours = (text_eq_refl project_id, tt);
      views = refl;
    }

    add_need-AddsNeeds :
        (need : DecisionSupportNeed) (s : Store) → AddsNeeds (λ row. row ∷ []) s (adding_one need s)
    unfolding add_need
    add_need-AddsNeeds need s = shortlisted_AddsNeeds need s (
        top_k floats embed vectors need.normalized_need
          (demand_pool floats embed to_lower_case split_words project_id new_id cohorts corpus
            vectors)
          6)

    cons_AddsNeeds :
        (s t : Store) (row : NeedRow) (first : List DecisionNeed)
        (q : Store × Result (List NeedRow))
        → t.decision_needs ≡ s.decision_needs ++ first
        → All (λ n. of_project n ≡ true) first
        → map view first ≡ row ∷ []
        → AddsNeeds (λ rows. rows) t q
        → AddsNeeds (λ rows. rows) s (after (λ rows. pure (row ∷ rows)) q)
    cons_AddsNeeds s t row first (u, err f) e o v h = record {
      new = first ++ h.new;
      needs = h.needs ∙ ap (λ l. l ++ h.new) e ∙ append_assoc s.decision_needs first h.new;
      ours = All-append _ first h.new o h.ours;
      views = tt;
    }
    cons_AddsNeeds s t row first (u, ok rows) e o v h = record {
      new = first ++ h.new;
      needs = h.needs ∙ ap (λ l. l ++ h.new) e ∙ append_assoc s.decision_needs first h.new;
      ours = All-append _ first h.new o h.ours;
      views =
          map-append view first h.new ∙ ap (λ l. l ++ map view h.new) v ∙ ap (λ l. row ∷ l) h.views;
    }

    next_AddsNeeds :
        (s : Store) (ns : List DecisionSupportNeed) (r : Store × Result NeedRow)
        → AddsNeeds (λ row. row ∷ []) s r
        → ((t : Store) → AddsNeeds (λ rows. rows) t (adding ns t))
        → AddsNeeds (λ rows. rows) s (after (λ row. adding ns >>= λ rows. pure (row ∷ rows)) r)
    next_AddsNeeds s ns (t, err e) h k = record {
      new = h.new;
      needs = h.needs;
      ours = h.ours;
      views = tt;
    }
    next_AddsNeeds s ns (t, ok row) h k =
        cons_AddsNeeds s t row h.new (adding ns t) h.needs h.ours h.views (k t)

    add_needs-AddsNeeds :
        (ns : List DecisionSupportNeed) (s : Store) → AddsNeeds (λ rows. rows) s (adding ns s)
    unfolding add_needs
    add_needs-AddsNeeds [] s = record {
      new = [];
      needs = sym (append-nil s.decision_needs);
      ours = tt;
      views = refl;
    }
    add_needs-AddsNeeds (n ∷ ns) s =
        next_AddsNeeds s ns (adding_one n s) (add_need-AddsNeeds n s) (add_needs-AddsNeeds ns)

    abbrev stage_of :
        (DecisionSupportInput → Result (LlmResult DecisionSupportResponse))
        → (Text → LlmResult DecisionSupportResponse → M (Unit {0}))
        → M (List NeedRow)
    stage_of =
        decision_support_stage floats embed to_lower_case split_words project_id new_id cohorts
          corpus vectors

    -- What the needs of the project are when they were cleared first.
    cleared_IsRecomputed :
        (s t : Store) (r : Store × Result (List NeedRow))
        → t.decision_needs ≡ filter (λ n. not (of_project n)) s.decision_needs
        → AddsNeeds (λ rows. rows) t r
        → IsRecomputed s r
    cleared_IsRecomputed s t (u, o) e h = record {
      others =
          ap (filter (λ n. not (of_project n))) (h.needs ∙ ap (λ l. l ++ h.new) e)
          ∙ filter-append (λ n. not (of_project n)) kept h.new
          ∙ ap (λ l. filter (λ n. not (of_project n)) kept ++ l)
              (filter-none of_project h.new h.ours)
          ∙ append-nil (filter (λ n. not (of_project n)) kept)
          ∙ filter_idem (λ n. not (of_project n)) s.decision_needs;
      ours = seen o h.views;
    }
      where
        kept : List DecisionNeed
        kept = filter (λ n. not (of_project n)) s.decision_needs

        now_ours : filter of_project u.decision_needs ≡ h.new
        now_ours =
            ap (filter of_project) (h.needs ∙ ap (λ l. l ++ h.new) e)
            ∙ filter-append of_project kept h.new
            ∙ ap (λ l. l ++ filter of_project h.new) (filter-not-filter of_project s.decision_needs)
            ∙ filter-All of_project h.new h.ours

        seen :
            (o : Result (List NeedRow))
            → Views (λ rows. rows) h.new o
            → Views (λ rows. rows) (filter of_project u.decision_needs) o
        seen (ok rows) v = ap (map view) now_ours ∙ v
        seen (err f) v = tt

    answered_IsRecomputed :
        (record_usage : Text → LlmResult DecisionSupportResponse → M (Unit {0})) (s t : Store)
        (r : Result (LlmResult DecisionSupportResponse))
        → ((operation : Text) (u : LlmResult DecisionSupportResponse) (w : Store)
            → (record_usage operation u w).0.decision_needs ≡ w.decision_needs)
        → t.decision_needs ≡ filter (λ n. not (of_project n)) s.decision_needs
        → IsRecomputed s (
            after
              (λ res. record_usage (codes "decision-support") res >> adding res.content.needs)
              (lift r t))
    answered_IsRecomputed record_usage s t (err f) keeps e =
        cleared_IsRecomputed s t (t, err f) e
          (record { new = []; needs = sym (append-nil t.decision_needs); ours = tt; views = tt })
    answered_IsRecomputed record_usage s t (ok res) keeps e =
        recorded (record_usage (codes "decision-support") res t)
          (keeps (codes "decision-support") res t)
      where
        recorded :
            (q : Store × Result (Unit {0}))
            → q.0.decision_needs ≡ t.decision_needs
            → IsRecomputed s (after (λ _. adding res.content.needs) q)
        recorded (u, ok x) same =
            cleared_IsRecomputed s u (adding res.content.needs u) (same ∙ e)
              (add_needs-AddsNeeds res.content.needs u)
        recorded (u, err f) same =
            cleared_IsRecomputed s u (u, err f) (same ∙ e)
              (record {
                new = [];
                needs = sym (append-nil u.decision_needs);
                ours = tt;
                views = tt;
              })

    -- If the log of usage leaves the needs alone, then the stage `decision-support-map` leaves the
    -- needs of other projects as they were, whether it fails or not, and if it succeeds the needs of
    -- the project are those that it gives, in that order, and none of before.
    pub decision_support_stage-IsRecomputed :
        (provider : DecisionSupportInput → Result (LlmResult DecisionSupportResponse))
        (record_usage : Text → LlmResult DecisionSupportResponse → M (Unit {0})) (s : Store)
        → ((operation : Text) (u : LlmResult DecisionSupportResponse) (w : Store)
            → (record_usage operation u w).0.decision_needs ≡ w.decision_needs)
        → IsRecomputed s (stage_of provider record_usage s)
    unfolding decision_support_stage delete_needs
    decision_support_stage-IsRecomputed provider record_usage s keeps =
        answered_IsRecomputed record_usage s _
          (provider (
            decision_input floats embed to_lower_case split_words project_id new_id cohorts corpus
              vectors))
          keeps refl
