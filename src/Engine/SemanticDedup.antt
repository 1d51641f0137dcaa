-- ===== src/Engine/SemanticDedup.antt =====
-- legacy/packages/analysis-engine/src/pipeline.ts, stage `semantic-dedup`: of the signals with one
-- key all but the first are deleted.
pub mod Laws
use content_gap.Prelude.{
  ℕ, suc, Bool, true, false, not, List, [], ◌∷◌, ◌++◌, Option, none, some, if◌then◌else◌, filter,
}
use content_gap.Prelude.Text.{Text, codes, text_eq, has}
use content_gap.Shared.Enums.{SignalType}
use content_gap.Database.Tables.{ExtractedSignalRow}

unfoldable pub signal_type_literal : SignalType → Text
signal_type_literal SignalType.question = codes "QUESTION"
signal_type_literal SignalType.objection = codes "OBJECTION"
signal_type_literal SignalType.belief = codes "BELIEF"
signal_type_literal SignalType.trigger = codes "TRIGGER"
signal_type_literal SignalType.pain = codes "PAIN"
signal_type_literal SignalType.desired_outcome = codes "DESIRED_OUTCOME"
signal_type_literal SignalType.decision_criterion = codes "DECISION_CRITERION"
signal_type_literal SignalType.proof = codes "PROOF"
signal_type_literal SignalType.claim = codes "CLAIM"
signal_type_literal SignalType.alternative = codes "ALTERNATIVE"
signal_type_literal SignalType.cta = codes "CTA"
signal_type_literal SignalType.commercial_consequence = codes "COMMERCIAL_CONSEQUENCE"

-- `cohortId ?? "none"`
abbrev pub or_none : Option Text → Text
or_none none = codes "none"
or_none (some id) = id

-- The stage's variables: the rows of the table, the keys seen, and the count of deleted rows.
pub record DedupState : Type 0 where
  pub table : List ExtractedSignalRow
  pub seen : List Text
  pub removed : ℕ

-- `DELETE FROM extracted_signals WHERE id = …`
unfoldable pub delete_signal : Text → List ExtractedSignalRow → List ExtractedSignalRow
delete_signal id table = filter (λ r. not (text_eq r.id id)) table

-- `to_lower_case` is that of `String`, whose tables Unicode gives.
module _ (to_lower_case : Text → Text) where
  unfoldable pub dedup_key : ExtractedSignalRow → Text
  dedup_key s =
      signal_type_literal s.signal_type
      ++ (b'|' ∷ (or_none s.cohort_id ++ (b'|' ∷ to_lower_case s.normalized_label)))

  unfoldable pub dedup_step : DedupState → ExtractedSignalRow → DedupState
  unfolding dedup_key delete_signal
  dedup_step st s =
      if has st.seen (dedup_key s)
      then record st { table = delete_signal s.id st.table; removed = suc st.removed }
      else record st { seen = st.seen ++ dedup_key s ∷ [] }

  unfoldable pub dedup_loop : DedupState → List ExtractedSignalRow → DedupState
  unfolding dedup_step
  dedup_loop st [] = st
  dedup_loop st (s ∷ sigs) = dedup_loop (dedup_step st s) sigs

  -- The stage on the rows of the project.
  unfoldable pub semantic_dedup : List ExtractedSignalRow → DedupState
  unfolding dedup_loop
  semantic_dedup sigs = dedup_loop (record { table = sigs; seen = []; removed = 0 }) sigs
