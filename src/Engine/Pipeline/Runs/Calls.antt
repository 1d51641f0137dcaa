-- ===== src/Engine/Pipeline/Runs/Calls.antt =====
-- A run that reaches its decision has called the model.
use content_gap.Prelude.{ℕ, suc, ◌≤◌, List, arith}
use content_gap.Prelude.Text.{Text, codes}
use content_gap.Shared.Results.{Failure, Result, ok, err}
use content_gap.Shared.Schemas.Payloads.{DecisionSupportResponse}
use content_gap.Database.Tables.{Cohort}
use content_gap.Llm.Types.{DecisionSupportInput, LlmResult}
use content_gap.Engine.Retrieval.{Floats, Indexed}
use content_gap.Engine.Pipeline.Store
use content_gap.Engine.Pipeline.Store.{M, lift, after, Store, Corpus, record_usage}
use content_gap.Engine.Pipeline.DecisionSupport.{decision_support_stage}
use content_gap.Engine.Pipeline.StageLog.{
  RunState, RunM, next, ◌>>=◌, ◌>>◌, Counts, StageLogEntry, log_stage, stage,
}
use content_gap.Engine.Pipeline.Runs.Growth.{Keeps}
use content_gap.Engine.Pipeline.Runs.Analysis.{add_needs-Keeps}
use content_gap.Engine.Pipeline.Runs.Logged.{KeepsRun}

abbrev OkCalled : {A : Type 0} → Store × Result A → Type 0
OkCalled (t, ok a) = 1 ≤ t.usage.calls
OkCalled (t, err e) = Unit

abbrev pub RunCalled : {A : Type 0} → RunState × Result A → Type 0
RunCalled (r, ok a) = 1 ≤ r.store.usage.calls
RunCalled (r, err e) = Unit

-- If the computation succeeds, the model has been called.
pub record Calls {A : Type 0} (m : RunM A) : Type 0 where
  pub from : (r : RunState) → RunCalled (m r)

RunCalled-of_calls :
    {A : Type 0} (r : RunState × Result A) → 1 ≤ r.0.store.usage.calls → RunCalled r
RunCalled-of_calls (r, ok a) h = h
RunCalled-of_calls (r, err e) h = tt

module _ (project_id : Text) where
  next-earlier :
      {A B : Type 0} (f : A → RunM B) (r : RunState × Result A)
      → RunCalled r
      → ((a : A) → KeepsRun project_id (f a))
      → RunCalled (next f r)
  next-earlier f (r, ok a) h k = RunCalled-of_calls (f a r) (omega (arith, ((k a).from r).calls))
  next-earlier f (r, err e) h k = tt

  pub Calls-earlier :
      {A B : Type 0} {m : RunM A} {f : A → RunM B}
      → Calls m
      → ((a : A) → KeepsRun project_id (f a))
      → Calls (m >>= f)
  Calls-earlier {m} {f} h k = record { from = λ r. next-earlier f (m r) (h.from r) k }

pub next-later :
    {A B : Type 0} (f : A → RunM B) (r : RunState × Result A)
    → ((a : A) → Calls (f a))
    → RunCalled (next f r)
next-later f (r, ok a) k = (k a).from r
next-later f (r, err e) k = tt

pub Calls-later :
    {A B : Type 0} (m : RunM A) {f : A → RunM B} → ((a : A) → Calls (f a)) → Calls (m >>= f)
Calls-later m {f} k = record { from = λ r. next-later f (m r) k }

pub Calls-then : {A B : Type 0} (m : RunM A) {k : RunM B} → Calls k → Calls (m >> k)
Calls-then m {k} h = record { from = λ r. next-later (λ _. k) (m r) (λ _. h) }

module _ (message_of : Failure → Text) where
  log_stage-RunCalled :
      {A : Type 0} (name : Text) (count : A → Counts) (log : List StageLogEntry)
      (q : Store × Result A)
      → OkCalled q
      → RunCalled (log_stage message_of name count log q)
  unfolding log_stage
  log_stage-RunCalled name count log (s, ok a) h = h
  log_stage-RunCalled name count log (s, err e) h = tt

  pub Calls-stage :
      {A : Type 0} (name : Text) (count : A → Counts) (m : M A)
      → ((s : Store) → OkCalled (m s))
      → Calls (stage message_of name count m)
  unfolding stage
  Calls-stage name count m h = record {
    from = λ r. log_stage-RunCalled name count r.stage_log (m r.store) (h r.store);
  }

OkCalled-of_calls : {A : Type 0} (q : Store × Result A) → 1 ≤ q.0.usage.calls → OkCalled q
OkCalled-of_calls (t, ok a) h = h
OkCalled-of_calls (t, err e) h = tt

module _ (project_id run_id provider model : Text) (cost : ℕ → ℕ → Text) where
  -- The answer of the model is recorded before anything else is done with it.
  recorded :
      {T A : Type 0} (operation : Text) (k : LlmResult T → M A) (r : Result (LlmResult T))
      (s : Store)
      → ((res : LlmResult T) → Keeps project_id (k res))
      → OkCalled (
          after
            (λ res.
              Store.◌>>◌ (record_usage project_id run_id provider model cost operation res) (k res))
            (lift r s))
  unfolding record_usage
  recorded operation k (err e) s h = tt
  recorded operation k (ok res) s h =
      let t = (record_usage project_id run_id provider model cost operation res s).0 in
      let more : suc s.usage.calls ≤ (k res t).0.usage.calls = ((h res).from t).calls in
      OkCalled-of_calls (k res t) (omega (arith, more))

  pub decision_support_stage-OkCalled :
      {F : Type 0} (floats : Floats F) (embed : List Text → Result (List (List F)))
      (to_lower_case : Text → Text) (split_words : Text → List Text) (new_id : ℕ → Text)
      (cohorts : List Cohort) (corpus : Corpus) (vectors : List (Indexed F))
      (ask : DecisionSupportInput → Result (LlmResult DecisionSupportResponse)) (s : Store)
      → OkCalled (
          decision_support_stage floats embed to_lower_case split_words project_id new_id cohorts
            corpus vectors ask
            (record_usage project_id run_id provider model cost)
            s)
  unfolding decision_support_stage
  decision_support_stage-OkCalled floats embed to_lower_case split_words new_id cohorts corpus
        vectors ask s =
      recorded (codes "decision-support") _ _ _ λ res.
        add_needs-Keeps project_id floats embed to_lower_case split_words new_id cohorts corpus
          vectors res.content.needs
