-- ===== src/Engine/Pipeline/StageLog.antt =====
-- legacy/packages/analysis-engine/src/logger.ts and pipeline.ts, `stage`: a stage of a run, and the
-- entry that it leaves in the log.
use content_gap.Prelude.{ℕ, Bool, true, false, List, [], ◌∷◌, ◌++◌, Option, none, some, length}
use content_gap.Prelude.Text.{Text}
use content_gap.Shared.Results.{Failure, Result, ok, err}
use content_gap.Engine.Pipeline.Store.{M, Store}

-- `StageLogEntry`, less the time that the stage took; `failed` is the status.
pub record StageLogEntry : Type 0 where
  pub stage : Text
  pub failed : Bool
  pub input_count : ℕ
  pub output_count : ℕ
  pub error : Option Text
  pub note : Option Text

pub record RunState : Type 0 where
  pub store : Store
  pub stage_log : List StageLogEntry

-- The code of a run between its stages.
abbrev pub RunM : Type 0 → Type 0
RunM A = RunState → RunState × Result A

abbrev pub done : {A : Type 0} → A → RunM A
done a r = (r, ok a)

abbrev pub next : {A B : Type 0} → (A → RunM B) → RunState × Result A → RunState × Result B
next f (r, ok a) = f a r
next f (r, err e) = (r, err e)

infixl 5 ◌>>=◌ ◌>>◌
abbrev pub ◌>>=◌ : {A B : Type 0} → RunM A → (A → RunM B) → RunM B
◌>>=◌ m f r = next f (m r)

abbrev pub ◌>>◌ : {A B : Type 0} → RunM A → RunM B → RunM B
m >> k = m >>= λ _. k

pub record Counts : Type 0 where
  pub input_count : ℕ
  pub output_count : ℕ
  pub note : Option Text

abbrev pub counts : ℕ → ℕ → Counts
counts i o = record { input_count = i; output_count = o; note = none }

abbrev pub counting : {A : Type 0} → ℕ → List A → Counts
counting n xs = counts n (length xs)

-- Code of the run that stands in no stage.
unfoldable pub plain : {A : Type 0} → M A → RunM A
plain m r = let (s, a) = m r.store in (record r { store = s }, a)

-- `message_of` is the message of an error.
module _ (message_of : Failure → Text) where
  -- `stage(name, fn)`: the entry of the log is made of the result, or of the error, which goes on.
  unfoldable pub log_stage :
      {A : Type 0}
      → Text
      → (A → Counts)
      → List StageLogEntry
      → Store × Result A
      → RunState × Result A
  log_stage name count log (s, ok a) = (
    record {
      store = s;
      stage_log =
          log
          ++ (record {
            stage = name;
            failed = false;
            input_count = (count a).input_count;
            output_count = (count a).output_count;
            error = none;
            note = (count a).note;
          }
              ∷ []);
    },
    ok a,
  )
  log_stage name count log (s, err e) = (
    record {
      store = s;
      stage_log =
          log
          ++ (record {
            stage = name;
            failed = true;
            input_count = 0;
            output_count = 0;
            error = some (message_of e);
            note = none;
          }
              ∷ []);
    },
    err e,
  )

  unfoldable pub stage : {A : Type 0} → Text → (A → Counts) → M A → RunM A
  unfolding log_stage
  stage name count m r = log_stage name count r.stage_log (m r.store)
