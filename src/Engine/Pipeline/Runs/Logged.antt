-- ===== src/Engine/Pipeline/Runs/Logged.antt =====
-- What the log of the stages leaves alone: the store and the result.
use content_gap.Prelude.{List, ◌≡◌, refl, ap, ◌∙◌, All}
use content_gap.Prelude.Text.{Text}
use content_gap.Shared.Results.{Failure, Result, ok, err}
use content_gap.Engine.Pipeline.Store
use content_gap.Engine.Pipeline.Store.{M, after, Store, record_usage}
use content_gap.Engine.Pipeline.StageLog.{
  RunState, RunM, done, next, ◌>>=◌, ◌>>◌, StageLogEntry, Counts, log_stage, stage, plain,
}
use content_gap.Engine.Pipeline.Runs.Growth.{Grows, Grows-refl, Grows-trans, Keeps, Owned}
use content_gap.Engine.Pipeline.Runs.Early.{Adds}

abbrev pub erase : {A : Type 0} → RunState × Result A → Store × Result A
erase (r, a) = (r.store, a)

module _ (message_of : Failure → Text) where
  erase-log_stage :
      {A : Type 0} (name : Text) (count : A → Counts) (log : List StageLogEntry)
      (q : Store × Result A)
      → erase (log_stage message_of name count log q) ≡ q
  unfolding log_stage
  erase-log_stage name count log (s, ok a) = refl
  erase-log_stage name count log (s, err e) = refl

-- The code of a run does to the store, and gives, what another computation does and gives.
pub record Logs {A : Type 0} (m : RunM A) (n : M A) : Type 0 where
  pub from : (r : RunState) → erase (m r) ≡ n r.store

erase-next :
    {A B : Type 0} (f : A → RunM B) (g : A → M B) (r : RunState × Result A)
    → ((a : A) → Logs (f a) (g a))
    → erase (next f r) ≡ after g (erase r)
erase-next f g (r, ok a) h = (h a).from r
erase-next f g (r, err e) h = refl

pub Logs-bind :
    {A B : Type 0} {m : RunM A} {f : A → RunM B} {n : M A} {g : A → M B}
    → Logs m n
    → ((a : A) → Logs (f a) (g a))
    → Logs (m >>= f) (Store.◌>>=◌ n g)
Logs-bind {m} {f} {g} h k = record { from = λ r. erase-next f g (m r) k ∙ ap (after g) (h.from r) }

pub Logs-stage :
    (message_of : Failure → Text) {A : Type 0} (name : Text) (count : A → Counts) (m : M A)
    → Logs (stage message_of name count m) m
unfolding stage
Logs-stage message_of name count m = record {
  from = λ r. erase-log_stage message_of name count r.stage_log (m r.store);
}

module _ (project_id : Text) where
  pub record KeepsRun {A : Type 0} (m : RunM A) : Type 0 where
    pub from : (r : RunState) → Grows project_id r.store (m r).0.store

  pub next-Grows :
      {A B : Type 0} {s : Store} (f : A → RunM B) (r : RunState × Result A)
      → Grows project_id s r.0.store
      → ((a : A) → KeepsRun (f a))
      → Grows project_id s (next f r).0.store
  next-Grows f (r, ok a) h k = Grows-trans project_id h ((k a).from r)
  next-Grows f (r, err e) h k = h

  pub KeepsRun-bind :
      {A B : Type 0} {m : RunM A} {f : A → RunM B}
      → KeepsRun m
      → ((a : A) → KeepsRun (f a))
      → KeepsRun (m >>= f)
  KeepsRun-bind {m} {f} h k = record { from = λ r. next-Grows f (m r) (h.from r) k }

  pub KeepsRun-then :
      {A B : Type 0} {m : RunM A} {k : RunM B} → KeepsRun m → KeepsRun k → KeepsRun (m >> k)
  KeepsRun-then {m} {k} h l = record { from = λ r. next-Grows (λ _. k) (m r) (h.from r) (λ _. l) }

  pub KeepsRun-done : {A : Type 0} (a : A) → KeepsRun (done a)
  KeepsRun-done a = record { from = λ r. Grows-refl project_id r.store }

  pub KeepsRun-plain : {A : Type 0} {m : M A} → Keeps project_id m → KeepsRun (plain m)
  unfolding plain
  KeepsRun-plain h = record { from = λ r. h.from r.store }

  module _ (message_of : Failure → Text) where
    pub log_stage-Grows :
        {A : Type 0} {s : Store} (name : Text) (count : A → Counts) (log : List StageLogEntry)
        (q : Store × Result A)
        → Grows project_id s q.0
        → Grows project_id s (log_stage message_of name count log q).0.store
    unfolding log_stage
    log_stage-Grows name count log (t, ok a) h = h
    log_stage-Grows name count log (t, err e) h = h

    pub KeepsRun-stage :
        {A : Type 0} (name : Text) (count : A → Counts) {m : M A}
        → Keeps project_id m
        → KeepsRun (stage message_of name count m)
    unfolding stage
    KeepsRun-stage name count {m} h = record {
      from = λ r. log_stage-Grows name count r.stage_log (m r.store) (h.from r.store);
    }

    -- A stage that gives ids of units of the project, and what is done with them.
    pub ids-Grows :
        {B : Type 0} {s : Store} (name : Text) (count : List Text → Counts)
        (log : List StageLogEntry) (f : List Text → RunM B) (q : Store × Result (List Text))
        → Adds project_id s q
        → ((ids : List Text) (r : RunState)
            → All (Owned project_id r.store.content_units) ids
            → Grows project_id r.store (f ids r).0.store)
        → Grows project_id s (next f (log_stage message_of name count log q)).0.store
    unfolding log_stage
    ids-Grows name count log f (t, ok ids) a k = Grows-trans project_id a.grows (k ids _ a.new)
    ids-Grows name count log f (t, err e) a k = a.grows
