-- ===== src/Engine/Pipeline/Runs/Entries.antt =====
-- The log of the stages: what code of a run adds to it.
use content_gap.Prelude.{
  Bool, true, false, List, [], ◌∷◌, ◌++◌, map, append-nil, append_assoc, ◌≡◌, refl, sym, ap, ◌∙◌,
  ◌⊎◌, inl, inr,
}
use content_gap.Prelude.Text.{Text}
use content_gap.Shared.Results.{Failure, Result, ok, err}
use content_gap.Engine.Pipeline.Store.{M, Store}
use content_gap.Engine.Pipeline.StageLog.{
  StageLogEntry, RunState, RunM, done, next, ◌>>=◌, Counts, log_stage, stage, plain,
}
use mathlib.Core.List.{map-append}

-- The name of the stage of each entry, and whether it failed.
abbrev pub marks : List StageLogEntry → List (Text × Bool)
marks log = map (λ e. (e.stage, e.failed)) log

abbrev pub passed : List Text → List (Text × Bool)
passed names = map (λ n. (n, false)) names

-- A log that stops within the named stages: some of the first of them passed, and then the next one
-- failed, or code that stands in no stage did.
pub record Stopped (names : List Text) (before log : List StageLogEntry) : Type 0 where
  pub finished : List Text
  pub left : List Text
  pub split : finished ++ left ≡ names
  pub last : List (Text × Bool)
  pub failing :
      (last ≡ [])
      ⊎ ((name : Text) × (later : List Text) × (left ≡ name ∷ later) × (last ≡ (name, true) ∷ []))
  pub logged : marks log ≡ marks before ++ (passed finished ++ last)

abbrev pub RunLogs : {A : Type 0} → List Text → List StageLogEntry → RunState × Result A → Type 0
RunLogs names before (r, ok a) = marks r.stage_log ≡ marks before ++ passed names
RunLogs names before (r, err e) = Stopped names before r.stage_log

pub record InOrder {A : Type 0} (names : List Text) (m : RunM A) : Type 0 where
  pub from : (r : RunState) → RunLogs names r.stage_log (m r)

after_passed :
    {A : Type 0} (ns ks : List Text) (before middle : List StageLogEntry) (q : RunState × Result A)
    → marks middle ≡ marks before ++ passed ns
    → RunLogs ks middle q
    → RunLogs (ns ++ ks) before q
after_passed ns ks before middle (r, ok a) e h =
    h
    ∙ ap (λ l. l ++ passed ks) e
    ∙ append_assoc (marks before) (passed ns) (passed ks)
    ∙ ap (λ l. marks before ++ l) (sym (map-append (λ n. (n, false)) ns ks))
after_passed ns ks before middle (r, err f) e h = record {
  finished = ns ++ h.finished;
  left = h.left;
  split = append_assoc ns h.finished h.left ∙ ap (λ l. ns ++ l) h.split;
  last = h.last;
  failing = h.failing;
  logged =
      h.logged
      ∙ ap (λ l. l ++ (passed h.finished ++ h.last)) e
      ∙ append_assoc (marks before) (passed ns) (passed h.finished ++ h.last)
      ∙ ap (λ l. marks before ++ l)
          (sym (append_assoc (passed ns) (passed h.finished) h.last)
            ∙ ap (λ l. l ++ h.last) (sym (map-append (λ n. (n, false)) ns h.finished)));
}

longer_failing :
    (left ks : List Text) (last : List (Text × Bool))
    → (last ≡ [])
      ⊎ ((name : Text) × (later : List Text) × (left ≡ name ∷ later) × (last ≡ (name, true) ∷ []))
    → (last ≡ [])
      ⊎ ((name : Text) × (later : List Text) × (left ++ ks ≡ name ∷ later)
          × (last ≡ (name, true) ∷ []))
longer_failing left ks last (inl e) = inl e
longer_failing left ks last (inr (name, later, e, f)) =
    inr (name, later ++ ks, ap (λ l. l ++ ks) e, f)

next-RunLogs :
    {A B : Type 0} (ns ks : List Text) (before : List StageLogEntry) (f : A → RunM B)
    (r : RunState × Result A)
    → RunLogs ns before r
    → ((a : A) → InOrder ks (f a))
    → RunLogs (ns ++ ks) before (next f r)
next-RunLogs ns ks before f (r, ok a) h k =
    after_passed ns ks before r.stage_log (f a r) h ((k a).from r)
next-RunLogs ns ks before f (r, err e) h k = record {
  finished = h.finished;
  left = h.left ++ ks;
  split = sym (append_assoc h.finished h.left ks) ∙ ap (λ l. l ++ ks) h.split;
  last = h.last;
  failing = longer_failing h.left ks h.last h.failing;
  logged = h.logged;
}

pub InOrder-bind :
    {A B : Type 0} (ns ks : List Text) {m : RunM A} {f : A → RunM B}
    → InOrder ns m
    → ((a : A) → InOrder ks (f a))
    → InOrder (ns ++ ks) (m >>= f)
InOrder-bind ns ks {m} {f} h k = record {
  from = λ r. next-RunLogs ns ks r.stage_log f (m r) (h.from r) k;
}

pub InOrder-done : {A : Type 0} (a : A) → InOrder [] (done a)
InOrder-done a = record { from = λ r. sym (append-nil (marks r.stage_log)) }

-- A state whose store is replaced has the same log.
same_log-RunLogs :
    {A : Type 0} (r : RunState) (q : Store × Result A)
    → RunLogs [] r.stage_log (record r { store = q.0 }, q.1)
same_log-RunLogs r (t, ok a) = sym (append-nil (marks r.stage_log))
same_log-RunLogs r (t, err e) = record {
  finished = [];
  left = [];
  split = refl;
  last = [];
  failing = inl refl;
  logged = sym (append-nil (marks r.stage_log));
}

pub InOrder-plain : {A : Type 0} (m : M A) → InOrder [] (plain m)
unfolding plain
InOrder-plain m = record { from = λ r. same_log-RunLogs r (m r.store) }

module _ (message_of : Failure → Text) where
  log_stage-RunLogs :
      {A : Type 0} (name : Text) (count : A → Counts) (log : List StageLogEntry)
      (q : Store × Result A)
      → RunLogs (name ∷ []) log (log_stage message_of name count log q)
  unfolding log_stage
  log_stage-RunLogs name count log (s, ok a) = map-append (λ e. (e.stage, e.failed)) log _
  log_stage-RunLogs name count log (s, err e) = record {
    finished = [];
    left = name ∷ [];
    split = refl;
    last = (name, true) ∷ [];
    failing = inr (name, [], refl, refl);
    logged = map-append (λ e. (e.stage, e.failed)) log _;
  }

  pub InOrder-stage :
      {A : Type 0} (name : Text) (count : A → Counts) (m : M A)
      → InOrder (name ∷ []) (stage message_of name count m)
  unfolding stage
  InOrder-stage name count m = record {
    from = λ r. log_stage-RunLogs name count r.stage_log (m r.store);
  }
