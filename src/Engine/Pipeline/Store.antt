-- ===== src/Engine/Pipeline/Store.antt =====
-- legacy/packages/analysis-engine/src/pipeline.ts: what the stages read and write, and the monad of
-- their code. A failure keeps what was written before it: no stage runs in a transaction.
use content_gap.Prelude.{
  ℕ, suc, ◌+◌, Bool, find, List, [], ◌∷◌, ◌++◌, Option, none, some, map, if◌then◌else◌, ◌≡◌, refl,
  ◌⊎◌, inl, inr,
}
use content_gap.Prelude.Text.{Text, text_eq, map_get}
use content_gap.Shared.Enums.{OwnerType}
use content_gap.Shared.Results.{Failure, Result, ok, err}
use content_gap.Shared.Schemas.Payloads.{CandidateGap}
use content_gap.Shared.Enums.{EvidenceRole, EvidenceStatus, CoverageStatus, PriorityLabel}
use content_gap.Database.Tables.{
  GapCandidate, Gap, GapEvidence, Chunk, ContentUnit, ExtractedSignalRow, DecisionNeed,
  CoverageCell,
}
use content_gap.Llm.Types.{LlmResult}

-- `usageEvents`; `cost` is the text of `estimateCostUsd`.
pub record UsageEvent : Type 0 where
  pub project_id : Text
  pub run_id : Text
  pub provider : Text
  pub model : Text
  pub operation : Text
  pub input_tokens : ℕ
  pub output_tokens : ℕ
  pub estimated_cost : Text

pub record UsageAccumulator : Type 0 where
  pub input_tokens : ℕ
  pub output_tokens : ℕ
  pub calls : ℕ
  pub suspicious : List Text

-- The tables that the stages write, and the variables of the run. `next_id` counts the ids that
-- the database has given out.
pub record Store : Type 0 where
  pub content_units : List ContentUnit
  pub chunks : List Chunk
  pub extracted_signals : List ExtractedSignalRow
  pub decision_needs : List DecisionNeed
  pub coverage_cells : List CoverageCell
  pub gap_candidates : List GapCandidate
  pub gaps : List Gap
  pub gap_evidence : List GapEvidence
  pub usage_events : List UsageEvent
  pub usage : UsageAccumulator
  pub published_gap_ids : List Text
  pub next_id : ℕ

abbrev pub M : Type 0 → Type 0
M A = Store → Store × Result A

abbrev pub pure : {A : Type 0} → A → M A
pure a s = (s, ok a)

abbrev pub throw : {A : Type 0} → Failure → M A
throw e s = (s, err e)

abbrev pub lift : {A : Type 0} → Result A → M A
lift r s = (s, r)

abbrev pub after : {A B : Type 0} → (A → M B) → Store × Result A → Store × Result B
after f (s, ok a) = f a s
after f (s, err e) = (s, err e)

infixl 5 ◌>>=◌ ◌>>◌
abbrev pub ◌>>=◌ : {A B : Type 0} → M A → (A → M B) → M B
◌>>=◌ m f s = after f (m s)

abbrev pub ◌>>◌ : {A B : Type 0} → M A → M B → M B
m >> k = m >>= λ _. k

abbrev pub modify : (Store → Store) → M (Unit {0})
modify f s = (f s, ok tt)

pub after-eq-ok :
    {A B : Type 0} (f : A → M B) (r : Store × Result A) {t : Store} {b : B}
    → after f r ≡ (t, ok b)
    → (a : A) × (s : Store) × (r ≡ (s, ok a)) × (f a s ≡ (t, ok b))
after-eq-ok f (s, ok a) h = (a, s, refl, h)
after-eq-ok f (s, err e) h = cc

pub outcome-cases :
    {A : Type 0} (r : Store × Result A)
    → ((s : Store) × (a : A) × (r ≡ (s, ok a))) ⊎ ((s : Store) × (e : Failure) × (r ≡ (s, err e)))
outcome-cases (s, ok a) = inl (s, a, refl)
outcome-cases (s, err e) = inr (s, e, refl)

-- An element of `evidence` of `Verified`.
pub record VerifiedEvidence : Type 0 where
  pub role : EvidenceRole
  pub chunk_id : Text
  pub quote : Text
  pub start : ℕ
  pub end : ℕ

pub record Verified : Type 0 where
  pub candidate_id : Text
  pub content : CandidateGap
  pub evidence : List VerifiedEvidence
  pub evidence_status : EvidenceStatus
  pub evidence_status_rule : Text
  pub coverage_status : CoverageStatus
  pub coverage_summary : Text
  pub score : ℕ
  pub label : PriorityLabel
  pub rejected : Bool
  pub rejection_reason : Option Text

-- The corpus of the project, loaded before the late stages.
pub record Corpus : Type 0 where
  pub chunks : List Chunk
  pub units : List ContentUnit

unfoldable pub chunk_by_id : Corpus → Text → Option Chunk
unfolding map_get
chunk_by_id corpus id = map_get (λ c. c.id) id corpus.chunks

-- `allUnits.find((u) => u.id === id)`
unfoldable pub unit_by_id : Corpus → Text → Option ContentUnit
unit_by_id corpus id = find (λ u. text_eq u.id id) corpus.units

unfoldable pub owner_of_chunk : Corpus → Text → OwnerType
unfolding chunk_by_id unit_by_id
owner_of_chunk corpus chunk_id = elim (chunk_by_id corpus chunk_id) [
  | none ↦ OwnerType.owned
  | some ch ↦ elim (unit_by_id corpus ch.content_unit_id) [
    | none ↦ OwnerType.owned
    | some unit ↦ unit.owner_type
  ]
]

module _ (project_id run_id provider model : Text) (estimate_cost_usd : ℕ → ℕ → Text) where
  -- `recordUsage`
  unfoldable pub record_usage : {T : Type 0} → Text → LlmResult T → M (Unit {0})
  record_usage operation u = modify λ s. record s {
    usage = record {
      input_tokens = s.usage.input_tokens + u.usage.input_tokens;
      output_tokens = s.usage.output_tokens + u.usage.output_tokens;
      calls = suc s.usage.calls;
      suspicious = s.usage.suspicious ++ u.suspicious_instructions;
    };
    usage_events =
        s.usage_events
        ++ record {
          project_id = project_id;
          run_id = run_id;
          provider = provider;
          model = model;
          operation = operation;
          input_tokens = u.usage.input_tokens;
          output_tokens = u.usage.output_tokens;
          estimated_cost = estimate_cost_usd u.usage.input_tokens u.usage.output_tokens;
        }
          ∷ [];
  }

-- `UPDATE gap_candidates SET … WHERE id = …`
unfoldable pub update_candidate : Text → (GapCandidate → GapCandidate) → M (Unit {0})
update_candidate id f = modify λ s. record s {
  gap_candidates = map (λ c. if text_eq c.id id then f c else c) s.gap_candidates;
}

-- `date_error` is what the database throws for a text that it does not take for a date.
abbrev pub refused_date : (Text → Option Failure) → Option Text → Option Failure
refused_date date_error none = none
refused_date date_error (some date) = date_error date

-- `INSERT … RETURNING id` of a row that is made with the id of the database.
module _ (new_id : ℕ → Text) where
  -- `published_at` is a column of dates.
  unfoldable pub insert_unit : (Text → Option Failure) → (Text → ContentUnit) → M Text
  insert_unit date_error row s =
      let id = new_id s.next_id in
      elim (refused_date date_error (row id).published_at) [
        | none ↦ (
          record s { content_units = s.content_units ++ (row id ∷ []); next_id = suc s.next_id },
          ok id,
        )
        | some e ↦ (s, err e)
      ]

  unfoldable pub insert_chunk : (Text → Chunk) → M (Unit {0})
  insert_chunk row s = (
    record s { chunks = s.chunks ++ (row (new_id s.next_id) ∷ []); next_id = suc s.next_id },
    ok tt,
  )

  unfoldable pub insert_signal : (Text → ExtractedSignalRow) → M (Unit {0})
  insert_signal row s = (
    record s {
      extracted_signals = s.extracted_signals ++ (row (new_id s.next_id) ∷ []);
      next_id = suc s.next_id;
    },
    ok tt,
  )

  unfoldable pub insert_need : (Text → DecisionNeed) → M Text
  insert_need row s =
      let id = new_id s.next_id in
      (
        record s { decision_needs = s.decision_needs ++ (row id ∷ []); next_id = suc s.next_id },
        ok id,
      )
