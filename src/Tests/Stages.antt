-- ===== src/Tests/Stages.antt =====
-- The late stages of legacy/packages/analysis-engine/src/pipeline.ts on one candidate.
use content_gap.Prelude.{
  true, false, List, [], ◌∷◌, ◌++◌, Option, none, some, ◌≡◌, ◌≢◌, refl, ap, sym, inl, inr,
  Bool-cases, All,
}
use content_gap.Prelude.Sorting.{IsSorted}
use content_gap.Prelude.Text.{Text, codes, text_eq, trim, trim_start, is_space, index_of}
use content_gap.Shared.Enums.{
  EvidenceRole, PriorityLabel, CritiqueAction, EvidenceStatus, CoverageStatus,
}
use content_gap.Shared.Results.{Result, ok}
use content_gap.Shared.Schemas.Payloads.{CritiqueVerdict}
use content_gap.Llm.Types.{CritiqueInput, LlmResult}
use content_gap.Engine.VerifyEvidence.{verify_quote}
use content_gap.Engine.Pipeline.Store.{M, Store, Verified, chunk_by_id, unit_by_id, record_usage}
use content_gap.Engine.Pipeline.Verification.{verify_candidates}
use content_gap.Engine.Pipeline.Verification.Laws.{IsSupported, verify_candidates-IsSupported}
use content_gap.Engine.Pipeline.Critique.{is_rejection, judge, critique_each}
use content_gap.Engine.Pipeline.Critique.Laws.{IsJudged, Pairwise, critique_each-IsJudged}
use content_gap.Engine.Pipeline.Critique.Duplicates.{
  BothSurviveUnlike, critique_each-BothSurviveUnlike,
}
use content_gap.Engine.Pipeline.Publication.{published, not_published}
use content_gap.Engine.Pipeline.Publication.Pool.{published-not_published-perm}
use mathlib.Core.List.{Permᴰ}
use content_gap.Engine.Pipeline.Publication.Selection.{IsBest, published-IsBest}
use content_gap.Engine.Pipeline.LateStages.Laws.{UnitsKnown}
use content_gap.Tests.Fixtures.{
  chunk, unit, corpus, claim, content, candidate, store, action_on, critique,
}

some-injective : {A : Type 0} {a b : A} → some a ≡ some b → a ≡ b
some-injective h = cc

none-ne-some : {A : Type 0} {a : A} → none ≢ some a
none-ne-some h = cc

corpus-UnitsKnown : UnitsKnown corpus
unfolding chunk_by_id unit_by_id text_eq
corpus-UnitsKnown id c h = elim (Bool-cases (text_eq (codes "c1") id)) [
  | inl e ↦
      let same : chunk ≡ c = some-injective (rw (chunk_by_id, e) at h) in
      (unit, ap (λ d. unit_by_id corpus d.content_unit_id) (sym same))
  | inr e ↦ absurd (none-ne-some (rw (chunk_by_id, e) at h))
]

verify_candidates-IsSupported_example :
    All
      (IsSupported corpus [] [] (candidate ∷ []))
      (verify_candidates corpus [] [] (candidate ∷ []) (codes "g1" ∷ []))
verify_candidates-IsSupported_example =
    verify_candidates-IsSupported corpus [] [] (candidate ∷ []) (codes "g1" ∷ [])

chunk_known : chunk_by_id corpus (codes "c1") ≡ some chunk
unfolding chunk_by_id text_eq
chunk_known = refl

claim_verified : (verify_quote chunk.text claim.exact_quote).verified ≡ true
unfolding verify_quote trim trim_start is_space index_of
claim_verified = refl

-- A candidate that the verification lets pass, and a second one with the same title.
abbrev first : Verified
first = record {
  candidate_id = codes "g1";
  content = content;
  evidence =
      record {
        role = EvidenceRole.customer_demand;
        chunk_id = codes "c1";
        quote = codes "worth it";
        start = 6;
        end = 14;
      }
      ∷ [];
  evidence_status = EvidenceStatus.partial_evidence;
  evidence_status_rule = [];
  coverage_status = CoverageStatus.none;
  coverage_summary = [];
  score = 90;
  label = PriorityLabel.p0_critical_blocker;
  rejected = false;
  rejection_reason = none;
}

abbrev second : Verified
second = record first {
  candidate_id = codes "g2";
  evidence = [];
  score = 40;
  label = PriorityLabel.p3_validate;
}

abbrev log : Text → LlmResult CritiqueVerdict → M (Unit {0})
log = record_usage (codes "p") (codes "r") (codes "fake") (codes "fake") (λ i o. [])

abbrev critiqued : Store × Result (List Verified)
critiqued = critique_each (λ s. s) (λ s. s) corpus critique log [] (first ∷ second ∷ []) store

abbrev verdict : CritiqueAction → Option Text → CritiqueVerdict
verdict action title = record {
  action = action;
  reason = codes "because";
  merge_with_title = title;
}

abbrev judged : List Verified
judged =
    judge (verdict CritiqueAction.accept none) first
    ∷ judge (verdict CritiqueAction.merge (some content.title)) second
    ∷ []

critiqued-judged : critiqued ≡ (critiqued.0, ok judged)
unfolding critique_each text_eq trim trim_start is_space record_usage
critiqued-judged = refl

critique_each-IsJudged_example :
    Pairwise (IsJudged (λ s. s) (λ s. s) corpus critique log) (first ∷ second ∷ []) judged
critique_each-IsJudged_example =
    critique_each-IsJudged (λ s. s) (λ s. s) corpus critique log [] (first ∷ second ∷ []) store
      critiqued.0 judged (refl, (refl, tt)) critiqued-judged

ok-injective : {A : Type 0} {a b : A} → ok a ≡ ok b → a ≡ b
ok-injective h = cc

rejects_duplicates :
    (i : CritiqueInput) (res : LlmResult CritiqueVerdict) (title : Text)
    → critique i ≡ ok res
    → i.is_duplicate_of_title ≡ some title
    → is_rejection res.content.action ≡ true
rejects_duplicates i res title h e =
    let act : action_on i.is_duplicate_of_title ≡ res.content.action =
      ap (λ r. r.content.action) (ok-injective h) in
    rw (← act, e)

critique_each-BothSurviveUnlike_example :
    IsSorted (BothSurviveUnlike (λ s. s) (λ s. s) corpus critique log) judged
critique_each-BothSurviveUnlike_example =
    critique_each-BothSurviveUnlike (λ s. s) (λ s. s) corpus critique log rejects_duplicates
      (first ∷ second ∷ []) store critiqued.0 judged (refl, (refl, tt)) critiqued-judged

published-IsBest_example :
    IsBest 1
      (first ∷ second ∷ [])
      (published 1 (first ∷ second ∷ []))
      (not_published 1 (first ∷ second ∷ []))
published-IsBest_example = published-IsBest 1 (first ∷ second ∷ [])

published-not_published-perm_example :
    Permᴰ
      (published 1 (first ∷ second ∷ []) ++ not_published 1 (first ∷ second ∷ []))
      (first ∷ second ∷ [])
published-not_published-perm_example = published-not_published-perm 1 (first ∷ second ∷ [])
