-- ===== src/Engine/Pipeline/Critique.antt =====
-- legacy/packages/analysis-engine/src/pipeline.ts, stage `critique-rejection`: the model's verdict on
-- each candidate, what is made of it, and the priority that follows.
pub mod Laws
pub mod Duplicates
use content_gap.Prelude.{
  ℕ, ◌+◌, Bool, true, false, not, ◌&&◌, ◌||◌, List, [], ◌∷◌, ◌++◌, Option, none, some, map, find,
  any, if◌then◌else◌, leb,
}
use content_gap.Prelude.Text.{Text, codes, has, includes}
use content_gap.Shared.Enums.{CritiqueAction, EvidenceStatus, GapCandidateStatus, OwnerType}
use content_gap.Shared.EvidenceStatus.{is_voc, is_customer_demand, is_strong}
use content_gap.Shared.Priority.{prioritize}
use content_gap.Shared.Results.{Result}
use content_gap.Shared.Schemas.Payloads.{CritiqueVerdict}
use content_gap.Database.Tables.{GapCandidate}
use content_gap.Llm.Types.{CritiqueInput, LlmResult}
use content_gap.Engine.Pipeline.Store.{
  M, pure, lift, after, ◌>>=◌, ◌>>◌, modify, Store, Verified, Corpus, owner_of_chunk,
  update_candidate,
}
use content_gap.Engine.Pipeline.Titles.{title_similar}

abbrev ascii_lower : ℕ → ℕ
ascii_lower c = if leb 65 c && leb c 90 then c + 32 else c

-- The two Arabic words of the regular expression, for support and for an invoice.
abbrev pub arabic_support : Text
arabic_support = 0x62f ∷ 0x639 ∷ 0x645 ∷ []

abbrev pub arabic_invoice : Text
arabic_invoice = 0x641 ∷ 0x627 ∷ 0x62a ∷ 0x648 ∷ 0x631 ∷ 0x629 ∷ []

-- `/support|billing|refund|…/i.test(title)`; without the flag `u`, only letters of ASCII stand for
-- the letters of the pattern in both cases.
unfoldable pub looks_like_non_content_problem : Text → Bool
looks_like_non_content_problem title =
    let t = map ascii_lower title in
    includes t (codes "support")
    || includes t (codes "billing")
    || includes t (codes "refund")
    || includes t arabic_support
    || includes t arabic_invoice

unfoldable pub action_literal : CritiqueAction → Text
action_literal CritiqueAction.accept = codes "ACCEPT"
action_literal CritiqueAction.downgrade = codes "DOWNGRADE"
action_literal CritiqueAction.merge = codes "MERGE"
action_literal CritiqueAction.reject = codes "REJECT"
action_literal CritiqueAction.mark_non_content = codes "MARK_NON_CONTENT"

abbrev pub is_rejection : CritiqueAction → Bool
is_rejection CritiqueAction.reject = true
is_rejection CritiqueAction.mark_non_content = true
is_rejection CritiqueAction.merge = true
is_rejection _ = false

abbrev pub downgraded : CritiqueAction → EvidenceStatus → EvidenceStatus
downgraded CritiqueAction.downgrade status = EvidenceStatus.hypothesis
downgraded _ status = status

-- The branches on the action of a verdict.
unfoldable pub apply_verdict : CritiqueVerdict → Verified → Verified
unfolding action_literal
apply_verdict verdict v =
    if is_rejection verdict.action
    then record v {
      rejected = true;
      rejection_reason = some (action_literal verdict.action ++ (codes ": " ++ verdict.reason));
    }
    else record v { evidence_status = downgraded verdict.action v.evidence_status }

unfoldable pub set_priority : Verified → Verified
set_priority v =
    let pr = prioritize v.content.ranking_components v.rejected in
    record v { score = pr.score; label = pr.label }

unfoldable pub judge : CritiqueVerdict → Verified → Verified
unfolding apply_verdict set_priority
judge verdict v = set_priority (apply_verdict verdict v)

-- `titlesSeen.set(title, …)`, of which only the keys are read.
unfoldable pub see_title : Text → List Text → List Text
see_title title seen = if has seen title then seen else seen ++ (title ∷ [])

unfoldable pub store_judgement : Verified → GapCandidate → GapCandidate
store_judgement v c = record c {
  status = if v.rejected then GapCandidateStatus.rejected else GapCandidateStatus.verified;
  rejection_reason = v.rejection_reason;
  priority_score = v.score;
  priority_label = v.label;
}

module _ (to_lower_case strip_symbols : Text → Text) (corpus : Corpus)
    (critique : CritiqueInput → Result (LlmResult CritiqueVerdict))
    (record_usage : Text → LlmResult CritiqueVerdict → M (Unit {0})) where
  unfoldable pub critique_input : List Text → Verified → CritiqueInput
  unfolding owner_of_chunk title_similar looks_like_non_content_problem
  critique_input titles_seen v = record {
    title = v.content.title;
    gap_type = v.content.gap_type;
    cohort_id = v.content.cohort_id;
    coverage_status = v.coverage_status;
    has_verified_customer_demand =
        any (λ e. is_voc (owner_of_chunk corpus e.chunk_id) || is_customer_demand e.role)
          v.evidence;
    has_verified_owned_coverage_already = is_strong v.coverage_status;
    is_duplicate_of_title =
        find (λ t. title_similar to_lower_case strip_symbols t v.content.title) titles_seen;
    looks_like_non_content_problem = looks_like_non_content_problem v.content.title;
  }

  -- A round of the loop, up to the update of the candidate's row.
  unfoldable pub critique_one : List Text → Verified → M CritiqueVerdict
  unfolding critique_input judge update_candidate store_judgement
  critique_one titles_seen v = do
    res ← lift (critique (critique_input titles_seen v))
    record_usage (codes "critique") res
    update_candidate v.candidate_id (store_judgement (judge res.content v))
    pure res.content

  -- The titles that the next round knows.
  unfoldable pub seen_after : CritiqueVerdict → Verified → List Text → List Text
  unfolding see_title
  seen_after verdict v titles_seen =
      if is_rejection verdict.action then titles_seen else see_title v.content.title titles_seen

  -- The loop of the stage.
  unfoldable pub critique_each : List Text → List Verified → M (List Verified)
  unfolding critique_one seen_after judge
  critique_each titles_seen [] = pure []
  critique_each titles_seen (v ∷ vs) = do
    verdict ← critique_one titles_seen v
    rest ← critique_each (seen_after verdict v titles_seen) vs
    pure (judge verdict v ∷ rest)
