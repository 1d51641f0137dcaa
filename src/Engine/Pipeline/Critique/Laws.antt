-- ===== src/Engine/Pipeline/Critique/Laws.antt =====
-- What the stage `critique-rejection` makes of the verdicts.
use content_gap.Prelude.{
  true, false, List, [], ◌∷◌, ◌++◌, some, ◌≡◌, refl, ap, sym, ◌∙◌, ◌⊎◌, inl, inr, ◌↔◌, ◌≢◌, arith,
  Bool-cases, All,
}
use content_gap.Prelude.Text.{codes, Text, codes}
use content_gap.Shared.Enums.{CritiqueAction, EvidenceStatus, PriorityLabel}
use content_gap.Shared.Priority.{compute_priority_score, priority_label_for, prioritize}
use content_gap.Shared.Results.{Result, ok}
use content_gap.Shared.Schemas.Payloads.{CritiqueVerdict}
use content_gap.Llm.Types.{CritiqueInput, LlmResult}
use content_gap.Engine.Pipeline.Store.{
  M, pure, ◌>>=◌, ◌>>◌, after-eq-ok, Store, Verified, Corpus, update_candidate,
}
use content_gap.Engine.Pipeline.Critique.{
  action_literal, is_rejection, downgraded, apply_verdict, set_priority, judge, store_judgement,
  critique_input, critique_one, seen_after, critique_each,
}

-- What a candidate becomes by a verdict: it is rejected exactly when the verdict says so, for the reason
-- that the verdict gives; its evidence becomes a hypothesis when the verdict lowers it, and is left alone
-- otherwise; its score and its label are those of its components, and a rejected one is labelled so.
pub record IsJudgement (r : CritiqueVerdict) (v w : Verified) : Type 0 where
  pub same_id : w.candidate_id ≡ v.candidate_id
  pub same_content : w.content ≡ v.content
  pub same_evidence : w.evidence ≡ v.evidence
  pub rejected : (w.rejected ≡ true) ↔ (
      (r.action ≡ CritiqueAction.reject)
      ⊎ (r.action ≡ CritiqueAction.merge)
      ⊎ (r.action ≡ CritiqueAction.mark_non_content))
  pub reason :
      w.rejected ≡ true
      → w.rejection_reason ≡ some (action_literal r.action ++ (codes ": " ++ r.reason))
  pub lowered : r.action ≡ CritiqueAction.downgrade → w.evidence_status ≡ EvidenceStatus.hypothesis
  pub kept : r.action ≢ CritiqueAction.downgrade → w.evidence_status ≡ v.evidence_status
  pub score : w.score ≡ compute_priority_score v.content.ranking_components
  pub label : w.label ≡ priority_label_for w.score w.rejected
  pub rejected_label : w.rejected ≡ true → w.label ≡ PriorityLabel.p5_reject

pub judge-rejected :
    (r : CritiqueVerdict) (v : Verified)
    → v.rejected ≡ false
    → (judge r v).rejected ≡ is_rejection r.action
unfolding judge apply_verdict set_priority
judge-rejected r v n = elim (Bool-cases (is_rejection r.action)) [
  | inl e ↦ rw (judge, set_priority, apply_verdict, e)
  | inr e ↦ rw (judge, set_priority, apply_verdict, e, n)
]

rejection_iff :
    (a : CritiqueAction)
    → (is_rejection a ≡ true) ↔ (
        (a ≡ CritiqueAction.reject)
        ⊎ (a ≡ CritiqueAction.merge)
        ⊎ (a ≡ CritiqueAction.mark_non_content))
rejection_iff a = ground arith

downgraded-kept :
    (a : CritiqueAction) (s : EvidenceStatus) → a ≢ CritiqueAction.downgrade → downgraded a s ≡ s
downgraded-kept CritiqueAction.downgrade s h = absurd (h refl)
downgraded-kept CritiqueAction.accept s h = refl
downgraded-kept CritiqueAction.merge s h = refl
downgraded-kept CritiqueAction.reject s h = refl
downgraded-kept CritiqueAction.mark_non_content s h = refl

pub judge-IsJudgement :
    (r : CritiqueVerdict) (v : Verified) → v.rejected ≡ false → IsJudgement r v (judge r v)
unfolding judge apply_verdict set_priority prioritize priority_label_for
judge-IsJudgement r v n = elim (Bool-cases (is_rejection r.action)) [
  | inl e ↦
      rw (judge, set_priority, apply_verdict, e)
        record {
          same_id = refl;
          same_content = refl;
          same_evidence = refl;
          rejected = ((λ h. (rejection_iff r.action).0 e), (λ h. refl));
          reason = λ h. refl;
          lowered = λ q. cc (ap is_rejection q, e);
          kept = λ q. refl;
          score = refl;
          label = refl;
          rejected_label = λ h. refl;
        }
  | inr e ↦
      rw (judge, set_priority, apply_verdict, e)
        record {
          same_id = refl;
          same_content = refl;
          same_evidence = refl;
          rejected = ((λ h. cc (h, n)), (λ h. cc ((rejection_iff r.action).1 h, e)));
          reason = λ h. cc (h, n);
          lowered = λ q. ap (λ a. downgraded a v.evidence_status) q;
          kept = downgraded-kept r.action v.evidence_status;
          score = refl;
          label = refl;
          rejected_label = λ h. cc (h, n);
        }
]

pub ok-injective : {A : Type 0} {a b : A} → ok a ≡ ok b → a ≡ b
ok-injective h = cc

-- Lists of one length whose elements are related one by one.
abbrev pub Pairwise : {A B : Type 0} → (A → B → Type 0) → List A → List B → Type 0
Pairwise R [] [] = Unit
Pairwise R [] (y ∷ ys) = ⊥
Pairwise R (x ∷ xs) [] = ⊥
Pairwise R (x ∷ xs) (y ∷ ys) = R x y × Pairwise R xs ys

module _ (to_lower_case strip_symbols : Text → Text) (corpus : Corpus)
    (critique : CritiqueInput → Result (LlmResult CritiqueVerdict))
    (record_usage : Text → LlmResult CritiqueVerdict → M (Unit {0})) where
  abbrev run : List Text → List Verified → M (List Verified)
  run = critique_each to_lower_case strip_symbols corpus critique record_usage

  abbrev one : List Text → Verified → M CritiqueVerdict
  one = critique_one to_lower_case strip_symbols corpus critique record_usage

  abbrev ask : List Text → Verified → CritiqueInput
  ask = critique_input to_lower_case strip_symbols corpus critique record_usage

  abbrev next_seen : CritiqueVerdict → Verified → List Text → List Text
  next_seen = seen_after to_lower_case strip_symbols corpus critique record_usage

  critique_one-answer :
      (seen : List Text) (v : Verified) (s t : Store) (r : CritiqueVerdict)
      → one seen v s ≡ (t, ok r)
      → (res : LlmResult CritiqueVerdict) × (critique (ask seen v) ≡ ok res) × (res.content ≡ r)
  unfolding critique_one
  critique_one-answer seen v s t r h =
      let (res, s1, e1, h1) =
        after-eq-ok
          (λ res.
            record_usage (codes "critique") res
            >> (update_candidate v.candidate_id (store_judgement (judge res.content v))
                >> pure res.content))
          (s, critique (ask seen v)) h in
      let (x, s2, e2, h2) =
        after-eq-ok
          (λ x.
            update_candidate v.candidate_id (store_judgement (judge res.content v))
            >> pure res.content)
          (record_usage (codes "critique") res s1) h1 in
      (res, ap (λ p. p.1) e1, ok-injective (ap (λ p. p.1) h2))

  -- A round of the loop that succeeds.
  pub record Round (seen : List Text) (v : Verified) (vs : List Verified) (t : Store)
      (ws : List Verified) : Type 0 where
    pub answer : LlmResult CritiqueVerdict
    pub answered : critique (ask seen v) ≡ ok answer
    pub store : Store
    pub rest : List Verified
    pub continued : run (next_seen answer.content v seen) vs store ≡ (t, ok rest)
    pub result : ws ≡ judge answer.content v ∷ rest

  pub critique_each-cons :
      (seen : List Text) (v : Verified) (vs : List Verified) (s t : Store) (ws : List Verified)
      → run seen (v ∷ vs) s ≡ (t, ok ws)
      → Round seen v vs t ws
  unfolding critique_each
  critique_each-cons seen v vs s t ws h =
      let (r, s1, e1, h1) =
        after-eq-ok (λ r. run (next_seen r v seen) vs >>= λ rest. pure (judge r v ∷ rest))
          (one seen v s) h in
      let (rest, s2, e2, h2) =
        after-eq-ok (λ rest. pure (judge r v ∷ rest)) (run (next_seen r v seen) vs s1) h1 in
      let (res, answered, same) = critique_one-answer seen v s s1 r e1 in
      record {
        answer = res;
        answered = answered;
        store = s1;
        rest = rest;
        continued = rw same (e2 ∙ ap (λ q. (q, ok rest)) (ap (λ p. p.0) h2));
        result = rw same (sym (ok-injective (ap (λ p. p.1) h2)));
      }

  -- The model was asked about a candidate, and another follows from its verdict.
  pub record IsJudged (v w : Verified) : Type 0 where
    pub titles_seen : List Text
    pub answer : LlmResult CritiqueVerdict
    pub answered : critique (ask titles_seen v) ≡ ok answer
    pub judgement : IsJudgement answer.content v w

  -- When the stage succeeds, its candidates are those it was given, in their order, each as the model's
  -- verdict on it says: it is rejected exactly when the verdict is to reject, to merge or that it is no
  -- matter of content, for the verdict's reason, and is then labelled for rejection; its evidence
  -- becomes a hypothesis when the verdict lowers it, and keeps its status otherwise; its id, data and
  -- evidence are kept, and its score is the weighted sum of its components.
  pub critique_each-IsJudged :
      (seen : List Text) (vs : List Verified) (s t : Store) (ws : List Verified)
      → All (λ v. v.rejected ≡ false) vs
      → run seen vs s ≡ (t, ok ws)
      → Pairwise IsJudged vs ws
  unfolding critique_each
  critique_each-IsJudged seen [] s t ws n h =
      let nil : ws ≡ [] = sym (ok-injective (ap (λ p. p.1) h)) in rw nil tt
  critique_each-IsJudged seen (v ∷ vs) s t ws n h =
      let r = critique_each-cons seen v vs s t ws h in
      rw r.result (
        record {
          titles_seen = seen;
          answer = r.answer;
          answered = r.answered;
          judgement = judge-IsJudgement r.answer.content v n.0;
        },
        critique_each-IsJudged (next_seen r.answer.content v seen) vs r.store t r.rest n.1
            r.continued,
      )
