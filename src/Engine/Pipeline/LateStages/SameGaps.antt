-- ===== src/Engine/Pipeline/LateStages/SameGaps.antt =====
-- The critique leaves the published gaps alone.
use content_gap.Prelude.{◌≤◌, List, [], ◌∷◌, ◌≡◌, refl, ◌∙◌, inl, inr, arith}
use content_gap.Prelude.Text.{Text}
use content_gap.Shared.Results.{Result, ok, err, Result-cases}
use content_gap.Shared.Schemas.Payloads.{CritiqueVerdict}
use content_gap.Llm.Types.{CritiqueInput, LlmResult}
use content_gap.Engine.Pipeline.Store.{
  M, pure, after, ◌>>=◌, Store, Verified, record_usage, update_candidate,
}
use content_gap.Engine.Pipeline.Critique.{
  judge, critique_one, critique_each, critique_input, seen_after,
}
use content_gap.Engine.Pipeline.LateStages.{Run}

-- Two stores with the same published gaps.
pub record SameGaps (s t : Store) : Type 0 where
  pub gaps : t.gaps ≡ s.gaps
  pub gap_evidence : t.gap_evidence ≡ s.gap_evidence
  pub ids : t.published_gap_ids ≡ s.published_gap_ids
  pub next : t.next_id ≡ s.next_id
  pub calls : s.usage.calls ≤ t.usage.calls

SameGaps-refl : (s : Store) → SameGaps s s
SameGaps-refl s = record {
  gaps = refl;
  gap_evidence = refl;
  ids = refl;
  next = refl;
  calls = omega arith;
}

SameGaps-trans : {s t u : Store} → SameGaps s t → SameGaps t u → SameGaps s u
SameGaps-trans p q = record {
  gaps = q.gaps ∙ p.gaps;
  gap_evidence = q.gap_evidence ∙ p.gap_evidence;
  ids = q.ids ∙ p.ids;
  next = q.next ∙ p.next;
  calls = omega (arith, p.calls, q.calls);
}

after-SameGaps :
    {A B : Type 0} {s : Store} (f : A → M B) (r : Store × Result A)
    → SameGaps s r.0
    → ((a : A) (t : Store) → SameGaps t (f a t).0)
    → SameGaps s (after f r).0
after-SameGaps f (t, ok a) h k = SameGaps-trans h (k a t)
after-SameGaps f (t, err e) h k = h

module _ (run : Run) where
  abbrev pub log : Text → LlmResult CritiqueVerdict → M (Unit {0})
  log = record_usage run.project_id run.run_id run.provider run.model run.estimate_cost_usd

  abbrev one : List Text → Verified → M CritiqueVerdict
  one = critique_one run.to_lower_case run.strip_symbols run.corpus run.critique log

  abbrev loop : List Text → List Verified → M (List Verified)
  loop = critique_each run.to_lower_case run.strip_symbols run.corpus run.critique log

  abbrev ask : List Text → Verified → CritiqueInput
  ask = critique_input run.to_lower_case run.strip_symbols run.corpus run.critique log

  abbrev next_seen : CritiqueVerdict → Verified → List Text → List Text
  next_seen = seen_after run.to_lower_case run.strip_symbols run.corpus run.critique log

  critique_one-SameGaps :
      (seen : List Text) (v : Verified) (s : Store) → SameGaps s (one seen v s).0
  unfolding critique_one record_usage update_candidate
  critique_one-SameGaps seen v s = elim (Result-cases (run.critique (ask seen v))) [
    | inl (res, e) ↦
        rw (critique_one, e, record_usage, update_candidate)
          (record {
            gaps = refl;
            gap_evidence = refl;
            ids = refl;
            next = refl;
            calls = omega arith;
          })
    | inr (f, e) ↦ rw (critique_one, e) (SameGaps-refl s)
  ]

  pub critique_each-SameGaps :
      (seen : List Text) (vs : List Verified) (s : Store) → SameGaps s (loop seen vs s).0
  unfolding critique_each
  critique_each-SameGaps seen [] s = SameGaps-refl s
  critique_each-SameGaps seen (v ∷ vs) s =
      after-SameGaps (λ r. loop (next_seen r v seen) vs >>= λ rest. pure (judge r v ∷ rest))
        (one seen v s) (critique_one-SameGaps seen v s)
        λ r t.
          after-SameGaps (λ rest. pure (judge r v ∷ rest)) (loop (next_seen r v seen) vs t)
            (critique_each-SameGaps (next_seen r v seen) vs t) (λ rest u. SameGaps-refl u)
