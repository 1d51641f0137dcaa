-- ===== src/Engine/Pipeline/Critique/Duplicates.antt =====
-- legacy/packages/analysis-engine/src/pipeline.ts, stage `critique-rejection`: the titles of the
-- candidates that it lets through.
use content_gap.Prelude.{
  true, false, List, [], ◌∷◌, ◌++◌, some, find, ◌≡◌, ap, sym, ◌∙◌, inl, inr, Bool-cases,
  Option-cases, All, find-eq-none, Memᴰ-any, All_of_mem, All-of_forall, All-weaken,
}
use content_gap.Prelude.Sorting.{IsSorted}
use content_gap.Prelude.Text.{Text, has, text_eq, text_eq_iff}
use content_gap.Shared.Results.{Result, ok}
use content_gap.Shared.Schemas.Payloads.{CritiqueVerdict}
use content_gap.Llm.Types.{CritiqueInput, LlmResult}
use content_gap.Engine.Pipeline.Store.{M, Store, Verified, Corpus}
use content_gap.Engine.Pipeline.Titles.{title_similar}
use content_gap.Engine.Pipeline.Critique.{
  is_rejection, judge, see_title, critique_input, seen_after, critique_each,
}
use content_gap.Engine.Pipeline.Critique.Laws.{
  judge-rejected, judge-IsJudgement, ok-injective, critique_each-cons,
}

All-unsnoc :
    {A : Type 0} (P : A → Type 0) (xs : List A) (y : A) → All P (xs ++ (y ∷ [])) → All P xs × P y
All-unsnoc P [] y h = (tt, h.0)
All-unsnoc P (x ∷ xs) y h = let rest = All-unsnoc P xs y h.1 in ((h.0, rest.0), rest.1)

see_title-All :
    (P : Text → Type 0) (t : Text) (seen : List Text) → All P (see_title t seen) → All P seen × P t
unfolding see_title
see_title-All P t seen h = elim (Bool-cases (has seen t)) [
  | inl e ↦
      let all : All P seen = rw (see_title, e) at h in
      let (u, m, q) = Memᴰ-any (text_eq t) seen e in
      (all, rw ((text_eq_iff t u).0 q) (All_of_mem P all m))
  | inr e ↦ All-unsnoc P seen t (rw (see_title, e) at h)
]

module _ (to_lower_case strip_symbols : Text → Text) (corpus : Corpus)
    (critique : CritiqueInput → Result (LlmResult CritiqueVerdict))
    (record_usage : Text → LlmResult CritiqueVerdict → M (Unit {0})) where
  abbrev run : List Text → List Verified → M (List Verified)
  run = critique_each to_lower_case strip_symbols corpus critique record_usage

  abbrev ask : List Text → Verified → CritiqueInput
  ask = critique_input to_lower_case strip_symbols corpus critique record_usage

  abbrev next_seen : CritiqueVerdict → Verified → List Text → List Text
  next_seen = seen_after to_lower_case strip_symbols corpus critique record_usage

  abbrev pub Unlike : Text → Verified → Type 0
  Unlike title w = title_similar to_lower_case strip_symbols title w.content.title ≡ false

  -- Of two survivors, the titles are not similar.
  abbrev pub BothSurviveUnlike : Verified → Verified → Type 0
  BothSurviveUnlike a b = a.rejected ≡ false → b.rejected ≡ false → Unlike a.content.title b

  module _
      (rejects_duplicates : (i : CritiqueInput) (res : LlmResult CritiqueVerdict) (title : Text)
        → critique i ≡ ok res
        → i.is_duplicate_of_title ≡ some title
        → is_rejection res.content.action ≡ true) where
    accepted-Unlike :
        (seen : List Text) (v : Verified) (res : LlmResult CritiqueVerdict)
        → critique (ask seen v) ≡ ok res
        → is_rejection res.content.action ≡ false
        → All (λ t. Unlike t v) seen
    unfolding critique_input
    accepted-Unlike seen v res e a =
        elim (Option-cases
          (find (λ t. title_similar to_lower_case strip_symbols t v.content.title) seen)) [
            | inl f ↦ find-eq-none _ seen f
            | inr (t, f) ↦ cc (rejects_duplicates (ask seen v) res t e f, a)
          ]

    -- What holds of the candidates after a round, with the titles that the rounds before have seen.
    abbrev AllUnlike : List Text → List Verified → Type 0
    AllUnlike seen ws =
        All (λ w. w.rejected ≡ false → All (λ t. Unlike t w) seen) ws
        × IsSorted BothSurviveUnlike ws

    rejected-AllUnlike :
        (seen : List Text) (w : Verified) (ws : List Verified)
        → w.rejected ≡ true
        → AllUnlike seen ws
        → AllUnlike seen (w ∷ ws)
    rejected-AllUnlike seen w ws r h = ((λ a. cc, h.0), (All-of_forall _ ws (λ b m a. cc), h.1))

    accepted-AllUnlike :
        (seen : List Text) (w : Verified) (ws : List Verified)
        → All (λ t. Unlike t w) seen
        → AllUnlike (see_title w.content.title seen) ws
        → AllUnlike seen (w ∷ ws)
    accepted-AllUnlike seen w ws u h = (
      (λ a. u, All-weaken (λ b k nb. (see_title-All _ w.content.title seen (k nb)).0) ws h.0),
      (All-weaken (λ b k na nb. (see_title-All _ w.content.title seen (k nb)).1) ws h.0, h.1),
    )

    judge-content :
        (r : CritiqueVerdict) (v : Verified) → v.rejected ≡ false → (judge r v).content ≡ v.content
    judge-content r v n = (judge-IsJudgement r v n).same_content

    critique_each-AllUnlike :
        (seen : List Text) (vs : List Verified) (s t : Store) (ws : List Verified)
        → All (λ v. v.rejected ≡ false) vs
        → run seen vs s ≡ (t, ok ws)
        → AllUnlike seen ws
    unfolding critique_each seen_after
    critique_each-AllUnlike seen [] s t ws n h =
        let nil : ws ≡ [] = sym (ok-injective (ap (λ p. p.1) h)) in rw nil (tt, tt)
    critique_each-AllUnlike seen (v ∷ vs) s t ws n h =
        let r =
          critique_each-cons to_lower_case strip_symbols corpus critique record_usage seen v vs s t
            ws h in
        let rest =
          critique_each-AllUnlike (next_seen r.answer.content v seen) vs r.store t r.rest n.1
            r.continued in
        let w = judge r.answer.content v in
        rw r.result (elim (Bool-cases (is_rejection r.answer.content.action)) [
          | inl e ↦
              rejected-AllUnlike seen w r.rest (judge-rejected r.answer.content v n.0 ∙ e)
                (rw (seen_after, e) at rest)
          | inr e ↦
              let same = judge-content r.answer.content v n.0 in
              accepted-AllUnlike seen w r.rest
                (rw same (accepted-Unlike seen v r.answer r.answered e))
                (rw same (rw (seen_after, e) at rest))
        ])

    -- If the model rejects or merges every candidate that it is told is a duplicate, no two
    -- candidates that the stage lets through have similar titles.
    pub critique_each-BothSurviveUnlike :
        (vs : List Verified) (s t : Store) (ws : List Verified)
        → All (λ v. v.rejected ≡ false) vs
        → run [] vs s ≡ (t, ok ws)
        → IsSorted BothSurviveUnlike ws
    critique_each-BothSurviveUnlike vs s t ws n h = (critique_each-AllUnlike [] vs s t ws n h).1
