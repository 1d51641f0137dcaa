-- ===== src/Engine/Pipeline/Generation/Found.antt =====
-- No candidate is lost between the stages `candidate-generation` and `evidence-verification`.
use content_gap.Prelude.{
  ℕ, suc, ◌≤◌, List, [], ◌∷◌, ◌++◌, append-nil, append_assoc, map, find, none, some, ◌≡◌, ◌≢◌, refl,
  ap, sym, subst, ◌∙◌, arith, All, All-append, All-weaken, Bool-cases, inl, inr, find-append_none,
}
use content_gap.Prelude.Text.{Text, text_eq, text_eq_iff, text_eq_refl}
use content_gap.Shared.Results.{Result, ok, err}
use content_gap.Shared.Schemas.Payloads.{CandidateGap}
use content_gap.Database.Tables.{GapCandidate}
use content_gap.Engine.Pipeline.Store.{M, pure, after, Store, Verified, Corpus}
use content_gap.Engine.Pipeline.Verification.{
  NeedRow, CoverageEntry, verify_candidate, verify_candidates,
}
use content_gap.Engine.Pipeline.Generation.{candidate_row, insert_candidate, insert_candidates}

ok-injective : {A : Type 0} {a b : A} → ok a ≡ ok b → a ≡ b
ok-injective h = cc

module _ (project_id run_id : Text) (new_id : ℕ → Text) where
  -- The rows and the ids of candidates that get the ids from `k` on.
  abbrev candidate_rows : ℕ → List CandidateGap → List GapCandidate
  candidate_rows k [] = []
  candidate_rows k (c ∷ cs) =
      candidate_row project_id run_id new_id (new_id k) c ∷ candidate_rows (suc k) cs

  abbrev candidate_ids : ℕ → List CandidateGap → List Text
  candidate_ids k [] = []
  candidate_ids k (c ∷ cs) = new_id k ∷ candidate_ids (suc k) cs

  abbrev insert : List CandidateGap → M (List Text)
  insert = insert_candidates project_id run_id new_id

  insert_candidates-rows :
      (cs : List CandidateGap) (s : Store)
      → ((insert cs s).1 ≡ ok (candidate_ids s.next_id cs))
        × ((insert cs s).0.gap_candidates ≡ s.gap_candidates ++ candidate_rows s.next_id cs)
  unfolding insert_candidates insert_candidate
  insert_candidates-rows [] s = (refl, sym (append-nil s.gap_candidates))
  insert_candidates-rows (c ∷ cs) s =
      let s1 = (insert_candidate project_id run_id new_id c s).0 in
      let rest = insert_candidates-rows cs s1 in go (insert cs s1) rest.0 rest.1
    where
      go :
          (r : Store × Result (List Text))
          → r.1 ≡ ok (candidate_ids (suc s.next_id) cs)
          → r.0.gap_candidates
            ≡ (s.gap_candidates
                ++ (candidate_row project_id run_id new_id (new_id s.next_id) c ∷ []))
              ++ candidate_rows (suc s.next_id) cs
          → ((after (λ ids. pure (new_id s.next_id ∷ ids)) r).1
              ≡ ok (new_id s.next_id ∷ candidate_ids (suc s.next_id) cs))
            × ((after (λ ids. pure (new_id s.next_id ∷ ids)) r).0.gap_candidates
                ≡ s.gap_candidates
                  ++ (candidate_row project_id run_id new_id (new_id s.next_id) c
                      ∷ candidate_rows (suc s.next_id) cs))
      go (t, ok ids) e g = (
        ap (λ ids. ok (new_id s.next_id ∷ ids)) (ok-injective e),
        g
            ∙ append_assoc s.gap_candidates
                (candidate_row project_id run_id new_id (new_id s.next_id) c ∷ [])
                (candidate_rows (suc s.next_id) cs),
      )
      go (t, err f) e g = cc

  -- The ids from `k` on are not those of the rows.
  abbrev pub IsFresh : ℕ → List GapCandidate → Type 0
  IsFresh k = All (λ c. (j : ℕ) → k ≤ j → c.id ≢ new_id j)

  find-IsFresh :
      (k : ℕ) (rows : List GapCandidate)
      → IsFresh k rows
      → find (λ c. text_eq c.id (new_id k)) rows ≡ none
  find-IsFresh k [] h = refl
  find-IsFresh k (c ∷ rows) h = elim (Bool-cases (text_eq c.id (new_id k))) [
    | inl e ↦ absurd (h.0 k (omega arith) ((text_eq_iff c.id (new_id k)).0 e))
    | inr e ↦ rw e (find-IsFresh k rows h.1)
  ]

  module _ (injective : (i j : ℕ) → new_id i ≡ new_id j → i ≡ j) (corpus : Corpus)
      (needs : List NeedRow) (coverage : List CoverageEntry) where
    abbrev verify : List GapCandidate → List Text → List Verified
    verify = verify_candidates corpus needs coverage

    row-IsFresh :
        (k : ℕ) (c : CandidateGap)
        → IsFresh (suc k) (candidate_row project_id run_id new_id (new_id k) c ∷ [])
    unfolding candidate_row
    row-IsFresh k c = (λ j le e. absurd (apart j le (injective k j e)), tt)
      where
        apart : (j : ℕ) → suc k ≤ j → k ≢ j
        apart j le e = omega (arith, le, e)

    find-row :
        (k : ℕ) (old rest : List GapCandidate) (c : CandidateGap)
        → IsFresh k old
        → find
            (λ r. text_eq r.id (new_id k))
            (old ++ (candidate_row project_id run_id new_id (new_id k) c ∷ rest))
          ≡ some (candidate_row project_id run_id new_id (new_id k) c)
    unfolding candidate_row
    find-row k old rest c h =
        let row = candidate_row project_id run_id new_id (new_id k) c in
        let here : find (λ r. text_eq r.id (new_id k)) (row ∷ rest) ≡ some row =
          rw (text_eq_refl (new_id k)) refl in
        find-append_none (λ r. text_eq r.id (new_id k)) old (row ∷ rest) (find-IsFresh k old h)
        ∙ here

    verify_rows :
        (k : ℕ) (cs : List CandidateGap) (old : List GapCandidate)
        → IsFresh k old
        → map (λ v. v.content) (verify (old ++ candidate_rows k cs) (candidate_ids k cs)) ≡ cs
    unfolding verify_candidates verify_candidate candidate_row
    verify_rows k [] old h = refl
    verify_rows k (c ∷ cs) old h =
        let row = candidate_row project_id run_id new_id (new_id k) c in
        let older : IsFresh (suc k) old = All-weaken (λ r f j le. f j (omega (arith, le))) old h in
        let next =
          verify_rows (suc k) cs (old ++ (row ∷ []))
            (All-append _ old (row ∷ []) older (row-IsFresh k c)) in
        let same = append_assoc old (row ∷ []) (candidate_rows (suc k) cs) in
        rw (verify_candidates, find-row k old (candidate_rows (suc k) cs) c h)
          (ap (λ l. c ∷ l)
            (subst (λ t. map (λ v. v.content) (verify t (candidate_ids (suc k) cs)) ≡ cs) same
              next))

    -- If the database gives every id once, and none that a row of the table has, then the candidates
    -- that the one stage stores are, with the ids that it returns, exactly those that the other stage
    -- verifies, in the same order.
    pub insert_candidates-verified :
        (cs : List CandidateGap) (s : Store)
        → IsFresh s.next_id s.gap_candidates
        → (ids : List Text) × ((insert cs s).1 ≡ ok ids)
          × (map (λ v. v.content) (verify (insert cs s).0.gap_candidates ids) ≡ cs)
    insert_candidates-verified cs s fresh =
        let rows = insert_candidates-rows cs s in
        (
          candidate_ids s.next_id cs,
          rows.0,
          rw rows.1 (verify_rows s.next_id cs s.gap_candidates fresh),
        )
