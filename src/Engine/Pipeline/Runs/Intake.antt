-- ===== src/Engine/Pipeline/Runs/Intake.antt =====
-- The stages `chunking` and `extraction`: what they keep.
use content_gap.Prelude.{
  ℕ, suc, ◌+◌, Bool, true, List, [], ◌∷◌, some, find, ◌≡◌, All, All-weaken, Bool-cases,
  Option-cases, inl, inr, map, length, ltb,
}
use content_gap.Prelude.Text.{Text, text_eq, text_eq_iff, codes}
use content_gap.Shared.Results.{Result, ok, err}
use content_gap.Shared.Schemas.Payloads.{ExtractedSignal, ExtractionResponse}
use content_gap.Database.Tables.{ContentUnit, Cohort}
use content_gap.Llm.Types.{ExtractionInput, LlmResult}
use content_gap.Engine.Chunking.{Piece, chunk_text}
use content_gap.Engine.Pipeline.Store.{M, pure, lift, after, ◌>>◌, Store, insert_chunk}
use content_gap.Engine.Pipeline.ChunkStage.{
  stored_unit, chunk_row, insert_pieces, chunk_unit, chunking_stage, insert_signals, extract_unit,
  extraction_stage, extraction_input, signal_row,
}
use content_gap.Engine.Pipeline.Runs.Growth.{
  Owned, Grows, Grows-refl, Grows-trans, Owned-Grows, Keeps, Keeps-bind, Keeps-pure, after-Grows,
  insert_chunk-Grows, insert_signal-Keeps,
}

find-eq-some : {A : Type 0} (p : A → Bool) (xs : List A) {a : A} → find p xs ≡ some a → p a ≡ true
find-eq-some p [] h = cc
find-eq-some p (x ∷ xs) {a} h = elim (Bool-cases (p x)) [
  | inl e ↦ let same : a ≡ x = cc (rw e at h) in rw same e
  | inr e ↦ find-eq-some p xs (rw e at h)
]

module _ (project_id : Text) {V : Type 0} (new_id : ℕ → Text) (embed : List Text → Result V)
    (max_chunks : ℕ) where
  insert_pieces-Grows :
      (unit_id : Text) (i : ℕ) (ps : List Piece) (s : Store)
      → Owned project_id s.content_units unit_id
      → Grows project_id s (insert_pieces new_id embed max_chunks unit_id i ps s).0
  unfolding insert_pieces insert_chunk chunk_row
  insert_pieces-Grows unit_id i [] s o = Grows-refl project_id s
  insert_pieces-Grows unit_id i (p ∷ ps) s o =
      Grows-trans project_id (insert_chunk-Grows project_id new_id (chunk_row unit_id i p) s o)
        (insert_pieces-Grows unit_id (suc i) ps (insert_chunk new_id (chunk_row unit_id i p) s).0 o)

  after_pure-Grows :
      {A B : Type 0} (b : B) {s : Store} (r : Store × Result A)
      → Grows project_id s r.0
      → Grows project_id s (after (λ _. pure b) r).0
  after_pure-Grows b (t, ok a) h = h
  after_pure-Grows b (t, err e) h = h

  chunk_unit-Grows :
      (count : ℕ) (unit : ContentUnit) (s : Store)
      → Owned project_id s.content_units unit.id
      → Grows project_id s (chunk_unit new_id embed max_chunks count unit s).0
  unfolding chunk_unit
  chunk_unit-Grows count unit s o =
      elim (Bool-cases (ltb max_chunks (count + length (chunk_text unit.body)))) [
        | inl over ↦ rw (chunk_unit, over) (Grows-refl project_id s)
        | inr fits ↦
            rw (chunk_unit, fits) (embedded (embed (map (λ p. p.text) (chunk_text unit.body))))
      ]
    where
      embedded :
          (r : Result V)
          → Grows project_id s
              (after
                (λ _.
                  insert_pieces new_id embed max_chunks unit.id 0 (chunk_text unit.body)
                  >> pure (count + length (chunk_text unit.body)))
                (lift r s)).0
      embedded (err e) = Grows-refl project_id s
      embedded (ok v) =
          after_pure-Grows (count + length (chunk_text unit.body))
            (insert_pieces new_id embed max_chunks unit.id 0 (chunk_text unit.body) s)
            (insert_pieces-Grows unit.id 0 (chunk_text unit.body) s o)

  next_unit :
      {s : Store} (ids : List Text) (r : Store × Result ℕ)
      → Grows project_id s r.0
      → All (Owned project_id s.content_units) ids
      → ((n : ℕ) (t : Store)
          → All (Owned project_id t.content_units) ids
          → Grows project_id t (chunking_stage new_id embed max_chunks n ids t).0)
      → Grows project_id s (after (λ n. chunking_stage new_id embed max_chunks n ids) r).0
  next_unit ids (t, err e) g o k = g
  next_unit ids (t, ok n) g o k =
      Grows-trans project_id g (k n t (All-weaken (λ id q. Owned-Grows project_id g q) ids o))

  pub chunking_stage-Grows :
      (ids : List Text) (count : ℕ) (s : Store)
      → All (Owned project_id s.content_units) ids
      → Grows project_id s (chunking_stage new_id embed max_chunks count ids s).0
  unfolding chunking_stage stored_unit
  chunking_stage-Grows [] count s o = Grows-refl project_id s
  chunking_stage-Grows (id ∷ ids) count s o = elim (Option-cases (stored_unit s id)) [
    | inl e ↦ rw (chunking_stage, e) (chunking_stage-Grows ids count s o.1)
    | inr (unit, e) ↦
        let same : unit.id ≡ id =
          (text_eq_iff unit.id id).0 (find-eq-some (λ u. text_eq u.id id) s.content_units e) in
        rw (chunking_stage, e)
          (next_unit ids (chunk_unit new_id embed max_chunks count unit s)
            (chunk_unit-Grows count unit s (rw same o.0)) o.1
            (λ n t p. chunking_stage-Grows ids n t p))
  ]

module _ (project_id : Text) (new_id : ℕ → Text) (cohorts : List Cohort)
    (extract : ExtractionInput → Result (LlmResult ExtractionResponse))
    (record_usage : Text → LlmResult ExtractionResponse → M (Unit {0}))
    (usage_keeps : (operation : Text) (u : LlmResult ExtractionResponse)
      → Keeps project_id (record_usage operation u)) where
  insert_signals-Keeps :
      (unit : ContentUnit) (sigs : List ExtractedSignal) (count : ℕ)
      → Keeps project_id
          (insert_signals project_id new_id cohorts extract record_usage unit count sigs)
  unfolding insert_signals
  insert_signals-Keeps unit [] count = Keeps-pure project_id count
  insert_signals-Keeps unit (sig ∷ sigs) count =
      Keeps-bind project_id
        (insert_signal-Keeps project_id new_id
          (signal_row project_id new_id cohorts extract record_usage unit sig))
        λ _. insert_signals-Keeps unit sigs (suc count)

  extract_unit-Keeps :
      (count : ℕ) (unit : ContentUnit)
      → Keeps project_id (extract_unit project_id new_id cohorts extract record_usage count unit)
  unfolding extract_unit
  extract_unit-Keeps count unit = record {
    from = λ s.
        after-Grows project_id _
          (lift (extract (extraction_input project_id new_id cohorts extract record_usage s unit))
            s)
          (Grows-refl project_id s)
          λ res.
            Keeps-bind project_id (usage_keeps (codes "extraction") res)
              λ _. insert_signals-Keeps unit res.content.signals count;
  }

  abbrev extracting : ℕ → List Text → M ℕ
  extracting = extraction_stage project_id new_id cohorts extract record_usage

  extraction_stage-Grows :
      (ids : List Text) (count : ℕ) (s : Store) → Grows project_id s (extracting count ids s).0
  unfolding extraction_stage stored_unit
  extraction_stage-Grows [] count s = Grows-refl project_id s
  extraction_stage-Grows (id ∷ ids) count s = elim (Option-cases (stored_unit s id)) [
    | inl e ↦ rw (extraction_stage, e) (extraction_stage-Grows ids count s)
    | inr (unit, e) ↦
        rw (extraction_stage, e)
          (after-Grows project_id (λ n. extracting n ids)
            (extract_unit project_id new_id cohorts extract record_usage count unit s)
            ((extract_unit-Keeps count unit).from s)
            (λ n. record { from = extraction_stage-Grows ids n }))
  ]

  pub extraction_stage-Keeps :
      (ids : List Text) (count : ℕ) → Keeps project_id (extracting count ids)
  extraction_stage-Keeps ids count = record { from = extraction_stage-Grows ids count }
