-- ===== src/Engine/Pipeline/ChunkStage/Limit.antt =====
-- The stage `chunking`: what it appends, and its limit.
use content_gap.Prelude.{
  ℕ, suc, ◌+◌, ◌≤◌, List, [], ◌∷◌, ◌++◌, ◌≡◌, refl, sym, ap, ◌∙◌, inl, inr, Bool-cases,
  Option-cases, map, length, ltb, append-nil, append_assoc, length-append, arith,
}
use content_gap.Prelude.Text.{Text}
use content_gap.Shared.Results.{Result, ok, err}
use content_gap.Database.Tables.{ContentUnit, Chunk}
use content_gap.Engine.Chunking.{Piece, chunk_text}
use content_gap.Engine.Pipeline.Store.{pure, lift, after, ◌>>◌, Store, insert_chunk}
use content_gap.Engine.Pipeline.ChunkStage.{
  stored_unit, chunk_row, insert_pieces, chunk_unit, chunking_stage,
}

module _ {V : Type 0} (new_id : ℕ → Text) (embed : List Text → Result V) (max_chunks : ℕ) where
  -- A chunk is appended for each piece.
  record Inserted (ps : List Piece) (s : Store) (r : Store × Result (Unit {0})) : Type 0 where
    new : List Chunk
    chunks : r.0.chunks ≡ s.chunks ++ new
    count : length new ≡ length ps
    fine : r.1 ≡ ok tt

  insert_pieces-Inserted :
      (unit_id : Text) (i : ℕ) (ps : List Piece) (s : Store)
      → Inserted ps s (insert_pieces new_id embed max_chunks unit_id i ps s)
  unfolding insert_pieces insert_chunk
  insert_pieces-Inserted unit_id i [] s = record {
    new = [];
    chunks = sym (append-nil s.chunks);
    count = refl;
    fine = refl;
  }
  insert_pieces-Inserted unit_id i (p ∷ ps) s =
      let c = chunk_row unit_id i p (new_id s.next_id) in
      let rest =
        insert_pieces-Inserted unit_id (suc i) ps
          (insert_chunk new_id (chunk_row unit_id i p) s).0 in
      record {
        new = c ∷ rest.new;
        chunks = rest.chunks ∙ append_assoc s.chunks (c ∷ []) rest.new;
        count = ap suc rest.count;
        fine = rest.fine;
      }

  abbrev Counted : ℕ → Result ℕ → Type 0
  Counted n (ok m) = m ≡ n
  Counted n (err e) = Unit

  -- From `count` chunks on: what is appended stays within the limit, and the count is that of what
  -- is there.
  pub record IsWithin (count : ℕ) (s : Store) (r : Store × Result ℕ) : Type 0 where
    pub new : List Chunk
    pub chunks : r.0.chunks ≡ s.chunks ++ new
    pub within : count + length new ≤ max_chunks
    pub counted : Counted (count + length new) r.1

  nothing_new :
      (count : ℕ) (s : Store) (r : Result ℕ)
      → count ≤ max_chunks
      → Counted count r
      → IsWithin count s (s, r)
  nothing_new count s (ok m) le h = record {
    new = [];
    chunks = sym (append-nil s.chunks);
    within = omega (arith, le);
    counted = omega (arith, h);
  }
  nothing_new count s (err e) le h = record {
    new = [];
    chunks = sym (append-nil s.chunks);
    within = omega (arith, le);
    counted = tt;
  }

  piled_up :
      (count : ℕ) (ps : List Piece) (s : Store) (r : Store × Result (Unit {0}))
      → count + length ps ≤ max_chunks
      → Inserted ps s r
      → IsWithin count s (after (λ _. pure (count + length ps)) r)
  piled_up count ps s (t, err e) le h = cc h.fine
  piled_up count ps s (t, ok x) le h = record {
    new = h.new;
    chunks = h.chunks;
    within = omega (arith, le, h.count);
    counted = omega (arith, h.count);
  }

  embedded :
      (count : ℕ) (unit : ContentUnit) (s : Store) (r : Result V)
      → count ≤ max_chunks
      → count + length (chunk_text unit.body) ≤ max_chunks
      → IsWithin count s (
          after
            (λ _.
              insert_pieces new_id embed max_chunks unit.id 0 (chunk_text unit.body)
              >> pure (count + length (chunk_text unit.body)))
            (lift r s))
  embedded count unit s (err e) le fits = nothing_new count s (err e) le tt
  embedded count unit s (ok v) le fits =
      piled_up count (chunk_text unit.body) s _ fits
        (insert_pieces-Inserted unit.id 0 (chunk_text unit.body) s)

  chunk_unit-IsWithin :
      (count : ℕ) (unit : ContentUnit) (s : Store)
      → count ≤ max_chunks
      → IsWithin count s (chunk_unit new_id embed max_chunks count unit s)
  unfolding chunk_unit
  chunk_unit-IsWithin count unit s le =
      elim (Bool-cases (ltb max_chunks (count + length (chunk_text unit.body)))) [
        | inl over ↦ rw (chunk_unit, over) (nothing_new count s (err _) le tt)
        | inr fits ↦
            rw (chunk_unit, fits)
              (embedded count unit s (embed (map (λ p. p.text) (chunk_text unit.body))) le
                (ground (arith, fits)))
      ]

  longer :
      {count : ℕ} {s t : Store} (new : List Chunk) (n : ℕ) (r : Store × Result ℕ)
      → t.chunks ≡ s.chunks ++ new
      → n ≡ count + length new
      → IsWithin n t r
      → IsWithin count s r
  longer {count} {s} {t} new n (u, o) e m h = record {
    new = new ++ h.new;
    chunks = h.chunks ∙ ap (λ l. l ++ h.new) e ∙ append_assoc s.chunks new h.new;
    within = omega (arith, h.within, m, length-append new h.new);
    counted = recount o h.counted;
  }
    where
      recount :
          (o : Result ℕ) → Counted (n + length h.new) o → Counted (count + length (new ++ h.new)) o
      recount (ok k) q = omega (arith, q, m, length-append new h.new)
      recount (err f) q = tt

  next_unit :
      (count : ℕ) (s : Store) (ids : List Text) (r : Store × Result ℕ)
      → IsWithin count s r
      → ((n : ℕ) (t : Store)
          → n ≤ max_chunks
          → IsWithin n t (chunking_stage new_id embed max_chunks n ids t))
      → IsWithin count s (after (λ n. chunking_stage new_id embed max_chunks n ids) r)
  next_unit count s ids (t, err e) h k = h
  next_unit count s ids (t, ok n) h k =
      longer h.new n (chunking_stage new_id embed max_chunks n ids t) h.chunks h.counted
        (k n t (omega (arith, h.within, h.counted)))

  stage-IsWithin :
      (ids : List Text) (count : ℕ) (s : Store)
      → count ≤ max_chunks
      → IsWithin count s (chunking_stage new_id embed max_chunks count ids s)
  unfolding chunking_stage
  stage-IsWithin [] count s le = nothing_new count s (ok count) le refl
  stage-IsWithin (id ∷ ids) count s le = elim (Option-cases (stored_unit s id)) [
    | inl e ↦ rw (chunking_stage, e) (stage-IsWithin ids count s le)
    | inr (unit, e) ↦
        rw (chunking_stage, e)
          (next_unit count s ids (chunk_unit new_id embed max_chunks count unit s)
            (chunk_unit-IsWithin count unit s le) (stage-IsWithin ids))
  ]

  -- The stage `chunking` only appends to the table of chunks, and whether it fails or not, what a run
  -- appends is at most `max_chunks_per_run` chunks; if it succeeds, the count that it gives is theirs.
  pub chunking_stage-IsWithin :
      (ids : List Text) (s : Store) → IsWithin 0 s (chunking_stage new_id embed max_chunks 0 ids s)
  chunking_stage-IsWithin ids s = stage-IsWithin ids 0 s (omega arith)
