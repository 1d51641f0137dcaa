-- ===== src/Engine/Pipeline/Generation/Laws.antt =====
-- What the stage `candidate-generation` shows to the model, and what it stores.
use content_gap.Prelude.{
  List, [], ◌∷◌, some, ◌≡◌, refl, inl, inr, All, All-append, Bool-cases, Option-cases, any,
}
use content_gap.Prelude.Text.{Text, text_eq}
use content_gap.Database.Tables.{Chunk, Cohort}
use content_gap.Llm.Types.{EvidenceChunk}
use content_gap.Engine.Pipeline.Store.{Corpus, chunk_by_id, owner_of_chunk}
use content_gap.Engine.Pipeline.Verification.{NeedRow, CoverageEntry}
use content_gap.Engine.Pipeline.Generation.{
  pool_set, pool_ids, evidence_chunk_pool, candidate_input,
}

-- A chunk of the corpus, with its own text and owner.
pub record IsOffered (corpus : Corpus) (c : EvidenceChunk) : Type 0 where
  pub chunk : Chunk
  pub known : chunk_by_id corpus c.id ≡ some chunk
  pub same_text : c.text ≡ chunk.text
  pub same_owner : c.owner_type ≡ owner_of_chunk corpus c.id

pool_set-All :
    (P : EvidenceChunk → Type 0) (c : EvidenceChunk) (pool : List EvidenceChunk)
    → P c
    → All P pool
    → All P (pool_set c pool)
unfolding pool_set
pool_set-All P c pool p h = elim (Bool-cases (any (λ d. text_eq d.id c.id) pool)) [
  | inl e ↦ rw (pool_set, e) h
  | inr e ↦ rw (pool_set, e) (All-append P pool (c ∷ []) h (p, tt))
]

module _ (corpus : Corpus) where
  pool_ids-IsOffered :
      (pool : List EvidenceChunk) (ids : List Text)
      → All (IsOffered corpus) pool
      → All (IsOffered corpus) (pool_ids corpus pool ids)
  unfolding pool_ids
  pool_ids-IsOffered pool [] h = h
  pool_ids-IsOffered pool (cid ∷ cids) h = elim (Option-cases (chunk_by_id corpus cid)) [
    | inl e ↦ rw (pool_ids, e) (pool_ids-IsOffered pool cids h)
    | inr (ch, e) ↦
        let c : EvidenceChunk = record {
          id = cid;
          text = ch.text;
          owner_type = owner_of_chunk corpus cid;
        } in
        rw (pool_ids, e)
          (pool_ids-IsOffered (pool_set c pool) cids (
            pool_set-All (IsOffered corpus) c pool
              (record { chunk = ch; known = e; same_text = refl; same_owner = refl }) h))
  ]

  evidence_chunk_pool-IsOffered :
      (pool : List EvidenceChunk) (needs : List NeedRow)
      → All (IsOffered corpus) pool
      → All (IsOffered corpus) (evidence_chunk_pool corpus pool needs)
  unfolding evidence_chunk_pool
  evidence_chunk_pool-IsOffered pool [] h = h
  evidence_chunk_pool-IsOffered pool (n ∷ ns) h =
      evidence_chunk_pool-IsOffered (pool_ids corpus pool n.supporting_chunk_ids) ns
        (pool_ids-IsOffered pool n.supporting_chunk_ids h)

  -- Whatever the needs and the coverage hold, each chunk that the model is shown as evidence is a chunk
  -- of the corpus with its own text and its own owner; ids that no chunk has are left out.
  pub candidate_input-IsOffered :
      (cohorts : List Cohort) (coverage : List CoverageEntry) (needs : List NeedRow)
      → All (IsOffered corpus) (candidate_input corpus cohorts coverage needs).chunks
  unfolding candidate_input
  candidate_input-IsOffered cohorts coverage needs = evidence_chunk_pool-IsOffered [] needs tt
