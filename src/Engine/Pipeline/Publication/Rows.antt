-- ===== src/Engine/Pipeline/Publication/Rows.antt =====
-- The rows that the stage `publication` writes.
use content_gap.Prelude.{
  ℕ, suc, ◌<◌, ◌≤◌, List, [], ◌∷◌, ◌++◌, append-nil, append_assoc, map, some, ◌≡◌, refl, ap, sym,
  ◌∙◌, All, All-append, length,
}
use content_gap.Prelude.Text.{Text, slice}
use content_gap.Shared.Enums.{GapCandidateStatus}
use content_gap.Shared.Results.{Result, ok}
use content_gap.Database.Tables.{Gap, GapEvidence, Chunk, ContentUnit, SourceSnapshot}
use content_gap.Engine.Pipeline.Store.{
  M, Store, Verified, VerifiedEvidence, Corpus, chunk_by_id, unit_by_id, update_candidate,
}
use content_gap.Engine.Pipeline.Verification.Laws.{IsExact}
use content_gap.Engine.Pipeline.Publication.{
  gap_of, insert_gap, evidence_row, insert_evidence, publish_each,
}

-- A piece of evidence that stands word for word in a chunk whose unit is known.
pub record IsStored (corpus : Corpus) (e : VerifiedEvidence) : Type 0 where
  pub exact : IsExact corpus e
  pub unit : ContentUnit
  pub unit_known : unit_by_id corpus exact.chunk.content_unit_id ≡ some unit

-- A row of `gap_evidence` that quotes a chunk of the corpus word for word, at its offsets.
pub record IsExactRow (corpus : Corpus) (row : GapEvidence) : Type 0 where
  pub chunk : Chunk
  pub known : chunk_by_id corpus row.chunk_id ≡ some chunk
  pub quoted : row.exact_quote ≡ slice chunk.text row.quote_start_offset row.quote_end_offset
  pub not_empty : row.quote_start_offset < row.quote_end_offset
  pub in_range : row.quote_end_offset ≤ length chunk.text

module _ (project_id run_id : Text) (new_id : ℕ → Text) (digest : Text → Text) (corpus : Corpus)
    (snapshots : List SourceSnapshot) where
  -- The rows of `gaps` for a list of candidates, from the ids that the database gives from `k` on.
  abbrev pub gap_rows : ℕ → List Verified → List Gap
  gap_rows k [] = []
  gap_rows k (v ∷ vs) = gap_of project_id run_id (new_id k) v ∷ gap_rows (suc k) vs

  abbrev add_evidence : Store → List GapEvidence → Store
  add_evidence s rows = record s { gap_evidence = s.gap_evidence ++ rows }

  abbrev insert : Text → List VerifiedEvidence → M (Unit {0})
  insert = insert_evidence project_id run_id new_id digest corpus snapshots

  insert_evidence-rows :
      (gap_id : Text) (es : List VerifiedEvidence) (s : Store)
      → All (IsStored corpus) es
      → (rows : List GapEvidence) × (insert gap_id es s ≡ (add_evidence s rows, ok tt))
        × All (IsExactRow corpus) rows
  unfolding insert_evidence evidence_row
  insert_evidence-rows gap_id [] s h =
      ([], ap (λ l. (record s { gap_evidence = l }, ok tt)) (sym (append-nil s.gap_evidence)), tt)
  insert_evidence-rows gap_id (e ∷ es) s h =
      let row = evidence_row project_id run_id new_id digest corpus snapshots gap_id e h.0.unit in
      let s1 = add_evidence s (row ∷ []) in
      let (rows, eq, exact) = insert_evidence-rows gap_id es s1 h.1 in
      (
        row ∷ rows,
        rw (insert_evidence, h.0.exact.known, h.0.unit_known)
            (eq
              ∙ ap (λ l. (record s { gap_evidence = l }, ok tt))
                  (append_assoc s.gap_evidence (row ∷ []) rows)),
        (
          record {
            chunk = h.0.exact.chunk;
            known = h.0.exact.known;
            quoted = h.0.exact.quoted;
            not_empty = h.0.exact.not_empty;
            in_range = h.0.exact.in_range;
          },
          exact,
        ),
      )

  -- What publishing a list of candidates does to the tables: it succeeds, and appends a row of `gaps`
  -- for each candidate, in their order and with fresh ids, which it returns, and rows of evidence that
  -- all quote a chunk word for word.
  pub record IsPublished (vs : List Verified) (s : Store) (r : Store × Result (Unit {0}))
      : Type 0 where
    pub rows : List GapEvidence
    pub succeeded : r.1 ≡ ok tt
    pub gaps : r.0.gaps ≡ s.gaps ++ gap_rows s.next_id vs
    pub ids : r.0.published_gap_ids ≡ s.published_gap_ids ++ map (λ g. g.id) (gap_rows s.next_id vs)
    pub evidence : r.0.gap_evidence ≡ s.gap_evidence ++ rows
    pub exact : All (IsExactRow corpus) rows

  abbrev publishing : List Verified → M (Unit {0})
  publishing = publish_each project_id run_id new_id digest corpus snapshots

  -- The store after a candidate's gap and the update of its row.
  abbrev with_gap : Verified → Store → Store
  with_gap v s =
      (update_candidate v.candidate_id (λ c. record c { status = GapCandidateStatus.published })
        (insert_gap project_id run_id new_id digest corpus snapshots v s).0).0

  pub publish_each-IsPublished :
      (vs : List Verified) (s : Store)
      → All (λ v. All (IsStored corpus) v.evidence) vs
      → IsPublished vs s (publishing vs s)
  unfolding publish_each insert_gap update_candidate
  publish_each-IsPublished [] s h = record {
    rows = [];
    succeeded = refl;
    gaps = sym (append-nil s.gaps);
    ids = sym (append-nil s.published_gap_ids);
    evidence = sym (append-nil s.gap_evidence);
    exact = tt;
  }
  publish_each-IsPublished (v ∷ vs) s h =
      let gap_id = new_id s.next_id in
      let s2 = with_gap v s in
      let (rows, eq, exact) = insert_evidence-rows gap_id v.evidence s2 h.0 in
      let rest = publish_each-IsPublished vs (add_evidence s2 rows) h.1 in
      rw (publish_each, insert_gap, update_candidate, eq)
        record {
          rows = rows ++ rest.rows;
          succeeded = rest.succeeded;
          gaps =
              rest.gaps
              ∙ append_assoc s.gaps (gap_of project_id run_id gap_id v ∷ [])
                  (gap_rows (suc s.next_id) vs);
          ids =
              rest.ids
              ∙ append_assoc s.published_gap_ids (gap_id ∷ [])
                  (map (λ g. g.id) (gap_rows (suc s.next_id) vs));
          evidence = rest.evidence ∙ append_assoc s.gap_evidence rows rest.rows;
          exact = All-append _ rows rest.rows exact rest.exact;
        }
