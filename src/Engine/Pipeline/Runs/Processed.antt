-- ===== src/Engine/Pipeline/Runs/Processed.antt =====
-- The stages `ingestion` and `normalization` in turn: what is still pending after them.
use content_gap.Prelude.{
  Option, Option-cases, none, some, ◌≢◌, ℕ, true, not, List, [], ◌∷◌, ◌++◌, ◌≡◌, refl, ap, ◌⊎◌, inl,
  inr, Bool-cases, All, All-of_forall, All_of_mem, Memᴰ-filter, Memᴰ-filter_of, Memᴰ-any,
  any_of_mem,
}
use content_gap.Prelude.Text.{Text, text_eq, text_eq_refl}
use content_gap.Shared.Enums.{OwnerType}
use content_gap.Shared.Results.{Failure, Result, ok, err}
use content_gap.Database.Tables.{Source, SourceSnapshot, ContentUnit}
use content_gap.Engine.Pipeline.Store.{M, pure, after, ◌>>=◌, Store, refused_date, insert_unit}
use content_gap.Engine.Pipeline.Normalization.{
  Snap, has_units, voc_rows, current_snaps, pending, voc_unit, article_unit, normalize_rows,
  normalize_article, normalize_snap, normalization_stage,
}
use content_gap.Engine.Pipeline.Runs.Early.{normalize_rows-Adds, normalization_stage-Adds}
use mathlib.Core.List.{Memᴰ}
use mathlib.Core.List.Memᴰ as MemD

-- A snapshot of customers' voices in which there is no row.
abbrev pub IsRowless : Snap → Type 0
IsRowless p = (p.owner_type ≡ OwnerType.voc) × (voc_rows p.snap.normalized_content ≡ [])

abbrev IsDone : List ContentUnit → Snap → Type 0
IsDone units p = (has_units units p.snap.id ≡ true) ⊎ IsRowless p

abbrev Within : List ContentUnit → List ContentUnit → Type 0
Within us vs = (u : ContentUnit) → Memᴰ u us → Memᴰ u vs

has_units_mono :
    (us vs : List ContentUnit) (id : Text)
    → Within us vs
    → has_units us id ≡ true
    → has_units vs id ≡ true
unfolding has_units
has_units_mono us vs id w h =
    let (u, m, e) = Memᴰ-any (λ u. text_eq u.source_snapshot_id id) us h in
    any_of_mem (λ u. text_eq u.source_snapshot_id id) (w u m) e

IsDone_mono : (us vs : List ContentUnit) (p : Snap) → Within us vs → IsDone us p → IsDone vs p
IsDone_mono us vs p w (inl h) = inl (has_units_mono us vs p.snap.id w h)
IsDone_mono us vs p w (inr h) = inr h

has_units_of_mem :
    (u : ContentUnit) (us : List ContentUnit) (id : Text)
    → Memᴰ u us
    → u.source_snapshot_id ≡ id
    → has_units us id ≡ true
unfolding has_units
has_units_of_mem u us id m e =
    any_of_mem (λ v. text_eq v.source_snapshot_id id) m (rw e (text_eq_refl id))

-- The database takes the date of a snapshot: a row of customers' voices has none.
abbrev pub IsDated : (Text → Option Failure) → Snap → Type 0
IsDated date_error p =
    (p.owner_type ≡ OwnerType.voc) ⊎ (refused_date date_error p.snap.metadata.published_at ≡ none)

-- All the snapshots are done, and the computation did not fail.
record Processed (date_error : Text → Option Failure) (ps : List Snap)
    (r : Store × Result (List Text)) : Type 0 where
  all : All (IsDone r.0.content_units) ps
  dated : All (IsDated date_error) ps
  ids : List Text
  fine : r.1 ≡ ok ids

-- The computation failed on a page among the snapshots, whose date the database refuses.
pub record Refused (date_error : Text → Option Failure) (ps : List Snap)
    (r : Store × Result (List Text)) : Type 0 where
  pub page : Snap
  pub among : Memᴰ page ps
  pub no_voice : page.owner_type ≢ OwnerType.voc
  pub failure : Failure
  pub refused : refused_date date_error page.snap.metadata.published_at ≡ some failure
  pub failed : r.1 ≡ err failure

module _ (project_id : Text) (sources : List Source) (snapshots : List SourceSnapshot)
    (new_id : ℕ → Text) (date_error : Text → Option Failure) where
  abbrev rows_of : SourceSnapshot → List Text → M (List Text)
  rows_of = normalize_rows project_id sources snapshots new_id date_error

  abbrev stage_of : List Snap → M (List Text)
  stage_of = normalization_stage project_id sources snapshots new_id date_error

  abbrev article_of : Snap → M (List Text)
  article_of = normalize_article project_id sources snapshots new_id date_error

  abbrev Ends : List Snap → Store × Result (List Text) → Type 0
  Ends ps r = Processed date_error ps r ⊎ Refused date_error ps r

  cons_fine :
      (id : Text) (r : Store × Result (List Text)) (ids : List Text)
      → r.1 ≡ ok ids
      → (after (λ later. pure (id ∷ later)) r).1 ≡ ok (id ∷ ids)
  cons_fine id (t, ok later) ids h = cc
  cons_fine id (t, err e) ids h = cc

  rows_fine :
      (snap : SourceSnapshot) (rows : List Text) (s : Store)
      → (ids : List Text) × ((rows_of snap rows s).1 ≡ ok ids)
  unfolding normalize_rows insert_unit voc_unit
  rows_fine snap [] s = ([], refl)
  rows_fine snap (row ∷ rows) s =
      let t =
        (insert_unit new_id date_error (voc_unit project_id sources snapshots snap row) s).0 in
      let (ids, e) = rows_fine snap rows t in
      (new_id s.next_id ∷ ids, cons_fine (new_id s.next_id) (rows_of snap rows t) ids e)

  snapshot_of_row :
      (snap : SourceSnapshot) (row id : Text)
      → (voc_unit project_id sources snapshots snap row id).source_snapshot_id ≡ snap.id
  unfolding voc_unit
  snapshot_of_row snap row id = refl

  cons_Within :
      {us : List ContentUnit} (id : Text) (r : Store × Result (List Text))
      → Within us r.0.content_units
      → Within us (after (λ later. pure (id ∷ later)) r).0.content_units
  cons_Within id (t, ok ids) w = w
  cons_Within id (t, err e) w = w

  rows_done :
      (p : Snap) (rows : List Text) (s : Store)
      → p.owner_type ≡ OwnerType.voc
      → voc_rows p.snap.normalized_content ≡ rows
      → IsDone (rows_of p.snap rows s).0.content_units p
  unfolding normalize_rows insert_unit voc_unit
  rows_done p [] s o e = inr (o, e)
  rows_done p (row ∷ rows) s o e =
      let unit = voc_unit project_id sources snapshots p.snap row (new_id s.next_id) in
      let t =
        (insert_unit new_id date_error (voc_unit project_id sources snapshots p.snap row) s).0 in
      let here : has_units t.content_units p.snap.id ≡ true =
        has_units_of_mem unit t.content_units p.snap.id
          (MemD.append_right s.content_units (Memᴰ.head refl))
          (snapshot_of_row p.snap row (new_id s.next_id)) in
      inl (
        has_units_mono t.content_units _ p.snap.id
          (cons_Within (new_id s.next_id) (rows_of p.snap rows t)
            (normalize_rows-Adds project_id sources snapshots new_id date_error p.snap rows
              t).grows.units)
          here)

  article-Ends :
      (p : Snap) (s : Store) → p.owner_type ≢ OwnerType.voc → Ends (p ∷ []) (article_of p s)
  unfolding normalize_article insert_unit article_unit
  article-Ends p s n = elim (Option-cases (refused_date date_error p.snap.metadata.published_at)) [
    | inl e ↦
        rw (normalize_article, insert_unit, e)
          (inl (record {
            all = (
              inl (
                  has_units_of_mem (article_unit project_id sources snapshots p (new_id s.next_id))
                    _ p.snap.id (MemD.append_right s.content_units (Memᴰ.head refl)) refl),
              tt,
            );
            dated = (inr e, tt);
            ids = new_id s.next_id ∷ [];
            fine = refl;
          }))
    | inr (f, e) ↦
        rw (normalize_article, insert_unit, e)
          (inr (record {
            page = p;
            among = Memᴰ.head refl;
            no_voice = n;
            failure = f;
            refused = e;
            failed = refl;
          }))
  ]

  rows-Ends :
      (p : Snap) (s : Store)
      → p.owner_type ≡ OwnerType.voc
      → Ends (p ∷ []) (rows_of p.snap (voc_rows p.snap.normalized_content) s)
  rows-Ends p s o =
      let (ids, e) = rows_fine p.snap (voc_rows p.snap.normalized_content) s in
      inl (record {
        all = (rows_done p (voc_rows p.snap.normalized_content) s o refl, tt);
        dated = (inl o, tt);
        ids = ids;
        fine = e;
      })

  by_owner-Ends :
      (o : OwnerType) (p : Snap) (s : Store)
      → p.owner_type ≡ o
      → Ends (p ∷ []) (
          (elim o as (λ _. M (List Text)) [
            | OwnerType.voc ↦ rows_of p.snap (voc_rows p.snap.normalized_content)
            | _ ↦ article_of p
          ])
            s)
  by_owner-Ends OwnerType.voc p s e = rows-Ends p s e
  by_owner-Ends OwnerType.business_brief p s e = article-Ends p s (λ q. cc (e, q))
  by_owner-Ends OwnerType.owned p s e = article-Ends p s (λ q. cc (e, q))
  by_owner-Ends OwnerType.competitor p s e = article-Ends p s (λ q. cc (e, q))

  snap-Ends :
      (p : Snap) (s : Store)
      → Ends (p ∷ []) (normalize_snap project_id sources snapshots new_id date_error p s)
  unfolding normalize_snap
  snap-Ends p s = by_owner-Ends p.owner_type p s refl

  join-Ends :
      (p : Snap) (ps : List Snap) (created : List Text) (us : List ContentUnit)
      (q : Store × Result (List Text))
      → IsDone us p
      → IsDated date_error p
      → Within us q.0.content_units
      → Ends ps q
      → Ends (p ∷ ps) (after (λ ids. pure (created ++ ids)) q)
  join-Ends p ps created us (t, ok ids) d k w (inl h) = inl (record {
    all = (IsDone_mono us t.content_units p w d, h.all);
    dated = (k, h.dated);
    ids = created ++ ids;
    fine = refl;
  })
  join-Ends p ps created us (t, err e) d k w (inr h) = inr (record {
    page = h.page;
    among = Memᴰ.tail h.among;
    no_voice = h.no_voice;
    failure = h.failure;
    refused = h.refused;
    failed = h.failed;
  })
  join-Ends p ps created us (t, err e) d k w (inl h) = cc h.fine
  join-Ends p ps created us (t, ok ids) d k w (inr h) = cc h.failed

  step-Ends :
      (p : Snap) (ps : List Snap) (r : Store × Result (List Text))
      → Ends (p ∷ []) r
      → ((s : Store) → Ends ps (stage_of ps s))
      → Ends (p ∷ ps) (after (λ created. stage_of ps >>= λ ids. pure (created ++ ids)) r)
  step-Ends p ps (t, err e) (inl h) k = cc h.fine
  step-Ends p ps (t, ok created) (inr h) k = cc h.failed
  step-Ends p ps (t, err e) (inr h) k = inr (record {
    page = h.page;
    among = Memᴰ.head (MemD.eq_of_singleton h.among);
    no_voice = h.no_voice;
    failure = h.failure;
    refused = h.refused;
    failed = h.failed;
  })
  step-Ends p ps (t, ok created) (inl h) k =
      join-Ends p ps created t.content_units (stage_of ps t) h.all.0 h.dated.0
        (normalization_stage-Adds project_id sources snapshots new_id date_error ps t).grows.units
        (k t)

  stage-Ends : (ps : List Snap) (s : Store) → Ends ps (stage_of ps s)
  unfolding normalization_stage
  stage-Ends [] s = inl (record { all = tt; dated = tt; ids = []; fine = refl })
  stage-Ends (p ∷ ps) s =
      step-Ends p ps (normalize_snap project_id sources snapshots new_id date_error p s)
        (snap-Ends p s) (stage-Ends ps)

  -- A stage that has come to its end: each date was taken, and no current snapshot is pending any
  -- more but those of customers' voices without a row.
  pub record IsProcessed (s : Store) (r : Store × Result (List Text)) : Type 0 where
    pub ids : List Text
    pub fine : r.1 ≡ ok ids
    pub dated : All (IsDated date_error) (pending project_id sources snapshots s.content_units)
    pub left_over : All IsRowless (pending project_id sources snapshots r.0.content_units)

  -- Normalization ends in one of two ways. Either the database takes the date of each pending page, the
  -- stage succeeds, and no current snapshot of the project is pending any more, but for those of
  -- customers' voices without a row: whatever becomes of the units in the later stages, the next runs
  -- leave their snapshot out. Or the database refuses the date of a pending page, which is kept as any
  -- text, and the stage fails with that error.
  pub normalization_stage-IsProcessed :
      (s : Store)
      → let ps = pending project_id sources snapshots s.content_units in
        let r = normalization_stage project_id sources snapshots new_id date_error ps s in
        IsProcessed s r ⊎ Refused date_error ps r
  unfolding pending
  normalization_stage-IsProcessed s =
      let all_snaps = current_snaps project_id sources snapshots snapshots in
      let ps = pending project_id sources snapshots s.content_units in
      let t = (stage_of ps s).0 in
      let w : Within s.content_units t.content_units =
        (normalization_stage-Adds project_id sources snapshots new_id date_error ps
          s).grows.units in
      elim (stage-Ends ps s) [
        | inr refused ↦ inr refused
        | inl h ↦ inl (record {
          ids = h.ids;
          fine = h.fine;
          dated = h.dated;
          left_over = All-of_forall _ (pending project_id sources snapshots t.content_units) λ p m.
              let (among, not_yet) =
                Memᴰ-filter (λ q. not (has_units t.content_units q.snap.id)) all_snaps m in
              elim (Bool-cases (has_units s.content_units p.snap.id)) [
                | inl e ↦ cc (has_units_mono s.content_units t.content_units p.snap.id w e, not_yet)
                | inr e ↦
                    elim (All_of_mem _ h.all (
                      Memᴰ-filter_of (λ q. not (has_units s.content_units q.snap.id)) among
                        (ap not e))) [ inl d ↦ cc (d, not_yet) | inr rowless ↦ rowless ]
              ];
        })
      ]
