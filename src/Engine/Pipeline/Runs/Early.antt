-- ===== src/Engine/Pipeline/Runs/Early.antt =====
-- The stages before the decision, one by one: what each keeps.
use content_gap.Prelude.{
  Option, Option-cases, inl, inr, ℕ, List, [], ◌∷◌, ◌++◌, refl, All, All-weaken, All-append,
}
use content_gap.Prelude.Text.{Text}
use content_gap.Shared.Enums.{OwnerType}
use content_gap.Shared.Results.{Failure, Result, ok, err}
use content_gap.Database.Tables.{Source, SourceSnapshot}
use content_gap.Engine.Pipeline.Store.{M, pure, after, ◌>>=◌, Store, refused_date, insert_unit}
use content_gap.Engine.Pipeline.Normalization.{
  Snap, voc_rows, voc_unit, article_unit, normalize_rows, normalize_article, normalize_snap,
  normalization_stage,
}
use content_gap.Engine.Pipeline.Runs.Growth.{
  Owned, Grows, Grows-refl, Grows-trans, Owned-Grows, insert_unit-Grows, unit_added-Grows,
}
use mathlib.Core.List.{Memᴰ}
use mathlib.Core.List.Memᴰ as MemD

-- New units: nothing that was there is lost, and the ids given are those of units of the project.
abbrev pub OkOwned : Text → Store × Result (List Text) → Type 0
OkOwned project_id (t, ok ids) = All (Owned project_id t.content_units) ids
OkOwned project_id (t, err e) = Unit

pub record Adds (project_id : Text) (s : Store) (r : Store × Result (List Text)) : Type 0 where
  pub grows : Grows project_id s r.0
  pub new : OkOwned project_id r

module _ (project_id : Text) where
  cons-Adds :
      {s t : Store} (id : Text) (r : Store × Result (List Text))
      → Grows project_id s t
      → Owned project_id t.content_units id
      → Adds project_id t r
      → Adds project_id s (after (λ ids. pure (id ∷ ids)) r)
  cons-Adds id (u, ok ids) g o a = record {
    grows = Grows-trans project_id g a.grows;
    new = (Owned-Grows project_id a.grows o, a.new);
  }
  cons-Adds id (u, err e) g o a = record { grows = Grows-trans project_id g a.grows; new = tt }

  append-Adds :
      {s : Store} (later : M (List Text)) (r : Store × Result (List Text))
      → Adds project_id s r
      → ((t : Store) → Adds project_id t (later t))
      → Adds project_id s (after (λ created. later >>= λ ids. pure (created ++ ids)) r)
  append-Adds {s} later (t, err e) a k = record { grows = a.grows; new = tt }
  append-Adds {s} later (t, ok created) a k = joined (later t) (k t)
    where
      joined :
          (q : Store × Result (List Text))
          → Adds project_id t q
          → Adds project_id s (after (λ ids. pure (created ++ ids)) q)
      joined (u, err e) b = record { grows = Grows-trans project_id a.grows b.grows; new = tt }
      joined (u, ok ids) b = record {
        grows = Grows-trans project_id a.grows b.grows;
        new =
            All-append _ created ids
              (All-weaken (λ id o. Owned-Grows project_id b.grows o) created a.new) b.new;
      }

  module _ (sources : List Source) (snapshots : List SourceSnapshot) (new_id : ℕ → Text)
      (date_error : Text → Option Failure) where
    pub normalize_rows-Adds :
        (snap : SourceSnapshot) (rows : List Text) (s : Store)
        → Adds project_id s
            (normalize_rows project_id sources snapshots new_id date_error snap rows s)
    unfolding normalize_rows insert_unit voc_unit
    normalize_rows-Adds snap [] s = record { grows = Grows-refl project_id s; new = tt }
    normalize_rows-Adds snap (row ∷ rows) s =
        let t =
          (insert_unit new_id date_error (voc_unit project_id sources snapshots snap row) s).0 in
        cons-Adds (new_id s.next_id)
          (normalize_rows project_id sources snapshots new_id date_error snap rows t)
          (insert_unit-Grows project_id new_id date_error
            (voc_unit project_id sources snapshots snap row) s)
          (record {
            unit = voc_unit project_id sources snapshots snap row (new_id s.next_id);
            stored = MemD.append_right s.content_units (Memᴰ.head refl);
            same_id = refl;
            of_project = refl;
          })
          (normalize_rows-Adds snap rows t)

    normalize_article-Adds :
        (p : Snap) (s : Store)
        → Adds project_id s (normalize_article project_id sources snapshots new_id date_error p s)
    unfolding normalize_article insert_unit article_unit
    normalize_article-Adds p s =
        let unit = article_unit project_id sources snapshots p in
        elim (Option-cases (refused_date date_error (unit (new_id s.next_id)).published_at)) [
          | inr (f, e) ↦
              rw (normalize_article, insert_unit, e)
                (record { grows = Grows-refl project_id s; new = tt })
          | inl e ↦
              rw (normalize_article, insert_unit, e)
                (record {
                  grows = unit_added-Grows project_id new_id unit s;
                  new = (
                    record {
                      unit = unit (new_id s.next_id);
                      stored = MemD.append_right s.content_units (Memᴰ.head refl);
                      same_id = refl;
                      of_project = refl;
                    },
                    tt,
                  );
                })
        ]

    by_owner :
        (o : OwnerType) (p : Snap) (s : Store)
        → Adds project_id s (
            (elim o as (λ _. M (List Text)) [
              | OwnerType.voc ↦
                  normalize_rows project_id sources snapshots new_id date_error p.snap
                    (voc_rows p.snap.normalized_content)
              | _ ↦ normalize_article project_id sources snapshots new_id date_error p
            ])
              s)
    by_owner OwnerType.voc p s = normalize_rows-Adds p.snap (voc_rows p.snap.normalized_content) s
    by_owner OwnerType.business_brief p s = normalize_article-Adds p s
    by_owner OwnerType.owned p s = normalize_article-Adds p s
    by_owner OwnerType.competitor p s = normalize_article-Adds p s

    -- `normalize_snap` by the owner of the source.
    normalize_snap-Adds :
        (p : Snap) (s : Store)
        → Adds project_id s (normalize_snap project_id sources snapshots new_id date_error p s)
    unfolding normalize_snap
    normalize_snap-Adds p s = by_owner p.owner_type p s

    pub normalization_stage-Adds :
        (ps : List Snap) (s : Store)
        → Adds project_id s
            (normalization_stage project_id sources snapshots new_id date_error ps s)
    unfolding normalization_stage
    normalization_stage-Adds [] s = record { grows = Grows-refl project_id s; new = tt }
    normalization_stage-Adds (p ∷ ps) s =
        append-Adds (normalization_stage project_id sources snapshots new_id date_error ps)
          (normalize_snap project_id sources snapshots new_id date_error p s)
          (normalize_snap-Adds p s) (normalization_stage-Adds ps)
