-- ===== src/Shared/IdReferences/Laws.antt =====
-- The guard on ids accepts a value exactly when every id that occurs in it is allowed.
use content_gap.Prelude.{
  Bool, true, false, ◌||◌, List, [], ◌∷◌, none, ◌≡◌, refl, ◌↔◌, ◌⊎◌, inl, inr, arith, Bool-cases,
  ◌≢◌, any_of_mem, Memᴰ-any, All, All_of_mem, All-of_forall,
}
use content_gap.Prelude.Text.{Text, text_eq, text_eq_iff, text_eq_refl, has, is_empty}
use content_gap.Shared.Results.{
  IdKind, chunk, cohort, content_unit, Failure, unknown_id, ok, err, >>-eq-ok, >>-eq-err, ◌>>◌,
}
use content_gap.Shared.IdReferences.{
  Json, collect_referenced_ids, AllowedIds, chunk_keys, cohort_keys, content_unit_keys, check_ids,
  validate_id_references,
}
use mathlib.Core.List.{Memᴰ}
use content_gap.Shared.IdReferences.Occurrences.{Occurs, walk_sound, walk_complete}

has_iff_mem : (ids : List Text) (id : Text) → (has ids id ≡ true) ↔ Memᴰ id ids
has_iff_mem ids id = (
  λ h. let (a, m, e) = Memᴰ-any (text_eq id) ids h in rw ((text_eq_iff id a).0 e) m,
  λ m. any_of_mem (text_eq id) m (text_eq_refl id),
)

check_ids_iff :
    (kind : IdKind) (allowed : Text → Bool) (ids : List Text)
    → (check_ids kind allowed ids ≡ ok tt) ↔ All (λ id. allowed id ≡ true) ids
unfolding check_ids
check_ids_iff kind allowed [] = ground arith
check_ids_iff kind allowed (id ∷ ids) = ground (arith, check_ids_iff kind allowed ids)

check_ids-err :
    (kind : IdKind) (allowed : Text → Bool) (ids : List Text) {e : Failure}
    → check_ids kind allowed ids ≡ err e
    → (id : Text) × Memᴰ id ids × (allowed id ≡ false) × (e ≡ unknown_id kind id)
unfolding check_ids
check_ids-err kind allowed [] h = cc
check_ids-err kind allowed (id ∷ ids) h = elim (Bool-cases (allowed id)) [
  | inl a ↦ let (i, m, f, e) = check_ids-err kind allowed ids (rw a at h) in (i, Memᴰ.tail m, f, e)
  | inr a ↦ (id, Memᴰ.head refl, a, ground arith)
]

-- What the guard promises.
pub record OnlyAllowed (value : Json) (allowed : AllowedIds) : Type 0 where
  pub chunks : (id : Text) → Occurs chunk_keys id none value → Memᴰ id allowed.chunk_ids
  pub cohorts :
      (id : Text) → Occurs cohort_keys id none value → (id ≡ []) ⊎ Memᴰ id allowed.cohort_ids
  pub content_units :
      (id : Text) → Occurs content_unit_keys id none value → Memᴰ id allowed.content_unit_ids

module _ (value : Json) (allowed : AllowedIds) where
  OnlyAllowed-of_lists :
      All (λ id. has allowed.chunk_ids id ≡ true) (collect_referenced_ids value chunk_keys)
      → All
          (λ id. (is_empty id || has allowed.cohort_ids id) ≡ true)
          (collect_referenced_ids value cohort_keys)
      → All
          (λ id. has allowed.content_unit_ids id ≡ true)
          (collect_referenced_ids value content_unit_keys)
      → OnlyAllowed value allowed
  unfolding collect_referenced_ids
  OnlyAllowed-of_lists c h u = record {
    chunks =
        λ id o. (has_iff_mem allowed.chunk_ids id).0 (All_of_mem _ c (walk_complete chunk_keys o));
    cohorts = λ id o. empty_or id (All_of_mem _ h (walk_complete cohort_keys o));
    content_units = λ id o.
        (has_iff_mem allowed.content_unit_ids id).0
          (All_of_mem _ u (walk_complete content_unit_keys o));
  }
    where
      empty_or :
          (id : Text)
          → (is_empty id || has allowed.cohort_ids id) ≡ true
          → (id ≡ []) ⊎ Memᴰ id allowed.cohort_ids
      empty_or [] e = inl refl
      empty_or (c ∷ s) e = inr ((has_iff_mem allowed.cohort_ids (c ∷ s)).0 e)

  -- The guard returns normally exactly when each id under a chunk key, a cohort key or a content
  -- unit key of the value, at any depth, is among the allowed ones; an empty cohort id is let through.
  pub validate_id_references_iff :
      (validate_id_references value allowed ≡ ok tt) ↔ OnlyAllowed value allowed
  unfolding validate_id_references
  validate_id_references_iff = (to, from)
    where
      to : validate_id_references value allowed ≡ ok tt → OnlyAllowed value allowed
      to h =
          let chunks = collect_referenced_ids value chunk_keys in
          let cohorts = collect_referenced_ids value cohort_keys in
          let units = collect_referenced_ids value content_unit_keys in
          let cohort_ok = λ (id : Text). is_empty id || has allowed.cohort_ids id in
          let first = check_ids chunk (has allowed.chunk_ids) chunks in
          let second = check_ids cohort cohort_ok cohorts in
          let third = check_ids content_unit (has allowed.content_unit_ids) units in
          let (_, c, h') = >>-eq-ok first (second >> third) h in
          let (_, d, u) = >>-eq-ok second third h' in
          OnlyAllowed-of_lists ((check_ids_iff chunk _ chunks).0 c)
            ((check_ids_iff cohort cohort_ok cohorts).0 d)
            ((check_ids_iff content_unit _ units).0 u)

      empty_or :
          (id : Text)
          → (id ≡ []) ⊎ Memᴰ id allowed.cohort_ids
          → (is_empty id || has allowed.cohort_ids id) ≡ true
      empty_or [] m = refl
      empty_or (c ∷ s) (inl e) = cc
      empty_or (c ∷ s) (inr m) = (has_iff_mem allowed.cohort_ids (c ∷ s)).1 m

      from : OnlyAllowed value allowed → validate_id_references value allowed ≡ ok tt
      from o =
          rw
            (
              (check_ids_iff chunk (has allowed.chunk_ids) _).1 (
                  All-of_forall _ _ (λ id m.
                    (has_iff_mem allowed.chunk_ids id).1
                      (o.chunks id (walk_sound chunk_keys value none m)))),
              (check_ids_iff cohort (λ id. is_empty id || has allowed.cohort_ids id) _).1 (
                  All-of_forall _ _
                    (λ id m. empty_or id (o.cohorts id (walk_sound cohort_keys value none m)))),
              (check_ids_iff content_unit (has allowed.content_unit_ids) _).1 (
                  All-of_forall _ _ (λ id m.
                    (has_iff_mem allowed.content_unit_ids id).1
                      (o.content_units id (walk_sound content_unit_keys value none m)))),
            )
            refl

  -- What it throws names an id that occurs in the value under a key of that kind and is not allowed.
  pub validate_id_references-err :
      {e : Failure}
      → validate_id_references value allowed ≡ err e
      → (id : Text) × ((e ≡ unknown_id chunk id)
            × Occurs chunk_keys id none value
            × (has allowed.chunk_ids id ≡ false)
          ⊎ (e ≡ unknown_id cohort id)
            × Occurs cohort_keys id none value
            × (id ≢ [])
            × (has allowed.cohort_ids id ≡ false)
          ⊎ (e ≡ unknown_id content_unit id)
            × Occurs content_unit_keys id none value
            × (has allowed.content_unit_ids id ≡ false))
  unfolding validate_id_references
  validate_id_references-err {e} h =
      let chunks = collect_referenced_ids value chunk_keys in
      let cohorts = collect_referenced_ids value cohort_keys in
      let units = collect_referenced_ids value content_unit_keys in
      let cohort_ok = λ (id : Text). is_empty id || has allowed.cohort_ids id in
      let first = check_ids chunk (has allowed.chunk_ids) chunks in
      let second = check_ids cohort cohort_ok cohorts in
      let third = check_ids content_unit (has allowed.content_unit_ids) units in
      elim (>>-eq-err first (second >> third) h) [
        | inl c ↦
            let (id, m, f, q) = check_ids-err chunk (has allowed.chunk_ids) chunks c in
            (id, inl (q, walk_sound chunk_keys value none (unfold collect_referenced_ids in m), f))
        | inr r ↦ elim (>>-eq-err second third r) [
          | inl c ↦
              let (id, m, f, q) = check_ids-err cohort cohort_ok cohorts c in
              (
                id,
                inr (
                    inl (
                      q,
                      walk_sound cohort_keys value none (unfold collect_referenced_ids in m),
                      nonempty id f,
                      ground arith,
                    )),
              )
          | inr c ↦
              let (id, m, f, q) =
                check_ids-err content_unit (has allowed.content_unit_ids) units c in
              (
                id,
                inr (
                    inr (
                      q,
                      walk_sound content_unit_keys value none (unfold collect_referenced_ids in m),
                      f,
                    )),
              )
        ]
      ]
    where
      nonempty : (id : Text) → (is_empty id || has allowed.cohort_ids id) ≡ false → id ≢ []
      nonempty id f e = cc (rw e at f)
