-- ===== src/Engine/SemanticDedup/Laws.antt =====
-- What is left in the table after the deduplication.
use content_gap.Prelude.{
  ℕ, suc, ◌+◌, true, false, List, [], ◌∷◌, ◌++◌, map, ◌≡◌, refl, sym, ap, ◌∙◌, subst, ◌≢◌, ◌⊎◌, inl,
  inr, arith, Bool-cases, length, All, All-append, length-append, append-nil, append_assoc,
  Memᴰ-any,
}
use content_gap.Prelude.Sorting.{IsSorted}
use content_gap.Prelude.Text.{Text, text_eq, text_eq_iff, text_eq_refl, text_ne_iff, has}
use content_gap.Database.Tables.{ExtractedSignalRow}
use content_gap.Engine.SemanticDedup.{
  DedupState, delete_signal, dedup_key, dedup_step, dedup_loop, semantic_dedup,
}
use mathlib.Core.List.{Memᴰ, map-append}
use mathlib.Core.List.Memᴰ as MemD

-- No two elements have the same image.
abbrev pub UniqueBy : {A : Type 0} → (A → Text) → List A → Type 0
UniqueBy f = IsSorted (λ a b. f a ≢ f b)

module _ {A : Type 0} (R : A → A → Type 0) where
  All-middle :
      (P : A → Type 0) (xs : List A) (y : A) (ys : List A) → All P (xs ++ y ∷ ys) → All P (xs ++ ys)
  All-middle P [] y ys h = h.1
  All-middle P (x ∷ xs) y ys h = (h.0, All-middle P xs y ys h.1)

  All_at : (P : A → Type 0) (xs : List A) (y : A) (ys : List A) → All P (xs ++ y ∷ ys) → P y
  All_at P [] y ys h = h.0
  All_at P (x ∷ xs) y ys h = All_at P xs y ys h.1

  IsSorted-middle :
      (xs : List A) (y : A) (ys : List A) → IsSorted R (xs ++ y ∷ ys) → IsSorted R (xs ++ ys)
  IsSorted-middle [] y ys h = h.1
  IsSorted-middle (x ∷ xs) y ys h = (All-middle (R x) xs y ys h.0, IsSorted-middle xs y ys h.1)

  IsSorted-concat :
      (xs : List A) (y : A) → IsSorted R xs → All (λ x. R x y) xs → IsSorted R (xs ++ y ∷ [])
  IsSorted-concat [] y h k = (tt, tt)
  IsSorted-concat (x ∷ xs) y h k =
      (All-append (R x) xs (y ∷ []) h.0 (k.0, tt), IsSorted-concat xs y h.1 k.1)

abbrev row_id : ExtractedSignalRow → Text
row_id r = r.id

delete_others :
    (id : Text) (rows : List ExtractedSignalRow)
    → All (λ r. id ≢ r.id) rows
    → delete_signal id rows ≡ rows
unfolding delete_signal
delete_others id [] h = refl
delete_others id (r ∷ rows) h =
    rw ((text_ne_iff r.id id).1 (λ e. h.0 (sym e)), delete_others id rows h.1)

delete_middle :
    (kept : List ExtractedSignalRow) (s : ExtractedSignalRow) (rest : List ExtractedSignalRow)
    → UniqueBy row_id (kept ++ s ∷ rest)
    → delete_signal s.id (kept ++ s ∷ rest) ≡ kept ++ rest
unfolding delete_signal
delete_middle [] s rest h = rw (text_eq_refl s.id) (delete_others s.id rest h.0)
delete_middle (r ∷ kept) s rest h = rw (
  (text_ne_iff r.id s.id).1 (All_at (λ a b. a.id ≢ b.id) (λ q. r.id ≢ q.id) kept s rest h.0),
  delete_middle kept s rest h.1,
)

module _ (to_lower_case : Text → Text) where
  abbrev key_of : ExtractedSignalRow → Text
  key_of = dedup_key to_lower_case

  -- A row of the table with the key of `o`.
  abbrev pub Represented : List ExtractedSignalRow → ExtractedSignalRow → Type 0
  Represented table o = (r : ExtractedSignalRow) × Memᴰ r table × (key_of r ≡ key_of o)

  has-mem :
      (kept : List ExtractedSignalRow) (k : Text)
      → has (map key_of kept) k ≡ true
      → (r : ExtractedSignalRow) × Memᴰ r kept × (key_of r ≡ k)
  has-mem kept k h =
      let (j, m, e) = Memᴰ-any (text_eq k) (map key_of kept) h in
      let (r, n, f) = MemD.of_map key_of kept m in (r, n, f ∙ sym ((text_eq_iff k j).0 e))

  unseen :
      (kept : List ExtractedSignalRow) (k : Text)
      → has (map key_of kept) k ≡ false
      → All (λ r. key_of r ≢ k) kept
  unseen [] k h = tt
  unseen (r ∷ kept) k h = ((λ e. cc (rw (e, text_eq_refl k) at h)), unseen kept k (ground arith))

  record DedupInv (all rest : List ExtractedSignalRow) (st : DedupState) : Type 0 where
    kept : List ExtractedSignalRow
    table_is : st.table ≡ kept ++ rest
    ids : UniqueBy row_id (kept ++ rest)
    seen_is : st.seen ≡ map key_of kept
    keys : UniqueBy key_of kept
    counted : st.removed + length kept + length rest ≡ length all
    original : (r : ExtractedSignalRow) → Memᴰ r (kept ++ rest) → Memᴰ r all
    complete : (o : ExtractedSignalRow) → Memᴰ o all → Represented kept o ⊎ Memᴰ o rest

  module _ {all : List ExtractedSignalRow} where
    drop_duplicate :
        (s : ExtractedSignalRow) (rest : List ExtractedSignalRow) (st : DedupState)
        → has st.seen (key_of s) ≡ true
        → DedupInv all (s ∷ rest) st
        → DedupInv all rest
            (record st { table = delete_signal s.id st.table; removed = suc st.removed })
    drop_duplicate s rest st h v = record {
      kept = v.kept;
      table_is = ap (delete_signal s.id) v.table_is ∙ delete_middle v.kept s rest v.ids;
      ids = IsSorted-middle (λ a b. a.id ≢ b.id) v.kept s rest v.ids;
      seen_is = v.seen_is;
      keys = v.keys;
      counted = omega (arith, v.counted);
      original = λ r m. v.original r (elim (MemD.append_cases v.kept m) [
        | inl a ↦ MemD.append_left (s ∷ rest) a
        | inr b ↦ MemD.append_right v.kept (Memᴰ.tail b)
      ]);
      complete = λ o m. elim (v.complete o m) [
        | inl r ↦ inl r
        | inr n ↦ elim (MemD.cases_cons n) [
          | inl e ↦
              let (r, q, f) = has-mem v.kept (key_of s) (rw v.seen_is at h) in
              inl (r, q, f ∙ ap key_of (sym e))
          | inr n' ↦ inr n'
        ]
      ];
    }

    keep_first :
        (s : ExtractedSignalRow) (rest : List ExtractedSignalRow) (st : DedupState)
        → has st.seen (key_of s) ≡ false
        → DedupInv all (s ∷ rest) st
        → DedupInv all rest (record st { seen = st.seen ++ key_of s ∷ [] })
    keep_first s rest st h v =
        let regroup : v.kept ++ s ∷ rest ≡ (v.kept ++ s ∷ []) ++ rest =
          sym (append_assoc v.kept (s ∷ []) rest) in
        record {
          kept = v.kept ++ s ∷ [];
          table_is = v.table_is ∙ regroup;
          ids = subst (UniqueBy row_id) regroup v.ids;
          seen_is =
              ap (λ (l : List Text). l ++ key_of s ∷ []) v.seen_is
              ∙ sym (map-append key_of v.kept (s ∷ []));
          keys =
              IsSorted-concat (λ a b. key_of a ≢ key_of b) v.kept s v.keys
                (unseen v.kept (key_of s) (rw v.seen_is at h));
          counted = omega (arith, v.counted, length-append {0} v.kept (s ∷ []));
          original = λ r m. v.original r (subst (Memᴰ r) (sym regroup) m);
          complete = λ o m. elim (v.complete o m) [
            | inl (r, q, f) ↦ inl (r, MemD.append_left (s ∷ []) q, f)
            | inr n ↦ elim (MemD.cases_cons n) [
              | inl e ↦ inl (s, MemD.append_right v.kept (Memᴰ.head refl), ap key_of (sym e))
              | inr n' ↦ inr n'
            ]
          ];
        }

    dedup_loop-Inv :
        (rest : List ExtractedSignalRow) (st : DedupState)
        → DedupInv all rest st
        → DedupInv all [] (dedup_loop to_lower_case st rest)
    unfolding dedup_loop
    dedup_loop-Inv [] st v = v
    dedup_loop-Inv (s ∷ rest) st v =
        dedup_loop-Inv rest (dedup_step to_lower_case st s)
          (step (Bool-cases (has st.seen (key_of s))))
      where
        step :
            (has st.seen (key_of s) ≡ true) ⊎ (has st.seen (key_of s) ≡ false)
            → DedupInv all rest (dedup_step to_lower_case st s)
        step (inl e) = rw (dedup_step, e) (drop_duplicate s rest st e v)
        step (inr e) = rw (dedup_step, e) (keep_first s rest st e v)

  -- What the stage promises of the rows it leaves.
  pub record IsDeduplicated (sigs table : List ExtractedSignalRow) (removed : ℕ) : Type 0 where
    pub unique : UniqueBy key_of table
    pub original : (r : ExtractedSignalRow) → Memᴰ r table → Memᴰ r sigs
    pub complete : (o : ExtractedSignalRow) → Memᴰ o sigs → Represented table o
    pub counted : removed + length table ≡ length sigs

  -- If the ids of the rows differ, the stage leaves rows of the table alone with no two keys alike,
  -- each key that was there is still there, and the number reported is that of the deleted rows.
  pub semantic_dedup-IsDeduplicated :
      (sigs : List ExtractedSignalRow)
      → UniqueBy row_id sigs
      → IsDeduplicated sigs
          (semantic_dedup to_lower_case sigs).table
          (semantic_dedup to_lower_case sigs).removed
  unfolding semantic_dedup
  semantic_dedup-IsDeduplicated sigs ids = result (
      dedup_loop-Inv sigs start (record {
        kept = [];
        table_is = refl;
        ids = ids;
        seen_is = refl;
        keys = tt;
        counted = omega arith;
        original = λ r m. m;
        complete = λ o m. inr m;
      }))
    where
      start : DedupState
      start = record { table = sigs; seen = []; removed = 0 }

      result :
          DedupInv sigs [] (dedup_loop to_lower_case start sigs)
          → IsDeduplicated sigs
              (dedup_loop to_lower_case start sigs).table
              (dedup_loop to_lower_case start sigs).removed
      result v =
          let table = v.table_is ∙ append-nil v.kept in
          rw table (record {
            unique = v.keys;
            original = λ r m. v.original r (MemD.append_left [] m);
            complete = λ o m. elim (v.complete o m) [ inl r ↦ r | inr n ↦ absurd (MemD.not-nil n) ];
            counted = omega (arith, v.counted);
          })
