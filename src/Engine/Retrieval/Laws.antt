-- ===== src/Engine/Retrieval/Laws.antt =====
-- legacy/packages/analysis-engine/src/retrieval.ts: what the best candidates are.
use content_gap.Prelude.{
  ℕ, ◌≤◌, true, false, List, [], ◌∷◌, ◌++◌, Option, none, some, take, drop, ◌≡◌, sym, subst, inl,
  inr, Option-cases, arith, All, All-take, All-weaken, length, length-take, take-append-drop,
}
use content_gap.Prelude.Text.{Text}
use content_gap.Prelude.Sorting.{
  sort_by, sort_by-perm, All-perm, sort_by-IsSorted, IsSorted, front_back, IsSorted-take,
}
use content_gap.Shared.Results.{Result, ok, ◌>>=◌, >>=-eq-ok}
use content_gap.Engine.Retrieval.{
  Floats, Indexed, Scored, vector_of, first_of, score_of, scored, score_above, top_k,
}
use mathlib.Core.List.{Permᴰ, Memᴰ}
use mathlib.Core.List.Permᴰ as PermD

-- Comparison as it is away from NaN: a strict order in which what is not above is transitive.
pub record IsOrdered {F : Type 0} (floats : Floats F) : Type 0 where
  pub asymm : (x y : F) → floats.above x y ≡ true → floats.above y x ≡ false
  pub trans :
      (x y z : F) → floats.above y x ≡ false → floats.above z y ≡ false → floats.above z x ≡ false

module _ {F : Type 0} (floats : Floats F) where
  abbrev pub AtLeast : Scored F → Scored F → Type 0
  AtLeast a b = floats.above b.score a.score ≡ false

  -- A candidate with its vector, scored against the query.
  pub record IsScored (vectors : List (Indexed F)) (qv : Option (List F)) (ids : List Text)
      (s : Scored F) : Type 0 where
    pub candidate : Memᴰ s.id ids
    pub vector : List F
    pub known : vector_of vectors s.id ≡ some vector
    pub scores : score_of floats qv s.id vector ≡ ok s

  -- At most `k` of the scored candidates, the best first, and none left out is better.
  pub record IsTop (vectors : List (Indexed F)) (qv : Option (List F)) (ids : List Text) (k : ℕ)
      (top : List (Scored F)) : Type 0 where
    pub capped : length top ≤ k
    pub among : All (IsScored vectors qv ids) top
    pub in_order : IsSorted AtLeast top
    pub all : List (Scored F)
    pub complete : scored floats vectors qv ids ≡ ok all
    pub rest : List (Scored F)
    pub together : Permᴰ (top ++ rest) all
    pub no_better : All (λ a. All (AtLeast a) rest) top

  later :
      (vectors : List (Indexed F)) (qv : Option (List F)) (id : Text) (ids : List Text)
      (s : Scored F)
      → IsScored vectors qv ids s
      → IsScored vectors qv (id ∷ ids) s
  later vectors qv id ids s h = record {
    candidate = Memᴰ.tail h.candidate;
    vector = h.vector;
    known = h.known;
    scores = h.scores;
  }

  id-score_of :
      (qv : Option (List F)) (id : Text) (v : List F) {s : Scored F}
      → score_of floats qv id v ≡ ok s
      → s.id ≡ id
  unfolding score_of
  id-score_of none id v h = cc
  id-score_of (some q) id v h = ground arith

  scored-IsScored :
      (vectors : List (Indexed F)) (qv : Option (List F)) (ids : List Text) (all : List (Scored F))
      → scored floats vectors qv ids ≡ ok all
      → All (IsScored vectors qv ids) all
  unfolding scored
  scored-IsScored vectors qv [] all h = let e : all ≡ [] = cc in rw e tt
  scored-IsScored vectors qv (id ∷ ids) all h = elim (Option-cases (vector_of vectors id)) [
    | inl e ↦
        All-weaken (later vectors qv id ids) all
          (scored-IsScored vectors qv ids all (rw (scored, e) at h))
    | inr (v, e) ↦
        let (s, p, h') =
          >>=-eq-ok (score_of floats qv id v)
            (λ s. scored floats vectors qv ids >>= λ rest. ok (s ∷ rest)) (rw (scored, e) at h) in
        let (rest, q, k) = >>=-eq-ok (scored floats vectors qv ids) (λ rest. ok (s ∷ rest)) h' in
        let same : all ≡ s ∷ rest = cc in
        let here = id-score_of qv id v p in
        rw same (
          record { candidate = Memᴰ.head here; vector = v; known = rw here e; scores = rw here p },
          All-weaken (later vectors qv id ids) rest (scored-IsScored vectors qv ids rest q),
        )
  ]

  take-IsTop :
      (vectors : List (Indexed F)) (qv : Option (List F)) (ids : List Text) (k : ℕ)
      (all : List (Scored F))
      → IsOrdered floats
      → scored floats vectors qv ids ≡ ok all
      → IsTop vectors qv ids k (take k (sort_by (score_above floats) all))
  take-IsTop vectors qv ids k all o q =
      let sorted =
        sort_by-IsSorted (score_above floats) AtLeast (λ a b. o.asymm a.score b.score) (λ a b n. n)
          (λ a b c. o.trans a.score b.score c.score) all in
      let ranked = sort_by (score_above floats) all in
      record {
        capped = omega (arith, length-take {0} k ranked);
        among = All-take _ k ranked (
            All-perm _ (PermD.symm (sort_by-perm (score_above floats) all))
              (scored-IsScored vectors qv ids all q));
        in_order = IsSorted-take AtLeast k ranked sorted;
        all = all;
        complete = q;
        rest = drop k ranked;
        together =
            subst (λ l. Permᴰ l all) (sym (take-append-drop k ranked))
              (sort_by-perm (score_above floats) all);
        no_better = front_back AtLeast k ranked sorted;
      }

  -- With numbers that compare as they do away from NaN, a successful query gives at most `k` of the
  -- candidates that have a vector, each with its similarity, the best first, and none that it leaves
  -- out is more similar.
  pub top_k-IsTop :
      (embed : List Text → Result (List (List F))) (vectors : List (Indexed F)) (query : Text)
      (ids : List Text) (k : ℕ) {top : List (Scored F)}
      → IsOrdered floats
      → top_k floats embed vectors query ids k ≡ ok top
      → (vecs : List (List F)) × (embed (query ∷ []) ≡ ok vecs)
        × IsTop vectors (first_of vecs) ids k top
  unfolding top_k
  top_k-IsTop embed vectors query ids k {top} o h =
      let (vecs, p, h') =
        >>=-eq-ok (embed (query ∷ []))
          (λ vecs. scored floats vectors (first_of vecs) ids >>= λ all.
            ok (take k (sort_by (score_above floats) all)))
          h in
      let (all, q, e) =
        >>=-eq-ok (scored floats vectors (first_of vecs) ids)
          (λ all. ok (take k (sort_by (score_above floats) all))) h' in
      let same : take k (sort_by (score_above floats) all) ≡ top = cc in
      (
        vecs,
        p,
        subst (IsTop vectors (first_of vecs) ids k) same
            (take-IsTop vectors (first_of vecs) ids k all o q),
      )
