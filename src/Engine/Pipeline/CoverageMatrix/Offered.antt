-- ===== src/Engine/Pipeline/CoverageMatrix/Offered.antt =====
-- The stage `coverage-matrix`: which units the model is shown.
use content_gap.Prelude.{
  Bool, true, List, [], ◌∷◌, Option, some, map, filter, find, ◌≡◌, refl, sym, subst, inl, inr,
  Bool-cases, Option-cases, All, All_of_mem, All-weaken, All-map, All-filter_self, Memᴰ-filter,
  Memᴰ-any,
}
use content_gap.Prelude.Text.{Text, text_eq, text_eq_iff, has}
use content_gap.Shared.Enums.{OwnerType}
use content_gap.Shared.Results.{Result, ok, err}
use content_gap.Database.Tables.{ContentUnit, ExtractedSignalRow}
use content_gap.Llm.Types.{OwnedUnit}
use content_gap.Engine.Ingest.{same_owner}
use content_gap.Engine.Retrieval.{Floats, Indexed, Scored, top_k, keyword_overlap}
use content_gap.Engine.Pipeline.Store.{M, pure, lift, after, ◌>>=◌, Store, Corpus}
use content_gap.Engine.Pipeline.Verification.{NeedRow}
use content_gap.Engine.Pipeline.DecisionSupport.{unit_key, unit_text}
use content_gap.Engine.Pipeline.CoverageMatrix.{
  owned_units_of, Matched, unit_matches, match_need, match_needs, is_shortlisted, owned_unit_input,
  coverage_input, real_id,
}
use mathlib.Core.List.{Memᴰ}

found_unit :
    (p : ContentUnit → Bool) (xs : List ContentUnit) (u : ContentUnit)
    → find p xs ≡ some u
    → Memᴰ u xs × (p u ≡ true)
found_unit p [] u h = cc
found_unit p (x ∷ xs) u h = elim (Bool-cases (p x)) [
  | inl e ↦
      let first : some x ≡ some u = rw e at h in
      let same : u ≡ x = cc in (Memᴰ.head same, rw same e)
  | inr e ↦ let (m, q) = found_unit p xs u (rw e at h) in (Memᴰ.tail m, q)
]

module _ {F : Type 0} (floats : Floats F) (embed : List Text → Result (List (List F)))
    (to_lower_case : Text → Text) (split_words : Text → List Text) (corpus : Corpus)
    (vectors : List (Indexed F)) where
  abbrev matches : Text → Text → Bool
  matches = unit_matches floats embed to_lower_case split_words corpus vectors

  abbrev matching : List NeedRow → M (List Matched)
  matching = match_needs floats embed to_lower_case split_words corpus vectors

  -- The entry of a need: units that speak of it.
  record IsEntry (needs : List NeedRow) (m : Matched) : Type 0 where
    need : NeedRow
    among : Memᴰ need needs
    speaking : All (λ id. matches need.normalized_need id ≡ true) m.unit_ids

  -- A unit that is shown: an owned one of the corpus with that id, which has a word of four letters or
  -- more in common with one of the needs.
  pub record IsOffered (needs : List NeedRow) (u : OwnedUnit) : Type 0 where
    pub unit : ContentUnit
    pub stored : Memᴰ unit corpus.units
    pub owned : same_owner unit.owner_type OwnerType.owned ≡ true
    pub same_id : unit.id ≡ u.id
    pub need : NeedRow
    pub among : Memᴰ need needs
    pub speaks :
        keyword_overlap to_lower_case split_words (unit_text unit) need.normalized_need ≡ true

  abbrev AllEntries : List NeedRow → Store × Result (List Matched) → Type 0
  AllEntries needs (t, ok ms) = All (IsEntry needs) ms
  AllEntries needs (t, err e) = Unit

  abbrev entry_of : NeedRow → List (Scored F) → Matched
  entry_of n top = record {
    need_id = n.id;
    unit_ids =
        filter (matches n.normalized_need)
          (map (λ t. real_id floats embed to_lower_case split_words corpus vectors t.id) top);
  }

  entry_of-IsEntry :
      (n : NeedRow) (ns : List NeedRow) (top : List (Scored F)) → IsEntry (n ∷ ns) (entry_of n top)
  entry_of-IsEntry n ns top = record {
    need = n;
    among = Memᴰ.head refl;
    speaking = All-filter_self (matches n.normalized_need) _;
  }

  later_IsEntry :
      (n : NeedRow) (ns : List NeedRow) (m : Matched) → IsEntry ns m → IsEntry (n ∷ ns) m
  later_IsEntry n ns m e = record {
    need = e.need;
    among = Memᴰ.tail e.among;
    speaking = e.speaking;
  }

  cons_AllEntries :
      (n : NeedRow) (ns : List NeedRow) (m : Matched) (q : Store × Result (List Matched))
      → IsEntry (n ∷ ns) m
      → AllEntries ns q
      → AllEntries (n ∷ ns) (after (λ ms. pure (m ∷ ms)) q)
  cons_AllEntries n ns m (t, err e) h k = tt
  cons_AllEntries n ns m (t, ok ms) h k = (h, All-weaken (later_IsEntry n ns) ms k)

  ranked_AllEntries :
      (n : NeedRow) (ns : List NeedRow) (s : Store) (r : Result (List (Scored F)))
      → ((t : Store) → AllEntries ns (matching ns t))
      → AllEntries (n ∷ ns) (
          after
            (λ m. matching ns >>= λ ms. pure (m ∷ ms))
            (after (λ top. pure (entry_of n top)) (lift r s)))
  ranked_AllEntries n ns s (err e) k = tt
  ranked_AllEntries n ns s (ok top) k =
      cons_AllEntries n ns (entry_of n top) (matching ns s) (entry_of-IsEntry n ns top) (k s)

  match_needs-AllEntries : (needs : List NeedRow) (s : Store) → AllEntries needs (matching needs s)
  unfolding match_needs match_need
  match_needs-AllEntries [] s = tt
  match_needs-AllEntries (n ∷ ns) s =
      ranked_AllEntries n ns s
        (top_k floats embed vectors n.normalized_need
          (map (λ u. unit_key u.id) (owned_units_of corpus)) 4)
        (match_needs-AllEntries ns)

  matches-IsOffered :
      (is_old : Option Text → Bool) (signals : List ExtractedSignalRow) (needs : List NeedRow)
      (ms : List Matched) (c : ContentUnit) (need : NeedRow)
      → Memᴰ need needs
      → matches need.normalized_need c.id ≡ true
      → IsOffered needs (owned_unit_input is_old signals needs ms c)
  unfolding unit_matches owned_units_of owned_unit_input
  matches-IsOffered is_old signals needs ms c need among h =
      let owned = owned_units_of corpus in
      elim (Option-cases (find (λ u. text_eq u.id c.id) (owned_units_of corpus))) [
        | inl e ↦ cc (rw (unit_matches, e) at h)
        | inr (unit, e) ↦
            let (m, same) = found_unit (λ u. text_eq u.id c.id) (owned_units_of corpus) unit e in
            let (stored, is_owned) =
              Memᴰ-filter (λ u. same_owner u.owner_type OwnerType.owned) corpus.units m in
            record {
              unit = unit;
              stored = stored;
              owned = is_owned;
              same_id = (text_eq_iff unit.id c.id).0 same;
              need = need;
              among = among;
              speaks = rw (unit_matches, e) at h;
            }
      ]

  shortlisted-IsOffered :
      (is_old : Option Text → Bool) (signals : List ExtractedSignalRow) (needs : List NeedRow)
      (ms : List Matched) (c : ContentUnit)
      → All (IsEntry needs) ms
      → is_shortlisted is_old signals needs ms c ≡ true
      → IsOffered needs (owned_unit_input is_old signals needs ms c)
  unfolding is_shortlisted
  shortlisted-IsOffered is_old signals needs ms c entries h =
      let (m, in_ms, has_id) = Memᴰ-any (λ m. has m.unit_ids c.id) ms h in
      let entry = All_of_mem (IsEntry needs) entries in_ms in
      let (id, in_ids, same) = Memᴰ-any (text_eq c.id) m.unit_ids has_id in
      let speaking : matches entry.need.normalized_need id ≡ true =
        All_of_mem _ entry.speaking in_ids in
      matches-IsOffered is_old signals needs ms c entry.need entry.among (
        subst (λ x. matches entry.need.normalized_need x ≡ true)
          (sym ((text_eq_iff c.id id).0 same)) speaking)

  -- If the shortlists of the needs succeed, then every unit that the model is shown with them is an
  -- owned unit of the corpus, and has a word of four letters or more in common with a need.
  pub coverage_input-IsOffered :
      (is_old : Option Text → Bool) (signals : List ExtractedSignalRow) (needs : List NeedRow)
      (s : Store) (t : Store) (ms : List Matched)
      → matching needs s ≡ (t, ok ms)
      → All (IsOffered needs) (coverage_input is_old signals needs ms corpus).owned_units
  unfolding coverage_input
  coverage_input-IsOffered is_old signals needs s t ms h =
      let entries : All (IsEntry needs) ms =
        subst (AllEntries needs) h (match_needs-AllEntries needs s) in
      All-map _ (owned_unit_input is_old signals needs ms)
        (filter (is_shortlisted is_old signals needs ms) (owned_units_of corpus))
        (All-weaken (λ c q. shortlisted-IsOffered is_old signals needs ms c entries q)
          (filter (is_shortlisted is_old signals needs ms) (owned_units_of corpus))
          (All-filter_self (is_shortlisted is_old signals needs ms) (owned_units_of corpus)))
