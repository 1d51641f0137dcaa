-- ===== src/Shared/EvidenceStatus/Laws.antt =====
-- When evidence is strong, partial or a hypothesis, in terms of the verified items themselves.
use content_gap.Prelude.{
  ◌≤◌, Bool, true, false, ◌||◌, List, map, ◌≡◌, sym, ◌∙◌, ◌≢◌, ◌↔◌, ◌⊎◌, inl, inr, arith,
  Bool-cases, length, filter, any, all, All, Memᴰ-filter, Memᴰ-filter_of, Memᴰ-any, any_of_mem,
  all_of_All, All_of_mem, All-of_forall, ltb, length-map,
}
use content_gap.Shared.Enums.{OwnerType, EvidenceStatus, CoverageStatus}
use content_gap.Shared.EvidenceStatus.{
  EvidenceInputItem, EvidenceFacts, source_key, distinct, is_first_party, is_voc, is_competitor,
  is_customer_demand, is_strong, evidence_facts, status_of_facts, classify_evidence_status,
}
use content_gap.Shared.EvidenceStatus.Keys.{source_key_injective}
use mathlib.Core.List.{Memᴰ}
use mathlib.Core.List.Memᴰ as MemD
use content_gap.Shared.EvidenceStatus.Distinct.{
  not-true, distinct-Differ, Differ-distinct, length-distinct-le,
}

source_key_cong :
    (a b : EvidenceInputItem)
    → a.owner_type ≡ b.owner_type
    → a.role ≡ b.role
    → source_key a ≡ source_key b
unfolding source_key
source_key_cong a b p q = cc

-- A verified item of the evidence that passes a test.
abbrev pub Verified : (EvidenceInputItem → Bool) → List EvidenceInputItem → Type 0
Verified p evidence = (e : EvidenceInputItem) × Memᴰ e evidence × (e.verified ≡ true) × (p e ≡ true)

module _ (evidence : List EvidenceInputItem) where
  verified_any :
      (p : EvidenceInputItem → Bool)
      → any p (filter (λ e. e.verified) evidence) ≡ true
      → Verified p evidence
  verified_any p h =
      let (e, m, q) = Memᴰ-any p _ h in
      let (n, v) = Memᴰ-filter (λ e. e.verified) evidence m in (e, n, v, q)

  any_verified :
      (p : EvidenceInputItem → Bool)
      → Verified p evidence
      → any p (filter (λ e. e.verified) evidence) ≡ true
  any_verified p (e, m, v, q) = any_of_mem p (Memᴰ-filter_of (λ e. e.verified) m v) q

  -- Two verified items from different sources: another owner or another role.
  abbrev pub Independent : Type 0
  Independent =
      (a : EvidenceInputItem) × (b : EvidenceInputItem) × Memᴰ a evidence
      × Memᴰ b evidence
      × (a.verified ≡ true)
      × (b.verified ≡ true)
      × ¬ ((a.owner_type ≡ b.owner_type) × (a.role ≡ b.role))

  distinct-Independent :
      2 ≤ length (distinct (map source_key (filter (λ e. e.verified) evidence))) → Independent
  distinct-Independent h =
      let (j, k, mj, mk, ne) = distinct-Differ _ h in
      let (a, ma, ea) = MemD.of_map source_key _ mj in
      let (b, mb, eb) = MemD.of_map source_key _ mk in
      let (na, va) = Memᴰ-filter (λ e. e.verified) evidence ma in
      let (nb, vb) = Memᴰ-filter (λ e. e.verified) evidence mb in
      (a, b, na, nb, va, vb, λ e. ne (sym ea ∙ source_key_cong a b e.0 e.1 ∙ eb))

  Independent-distinct :
      Independent → 2 ≤ length (distinct (map source_key (filter (λ e. e.verified) evidence)))
  Independent-distinct (a, b, ma, mb, va, vb, ne) = Differ-distinct _ (
    source_key a,
    source_key b,
    MemD.map source_key (Memᴰ-filter_of (λ e. e.verified) ma va),
    MemD.map source_key (Memᴰ-filter_of (λ e. e.verified) mb vb),
    λ e. ne (source_key_injective a b e),
  )

is_strong-false_iff : (c : CoverageStatus) → (is_strong c ≡ false) ↔ (c ≢ CoverageStatus.strong)
is_strong-false_iff CoverageStatus.none = ground arith
is_strong-false_iff _ = ground arith

status_strong_iff :
    (f : EvidenceFacts)
    → ((status_of_facts f).status ≡ EvidenceStatus.strong_evidence) ↔ (
        (2 ≤ length f.verified)
        × (2 ≤ f.distinct_sources)
        × (f.has_first_party ≡ true)
        × (f.coverage_insufficient ≡ true))
unfolding status_of_facts
status_strong_iff f = ground arith

-- Evidence is strong exactly when two verified items differ in owner or role, a verified item comes
-- from the brief or the voice of the customer, and the owned coverage is not strong.
pub classify_evidence_status-strong_iff :
    (evidence : List EvidenceInputItem) (coverage : CoverageStatus)
    → ((classify_evidence_status evidence coverage).status ≡ EvidenceStatus.strong_evidence) ↔ (
        Independent evidence
        × Verified (λ e. is_first_party e.owner_type) evidence
        × (coverage ≢ CoverageStatus.strong))
unfolding classify_evidence_status
classify_evidence_status-strong_iff evidence coverage = (to, from)
  where
    facts : EvidenceFacts
    facts = evidence_facts evidence coverage

    to :
        (status_of_facts facts).status ≡ EvidenceStatus.strong_evidence
        → Independent evidence
          × Verified (λ e. is_first_party e.owner_type) evidence
          × (coverage ≢ CoverageStatus.strong)
    to h =
        let (two, sources, first, weak) = (status_strong_iff facts).0 h in
        (
          distinct-Independent evidence sources,
          verified_any evidence _ first,
          (is_strong-false_iff coverage).0 (not-true weak),
        )

    from :
        Independent evidence
          × Verified (λ e. is_first_party e.owner_type) evidence
          × (coverage ≢ CoverageStatus.strong)
        → (status_of_facts facts).status ≡ EvidenceStatus.strong_evidence
    from (i, v, weak) =
        let sources = Independent-distinct evidence i in
        let items = filter (λ e. e.verified) evidence in
        (status_strong_iff facts).1 (
          omega (
            arith,
            length-distinct-le (map source_key items),
            length-map {0, 0} items source_key,
          ),
          sources,
          any_verified evidence _ v,
          rw ((is_strong-false_iff coverage).1 weak),
        )

status_hypothesis_iff :
    (f : EvidenceFacts)
    → ((status_of_facts f).status ≡ EvidenceStatus.hypothesis) ↔ (
        (¬ ((status_of_facts f).status ≡ EvidenceStatus.strong_evidence))
        × ((f.has_customer_demand ≡ false) ⊎ (f.only_competitor ≡ true) ⊎ (length f.verified ≡ 0)))
unfolding status_of_facts
status_hypothesis_iff f = ground arith

partial_demand :
    (f : EvidenceFacts)
    → (status_of_facts f).status ≡ EvidenceStatus.partial_evidence
    → f.has_customer_demand ≡ true
unfolding status_of_facts
partial_demand f h = ground arith

-- Evidence that is all from competitors is never more than a hypothesis, however much there is.
pub classify_evidence_status-competitor :
    (evidence : List EvidenceInputItem) (coverage : CoverageStatus)
    → All (λ e. e.verified ≡ true → e.owner_type ≡ OwnerType.competitor) evidence
    → (classify_evidence_status evidence coverage).status ≡ EvidenceStatus.hypothesis
unfolding classify_evidence_status
classify_evidence_status-competitor evidence coverage h =
    (status_hypothesis_iff (evidence_facts evidence coverage)).1 (not_strong, nothing_else)
  where
    from_competitor :
        {e : EvidenceInputItem}
        → Memᴰ e evidence
        → e.verified ≡ true
        → e.owner_type ≡ OwnerType.competitor
    from_competitor m v = All_of_mem _ h m v

    not_strong :
        ¬ ((classify_evidence_status evidence coverage).status ≡ EvidenceStatus.strong_evidence)
    not_strong s =
        let (_, (e, m, v, first), _) =
          (classify_evidence_status-strong_iff evidence coverage).0 s in
        cc (rw (from_competitor m v) at first)

    items : List EvidenceInputItem
    items = filter (λ e. e.verified) evidence

    competitors : all (λ e. is_competitor e.owner_type) items ≡ true
    competitors = all_of_All _ items (
        All-of_forall _ items (λ e m.
          let (n, v) = Memᴰ-filter (λ e. e.verified) evidence m in rw (from_competitor n v)))

    nothing_else :
        ((evidence_facts evidence coverage).has_customer_demand ≡ false)
        ⊎ ((evidence_facts evidence coverage).only_competitor ≡ true)
        ⊎ (length (evidence_facts evidence coverage).verified ≡ 0)
    nothing_else = elim (Bool-cases (ltb 0 (length items))) [
      | inl p ↦ inr (inl (rw (p, competitors)))
      | inr p ↦ inr (inr (ground arith))
    ]

-- Evidence without a verified customer demand is never partial: it is strong by the brief alone, or a
-- hypothesis.
pub classify_evidence_status-partial :
    (evidence : List EvidenceInputItem) (coverage : CoverageStatus)
    → (classify_evidence_status evidence coverage).status ≡ EvidenceStatus.partial_evidence
    → Verified (λ e. is_customer_demand e.role || is_voc e.owner_type) evidence
unfolding classify_evidence_status
classify_evidence_status-partial evidence coverage h =
    verified_any evidence _ (partial_demand (evidence_facts evidence coverage) h)
