-- ===== src/Shared/EvidenceStatus/Keys.antt =====
-- The keys that tell sources apart determine the owner and the role.
use content_gap.Prelude.{
  List, [], ◌∷◌, ◌++◌, ◌≡◌, refl, sym, ap, ◌∙◌, Option, none, some, arith, find,
}
use content_gap.Prelude.Text.{Text, text_eq}
use content_gap.Shared.Enums.{OwnerType, EvidenceRole}
use content_gap.Shared.EvidenceStatus.{
  EvidenceInputItem, source_key, owner_type_literal, evidence_role_literal,
}

abbrev owners : List OwnerType
owners = OwnerType.business_brief ∷ OwnerType.owned ∷ OwnerType.voc ∷ OwnerType.competitor ∷ []

abbrev roles : List EvidenceRole
roles =
    EvidenceRole.customer_demand ∷ EvidenceRole.strategic_priority ∷ EvidenceRole.current_coverage
    ∷ EvidenceRole.competitor_context ∷ EvidenceRole.commercial_consequence
    ∷ EvidenceRole.missing_proof ∷ []

key : OwnerType → EvidenceRole → Text
unfolding owner_type_literal evidence_role_literal
key o r = owner_type_literal o ++ (b':' ∷ evidence_role_literal r)

-- The first owner and role with a given key.
decode : List OwnerType → Text → Option (OwnerType × EvidenceRole)
unfolding key
decode [] k = none
decode (o ∷ os) k =
    let rest = decode os k in
    elim (find (λ r. text_eq k (key o r)) roles) [ none ↦ rest | some r ↦ some (o, r) ]

decode-key : (o : OwnerType) (r : EvidenceRole) → decode owners (key o r) ≡ some (o, r)
unfolding decode text_eq
decode-key OwnerType.business_brief EvidenceRole.customer_demand = refl
decode-key OwnerType.business_brief _ = refl
decode-key OwnerType.owned EvidenceRole.customer_demand = refl
decode-key OwnerType.owned _ = refl
decode-key OwnerType.voc EvidenceRole.customer_demand = refl
decode-key OwnerType.voc _ = refl
decode-key OwnerType.competitor EvidenceRole.customer_demand = refl
decode-key OwnerType.competitor _ = refl

-- Two items with one key have the same owner and the same role.
pub source_key_injective :
    (a b : EvidenceInputItem)
    → source_key a ≡ source_key b
    → (a.owner_type ≡ b.owner_type) × (a.role ≡ b.role)
unfolding source_key key
source_key_injective a b e =
    let q =
      sym (decode-key a.owner_type a.role)
      ∙ ap (decode owners) e
      ∙ decode-key b.owner_type b.role in
    ground arith
