-- ===== src/Shared/IdReferences/Occurrences.antt =====
-- legacy/packages/shared/src/schemas.ts, `collectReferencedIds`: the ids that occur in a value.
use content_gap.Prelude.{true, List, Option, some, ◌≡◌, inl, inr, Bool-cases}
use content_gap.Prelude.Text.{Text}
use content_gap.Shared.IdReferences.{
  Json, null, boolean, number, string, array, object, Items, nil, cons, Fields, end, field,
  is_id_key, walk, walk_items, walk_fields,
}
use mathlib.Core.List.{Memᴰ}
use mathlib.Core.List.Memᴰ as MemD

-- `id` stands in a value, or in an array however deep, under one of `keys`.
mutual
  pub data Occurs (keys : List Text) (id : Text) : Option Text → Json → Type 0 where
    here :
        {key : Option Text} {v : Text}
        → is_id_key keys key ≡ true
        → id ≡ v
        → Occurs keys id key (string v)
    in_array :
        {key : Option Text} {xs : Items} → OccursItem keys id key xs → Occurs keys id key (array xs)
    in_object :
        {key : Option Text} {fs : Fields} → OccursField keys id fs → Occurs keys id key (object fs)

  pub data OccursItem (keys : List Text) (id : Text) : Option Text → Items → Type 0 where
    item_here :
        {key : Option Text} {v : Json} {xs : Items}
        → Occurs keys id key v
        → OccursItem keys id key (cons v xs)
    item_later :
        {key : Option Text} {v : Json} {xs : Items}
        → OccursItem keys id key xs
        → OccursItem keys id key (cons v xs)

  pub data OccursField (keys : List Text) (id : Text) : Fields → Type 0 where
    field_here :
        {k : Text} {v : Json} {fs : Fields}
        → Occurs keys id (some k) v
        → OccursField keys id (field k v fs)
    field_later :
        {k : Text} {v : Json} {fs : Fields}
        → OccursField keys id fs
        → OccursField keys id (field k v fs)

module _ (keys : List Text) {id : Text} where
  mutual
    unfolding walk

    pub walk_sound :
        (v : Json) (key : Option Text) → Memᴰ id (walk keys v key) → Occurs keys id key v
    walk_sound null key m = elim m [ ]
    walk_sound (boolean b) key m = elim m [ ]
    walk_sound (number n) key m = elim m [ ]
    walk_sound (string v) key m = elim (Bool-cases (is_id_key keys key)) [
      | inl e ↦ here e (MemD.eq_of_singleton (rw e at m))
      | inr e ↦ absurd (MemD.not-nil (rw e at m))
    ]
    walk_sound (array xs) key m = in_array (walk_items_sound xs key m)
    walk_sound (object fs) key m = in_object (walk_fields_sound fs m)

    walk_items_sound :
        (xs : Items) (key : Option Text)
        → Memᴰ id (walk_items keys xs key)
        → OccursItem keys id key xs
    walk_items_sound nil key m = elim m [ ]
    walk_items_sound (cons v xs) key m = elim (MemD.append_cases (walk keys v key) m) [
      | inl a ↦ item_here (walk_sound v key a)
      | inr b ↦ item_later (walk_items_sound xs key b)
    ]

    walk_fields_sound : (fs : Fields) → Memᴰ id (walk_fields keys fs) → OccursField keys id fs
    walk_fields_sound end m = elim m [ ]
    walk_fields_sound (field k v fs) m = elim (MemD.append_cases (walk keys v (some k)) m) [
      | inl a ↦ field_here (walk_sound v (some k) a)
      | inr b ↦ field_later (walk_fields_sound fs b)
    ]

  mutual
    unfolding walk

    pub walk_complete :
        {key : Option Text} {v : Json} → Occurs keys id key v → Memᴰ id (walk keys v key)
    walk_complete (here e f) = rw e (Memᴰ.head f)
    walk_complete (in_array o) = walk_items_complete o
    walk_complete (in_object o) = walk_fields_complete o

    walk_items_complete :
        {key : Option Text} {xs : Items}
        → OccursItem keys id key xs
        → Memᴰ id (walk_items keys xs key)
    walk_items_complete (item_here {key} {v} {xs} o) =
        MemD.append_left (walk_items keys xs key) (walk_complete o)
    walk_items_complete (item_later {key} {v} {xs} o) =
        MemD.append_right (walk keys v key) (walk_items_complete o)

    walk_fields_complete : {fs : Fields} → OccursField keys id fs → Memᴰ id (walk_fields keys fs)
    walk_fields_complete (field_here {k} {v} {fs} o) =
        MemD.append_left (walk_fields keys fs) (walk_complete o)
    walk_fields_complete (field_later {k} {v} {fs} o) =
        MemD.append_right (walk keys v (some k)) (walk_fields_complete o)
