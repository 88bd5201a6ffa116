-- ===== src/Json/Struct/Fields.antt =====
-- What writing the fields of a structure spells, as members of a tree.
use serialization_cpp.Common.{
  if◌then◌else◌, Bool-cases, All, All-map, ℕ, ◌^◌, ◌<◌, ◌≡◌, refl, inl, inr, Bool, true, false,
  List, [], ◌∷◌,
}
use serialization_cpp.Json.Tree.{
  Tree, Members, member, end, play, play_members, IsPlain, AreMembers, IsAscii, is_fresh, same_text,
}
use serialization_cpp.Json.Emits.{trees, ArePlain-trees, Emits, Emits-array}
use serialization_cpp.Json.Struct.{
  Slot, Struct, slot_to_json, fields_to_json, Class, IsReloaded, Kind, string, boolean, uint64,
  uint32, object, objects, nested,
}
use serialization_cpp.Json.{Json}
use serialization_cpp.Json.Write.{
  key_to_json, to_json_each, in_array, keyv_to_json, keyvv_to_json, u64_to_json, u32_to_json,
  string_to_json, bool_to_json, Writer,
}

module _ {J : Json} {W : Writer J} (C : Class J W) (laws : IsReloaded C) where
  -- The tree of a field, and those of a structure's fields as members.
  abbrev pub slot_tree : (kind : Kind) → Slot C kind → Tree
  slot_tree string v = Tree.string v
  slot_tree boolean v = Tree.boolean v
  slot_tree uint64 v = Tree.uint64 v
  slot_tree uint32 v = Tree.uint v
  slot_tree object v = laws.tree v
  slot_tree objects v = Tree.array (trees laws.tree v)
  slot_tree nested v = Tree.array (trees (λ level1. Tree.array (trees laws.tree level1)) v)

  abbrev pub members : (fields : List (List ℕ × Kind)) → Struct C fields → Members
  members [] v = end
  members ((name, kind) ∷ fields) (v, rest) = member name (slot_tree kind v) (members fields rest)

  -- The values that can be written and loaded: texts of ASCII, numbers of their types, and objects that
  -- the class keeps.
  abbrev pub SlotFits : (kind : Kind) → Slot C kind → Type 0
  SlotFits string v = All IsAscii v
  SlotFits boolean v = Unit {0}
  SlotFits uint64 v = v < 2 ^ 64
  SlotFits uint32 v = v < 2 ^ 32
  SlotFits object v = laws.Keeps v
  SlotFits objects v = All laws.Keeps v
  SlotFits nested v = All (All laws.Keeps) v

  -- The names are of ASCII, and none stands twice.
  abbrev pub lacks : List ℕ → List (List ℕ × Kind) → Bool
  lacks key [] = true
  lacks key ((name, kind) ∷ fields) = if same_text name key then false else lacks key fields

  abbrev pub AreNames : List (List ℕ × Kind) → Type 0
  AreNames [] = Unit {0}
  AreNames ((name, kind) ∷ fields) = All IsAscii name × (lacks name fields ≡ true) × AreNames fields

  abbrev pub Fits : (fields : List (List ℕ × Kind)) → Struct C fields → Type 0
  Fits [] v = Unit {0}
  Fits ((name, kind) ∷ fields) (v, rest) = SlotFits kind v × Fits fields rest

  objects-Emits :
      (v : List C.Object)
      → All laws.Keeps v
      → Emits W (in_array W (to_json_each W C.to_json v)) (play W (Tree.array (trees laws.tree v)))
  objects-Emits v h = Emits-array W C.to_json laws.tree v (All-map _ _ laws.to_json-tree v h)

  slot-Emits :
      (kind : Kind) (name : List ℕ) (v : Slot C kind)
      → SlotFits kind v
      → Emits W (slot_to_json C kind name v) (λ s. play W (slot_tree kind v) (W.key name s))
  unfolding slot_to_json play string_to_json bool_to_json u64_to_json u32_to_json key_to_json
      keyv_to_json keyvv_to_json
  slot-Emits string name v h s = refl
  slot-Emits boolean name v h s = refl
  slot-Emits uint64 name v h s = refl
  slot-Emits uint32 name v h s = refl
  slot-Emits object name v h s = laws.to_json-tree v h (W.key name s)
  slot-Emits objects name v h s = objects-Emits v h (W.key name s)
  slot-Emits nested name v h s =
      Emits-array W (λ level1. in_array W (to_json_each W C.to_json level1))
        (λ level1. Tree.array (trees laws.tree level1)) v (All-map _ _ objects-Emits v h)
        (W.key name s)

  pub fields-Emits :
      (fields : List (List ℕ × Kind)) (v : Struct C fields)
      → Fits fields v
      → Emits W (fields_to_json C fields v) (play_members W (members fields v))
  unfolding fields_to_json play
  fields-Emits [] v h s = refl
  fields-Emits ((name, kind) ∷ fields) (v, rest) (h, hs) s =
      rw (slot-Emits kind name v h s) (fields-Emits fields rest hs _)

  slot-IsPlain : (kind : Kind) (v : Slot C kind) → SlotFits kind v → IsPlain (slot_tree kind v)
  unfolding IsPlain
  slot-IsPlain string v h = h
  slot-IsPlain boolean v h = h
  slot-IsPlain uint64 v h = h
  slot-IsPlain uint32 v h = h
  slot-IsPlain object v h = laws.tree-IsPlain v h
  slot-IsPlain objects v h = ArePlain-trees laws.Keeps laws.tree laws.tree-IsPlain v h
  slot-IsPlain nested v h =
      ArePlain-trees (All laws.Keeps) _
        (λ level1 k. ArePlain-trees laws.Keeps laws.tree laws.tree-IsPlain level1 k) v h

  lacks-is_fresh :
      (key : List ℕ) (fields : List (List ℕ × Kind)) (v : Struct C fields)
      → lacks key fields ≡ true
      → is_fresh key (members fields v) ≡ true
  lacks-is_fresh key [] v h = refl
  lacks-is_fresh key ((name, kind) ∷ fields) (v, rest) h = elim (Bool-cases (same_text name key)) [
    | inl same ↦ absurd (cc (h, same))
    | inr other ↦ rw other (lacks-is_fresh key fields rest (rw other at h))
  ]

  pub members-AreMembers :
      (fields : List (List ℕ × Kind)) (v : Struct C fields)
      → AreNames fields
      → Fits fields v
      → AreMembers (members fields v)
  unfolding IsPlain
  members-AreMembers [] v n h = tt
  members-AreMembers ((name, kind) ∷ fields) (v, rest) (ascii, fresh, n) (h, hs) = (
    ascii,
    lacks-is_fresh name fields rest fresh,
    slot-IsPlain kind v h,
    members-AreMembers fields rest n hs,
  )
