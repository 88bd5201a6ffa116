-- ===== src/Json/Struct.antt =====
-- A structure whose `toJSON` and `fromJSON` are made of the macros of include/json_helper.h, one for each
-- field, and what loading its text gives back.
pub mod Fields
pub mod Reload
pub mod Missing
pub mod Wrong
use serialization_cpp.Common.{ℕ, ◌≡◌, Bool, true, some, List, [], ◌∷◌}
use serialization_cpp.Common.Result.{Result, ok, err, undefined}
use serialization_cpp.Common.Run.{Run, ◌>>◌, pure}
use serialization_cpp.Json.{Json}
use serialization_cpp.Json.Write.{
  calls, key_to_json, keyv_to_json, keyvv_to_json, u64_to_json, u32_to_json, string_to_json,
  bool_to_json, Writer,
}
use serialization_cpp.Json.Load.{
  load_string, load_bool, load_u64, load_u32, load_key, load_keyv, load_keyvv,
}
use serialization_cpp.Json.Tree.{Tree, play, Shows, IsPlain}
use serialization_cpp.Json.Emits.{Emits}

-- A class of field: what `KEY_TO_JSON`, `LOAD_KEY_FROM_JSON` and the macros for vectors call of it.
pub record Class (J : Json) (W : Writer J) : Type 1 where
  pub Object : Type 0
  pub to_json : Object → Run W.State (Unit {0})
  pub from_json_at : J.Value → List ℕ → Run Object (Unit {0})
  pub construct : J.Value → Result Object

-- What such a class has to be for its objects to be loaded again: an object that it keeps is written as
-- a tree, and loaded from a value that shows the tree, into any object that it keeps.
pub record IsReloaded {J : Json} {W : Writer J} (C : Class J W) : Type 1 where
  pub Keeps : C.Object → Type 0
  pub tree : C.Object → Tree
  pub tree-IsPlain : (v : C.Object) → Keeps v → IsPlain (tree v)
  pub to_json-tree : (v : C.Object) → Keeps v → Emits W (C.to_json v) (play W (tree v))
  pub from_json_at-tree :
      (val j : J.Value) (key : List ℕ) (v old : C.Object)
      → J.is_object val ≡ true
      → J.find_member val key ≡ some j
      → Shows J j (tree v)
      → Keeps v
      → Keeps old
      → C.from_json_at val key old ≡ (ok tt, v)
  pub construct-tree :
      (j : J.Value) (v : C.Object) → Shows J j (tree v) → Keeps v → C.construct j ≡ ok v

-- One kind for each pair of macros.
pub data Kind : Type 0 where
  string boolean uint64 uint32 object objects nested : Kind

module _ {J : Json} {W : Writer J} (C : Class J W) where
  abbrev pub Slot : Kind → Type 0
  Slot string = List ℕ
  Slot boolean = Bool
  Slot uint64 = ℕ
  Slot uint32 = ℕ
  Slot object = C.Object
  Slot objects = List C.Object
  Slot nested = List (List C.Object)

  -- The structure with these fields.
  abbrev pub Struct : List (List ℕ × Kind) → Type 0
  Struct [] = Unit {0}
  Struct ((name, kind) ∷ fields) = Slot kind × Struct fields

  pub slot_to_json : (kind : Kind) → List ℕ → Slot kind → Run W.State (Unit {0})
  slot_to_json string name v = string_to_json W name v
  slot_to_json boolean name v = bool_to_json W name v
  slot_to_json uint64 name v = u64_to_json W name v
  slot_to_json uint32 name v = u32_to_json W name v
  slot_to_json object name v = key_to_json W name (C.to_json v)
  slot_to_json objects name v = keyv_to_json W C.to_json name v
  slot_to_json nested name v = keyvv_to_json W C.to_json name v

  pub fields_to_json : (fields : List (List ℕ × Kind)) → Struct fields → Run W.State (Unit {0})
  fields_to_json [] v = pure tt
  fields_to_json ((name, kind) ∷ fields) (v, rest) =
      slot_to_json kind name v >> fields_to_json fields rest

  -- `toJSON`: `StartObject`, the fields, and `EndObject`.
  unfoldable pub struct_to_json :
      (fields : List (List ℕ × Kind)) → Struct fields → Run W.State (Unit {0})
  unfolding fields_to_json slot_to_json
  struct_to_json fields v = do calls W W.start_object; fields_to_json fields v; calls W W.end_object

  pub slot_from_json : (kind : Kind) → J.Value → List ℕ → Run (Slot kind) (Unit {0})
  slot_from_json string j name = load_string J j name
  slot_from_json boolean j name = load_bool J j name
  slot_from_json uint64 j name = load_u64 J j name
  slot_from_json uint32 j name = load_u32 J j name
  slot_from_json object j name = load_key J C.from_json_at j name
  slot_from_json objects j name = load_keyv J C.construct j name
  slot_from_json nested j name = load_keyvv J C.construct j name

  -- The fields behind the first are loaded if that was.
  pub load_rest {κ} :
      {A : Type 0} {B : Type κ}
      → Result (Unit {0}) × A
      → Run B (Unit {0})
      → B
      → Result (Unit {0}) × (A × B)
  load_rest (ok _, a) more rest = let (r, rest') = more rest in (r, (a, rest'))
  load_rest (err e, a) more rest = (err e, (a, rest))
  load_rest (undefined, a) more rest = (undefined, (a, rest))

  -- `fromJSON`.
  unfoldable pub struct_from_json :
      (fields : List (List ℕ × Kind)) → J.Value → Run (Struct fields) (Unit {0})
  unfolding load_rest slot_from_json
  struct_from_json [] j old = (ok tt, old)
  struct_from_json ((name, kind) ∷ fields) j (old, olds) =
      load_rest (slot_from_json kind j name old) (struct_from_json fields j) olds
