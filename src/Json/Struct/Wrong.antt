-- ===== src/Json/Struct/Wrong.antt =====
-- A structure loaded from an object with a member of the wrong kind.
use serialization_cpp.Common.{List, ℕ, Bool, [], ◌∷◌, ◌++◌, true, false, some, refl, ◌≡◌}
use serialization_cpp.Common.Result.{
  Error, ok, err, expected_bool, expected_uint64_t, expected_uint32_t, expected_string,
  expected_array, wrong_json_type,
}
use serialization_cpp.Json.{
  Json, has_member, get_json_value, type_name, get_json_bool, get_json_bool_at, get_json_uint64_t,
  get_json_uint64_t_at, get_json_uint32_t, get_json_uint32_t_at, get_json_string,
  get_json_string_at, get_json_array, get_json_array_at,
}
use serialization_cpp.Json.Write.{Writer}
use serialization_cpp.Json.Load.{
  load_string, load_bool, load_u64, load_u32, load_keyv, load_keyvv, member_or_throw,
}
use serialization_cpp.Json.Struct.{
  Class, IsReloaded, Kind, Slot, Struct, slot_from_json, struct_from_json, string, boolean, uint64,
  uint32, object, objects, nested,
}
use serialization_cpp.Json.Struct.Fields.{members, Fits}
use serialization_cpp.Json.Struct.Reload.{Takes}
use serialization_cpp.Json.Struct.Missing.{together, struct_from_json-stops}
use serialization_cpp.Json.Tree.{ShowsMembers}

-- The message for a member of another kind than the field's. A field that is an object takes any kind, and
-- leaves the message to its class.
abbrev pub expected : Kind → List ℕ → Error
expected string = expected_string
expected boolean = expected_bool
expected uint64 = expected_uint64_t
expected uint32 = expected_uint32_t
expected object = wrong_json_type
expected objects = expected_array
expected nested = expected_array

module _ (J : Json) where
  -- Whether a value is of the kind that the field's macro asks for.
  abbrev pub is_of_kind : Kind → J.Value → Bool
  is_of_kind string j = J.is_string j
  is_of_kind boolean j = J.is_bool j
  is_of_kind uint64 j = J.is_uint64 j
  is_of_kind uint32 j = J.is_uint j
  is_of_kind object j = true
  is_of_kind objects j = J.is_array j
  is_of_kind nested j = J.is_array j

module _ {J : Json} {W : Writer J} (C : Class J W) where
  -- What a refused load leaves of a field: a vector is emptied, all else is kept.
  abbrev pub emptied : (kind : Kind) → Slot C kind → Slot C kind
  emptied string old = old
  emptied boolean old = old
  emptied uint64 old = old
  emptied uint32 old = old
  emptied object old = old
  emptied objects old = []
  emptied nested old = []

  slot_from_json-wrong :
      (kind : Kind) (val j : J.Value) (name : List ℕ) (old : Slot C kind) {kind_name : List ℕ}
      → J.is_object val ≡ true
      → J.find_member val name ≡ some j
      → is_of_kind J kind j ≡ false
      → type_name J j ≡ ok kind_name
      → slot_from_json C kind val name old ≡ (err (expected kind kind_name), emptied kind old)
  unfolding slot_from_json load_string load_bool load_u64 load_u32 load_keyv load_keyvv
      member_or_throw has_member get_json_value get_json_bool get_json_bool_at get_json_uint64_t
      get_json_uint64_t_at get_json_uint32_t get_json_uint32_t_at get_json_string get_json_string_at
      get_json_array get_json_array_at
  slot_from_json-wrong string val j name old o f k t = rw (o, f, k, t) refl
  slot_from_json-wrong boolean val j name old o f k t = rw (o, f, k, t) refl
  slot_from_json-wrong uint64 val j name old o f k t = rw (o, f, k, t) refl
  slot_from_json-wrong uint32 val j name old o f k t = rw (o, f, k, t) refl
  slot_from_json-wrong object val j name old o f k t = absurd (cc k)
  slot_from_json-wrong objects val j name old o f k t = rw (o, f, k, t) refl
  slot_from_json-wrong nested val j name old o f k t = rw (o, f, k, t) refl

-- An object that shows the values of some fields, and has the member of the next one of another kind than
-- the field's, makes the load of the whole structure throw, with a message that ends in the name of the
-- kind that it has. The fields before that one are loaded by then; a text, a flag or a number keeps what
-- it held, a vector is left empty, and the fields behind it hold what they held. The values are texts of
-- ASCII, numbers of their types and objects that their class keeps.
pub struct_from_json-wrong :
    {J : Json} {W : Writer J} (C : Class J W) (laws : IsReloaded C)
    (front rest : List (List ℕ × Kind)) (name : List ℕ) (kind : Kind) (val j : J.Value)
    (v old : Struct C front) (x : Slot C kind) (olds : Struct C rest) {kind_name : List ℕ}
    → J.is_object val ≡ true
    → ShowsMembers J val (members C laws front v)
    → Fits C laws front v
    → Takes C laws front old
    → J.find_member val name ≡ some j
    → is_of_kind J kind j ≡ false
    → type_name J j ≡ ok kind_name
    → struct_from_json C
        (front ++ ((name, kind) ∷ rest))
        val
        (together C front ((name, kind) ∷ rest) old (x, olds))
      ≡ (
        err (expected kind kind_name),
        together C front ((name, kind) ∷ rest) v (emptied C kind x, olds),
      )
struct_from_json-wrong C laws front rest name kind val j v old x olds o s h t f k named =
    struct_from_json-stops C laws front rest name kind val v old x (emptied C kind x) olds o s h t
      (slot_from_json-wrong C kind val j name x o f k named)
