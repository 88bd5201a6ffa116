-- ===== src/Json/Struct/Missing.antt =====
-- A structure loaded from an object that lacks a member.
use serialization_cpp.Common.{List, ℕ, [], ◌∷◌, ◌++◌, true, none, refl, ◌≡◌}
use serialization_cpp.Common.Result.{Error, err, not_found}
use serialization_cpp.Json.{Json, has_member}
use serialization_cpp.Json.Write.{Writer}
use serialization_cpp.Json.Load.{
  load_string, load_bool, load_u64, load_u32, load_key, load_keyv, load_keyvv, member_or_throw,
}
use serialization_cpp.Json.Struct.{
  Class, IsReloaded, Kind, Slot, Struct, slot_from_json, struct_from_json, string, boolean, uint64,
  uint32, object, objects, nested,
}
use serialization_cpp.Json.Struct.Fields.{members, Fits}
use serialization_cpp.Json.Struct.Reload.{Takes, slot_from_json-shown}
use serialization_cpp.Json.Tree.{Shows, ShowsMembers}

module _ {J : Json} {W : Writer J} (C : Class J W) where
  -- The values of some fields and of those behind them.
  abbrev pub together :
      (front rest : List (List ℕ × Kind))
      → Struct C front
      → Struct C rest
      → Struct C (front ++ rest)
  together [] rest v w = w
  together ((name, kind) ∷ front) rest (x, v) w = (x, together front rest v w)

  slot_from_json-missing :
      (kind : Kind) (val : J.Value) (name : List ℕ) (old : Slot C kind)
      → J.is_object val ≡ true
      → J.find_member val name ≡ none
      → slot_from_json C kind val name old ≡ (err (not_found name), old)
  unfolding slot_from_json load_string load_bool load_u64 load_u32 load_key load_keyv load_keyvv
      member_or_throw has_member
  slot_from_json-missing string val name old o f = rw (o, f) refl
  slot_from_json-missing boolean val name old o f = rw (o, f) refl
  slot_from_json-missing uint64 val name old o f = rw (o, f) refl
  slot_from_json-missing uint32 val name old o f = rw (o, f) refl
  slot_from_json-missing object val name old o f = rw (o, f) refl
  slot_from_json-missing objects val name old o f = rw (o, f) refl
  slot_from_json-missing nested val name old o f = rw (o, f) refl

module _ {J : Json} {W : Writer J} (C : Class J W) (laws : IsReloaded C) where
  -- The fields before one that throws are loaded, and those behind it are not looked at.
  pub struct_from_json-stops :
      (front rest : List (List ℕ × Kind)) (name : List ℕ) (kind : Kind) (val : J.Value)
      (v old : Struct C front) (x x' : Slot C kind) (olds : Struct C rest) {e : Error}
      → J.is_object val ≡ true
      → ShowsMembers J val (members C laws front v)
      → Fits C laws front v
      → Takes C laws front old
      → slot_from_json C kind val name x ≡ (err e, x')
      → struct_from_json C
          (front ++ ((name, kind) ∷ rest))
          val
          (together C front ((name, kind) ∷ rest) old (x, olds))
        ≡ (err e, together C front ((name, kind) ∷ rest) v (x', olds))
  unfolding struct_from_json Shows
  struct_from_json-stops [] rest name kind val v old x x' olds o s h t fails = rw fails refl
  struct_from_json-stops ((first, k) ∷ front) rest name kind val (y, v) (z, old) x x' olds o
        ((j, e, s), ss) (h, hs) (t, ts) fails =
      rw
        (
          slot_from_json-shown C laws k val j first y z o e s h t,
          struct_from_json-stops front rest name kind val v old x x' olds o ss hs ts fails,
        )
        refl

  -- An object that shows the values of some fields and lacks the member of the next one makes the load of
  -- the whole structure throw: the fields before that one are loaded by then, and it and those behind it
  -- hold what they held. The values are texts of ASCII, numbers of their types and objects that their
  -- class keeps.
  pub struct_from_json-missing :
      (front rest : List (List ℕ × Kind)) (name : List ℕ) (kind : Kind) (val : J.Value)
      (v old : Struct C front) (left : Struct C ((name, kind) ∷ rest))
      → J.is_object val ≡ true
      → ShowsMembers J val (members C laws front v)
      → Fits C laws front v
      → Takes C laws front old
      → J.find_member val name ≡ none
      → struct_from_json C
          (front ++ ((name, kind) ∷ rest))
          val
          (together C front ((name, kind) ∷ rest) old left)
        ≡ (err (not_found name), together C front ((name, kind) ∷ rest) v left)
  struct_from_json-missing front rest name kind val v old (x, olds) o s h t f =
      struct_from_json-stops front rest name kind val v old x x olds o s h t
        (slot_from_json-missing C kind val name x o f)
