-- ===== src/Json/Struct/Reload.antt =====
-- A structure that was written by the macros is loaded by them.
use serialization_cpp.Common.{All, ℕ, ◌≡◌, refl, true, some, List, [], ◌∷◌}
use serialization_cpp.Common.Result.{ok, ◌>>=◌}
use serialization_cpp.Json.Tree.{Tree, play, Shows, ShowsTrees, ShowsMembers, IsPlain, IsDocumented}
use serialization_cpp.Json.Emits.{trees, Emits, json_dump-play}
use serialization_cpp.Json.Struct.{
  Slot, Struct, struct_to_json, slot_from_json, struct_from_json, Class, IsReloaded, Kind, string,
  boolean, uint64, uint32, object, objects, nested,
}
use serialization_cpp.Json.{
  has_member, get_json_value, get_json_bool, get_json_bool_at, get_json_uint64_t,
  get_json_uint64_t_at, get_json_uint32_t, get_json_uint32_t_at, get_json_string,
  get_json_string_at, Json,
}
use serialization_cpp.Json.Write.{json_dump, json_parse, Writer}
use serialization_cpp.Json.Load.{
  member_or_throw, load_string, load_bool, load_u64, load_u32, load_key,
}
use serialization_cpp.Json.Load.Vectors.{AreFilled, load_keyv-all, load_keyvv-all}
use serialization_cpp.Json.Laws.{AreConstructed}
use serialization_cpp.Json.Struct.Fields.{
  slot_tree, members, SlotFits, AreNames, Fits, fields-Emits, members-AreMembers,
}

module _ {J : Json} {W : Writer J} (C : Class J W) (laws : IsReloaded C) where
  -- The values of an array that shows the trees of some objects construct them.
  pub shown-AreConstructed :
      (js : List J.Value) (v : List C.Object)
      → ShowsTrees J js (trees laws.tree v)
      → All laws.Keeps v
      → AreConstructed C.construct js v
  unfolding Shows
  shown-AreConstructed [] [] s h = tt
  shown-AreConstructed [] (x ∷ v) s h = absurd s
  shown-AreConstructed (j ∷ js) [] s h = absurd s
  shown-AreConstructed (j ∷ js) (x ∷ v) (s, ss) (h, hs) =
      (laws.construct-tree j x s h, shown-AreConstructed js v ss hs)

  shown-AreFilled :
      (js : List J.Value) (v : List (List C.Object))
      → ShowsTrees J js (trees (λ level1. Tree.array (trees laws.tree level1)) v)
      → All (All laws.Keeps) v
      → AreFilled J C.construct js v
  unfolding Shows
  shown-AreFilled [] [] s h = tt
  shown-AreFilled [] (x ∷ v) s h = absurd s
  shown-AreFilled (j ∷ js) [] s h = absurd s
  shown-AreFilled (j ∷ js) (x ∷ v) ((a, s), ss) (h, hs) =
      (a, shown-AreConstructed (J.get_array j) x s h, shown-AreFilled js v ss hs)

  -- An object of the class can only be loaded into one that it keeps; any other slot into any value.
  abbrev pub SlotTakes : (kind : Kind) → Slot C kind → Type 0
  SlotTakes string v = Unit {0}
  SlotTakes boolean v = Unit {0}
  SlotTakes uint64 v = Unit {0}
  SlotTakes uint32 v = Unit {0}
  SlotTakes object v = laws.Keeps v
  SlotTakes objects v = Unit {0}
  SlotTakes nested v = Unit {0}

  abbrev pub Takes : (fields : List (List ℕ × Kind)) → Struct C fields → Type 0
  Takes [] v = Unit {0}
  Takes ((name, kind) ∷ fields) (v, rest) = SlotTakes kind v × Takes fields rest

  pub slot_from_json-shown :
      (kind : Kind) (val j : J.Value) (name : List ℕ) (v old : Slot C kind)
      → J.is_object val ≡ true
      → J.find_member val name ≡ some j
      → Shows J j (slot_tree C laws kind v)
      → SlotFits C laws kind v
      → SlotTakes kind old
      → slot_from_json C kind val name old ≡ (ok tt, v)
  unfolding slot_from_json Shows load_string load_bool load_u64 load_u32 load_key member_or_throw
      has_member get_json_string_at get_json_bool_at get_json_uint64_t_at get_json_uint32_t_at
      get_json_value get_json_string get_json_bool get_json_uint64_t get_json_uint32_t
  slot_from_json-shown string val j name v old o f (k, e) h t = rw (o, f, k, e)
  slot_from_json-shown boolean val j name v old o f (k, e) h t = rw (o, f, k, e)
  slot_from_json-shown uint64 val j name v old o f (k, e) h t = rw (o, f, k, e)
  slot_from_json-shown uint32 val j name v old o f (k, e) h t = rw (o, f, k, e)
  slot_from_json-shown object val j name v old o f s h t =
      rw (o, f) (laws.from_json_at-tree val j name v old o f s h t)
  slot_from_json-shown objects val j name v old o f (a, s) h t =
      load_keyv-all J C.construct val j name o f a v old
        (shown-AreConstructed (J.get_array j) v s h)
  slot_from_json-shown nested val j name v old o f (a, s) h t =
      load_keyvv-all J C.construct val j name o f a v old (shown-AreFilled (J.get_array j) v s h)

  struct_from_json-shown :
      (fields : List (List ℕ × Kind)) (val : J.Value) (v old : Struct C fields)
      → J.is_object val ≡ true
      → ShowsMembers J val (members C laws fields v)
      → Fits C laws fields v
      → Takes fields old
      → struct_from_json C fields val old ≡ (ok tt, v)
  unfolding struct_from_json Shows
  struct_from_json-shown [] val v old o s h t = refl
  struct_from_json-shown ((name, kind) ∷ fields) val (v, rest) (old, olds) o ((j, f, s), ss) (h, hs)
        (t, ts) =
      rw (
        slot_from_json-shown kind val j name v old o f s h t,
        struct_from_json-shown fields val rest olds o ss hs ts,
      )

-- A structure of any fields, one for each pair of macros, whose names are of ASCII and differ and whose
-- values are texts of ASCII, numbers of their types and objects that their class keeps: it is written as
-- a document that is parsed, and loading it into any other such structure makes that equal to the first.
pub struct_round_trip :
    {J : Json} {W : Writer J} (documented : IsDocumented W) (C : Class J W) (laws : IsReloaded C)
    (fields : List (List ℕ × Kind)) (v old : Struct C fields)
    → AreNames C laws fields
    → Fits C laws fields v
    → Takes C laws fields old
    → (j : J.Value) × ((json_dump W (struct_to_json C fields v) >>= json_parse W) ≡ ok j)
      × (struct_from_json C fields j old ≡ (ok tt, v))
unfolding struct_to_json play IsPlain Shows
struct_round_trip {J} {W} documented C laws fields v old names h t =
    let tree = Tree.object (members C laws fields v) in
    let emits : Emits W (struct_to_json C fields v) (play W tree) =
      λ s. rw (fields-Emits C laws fields v h (W.start_object s)) in
    let (j, parsed, (kind, shown)) =
      json_dump-play W documented (struct_to_json C fields v) tree emits
        (members-AreMembers C laws fields v names h) in
    (j, parsed, struct_from_json-shown C laws fields j v old kind shown h t)
