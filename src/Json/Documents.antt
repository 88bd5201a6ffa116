-- ===== src/Json/Documents.antt =====
-- `toJSON` and `fromJSON` of pods and of vectors.
use serialization_cpp.Common.{All, All-map, ℕ, ◌≡◌, true, some, List}
use serialization_cpp.Common.Run.{Run}
use serialization_cpp.Json.Struct.Reload.{shown-AreConstructed}
use serialization_cpp.Common.Result.{Result, ok, ◌>>=◌}
use serialization_cpp.Json.{has_member, get_json_value, Json}
use serialization_cpp.Json.Write.{pod_to_json, vector_to_json, json_dump, json_parse, Writer}
use serialization_cpp.Json.Load.{string_or_throw, member_or_throw, string_constructor}
use serialization_cpp.Json.Structures.{pod_from_json, pod_from_json_at, vector_from_json}
use serialization_cpp.Json.Tree.{Tree, Shows, IsPlain, IsDocumented}
use serialization_cpp.Json.Emits.{
  trees, ArePlain-trees, Emits-array, Emits-pod, json_dump-play, hex_text-IsAscii,
}
use serialization_cpp.Json.Laws.{vector_from_json_loads}
use serialization_cpp.Json.Struct.{Class, IsReloaded}
use serialization_cpp.Hex.RoundTrip.{hex_text}
use serialization_cpp.Pod.{Pod}
use serialization_cpp.Pod.Order.{IsPod}
use serialization_cpp.Pod.Laws.{from_string-to_string, default-IsPod}
use serialization_cpp.Vector.{SerializableVector}
use serialization_cpp.Serializable.{Serializable}
use serialization_cpp.Pod

abbrev pub pod_tree : Pod → Tree
pod_tree p = Tree.string (hex_text p.bytes)

pub pod_tree-IsPlain : (SIZE : ℕ) (p : Pod) → IsPod SIZE p → IsPlain (pod_tree p)
unfolding IsPlain
pod_tree-IsPlain SIZE p h = hex_text-IsAscii p.bytes h.all_bytes

module _ (J : Json) (SIZE : ℕ) where
  -- A class derived from a pod with `JSON_STRING_CONSTRUCTOR(…, fromJSON)`.
  abbrev pub pod_construct : J.Value → Result Pod
  pod_construct = string_constructor J (Pod.default SIZE) (pod_from_json J SIZE)

  pub pod_from_json-shown :
      (j : J.Value) (p old : Pod)
      → Shows J j (pod_tree p)
      → IsPod SIZE p
      → IsPod SIZE old
      → pod_from_json J SIZE j old ≡ (ok tt, p)
  unfolding pod_from_json string_or_throw Shows
  pod_from_json-shown j p old (k, e) h ho =
      let cases = from_string-to_string SIZE p old h ho in rw (k, e, cases.1)

  pub pod_construct-shown :
      (j : J.Value) (p : Pod) → Shows J j (pod_tree p) → IsPod SIZE p → pod_construct j ≡ ok p
  unfolding string_constructor string_or_throw Shows
  pod_construct-shown j p (k, e) h =
      let loads = pod_from_json-shown j p (Pod.default SIZE) (k, e) h (default-IsPod SIZE) in
      rw (k, loads)

module _ {J : Json} (W : Writer J) (SIZE : ℕ) where
  abbrev pub pods : Class J W
  pods = record {
    Object = Pod;
    to_json = pod_to_json W SIZE;
    from_json_at = pod_from_json_at J SIZE;
    construct = pod_construct J SIZE;
  }

  pub pod_from_json_at-shown :
      (val j : J.Value) (key : List ℕ) (p old : Pod)
      → J.is_object val ≡ true
      → J.find_member val key ≡ some j
      → Shows J j (pod_tree p)
      → IsPod SIZE p
      → IsPod SIZE old
      → pod_from_json_at J SIZE val key old ≡ (ok tt, p)
  unfolding pod_from_json_at member_or_throw has_member get_json_value
  pod_from_json_at-shown val j key p old o f s h ho =
      rw (o, f) (pod_from_json-shown J SIZE j p old s h ho)

  -- Pods are fields that can be loaded again.
  abbrev pub pods_laws : IsReloaded pods
  pods_laws = record {
    Keeps = IsPod SIZE;
    tree = pod_tree;
    tree-IsPlain = pod_tree-IsPlain SIZE;
    to_json-tree = Emits-pod W SIZE;
    from_json_at-tree = pod_from_json_at-shown;
    construct-tree = pod_construct-shown J SIZE;
  }

-- A pod is written as a document that is parsed, and loading it into any pod of the size makes that
-- equal to the first.
pub pod_json_round_trip :
    {J : Json} {W : Writer J} (documented : IsDocumented W) (SIZE : ℕ) (p old : Pod)
    → IsPod SIZE p
    → IsPod SIZE old
    → (j : J.Value) × ((json_dump W (pod_to_json W SIZE p) >>= json_parse W) ≡ ok j)
      × (pod_from_json J SIZE j old ≡ (ok tt, p))
pod_json_round_trip {J} {W} documented SIZE p old h ho =
    let (j, parsed, shown) =
      json_dump-play W documented (pod_to_json W SIZE p) (pod_tree p) (Emits-pod W SIZE p h)
        (pod_tree-IsPlain SIZE p h) in
    (j, parsed, pod_from_json-shown J SIZE j p old shown h ho)

-- The class of a vector's elements.
abbrev pub element :
    {J : Json} (W : Writer J) (S : Serializable)
    → (S.Object → Run W.State (Unit {0}))
    → (J.Value → List ℕ → Run S.Object (Unit {0}))
    → (J.Value → Result S.Object)
    → Class J W
element W S to_json from_json_at construct = record {
  Object = S.Object;
  to_json = to_json;
  from_json_at = from_json_at;
  construct = construct;
}

-- A vector of objects of a class that can be loaded again is written as a document that is parsed, and
-- loading it into any vector makes that equal to the first.
vector_json_round_trip :
    {J : Json} {W : Writer J} (documented : IsDocumented W) (S : Serializable)
    (to_json : S.Object → Run W.State (Unit {0}))
    (from_json_at : J.Value → List ℕ → Run S.Object (Unit {0}))
    (construct : J.Value → Result S.Object)
    (laws : IsReloaded (element W S to_json from_json_at construct)) (v old : SerializableVector S)
    → All laws.Keeps v.container
    → (j : J.Value) × ((json_dump W (vector_to_json W S to_json v) >>= json_parse W) ≡ ok j)
      × (vector_from_json J S construct j old ≡ (ok tt, v))
unfolding vector_to_json IsPlain Shows
vector_json_round_trip {J} {W} documented S to_json from_json_at construct laws v old h =
    let C = element W S to_json from_json_at construct in
    let emits =
      Emits-array W to_json laws.tree v.container (All-map _ _ laws.to_json-tree v.container h) in
    let (j, parsed, (array, shown)) =
      json_dump-play W documented (vector_to_json W S to_json v)
        (Tree.array (trees laws.tree v.container)) emits
        (ArePlain-trees laws.Keeps laws.tree laws.tree-IsPlain v.container h) in
    let all = shown-AreConstructed C laws (J.get_array j) v.container shown h in
    (j, parsed, vector_from_json_loads J S construct j v.container old array all)
