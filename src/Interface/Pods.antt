-- ===== src/Interface/Pods.antt =====
-- `SerializablePod`, with any `load_hook`, implements the interface.
use serialization_cpp.Common.{ℕ, ◌≡◌, List, true, some, ◌∙◌}
use serialization_cpp.Common.Result.{ok, Result}
use serialization_cpp.Common.Run.{Run}
use serialization_cpp.Json.{Json, has_member, get_json_value}
use serialization_cpp.Json.Write.{Writer, pod_to_json}
use serialization_cpp.Json.Structures.{pod_from_json_hooked, pod_from_json_at_hooked}
use serialization_cpp.Json.Documents.{pod_tree, pod_tree-IsPlain}
use serialization_cpp.Interface.{Interface, IsTransported}
use serialization_cpp.Pod.{Pod}
use serialization_cpp.Pod.Order.{IsPod}
use serialization_cpp.Pod.Hooks.{
  deserialize_reader_accepted, IsAccepted, from_string_accepted, loaded_hooked,
}
use serialization_cpp.Json.Load.{string_or_throw, member_or_throw, string_constructor}
use serialization_cpp.Json.Struct.{Class, IsReloaded}
use serialization_cpp.Json.Tree.{Shows}
use serialization_cpp.Json.Emits.{Emits-pod}
use serialization_cpp.Pod.Laws.{
  default-IsPod, serialize_bytes, from_string-to_string, Writes-serialize_to,
}
use serialization_cpp.Pod

module _ {J : Json} (W : Writer J) (SIZE : ℕ) (hook : Run Pod (Unit {0})) where
  abbrev pub pod_interface : Interface J W
  pod_interface = record {
    Object = Pod;
    deserialize_reader = Pod.deserialize_reader_hooked SIZE hook;
    deserialize = Pod.deserialize_hooked SIZE hook;
    from_json = pod_from_json_hooked J SIZE hook;
    from_json_at = pod_from_json_at_hooked J SIZE hook;
    serialize_to = Pod.serialize_to SIZE;
    serialize = λ p. ok (Pod.serialize SIZE p);
    size = Pod.size SIZE;
    to_json = pod_to_json W SIZE;
    to_string = Pod.to_string SIZE;
  }

  pod_json :
      (p old : Pod) (j : J.Value)
      → IsAccepted SIZE hook p
      → IsPod SIZE old
      → Shows J j (pod_tree p)
      → pod_from_json_hooked J SIZE hook j old ≡ (ok tt, p)
  unfolding pod_from_json_hooked string_or_throw Shows
  pod_json p old j k ho (text, same) = rw (text, same, from_string_accepted SIZE hook p old k ho)

  pub pod_json_at :
      (p old : Pod) (val j : J.Value) (key : List ℕ)
      → IsAccepted SIZE hook p
      → IsPod SIZE old
      → J.is_object val ≡ true
      → J.find_member val key ≡ some j
      → Shows J j (pod_tree p)
      → pod_from_json_at_hooked J SIZE hook val key old ≡ (ok tt, p)
  unfolding pod_from_json_at_hooked pod_from_json_hooked member_or_throw has_member get_json_value
  pod_json_at p old val j key k ho o f shown = rw (o, f) (pod_json p old j k ho shown)

  -- A class with a hook, derived with `JSON_STRING_CONSTRUCTOR(…, fromJSON)`, as the class of a field or
  -- of a vector's elements.
  abbrev pub hooked_construct : J.Value → Result Pod
  hooked_construct = string_constructor J (Pod.default SIZE) (pod_from_json_hooked J SIZE hook)

  abbrev pub hooked_class : Class J W
  hooked_class = record {
    Object = Pod;
    to_json = pod_to_json W SIZE;
    from_json_at = pod_from_json_at_hooked J SIZE hook;
    construct = hooked_construct;
  }

  pub pod_constructed :
      (j : J.Value) (p : Pod)
      → Shows J j (pod_tree p)
      → IsAccepted SIZE hook p
      → hooked_construct j ≡ ok p
  unfolding string_constructor string_or_throw Shows
  pod_constructed j p (text, same) k =
      let loads = pod_json p (Pod.default SIZE) j k (default-IsPod SIZE) (text, same) in
      rw (text, loads)

  abbrev pub hooked_reloaded : IsReloaded hooked_class
  hooked_reloaded = record {
    Keeps = IsAccepted SIZE hook;
    tree = pod_tree;
    tree-IsPlain = λ p k. pod_tree-IsPlain SIZE p k.sized;
    to_json-tree = λ p k. Emits-pod W SIZE p k.sized;
    from_json_at-tree = λ val j key p old o f s k ko. pod_json_at p old val j key k ko.sized o f s;
    construct-tree = pod_constructed;
  }

  -- A class of pods keeps its contract for the values that its hook passes, whatever the hook does to
  -- others.
  pub pods-IsTransported :
      IsTransported pod_interface (IsAccepted SIZE hook) (IsPod SIZE) (λ p. p.bytes) pod_tree
  pods-IsTransported = record {
    encode-IsByte = λ v k. k.sized.all_bytes;
    tree-IsPlain = λ v k. pod_tree-IsPlain SIZE v k.sized;
    serialize-encode = λ v k. serialize_bytes SIZE v;
    serialize_to-encode = λ v k. Writes-serialize_to SIZE v k.sized;
    to_string-encode = λ v k. (from_string-to_string SIZE v v k.sized k.sized).0;
    to_json-tree = λ v k. Emits-pod W SIZE v k.sized;
    deserialize-encode =
        λ v old k ho. loaded_hooked SIZE hook old v.bytes ho k.sized.sized ∙ k.passes;
    deserialize_reader-encode = deserialize_reader_accepted SIZE hook;
    from_json-tree = pod_json;
    from_json_at-tree = pod_json_at;
  }
