-- ===== src/Interface/Vectors.antt =====
-- `SerializableVector` implements the interface, if its elements can be read back.
use serialization_cpp.Common.{ℕ, List, All, All-map, refl, true, some, length, ◌++◌}
use serialization_cpp.Common.Result.{ok, Result}
use serialization_cpp.Common.Run.{Run}
use serialization_cpp.Json.{Json, has_member, get_json_value}
use serialization_cpp.Json.Load.{member_or_throw}
use serialization_cpp.Json.Write.{Writer, vector_to_json}
use serialization_cpp.Json.Structures.{vector_from_json, vector_from_json_at}
use serialization_cpp.Json.Documents.{element}
use serialization_cpp.Json.Struct.{IsReloaded}
use serialization_cpp.Json.Struct.Reload.{shown-AreConstructed}
use serialization_cpp.Json.Laws.{vector_from_json_loads}
use serialization_cpp.Json.Emits.{trees, Emits, Emits-array, ArePlain-trees}
use serialization_cpp.Json.Tree.{Tree, IsPlain, play, Shows}
use serialization_cpp.Interface.{Interface, IsTransported}
use serialization_cpp.Vector.{SerializableVector}
use serialization_cpp.Vector.Laws.{Fits, vector_code, vector_round_trip}
use serialization_cpp.Serializable.{Serializable, IsFixedSize}
use serialization_cpp.Serializer.Writes.{Writes, Writes-pod_vector}
use serialization_cpp.Deserializer.{Deserializer}
use serialization_cpp.Deserializer.Reads.{Ready, unread, moved}
use serialization_cpp.Deserializer.Vectors.{Reads-pod_vector}
use serialization_cpp.Stream.Bytes.{count_code_lem}
use serialization_cpp.Stream.RoundTrip.{vector-IsByte}
use serialization_cpp.Common.{length, All, All-map, ℕ, ◌≡◌, refl, true, false, some, List, ◌++◌}
use serialization_cpp.Common.{◌≡◌}
use serialization_cpp.Vector

module _ {J : Json} (W : Writer J) (S : Serializable) (to_json : S.Object → Run W.State (Unit {0}))
    (from_json_at : J.Value → List ℕ → Run S.Object (Unit {0}))
    (construct : J.Value → Result S.Object) where
  abbrev pub vector_interface : Interface J W
  vector_interface = record {
    Object = SerializableVector S;
    deserialize_reader = Vector.deserialize_reader S;
    deserialize = Vector.deserialize S;
    from_json = vector_from_json J S construct;
    from_json_at = vector_from_json_at J S construct;
    serialize_to = Vector.serialize_to S;
    serialize = Vector.serialize S;
    size = Vector.size S;
    to_json = vector_to_json W S to_json;
    to_string = Vector.to_string S;
  }

  module _ (laws : IsFixedSize S)
      (reloaded : IsReloaded (element W S to_json from_json_at construct)) where
    -- A vector that a writer can hold, of elements that JSON keeps too.
    pub record IsKept (v : SerializableVector S) : Type 0 where
      pub fits : Fits S laws v
      pub reloads : All reloaded.Keeps v.container

    abbrev pub vector_tree : SerializableVector S → Tree
    vector_tree v = Tree.array (trees reloaded.tree v.container)

    vector_written :
        (v : SerializableVector S)
        → IsKept v
        → Writes (Vector.serialize_to S v) (vector_code S laws v.container)
    unfolding Vector.serialize_to
    vector_written v k =
        Writes-pod_vector S v.container laws.encode (count_code_lem _ k.fits.counted)
          (All-map _ _ laws.serialize-encode v.container k.fits.kept)

    vector_read :
        (v old : SerializableVector S) (d : Deserializer) (rest : List ℕ)
        → IsKept v
        → Ready d
        → unread d ≡ vector_code S laws v.container ++ rest
        → Vector.deserialize_reader S (d, old)
          ≡ (ok tt, (moved (length (vector_code S laws v.container)) d, v))
    unfolding Vector.deserialize_reader
    vector_read v old d rest k ready left =
        let read =
          Reads-pod_vector S laws v.container k.fits.counted (count_code_lem _ k.fits.counted)
            k.fits.kept false d rest ready left in
        rw read refl

    vector_json :
        (v old : SerializableVector S) (j : J.Value)
        → IsKept v
        → Shows J j (vector_tree v)
        → vector_from_json J S construct j old ≡ (ok tt, v)
    unfolding Shows
    vector_json v old j k (array, shown) =
        vector_from_json_loads J S construct j v.container old array (
          shown-AreConstructed (element W S to_json from_json_at construct) reloaded (J.get_array j)
            v.container shown k.reloads)

    vector_json_at :
        (v old : SerializableVector S) (val j : J.Value) (key : List ℕ)
        → IsKept v
        → J.is_object val ≡ true
        → J.find_member val key ≡ some j
        → Shows J j (vector_tree v)
        → vector_from_json_at J S construct val key old ≡ (ok tt, v)
    unfolding vector_from_json_at member_or_throw has_member get_json_value
    vector_json_at v old val j key k o f shown = rw (o, f) (vector_json v old j k shown)

    vector-Emits :
        (v : SerializableVector S)
        → IsKept v
        → Emits W (vector_to_json W S to_json v) (play W (vector_tree v))
    unfolding vector_to_json
    vector-Emits v k =
        Emits-array W to_json reloaded.tree v.container
          (All-map _ _ reloaded.to_json-tree v.container k.reloads)

    vector-IsPlain : (v : SerializableVector S) → IsKept v → IsPlain (vector_tree v)
    unfolding IsPlain
    vector-IsPlain v k =
        ArePlain-trees reloaded.Keeps reloaded.tree reloaded.tree-IsPlain v.container k.reloads

    -- Vectors of elements of a fixed size that JSON gives back keep the contract.
    pub vectors-IsTransported :
        IsTransported vector_interface IsKept
          (λ v. Unit {0})
          (λ v. vector_code S laws v.container)
          vector_tree
    vectors-IsTransported = record {
      encode-IsByte = λ v k. vector-IsByte S laws v.container (k.fits.counted, k.fits.kept);
      tree-IsPlain = vector-IsPlain;
      serialize-encode = λ v k. (vector_round_trip S laws v v k.fits).0;
      serialize_to-encode = vector_written;
      to_string-encode = λ v k. (vector_round_trip S laws v v k.fits).2;
      to_json-tree = vector-Emits;
      deserialize-encode = λ v old k ho. (vector_round_trip S laws v old k.fits).1;
      deserialize_reader-encode =
          λ v old d rest k ho ready left. vector_read v old d rest k ready left;
      from_json-tree = λ v old j k ho shown. vector_json v old j k shown;
      from_json_at-tree =
          λ v old val j key k ho o f shown. vector_json_at v old val j key k o f shown;
    }
