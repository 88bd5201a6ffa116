-- ===== src/Tests/Classes.antt =====
-- Classes with hooks and the interface.
use serialization_cpp.Common.{[], ◌∷◌, refl, arith, true, ◌≡◌}
use serialization_cpp.Common.Result.{ok, err, wrong_data_size, ◌>>=◌}
use serialization_cpp.Pod.{Pod, deserialize_hooked, from_string_hooked, deserialize_reader_hooked}
use serialization_cpp.Pod.Order.{IsPod}
use serialization_cpp.Pod.Hooks.{IsAccepted, loads_hooked, hooked_laws}
use serialization_cpp.Deserializer.{Deserializer, loaded}
use serialization_cpp.Deserializer.Reads.{Ready, moved}
use serialization_cpp.Hex.RoundTrip.{hex_text}
use serialization_cpp.Interface.{IsTransported}
use serialization_cpp.Interface.Pods.{
  pod_interface, pods-IsTransported, hooked_construct, hooked_reloaded,
}
use serialization_cpp.Interface.Vectors.{vector_interface, IsKept, vectors-IsTransported}
use serialization_cpp.Json.Documents.{pod_tree}
use serialization_cpp.Json.Structures.{pod_from_json_at_hooked, vector_from_json}
use serialization_cpp.Json.Write.{json_dump, json_parse, pod_to_json, vector_to_json}
use serialization_cpp.Json.Emits.{trees}
use serialization_cpp.Json.Tree.{Tree}
use serialization_cpp.Vector.Laws.{vector_code}
use serialization_cpp.Vector.{SerializableVector}
use serialization_cpp.Vector.Refused.{vector_refused}
use serialization_cpp.Tests.{refuse_zero, pair, other_pair, pair-IsPod, other_pair-IsPod}
use serialization_cpp.Tests.Trees.{tree_json, tree_writer}
use serialization_cpp.Tests.Documented.{tree_writer-IsDocumented}
use serialization_cpp.Interface.Sent.{vector_sent}
use serialization_cpp.Serializer.{Serializer}
use serialization_cpp.Vector
use serialization_cpp.Pod
use serialization_cpp.Serializer
use serialization_cpp.Deserializer

abbrev three_bytes : Deserializer
three_bytes = record { buffer = 0 ∷ 7 ∷ 9 ∷ []; offset = 0 }

three_bytes-Ready : Ready three_bytes
three_bytes-Ready = record {
  inside = omega arith;
  measured = omega arith;
  all_bytes = (omega arith, (omega arith, (omega arith, tt)));
}

loads_hooked_example :
    (deserialize_hooked 2 refuse_zero (0 ∷ 7 ∷ []) pair
      ≡ (err wrong_data_size, record { bytes = 0 ∷ 7 ∷ [] }))
    × (from_string_hooked 2 refuse_zero (hex_text (0 ∷ 7 ∷ [])) pair
        ≡ (err wrong_data_size, record { bytes = 0 ∷ 7 ∷ [] }))
    × (deserialize_reader_hooked 2 refuse_zero (three_bytes, pair)
        ≡ (err wrong_data_size, (moved 2 three_bytes, record { bytes = 0 ∷ 7 ∷ [] })))
loads_hooked_example =
    loads_hooked 2 refuse_zero pair (0 ∷ 7 ∷ []) (9 ∷ []) three_bytes pair-IsPod
      (omega arith, (omega arith, tt)) refl three_bytes-Ready refl

pair-IsAccepted : IsAccepted 2 refuse_zero pair
pair-IsAccepted = record { sized = pair-IsPod; passes = refl }

pods-IsTransported_example :
    IsTransported
      (pod_interface tree_writer 2 refuse_zero)
      (IsAccepted 2 refuse_zero)
      (IsPod 2)
      (λ p. p.bytes)
      pod_tree
pods-IsTransported_example = pods-IsTransported tree_writer 2 refuse_zero

vectors-IsTransported_example :
    IsTransported
      (vector_interface tree_writer
        (Pod.hooked 2 refuse_zero)
        (pod_to_json tree_writer 2)
        (pod_from_json_at_hooked tree_json 2 refuse_zero)
        (hooked_construct tree_writer 2 refuse_zero))
      (IsKept tree_writer
        (Pod.hooked 2 refuse_zero)
        (pod_to_json tree_writer 2)
        (pod_from_json_at_hooked tree_json 2 refuse_zero)
        (hooked_construct tree_writer 2 refuse_zero)
        (hooked_laws 2 refuse_zero)
        (hooked_reloaded tree_writer 2 refuse_zero))
      (λ v. Unit {0})
      (λ v. vector_code (Pod.hooked 2 refuse_zero) (hooked_laws 2 refuse_zero) v.container)
      (λ v. Tree.array (trees pod_tree v.container))
vectors-IsTransported_example =
    vectors-IsTransported tree_writer (Pod.hooked 2 refuse_zero) (pod_to_json tree_writer 2)
      (pod_from_json_at_hooked tree_json 2 refuse_zero) (hooked_construct tree_writer 2 refuse_zero)
      (hooked_laws 2 refuse_zero) (hooked_reloaded tree_writer 2 refuse_zero)

-- A vector of three pods, of which the second is refused.
abbrev refused : Deserializer
refused = record { buffer = 3 ∷ 1 ∷ 2 ∷ 0 ∷ 7 ∷ 171 ∷ 0 ∷ []; offset = 0 }

refused-Ready : Ready refused
refused-Ready = record {
  inside = omega arith;
  measured = omega arith;
  all_bytes = (
    omega arith,
    (omega arith, (omega arith, (omega arith, (omega arith, (omega arith, (omega arith, tt)))))),
  );
}

abbrev old : SerializableVector (Pod.hooked 2 refuse_zero)
old = record { container = pair ∷ [] }

vector_refused_example :
    (Vector.deserialize_reader (Pod.hooked 2 refuse_zero) (refused, old)
      ≡ (err wrong_data_size, (moved 5 refused, old)))
    × (Vector.deserialize (Pod.hooked 2 refuse_zero) refused.buffer old
        ≡ (err wrong_data_size, old))
    × (Deserializer.pod_vector (Pod.hooked 2 refuse_zero) true refused
        ≡ (err wrong_data_size, moved 5 refused))
unfolding Pod.deserialize_hooked loaded Pod.size
vector_refused_example =
    vector_refused (Pod.hooked 2 refuse_zero) (hooked_laws 2 refuse_zero) (pair ∷ [])
      (other_pair ∷ []) (record { bytes = 0 ∷ 7 ∷ [] }) refused (171 ∷ 0 ∷ []) old (omega arith)
      (pair-IsAccepted, tt) refl refl refused-Ready refl

other_pair-IsAccepted : IsAccepted 2 refuse_zero other_pair
other_pair-IsAccepted = record { sized = other_pair-IsPod; passes = refl }

abbrev pairs : SerializableVector (Pod.hooked 2 refuse_zero)
pairs = record { container = pair ∷ other_pair ∷ [] }

-- What writing them leaves of an empty writer.
abbrev sent : Serializer
sent = (Vector.serialize_to (Pod.hooked 2 refuse_zero) pairs Serializer.empty).1

vector_sent_example :
    ((Vector.serialize_to (Pod.hooked 2 refuse_zero) pairs Serializer.empty).0 ≡ ok tt)
    × (Vector.serialize (Pod.hooked 2 refuse_zero) pairs ≡ ok (Serializer.vector sent))
    × (Vector.to_string (Pod.hooked 2 refuse_zero) pairs ≡ Serializer.to_string sent)
    × (Vector.deserialize_reader (Pod.hooked 2 refuse_zero) (Deserializer.of_writer sent, old)
        ≡ (ok tt, (moved 5 (Deserializer.of_vector (2 ∷ 1 ∷ 2 ∷ 171 ∷ 0 ∷ [])), pairs)))
    × (Vector.deserialize (Pod.hooked 2 refuse_zero) (Serializer.vector sent) old ≡ (ok tt, pairs))
    × ((j : Tree) × ((json_dump tree_writer (
              vector_to_json tree_writer
                (Pod.hooked 2 refuse_zero)
                (pod_to_json tree_writer 2)
                pairs)
            >>= json_parse tree_writer)
          ≡ ok j)
        × (vector_from_json tree_json
              (Pod.hooked 2 refuse_zero)
              (hooked_construct tree_writer 2 refuse_zero)
              j
              old
            ≡ (ok tt, pairs)))
vector_sent_example =
    vector_sent tree_writer-IsDocumented 2 refuse_zero pairs old
      (pair-IsAccepted, (other_pair-IsAccepted, tt)) (omega arith) (omega arith)
