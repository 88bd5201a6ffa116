-- ===== src/Interface/Sent.antt =====
-- Vectors of byte structures, sent and received.
use serialization_cpp.Common.{List, ℕ, All, length, ◌<◌, ◌^◌, ◌≡◌}
use serialization_cpp.Common.Result.{ok, ◌>>=◌}
use serialization_cpp.Common.Run.{Run}
use serialization_cpp.Json.{Json}
use serialization_cpp.Json.Write.{Writer, json_dump, json_parse, pod_to_json, vector_to_json}
use serialization_cpp.Json.Structures.{pod_from_json_at_hooked, vector_from_json}
use serialization_cpp.Json.Tree.{IsDocumented}
use serialization_cpp.Interface.Pods.{hooked_construct, hooked_reloaded}
use serialization_cpp.Interface.Vectors.{vector_interface, vectors-IsTransported}
use serialization_cpp.Interface.Transport.{transported}
use serialization_cpp.Deserializer.Reads.{moved}
use serialization_cpp.Pod.{Pod}
use serialization_cpp.Pod.Hooks.{IsAccepted, hooked_laws}
use serialization_cpp.Vector.{SerializableVector}
use serialization_cpp.Vector.Laws.{vector_code}
use serialization_cpp.Pod
use serialization_cpp.Vector
use serialization_cpp.Serializer
use serialization_cpp.Deserializer

module _ {J : Json} {W : Writer J} (documented : IsDocumented W) (SIZE : ℕ)
    (hook : Run Pod (Unit {0})) (v old : SerializableVector (Pod.hooked SIZE hook)) where
  -- The writer that the vector was written to.
  abbrev pub written : Serializer.Serializer
  written = (Vector.serialize_to (Pod.hooked SIZE hook) v Serializer.empty).1

  -- The bytes of the vector.
  abbrev pub code : List ℕ
  code = vector_code (Pod.hooked SIZE hook) (hooked_laws SIZE hook) v.container

  -- A vector of byte structures of a class with any `load_hook` is sent whole, each way. It is written to
  -- an empty writer without an exception; `serialize` and `to_string` give the bytes of that writer and
  -- their text; read from a reader that is made of the writer, loaded from its bytes, or dumped as JSON,
  -- parsed and loaded, it takes the place of any vector, and the reader is at its end. The hook passes
  -- the elements as they are, and they and the bytes are fewer than 2 ^ 64.
  pub vector_sent :
      All (IsAccepted SIZE hook) v.container
      → length v.container < 2 ^ 64
      → length code < 2 ^ 64
      → ((Vector.serialize_to (Pod.hooked SIZE hook) v Serializer.empty).0 ≡ ok tt)
        × (Vector.serialize (Pod.hooked SIZE hook) v ≡ ok (Serializer.vector written))
        × (Vector.to_string (Pod.hooked SIZE hook) v ≡ Serializer.to_string written)
        × (Vector.deserialize_reader (Pod.hooked SIZE hook) (Deserializer.of_writer written, old)
            ≡ (ok tt, (moved (length code) (Deserializer.of_vector code), v)))
        × (Vector.deserialize (Pod.hooked SIZE hook) (Serializer.vector written) old ≡ (ok tt, v))
        × ((j : J.Value) × ((json_dump W
                  (vector_to_json W (Pod.hooked SIZE hook) (pod_to_json W SIZE) v)
                >>= json_parse W)
              ≡ ok j)
            × (vector_from_json J (Pod.hooked SIZE hook) (hooked_construct W SIZE hook) j old
                ≡ (ok tt, v)))
  vector_sent passed counted measured =
      let S = Pod.hooked SIZE hook in
      let from_json_at = pod_from_json_at_hooked J SIZE hook in
      let construct = hooked_construct W SIZE hook in
      transported documented (vector_interface W S (pod_to_json W SIZE) from_json_at construct)
        (vectors-IsTransported W S (pod_to_json W SIZE) from_json_at construct
          (hooked_laws SIZE hook) (hooked_reloaded W SIZE hook))
        v old
        (record {
          fits = record { kept = passed; counted = counted; measured = measured };
          reloads = passed;
        })
        tt measured
