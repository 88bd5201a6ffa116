-- ===== src/Interface/Transport.antt =====
-- A value of any class that keeps the contract, sent and received.
use serialization_cpp.Common.{List, ℕ, [], length, ◌<◌, ◌^◌, sym, ◌∙◌, append-nil, refl, arith}
use serialization_cpp.Serializer
use serialization_cpp.Deserializer
use serialization_cpp.Common.Result.{ok, ◌>>=◌}
use serialization_cpp.Json.{Json}
use serialization_cpp.Json.Write.{Writer, json_dump, json_parse}
use serialization_cpp.Json.Tree.{Tree, IsDocumented}
use serialization_cpp.Json.Emits.{json_dump-play}
use serialization_cpp.Interface.{Interface, IsTransported}
use serialization_cpp.Deserializer.{Deserializer}
use serialization_cpp.Deserializer.Reads.{Ready, moved}
use serialization_cpp.Hex.RoundTrip.{to_hex-hex_text}
use serialization_cpp.Common.{length, ℕ, ◌^◌, ◌<◌, ◌≡◌, refl, sym, ◌∙◌, List, [], append-nil, arith}
use serialization_cpp.Common.{◌≡◌}

-- A value is written to an empty writer without an exception, and read back from a reader made of it and
-- loaded from the writer's vector; dumped as JSON and parsed, it is loaded again. `serialize` and `to_string` give the bytes of
-- that writer and their text. The objects that are loaded into are any that the class can load into.
-- The class keeps its contract and the value, and the bytes are fewer than 2 ^ 64.
pub transported :
    {J : Json} {W : Writer J} (documented : IsDocumented W) (I : Interface J W)
    {Keeps Takes : I.Object → Type 0} {encode : I.Object → List ℕ} {tree : I.Object → Tree}
    (laws : IsTransported I Keeps Takes encode tree) (v old : I.Object)
    → Keeps v
    → Takes old
    → length (encode v) < 2 ^ 64
    → ((I.serialize_to v Serializer.empty).0 ≡ ok tt)
      × (I.serialize v ≡ ok (Serializer.vector (I.serialize_to v Serializer.empty).1))
      × (I.to_string v ≡ Serializer.to_string (I.serialize_to v Serializer.empty).1)
      × (I.deserialize_reader (Deserializer.of_writer (I.serialize_to v Serializer.empty).1, old)
          ≡ (ok tt, (moved (length (encode v)) (Deserializer.of_vector (encode v)), v)))
      × (I.deserialize (Serializer.vector (I.serialize_to v Serializer.empty).1) old ≡ (ok tt, v))
      × ((j : J.Value) × ((json_dump W (I.to_json v) >>= json_parse W) ≡ ok j)
          × (I.from_json j old ≡ (ok tt, v)))
unfolding Serializer.vector Serializer.to_string Deserializer.of_writer Deserializer.of_vector
transported documented I {encode = encode} {tree} laws v old k t small =
    let written = laws.serialize_to-encode v k Serializer.empty in
    let all_bytes = laws.encode-IsByte v k in
    let start : Deserializer = record { buffer = encode v; offset = 0 } in
    let ready : Ready start = record {
      inside = omega arith;
      measured = small;
      all_bytes = all_bytes;
    } in
    let read =
      laws.deserialize_reader-encode v old start [] k t ready (sym (append-nil (encode v))) in
    let (j, parsed, shown) =
      json_dump-play _ documented (I.to_json v) (tree v) (laws.to_json-tree v k)
        (laws.tree-IsPlain v k) in
    (
      rw written refl,
      rw written (laws.serialize-encode v k),
      rw written (laws.to_string-encode v k ∙ sym (to_hex-hex_text (encode v) all_bytes)),
      rw written read,
      rw written (laws.deserialize-encode v old k t),
      (j, parsed, laws.from_json-tree v old j k t shown),
    )
