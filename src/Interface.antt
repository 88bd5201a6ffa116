-- ===== src/Interface.antt =====
-- include/serializable.h: the whole abstract class `Serializable`, and what a class that extends it has to
-- do so that its objects can be sent by a writer, as a vector, as text and as JSON.
pub mod Pods
pub mod Vectors
pub mod Transport
pub mod Sent
pub mod Attempts
use serialization_cpp.Common.{List, ℕ, length, All, true, some, ◌++◌}
use serialization_cpp.Common.Bits.{IsByte}
use serialization_cpp.Common.Result.{Result, ok}
use serialization_cpp.Common.Run.{Run}
use serialization_cpp.Json.{Json}
use serialization_cpp.Json.Write.{Writer}
use serialization_cpp.Json.Tree.{Tree, IsPlain, play, Shows}
use serialization_cpp.Json.Emits.{Emits}
use serialization_cpp.Deserializer.{Deserializer}
use serialization_cpp.Deserializer.Reads.{Ready, unread, moved}
use serialization_cpp.Serializer.{Serializer}
use serialization_cpp.Serializer.Writes.{Writes}
use serialization_cpp.Hex.RoundTrip.{hex_text}
use serialization_cpp.Common.{length, All, ℕ, ◌≡◌, true, some, List, ◌++◌}
use serialization_cpp.Common.{◌≡◌}

-- The members that a class has to override, on objects of the class.
pub record Interface (J : Json) (W : Writer J) : Type 1 where
  pub Object : Type 0
  pub deserialize_reader : Run (Deserializer × Object) (Unit {0})
  pub deserialize : List ℕ → Run Object (Unit {0})
  pub from_json : J.Value → Run Object (Unit {0})
  pub from_json_at : J.Value → List ℕ → Run Object (Unit {0})
  pub serialize_to : Object → Run Serializer (Unit {0})
  pub serialize : Object → Result (List ℕ)
  pub size : Object → ℕ
  pub to_json : Object → Run W.State (Unit {0})
  pub to_string : Object → Result (List ℕ)

-- A value that the class keeps is written as the same bytes by each of the members that write bytes or
-- their text, and as one tree of JSON; each of the members that load takes it back, into any object that
-- it may be loaded into.
pub record IsTransported {J : Json} {W : Writer J} (I : Interface J W)
    (Keeps Takes : I.Object → Type 0) (encode : I.Object → List ℕ) (tree : I.Object → Tree)
    : Type 0 where
  pub encode-IsByte : (v : I.Object) → Keeps v → All IsByte (encode v)
  pub tree-IsPlain : (v : I.Object) → Keeps v → IsPlain (tree v)
  pub serialize-encode : (v : I.Object) → Keeps v → I.serialize v ≡ ok (encode v)
  pub serialize_to-encode : (v : I.Object) → Keeps v → Writes (I.serialize_to v) (encode v)
  pub to_string-encode : (v : I.Object) → Keeps v → I.to_string v ≡ ok (hex_text (encode v))
  pub to_json-tree : (v : I.Object) → Keeps v → Emits W (I.to_json v) (play W (tree v))
  pub deserialize-encode :
      (v old : I.Object) → Keeps v → Takes old → I.deserialize (encode v) old ≡ (ok tt, v)
  pub deserialize_reader-encode :
      (v old : I.Object) (d : Deserializer) (rest : List ℕ)
      → Keeps v
      → Takes old
      → Ready d
      → unread d ≡ encode v ++ rest
      → I.deserialize_reader (d, old) ≡ (ok tt, (moved (length (encode v)) d, v))
  pub from_json-tree :
      (v old : I.Object) (j : J.Value)
      → Keeps v
      → Takes old
      → Shows J j (tree v)
      → I.from_json j old ≡ (ok tt, v)
  pub from_json_at-tree :
      (v old : I.Object) (val j : J.Value) (key : List ℕ)
      → Keeps v
      → Takes old
      → J.is_object val ≡ true
      → J.find_member val key ≡ some j
      → Shows J j (tree v)
      → I.from_json_at val key old ≡ (ok tt, v)
