-- ===== src/TestProgram.antt =====
-- test/test.cpp: the program that is run as the library's test. It is a client of pods, writers, readers,
-- varints and JSON. What it prints is left out, but not the calls that make it.
pub mod Passes
use serialization_cpp.Common.{List, ℕ, Bool, false, if◌then◌else◌, ◌==◌, ◌-◌, ◌/◌}
use serialization_cpp.Common.Result.{Result, ok, ◌>>=◌}
use serialization_cpp.Varint.{modulus}
use serialization_cpp.Json.{Json}
use serialization_cpp.Json.Tree.{same_text}
use serialization_cpp.Json.Write.{Writer, json_dump, json_parse, pod_to_json}
use serialization_cpp.Json.Structures.{pod_from_json}
use serialization_cpp.Deserializer.{loaded}
use serialization_cpp.Pod.{Pod}
use serialization_cpp.Common.{◌==◌, if◌then◌else◌, ℕ, ◌-◌, ◌/◌, Bool, false, List}
use serialization_cpp.Common.{◌≡◌}
use serialization_cpp.Serializer
use serialization_cpp.Deserializer
use serialization_cpp.Pod

-- `true` when the checks so far pass, `false` for `exit(1)`; an exception ends the program too.
abbrev pub Checks : Type 0
Checks = Result Bool

abbrev pub and_then : Checks → Checks → Checks
and_then first rest = do passed ← first; if passed then rest else ok false

-- `test_varint<T>`, of a type of so many bytes.
unfoldable pub test_varint : ℕ → ℕ → Checks
test_varint type_size value = do
  let (done, writer) = Serializer.varint type_size value Serializer.empty
  _ ← done
  _ ← Serializer.to_string writer
  check ←
      (Deserializer.varint type_size false (Deserializer.of_vector (Serializer.vector writer))).0
  ok (check == value)

-- `test_varint_range<T>`.
unfoldable pub test_varint_range : ℕ → Checks
unfolding test_varint
test_varint_range type_size = and_then (test_varint type_size 0) (
    and_then (test_varint type_size ((modulus type_size - 1) / 2))
      (test_varint type_size (modulus type_size - 1)))

-- The text of a pod is compared with the input.
abbrev pub has_text : ℕ → List ℕ → Pod → Checks
has_text SIZE input value = do text ← Pod.to_string SIZE value; ok (same_text text input)

-- The second block of `main`: the pod is written by its own `serialize` and by `pod`, and read once.
unfoldable pub test_writer : ℕ → List ℕ → Pod → Checks
test_writer SIZE input value = do
  let (serialized, writer) = Pod.serialize_to SIZE value Serializer.empty
  _ ← serialized
  let (done, writer') = Serializer.pod (Pod.serializable SIZE) value writer
  _ ← done
  read ← (Deserializer.pod (Pod.serializable SIZE) false (Deserializer.of_writer writer')).0
  _ ← Pod.to_string SIZE read
  has_text SIZE input read

module _ {J : Json} (W : Writer J) where
  -- The third block.
  unfoldable pub test_json : ℕ → List ℕ → Pod → Checks
  test_json SIZE input value = do
    output ← json_dump W (pod_to_json W SIZE value)
    body ← json_parse W output
    value2 ← loaded (pod_from_json J SIZE body (Pod.default SIZE))
    has_text SIZE input value2

  -- `main`, of any input and any size of a pod.
  unfoldable pub checks : ℕ → List ℕ → Checks
  unfolding test_writer test_json test_varint_range
  checks SIZE input = do
    value ← Pod.construct SIZE input
    _ ← Pod.to_string SIZE value
    and_then (has_text SIZE input value) (
        and_then (test_writer SIZE input value) (
          and_then (test_json SIZE input value) (
            and_then (test_varint_range 1) (
              and_then (test_varint_range 2)
                (and_then (test_varint_range 4) (test_varint_range 8))))))
