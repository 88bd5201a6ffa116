-- ===== src/Tests/Documents.antt =====
-- Runs of the JSON helpers, on a small JSON library.

use serialization_cpp.Json.Structures.{
  vector_construct, vector_construct_at, pod_from_json, vector_from_json,
}
use serialization_cpp.Json.Laws.{vector_construct_throws, vector_from_json_stops}
use serialization_cpp.Json.Load.{string_or_throw}
use serialization_cpp.Deserializer.{loaded}
use serialization_cpp.Pod.Laws.{from_string_cases, from_string-to_string, default-IsPod}
use serialization_cpp.Common.{ℕ, ◌≡◌, refl, List, [], ◌∷◌}
use serialization_cpp.Common.Result.{
  invalid_value_size, Result, ok, err, wrong_json_type, expected_array,
}
use serialization_cpp.Json.{get_json_value, type_name}
use serialization_cpp.Pod.{serializable, Pod}
use serialization_cpp.Tests.{
  pair, other_pair, pair-IsPod, text, texts, member, rapid, rapid_laws, Value,
}
use serialization_cpp.Pod

abbrev key : List ℕ
key = b'k' ∷ []

abbrev first_text : List ℕ
first_text = b'0' ∷ b'1' ∷ b'0' ∷ b'2' ∷ []

-- A pod constructed of a value, as `Type(elem)`.
abbrev load_pod : Value → Result Pod
load_pod v = loaded (pod_from_json rapid 2 v (Pod.default 2))

first-load_pod : load_pod (text first_text) ≡ ok pair
unfolding pod_from_json string_or_throw loaded
first-load_pod =
    let first = from_string-to_string 2 pair (Pod.default 2) pair-IsPod (default-IsPod 2) in
    rw (first.1)

empty-load_pod : load_pod (text []) ≡ err invalid_value_size
unfolding pod_from_json string_or_throw loaded
empty-load_pod = rw (from_string_cases 2 (Pod.default 2) [] (default-IsPod 2) tt)

vector_from_json_stops_example :
    (vector_from_json rapid
        (Pod.serializable 2)
        load_pod
        (texts (first_text ∷ [] ∷ []))
        (record { container = other_pair ∷ other_pair ∷ [] })
      ≡ (err invalid_value_size, record { container = pair ∷ [] }))
    × (vector_from_json rapid
          (Pod.serializable 2)
          load_pod
          (text first_text)
          (record { container = other_pair ∷ other_pair ∷ [] })
        ≡ (
          err (expected_array (b'S' ∷ b't' ∷ b'r' ∷ b'i' ∷ b'n' ∷ b'g' ∷ [])),
          record { container = [] },
        ))
unfolding type_name
vector_from_json_stops_example =
    vector_from_json_stops rapid (Pod.serializable 2) load_pod (texts (first_text ∷ [] ∷ []))
      (text []) (text first_text) (text first_text ∷ []) [] (pair ∷ []) invalid_value_size
      (record { container = other_pair ∷ other_pair ∷ [] }) refl refl (first-load_pod, tt)
      empty-load_pod refl refl

vector_construct_throws_example :
    (name : List ℕ) × (type_name rapid (texts (first_text ∷ [])) ≡ ok name)
    × (vector_construct rapid (Pod.serializable 2) load_pod (texts (first_text ∷ []))
        ≡ err (wrong_json_type name))
    × (vector_construct_at rapid
          (Pod.serializable 2)
          load_pod
          (member key (texts (first_text ∷ [])))
          key
        ≡ err (wrong_json_type name))
unfolding get_json_value
vector_construct_throws_example =
    vector_construct_throws rapid rapid_laws (Pod.serializable 2) load_pod
      (member key (texts (first_text ∷ []))) (texts (first_text ∷ [])) key refl
