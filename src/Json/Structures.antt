-- ===== src/Json/Structures.antt =====
-- The JSON members of include/serializable_pod.h and include/serializable_vector.h.
use serialization_cpp.Pod
use serialization_cpp.Vector
use serialization_cpp.Json.Load.{
  object_constructor, object_constructor_at, string_or_throw, member_or_throw, emplace_each,
}
use serialization_cpp.Common.{ℕ, List, []}
use serialization_cpp.Common.Result.{Result}
use serialization_cpp.Common.Run.{Run, stop}
use serialization_cpp.Json.{get_json_value, get_json_array, Json}
use serialization_cpp.Serializable.{Serializable}
use serialization_cpp.Vector.{SerializableVector}
use serialization_cpp.Pod.{Pod}

module _ (J : Json) where
  -- `fromJSON(j)` and `fromJSON(val, key)`, by the `from_string` that the class has.
  module _ (from_string : List ℕ → Run Pod (Unit {0})) where
    unfoldable pub pod_from_json_by : J.Value → Run Pod (Unit {0})
    pod_from_json_by j = stop (string_or_throw J j) (λ _. from_string (J.get_string j))

    unfoldable pub pod_from_json_at_by : J.Value → List ℕ → Run Pod (Unit {0})
    pod_from_json_at_by val key =
        stop (member_or_throw J val key) (λ _. stop (get_json_value J val key) pod_from_json_by)

  module _ (SIZE : ℕ) where
    -- The members of the template.
    unfoldable pub pod_from_json : J.Value → Run Pod (Unit {0})
    unfolding pod_from_json_by
    pod_from_json = pod_from_json_by (Pod.from_string SIZE)

    unfoldable pub pod_from_json_at : J.Value → List ℕ → Run Pod (Unit {0})
    unfolding pod_from_json pod_from_json_at_by
    pod_from_json_at = pod_from_json_at_by (Pod.from_string SIZE)

    -- The members of a class that overrides `load_hook`.
    unfoldable pub pod_from_json_hooked : Run Pod (Unit {0}) → J.Value → Run Pod (Unit {0})
    unfolding pod_from_json_by
    pod_from_json_hooked hook = pod_from_json_by (Pod.from_string_hooked SIZE hook)

    unfoldable pub pod_from_json_at_hooked :
        Run Pod (Unit {0}) → J.Value → List ℕ → Run Pod (Unit {0})
    unfolding pod_from_json_at_by
    pod_from_json_at_hooked hook = pod_from_json_at_by (Pod.from_string_hooked SIZE hook)

  module _ (S : Serializable) (construct : J.Value → Result S.Object) where
    -- `fromJSON(j)`: the container is cleared before the value is looked at.
    vector_fill : Result (Unit {0}) × List S.Object → Result (Unit {0}) × SerializableVector S
    vector_fill (r, values) = (r, record { container = values })

    unfoldable pub vector_from_json : J.Value → Run (SerializableVector S) (Unit {0})
    unfolding vector_fill
    vector_from_json j v = vector_fill (stop (get_json_array J j) (emplace_each J construct) [])

    unfoldable pub vector_from_json_at : J.Value → List ℕ → Run (SerializableVector S) (Unit {0})
    vector_from_json_at val key =
        stop (member_or_throw J val key) (λ _. stop (get_json_value J val key) vector_from_json)

    -- `JSON_OBJECT_CONSTRUCTOR(SerializableVector, fromJSON)`.
    unfoldable pub vector_construct : J.Value → Result (SerializableVector S)
    vector_construct = object_constructor J (Vector.default S) vector_from_json

    unfoldable pub vector_construct_at : J.Value → List ℕ → Result (SerializableVector S)
    vector_construct_at = object_constructor_at J (Vector.default S) vector_from_json
