-- ===== src/Tests/Structures.antt =====
-- Runs of pods and of vectors of them.
use serialization_cpp.Pod
use serialization_cpp.Deserializer
use serialization_cpp.Vector
use serialization_cpp.Common.{ℕ, ◌≡◌, true, false, List, [], ◌∷◌, arith}
use serialization_cpp.Common.Result.{could_not_decode, ok, err, undefined}
use serialization_cpp.Deserializer.{Deserializer}
use serialization_cpp.Pod.{
  equals, differs, less, greater, less_equal, greater_equal, deserialize, serialize, from_string,
  destroy, serializable, Pod,
}
use serialization_cpp.Pod.Order.{comparisons}
use serialization_cpp.Vector.{SerializableVector}
use serialization_cpp.Vector.Equality.{equals_prefix}
use serialization_cpp.Vector.Laws.{pod_of_vector}
use serialization_cpp.Tests.{pair, other_pair, pair-IsPod, other_pair-IsPod}

comparisons_example :
    (Pod.equals 2 pair other_pair ≡ ok false)
    × (Pod.differs 2 pair other_pair ≡ ok true)
    × (Pod.less 2 pair other_pair ≡ false)
    × (Pod.greater 2 pair other_pair ≡ true)
    × (Pod.less_equal 2 pair other_pair ≡ ok false)
    × (Pod.greater_equal 2 pair other_pair ≡ ok true)
comparisons_example = comparisons 2 pair other_pair pair-IsPod other_pair-IsPod

abbrev pairs : SerializableVector (Pod.serializable 2)
pairs = record { container = pair ∷ other_pair ∷ [] }

abbrev code : List ℕ
code = 2 ∷ 1 ∷ 2 ∷ 171 ∷ 0 ∷ []

abbrev reader : Deserializer
reader = record { buffer = code; offset = 0 }

pod_of_vector_example :
    Deserializer.pod (Vector.serializable (Pod.serializable 2)) false reader
    ≡ (err could_not_decode, reader)
pod_of_vector_example = pod_of_vector (Pod.serializable 2) false reader (record {
  inside = omega arith;
  measured = omega arith;
  all_bytes = (omega arith, (omega arith, (omega arith, (omega arith, (omega arith, tt)))));
})

equals_prefix_example :
    (Vector.equals (Pod.serializable 2) (Pod.equals 2) pairs pairs ≡ ok true)
    × (Vector.equals
          (Pod.serializable 2)
          (Pod.equals 2)
          pairs
          (record { container = pair ∷ other_pair ∷ pair ∷ [] })
        ≡ ok true)
    × (Vector.differs
          (Pod.serializable 2)
          (Pod.equals 2)
          pairs
          (record { container = pair ∷ other_pair ∷ pair ∷ [] })
        ≡ ok false)
    × (Vector.equals
          (Pod.serializable 2)
          (Pod.equals 2)
          (record { container = pair ∷ other_pair ∷ pair ∷ [] })
          pairs
        ≡ undefined)
equals_prefix_example =
    let p = comparisons 2 pair pair pair-IsPod pair-IsPod in
    let q = comparisons 2 other_pair other_pair other_pair-IsPod other_pair-IsPod in
    equals_prefix (Pod.serializable 2) (Pod.equals 2) pairs pair [] (p.0, (q.0, tt))
