-- ===== src/Tests/Readers.antt =====
-- Runs of `deserializer_t`, and of writers and readers together.
use serialization_cpp.Pod
use serialization_cpp.Deserializer
use serialization_cpp.Serializer
use serialization_cpp.Common.{
  length, All, ◌<◌, ◌≡◌, refl, sym, true, false, List, [], ◌∷◌, arith, take, ◌≢◌,
}
use serialization_cpp.Common.Result.{not_enough_data, ok, undefined}
use serialization_cpp.Deserializer.{of_writer, compact, unread_bytes, Deserializer, of_vector}
use serialization_cpp.Deserializer.Reads.{unread, Ready}
use serialization_cpp.Deserializer.Bounds.{Fails, integers_at_end, copies_behind_end, compact_loses}
use serialization_cpp.Deserializer.Peek.{Peeks, peeks, rewound, peeks_vectors}
use serialization_cpp.Stream.{
  Item, boolean, uint16, uint64, uint128, varint, varint_vector, pod, pod_nested, Fits, read_all,
  write_all,
}
use serialization_cpp.Stream.RoundTrip.{stream, read_all-write_all}
use serialization_cpp.Pod.{serializable, Pod}
use serialization_cpp.Pod.Laws.{size_all, laws}
use serialization_cpp.Tests.{wide, wider, pair, other_pair, pair-IsPod, other_pair-IsPod}
use serialization_cpp.Stream.Truncated.{read_all-take}

abbrev half_read : Deserializer
half_read = record { buffer = 1 ∷ 2 ∷ 3 ∷ []; offset = 1 }

abbrev all_read : Deserializer
all_read = record { buffer = 1 ∷ 2 ∷ 3 ∷ []; offset = 3 }

half_read-Ready : Ready half_read
half_read-Ready = record {
  inside = omega arith;
  measured = omega arith;
  all_bytes = (omega arith, (omega arith, (omega arith, tt)));
}

abbrev items : List (Item wide wider (Pod.serializable 2))
items =
    boolean true
    ∷ uint16 515 true
    ∷ uint64 70000 false
    ∷ uint128 70000 true
    ∷ varint 8 300
    ∷ varint_vector 4 (1 ∷ 300 ∷ [])
    ∷ pod pair
    ∷ pod_nested ((pair ∷ other_pair ∷ []) ∷ [] ∷ [])
    ∷ []

items-Fits : All (Fits wide wider (Pod.serializable 2) (laws 2)) items
items-Fits = (
  tt,
  (
    omega arith,
    (
      omega arith,
      (
        omega arith,
        (
          (omega arith, omega arith),
          (
            (omega arith, omega arith, (omega arith, (omega arith, tt))),
            (
              pair-IsPod,
              (
                (
                  omega arith,
                  ((omega arith, (pair-IsPod, (other_pair-IsPod, tt))), ((omega arith, tt), tt)),
                ),
                tt,
              ),
            ),
          ),
        ),
      ),
    ),
  ),
)

abbrev few : List (Item wide wider (Pod.serializable 2))
few = boolean true ∷ varint 8 300 ∷ pod pair ∷ []

few-Fits : All (Fits wide wider (Pod.serializable 2) (laws 2)) few
few-Fits = (tt, ((omega arith, omega arith), (pair-IsPod, tt)))

read_all-write_all_example :
    read_all wide wider
      (Pod.serializable 2)
      few
      (of_writer (write_all wide wider (Pod.serializable 2) few Serializer.empty).1)
    ≡ (ok few, record { buffer = 1 ∷ 172 ∷ 2 ∷ 1 ∷ 2 ∷ []; offset = 5 })
read_all-write_all_example =
    read_all-write_all wide wider (Pod.serializable 2) (laws 2) few few-Fits (omega arith)

peeks_example :
    Peeks Deserializer.uint8 half_read
    × Peeks Deserializer.boolean half_read
    × Peeks (λ peek. Deserializer.uint16 peek true) half_read
    × Peeks (λ peek. Deserializer.uint32 peek true) half_read
    × Peeks (λ peek. Deserializer.uint64 peek true) half_read
    × Peeks (λ peek. Deserializer.uint128 wide peek true) half_read
    × Peeks (λ peek. Deserializer.uint256 wide peek true) half_read
    × Peeks (Deserializer.bytes 2) half_read
    × Peeks (Deserializer.hex 2) half_read
    × Peeks (Deserializer.varint 8) half_read
    × Peeks (Deserializer.pod (Pod.serializable 2)) half_read
peeks_example = peeks wide (Pod.serializable 2) true 2 8 half_read

peeks_vectors_example :
    (Deserializer.varint_vector 8 true half_read
      ≡ rewound half_read (Deserializer.varint_vector 8 false half_read))
    × (Deserializer.pod_vector (Pod.serializable 2) true half_read
        ≡ rewound half_read (Deserializer.pod_vector (Pod.serializable 2) false half_read))
    × (Deserializer.pod_nested (Pod.serializable 2) true half_read
        ≡ rewound half_read (Deserializer.pod_nested (Pod.serializable 2) false half_read))
peeks_vectors_example = peeks_vectors 8 (Pod.serializable 2) half_read

integers_at_end_example :
    Fails (Deserializer.uint8 false) not_enough_data 1 all_read
    × Fails (Deserializer.uint16 false true) not_enough_data 2 all_read
    × Fails (Deserializer.uint32 false true) not_enough_data 4 all_read
    × Fails (Deserializer.uint64 false true) not_enough_data 8 all_read
    × Fails (Deserializer.uint128 wide false true) not_enough_data 16 all_read
    × Fails (Deserializer.uint256 wide false true) not_enough_data 16 all_read
integers_at_end_example = integers_at_end wide true all_read refl (omega arith) (omega arith)

copies_behind_end_example :
    ((Deserializer.bytes 2 false all_read).0 ≡ undefined)
    × ((Deserializer.hex 2 false all_read).0 ≡ undefined)
    × ((Deserializer.pod (Pod.serializable 2) false all_read).0 ≡ undefined)
copies_behind_end_example =
    copies_behind_end (Pod.serializable 2) 2 false all_read (omega arith) (sym (size_all 2))

compact_loses_example : length (unread (compact half_read).1) < 2
compact_loses_example = compact_loses half_read half_read-Ready (omega arith) (omega arith)

read_all-take_example :
    (read_all wide wider
      (Pod.serializable 2)
      few
      (of_vector (take 3 (stream wide wider (Pod.serializable 2) (laws 2) few)))).0
    ≢ ok few
read_all-take_example =
    read_all-take wide wider (Pod.serializable 2) (laws 2) few few 3 few-Fits (omega arith)
      (omega arith)
