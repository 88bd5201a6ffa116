-- ===== src/Tests/Logs.antt =====
-- A writer against its log.
use serialization_cpp.Common.{List, [], ◌∷◌, ◌≡◌, true}
use serialization_cpp.Common.Result.{err, value_out_of_range}
use serialization_cpp.Pod
use serialization_cpp.Serializer.Log.{log_each}
use serialization_cpp.Varint.{encode_varint}
use serialization_cpp.Pack.{pack}
use serialization_cpp.Stream.{varint_vector, uint8, uint16}
use serialization_cpp.Stream.Refines.{Call, writes, copies, call_all, call_all-log_all}
use serialization_cpp.Tests.{wide, wider}

-- The second number of the vector is too large for its type.
abbrev calls : List (Call wide wider (Pod.serializable 2))
calls =
    writes (uint16 515 true)
    ∷ copies (8 ∷ 7 ∷ 6 ∷ []) 2
    ∷ writes (varint_vector 1 (5 ∷ 2097152 ∷ 4 ∷ []))
    ∷ writes (uint8 1)
    ∷ []

call_all-log_all_example :
    call_all wide wider (Pod.serializable 2) calls (record { buffer = 9 ∷ [] })
    ≡ (err value_out_of_range, record { buffer = 9 ∷ 2 ∷ 3 ∷ 8 ∷ 7 ∷ 3 ∷ 5 ∷ [] })
unfolding log_each encode_varint pack
call_all-log_all_example =
    call_all-log_all wide wider (Pod.serializable 2) calls (record { buffer = 9 ∷ [] })
