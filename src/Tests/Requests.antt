-- ===== src/Tests/Requests.antt =====
-- Runs of a reader and of a writer by several calls.
use serialization_cpp.Deserializer.{Deserializer}
use serialization_cpp.Deserializer.Reads.{Ready}
use serialization_cpp.Deserializer.Refines.{Related}
use serialization_cpp.Deserializer.Requests.{
  Request, ask, ask_all, expect_all, ask_all-expect_all, expect,
}
use serialization_cpp.Deserializer.Cursor.{Tracks, call_all, follow_all}
use serialization_cpp.Deserializer.Tracked.{call_all-follow_all}
use serialization_cpp.Deserializer.Sizes.{pod_vector_bounded}
use serialization_cpp.Tests.{wide, wider}
use serialization_cpp.Common.{List, ◌∷◌, [], refl, arith, ◌<◌, true, false, length}
use serialization_cpp.Pod.{Pod}
use serialization_cpp.Varint.{decode_varint}
use serialization_cpp.Deserializer.Types.{AreTyped, ask_all-AreTyped}
use serialization_cpp.Common.Result.{ok}
use serialization_cpp.Deserializer.Cursor
use serialization_cpp.Deserializer.Requests
use serialization_cpp.Pod
use serialization_cpp.Deserializer

abbrev sized : Deserializer
sized = record { buffer = 2 ∷ 172 ∷ 2 ∷ 7 ∷ 9 ∷ []; offset = 0 }

sized-Ready : Ready sized
sized-Ready = record {
  inside = omega arith;
  measured = omega arith;
  all_bytes = (omega arith, (omega arith, (omega arith, (omega arith, (omega arith, tt)))));
}

abbrev requests : List Request
requests = Requests.varint_vector 8 true ∷ Requests.bytes 3 false ∷ Requests.pod false ∷ []

ask_all-expect_all_example :
    Related sized
      (ask_all wide wider (Pod.serializable 2) requests sized)
      (expect_all wide wider (Pod.serializable 2) requests (2 ∷ 172 ∷ 2 ∷ 7 ∷ 9 ∷ []))
ask_all-expect_all_example =
    ask_all-expect_all wide wider (Pod.serializable 2) requests sized (omega arith, (tt, (tt, tt)))
      sized-Ready (omega arith)

-- The first byte is peeked at and skipped, two are read, and the reader is put back by one byte, and
-- compacted there.
abbrev calls : List Cursor.Call
calls =
    Cursor.asks (Requests.bytes 1 true)
    ∷ Cursor.skips 1
    ∷ Cursor.asks (Requests.uint16 false true)
    ∷ Cursor.resets 2
    ∷ Cursor.compacts
    ∷ Cursor.asks (Requests.bytes 1 false)
    ∷ []

call_all-follow_all_example :
    Tracks
      (1 ∷ 2 ∷ 3 ∷ 4 ∷ 5 ∷ 6 ∷ [])
      (call_all wide wider
        (Pod.serializable 2)
        calls
        (Deserializer.of_vector (1 ∷ 2 ∷ 3 ∷ 4 ∷ 5 ∷ 6 ∷ [])))
      (ok (1 ∷ [], (tt, (515, (tt, (tt, (5 ∷ [], tt)))))), record { base = 2; offset = 3 })
unfolding follow_all expect
call_all-follow_all_example =
    call_all-follow_all wide wider (Pod.serializable 2) (1 ∷ 2 ∷ 3 ∷ 4 ∷ 5 ∷ 6 ∷ []) calls
      (omega arith, (omega arith, (omega arith, (omega arith, (omega arith, (omega arith, tt))))))
      (omega arith) (tt, (tt, (tt, (tt, (tt, (tt, tt)))))) refl

abbrev pods : List Pod
pods = record { bytes = 172 ∷ 2 ∷ [] } ∷ record { bytes = 7 ∷ 9 ∷ [] } ∷ []

pod_vector_bounded_example : length pods < 5
unfolding Pod.size Deserializer.pod_vector Deserializer.pod Pod.deserialize Deserializer.varint
    decode_varint Deserializer.bytes
pod_vector_bounded_example =
    pod_vector_bounded (Pod.serializable 2) false sized (omega arith) sized-Ready (omega arith) refl

ask_all-AreTyped_example :
    AreTyped wide wider
      (Pod.serializable 2)
      requests
      (300 ∷ 7 ∷ [], (2 ∷ 172 ∷ 2 ∷ [], (record { bytes = 7 ∷ 9 ∷ [] }, tt)))
unfolding ask_all ask Deserializer.varint_vector Deserializer.varint decode_varint
    Deserializer.bytes Deserializer.pod Pod.size Pod.deserialize
ask_all-AreTyped_example =
    ask_all-AreTyped wide wider (Pod.serializable 2) requests sized (omega arith, (tt, (tt, tt)))
      sized-Ready (omega arith) refl
