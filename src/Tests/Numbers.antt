-- ===== src/Tests/Numbers.antt =====
-- Runs of the varint codec and of the packing of integers.
use serialization_cpp.Common.{
  length, length-append, ◌-◌, ◌^◌, ◌≡◌, true, false, [], ◌∷◌, ◌++◌, arith,
}
use serialization_cpp.Common.Result.{value_out_of_range, ok, err}
use serialization_cpp.Varint.{encode_varint, decode_varint}
use serialization_cpp.Varint.Encode.{encode_varint_cases}
use serialization_cpp.Varint.Decode.{decode_varint-decoded}
use serialization_cpp.Varint.RoundTrip.{decode_varint-encode_varint}
use serialization_cpp.Pack.{pack, unpack}
use serialization_cpp.Pack.Unpack.{unpack_cases, unpack_wraps}
use serialization_cpp.Pack.RoundTrip.{length-pack, unpack-pack}
use serialization_cpp.Pack.Native.{le_value, be_value, unsigned, uint16_t, uint32_t, pack_native}

encode_varint_test : encode_varint 8 300 ≡ ok (172 ∷ 2 ∷ [])
encode_varint_test = encode_varint_cases 8 300

encode_varint_cases_example : encode_varint 1 2097152 ≡ err value_out_of_range
encode_varint_cases_example = encode_varint_cases 1 2097152

decode_varint-decoded_example : decode_varint 1 (172 ∷ 2 ∷ []) 0 ≡ ok (44, 2)
decode_varint-decoded_example =
    decode_varint-decoded 1 (172 ∷ 2 ∷ []) 0 (omega arith) (omega arith, (omega arith, tt))

decode_varint-encode_varint_example : decode_varint 1 (7 ∷ 172 ∷ 2 ∷ 9 ∷ []) 1 ≡ ok (44, 2)
decode_varint-encode_varint_example =
    decode_varint-encode_varint 8 1 300 (7 ∷ []) (9 ∷ []) (omega arith) (omega arith) (omega arith)
      (omega arith, tt) (omega arith, tt) (encode_varint_cases 8 300)

unpack_cases_example : unpack uint16_t (1 ∷ 2 ∷ 3 ∷ []) 1 true ≡ ok 515
unpack_cases_example = unpack_cases uint16_t (1 ∷ 2 ∷ 3 ∷ []) 1 true (omega arith)

unpack_wraps_example : unpack uint16_t (1 ∷ []) (2 ^ 64 - 1) false ≡ ok 0
unpack_wraps_example =
    unpack_wraps uint16_t (1 ∷ []) (2 ^ 64 - 1) false (omega arith) (omega arith) (omega arith)

unpack-pack_example : unpack uint32_t (9 ∷ (pack uint32_t 70000 true ++ (8 ∷ []))) 1 true ≡ ok 70000
unpack-pack_example = unpack-pack uint32_t 70000 true (9 ∷ []) (8 ∷ []) (omega arith) (
    omega
      (arith, length-append (pack uint32_t 70000 true) (8 ∷ []), length-pack uint32_t 70000 true))

pack_native_example :
    (length (pack (unsigned 4 (omega arith)) 70000 false) ≡ 4)
    × (le_value (pack (unsigned 4 (omega arith)) 70000 false) ≡ 70000)
    × (length (pack (unsigned 4 (omega arith)) 70000 true) ≡ 4)
    × (be_value 0 (pack (unsigned 4 (omega arith)) 70000 true) ≡ 70000)
pack_native_example = pack_native 4 70000 (omega arith) (omega arith)
