-- ===== src/Varint/RoundTrip.antt =====
-- `decode_varint` reads back what `encode_varint` wrote.
use serialization_cpp.Common.{
  ◌∙◌, All-append, length-append, lt→ltb, length, All, drop-append, ℕ, zero, suc, ◌+◌, ◌/◌, ◌%◌,
  ◌^◌, ◌≤◌, ◌<◌, ◌≡◌, List, ◌++◌, arith,
}
use serialization_cpp.Common.Bits.{IsByte}
use serialization_cpp.Common.Result.{ok}
use serialization_cpp.Varint.{modulus, encode_varint, decode_varint}
use serialization_cpp.Varint.Encode.{
  varint_bytes-IsByte, encode_varint_cases, modulus-le, length-varint_bytes, varint_bytes,
}
use serialization_cpp.Varint.Loop.{marked_run, varint_value}
use serialization_cpp.Varint.Decode.{decode_varint-decoded, decoded}

-- What the decoder measures, on the encoder's groups.
varint_value-varint_bytes :
    (n v : ℕ) (rest : List ℕ) → v < 128 ^ suc n → varint_value (varint_bytes n v ++ rest) ≡ v
varint_value-varint_bytes zero v rest h = rw (lt→ltb v 128 h)
varint_value-varint_bytes (suc n) v rest h =
    ground (arith, varint_value-varint_bytes n (v / 128) rest (omega arith))

marked_run-varint_bytes :
    (n v : ℕ) (rest : List ℕ)
    → v < 128 ^ suc n
    → marked_run (varint_bytes n v ++ rest) + 1 ≡ length (varint_bytes n v)
marked_run-varint_bytes zero v rest h = rw (lt→ltb v 128 h) (omega arith)
marked_run-varint_bytes (suc n) v rest h =
    ground (arith, marked_run-varint_bytes n (v / 128) rest (omega arith))

decoded-varint_bytes :
    (size n v : ℕ) (front rest : List ℕ)
    → n ≤ 9
    → v < 128 ^ suc n
    → decoded size (front ++ (varint_bytes n v ++ rest)) (length front)
      ≡ ok (v % modulus size, length (varint_bytes n v))
decoded-varint_bytes size n v front rest hn h =
    let run = marked_run-varint_bytes n v rest h in
    let value = varint_value-varint_bytes n v rest h in
    let most = (length-varint_bytes n v).1 in
    let front_length = length-append front (varint_bytes n v ++ rest) in
    let rest_length = length-append (varint_bytes n v) rest in rw drop-append (ground arith)

encode_varint_inv :
    (wide value : ℕ) {output : List ℕ}
    → wide ≤ 8
    → value < modulus wide
    → encode_varint wide value ≡ ok output
    → (value < 128 ^ suc (wide + 1)) × (output ≡ varint_bytes (wide + 1) value)
encode_varint_inv wide value h v e =
    let fits : value < 128 ^ (wide + 2) = omega (arith, modulus-le wide (omega arith)) in
    let same : wide + 2 ≡ suc (wide + 1) = omega arith in
    let written : encode_varint wide value ≡ ok (varint_bytes (wide + 1) value) =
      encode_varint_cases wide value ∙ rw (lt→ltb _ _ fits) in
    (rw same at fits, cc)

-- Wherever the encoding of a value of a type of at most 8 bytes stands in some bytes, decoding it as
-- another such type gives the value modulo that type, and the number of bytes of the encoding: nothing
-- before or behind it matters. The value need not fit the type that it is decoded as: the range test
-- never fails.
pub decode_varint-encode_varint :
    (wide size value : ℕ) {output : List ℕ} (front rest : List ℕ)
    → wide ≤ 8
    → size ≤ 8
    → value < modulus wide
    → All IsByte front
    → All IsByte rest
    → encode_varint wide value ≡ ok output
    → decode_varint size (front ++ (output ++ rest)) (length front)
      ≡ ok (value % modulus size, length output)
decode_varint-encode_varint wide size value {output} front rest hw hs hv bf br e =
    let (fits, same) = encode_varint_inv wide value hw hv e in
    rw same (
      decode_varint-decoded size _ (length front) hs (
        All-append IsByte front _ bf
          (All-append IsByte _ rest (varint_bytes-IsByte (wide + 1) value fits) br))
      ∙ decoded-varint_bytes size (wide + 1) value front rest (omega arith) fits)
