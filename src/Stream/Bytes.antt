-- ===== src/Stream/Bytes.antt =====
-- Each call writes the bytes that stand for its item, and each read takes them.
use serialization_cpp.Deserializer
use serialization_cpp.Common.{
  if◌then◌else◌, lt→ltb, length, All, All-map, ℕ, ◌+◌, ◌/◌, ◌^◌, ◌≤◌, ◌<◌, ◌≡◌, sym, ap, ◌∙◌, false,
  List, [], ◌∷◌, ◌++◌, arith,
}
use serialization_cpp.Common.Bits.{IsByte}
use serialization_cpp.Common.Result.{ok}
use serialization_cpp.Hex.{from_hex}
use serialization_cpp.Hex.Digits.{IsHexDigit}
use serialization_cpp.Hex.RoundTrip.{hex_text, length-hex_text, hex_text_digits, from_hex-hex_text}
use serialization_cpp.Hex.Accepts.{hex_bytes, from_hex_inv}
use serialization_cpp.Varint.{modulus, encode_varint}
use serialization_cpp.Varint.Encode.{encode_varint_cases, modulus-le}
use serialization_cpp.Pack.{Layout}
use serialization_cpp.Serializable.{Serializable, IsFixedSize}
use serialization_cpp.Serializer.Writes.{
  Writes, Writes-boolean, Writes-uint8, Writes-uint16, Writes-uint32, Writes-uint64, Writes-uint128,
  Writes-uint256, Writes-bytes_vector, Writes-hex, Writes-varint, Writes-pod, Writes-varint_vector,
  Writes-pod_vector, Writes-pod_nested,
}
use serialization_cpp.Deserializer.{Deserializer}
use serialization_cpp.Deserializer.Reads.{moved, Reads, Reads-map}
use serialization_cpp.Deserializer.Methods.{
  Reads-uint8, Reads-uint16, Reads-uint32, Reads-uint64, Reads-uint128, Reads-uint256, Reads-bytes,
  Reads-varint, Reads-boolean, Reads-hex,
}
use serialization_cpp.Deserializer.Vectors.{
  Reads-varint_vector, Reads-pod, Reads-pod_vector, Reads-pod_nested,
}
use serialization_cpp.Stream.{
  boolean, uint8, uint16, uint32, uint64, uint128, uint256, bytes, hex, varint, varint_vector, pod,
  pod_vector, pod_nested, varint_code, write, read, Fits, encoding, Item,
}

pub varint_code_lem : (n v : ℕ) → n ≤ 8 → v < modulus n → encode_varint n v ≡ ok (varint_code n v)
varint_code_lem n v h f =
    let fits : v < 128 ^ (n + 2) = omega (arith, modulus-le n (omega arith)) in
    encode_varint_cases n v ∙ rw (lt→ltb _ _ fits)

-- Any size is a `size_t`.
pub count_code_lem : (n : ℕ) → n < 2 ^ 64 → encode_varint 8 n ≡ ok (varint_code 8 n)
count_code_lem n h = varint_code_lem 8 n (omega arith) h

digit_IsByte : (c : ℕ) → IsHexDigit c → IsByte c
digit_IsByte c h = ground arith

pub hex_item :
    (text bs : List ℕ)
    → All IsByte bs
    → text ≡ hex_text bs
    → (from_hex text ≡ ok bs) × (bs ≡ hex_bytes text) × (length text / 2 ≡ length bs)
hex_item text bs h e =
    let good : from_hex text ≡ ok bs = ap from_hex e ∙ from_hex-hex_text bs h in
    let digits : All IsHexDigit text = rw e (hex_text_digits bs h) in
    (
      good,
      (from_hex_inv text (All-map IsHexDigit IsByte digit_IsByte text digits) good).2,
      omega (arith, ap length e, length-hex_text bs),
    )

Reads-hex_item :
    (text bs : List ℕ)
    → All IsByte bs
    → text ≡ hex_text bs
    → Reads (Deserializer.hex (length text / 2) false) (hex_bytes text) text
Reads-hex_item text bs hb e d rest r u =
    let (_, same, half) = hex_item text bs hb e in
    rw half (
      Reads-hex bs hb false d rest r (u ∙ ap (λ t. t ++ rest) (sym same)) ∙ λ i.
      (ok (sym e i), moved (length (same i)) d))

module _ (W128 W256 : Layout) (S : Serializable) (laws : IsFixedSize S) where
  pub write-encoding :
      (item : Item W128 W256 S)
      → Fits W128 W256 S laws item
      → Writes (write W128 W256 S item) (encoding W128 W256 S laws item)
  unfolding write
  write-encoding (boolean b) h = Writes-boolean b
  write-encoding (uint8 v) h = Writes-uint8 v
  write-encoding (uint16 v be) h = Writes-uint16 v be
  write-encoding (uint32 v be) h = Writes-uint32 v be
  write-encoding (uint64 v be) h = Writes-uint64 v be
  write-encoding (uint128 v be) h = Writes-uint128 W128 v be
  write-encoding (uint256 v be) h = Writes-uint256 W256 v be
  write-encoding (bytes bs) h = Writes-bytes_vector bs
  write-encoding (hex text) (bs, hb, e) =
      let (good, same, _) = hex_item text bs hb e in
      Writes-hex text (hex_bytes text) (rw same at good)
  write-encoding (varint n v) (hn, hv) = Writes-varint n v (varint_code_lem n v hn hv)
  write-encoding (varint_vector n vs) (hn, hl, hv) =
      Writes-varint_vector n vs (varint_code n) (count_code_lem _ hl)
        (All-map _ _ (λ v f. varint_code_lem n v hn f) vs hv)
  write-encoding (pod v) h = Writes-pod S v (laws.encode v) (laws.serialize-encode v h)
  write-encoding (pod_vector vs) (hl, hv) =
      Writes-pod_vector S vs laws.encode (count_code_lem _ hl)
        (All-map _ _ laws.serialize-encode vs hv)
  write-encoding (pod_nested vss) (hl, hv) =
      Writes-pod_nested S vss laws.encode (varint_code 8) count_code_lem hl
        (All-map _ _ (λ vs (l, k). (l, All-map _ _ laws.serialize-encode vs k)) vss hv)

  pub read-encoding :
      (item : Item W128 W256 S)
      → Fits W128 W256 S laws item
      → Reads (read W128 W256 S item) (encoding W128 W256 S laws item) item
  unfolding read
  read-encoding (boolean b) h =
      Reads-map _ boolean ((if b then 1 else 0) ∷ []) b (Reads-boolean b false)
  read-encoding (uint8 v) h = Reads-map _ uint8 (v ∷ []) v (Reads-uint8 v h false)
  read-encoding (uint16 v be) h = Reads-map _ (λ x. uint16 x be) _ v (Reads-uint16 v be h false)
  read-encoding (uint32 v be) h = Reads-map _ (λ x. uint32 x be) _ v (Reads-uint32 v be h false)
  read-encoding (uint64 v be) h = Reads-map _ (λ x. uint64 x be) _ v (Reads-uint64 v be h false)
  read-encoding (uint128 v be) h =
      Reads-map _ (λ x. uint128 x be) _ v (Reads-uint128 W128 v be h false)
  read-encoding (uint256 v be) h =
      Reads-map _ (λ x. uint256 x be) _ v (Reads-uint256 W256 v be h false)
  read-encoding (bytes bs) h = Reads-map _ bytes bs bs (Reads-bytes bs false)
  read-encoding (hex text) (bs, hb, e) =
      Reads-map _ hex (hex_bytes text) text (Reads-hex_item text bs hb e)
  read-encoding (varint n v) (hn, hv) =
      Reads-map _ (varint n) _ v (Reads-varint n v hn hv (varint_code_lem n v hn hv) false)
  read-encoding (varint_vector n vs) (hn, hl, hv) = Reads-map _ (varint_vector n) _ vs (
      Reads-varint_vector n vs (varint_code n) hn hl (count_code_lem _ hl)
        (All-map _ _ (λ v f. (f, varint_code_lem n v hn f)) vs hv) false)
  read-encoding (pod v) h = Reads-map _ pod _ v (Reads-pod S laws v h false)
  read-encoding (pod_vector vs) (hl, hv) =
      Reads-map _ pod_vector _ vs (Reads-pod_vector S laws vs hl (count_code_lem _ hl) hv false)
  read-encoding (pod_nested vss) (hl, hv) =
      Reads-map _ pod_nested _ vss
        (Reads-pod_nested S laws vss (varint_code 8) count_code_lem hl hv false)
