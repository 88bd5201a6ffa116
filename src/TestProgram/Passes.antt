-- ===== src/TestProgram/Passes.antt =====
-- The test program passes.
use serialization_cpp.Common.{
  ℕ, [], true, refl, ◌≤◌, ◌<◌, ◌^◌, ◌*◌, ◌-◌, ◌/◌, length, sym, append-nil, ==_refl, arith, ◌≡◌,
  false, ◌+◌, ◌++◌, length-append, All-append, ◌∙◌,
}
use serialization_cpp.Common.Result.{ok, err, undefined, Result, ◌>>=◌}
use serialization_cpp.TestProgram.{
  test_varint, test_varint_range, has_text, test_writer, test_json, checks,
}
use serialization_cpp.Varint.{modulus}
use serialization_cpp.Stream.{varint_code}
use serialization_cpp.Stream.Bytes.{varint_code_lem}
use serialization_cpp.Stream.RoundTrip.{varint_code-IsByte}
use serialization_cpp.Serializer.Writes.{Writes-varint, Writes-pod}
use serialization_cpp.Deserializer.{Deserializer, loaded}
use serialization_cpp.Deserializer.Reads.{Ready}
use serialization_cpp.Deserializer.Methods.{Reads-varint}
use serialization_cpp.Hex.RoundTrip.{hex_text, to_hex-hex_text}
use serialization_cpp.Json.{Json}
use serialization_cpp.Json.Tree.{IsDocumented, same_text_refl}
use serialization_cpp.Json.Write.{Writer, json_dump, json_parse, pod_to_json}
use serialization_cpp.Json.Documents.{pod_json_round_trip}
use serialization_cpp.Pod.{Pod}
use serialization_cpp.Pod.Order.{IsPod}
use serialization_cpp.Pod.Laws.{
  from_string-to_string, default-IsPod, serialize_bytes, Writes-serialize_to, laws,
}
use native.Mathlib.Nat.{one-le-pow}
use serialization_cpp.Common.Bits.{IsByte}
use serialization_cpp.Varint.Encode.{length-varint_bytes}
use serialization_cpp.Serializer.{Serializer}
use serialization_cpp.Deserializer.Vectors.{Reads-pod}
use serialization_cpp.Json.Structures.{pod_from_json}
use serialization_cpp.Pod
use serialization_cpp.Serializer
use serialization_cpp.Deserializer

-- A value of a type of at most 8 bytes is read back.
test_varint_lem :
    (type_size value : ℕ)
    → type_size ≤ 8
    → value < modulus type_size
    → test_varint type_size value ≡ ok true
unfolding test_varint Serializer.vector Serializer.to_string Deserializer.of_vector
test_varint_lem type_size value native fits =
    let code = varint_code type_size value in
    let encoded = varint_code_lem type_size value native fits in
    let written = Writes-varint type_size value encoded Serializer.empty in
    let all_bytes = varint_code-IsByte type_size value native fits in
    let text = to_hex-hex_text code all_bytes in
    let start : Deserializer = record { buffer = code; offset = 0 } in
    let small : length code < 2 ^ 64 =
      omega (arith, (length-varint_bytes (type_size + 1) value).1) in
    let ready : Ready start = record {
      inside = omega arith;
      measured = small;
      all_bytes = all_bytes;
    } in
    let read =
      Reads-varint type_size value native fits encoded false start [] ready
        (sym (append-nil code)) in
    rw (written, text, read, ==_refl value) refl

test_varint_range_lem : (type_size : ℕ) → type_size ≤ 8 → test_varint_range type_size ≡ ok true
unfolding test_varint_range
test_varint_range_lem type_size native =
    let some_value : 0 < modulus type_size = one-le-pow type_size 256 (omega arith) in
    rw
      (
        test_varint_lem type_size 0 native some_value,
        test_varint_lem type_size ((modulus type_size - 1) / 2) native (omega (arith, some_value)),
        test_varint_lem type_size (modulus type_size - 1) native (omega (arith, some_value)),
      )
      refl

>>=-assoc {ℓ κ μ} :
    {A : Type ℓ} {B : Type κ} {C : Type μ} (m : Result A) (f : A → Result B) (g : B → Result C)
    → (m >>= λ a. f a >>= g) ≡ ((m >>= f) >>= g)
>>=-assoc (ok a) f g = refl
>>=-assoc (err e) f g = refl
>>=-assoc undefined f g = refl

module _ (SIZE : ℕ) (p : Pod) (is_pod : IsPod SIZE p) where
  to_string_lem : Pod.to_string SIZE p ≡ ok (hex_text p.bytes)
  to_string_lem = (from_string-to_string SIZE p p is_pod is_pod).0

  has_text_lem : has_text SIZE (hex_text p.bytes) p ≡ ok true
  has_text_lem = rw (to_string_lem, same_text_refl (hex_text p.bytes)) refl

  test_writer_lem : SIZE * 2 < 2 ^ 64 → test_writer SIZE (hex_text p.bytes) p ≡ ok true
  unfolding test_writer Deserializer.of_writer
  test_writer_lem small =
      let S = Pod.serializable SIZE in
      let first : Serializer = record { buffer = p.bytes } in
      let serialized = Writes-serialize_to SIZE p is_pod Serializer.empty in
      let done = Writes-pod S p p.bytes (serialize_bytes SIZE p) first in
      let start : Deserializer = record { buffer = p.bytes ++ p.bytes; offset = 0 } in
      let ready : Ready start = record {
        inside = omega arith;
        measured = omega (arith, length-append p.bytes p.bytes, is_pod.sized, small);
        all_bytes = All-append IsByte p.bytes p.bytes is_pod.all_bytes is_pod.all_bytes;
      } in
      let read = Reads-pod S (laws SIZE) p is_pod false start p.bytes ready refl in
      rw (serialized, done, read, to_string_lem, same_text_refl (hex_text p.bytes)) refl

  test_json_lem :
      {J : Json} {W : Writer J} → IsDocumented W → test_json W SIZE (hex_text p.bytes) p ≡ ok true
  unfolding test_json loaded
  test_json_lem {J} {W} documented =
      let (j, parsed, loads) =
        pod_json_round_trip documented SIZE p (Pod.default SIZE) is_pod (default-IsPod SIZE) in
      let after = λ (body : J.Value).
        loaded (pod_from_json J SIZE body (Pod.default SIZE))
        >>= has_text SIZE (hex_text p.bytes) in
      >>=-assoc (json_dump W (pod_to_json W SIZE p)) (json_parse W) after
      ∙ rw (parsed, loads) has_text_lem

  construct_lem : Pod.construct SIZE (hex_text p.bytes) ≡ ok p
  unfolding Pod.construct loaded
  construct_lem =
      rw ((from_string-to_string SIZE p (Pod.default SIZE) is_pod (default-IsPod SIZE)).1) refl

-- The test program passes, on the hexadecimal text of any pod of its size: no check fails, no call throws
-- or is undefined. The values of the varint checks are 0, half of the largest value and the largest value
-- of each type, and the pod has less than half as many bytes as `size_t` can measure.
pub checks_pass :
    {J : Json} {W : Writer J} (documented : IsDocumented W) (SIZE : ℕ) (p : Pod)
    → IsPod SIZE p
    → SIZE * 2 < 2 ^ 64
    → checks W SIZE (hex_text p.bytes) ≡ ok true
unfolding checks
checks_pass {W = W} documented SIZE p is_pod small =
    rw
      (
        construct_lem SIZE p is_pod,
        to_string_lem SIZE p is_pod,
        same_text_refl (hex_text p.bytes),
        test_writer_lem SIZE p is_pod small,
        test_json_lem SIZE p is_pod {W = W} documented,
        test_varint_range_lem 1 (omega arith),
        test_varint_range_lem 2 (omega arith),
        test_varint_range_lem 4 (omega arith),
        test_varint_range_lem 8 (omega arith),
      )
      refl
