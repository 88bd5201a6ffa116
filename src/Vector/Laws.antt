-- ===== src/Vector/Laws.antt =====
-- Writing and reading vectors, and vectors as elements.
use serialization_cpp.Serializer
use serialization_cpp.Deserializer
use serialization_cpp.Common.{
  leb, if◌then◌else◌, length, All, All-map, ℕ, ◌+◌, ◌^◌, ◌<◌, ◌≡◌, refl, sym, ◌∙◌, Bool, true,
  false, List, [], ◌++◌, append-nil, arith,
}
use serialization_cpp.Common.Bits.{IsByte}
use serialization_cpp.Common.Result.{could_not_decode, ok, err}
use serialization_cpp.Hex.RoundTrip.{hex_text, to_hex-hex_text, from_hex-hex_text}
use serialization_cpp.Varint.{decode_varint}
use serialization_cpp.Serializable.{Serializable, IsFixedSize}
use serialization_cpp.Serializer.{Serializer}
use serialization_cpp.Serializer.Writes.{joined, Writes-pod_vector}
use serialization_cpp.Deserializer.{Deserializer}
use serialization_cpp.Deserializer.Reads.{moved, moved-zero, advance-moved, Ready}
use serialization_cpp.Deserializer.Vectors.{Reads-pod_vector}
use serialization_cpp.Stream.{varint_code}
use serialization_cpp.Stream.Bytes.{count_code_lem}
use serialization_cpp.Stream.RoundTrip.{vector-IsByte}
use serialization_cpp.Vector.{
  default, deserialize, serialize, size, to_string, from_string, serializable, SerializableVector,
}

-- The bytes of a vector: its size, and its elements.
abbrev pub vector_code : (S : Serializable) → IsFixedSize S → List S.Object → List ℕ
vector_code S laws values = varint_code 8 (length values) ++ joined laws.encode values

module _ (S : Serializable) (laws : IsFixedSize S) (v : SerializableVector S) where
  -- A vector that a writer can hold.
  pub record Fits : Type 0 where
    pub kept : All laws.Keeps v.container
    pub counted : length v.container < 2 ^ 64
    pub measured : length (vector_code S laws v.container) < 2 ^ 64

  module _ (fits : Fits) where
    code_bytes : All IsByte (vector_code S laws v.container)
    code_bytes = vector-IsByte S laws v.container (fits.counted, fits.kept)

    serialize-code : serialize S v ≡ ok (vector_code S laws v.container)
    unfolding serialize Serializer.vector
    serialize-code =
        let w =
          Writes-pod_vector S v.container laws.encode (count_code_lem _ fits.counted)
            (All-map _ _ laws.serialize-encode v.container fits.kept) in
        rw (w Serializer.empty)

    deserialize-code :
        (old : SerializableVector S)
        → deserialize S (vector_code S laws v.container) old ≡ (ok tt, v)
    unfolding deserialize Deserializer.of_vector
    deserialize-code old =
        let code = vector_code S laws v.container in
        let start : Deserializer = record { buffer = code; offset = 0 } in
        let ready : Ready start = record {
          inside = omega arith;
          measured = fits.measured;
          all_bytes = code_bytes;
        } in
        let r =
          Reads-pod_vector S laws v.container fits.counted (count_code_lem _ fits.counted) fits.kept
            false start [] ready (sym (append-nil code)) in
        rw r

-- A vector that a writer can hold, with elements that can be read back, is written as its size and its
-- elements; loading those bytes, or their hexadecimal text, makes any vector equal to it.
pub vector_round_trip :
    (S : Serializable) (laws : IsFixedSize S) (v old : SerializableVector S)
    → Fits S laws v
    → (serialize S v ≡ ok (vector_code S laws v.container))
      × (deserialize S (vector_code S laws v.container) old ≡ (ok tt, v))
      × (to_string S v ≡ ok (hex_text (vector_code S laws v.container)))
      × (from_string S (hex_text (vector_code S laws v.container)) old ≡ (ok tt, v))
unfolding to_string from_string Deserializer.of_hex
vector_round_trip S laws v old fits =
    let code = vector_code S laws v.container in
    let written = serialize-code S laws v fits in
    let all_bytes = code_bytes S laws v fits in
    let back = deserialize-code S laws v fits old in
    (
      written,
      back,
      rw written (to_hex-hex_text code all_bytes),
      rw (from_hex-hex_text code all_bytes) (unfold deserialize in back),
    )

no_bytes : (d : Deserializer) (peek : Bool) → Ready d → Deserializer.bytes 0 peek d ≡ (ok [], d)
unfolding Deserializer.bytes
no_bytes d peek h =
    let inside : leb (d.offset + 0) (length d.buffer) ≡ true = ground (arith, h.inside) in
    let m = advance-moved peek 0 d (omega (arith, h.inside, h.measured)) in
    let z = moved-zero d in rw inside (λ i. (ok [], (m ∙ same_if peek d z) i))
  where
    same_if : (p : Bool) (d' : Deserializer) → moved 0 d' ≡ d' → (if p then d' else moved 0 d') ≡ d'
    same_if true d' e = refl
    same_if false d' e = e

empty_vector :
    (S : Serializable) (v : SerializableVector S) → deserialize S [] v ≡ (err could_not_decode, v)
unfolding deserialize Deserializer.of_vector Deserializer.pod_vector Deserializer.varint
    decode_varint
empty_vector S v = refl

-- A vector as the element of another call does not work: a default vector has no element, so its `size`
-- asks for no byte, and reading one always throws, whatever stands in the buffer.
pub pod_of_vector :
    (S : Serializable) (peek : Bool) (d : Deserializer)
    → Ready d
    → Deserializer.pod (serializable S) peek d ≡ (err could_not_decode, d)
unfolding Deserializer.pod size
pod_of_vector S peek d h = rw (no_bytes d peek h, empty_vector S (default S))
