-- ===== src/Deserializer/Methods.antt =====
-- Each method of `deserializer_t` takes the bytes that the method of `serializer_t` appends.
use serialization_cpp.Common.{
  ltb, leb, if◌then◌else◌, le→ltb, length, take, All, take-append-drop, length-take, take-append,
  All-drop, All-take, All-back, ℕ, ◌+◌, ◌%◌, ◌^◌, ◌≤◌, ◌<◌, ◌≡◌, sym, ap, ◌∙◌, Bool, true, false,
  List, [], ◌∷◌, ◌++◌, arith,
}
use serialization_cpp.Common.Bits.{IsByte}
use serialization_cpp.Common.Result.{ok}
use serialization_cpp.Common.Run.{Run}
use serialization_cpp.Hex.RoundTrip.{hex_text, to_hex-hex_text}
use serialization_cpp.Varint.{modulus, encode_varint, decode_varint}
use serialization_cpp.Varint.RoundTrip.{decode_varint-encode_varint}
use serialization_cpp.Pack.{pack, unpack, Layout}
use serialization_cpp.Pack.Native.{uint8_t, uint16_t, uint32_t, uint64_t}
use serialization_cpp.Pack.Memory.{pack-ordered}
use serialization_cpp.Pack.Unpack.{slice, unpack_cases}
use serialization_cpp.Pack.RoundTrip.{ordered-ordered, length-pack}
use serialization_cpp.Deserializer.{
  advance, uint8, boolean, bytes, hex, uint16, uint32, uint64, uint128, uint256, varint,
  Deserializer,
}
use serialization_cpp.Deserializer.Reads.{unread, ReadsOrPeeks, taken, advance-moved, Ready}
use native.Mathlib.Nat.{mod-eq_of_lt}

unpack_at :
    (T : Layout) (v : T.Value) (be : Bool) (d : Deserializer) (rest : List ℕ)
    → T.Fits v
    → Ready d
    → unread d ≡ pack T v be ++ rest
    → unpack T d.buffer d.offset be ≡ ok v
unpack_at T v be d rest fits h e =
    let n = length-pack T v be in
    let inside = taken d (pack T v be) rest e h.inside in
    let small : d.offset + T.size < 2 ^ 64 = omega (arith, h.measured) in
    let whole : ltb (length d.buffer) (d.offset + T.size) ≡ false = le→ltb _ _ (omega arith) in
    let same : slice d.buffer d.offset T.size ≡ pack T v be =
      ap (take T.size) e
      ∙ ap (λ k. take k (pack T v be ++ rest)) (sym n)
      ∙ take-append (pack T v be) rest in
    unpack_cases T d.buffer d.offset be small
    ∙ rw (whole, same, pack-ordered, ordered-ordered, T.load-store v fits)

-- What every fixed-size read does: unpack at the offset, and advance by the size.
fetch : (T : Layout) → Bool → Bool → Run Deserializer T.Value
fetch T be peek d = (unpack T d.buffer d.offset be, advance peek T.size d)

ReadsOrPeeks-fetch :
    (T : Layout) (v : T.Value) (be : Bool) → T.Fits v → ReadsOrPeeks (fetch T be) (pack T v be) v
unfolding fetch
ReadsOrPeeks-fetch T v be fits peek d rest h e =
    let n = length-pack T v be in
    let inside = taken d (pack T v be) rest e h.inside in
    let step = advance-moved peek T.size d (omega (arith, h.measured)) in
    rw (unpack_at T v be d rest fits h e, n) (λ i. (ok v, step i))

pub Reads-uint8 : (v : ℕ) → v < 256 → ReadsOrPeeks uint8 (v ∷ []) v
unfolding uint8 fetch pack
Reads-uint8 v h =
    let e : v % 256 ≡ v = omega arith in rw e at (ReadsOrPeeks-fetch uint8_t v false h)

pub Reads-uint16 :
    (v : ℕ) (be : Bool) → v < 2 ^ 16 → ReadsOrPeeks (λ peek. uint16 peek be) (pack uint16_t v be) v
unfolding uint16 fetch
Reads-uint16 v be h = ReadsOrPeeks-fetch uint16_t v be h

pub Reads-uint32 :
    (v : ℕ) (be : Bool) → v < 2 ^ 32 → ReadsOrPeeks (λ peek. uint32 peek be) (pack uint32_t v be) v
unfolding uint32 fetch
Reads-uint32 v be h = ReadsOrPeeks-fetch uint32_t v be h

pub Reads-uint64 :
    (v : ℕ) (be : Bool) → v < 2 ^ 64 → ReadsOrPeeks (λ peek. uint64 peek be) (pack uint64_t v be) v
unfolding uint64 fetch
Reads-uint64 v be h = ReadsOrPeeks-fetch uint64_t v be h

pub Reads-uint128 :
    (T : Layout) (v : T.Value) (be : Bool)
    → T.Fits v
    → ReadsOrPeeks (λ peek. uint128 T peek be) (pack T v be) v
unfolding uint128 fetch
Reads-uint128 T v be fits = ReadsOrPeeks-fetch T v be fits

pub Reads-uint256 :
    (T : Layout) (v : T.Value) (be : Bool)
    → T.Fits v
    → ReadsOrPeeks (λ peek. uint256 T peek be) (pack T v be) v
unfolding uint256 fetch
Reads-uint256 T v be fits = ReadsOrPeeks-fetch T v be fits

pub Reads-bytes :
    (bytes' : List ℕ) → ReadsOrPeeks (λ peek. bytes (length bytes') peek) bytes' bytes'
unfolding bytes
Reads-bytes bytes' peek d rest h e =
    let inside = taken d bytes' rest e h.inside in
    let fits : leb (d.offset + length bytes') (length d.buffer) ≡ true = ground arith in
    let step = advance-moved peek (length bytes') d (omega (arith, h.measured)) in
    let same : take (length bytes') (unread d) ≡ bytes' =
      ap (take (length bytes')) e ∙ take-append bytes' rest in
    rw (fits, same) (λ i. (ok bytes', step i))

decode_varint_at :
    (type_size value : ℕ) {output : List ℕ} (d : Deserializer) (rest : List ℕ)
    → type_size ≤ 8
    → value < modulus type_size
    → encode_varint type_size value ≡ ok output
    → Ready d
    → unread d ≡ output ++ rest
    → decode_varint type_size d.buffer d.offset ≡ ok (value, length output)
decode_varint_at type_size value {output} d rest hs hv w h e =
    let front = take d.offset d.buffer in
    let l : length front ≡ d.offset = omega (arith, length-take d.offset d.buffer, h.inside) in
    let b : front ++ (output ++ rest) ≡ d.buffer =
      ap (λ t. front ++ t) (sym e) ∙ take-append-drop d.offset d.buffer in
    let bf = All-take IsByte d.offset d.buffer h.all_bytes in
    let br =
      All-back IsByte output rest (rw e at (All-drop IsByte d.offset d.buffer h.all_bytes)) in
    let m : value % modulus type_size ≡ value = mod-eq_of_lt hv in
    rw (l, b, m) at
      (decode_varint-encode_varint type_size type_size value front rest hs hs hv bf br w)

pub Reads-varint :
    (type_size value : ℕ) {output : List ℕ}
    → type_size ≤ 8
    → value < modulus type_size
    → encode_varint type_size value ≡ ok output
    → ReadsOrPeeks (varint type_size) output value
unfolding varint
Reads-varint type_size value {output} hs hv w peek d rest h e =
    let inside = taken d output rest e h.inside in
    let step = advance-moved peek (length output) d (omega (arith, h.measured)) in
    rw (decode_varint_at type_size value d rest hs hv w h e) (λ i. (ok value, step i))

pub Reads-boolean : (value : Bool) → ReadsOrPeeks boolean ((if value then 1 else 0) ∷ []) value
unfolding boolean
Reads-boolean true peek d rest h e = rw (Reads-uint8 1 (omega arith) peek d rest h e)
Reads-boolean false peek d rest h e = rw (Reads-uint8 0 (omega arith) peek d rest h e)

pub Reads-hex :
    (bytes' : List ℕ)
    → All IsByte bytes'
    → ReadsOrPeeks (λ peek. hex (length bytes') peek) bytes' (hex_text bytes')
unfolding hex
Reads-hex bytes' b peek d rest h e =
    rw (Reads-bytes bytes' peek d rest h e, to_hex-hex_text bytes' b)
