-- ===== src/Deserializer.antt =====
-- include/deserializer_t.h and src/deserializer_t.cpp: `deserializer_t`, which reads a vector of bytes
-- from an offset on. A read returns its outcome and the object as it then stands: a read that throws
-- may have moved the offset.
pub mod Reads
pub mod Methods
pub mod Vectors
pub mod Bounds
pub mod Peek
pub mod Queue
pub mod Refines
pub mod Refinement
pub mod Requests
pub mod Cursor
pub mod Tracked
pub mod Sizes
pub mod Grows
pub mod Types
pub mod Stops
pub mod Sound
pub mod Steady
use serialization_cpp.Common.{
  leb, ◌==◌, if◌then◌else◌, length, take, drop, ℕ, zero, suc, ◌+◌, ◌-◌, ◌%◌, ◌^◌, Bool, false, List,
  [], ◌∷◌,
}
use serialization_cpp.Common.Result.{Result, ok, err, undefined}
use serialization_cpp.Common.Run.{◌>>◌, Run, pure, ◌>>=◌}
use serialization_cpp.Hex.{to_hex, from_hex}
use serialization_cpp.Varint.{decode_varint}
use serialization_cpp.Pack.{add_size, unpack, Layout}
use serialization_cpp.Pack.Native.{uint8_t, uint16_t, uint32_t, uint64_t}
use serialization_cpp.Serializable.{Serializable}
use serialization_cpp.Serializer.{Serializer}

pub record Deserializer : Type 0 where
  pub buffer : List ℕ
  pub offset : ℕ

-- From a writer, from a list of bytes, from a vector, and from hexadecimal text.
unfoldable pub of_writer : Serializer → Deserializer
of_writer writer = record { buffer = writer.buffer; offset = 0 }

unfoldable pub of_vector : List ℕ → Deserializer
of_vector input = record { buffer = input; offset = 0 }

made : Result (List ℕ) → Result Deserializer
made (ok bytes') = ok (of_vector bytes')
made (err e) = err e
made undefined = undefined

unfoldable pub of_hex : List ℕ → Result Deserializer
unfolding made
of_hex input = made (from_hex input)

-- `data()`, as the bytes that the pointer points at: those that are read too.
unfoldable pub raw_data : Deserializer → List ℕ
raw_data d = d.buffer

-- `if (!peek) offset += count`.
abbrev pub advance : Bool → ℕ → Deserializer → Deserializer
advance peek count d = if peek then d else record d { offset = add_size d.offset count }

unfoldable pub uint8 : Bool → Run Deserializer ℕ
uint8 peek d = (unpack uint8_t d.buffer d.offset false, advance peek 1 d)

unfoldable pub boolean : Bool → Run Deserializer Bool
boolean peek = do value ← uint8 peek; pure (value == 1)

-- The copy from `start` to `start + count` is undefined where it leaves the vector: nothing tests that.
unfoldable pub bytes : ℕ → Bool → Run Deserializer (List ℕ)
bytes count peek d =
    let start = d.offset in
    (
      if leb (start + count) (length d.buffer)
          then ok (take count (drop start d.buffer))
          else undefined,
      advance peek count d,
    )

-- The buffer is cut down to what is unread; the offset stays.
unfoldable pub compact : Run Deserializer (Unit {0})
compact d =
    if leb d.offset (length d.buffer)
    then (ok tt, record d { buffer = drop d.offset d.buffer })
    else (undefined, d)

-- A call that leaves the object alone.
abbrev pub call {ℓ} : {A : Type ℓ} → Result A → Run Deserializer A
call r d = (r, d)

unfoldable pub hex : ℕ → Bool → Run Deserializer (List ℕ)
hex count peek = do temp ← bytes count peek; call (to_hex temp (length temp))

unfoldable pub reset : ℕ → Deserializer → Deserializer
reset position d = record d { offset = position }

unfoldable pub size : Deserializer → ℕ
size d = length d.buffer

unfoldable pub skip : ℕ → Deserializer → Deserializer
skip count d = record d { offset = add_size d.offset count }

unfoldable pub to_string : Deserializer → Result (List ℕ)
to_string d = to_hex d.buffer (length d.buffer)

unfoldable pub uint16 : Bool → Bool → Run Deserializer ℕ
uint16 peek big_endian d = (unpack uint16_t d.buffer d.offset big_endian, advance peek 2 d)

unfoldable pub uint32 : Bool → Bool → Run Deserializer ℕ
uint32 peek big_endian d = (unpack uint32_t d.buffer d.offset big_endian, advance peek 4 d)

unfoldable pub uint64 : Bool → Bool → Run Deserializer ℕ
uint64 peek big_endian d = (unpack uint64_t d.buffer d.offset big_endian, advance peek 8 d)

module _ (wide : Layout) where
  unfoldable pub uint128 : Bool → Bool → Run Deserializer wide.Value
  uint128 peek big_endian d = (unpack wide d.buffer d.offset big_endian, advance peek wide.size d)

  unfoldable pub uint256 : Bool → Bool → Run Deserializer wide.Value
  uint256 peek big_endian d = (unpack wide d.buffer d.offset big_endian, advance peek wide.size d)

-- `buffer.size() - offset` in `size_t`, and the test that it is at least 0.
unfoldable pub unread_bytes : Deserializer → ℕ
unread_bytes d =
    let unread = (length d.buffer + 2 ^ 64 - d.offset) % 2 ^ 64 in
    if leb 0 unread then unread else 0

unfoldable pub unread_data : Deserializer → Result (List ℕ)
unread_data d = if leb d.offset (length d.buffer) then ok (drop d.offset d.buffer) else undefined

-- The offset moves only behind a successful `decode_varint`.
varint_read : Bool → Result (ℕ × ℕ) → Run Deserializer ℕ
varint_read peek (ok (result, count)) d = (ok result, advance peek count d)
varint_read peek (err e) d = (err e, d)
varint_read peek undefined d = (undefined, d)

unfoldable pub varint : ℕ → Bool → Run Deserializer ℕ
unfolding varint_read
varint type_size peek d = varint_read peek (decode_varint type_size d.buffer d.offset) d

-- So many reads, one behind the other.
unfoldable pub repeat {ℓ} : {A : Type ℓ} → ℕ → Run Deserializer A → Run Deserializer (List A)
repeat zero read = pure []
repeat (suc count) read = do x ← read; xs ← repeat count read; pure (x ∷ xs)

-- `if (peek) reset(start)`.
pub restore : Bool → ℕ → Run Deserializer (Unit {0})
restore peek start d = (ok tt, if peek then reset start d else d)

unfoldable pub varint_vector : ℕ → Bool → Run Deserializer (List ℕ)
unfolding repeat restore reset
varint_vector type_size peek d =
    let start = d.offset in
    let run : Run Deserializer (List ℕ) = do
      count ← varint 8 false
      result ← repeat count (varint type_size false)
      restore peek start
      pure result
    in run d

-- The object behind `result.deserialize(data)`.
unfoldable pub loaded {ℓ} : {T : Type ℓ} → Result (Unit {0}) × T → Result T
loaded (ok _, object) = ok object
loaded (err e, object) = err e
loaded (undefined, object) = undefined

module _ (S : Serializable) where
  unfoldable pub pod : Bool → Run Deserializer S.Object
  unfolding loaded
  pod peek = do
    bytes' ← bytes (S.size S.default) peek
    call (loaded (S.deserialize bytes' S.default))

  unfoldable pub pod_vector : Bool → Run Deserializer (List S.Object)
  unfolding repeat restore reset
  pod_vector peek d =
      let start = d.offset in
      let run : Run Deserializer (List S.Object) = do
        count ← varint 8 false
        result ← repeat count (pod false)
        restore peek start
        pure result
      in run d

  unfoldable pub pod_nested : Bool → Run Deserializer (List (List S.Object))
  unfolding repeat restore reset
  pod_nested peek d =
      let start = d.offset in
      let level2 : Run Deserializer (List S.Object) = do
        count ← varint 8 false
        repeat count (pod false)
      in let run : Run Deserializer (List (List S.Object)) = do
        level1_count ← varint 8 false
        result ← repeat level1_count level2
        restore peek start
        pure result
        in run d
