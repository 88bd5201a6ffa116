-- ===== src/Deserializer/Bounds.antt =====
-- Readers at and behind the end of their buffer.
use serialization_cpp.Common.{
  leb, if◌then◌else◌, lt→ltb, length, drop, length-drop, ℕ, ◌+◌, ◌-◌, ◌^◌, ◌<◌, ◌≡◌, ◌∙◌, Bool,
  true, false, arith,
}
use serialization_cpp.Common.Run.{Run}
use serialization_cpp.Common.Result.{Error, not_enough_data, Result, ok, err, undefined}
use serialization_cpp.Pack.{unpack, Layout}
use serialization_cpp.Pack.Native.{uint8_t, uint16_t, uint32_t, uint64_t}
use serialization_cpp.Pack.Unpack.{unpack_cases}
use serialization_cpp.Serializable.{Serializable}
use serialization_cpp.Deserializer.{
  advance, uint8, bytes, compact, hex, uint16, uint32, uint64, uint128, uint256, unread_bytes, pod,
  Deserializer,
}
use serialization_cpp.Deserializer.Reads.{unread, moved, advance-moved, Ready}

-- A read that finds too few bytes, and still moves the offset.
abbrev pub Fails {ℓ} : {A : Type ℓ} → Run Deserializer A → Error → ℕ → Deserializer → Type ℓ
Fails read e count d = read d ≡ (err e, moved count d)

unpack_short :
    (T : Layout) (be : Bool) (d : Deserializer)
    → d.offset + T.size < 2 ^ 64
    → length d.buffer < d.offset + T.size
    → unpack T d.buffer d.offset be ≡ err not_enough_data
unpack_short T be d small short = unpack_cases T d.buffer d.offset be small ∙ rw (lt→ltb _ _ short)

fails_at :
    (T : Layout) (be : Bool) (d : Deserializer)
    → length d.buffer < d.offset + T.size
    → d.offset + T.size < 2 ^ 64
    → ◌≡◌ {A = Result T.Value × Deserializer}
        (unpack T d.buffer d.offset be, advance false T.size d)
        (err not_enough_data, moved T.size d)
fails_at T be d short small =
    let e = unpack_short T be d small short in
    let m = advance-moved false T.size d small in λ i. (e i, m i)

-- On a reader with no byte left, whose buffer is more than 64 bytes short of what `size_t` can measure,
-- every integer read throws, and yet moves the offset behind the end of the buffer by the size of the
-- type; only a type of no bytes is excepted.
pub integers_at_end :
    (T : Layout) (be : Bool) (d : Deserializer)
    → d.offset ≡ length d.buffer
    → length d.buffer + 64 < 2 ^ 64
    → 0 < T.size
    → Fails (uint8 false) not_enough_data 1 d
      × Fails (uint16 false be) not_enough_data 2 d
      × Fails (uint32 false be) not_enough_data 4 d
      × Fails (uint64 false be) not_enough_data 8 d
      × Fails (uint128 T false be) not_enough_data T.size d
      × Fails (uint256 T false be) not_enough_data T.size d
unfolding uint128 uint256 uint64 uint32 uint16 uint8
integers_at_end T be d ends small some_size =
    let big = fails_at T be d (omega arith) (omega (arith, T.size_le)) in
    (
      fails_at uint8_t false d (omega arith) (omega arith),
      fails_at uint16_t be d (omega arith) (omega arith),
      fails_at uint32_t be d (omega arith) (omega arith),
      fails_at uint64_t be d (omega arith) (omega arith),
      big,
      big,
    )

-- Copies of bytes are not tested at all: where fewer bytes are left than asked for, `bytes`, `hex` and
-- `pod`, of a structure of as many bytes, read outside of the buffer.
pub copies_behind_end :
    (S : Serializable) (count : ℕ) (peek : Bool) (d : Deserializer)
    → length d.buffer < d.offset + count
    → S.size S.default ≡ count
    → ((bytes count peek d).0 ≡ undefined)
      × ((hex count peek d).0 ≡ undefined)
      × ((pod S peek d).0 ≡ undefined)
unfolding hex pod bytes
copies_behind_end S count peek d short e =
    let outside : leb (d.offset + count) (length d.buffer) ≡ false = ground arith in
    (rw outside, rw outside, rw (e, outside))

-- For an offset and a buffer within `size_t`, the size of the unread part is right where the offset is
-- in the buffer; behind its end it wraps around, and the test that it is at least 0 does not help.
unread_bytes_cases :
    (d : Deserializer)
    → d.offset < 2 ^ 64
    → length d.buffer < 2 ^ 64
    → unread_bytes d ≡ (
        if leb d.offset (length d.buffer)
        then length (unread d)
        else 2 ^ 64 - (d.offset - length d.buffer))
unfolding unread_bytes
unread_bytes_cases d ho hb = ground (arith, length-drop d.offset d.buffer)

-- `compact` succeeds on a reader whose offset is in the buffer, but keeps the offset: of the bytes that
-- were not read yet as many are then passed over as had been read.
pub compact_lem :
    (d : Deserializer)
    → Ready d
    → ((compact d).0 ≡ ok tt)
      × ((compact d).1.buffer ≡ unread d)
      × ((compact d).1.offset ≡ d.offset)
      × (unread (compact d).1 ≡ drop d.offset (unread d))
unfolding compact
compact_lem d h =
    let inside : leb d.offset (length d.buffer) ≡ true = ground (arith, h.inside) in
    (rw inside, rw inside, rw inside, rw inside)

-- So it loses data whenever some bytes have been read and some have not.
pub compact_loses :
    (d : Deserializer)
    → Ready d
    → 0 < d.offset
    → d.offset < length d.buffer
    → length (unread (compact d).1) < length (unread d)
compact_loses d h some_read some_left =
    let (_, _, _, e) = compact_lem d h in
    rw e (omega (arith, length-drop d.offset (unread d), length-drop d.offset d.buffer))
