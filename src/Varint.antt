-- ===== src/Varint.antt =====
-- include/serialization_helper.h: `encode_varint` and `decode_varint`. A template's type is its size
-- in bytes, and an unsigned value of it is a number below `modulus size`.
pub mod Encode
pub mod Loop
pub mod Decode
pub mod RoundTrip
use serialization_cpp.Common.{
  ltb, ◌==◌, if◌then◌else◌, length, drop, ℕ, ◌+◌, ◌-◌, ◌*◌, ◌/◌, ◌%◌, ◌^◌, ◌≤◌, ◌<◌, bit_and,
  bit_or, true, false, List, [], ◌∷◌, ◌++◌, arith, dec_le,
}
use mathlib.Core.Logic.{dite}
use mathlib.Core.WellFounded.{Acc, WellFounded}
use serialization_cpp.Common.Order.{lt_wf}
use serialization_cpp.Common.Result.{
  ◌>>=◌, value_out_of_range, offset_exceeds_size, could_not_decode, Result, ok, err, undefined,
}

-- 2 ^ (8 * size), the number of values of an unsigned type.
abbrev pub modulus : ℕ → ℕ
modulus size = 256 ^ size

pub shift_shrinks : (val : ℕ) → 0x80 ≤ val → val / 128 < val
shift_shrinks val h = omega arith

-- `while (val >= 0x80)`. `static_cast<unsigned char>(val)` is `val % 256` and `val >>= 7` is
-- `val / 128`; `max_length - 1` is `size + 2 - 1`.
encode_loop : ℕ → List ℕ → (val : ℕ) → Acc ◌<◌ val → Result (List ℕ)
encode_loop size output val (Acc.intro _ smaller) =
    dite (dec_le 0x80 val)
      (λ more. elim (length output == size + 2 - 1) [
        | true ↦ err value_out_of_range
        | false ↦
            encode_loop size (output ++ (bit_or (bit_and (val % 256) 0x7f) 0x80 ∷ [])) (val / 128)
              (smaller (val / 128) (shift_shrinks val more))
      ])
      (λ _. ok (output ++ (val % 256 ∷ [])))

unfoldable pub encode_varint : ℕ → ℕ → Result (List ℕ)
unfolding encode_loop lt_wf dec_le
encode_varint size value = encode_loop size [] value (lt_wf.apply value)

-- The group of a byte at its place, in `uint64_t`. A shift by 64 or more is undefined.
pub shifted_group : ℕ → ℕ → Result ℕ
shifted_group b shift =
    if ltb shift 28
    then ok (bit_and b 0x7f * 2 ^ shift % 2 ^ 64)
    else if ltb shift 64
    then ok (bit_and b 0x7f * (1 * 2 ^ shift % 2 ^ 64) % 2 ^ 64)
    else undefined

-- The `do` loop. The list is `packed` from `counter` on; the result is `temp_result` and `counter`
-- behind the loop.
pub decode_loop : ℕ → List ℕ → ℕ → ℕ → ℕ → Result (ℕ × ℕ)
decode_loop size [] counter shift temp_result = err could_not_decode
decode_loop size (b ∷ rest) counter shift temp_result = do
  value ← shifted_group b shift
  let sum = (temp_result + value % modulus size) % modulus size
  let more = decode_loop size rest (counter + 1) (shift + 7) sum
  if ltb b 0x80 then ok (sum, counter + 1) else more

unfoldable pub decode_varint : ℕ → List ℕ → ℕ → Result (ℕ × ℕ)
unfolding decode_loop shifted_group
decode_varint size packed offset =
    if ltb (length packed) offset then err offset_exceeds_size else do
      (temp_result, counter) ← decode_loop size (drop offset packed) offset 0 0
      let result = temp_result % modulus size
      if result == temp_result then ok (result, counter - offset) else err value_out_of_range
