-- ===== src/Varint/Decode.antt =====
-- `decode_varint` on any bytes, well formed or not.
use serialization_cpp.Common.{
  ltb, leb, ◌==◌, if◌then◌else◌, ltb→lt, lt→ltb, le→ltb, Bool-cases, ==_refl, length, drop, All,
  All-drop, ℕ, ◌+◌, ◌-◌, ◌*◌, ◌%◌, ◌^◌, ◌≤◌, ◌<◌, ◌≡◌, ◌∙◌, inl, inr, ◌&&◌, List, [], ◌∷◌, arith,
}
use serialization_cpp.Common.Bits.{IsByte}
use serialization_cpp.Common.Result.{
  ◌>>=◌, value_out_of_range, offset_exceeds_size, could_not_decode, Result, ok, err, undefined,
}
use serialization_cpp.Varint.{modulus, decode_loop, decode_varint}
use serialization_cpp.Varint.Loop.{
  marked_run, varint_value, decode_loop_ok, decode_loop_cut, decode_loop_wide,
}
use native.Mathlib.Nat.{mod-eq_of_lt, mod-mod, one-le-pow}

abbrev finish : ℕ → ℕ → ℕ × ℕ → Result (ℕ × ℕ)
finish size offset (temp_result, counter) =
    if temp_result % modulus size == temp_result
    then ok (temp_result % modulus size, counter - offset)
    else err value_out_of_range

-- The call in terms of its loop: what is left is the test that follows the loop.
decode_varint_inside :
    (size : ℕ) (packed : List ℕ) (offset : ℕ) {r : Result (ℕ × ℕ)}
    → offset ≤ length packed
    → decode_loop size (drop offset packed) offset 0 (0 % modulus size) ≡ r
    → decode_varint size packed offset ≡ (r >>= finish size offset)
unfolding decode_varint
decode_varint_inside size packed offset h e =
    let z : 0 % modulus size ≡ 0 = mod-eq_of_lt (one-le-pow size 256 (omega arith)) in
    rw (le→ltb _ _ h, ← rw z at e)

decode_varint_behind :
    (size : ℕ) (packed : List ℕ) (offset : ℕ)
    → length packed < offset
    → decode_varint size packed offset ≡ err offset_exceeds_size
unfolding decode_varint
decode_varint_behind size packed offset h = rw (lt→ltb _ _ h)

-- The test behind the loop never fails: `temp_result` is a value of the type already.
narrowed :
    (size x offset run : ℕ)
    → finish size offset ((0 + x * 2 ^ 0) % modulus size, offset + run + 1)
      ≡ ok (x % modulus size, run + 1)
narrowed size x offset run =
    let e : 0 + x * 2 ^ 0 ≡ x = omega arith in
    let d : offset + run + 1 - offset ≡ run + 1 = omega arith in rw (e, d, mod-mod, ==_refl)

-- What a call answers, by the run of marked bytes from `offset` on.
abbrev pub decoded : ℕ → List ℕ → ℕ → Result (ℕ × ℕ)
decoded size packed offset =
    let rest = drop offset packed in
    if ltb (length packed) offset
    then err offset_exceeds_size
    else if leb 10 (marked_run rest) && ltb 10 (length rest)
    then undefined
    else if marked_run rest == length rest
    then err could_not_decode
    else ok (varint_value rest % modulus size, marked_run rest + 1)

pub marked_run-le : (rest : List ℕ) → marked_run rest ≤ length rest
marked_run-le [] = omega arith
marked_run-le (b ∷ rest) = ground (arith, marked_run-le rest)

-- `decode_varint` of a type of at most 8 bytes, on bytes. An offset behind the end throws. A byte below
-- 128 after at most nine marked ones ends the number: the answer is the number that they spell, modulo
-- the type whether or not it fits, and the count of bytes read. Up to ten marked bytes that nothing
-- ends throw. An eleventh byte behind ten marked ones is shifted by 70, which is undefined.
pub decode_varint-decoded :
    (size : ℕ) (packed : List ℕ) (offset : ℕ)
    → size ≤ 8
    → All IsByte packed
    → decode_varint size packed offset ≡ decoded size packed offset
decode_varint-decoded size packed offset native bs =
    let rest = drop offset packed in
    let all_bytes = All-drop IsByte offset packed bs in
    elim (Bool-cases (ltb (length packed) offset)) [
      | inl behind ↦ rw behind (decode_varint_behind size packed offset (ltb→lt _ _ behind))
      | inr inside ↦
          let h : offset ≤ length packed = ground arith in
          elim (Bool-cases (leb 10 (marked_run rest) && ltb 10 (length rest))) [
            | inl wide ↦
                rw (inside, wide)
                  (decode_varint_inside size packed offset h (
                    decode_loop_wide size native rest offset 0 0 10 all_bytes (ground arith)
                      (ground arith) (omega arith)))
            | inr short ↦ elim (Bool-cases (marked_run rest == length rest)) [
              | inl cut ↦
                  rw (inside, short, cut)
                    (decode_varint_inside size packed offset h (
                      decode_loop_cut size native rest offset 0 0 all_bytes (ground arith)
                        (ground arith)))
              | inr whole ↦
                  rw (inside, short, whole)
                    (decode_varint_inside size packed offset h (
                        decode_loop_ok size native rest offset 0 0 all_bytes
                          (ground (arith, marked_run-le rest)) (ground (arith, marked_run-le rest)))
                      ∙ narrowed size (varint_value rest) offset (marked_run rest))
            ]
          ]
    ]
