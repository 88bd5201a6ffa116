-- ===== src/Varint/Encode.antt =====
-- What `encode_varint` writes, and when it throws.
use serialization_cpp.Common.{
  lt→ltb, dec_le, Bool-cases, inl, inr, ltb→lt, All, ap, refl, ◌*◌, ◌∙◌, length-append,
  append_assoc, ◌^◌, ◌≤◌, ◌==◌, false, ◌-◌, ltb, if◌then◌else◌, length, ℕ, zero, suc, ◌+◌, ◌/◌, ◌%◌,
  ◌≤◌, ◌<◌, bit_and, bit_or, ◌≡◌, List, [], ◌∷◌, ◌++◌, arith,
}
use serialization_cpp.Common.Order.{lt_wf}
use serialization_cpp.Common.Bits.{IsByte, low_seven, set_top_bit}
use mathlib.Core.WellFounded.{Acc}
use mathlib.Core.Logic.{dif_pos}
use native.Mathlib.Nat.{one-le-pow, pow-suc, pow-le-pow_right, mul-le-mul_left}
use native.Mathlib.Bridge.{le_prop}
use native.Mathlib.Numerals.{towards_suc}
use serialization_cpp.Common.Result.{value_out_of_range, ok, err}
use serialization_cpp.Varint.{shift_shrinks, modulus, encode_varint, encode_loop}

-- The groups of seven bits of `v`, lowest first, each but the last with its top bit set; `n` bounds
-- the number of such groups.
abbrev pub varint_bytes : ℕ → ℕ → List ℕ
varint_bytes zero v = v ∷ []
varint_bytes (suc n) v = if ltb v 128 then v ∷ [] else (128 + v % 128) ∷ varint_bytes n (v / 128)

marked_group : (val : ℕ) → bit_or (bit_and (val % 256) 0x7f) 0x80 ≡ 128 + val % 128
marked_group val =
    rw (low_seven (val % 256) (omega arith), set_top_bit (val % 256 % 128) (omega arith))
      (omega arith)

encode_loop_stop :
    (size : ℕ) (output : List ℕ) (val : ℕ) (w : Acc ◌<◌ val)
    → val < 128
    → encode_loop size output val w ≡ ok (output ++ (val ∷ []))
unfolding encode_loop
encode_loop_stop size output val (Acc.intro _ smaller) h = ground arith

encode_loop_full :
    (size : ℕ) (output : List ℕ) (val : ℕ) (w : Acc ◌<◌ val)
    → 128 ≤ val
    → length output ≡ size + 1
    → encode_loop size output val w ≡ err value_out_of_range
unfolding encode_loop
encode_loop_full size output val (Acc.intro _ smaller) h e = ground arith

encode_loop_step :
    (size : ℕ) (output : List ℕ) (val : ℕ) (w : Acc ◌<◌ val)
    → 128 ≤ val
    → length output < size + 1
    → (w' : Acc ◌<◌ (val / 128)) × (encode_loop size output val w
        ≡ encode_loop size (output ++ ((128 + val % 128) ∷ [])) (val / 128) w')
unfolding encode_loop
encode_loop_step size output val (Acc.intro _ smaller) h l =
    let room : (length output == size + 2 - 1) ≡ false = ground arith in
    (
      smaller (val / 128) (shift_shrinks val h),
      dif_pos (dec_le 0x80 val) le_prop h _ _ ∙ rw (room, marked_group val),
    )

-- A value of at most `n + 1` groups, with room for them, is written; a longer one throws once the
-- room is used up.
encode_loop_ok :
    (size n : ℕ) (output : List ℕ) (val : ℕ) (w : Acc ◌<◌ val)
    → val < 128 ^ suc n
    → length output + n ≡ size + 1
    → encode_loop size output val w ≡ ok (output ++ varint_bytes n val)
encode_loop_ok size zero output val w h e = encode_loop_stop size output val w h
encode_loop_ok size (suc n) output val w h e = elim (Bool-cases (ltb val 128)) [
  | inl small ↦ rw small (encode_loop_stop size output val w (ltb→lt val 128 small))
  | inr large ↦
      let (w', step) = encode_loop_step size output val w (ground arith) (omega arith) in
      rw large (
        step
        ∙ encode_loop_ok size n (output ++ ((128 + val % 128) ∷ [])) (val / 128) w' (omega arith)
            (omega (arith, length-append output ((128 + val % 128) ∷ [])))
        ∙ ap ok (append_assoc output ((128 + val % 128) ∷ []) (varint_bytes n (val / 128))))
]

encode_loop_err :
    (size n : ℕ) (output : List ℕ) (val : ℕ) (w : Acc ◌<◌ val)
    → 128 ^ suc n ≤ val
    → length output + n ≡ size + 1
    → encode_loop size output val w ≡ err value_out_of_range
encode_loop_err size zero output val w h e = encode_loop_full size output val w h (omega arith)
encode_loop_err size (suc n) output val w h e =
    let (w', step) =
      encode_loop_step size output val w (omega (arith, one-le-pow n 128 (omega arith)))
        (omega arith) in
    step
    ∙ encode_loop_err size n (output ++ ((128 + val % 128) ∷ [])) (val / 128) w' (omega arith)
        (omega (arith, length-append output ((128 + val % 128) ∷ [])))

-- `encode_varint` of a type of `size` bytes writes a value of at most `size + 2` groups of seven bits,
-- and throws a range error on any larger one.
pub encode_varint_cases :
    (size value : ℕ)
    → encode_varint size value ≡ (
        if ltb value (128 ^ (size + 2))
        then ok (varint_bytes (size + 1) value)
        else err value_out_of_range)
unfolding encode_varint
encode_varint_cases size value =
    let e : size + 2 ≡ suc (size + 1) = omega arith in
    elim (Bool-cases (ltb value (128 ^ (size + 2)))) [
      | inl h ↦ rw h (
          encode_loop_ok size (size + 1) [] value (lt_wf.apply value)
            (rw e at (ltb→lt value (128 ^ (size + 2)) h)) (omega arith))
      | inr h ↦
          let large : 128 ^ (size + 2) ≤ value = ground arith in
          rw h (
            encode_loop_err size (size + 1) [] value (lt_wf.apply value) (rw e at large)
              (omega arith))
    ]

pub varint_bytes-IsByte : (n v : ℕ) → v < 128 ^ suc n → All IsByte (varint_bytes n v)
varint_bytes-IsByte zero v h = omega arith
varint_bytes-IsByte (suc n) v h = ground (arith, varint_bytes-IsByte n (v / 128) (omega arith))

pub length-varint_bytes :
    (n v : ℕ) → (1 ≤ length (varint_bytes n v)) × (length (varint_bytes n v) ≤ n + 1)
length-varint_bytes zero v = omega arith
length-varint_bytes (suc n) v = ground (arith, length-varint_bytes n (v / 128))

-- The room is enough for every type of at most 14 bytes, the native ones among them.
modulus_split : (size : ℕ) → modulus size ≡ 128 ^ size * 2 ^ size
modulus_split zero = refl
modulus_split (suc size) = simp pow-suc (omega (arith, modulus_split size))

pub modulus-le : (size : ℕ) → size ≤ 14 → modulus size ≤ 128 ^ (size + 2)
modulus-le size h =
    let wide : 2 ^ size ≤ 2 ^ 14 = pow-le-pow_right (omega arith) h in
    let product : 128 ^ size * 2 ^ size ≤ 128 ^ size * 2 ^ 14 = mul-le-mul_left (128 ^ size) wide in
    simp towards_suc (simp pow-suc (omega (arith, modulus_split size, product)))

-- `encode_varint` never throws on a value of an unsigned type of 1 to 8 bytes. It writes bytes, at
-- least one and at most `size + 2` of them.
pub encode_varint_total :
    (size value : ℕ)
    → size ≤ 8
    → value < modulus size
    → (output : List ℕ) × (encode_varint size value ≡ ok output)
      × All IsByte output
      × (1 ≤ length output)
      × (length output ≤ size + 2)
encode_varint_total size value h v =
    let fits : value < 128 ^ (size + 2) = omega (arith, modulus-le size (omega arith)) in
    let e : size + 2 ≡ suc (size + 1) = omega arith in
    let (lo, hi) = length-varint_bytes (size + 1) value in
    (
      varint_bytes (size + 1) value,
      encode_varint_cases size value ∙ rw (lt→ltb _ _ fits),
      varint_bytes-IsByte (size + 1) value (rw e at fits),
      lo,
      omega (arith, hi),
    )
