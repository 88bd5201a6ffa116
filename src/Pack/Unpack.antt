-- ===== src/Pack/Unpack.antt =====
-- `unpack` on every input: within `size_t`, and where the sum of offset and size wraps around.
use serialization_cpp.Common.{
  length-replicate, ltb, if◌then◌else◌, le→ltb, Bool-cases, length, take, drop, replicate,
  take-append-drop, length-take, length-drop, ℕ, ◌+◌, ◌-◌, ◌^◌, ◌≤◌, ◌<◌, ◌≡◌, sym, ap, ◌∙◌, inl,
  inr, Bool, List, [], ◌++◌, arith,
}
use serialization_cpp.Common.Result.{not_enough_data, ok, err}
use serialization_cpp.Pack.{add_size, copy_loop, unpack, Layout}
use serialization_cpp.Pack.Memory.{ordered, copy_loop_lem}
use native.Mathlib.Nat.{mod-eq_of_lt}

-- The bytes of a value at an offset.
abbrev pub slice : List ℕ → ℕ → ℕ → List ℕ
slice packed offset count = take count (drop offset packed)

drop-slice :
    (packed : List ℕ) (offset count : ℕ)
    → drop offset packed ≡ slice packed offset count ++ drop count (drop offset packed)
drop-slice packed offset count = sym (take-append-drop count (drop offset packed))

pub length-slice :
    (packed : List ℕ) (offset count : ℕ)
    → offset + count ≤ length packed
    → length (slice packed offset count) ≡ count
length-slice packed offset count h =
    omega (arith, length-take count (drop offset packed), length-drop offset packed)

copy_loop-slice :
    (packed : List ℕ) (offset count : ℕ)
    → offset + count ≤ length packed
    → copy_loop count packed offset 0 (replicate count 0) ≡ ok (slice packed offset count)
copy_loop-slice packed offset count h =
    let l = length-slice packed offset count h in
    ap (λ n. copy_loop n packed offset 0 (replicate count 0)) (sym l)
    ∙ copy_loop_lem (slice packed offset count) packed offset (drop count (drop offset packed)) []
        (replicate count 0) (drop-slice packed offset count) (length-replicate count 0 ∙ sym l)

-- Where offset and size add up within `size_t`, `unpack` throws exactly if the buffer ends before them,
-- and otherwise reads the bytes at the offset, in the order asked for.
pub unpack_cases :
    (T : Layout) (packed : List ℕ) (offset : ℕ) (be : Bool)
    → offset + T.size < 2 ^ 64
    → unpack T packed offset be ≡ (
        if ltb (length packed) (offset + T.size)
        then err not_enough_data
        else ok (T.load (ordered be (slice packed offset T.size))))
unfolding unpack
unpack_cases T packed offset be h =
    let e : add_size offset T.size ≡ offset + T.size = mod-eq_of_lt h in
    let d : offset + T.size - offset ≡ T.size = omega arith in
    elim (Bool-cases (ltb (length packed) (offset + T.size))) [
      | inl cut ↦ rw (e, cut)
      | inr whole ↦ rw (e, whole, d, copy_loop-slice packed offset T.size (ground arith))
    ]

-- Where they add up beyond `size_t`, the bounds test looks at the wrapped sum: a buffer of that size
-- passes it, no byte is read and the answer is the value of zeros, with no exception.
pub unpack_wraps :
    (T : Layout) (packed : List ℕ) (offset : ℕ) (be : Bool)
    → offset < 2 ^ 64
    → 2 ^ 64 ≤ offset + T.size
    → offset + T.size - 2 ^ 64 ≤ length packed
    → unpack T packed offset be ≡ ok (T.load (ordered be (replicate T.size 0)))
unfolding unpack
unpack_wraps T packed offset be h w l =
    let e : add_size offset T.size ≡ offset + T.size - 2 ^ 64 = omega (arith, T.size_le) in
    let d : offset + T.size - 2 ^ 64 - offset ≡ 0 = omega (arith, T.size_le) in
    rw (e, le→ltb _ _ l, d)
