-- ===== src/Pack.antt =====
-- include/serialization_helper.h: `pack` and `unpack`. A template's type is a `Layout`: how many bytes
-- a value takes in memory and what they are, which is all that `std::memcpy` uses. The native unsigned
-- types are laid out little-endian, as on the platforms that the library builds for.
pub mod Memory
pub mod Native
pub mod Unpack
pub mod RoundTrip
use serialization_cpp.Common.{
  ltb, if◌then◌else◌, length, get_elem?, set, take, replicate, All, ℕ, zero, suc, ◌+◌, ◌-◌, ◌%◌,
  ◌^◌, ◌≤◌, ◌≡◌, Bool, none, some, List, [], ◌∷◌, reverse, drop, ◌++◌,
}
use serialization_cpp.Common.Bits.{IsByte}
use serialization_cpp.Common.Result.{◌>>=◌, not_enough_data, Result, ok, err, undefined}

-- `sizeof`, the object representation, and the value that given bytes are read as. The buffer of `pack`
-- holds 64 bytes.
pub record Layout : Type 1 where
  pub Value : Type 0
  pub Fits : Value → Type 0
  pub size : ℕ
  pub store : Value → List ℕ
  pub load : List ℕ → Value
  pub size_le : size ≤ 64
  pub length-store : (v : Value) → length (store v) ≡ size
  pub store-IsByte : (v : Value) → All IsByte (store v)
  pub load-store : (v : Value) → Fits v → load (store v) ≡ v

-- A sum in `size_t`.
abbrev pub add_size : ℕ → ℕ → ℕ
add_size a b = (a + b) % 2 ^ 64

-- The loop of `unpack`, with its rounds counted: `i` runs up to `offset + size`, so there are as many
-- rounds as that is above `offset`, and none where the sum has wrapped around.
pub copy_loop : ℕ → List ℕ → ℕ → ℕ → List ℕ → Result (List ℕ)
copy_loop zero packed i j bytes = ok bytes
copy_loop (suc rounds) packed i j bytes = elim (get_elem? packed i) [
  | none ↦ undefined
  | some b ↦ copy_loop rounds packed (i + 1) (j + 1) (set bytes j b)
]

module _ (T : Layout) where
  -- The array of 64 bytes holds a value of any type, whose bytes are copied over its front.
  unfoldable pub pack : T.Value → Bool → List ℕ
  pack value big_endian =
      let bytes = T.store value ++ drop T.size (replicate 64 0) in
      let result = take T.size bytes in if big_endian then reverse result else result

  unfoldable pub unpack : List ℕ → ℕ → Bool → Result T.Value
  unfolding copy_loop
  unpack packed offset big_endian =
      let stop = add_size offset T.size in
      if ltb (length packed) stop then err not_enough_data else do
        bytes ← copy_loop (stop - offset) packed offset 0 (replicate T.size 0)
        ok (T.load (if big_endian then reverse bytes else bytes))
