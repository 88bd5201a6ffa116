-- ===== src/Pack/Native.antt =====
-- The layout of the native unsigned types, and what the two byte orders mean as numbers.
use serialization_cpp.Common.{
  length, All, ℕ, zero, suc, ◌+◌, ◌*◌, ◌/◌, ◌%◌, ◌^◌, ◌≤◌, ◌<◌, ◌≡◌, refl, ap, ◌∙◌, true, false,
  List, [], ◌∷◌, ◌++◌, reverse, reverse-append, arith,
}
use serialization_cpp.Common.Bits.{IsByte}
use serialization_cpp.Pack.{pack, Layout}
use serialization_cpp.Pack.Memory.{pack-ordered}
use serialization_cpp.Pack.RoundTrip.{length-pack}
use native.Mathlib.Nat.{pow-suc}

abbrev pub le_bytes : ℕ → ℕ → List ℕ
le_bytes zero v = []
le_bytes (suc n) v = v % 256 ∷ le_bytes n (v / 256)

abbrev pub le_value : List ℕ → ℕ
le_value [] = 0
le_value (b ∷ bytes) = b + 256 * le_value bytes

-- The value of bytes whose first is the most significant.
abbrev pub be_value : ℕ → List ℕ → ℕ
be_value high [] = high
be_value high (b ∷ bytes) = be_value (high * 256 + b) bytes

pub length-le_bytes : (n v : ℕ) → length (le_bytes n v) ≡ n
length-le_bytes zero v = refl
length-le_bytes (suc n) v = ap suc (length-le_bytes n (v / 256))

pub le_bytes-IsByte : (n v : ℕ) → All IsByte (le_bytes n v)
le_bytes-IsByte zero v = tt
le_bytes-IsByte (suc n) v = (omega arith, le_bytes-IsByte n (v / 256))

pub le_value-le_bytes : (n v : ℕ) → v < 256 ^ n → le_value (le_bytes n v) ≡ v
le_value-le_bytes zero v h = omega arith
le_value-le_bytes (suc n) v h = omega (arith, le_value-le_bytes n (v / 256) (omega arith))

pub le_value-lt : (bytes : List ℕ) → All IsByte bytes → le_value bytes < 256 ^ length bytes
le_value-lt [] h = omega arith
le_value-lt (b ∷ bytes) (hb, hs) = simp pow-suc (omega (arith, le_value-lt bytes hs))

-- An unsigned type of `n` bytes.
abbrev pub unsigned : (n : ℕ) → n ≤ 64 → Layout
unsigned n h = record {
  Value = ℕ;
  Fits = λ v. v < 256 ^ n;
  size = n;
  store = le_bytes n;
  load = le_value;
  size_le = h;
  length-store = length-le_bytes n;
  store-IsByte = le_bytes-IsByte n;
  load-store = le_value-le_bytes n;
}

abbrev pub uint8_t : Layout
uint8_t = unsigned 1 (omega arith)

abbrev pub uint16_t : Layout
uint16_t = unsigned 2 (omega arith)

abbrev pub uint32_t : Layout
uint32_t = unsigned 4 (omega arith)

abbrev pub uint64_t : Layout
uint64_t = unsigned 8 (omega arith)

be_value-append :
    (xs ys : List ℕ) (high : ℕ) → be_value high (xs ++ ys) ≡ be_value (be_value high xs) ys
be_value-append [] ys high = refl
be_value-append (b ∷ xs) ys high = be_value-append xs ys (high * 256 + b)

be_value-reverse : (bytes : List ℕ) → be_value 0 (reverse bytes) ≡ le_value bytes
be_value-reverse [] = refl
be_value-reverse (b ∷ bytes) =
    ap (be_value 0) (reverse-append (b ∷ []) bytes)
    ∙ be_value-append (reverse bytes) (b ∷ []) 0
    ∙ omega (arith, be_value-reverse bytes)

-- A value of an unsigned native type of at most 64 bytes is packed to as many bytes as the type has.
-- Little-endian, they spell the value with the least significant byte first; big-endian, with the most
-- significant byte first.
pub pack_native :
    (n v : ℕ) (h : n ≤ 64)
    → v < 256 ^ n
    → (length (pack (unsigned n h) v false) ≡ n)
      × (le_value (pack (unsigned n h) v false) ≡ v)
      × (length (pack (unsigned n h) v true) ≡ n)
      × (be_value 0 (pack (unsigned n h) v true) ≡ v)
pack_native n v h fits =
    let T = unsigned n h in
    let e = le_value-le_bytes n v fits in
    (
      length-pack T v false,
      rw pack-ordered e,
      length-pack T v true,
      rw pack-ordered (be_value-reverse (le_bytes n v) ∙ e),
    )
