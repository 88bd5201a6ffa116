-- ===== src/Stream.antt =====
-- A writer's calls and the reads that answer them: `serializer_t` and `deserializer_t` put together. An
-- item is one call with what it is given; the wide integers and the structure are parameters.
pub mod Bytes
pub mod RoundTrip
pub mod Reach
pub mod Refines
pub mod Truncated
pub mod Stops
use serialization_cpp.Serializer
use serialization_cpp.Deserializer
use serialization_cpp.Common.{
  if◌then◌else◌, length, All, ℕ, ◌+◌, ◌/◌, ◌^◌, ◌≤◌, ◌<◌, ◌≡◌, Bool, false, List, [], ◌∷◌, ◌++◌,
}
use serialization_cpp.Common.Bits.{IsByte}
use serialization_cpp.Common.Run.{Run, pure, ◌>>=◌, ◌>>◌}
use serialization_cpp.Common.Result.{Result, ok}
use serialization_cpp.Hex.RoundTrip.{hex_text}
use serialization_cpp.Hex.Accepts.{hex_bytes, lower_case, all_digits}
use serialization_cpp.Varint.{modulus}
use serialization_cpp.Varint.Encode.{varint_bytes}
use serialization_cpp.Pack.{pack, Layout}
use serialization_cpp.Pack.Native.{uint16_t, uint32_t, uint64_t}
use serialization_cpp.Serializable.{Serializable, IsFixedSize}
use serialization_cpp.Serializer.{Serializer}
use serialization_cpp.Serializer.Writes.{joined}
use serialization_cpp.Deserializer.{Deserializer}

pub data Item (W128 W256 : Layout) (S : Serializable) : Type 0 where
  boolean : Bool → Item W128 W256 S
  uint8 : ℕ → Item W128 W256 S
  uint16 : ℕ → Bool → Item W128 W256 S
  uint32 : ℕ → Bool → Item W128 W256 S
  uint64 : ℕ → Bool → Item W128 W256 S
  uint128 : W128.Value → Bool → Item W128 W256 S
  uint256 : W256.Value → Bool → Item W128 W256 S
  bytes : List ℕ → Item W128 W256 S
  hex : List ℕ → Item W128 W256 S
  varint : ℕ → ℕ → Item W128 W256 S
  varint_vector : ℕ → List ℕ → Item W128 W256 S
  pod : S.Object → Item W128 W256 S
  pod_vector : List S.Object → Item W128 W256 S
  pod_nested : List (List S.Object) → Item W128 W256 S

-- The encoding of a value of a type of so many bytes as a varint.
abbrev pub varint_code : ℕ → ℕ → List ℕ
varint_code type_size v = varint_bytes (type_size + 1) v

module _ (W128 W256 : Layout) (S : Serializable) where
  -- The call, on a writer.
  unfoldable pub write : Item W128 W256 S → Run Serializer (Unit {0})
  write (boolean b) s = (ok tt, Serializer.boolean b s)
  write (uint8 v) s = (ok tt, Serializer.uint8 v s)
  write (uint16 v be) s = (ok tt, Serializer.uint16 v be s)
  write (uint32 v be) s = (ok tt, Serializer.uint32 v be s)
  write (uint64 v be) s = (ok tt, Serializer.uint64 v be s)
  write (uint128 v be) s = (ok tt, Serializer.uint128 W128 v be s)
  write (uint256 v be) s = (ok tt, Serializer.uint256 W256 v be s)
  write (bytes bs) s = (ok tt, Serializer.bytes_vector bs s)
  write (hex text) s = Serializer.hex text s
  write (varint n v) s = Serializer.varint n v s
  write (varint_vector n vs) s = Serializer.varint_vector n vs s
  write (pod v) s = Serializer.pod S v s
  write (pod_vector vs) s = Serializer.pod_vector S vs s
  write (pod_nested vss) s = Serializer.pod_nested S vss s

  -- The read of an item of the same kind, length and byte order; what it reads is put in the item's
  -- place.
  pub read : Item W128 W256 S → Run Deserializer (Item W128 W256 S)
  read (boolean _) = do b ← Deserializer.boolean false; pure (boolean b)
  read (uint8 _) = do v ← Deserializer.uint8 false; pure (uint8 v)
  read (uint16 _ be) = do v ← Deserializer.uint16 false be; pure (uint16 v be)
  read (uint32 _ be) = do v ← Deserializer.uint32 false be; pure (uint32 v be)
  read (uint64 _ be) = do v ← Deserializer.uint64 false be; pure (uint64 v be)
  read (uint128 _ be) = do v ← Deserializer.uint128 W128 false be; pure (uint128 v be)
  read (uint256 _ be) = do v ← Deserializer.uint256 W256 false be; pure (uint256 v be)
  read (bytes bs) = do v ← Deserializer.bytes (length bs) false; pure (bytes v)
  read (hex text) = do v ← Deserializer.hex (length text / 2) false; pure (hex v)
  read (varint n _) = do v ← Deserializer.varint n false; pure (varint n v)
  read (varint_vector n _) = do vs ← Deserializer.varint_vector n false; pure (varint_vector n vs)
  read (pod _) = do v ← Deserializer.pod S false; pure (pod v)
  read (pod_vector _) = do vs ← Deserializer.pod_vector S false; pure (pod_vector vs)
  read (pod_nested _) = do vss ← Deserializer.pod_nested S false; pure (pod_nested vss)

  -- One read for each item, in order.
  pub read_all : List (Item W128 W256 S) → Run Deserializer (List (Item W128 W256 S))
  read_all [] = pure []
  read_all (item ∷ items) = do x ← read item; xs ← read_all items; pure (x ∷ xs)

  pub write_all : List (Item W128 W256 S) → Run Serializer (Unit {0})
  write_all items = Serializer.each write items

module _ (W128 W256 : Layout) (S : Serializable) (laws : IsFixedSize S) where
  -- The values that the arguments' types hold; hexadecimal text is the lower-case print of some bytes.
  abbrev pub Fits : Item W128 W256 S → Type 0
  Fits (boolean b) = Unit {0}
  Fits (uint8 v) = v < 256
  Fits (uint16 v be) = v < 2 ^ 16
  Fits (uint32 v be) = v < 2 ^ 32
  Fits (uint64 v be) = v < 2 ^ 64
  Fits (uint128 v be) = W128.Fits v
  Fits (uint256 v be) = W256.Fits v
  Fits (bytes bs) = All IsByte bs
  Fits (hex text) = (bs : List ℕ) × All IsByte bs × (text ≡ hex_text bs)
  Fits (varint n v) = (n ≤ 8) × (v < modulus n)
  Fits (varint_vector n vs) = (n ≤ 8) × (length vs < 2 ^ 64) × All (λ v. v < modulus n) vs
  Fits (pod v) = laws.Keeps v
  Fits (pod_vector vs) = (length vs < 2 ^ 64) × All laws.Keeps vs
  Fits (pod_nested vss) =
      (length vss < 2 ^ 64) × All (λ vs. (length vs < 2 ^ 64) × All laws.Keeps vs) vss

  -- The bytes that stand for an item.
  abbrev pub encoding : Item W128 W256 S → List ℕ
  encoding (boolean b) = (if b then 1 else 0) ∷ []
  encoding (uint8 v) = v ∷ []
  encoding (uint16 v be) = pack uint16_t v be
  encoding (uint32 v be) = pack uint32_t v be
  encoding (uint64 v be) = pack uint64_t v be
  encoding (uint128 v be) = pack W128 v be
  encoding (uint256 v be) = pack W256 v be
  encoding (bytes bs) = bs
  encoding (hex text) = hex_bytes text
  encoding (varint n v) = varint_code n v
  encoding (varint_vector n vs) = varint_code 8 (length vs) ++ joined (varint_code n) vs
  encoding (pod v) = laws.encode v
  encoding (pod_vector vs) = varint_code 8 (length vs) ++ joined laws.encode vs
  encoding (pod_nested vss) =
      varint_code 8 (length vss)
      ++ joined (λ vs. varint_code 8 (length vs) ++ joined laws.encode vs) vss
