-- ===== src/Serializer.antt =====
-- include/serializer_t.h and src/serializer_t.cpp: `serializer_t`, which appends to a vector of bytes. A
-- method that can throw runs on the object; the others return the object changed.
pub mod Writes
pub mod Appends
pub mod Log
use serialization_cpp.Common.{
  if◌then◌else◌, length, get_elem?, set, ℕ, zero, suc, Bool, none, some, List, [], ◌∷◌, ◌++◌,
}
use serialization_cpp.Common.Result.{Result, ok, err, undefined}
use serialization_cpp.Common.Run.{Run, pure, ◌>>=◌, ◌>>◌}
use serialization_cpp.Hex.{to_hex, from_hex}
use serialization_cpp.Varint.{encode_varint}
use serialization_cpp.Pack.{pack, Layout}
use serialization_cpp.Pack.Native.{uint16_t, uint32_t, uint64_t}
use serialization_cpp.Serializable.{Serializable}

pub record Serializer : Type 0 where
  pub buffer : List ℕ

-- `serializer_t()`.
abbrev pub empty : Serializer
empty = record { buffer = [] }

-- From another writer, from a list of bytes, and from a vector.
unfoldable pub copy : Serializer → Serializer
copy writer = record { buffer = writer.buffer }

unfoldable pub of_vector : List ℕ → Serializer
of_vector input = record { buffer = input }

abbrev push_back : ℕ → Serializer → Serializer
push_back b s = record { buffer = s.buffer ++ (b ∷ []) }

-- `data()`, as the bytes that the pointer points at.
unfoldable pub raw_data : Serializer → List ℕ
raw_data s = s.buffer

-- `writer[i]`: an index outside of the vector is undefined.
unfoldable pub at : ℕ → Serializer → Result ℕ
at i s = elim (get_elem? s.buffer i) [ none ↦ undefined | some b ↦ ok b ]

-- `writer[i] = value`.
unfoldable pub assign_at : ℕ → ℕ → Run Serializer (Unit {0})
assign_at i value s = elim (get_elem? s.buffer i) [
  | none ↦ (undefined, s)
  | some b ↦ (ok tt, record { buffer = set s.buffer i value })
]

unfoldable pub boolean : Bool → Serializer → Serializer
boolean value s = if value then push_back 1 s else push_back 0 s

-- `bytes(data, length)`: the list is the object that `data` points at.
bytes_loop : ℕ → List ℕ → Run Serializer (Unit {0})
bytes_loop zero raw s = (ok tt, s)
bytes_loop (suc rounds) [] s = (undefined, s)
bytes_loop (suc rounds) (b ∷ raw) s = bytes_loop rounds raw (push_back b s)

unfoldable pub bytes : List ℕ → ℕ → Run Serializer (Unit {0})
unfolding bytes_loop
bytes raw count = bytes_loop count raw

unfoldable pub extend : List ℕ → Serializer → Serializer
extend [] s = s
extend (element ∷ vector) s = extend vector (push_back element s)

-- `bytes(value)`.
unfoldable pub bytes_vector : List ℕ → Serializer → Serializer
bytes_vector value s = extend value s

-- `extend` of what a call returned; an exception of the call leaves the buffer alone.
pub extend_result : Result (List ℕ) → Run Serializer (Unit {0})
extend_result (ok bytes') s = (ok tt, extend bytes' s)
extend_result (err e) s = (err e, s)
extend_result undefined s = (undefined, s)

unfoldable pub hex : List ℕ → Run Serializer (Unit {0})
unfolding extend_result
hex value = extend_result (from_hex value)

unfoldable pub reset : Serializer → Serializer
reset s = record { buffer = [] }

unfoldable pub size : Serializer → ℕ
size s = length s.buffer

unfoldable pub to_string : Serializer → Result (List ℕ)
to_string s = to_hex s.buffer (length s.buffer)

unfoldable pub uint8 : ℕ → Serializer → Serializer
uint8 value s = push_back value s

unfoldable pub uint16 : ℕ → Bool → Serializer → Serializer
uint16 value big_endian s = extend (pack uint16_t value big_endian) s

unfoldable pub uint32 : ℕ → Bool → Serializer → Serializer
uint32 value big_endian s = extend (pack uint32_t value big_endian) s

unfoldable pub uint64 : ℕ → Bool → Serializer → Serializer
uint64 value big_endian s = extend (pack uint64_t value big_endian) s

-- The wide integers are types of another library, each with the layout that it has there.
module _ (wide : Layout) where
  unfoldable pub uint128 : wide.Value → Bool → Serializer → Serializer
  uint128 value big_endian s = extend (pack wide value big_endian) s

  unfoldable pub uint256 : wide.Value → Bool → Serializer → Serializer
  uint256 value big_endian s = extend (pack wide value big_endian) s

-- `varint` of a value of a type of so many bytes, and of a vector of such values. A size is a `size_t`.
unfoldable pub varint : ℕ → ℕ → Run Serializer (Unit {0})
unfolding extend_result
varint type_size value = extend_result (encode_varint type_size value)

-- One call for each element, in order, until one throws.
unfoldable pub each {ℓ} :
    {A : Type ℓ} → (A → Run Serializer (Unit {0})) → List A → Run Serializer (Unit {0})
each f [] = pure tt
each f (x ∷ xs) = f x >> each f xs

unfoldable pub varint_vector : ℕ → List ℕ → Run Serializer (Unit {0})
unfolding each
varint_vector type_size values = do varint 8 (length values); each (varint type_size) values

module _ (S : Serializable) where
  unfoldable pub pod : S.Object → Run Serializer (Unit {0})
  unfolding extend_result
  pod value = extend_result (S.serialize value)

  unfoldable pub pod_vector : List S.Object → Run Serializer (Unit {0})
  unfolding each
  pod_vector values = do varint 8 (length values); each pod values

  unfoldable pub pod_nested : List (List S.Object) → Run Serializer (Unit {0})
  unfolding each
  pod_nested values = do
    varint 8 (length values)
    each (λ level1. varint 8 (length level1) >> each pod level1) values

unfoldable pub vector : Serializer → List ℕ
vector s = s.buffer
