-- ===== src/Vector.antt =====
-- include/serializable_vector.h: `SerializableVector<Type>`, a vector of serializable elements that is
-- itself serializable. The JSON members are in Json/Structures.antt.
pub mod Equality
pub mod Refused
pub mod Laws
use serialization_cpp.Serializer
use serialization_cpp.Deserializer
use serialization_cpp.Range
use serialization_cpp.Common.{
  length, get_elem?, ℕ, Bool, false, not, none, some, List, [], ◌∷◌, ◌++◌,
}
use serialization_cpp.Common.Run.{Run}
use serialization_cpp.Common.Result.{◌>>=◌, Result, ok, err, undefined}
use serialization_cpp.Hex.{to_hex}
use serialization_cpp.Serializable.{Serializable}
use serialization_cpp.Serializer.{Serializer}
use serialization_cpp.Deserializer.{Deserializer, loaded}

pub record SerializableVector (S : Serializable) : Type 0 where
  pub container : List S.Object

module _ (S : Serializable) where
  -- `SerializableVector() = default`.
  abbrev pub default : SerializableVector S
  default = record { container = [] }

  -- `operator[]` and `back`: an element that is not there is undefined.
  unfoldable pub at : ℕ → SerializableVector S → Result S.Object
  at i v = elim (get_elem? v.container i) [ none ↦ undefined | some x ↦ ok x ]

  last : List S.Object → Result S.Object
  last [] = undefined
  last (x ∷ []) = ok x
  last (x ∷ y ∷ rest) = last (y ∷ rest)

  unfoldable pub back : SerializableVector S → Result S.Object
  unfolding last
  back v = last v.container

  -- `operator==`, by that of the elements: `std::equal` gets no end of the second range.
  module _ (same : S.Object → S.Object → Result Bool) where
    unfoldable pub equals : SerializableVector S → SerializableVector S → Result Bool
    equals v other = Range.equal same v.container other.container

    unfoldable pub differs : SerializableVector S → SerializableVector S → Result Bool
    unfolding equals
    differs v other = do e ← equals v other; ok (not e)

  unfoldable pub append : S.Object → SerializableVector S → SerializableVector S
  append value v = record { container = v.container ++ (value ∷ []) }

  unfoldable pub extend : List S.Object → SerializableVector S → SerializableVector S
  unfolding append
  extend [] v = v
  extend (value ∷ values) v = extend values (append value v)

  unfoldable pub extend_vector : SerializableVector S → SerializableVector S → SerializableVector S
  unfolding extend
  extend_vector value v = extend value.container v

  -- The container is assigned behind a successful read.
  assign :
      SerializableVector S
      → Result (List S.Object) × Deserializer
      → Result (Unit {0}) × (Deserializer × SerializableVector S)
  assign v (ok values, reader) = (ok tt, (reader, record { container = values }))
  assign v (err e, reader) = (err e, (reader, v))
  assign v (undefined, reader) = (undefined, (reader, v))

  unfoldable pub deserialize_reader : Run (Deserializer × SerializableVector S) (Unit {0})
  unfolding assign
  deserialize_reader (reader, v) = assign v (Deserializer.pod_vector S false reader)

  -- The reader made of the data is dropped.
  drop_reader :
      Result (Unit {0}) × (Deserializer × SerializableVector S)
      → Result (Unit {0}) × SerializableVector S
  drop_reader (r, (reader, v)) = (r, v)

  unfoldable pub deserialize : List ℕ → Run (SerializableVector S) (Unit {0})
  unfolding deserialize_reader drop_reader
  deserialize bytes' v = drop_reader (deserialize_reader (Deserializer.of_vector bytes', v))

  unfoldable pub serialize_to : SerializableVector S → Run Serializer (Unit {0})
  serialize_to v = Serializer.pod_vector S v.container

  written : Result (Unit {0}) × Serializer → Result (List ℕ)
  written (ok _, writer) = ok (Serializer.vector writer)
  written (err e, writer) = err e
  written (undefined, writer) = undefined

  unfoldable pub serialize : SerializableVector S → Result (List ℕ)
  unfolding serialize_to written
  serialize v = written (serialize_to v Serializer.empty)

  -- The number of elements, not of bytes.
  unfoldable pub size : SerializableVector S → ℕ
  size v = length v.container

  unfoldable pub to_string : SerializableVector S → Result (List ℕ)
  unfolding serialize
  to_string v = do bytes' ← serialize v; to_hex bytes' (length bytes')

  read_string :
      SerializableVector S → Result Deserializer → Result (Unit {0}) × SerializableVector S
  unfolding deserialize_reader drop_reader
  read_string v (ok reader) = drop_reader (deserialize_reader (reader, v))
  read_string v (err e) = (err e, v)
  read_string v undefined = (undefined, v)

  unfoldable pub from_string : List ℕ → Run (SerializableVector S) (Unit {0})
  unfolding read_string
  from_string str v = read_string v (Deserializer.of_hex str)

  -- The constructor from a text: after an exception there is no object.
  unfoldable pub construct : List ℕ → Result (SerializableVector S)
  unfolding from_string loaded
  construct value = loaded (from_string value default)

  -- The vector as a structure that readers and writers take.
  abbrev pub serializable : Serializable
  serializable = record {
    Object = SerializableVector S;
    default = default;
    serialize = serialize;
    deserialize = deserialize;
    size = size;
  }
