-- ===== src/Pod.antt =====
-- include/serializable_pod.h: `SerializablePod<SIZE>`, an array of bytes with comparisons, hexadecimal
-- text and serialization, with the `load_hook` of the template or one that a class overrides it with.
pub mod Order
pub mod Laws
pub mod Hooks
pub mod Copies
use serialization_cpp.Serializer
use serialization_cpp.Deserializer
use serialization_cpp.Range
use serialization_cpp.Common.{
  ◌||◌, ◌==◌, ltb, if◌then◌else◌, length, get_elem?, get_or, replicate, ℕ, zero, suc, Bool, true,
  false, not, none, some, List, ◌++◌, [], ◌∷◌,
}
use serialization_cpp.Common.Run.{Run, stop}
use serialization_cpp.Common.Result.{
  ◌>>=◌, wrong_data_size, invalid_value_size, Result, ok, err, undefined,
}
use serialization_cpp.Hex.{to_hex, from_hex}
use serialization_cpp.Serializable.{Serializable}
use serialization_cpp.Serializer.{Serializer}
use serialization_cpp.Deserializer.{Deserializer, loaded}
use serialization_cpp.Erase.{secure_erase}

pub record Pod : Type 0 where
  pub bytes : List ℕ

-- `std::memcpy` and `std::copy` to the front of an array: what does not fit is undefined.
abbrev pub memcpy : List ℕ → List ℕ → Result (List ℕ)
memcpy destination [] = ok destination
memcpy [] (b ∷ source) = undefined
memcpy (d ∷ destination) (b ∷ source) = do rest ← memcpy destination source; ok (b ∷ rest)

-- A byte's comparison.
abbrev same_byte : ℕ → ℕ → Result Bool
same_byte a b = ok (a == b)

-- The loop of `operator<` from index `i - 1` down.
less_loop : ℕ → List ℕ → List ℕ → Bool
less_loop zero a b = false
less_loop (suc i) a b =
    let rest = less_loop i a b in
    if ltb (get_or a i 0) (get_or b i 0)
    then true
    else if ltb (get_or b i 0) (get_or a i 0)
    then false
    else rest

-- That of `operator>`.
greater_loop : ℕ → List ℕ → List ℕ → Bool
greater_loop zero a b = false
greater_loop (suc i) a b =
    let rest = greater_loop i a b in
    if ltb (get_or b i 0) (get_or a i 0)
    then true
    else if ltb (get_or a i 0) (get_or b i 0)
    then false
    else rest

-- `virtual void load_hook() {}`.
unfoldable pub load_hook : Run Pod (Unit {0})
load_hook p = (ok tt, p)

-- `operator*` and `data()`, as the bytes that the pointer points at.
unfoldable pub raw_data : Pod → List ℕ
raw_data p = p.bytes

module _ (SIZE : ℕ) where
  -- `unsigned char bytes[SIZE] = {0};`
  abbrev pub default : Pod
  default = record { bytes = replicate SIZE 0 }

  -- `operator[]`.
  unfoldable pub at : ℕ → Pod → Result ℕ
  at i p = elim (get_elem? p.bytes i) [ none ↦ undefined | some b ↦ ok b ]

  unfoldable pub equals : Pod → Pod → Result Bool
  equals p other = Range.equal same_byte p.bytes other.bytes

  unfoldable pub differs : Pod → Pod → Result Bool
  unfolding equals
  differs p other = do e ← equals p other; ok (not e)

  unfoldable pub less : Pod → Pod → Bool
  unfolding less_loop
  less p other = less_loop SIZE p.bytes other.bytes

  unfoldable pub greater : Pod → Pod → Bool
  unfolding greater_loop
  greater p other = greater_loop SIZE p.bytes other.bytes

  unfoldable pub less_equal : Pod → Pod → Result Bool
  unfolding equals less
  less_equal p other = do e ← equals p other; ok (e || less p other)

  unfoldable pub greater_equal : Pod → Pod → Result Bool
  unfolding equals greater
  greater_equal p other = do e ← equals p other; ok (e || greater p other)

  -- The members that call `load_hook`, in a class that overrides it with `hook`.
  module _ (hook : Run Pod (Unit {0})) where
    unfoldable pub deserialize_hooked : List ℕ → Run Pod (Unit {0})
    deserialize_hooked bytes' p =
        if length bytes' == SIZE
        then stop (memcpy p.bytes bytes') (λ copied _. hook (record { bytes = copied })) p
        else (err wrong_data_size, p)

    -- The reader moves first; what it read is then loaded.
    deserialize_read :
        Pod → Result (List ℕ) × Deserializer → Result (Unit {0}) × (Deserializer × Pod)
    deserialize_read p (ok bytes', reader) =
        let (r, p') = deserialize_hooked bytes' p in (r, (reader, p'))
    deserialize_read p (err e, reader) = (err e, (reader, p))
    deserialize_read p (undefined, reader) = (undefined, (reader, p))

    unfoldable pub deserialize_reader_hooked : Run (Deserializer × Pod) (Unit {0})
    unfolding deserialize_read deserialize_hooked
    deserialize_reader_hooked (reader, p) =
        deserialize_read p (Deserializer.bytes SIZE false reader)

    -- What `from_string` does with the bytes of the text.
    copy_input : Result (List ℕ) → Run Pod (Unit {0})
    copy_input (ok input) p =
        if length input == SIZE
        then stop (memcpy p.bytes input) (λ copied _. hook (record { bytes = copied })) p
        else (err invalid_value_size, p)
    copy_input (err e) p = (err e, p)
    copy_input undefined p = (undefined, p)

    unfoldable pub from_string_hooked : List ℕ → Run Pod (Unit {0})
    unfolding copy_input
    from_string_hooked str p = copy_input (from_hex str) p

  -- The same members of the template itself.
  unfoldable pub deserialize : List ℕ → Run Pod (Unit {0})
  unfolding load_hook deserialize_hooked
  deserialize = deserialize_hooked load_hook

  unfoldable pub deserialize_reader : Run (Deserializer × Pod) (Unit {0})
  unfolding load_hook deserialize_reader_hooked
  deserialize_reader = deserialize_reader_hooked load_hook

  unfoldable pub from_string : List ℕ → Run Pod (Unit {0})
  unfolding load_hook from_string_hooked
  from_string = from_string_hooked load_hook

  unfoldable pub empty : Pod → Result Bool
  unfolding equals
  empty p = equals p default

  unfoldable pub serialize_to : Pod → Run Serializer (Unit {0})
  serialize_to p = Serializer.bytes p.bytes SIZE

  unfoldable pub serialize : Pod → List ℕ
  serialize p = p.bytes

  unfoldable pub size : Pod → ℕ
  size p = SIZE

  unfoldable pub to_string : Pod → Result (List ℕ)
  unfolding serialize
  to_string p = to_hex (serialize p) (length (serialize p))

  -- The constructor from a text, which calls the template's own `load_hook` in any class: the object is
  -- one of the template until the constructor ends. After an exception there is no object.
  unfoldable pub construct : List ℕ → Result Pod
  unfolding from_string loaded
  construct value = loaded (from_string value default)

  -- `operator<<` of the standard streams: a stream is the text that was put into it.
  put_text : Result (List ℕ) → Run (List ℕ) (Unit {0})
  put_text (ok str) os = (ok tt, os ++ str)
  put_text (err e) os = (err e, os)
  put_text undefined os = (undefined, os)

  unfoldable pub put : Pod → Run (List ℕ) (Unit {0})
  unfolding to_string put_text
  put value = put_text (to_string value)

  -- `~SerializablePod()`.
  unfoldable pub destroy : Pod → Result Pod
  destroy p = do cleared ← secure_erase p.bytes SIZE; ok (record { bytes = cleared })

  -- The template as the structure that readers and writers take.
  abbrev pub serializable : Serializable
  serializable = record {
    Object = Pod;
    default = default;
    serialize = λ p. ok (serialize p);
    deserialize = deserialize;
    size = size;
  }

  -- A class that overrides `load_hook`, as such a structure.
  abbrev pub hooked : Run Pod (Unit {0}) → Serializable
  hooked hook = record {
    Object = Pod;
    default = default;
    serialize = λ p. ok (serialize p);
    deserialize = deserialize_hooked hook;
    size = size;
  }
