-- ===== src/Pod/Hooks.antt =====
-- Classes that override `load_hook`.
use serialization_cpp.Common.{
  List, ℕ, length, All, ◌≡◌, false, ◌++◌, ◌==◌, true, ==_refl, sym, ◌∙◌, refl,
}
use serialization_cpp.Common.Bits.{IsByte}
use serialization_cpp.Common.Run.{Run}
use serialization_cpp.Common.Result.{ok}
use serialization_cpp.Deserializer.{Deserializer}
use serialization_cpp.Deserializer.Reads.{moved, Ready, unread}
use serialization_cpp.Pod.{Pod, deserialize_hooked, from_string_hooked, deserialize_reader_hooked}
use serialization_cpp.Pod.Order.{IsPod}
use serialization_cpp.Hex.RoundTrip.{hex_text, from_hex-hex_text}
use serialization_cpp.Deserializer.Methods.{Reads-bytes}
use serialization_cpp.Pod.Laws.{memcpy_all, default-IsPod, serialize_bytes, size_all}
use serialization_cpp.Serializable.{IsFixedSize}
use serialization_cpp.Pod
use serialization_cpp.Deserializer

module _ (SIZE : ℕ) (hook : Run Pod (Unit {0})) where
  -- A pod of the size that the hook passes as it is.
  pub record IsAccepted (p : Pod) : Type 0 where
    pub sized : IsPod SIZE p
    pub passes : hook p ≡ (ok tt, p)

  pub loaded_hooked :
      (p : Pod) (bytes' : List ℕ)
      → IsPod SIZE p
      → length bytes' ≡ SIZE
      → deserialize_hooked SIZE hook bytes' p ≡ hook (record { bytes = bytes' })
  unfolding deserialize_hooked
  loaded_hooked p bytes' hp size =
      let same : (length bytes' == SIZE) ≡ true = rw size (==_refl SIZE) in
      let e = memcpy_all p.bytes bytes' (hp.sized ∙ sym size) in rw (same, e) refl

  text_hooked :
      (p : Pod) (bytes' : List ℕ)
      → IsPod SIZE p
      → All IsByte bytes'
      → length bytes' ≡ SIZE
      → from_string_hooked SIZE hook (hex_text bytes') p ≡ hook (record { bytes = bytes' })
  unfolding from_string_hooked
  text_hooked p bytes' hp hb size =
      let same : (length bytes' == SIZE) ≡ true = rw size (==_refl SIZE) in
      let e = memcpy_all p.bytes bytes' (hp.sized ∙ sym size) in
      rw (from_hex-hex_text bytes' hb, same, e) refl

  -- Whatever a class's `load_hook` does, the three ways of loading as many bytes as the class has end as
  -- the hook does on an object that holds these bytes already: when it throws, the object keeps what the
  -- hook refused. The reader's offset is in its buffer, and moves behind the bytes.
  pub loads_hooked :
      (p : Pod) (bytes' rest : List ℕ) (d : Deserializer)
      → IsPod SIZE p
      → All IsByte bytes'
      → length bytes' ≡ SIZE
      → Ready d
      → unread d ≡ bytes' ++ rest
      → (deserialize_hooked SIZE hook bytes' p ≡ hook (record { bytes = bytes' }))
        × (from_string_hooked SIZE hook (hex_text bytes') p ≡ hook (record { bytes = bytes' }))
        × (deserialize_reader_hooked SIZE hook (d, p) ≡ (
          (hook (record { bytes = bytes' })).0,
          (moved SIZE d, (hook (record { bytes = bytes' })).1),
        ))
  unfolding deserialize_reader_hooked
  loads_hooked p bytes' rest d hp hb size ready left =
      let loaded = loaded_hooked p bytes' hp size in
      let read = Reads-bytes bytes' false d rest ready left in
      let read' : Deserializer.bytes SIZE false d ≡ (ok bytes', moved SIZE d) = rw size at read in
      (
        loaded,
        text_hooked p bytes' hp hb size,
        rw read' (λ i. ((loaded i).0, (moved SIZE d, (loaded i).1))),
      )

  pub deserialize_reader_accepted :
      (p old : Pod) (d : Deserializer) (rest : List ℕ)
      → IsAccepted p
      → IsPod SIZE old
      → Ready d
      → unread d ≡ p.bytes ++ rest
      → deserialize_reader_hooked SIZE hook (d, old) ≡ (ok tt, (moved (length p.bytes) d, p))
  deserialize_reader_accepted p old d rest k ho ready left =
      let loads = loads_hooked old p.bytes rest d ho k.sized.all_bytes k.sized.sized ready left in
      let size = sym k.sized.sized in
      loads.2 ∙ λ i. ((k.passes i).0, (moved (size i) d, (k.passes i).1))

  pub from_string_accepted :
      (p old : Pod)
      → IsAccepted p
      → IsPod SIZE old
      → from_string_hooked SIZE hook (hex_text p.bytes) old ≡ (ok tt, p)
  from_string_accepted p old k ho =
      text_hooked old p.bytes ho k.sized.all_bytes k.sized.sized ∙ k.passes

  -- A class with a hook is as good a structure as the template: pods that the hook passes are written and
  -- read in a fixed number of bytes.
  pub deserialize_accepted :
      (p : Pod)
      → IsAccepted p
      → deserialize_hooked SIZE hook p.bytes (Pod.default SIZE) ≡ (ok tt, p)
  deserialize_accepted p k =
      loaded_hooked (Pod.default SIZE) p.bytes (default-IsPod SIZE) k.sized.sized ∙ k.passes

  abbrev pub hooked_laws : IsFixedSize (Pod.hooked SIZE hook)
  hooked_laws = record {
    Keeps = IsAccepted;
    encode = λ p. p.bytes;
    serialize-encode = λ v k. serialize_bytes SIZE v;
    encode-IsByte = λ v k. k.sized.all_bytes;
    length-encode = λ v k. k.sized.sized ∙ size_all SIZE;
    deserialize-encode = deserialize_accepted;
  }
