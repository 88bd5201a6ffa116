-- ===== src/Stream/Reach.antt =====
-- What any sequence of calls, failed ones too, leaves of a writer.
use serialization_cpp.Common.{List, ◌≡◌, ℕ}
use serialization_cpp.Common.Result.{Error, err}
use serialization_cpp.Pack.{Layout, pack}
use serialization_cpp.Pack.Native.{uint16_t, uint32_t, uint64_t}
use serialization_cpp.Hex.{from_hex}
use serialization_cpp.Varint.{encode_varint}
use serialization_cpp.Serializable.{Serializable}
use serialization_cpp.Serializer.{Serializer}
use serialization_cpp.Serializer.Appends.{
  Extends, Appends, Extends-refl, Extends-trans, Extends-extend, Appends-extend_result,
  Appends-bytes, Extends-boolean, Extends-uint8, Appends-varint, Appends-varint_vector, Appends-pod,
  Appends-pod_vector, Appends-pod_nested, extend_result_err,
}
use serialization_cpp.Stream.{
  boolean, uint8, uint16, uint32, uint64, uint128, uint256, bytes, hex, varint, varint_vector, pod,
  pod_vector, pod_nested, write, Item,
}
use serialization_cpp.Serializer

module _ (W128 W256 : Layout) (S : Serializable) where
  Appends-write : (item : Item W128 W256 S) → Appends (write W128 W256 S item)
  unfolding write Serializer.uint16 Serializer.uint32 Serializer.uint64 Serializer.uint128
      Serializer.uint256 Serializer.bytes_vector Serializer.hex
  Appends-write (boolean b) s = Extends-boolean b s
  Appends-write (uint8 v) s = Extends-uint8 v s
  Appends-write (uint16 v be) s = Extends-extend (pack uint16_t v be) s
  Appends-write (uint32 v be) s = Extends-extend (pack uint32_t v be) s
  Appends-write (uint64 v be) s = Extends-extend (pack uint64_t v be) s
  Appends-write (uint128 v be) s = Extends-extend (pack W128 v be) s
  Appends-write (uint256 v be) s = Extends-extend (pack W256 v be) s
  Appends-write (bytes bs) s = Extends-extend bs s
  Appends-write (hex text) s = Appends-extend_result (from_hex text) s
  Appends-write (varint n v) s = Appends-varint n v s
  Appends-write (varint_vector n vs) s = Appends-varint_vector n vs s
  Appends-write (pod v) s = Appends-pod S v s
  Appends-write (pod_vector vs) s = Appends-pod_vector S vs s
  Appends-write (pod_nested vss) s = Appends-pod_nested S vss s

  -- A call that writes: an item, of any arguments, or bytes from a pointer.
  data Step (s s' : Serializer) : Type 0 where
    writes : (item : Item W128 W256 S) → s' ≡ (write W128 W256 S item s).1 → Step s s'
    copies : (raw : List ℕ) (count : ℕ) → s' ≡ (Serializer.bytes raw count s).1 → Step s s'

  data Reach (s : Serializer) : Serializer → Type 0 where
    here : Reach s s
    next : {t t' : Serializer} → Reach s t → Step t t' → Reach s t'

  Step-Extends : (s s' : Serializer) → Step s s' → Extends s s'
  Step-Extends s s' (writes item e) = rw e (Appends-write item s)
  Step-Extends s s' (copies raw count e) = rw e (Appends-bytes raw count s)

  -- Whatever is written, with whatever arguments and however the calls end, nothing that the writer held
  -- before is lost or changed: its buffer is the old one and more behind it.
  Reach-Extends : {s s' : Serializer} → Reach s s' → Extends s s'
  Reach-Extends here = Extends-refl _
  Reach-Extends (next r step) = Extends-trans _ _ _ (Reach-Extends r) (Step-Extends _ _ step)

  -- The calls that write one value.
  abbrev pub IsSingle : Item W128 W256 S → Type 0
  IsSingle (varint_vector n vs) = ⊥
  IsSingle (pod_vector vs) = ⊥
  IsSingle (pod_nested vss) = ⊥
  IsSingle (boolean b) = Unit {0}
  IsSingle (uint8 v) = Unit {0}
  IsSingle (uint16 v be) = Unit {0}
  IsSingle (uint32 v be) = Unit {0}
  IsSingle (uint64 v be) = Unit {0}
  IsSingle (uint128 v be) = Unit {0}
  IsSingle (uint256 v be) = Unit {0}
  IsSingle (bytes bs) = Unit {0}
  IsSingle (hex text) = Unit {0}
  IsSingle (varint n v) = Unit {0}
  IsSingle (pod v) = Unit {0}

  -- A call that writes one value and throws leaves the writer as it was.
  pub write_err :
      (item : Item W128 W256 S) (s : Serializer) {e : Error}
      → IsSingle item
      → (write W128 W256 S item s).0 ≡ err e
      → (write W128 W256 S item s).1 ≡ s
  unfolding write Serializer.hex Serializer.varint Serializer.pod
  write_err (boolean b) s single h = absurd (cc h)
  write_err (uint8 v) s single h = absurd (cc h)
  write_err (uint16 v be) s single h = absurd (cc h)
  write_err (uint32 v be) s single h = absurd (cc h)
  write_err (uint64 v be) s single h = absurd (cc h)
  write_err (uint128 v be) s single h = absurd (cc h)
  write_err (uint256 v be) s single h = absurd (cc h)
  write_err (bytes bs) s single h = absurd (cc h)
  write_err (hex text) s single h = extend_result_err (from_hex text) s h
  write_err (varint n v) s single h = extend_result_err (encode_varint n v) s h
  write_err (varint_vector n vs) s single h = absurd single
  write_err (pod v) s single h = extend_result_err (S.serialize v) s h
  write_err (pod_vector vs) s single h = absurd single
  write_err (pod_nested vss) s single h = absurd single
