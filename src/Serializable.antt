-- ===== src/Serializable.antt =====
-- include/serializable.h: what `serializer_t` and `deserializer_t` ask of a structure that they write
-- and read.
use serialization_cpp.Common.{length, All, ℕ, ◌≡◌, List}
use serialization_cpp.Common.Bits.{IsByte}
use serialization_cpp.Common.Run.{Run}
use serialization_cpp.Common.Result.{Result, ok}

-- The members of the interface that the templates call: `Type result;`, `serialize()`,
-- `deserialize(data)` on an object, and `size()`.
pub record Serializable : Type 1 where
  pub Object : Type 0
  pub default : Object
  pub serialize : Object → Result (List ℕ)
  pub deserialize : List ℕ → Run Object (Unit {0})
  pub size : Object → ℕ

-- What makes an implementation one that the templates can read back: each object that it promises to
-- keep is written as bytes, as many as a default object says that it takes, and a default object takes
-- them back.
pub record IsFixedSize (S : Serializable) : Type 1 where
  pub Keeps : S.Object → Type 0
  pub encode : S.Object → List ℕ
  pub serialize-encode : (v : S.Object) → Keeps v → S.serialize v ≡ ok (encode v)
  pub encode-IsByte : (v : S.Object) → Keeps v → All IsByte (encode v)
  pub length-encode : (v : S.Object) → Keeps v → length (encode v) ≡ S.size S.default
  pub deserialize-encode :
      (v : S.Object) → Keeps v → S.deserialize (encode v) S.default ≡ (ok tt, v)
