-- ===== src/Deserializer/Types.antt =====
-- What a reader answers is of the type that was asked for.
use serialization_cpp.Deserializer.Sound.{
  Sound, AnswersWith, proceed-Sound, unsigned-Sound, fixed-Sound, AreBytes, bytes-Sound,
  varint-Sound, many-Sound, vector-Sound,
}
use serialization_cpp.Common.{
  List, ℕ, refl, length, All, All-drop, Bool, false, ◌<◌, ◌^◌, arith, ◌≡◌, ◌*◌, [], ◌∷◌, subst,
}
use serialization_cpp.Common.Bits.{IsByte}
use serialization_cpp.Common.Result.{Result, ok, err, undefined}
use serialization_cpp.Deserializer.Queue.{Queue, taken_off, times, given_back}
use serialization_cpp.Pack.{Layout}
use serialization_cpp.Pack.Native.{uint8_t}
use serialization_cpp.Varint.{modulus}
use serialization_cpp.Deserializer.{Deserializer, loaded}
use serialization_cpp.Deserializer.Refines.{Related, IsRoomy}
use serialization_cpp.Deserializer.Reads.{Ready, unread}
use serialization_cpp.Deserializer.Requests.{
  Request, Answer, Answers, IsNative, expect, expect_all, ask_all, ask_all-expect_all, uint8,
  boolean, uint16, uint32, uint64, uint128, uint256, bytes, hex, varint, varint_vector, pod,
  pod_vector, pod_nested,
}
use serialization_cpp.Serializable.{Serializable}
use serialization_cpp.Hex.Digits.{IsHexDigit}
use serialization_cpp.Hex.RoundTrip.{length-hex_text, hex_text_digits}
use serialization_cpp.Deserializer.Queue

module _ (S : Serializable) where
  -- An object that was loaded from as many bytes as a default one takes.
  abbrev pub IsLoaded : S.Object → Type 0
  IsLoaded v =
      (bs : List ℕ) × AreBytes (S.size S.default) bs × (loaded (S.deserialize bs S.default) ≡ ok v)

  load-Sound :
      (bs : List ℕ) (q : Queue) (r : Result S.Object)
      → AreBytes (S.size S.default) bs
      → All IsByte q
      → loaded (S.deserialize bs S.default) ≡ r
      → Sound IsLoaded (r, q)
  load-Sound bs q (ok v) b left e = ((bs, b, e), left)
  load-Sound bs q (err x) b left e = tt
  load-Sound bs q undefined b left e = tt

  pod-Sound : (peek : Bool) → AnswersWith IsLoaded (Queue.pod S peek)
  pod-Sound peek q left =
      proceed-Sound (AreBytes (S.size S.default)) IsLoaded (Queue.bytes (S.size S.default) peek q) _
        (bytes-Sound (S.size S.default) peek q left)
        (λ bs b q' left'. load-Sound bs q' (loaded (S.deserialize bs S.default)) b left' refl)

module _ (W128 W256 : Layout) (S : Serializable) where
  -- The answers that a request's type has; a wide integer is any value of its class.
  abbrev pub IsTyped : (r : Request) → Answer W128 W256 S r → Type 0
  IsTyped (uint8 peek) v = v < 2 ^ 8
  IsTyped (boolean peek) v = Unit {0}
  IsTyped (uint16 peek be) v = v < 2 ^ 16
  IsTyped (uint32 peek be) v = v < 2 ^ 32
  IsTyped (uint64 peek be) v = v < 2 ^ 64
  IsTyped (uint128 peek be) v = Unit {0}
  IsTyped (uint256 peek be) v = Unit {0}
  IsTyped (bytes count peek) v = AreBytes count v
  IsTyped (hex count peek) v = (length v ≡ 2 * count) × All IsHexDigit v
  IsTyped (varint size peek) v = v < modulus size
  IsTyped (varint_vector size peek) v = All (λ n. n < modulus size) v
  IsTyped (pod peek) v = IsLoaded S v
  IsTyped (pod_vector peek) v = All (IsLoaded S) v
  IsTyped (pod_nested peek) v = All (All (IsLoaded S)) v

  boolean-Sound : (peek : Bool) → AnswersWith (λ v. Unit {0}) (Queue.boolean peek)
  boolean-Sound peek q left =
      proceed-Sound (λ v. v < 2 ^ 8) (λ v. Unit {0}) (Queue.fixed uint8_t false peek q) _
        (unsigned-Sound 1 (omega arith) false peek q left) (λ value _ q' left'. (tt, left'))

  hex-Sound :
      (count : ℕ) (peek : Bool) → AnswersWith (IsTyped (hex count peek)) (Queue.hex count peek)
  hex-Sound count peek q left =
      proceed-Sound (AreBytes count) (IsTyped (hex count peek)) (Queue.bytes count peek q) _
        (bytes-Sound count peek q left)
        (λ bs (size, all_bytes) q' left'.
          ((omega (arith, length-hex_text bs, size), hex_text_digits bs all_bytes), left'))

  expect-Sound : (r : Request) → AnswersWith (IsTyped r) (expect W128 W256 S r)
  unfolding expect
  expect-Sound (uint8 peek) = unsigned-Sound 1 (omega arith) false peek
  expect-Sound (boolean peek) = boolean-Sound peek
  expect-Sound (uint16 peek be) = unsigned-Sound 2 (omega arith) be peek
  expect-Sound (uint32 peek be) = unsigned-Sound 4 (omega arith) be peek
  expect-Sound (uint64 peek be) = unsigned-Sound 8 (omega arith) be peek
  expect-Sound (uint128 peek be) = fixed-Sound W128 be peek
  expect-Sound (uint256 peek be) = fixed-Sound W256 be peek
  expect-Sound (bytes count peek) = bytes-Sound count peek
  expect-Sound (hex count peek) = hex-Sound count peek
  expect-Sound (varint size peek) = varint-Sound size peek
  expect-Sound (varint_vector size peek) =
      vector-Sound (λ n. n < modulus size) (Queue.varint size false) peek (varint-Sound size false)
  expect-Sound (pod peek) = pod-Sound S peek
  expect-Sound (pod_vector peek) =
      vector-Sound (IsLoaded S) (Queue.pod S false) peek (pod-Sound S false)
  expect-Sound (pod_nested peek) =
      vector-Sound (All (IsLoaded S)) _ peek
        (many-Sound (IsLoaded S) (Queue.pod S false) (pod-Sound S false))

  abbrev pub AreTyped : (rs : List Request) → Answers W128 W256 S rs → Type 0
  AreTyped [] as' = Unit {0}
  AreTyped (r ∷ rs) (a, as') = IsTyped r a × AreTyped rs as'

  expect_all-Sound : (rs : List Request) → AnswersWith (AreTyped rs) (expect_all W128 W256 S rs)
  unfolding expect_all
  expect_all-Sound [] q left = (tt, left)
  expect_all-Sound (r ∷ rs) q left =
      proceed-Sound (IsTyped r) (AreTyped (r ∷ rs)) (expect W128 W256 S r q) _
        (expect-Sound r q left)
        (λ a t q' left'.
          proceed-Sound (AreTyped rs) (AreTyped (r ∷ rs)) (expect_all W128 W256 S rs q') _
            (expect_all-Sound rs q' left') (λ as' ts q'' left''. ((t, ts), left'')))

related_answer {κ} :
    {A : Type 0} (P : A → Type κ) (d : Deserializer) (x : Result A × Deserializer)
    (y : Result A × Queue) {a : A}
    → Related d x y
    → Sound P y
    → x.0 ≡ ok a
    → P a
related_answer P d (ok b, _) (ok c, q) {a} (same, _, _, _) (p, _) h =
    let e : c ≡ a = cc (same, h) in subst P e p
related_answer P d (ok b, _) (err e, q) r s h = absurd r
related_answer P d (ok b, _) (undefined, q) r s h = absurd r
related_answer P d (err e, _) y r s h = absurd (cc h)
related_answer P d (undefined, _) y r s h = absurd (cc h)

-- Whatever bytes a reader holds, the answers to requests that all succeed are of the types that were
-- asked for: an integer and a varint are below the bound of their type, `bytes` gives as many bytes as
-- it was asked for, `hex` two hexadecimal digits for each of them, and every structure was loaded from
-- as many bytes as a default one takes. The varint types have at most 8 bytes, the offset is in the
-- buffer, and the buffer is more than 64 bytes short of what `size_t` can measure.
pub ask_all-AreTyped :
    (W128 W256 : Layout) (S : Serializable) (rs : List Request) (d : Deserializer)
    {answers : Answers W128 W256 S rs}
    → All IsNative rs
    → Ready d
    → IsRoomy d
    → (ask_all W128 W256 S rs d).0 ≡ ok answers
    → AreTyped W128 W256 S rs answers
ask_all-AreTyped W128 W256 S rs d native ready roomy h =
    related_answer (AreTyped W128 W256 S rs) d (ask_all W128 W256 S rs d)
      (expect_all W128 W256 S rs (unread d))
      (ask_all-expect_all W128 W256 S rs d native ready roomy)
      (expect_all-Sound W128 W256 S rs (unread d)
        (All-drop IsByte d.offset d.buffer ready.all_bytes))
      h
