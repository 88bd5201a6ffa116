-- ===== src/Pod/Laws.antt =====
-- Loading, printing and erasing pods.
use serialization_cpp.Common.{
  ◌==◌, if◌then◌else◌, Bool-cases, ==_refl, length, drop, replicate, All, length-replicate, ℕ, zero,
  suc, ◌%◌, ◌≡◌, refl, sym, ◌∙◌, inl, inr, List, [], ◌∷◌, append-nil, arith,
}
use serialization_cpp.Common.Bits.{IsByte}
use serialization_cpp.Common.Result.{
  invalid_hex_character, invalid_string_size, wrong_data_size, invalid_value_size, ok, err,
}
use serialization_cpp.Hex.RoundTrip.{hex_text, to_hex-hex_text, from_hex-hex_text}
use serialization_cpp.Hex.Accepts.{hex_bytes, all_digits, from_hex_cases}
use serialization_cpp.Serializable.{IsFixedSize}
use serialization_cpp.Erase.{secure_erase_lem}
use serialization_cpp.Pod.{
  default, deserialize, serialize, size, to_string, from_string, destroy, serializable, Pod,
  serialize_to, memcpy,
}
use serialization_cpp.Pod.Order.{IsPod}
use serialization_cpp.Serializer.Writes.{Writes, Writes-bytes}

pub memcpy_all : (old source : List ℕ) → length old ≡ length source → memcpy old source ≡ ok source
memcpy_all [] [] h = refl
memcpy_all [] (b ∷ source) h = absurd (omega arith)
memcpy_all (o ∷ old) [] h = absurd (omega arith)
memcpy_all (o ∷ old) (b ∷ source) h = rw (memcpy_all old source (omega arith)) refl

Pod-eq : {p q : Pod} → p.bytes ≡ q.bytes → p ≡ q
Pod-eq e = λ i. record { bytes = e i }

pub default-IsPod : (SIZE : ℕ) → IsPod SIZE (default SIZE)
default-IsPod SIZE = record { sized = length-replicate SIZE 0; all_bytes = zeros SIZE }
  where
    zeros : (n : ℕ) → All IsByte (replicate n 0)
    zeros zero = tt
    zeros (suc n) = (omega arith, zeros n)

-- `deserialize` of a pod of `SIZE` bytes takes exactly `SIZE` bytes, which become the pod's; any other
-- number of them throws and leaves the pod as it was.
pub deserialize_cases :
    (SIZE : ℕ) (p : Pod) (bytes' : List ℕ)
    → IsPod SIZE p
    → deserialize SIZE bytes' p ≡ (
        if length bytes' == SIZE
        then (ok tt, record { bytes = bytes' })
        else (err wrong_data_size, p))
unfolding deserialize
deserialize_cases SIZE p bytes' h = elim (Bool-cases (length bytes' == SIZE)) [
  | inl same ↦
      let l : length p.bytes ≡ length bytes' = ground (arith, h.sized) in
      let e = memcpy_all p.bytes bytes' l in rw (same, e) refl
  | inr other ↦ rw other
]

pub serialize_bytes : (SIZE : ℕ) (p : Pod) → (serializable SIZE).serialize p ≡ ok p.bytes
unfolding serialize
serialize_bytes SIZE p = refl

pub Writes-serialize_to : (SIZE : ℕ) (p : Pod) → IsPod SIZE p → Writes (serialize_to SIZE p) p.bytes
unfolding serialize_to
Writes-serialize_to SIZE p h = rw (← h.sized) (Writes-bytes p.bytes)

pub size_all : (SIZE : ℕ) → SIZE ≡ (serializable SIZE).size (default SIZE)
unfolding size
size_all SIZE = refl

pub deserialize_default :
    (SIZE : ℕ) (p : Pod) → IsPod SIZE p → deserialize SIZE p.bytes (default SIZE) ≡ (ok tt, p)
deserialize_default SIZE p h =
    deserialize_cases SIZE (default SIZE) p.bytes (default-IsPod SIZE) ∙ rw (h.sized, ==_refl)

-- Pods are written and read in a fixed number of bytes, so the templates of readers and writers take
-- them.
abbrev pub laws : (SIZE : ℕ) → IsFixedSize (serializable SIZE)
laws SIZE = record {
  Keeps = IsPod SIZE;
  encode = λ p. p.bytes;
  serialize-encode = λ v k. serialize_bytes SIZE v;
  encode-IsByte = λ v k. k.all_bytes;
  length-encode = λ v k. k.sized ∙ size_all SIZE;
  deserialize-encode = λ v k. deserialize_default SIZE v k;
}

-- The text of a pod is two lower-case digits for each byte, and any pod of the size that loads this text
-- becomes equal to it.
pub from_string-to_string :
    (SIZE : ℕ) (p q : Pod)
    → IsPod SIZE p
    → IsPod SIZE q
    → (to_string SIZE p ≡ ok (hex_text p.bytes))
      × (from_string SIZE (hex_text p.bytes) q ≡ (ok tt, p))
unfolding to_string from_string
from_string-to_string SIZE p q hp hq =
    let back = from_hex-hex_text p.bytes hp.all_bytes in
    let e = memcpy_all q.bytes p.bytes (hq.sized ∙ sym hp.sized) in
    (to_hex-hex_text p.bytes hp.all_bytes, rw (back, hp.sized, ==_refl, e) refl)

-- Loading a text of bytes throws, and leaves the pod as it was, unless it is an even number of
-- hexadecimal digits and as many bytes as the pod has.
pub from_string_cases :
    (SIZE : ℕ) (q : Pod) (text : List ℕ)
    → IsPod SIZE q
    → All IsByte text
    → from_string SIZE text q ≡ (
        if length text % 2 == 0
        then if all_digits text
          then if length (hex_bytes text) == SIZE
            then (ok tt, record { bytes = hex_bytes text })
            else (err invalid_value_size, q)
          else (err invalid_hex_character, q)
        else (err invalid_string_size, q))
unfolding from_string
from_string_cases SIZE q text hq ht =
    let cases = from_hex_cases text ht in
    elim (Bool-cases (length text % 2 == 0)) [
      | inl even ↦ elim (Bool-cases (all_digits text)) [
        | inl digits ↦ elim (Bool-cases (length (hex_bytes text) == SIZE)) [
          | inl same ↦
              let l : length q.bytes ≡ length (hex_bytes text) = ground (arith, hq.sized) in
              let e = memcpy_all q.bytes (hex_bytes text) l in
              rw (cases, even, digits, same, e) refl
          | inr other ↦ rw (cases, even, digits, other)
        ]
        | inr n ↦ rw (cases, even, n)
      ]
      | inr odd ↦ rw (cases, odd)
    ]

drop_all : (xs : List ℕ) (n : ℕ) → length xs ≡ n → drop n xs ≡ []
drop_all [] zero h = refl
drop_all [] (suc n) h = refl
drop_all (x ∷ xs) zero h = absurd (omega arith)
drop_all (x ∷ xs) (suc n) h = drop_all xs n (omega arith)

-- The destructor leaves no byte of the value: the pod's memory is all zeros, whatever it held.
pub destroy_lem : (SIZE : ℕ) (p : Pod) → IsPod SIZE p → destroy SIZE p ≡ ok (default SIZE)
unfolding destroy
destroy_lem SIZE p h =
    let none_left : drop SIZE p.bytes ≡ [] = drop_all p.bytes SIZE h.sized in
    rw (secure_erase_lem p.bytes SIZE (omega (arith, h.sized)), none_left, append-nil)
