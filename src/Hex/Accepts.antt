-- ===== src/Hex/Accepts.antt =====
-- Exactly which texts `from_hex` accepts, which exception the others raise, and what an accepted text
-- prints as.
use mathlib.Core.Bool.{false≢true}
use serialization_cpp.Common.{◌↔◌, false, sym}
use serialization_cpp.Common.{
  ltb, sym, Bool, true, leb, ◌==◌, if◌then◌else◌, Bool-cases, length, All, ℕ, ◌+◌, ◌*◌, ◌/◌, ◌%◌,
  ◌<◌, ◌≡◌, refl, ap, ◌∙◌, inl, inr, ◌&&◌, List, [], ◌∷◌, map, arith,
}
use serialization_cpp.Common.Bits.{IsByte}
use serialization_cpp.Common.Result.{invalid_hex_character, invalid_string_size, ok, err}
use serialization_cpp.Hex.{to_hex, read_pair, from_hex_loop, from_hex}
use serialization_cpp.Hex.Digits.{
  IsHexDigit, digit_value, digit_char, char_ok, char_err, read_pair_ok, IsHexDigit-dec,
}
use serialization_cpp.Hex.RoundTrip.{hex_text, to_hex-hex_text}

-- The text as numbers: a digit's upper-case form counts as its lower-case one.
abbrev pub lower_case : ℕ → ℕ
lower_case c = if leb b'A' c && leb c b'Z' then c + 32 else c

-- The pairs of digits as bytes.
abbrev pub hex_bytes : List ℕ → List ℕ
hex_bytes [] = []
hex_bytes (c ∷ []) = []
hex_bytes (c ∷ d ∷ text) = (digit_value c * 16 + digit_value d) ∷ hex_bytes text

from_hex_loop-hex_bytes :
    (text : List ℕ)
    → length text % 2 ≡ 0
    → All IsByte text
    → All IsHexDigit text
    → from_hex_loop text ≡ ok (hex_bytes text)
unfolding from_hex_loop
from_hex_loop-hex_bytes [] e b h = refl
from_hex_loop-hex_bytes (c ∷ []) e b h = refl
from_hex_loop-hex_bytes (c ∷ d ∷ text) e (bc, (bd, bs)) (hc, (hd, hs)) =
    rw (read_pair_ok c d bc bd hc hd, from_hex_loop-hex_bytes text (omega arith) bs hs)

read_pair_err :
    (c d : ℕ)
    → c < 256
    → d < 256
    → ¬ (IsHexDigit c × IsHexDigit d)
    → read_pair c d ≡ err invalid_hex_character
unfolding read_pair
read_pair_err c d hc hd h = elim (IsHexDigit-dec c) [
  | yes dc ↦ rw (char_ok c hc dc, char_err d hd (λ dd. h (dc, dd)))
  | no nc ↦ rw (char_err c hc nc)
]

from_hex_loop_err :
    (text : List ℕ)
    → length text % 2 ≡ 0
    → All IsByte text
    → ¬ All IsHexDigit text
    → from_hex_loop text ≡ err invalid_hex_character
unfolding from_hex_loop
from_hex_loop_err [] e b h = absurd (h tt)
from_hex_loop_err (c ∷ []) e b h = absurd (omega arith)
from_hex_loop_err (c ∷ d ∷ text) e (bc, (bd, bs)) h = elim (IsHexDigit-dec c) [
  | yes dc ↦ elim (IsHexDigit-dec d) [
    | yes dd ↦ rw (
      read_pair_ok c d bc bd dc dd,
      from_hex_loop_err text (omega arith) bs (λ hs. h (dc, (dd, hs))),
    )
    | no nd ↦ rw (read_pair_err c d bc bd (λ p. nd p.1))
  ]
  | no nc ↦ rw (read_pair_err c d bc bd (λ p. nc p.0))
]

abbrev pub is_hex_digit : ℕ → Bool
is_hex_digit c = ltb (digit_value c) 16

abbrev pub all_digits : List ℕ → Bool
all_digits [] = true
all_digits (c ∷ text) = is_hex_digit c && all_digits text

pub All-all_digits : (text : List ℕ) → (all_digits text ≡ true) ↔ All IsHexDigit text
All-all_digits text = (sound text, complete text)
  where
    sound : (t : List ℕ) → all_digits t ≡ true → All IsHexDigit t
    sound [] h = tt
    sound (c ∷ t) h = (ground arith, sound t (ground arith))

    complete : (t : List ℕ) → All IsHexDigit t → all_digits t ≡ true
    complete [] h = refl
    complete (c ∷ t) (hc, hs) = let ih = complete t hs in ground arith

-- On a text of bytes: an odd size throws `invalid_string_size`; an even one is accepted exactly when
-- every character is a hexadecimal digit, with the value of each pair as the result, and throws
-- `invalid_hex_character` otherwise.
pub from_hex_cases :
    (text : List ℕ)
    → All IsByte text
    → from_hex text ≡ (
        if length text % 2 == 0
        then if all_digits text then ok (hex_bytes text) else err invalid_hex_character
        else err invalid_string_size)
unfolding from_hex
from_hex_cases text b = elim (Bool-cases (length text % 2 == 0)) [
  | inl e ↦
      let even : length text % 2 ≡ 0 = ground arith in
      elim (Bool-cases (all_digits text)) [
        | inl d ↦ rw (e, d) (from_hex_loop-hex_bytes text even b ((All-all_digits text).0 d))
        | inr n ↦
            rw (e, n)
              (from_hex_loop_err text even b (λ h. false≢true (sym n ∙ (All-all_digits text).1 h)))
      ]
  | inr e ↦ rw e
]

pub from_hex_inv :
    (text : List ℕ) {bytes : List ℕ}
    → All IsByte text
    → from_hex text ≡ ok bytes
    → (length text % 2 ≡ 0) × All IsHexDigit text × (bytes ≡ hex_bytes text)
from_hex_inv text {bytes} b h =
    let e = sym (from_hex_cases text b) ∙ h in
    let (even, digits, same) = split (length text % 2 == 0) (all_digits text) e in
    (ground arith, (All-all_digits text).0 digits, same)
  where
    split :
        (p q : Bool)
        → (if p
            then if q then ok (hex_bytes text) else err invalid_hex_character
            else err invalid_string_size)
          ≡ ok bytes
        → (p ≡ true) × (q ≡ true) × (bytes ≡ hex_bytes text)
    split true true h' = (refl, refl, cc)
    split true false h' = absurd (cc)
    split false q h' = absurd (cc)

hex_bytes-IsByte : (text : List ℕ) → All IsHexDigit text → All IsByte (hex_bytes text)
hex_bytes-IsByte [] h = tt
hex_bytes-IsByte (c ∷ []) h = tt
hex_bytes-IsByte (c ∷ d ∷ text) (hc, (hd, hs)) = (ground arith, hex_bytes-IsByte text hs)

pair_text :
    (c d : ℕ)
    → IsHexDigit c
    → IsHexDigit d
    → (digit_char ((digit_value c * 16 + digit_value d) / 16) ≡ lower_case c)
      × (digit_char ((digit_value c * 16 + digit_value d) % 16) ≡ lower_case d)
pair_text c d hc hd = (ground arith, ground arith)

hex_text-hex_bytes :
    (text : List ℕ)
    → length text % 2 ≡ 0
    → All IsHexDigit text
    → hex_text (hex_bytes text) ≡ map lower_case text
hex_text-hex_bytes [] e h = refl
hex_text-hex_bytes (c ∷ []) e h = absurd (omega arith)
hex_text-hex_bytes (c ∷ d ∷ text) e (hc, (hd, hs)) =
    let (ec, ed) = pair_text c d hc hd in cc (hex_text-hex_bytes text (omega arith) hs)

-- A text of bytes that is accepted prints as itself in lower case.
pub to_hex-from_hex :
    (text bytes : List ℕ)
    → All IsByte text
    → from_hex text ≡ ok bytes
    → to_hex bytes (length bytes) ≡ ok (map lower_case text)
to_hex-from_hex text bytes b h =
    let (even, digits, e) = from_hex_inv text b h in
    rw e (
      to_hex-hex_text (hex_bytes text) (hex_bytes-IsByte text digits)
      ∙ ap ok (hex_text-hex_bytes text even digits))
