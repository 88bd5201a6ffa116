-- ===== src/Hex/RoundTrip.antt =====
-- `to_hex` and `from_hex` undo one another.
use serialization_cpp.Common.{
  length, All, ℕ, zero, suc, ◌*◌, ◌/◌, ◌%◌, ◌<◌, ◌≡◌, refl, sym, ap, ◌∙◌, List, [], ◌∷◌, ◌++◌,
  append_assoc, append-nil, arith,
}
use serialization_cpp.Common.Bits.{IsByte, low_four}
use serialization_cpp.Common.Result.{◌>>=◌, ok, undefined}
use serialization_cpp.Hex.{to_hex_loop, to_hex, read_pair, from_hex_loop, from_hex}
use serialization_cpp.Hex.Digits.{IsHexDigit, digit_value, digit_char, hex_chars_lem, read_pair_ok}

-- The text of some bytes, two lower-case digits for each.
abbrev pub hex_text : List ℕ → List ℕ
hex_text [] = []
hex_text (b ∷ bytes) = digit_char (b / 16) ∷ digit_char (b % 16) ∷ hex_text bytes

to_hex_loop-hex_text :
    (bytes text : List ℕ)
    → All IsByte bytes
    → to_hex_loop (length bytes) bytes text ≡ ok (text ++ hex_text bytes)
unfolding to_hex_loop
to_hex_loop-hex_text [] text h = ap ok (sym (append-nil text))
to_hex_loop-hex_text (b ∷ bytes) text (hb, hs) =
    to_hex_loop-hex_text bytes _ hs
    ∙ ap ok (
        simp (
          low_four b hb,
          hex_chars_lem (b / 16) (omega arith),
          hex_chars_lem (b % 16) (omega arith),
          append_assoc,
        ))

pub to_hex-hex_text :
    (bytes : List ℕ) → All IsByte bytes → to_hex bytes (length bytes) ≡ ok (hex_text bytes)
unfolding to_hex
to_hex-hex_text bytes h = to_hex_loop-hex_text bytes [] h

-- A count past the end of the object.
to_hex_loop_outside :
    (count : ℕ) (bytes text : List ℕ)
    → length bytes < count
    → to_hex_loop count bytes text ≡ undefined
unfolding to_hex_loop
to_hex_loop_outside zero bytes text h = elim h [ ]
to_hex_loop_outside (suc count) [] text h = refl
to_hex_loop_outside (suc count) (b ∷ bytes) text h = to_hex_loop_outside count bytes _ (omega arith)

pub to_hex_outside :
    (bytes : List ℕ) (count : ℕ) → length bytes < count → to_hex bytes count ≡ undefined
unfolding to_hex
to_hex_outside bytes count h = to_hex_loop_outside count bytes [] h

pub length-hex_text : (bytes : List ℕ) → length (hex_text bytes) ≡ 2 * length bytes
length-hex_text [] = omega arith
length-hex_text (b ∷ bytes) = omega (arith, length-hex_text bytes)

pub hex_text_digits : (bytes : List ℕ) → All IsByte bytes → All IsHexDigit (hex_text bytes)
hex_text_digits [] h = tt
hex_text_digits (b ∷ bytes) (hb, hs) = (ground arith, (ground arith, hex_text_digits bytes hs))

digit_value-digit_char : (n : ℕ) → n < 16 → digit_value (digit_char n) ≡ n
digit_value-digit_char n h = ground arith

read_pair-digit_char :
    (b : ℕ) → b < 256 → read_pair (digit_char (b / 16)) (digit_char (b % 16)) ≡ ok b
read_pair-digit_char b h =
    read_pair_ok _ _ (ground arith) (ground arith) (ground arith) (ground arith)
    ∙ ap ok (
        omega (
          arith,
          digit_value-digit_char (b / 16) (omega arith),
          digit_value-digit_char (b % 16) (omega arith),
        ))

from_hex_loop-hex_text :
    (bytes : List ℕ) → All IsByte bytes → from_hex_loop (hex_text bytes) ≡ ok bytes
unfolding from_hex_loop
from_hex_loop-hex_text [] h = refl
from_hex_loop-hex_text (b ∷ bytes) (hb, hs) =
    rw (read_pair-digit_char b hb, from_hex_loop-hex_text bytes hs)

pub from_hex-hex_text : (bytes : List ℕ) → All IsByte bytes → from_hex (hex_text bytes) ≡ ok bytes
unfolding from_hex
from_hex-hex_text bytes h =
    let even : length (hex_text bytes) % 2 ≡ 0 = omega (arith, length-hex_text bytes) in
    rw even (from_hex_loop-hex_text bytes h)

-- Bytes printed in hexadecimal are read back as they were.
pub from_hex-to_hex :
    (bytes : List ℕ) → All IsByte bytes → (to_hex bytes (length bytes) >>= from_hex) ≡ ok bytes
from_hex-to_hex bytes h = rw (to_hex-hex_text bytes h) (from_hex-hex_text bytes h)
