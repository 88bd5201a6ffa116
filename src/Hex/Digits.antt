-- ===== src/Hex/Digits.antt =====
-- The two tables of src/string_helper.cpp as arithmetic.
use serialization_cpp.Common.{
  ℕ, Bool-cases, inl, inr, ap, ◌*◌, ◌+◌, ◌-◌, ◌≤◌, ◌<◌, ◌≡◌, refl, arith, ◌⊎◌, ◌&&◌, ltb, leb,
  if◌then◌else◌, get_or,
}
use serialization_cpp.Common.Bits.{agree_below, agree_below→eq, join_halves}
use serialization_cpp.Common.Result.{ok, err, invalid_hex_character}
use serialization_cpp.Hex.{hex_chars, hex_values, char_2_unsigned_char, read_pair}

abbrev pub IsHexDigit : ℕ → Type 0
IsHexDigit c = ((b'0' ≤ c) × (c ≤ b'9')) ⊎ (((b'a' ≤ c) × (c ≤ b'f')) ⊎ ((b'A' ≤ c) × (c ≤ b'F')))

-- What a hexadecimal digit stands for, and 255 for any other character.
abbrev pub digit_value : ℕ → ℕ
digit_value c =
    if leb b'0' c && leb c b'9'
    then c - b'0'
    else if leb b'a' c && leb c b'f'
    then c - b'a' + 10
    else if leb b'A' c && leb c b'F'
    then c - b'A' + 10
    else 255

abbrev pub digit_char : ℕ → ℕ
digit_char n = if ltb n 10 then b'0' + n else b'a' + n - 10

pub hex_values_lem : (c : ℕ) → c < 256 → get_or hex_values c 0 ≡ digit_value c
unfolding agree_below hex_values
hex_values_lem = agree_below→eq _ _ 256 refl

pub hex_chars_lem : (n : ℕ) → n < 16 → get_or hex_chars n 0 ≡ digit_char n
unfolding agree_below hex_chars
hex_chars_lem = agree_below→eq _ _ 16 refl

pub char_ok : (c : ℕ) → c < 256 → IsHexDigit c → char_2_unsigned_char c ≡ ok (digit_value c)
unfolding char_2_unsigned_char
char_ok c h d = ground (arith, hex_values_lem c h)

pub char_err :
    (c : ℕ) → c < 256 → ¬ IsHexDigit c → char_2_unsigned_char c ≡ err invalid_hex_character
unfolding char_2_unsigned_char
char_err c h d = ground (arith, hex_values_lem c h)

pub read_pair_ok :
    (c d : ℕ)
    → c < 256
    → d < 256
    → IsHexDigit c
    → IsHexDigit d
    → read_pair c d ≡ ok (digit_value c * 16 + digit_value d)
unfolding read_pair
read_pair_ok c d hc hd dc dd =
    rw (char_ok c hc dc, char_ok d hd dd)
      (ap ok (ground (arith, join_halves (digit_value c) (digit_value d))))

pub IsHexDigit-dec : (c : ℕ) → Dec (IsHexDigit c)
IsHexDigit-dec c = elim (Bool-cases (ltb (digit_value c) 16)) [
  | inl h ↦ yes (ground arith)
  | inr h ↦ no (λ d. ground arith)
]
