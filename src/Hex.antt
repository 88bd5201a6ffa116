-- ===== src/Hex.antt =====
-- src/string_helper.cpp: `to_hex` and `from_hex`, with their tables. Text and data are lists of bytes.
pub mod Digits
pub mod RoundTrip
pub mod Accepts
use serialization_cpp.Common.{
  ℕ, zero, suc, ◌+◌, ◌*◌, ◌/◌, ◌%◌, bit_and, bit_or, List, [], ◌∷◌, ◌++◌, ltb, ◌==◌, if◌then◌else◌,
  length, get_or,
}
use serialization_cpp.Common.Result.{
  Result, ok, err, undefined, ◌>>=◌, invalid_hex_character, invalid_string_size,
}

unfoldable pub hex_chars : List ℕ
hex_chars =
    b'0' ∷ b'1' ∷ b'2' ∷ b'3' ∷ b'4' ∷ b'5' ∷ b'6' ∷ b'7' ∷ b'8' ∷ b'9' ∷ b'a' ∷ b'b' ∷ b'c' ∷ b'd'
    ∷ b'e' ∷ b'f' ∷ []

unfoldable pub hex_values : List ℕ
hex_values =
    0xff ∷ 0xff ∷ 0xff ∷ 0xff ∷ 0xff ∷ 0xff ∷ 0xff ∷ 0xff ∷ 0xff ∷ 0xff ∷ 0xff ∷ 0xff ∷ 0xff ∷ 0xff
    ∷ 0xff ∷ 0xff ∷ 0xff ∷ 0xff ∷ 0xff ∷ 0xff ∷ 0xff ∷ 0xff ∷ 0xff ∷ 0xff ∷ 0xff ∷ 0xff ∷ 0xff
    ∷ 0xff ∷ 0xff ∷ 0xff ∷ 0xff ∷ 0xff ∷ 0xff ∷ 0xff ∷ 0xff ∷ 0xff ∷ 0xff ∷ 0xff ∷ 0xff ∷ 0xff
    ∷ 0xff ∷ 0xff ∷ 0xff ∷ 0xff ∷ 0xff ∷ 0xff ∷ 0xff ∷ 0xff ∷ 0x00 ∷ 0x01 ∷ 0x02 ∷ 0x03 ∷ 0x04
    ∷ 0x05 ∷ 0x06 ∷ 0x07 ∷ 0x08 ∷ 0x09 ∷ 0xff ∷ 0xff ∷ 0xff ∷ 0xff ∷ 0xff ∷ 0xff ∷ 0xff ∷ 0x0a
    ∷ 0x0b ∷ 0x0c ∷ 0x0d ∷ 0x0e ∷ 0x0f ∷ 0xff ∷ 0xff ∷ 0xff ∷ 0xff ∷ 0xff ∷ 0xff ∷ 0xff ∷ 0xff
    ∷ 0xff ∷ 0xff ∷ 0xff ∷ 0xff ∷ 0xff ∷ 0xff ∷ 0xff ∷ 0xff ∷ 0xff ∷ 0xff ∷ 0xff ∷ 0xff ∷ 0xff
    ∷ 0xff ∷ 0xff ∷ 0xff ∷ 0xff ∷ 0xff ∷ 0x0a ∷ 0x0b ∷ 0x0c ∷ 0x0d ∷ 0x0e ∷ 0x0f ∷ 0xff ∷ 0xff
    ∷ 0xff ∷ 0xff ∷ 0xff ∷ 0xff ∷ 0xff ∷ 0xff ∷ 0xff ∷ 0xff ∷ 0xff ∷ 0xff ∷ 0xff ∷ 0xff ∷ 0xff
    ∷ 0xff ∷ 0xff ∷ 0xff ∷ 0xff ∷ 0xff ∷ 0xff ∷ 0xff ∷ 0xff ∷ 0xff ∷ 0xff ∷ 0xff ∷ 0xff ∷ 0xff
    ∷ 0xff ∷ 0xff ∷ 0xff ∷ 0xff ∷ 0xff ∷ 0xff ∷ 0xff ∷ 0xff ∷ 0xff ∷ 0xff ∷ 0xff ∷ 0xff ∷ 0xff
    ∷ 0xff ∷ 0xff ∷ 0xff ∷ 0xff ∷ 0xff ∷ 0xff ∷ 0xff ∷ 0xff ∷ 0xff ∷ 0xff ∷ 0xff ∷ 0xff ∷ 0xff
    ∷ 0xff ∷ 0xff ∷ 0xff ∷ 0xff ∷ 0xff ∷ 0xff ∷ 0xff ∷ 0xff ∷ 0xff ∷ 0xff ∷ 0xff ∷ 0xff ∷ 0xff
    ∷ 0xff ∷ 0xff ∷ 0xff ∷ 0xff ∷ 0xff ∷ 0xff ∷ 0xff ∷ 0xff ∷ 0xff ∷ 0xff ∷ 0xff ∷ 0xff ∷ 0xff
    ∷ 0xff ∷ 0xff ∷ 0xff ∷ 0xff ∷ 0xff ∷ 0xff ∷ 0xff ∷ 0xff ∷ 0xff ∷ 0xff ∷ 0xff ∷ 0xff ∷ 0xff
    ∷ 0xff ∷ 0xff ∷ 0xff ∷ 0xff ∷ 0xff ∷ 0xff ∷ 0xff ∷ 0xff ∷ 0xff ∷ 0xff ∷ 0xff ∷ 0xff ∷ 0xff
    ∷ 0xff ∷ 0xff ∷ 0xff ∷ 0xff ∷ 0xff ∷ 0xff ∷ 0xff ∷ 0xff ∷ 0xff ∷ 0xff ∷ 0xff ∷ 0xff ∷ 0xff
    ∷ 0xff ∷ 0xff ∷ 0xff ∷ 0xff ∷ 0xff ∷ 0xff ∷ 0xff ∷ 0xff ∷ 0xff ∷ 0xff ∷ 0xff ∷ 0xff ∷ 0xff
    ∷ 0xff ∷ 0xff ∷ 0xff ∷ 0xff ∷ 0xff ∷ 0xff ∷ 0xff ∷ 0xff ∷ 0xff ∷ 0xff ∷ 0xff ∷ 0xff ∷ 0xff
    ∷ 0xff ∷ 0xff ∷ 0xff ∷ 0xff ∷ 0xff ∷ 0xff ∷ 0xff ∷ 0xff ∷ []

-- The cast to `unsigned char` is `% 256`, so the index is always in the table.
unfoldable pub char_2_unsigned_char : ℕ → Result ℕ
char_2_unsigned_char character =
    let value = get_or hex_values (character % 256) 0 in
    if ltb 0x0f value then err invalid_hex_character else ok value

-- The loop of `to_hex`: the first argument counts the rounds left, the second is what `data` points
-- at from `i` on. A round past the end of the object reads outside of it.
to_hex_loop : ℕ → List ℕ → List ℕ → Result (List ℕ)
to_hex_loop zero bytes text = ok text
to_hex_loop (suc rounds) [] text = undefined
to_hex_loop (suc rounds) (b ∷ bytes) text =
    to_hex_loop rounds bytes
      ((text ++ (get_or hex_chars (b / 16) 0 ∷ [])) ++ (get_or hex_chars (bit_and b 15) 0 ∷ []))

unfoldable pub to_hex : List ℕ → ℕ → Result (List ℕ)
unfolding to_hex_loop
to_hex bytes count = to_hex_loop count bytes []

-- `char_2_unsigned_char(text[i << 1]) << 4 | char_2_unsigned_char(text[(i << 1) + 1])`, stored in an
-- `unsigned char`.
pub read_pair : ℕ → ℕ → Result ℕ
read_pair c d = do
  hi ← char_2_unsigned_char c
  lo ← char_2_unsigned_char d
  ok (bit_or (hi * 16) lo % 256)

-- The loop of `from_hex` over `text` from `i << 1` on: `text_size` is half the size, so a single
-- character at the end gets no round.
from_hex_loop : List ℕ → Result (List ℕ)
from_hex_loop [] = ok []
from_hex_loop (c ∷ []) = ok []
from_hex_loop (c ∷ d ∷ text) = do b ← read_pair c d; result ← from_hex_loop text; ok (b ∷ result)

-- `text.size() & 1` is the size modulo 2.
unfoldable pub from_hex : List ℕ → Result (List ℕ)
unfolding from_hex_loop read_pair char_2_unsigned_char
from_hex text = if length text % 2 == 0 then from_hex_loop text else err invalid_string_size
