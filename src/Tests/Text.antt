-- ===== src/Tests/Text.antt =====
-- Runs of the hexadecimal codec and of the string helpers.
use serialization_cpp.Common.{All, ℕ, ◌≡◌, refl, true, false, some, List, [], ◌∷◌, ◌++◌, map, arith}
use serialization_cpp.Common.Result.{◌>>=◌, invalid_hex_character, ok, err}
use serialization_cpp.Hex.{to_hex, from_hex}
use serialization_cpp.Hex.Accepts.{from_hex_cases}
use serialization_cpp.Hex.RoundTrip.{from_hex-to_hex}
use serialization_cpp.Strings.{str_join, str_split, to_lower, str_trim}
use serialization_cpp.Strings.Join.{str_join-joined}
use serialization_cpp.Strings.Split.{str_split-parts, str_split-str_join, str_join-str_split}
use serialization_cpp.Strings.Outer.{IsSpace, IsTight, str_trim_parts}

from_hex_test : from_hex (b'0' ∷ b'A' ∷ b'f' ∷ b'f' ∷ []) ≡ ok (10 ∷ 255 ∷ [])
from_hex_test = from_hex_cases _ (omega arith, (omega arith, (omega arith, (omega arith, tt))))

from_hex-to_hex_example : (to_hex (10 ∷ 255 ∷ []) 2 >>= from_hex) ≡ ok (10 ∷ 255 ∷ [])
from_hex-to_hex_example = from_hex-to_hex (10 ∷ 255 ∷ []) (omega arith, (omega arith, tt))

from_hex_cases_example : from_hex (b'0' ∷ b'x' ∷ []) ≡ err invalid_hex_character
from_hex_cases_example = from_hex_cases (b'0' ∷ b'x' ∷ []) (omega arith, (omega arith, tt))

abbrev words : List (List ℕ)
words = (b'a' ∷ b'b' ∷ []) ∷ [] ∷ (b'c' ∷ []) ∷ []

abbrev line : List ℕ
line = b'a' ∷ b'b' ∷ b',' ∷ b',' ∷ b'c' ∷ []

str_split-parts_example : str_split line b',' ≡ some (ok words)
str_split-parts_example = str_split-parts line b',' (omega arith)

str_split-str_join_example : str_split line b',' ≡ some (ok words)
str_split-str_join_example =
    str_split-str_join (b'a' ∷ b'b' ∷ []) ([] ∷ (b'c' ∷ []) ∷ []) b','
      ((refl, (refl, tt)), (tt, ((refl, tt), tt))) (omega arith)
      (str_join-joined words b',' (omega arith))

str_join-str_split_example : str_join words b',' ≡ ok line
str_join-str_split_example =
    str_join-str_split line b',' (omega arith) (str_split-parts line b',' (omega arith))

abbrev tabbed : List ℕ
tabbed = b'\t' ∷ b'H' ∷ b'\n' ∷ b'i' ∷ b'\n' ∷ b'\n' ∷ []

str_trim_parts_example :
    (front : List ℕ) × (back : List ℕ) × (tabbed ≡ front ++ (str_trim tabbed false ++ back))
    × All IsSpace front
    × All IsSpace back
    × IsTight (str_trim tabbed false)
    × (str_trim tabbed true ≡ map to_lower (str_trim tabbed false))
str_trim_parts_example = str_trim_parts tabbed (omega arith)
