-- ===== src/Strings.antt =====
-- src/string_helper.cpp: `str_join`, `str_pad`, `str_split` and `str_trim`. A std::string is a list of
-- bytes; the members of std::string that they call come first.
pub mod Join
pub mod Parts
pub mod Split
pub mod Trim
pub mod Outer
use serialization_cpp.Common.{
  ◌||◌, ltb, leb, ◌==◌, if◌then◌else◌, length, take, drop, ℕ, zero, suc, ◌+◌, ◌-◌, ◌%◌, ◌^◌, min,
  Bool, true, false, ◌&&◌, Option, none, some, List, [], ◌∷◌, ◌++◌, map,
}
use serialization_cpp.Common.Result.{◌>>=◌, position_out_of_range, Result, ok, err, undefined}

-- `std::string::npos`.
abbrev pub npos : ℕ
npos = 2 ^ 64 - 1

-- A difference in `size_t`.
abbrev pub sub_size : ℕ → ℕ → ℕ
sub_size a b = (a + 2 ^ 64 - b) % 2 ^ 64

-- `substr`: what there is of `count` characters from `position` on.
abbrev pub substr : List ℕ → ℕ → ℕ → Result (List ℕ)
substr text position count =
    if ltb (length text) position
    then err position_out_of_range
    else ok (take count (drop position text))

-- `find(ch, position)`: the list is the text from `i` on.
find_from : ℕ → List ℕ → ℕ → ℕ
find_from ch [] i = npos
find_from ch (c ∷ rest) i = if c == ch then i else find_from ch rest (i + 1)

pub find : ℕ → List ℕ → ℕ → ℕ
find ch text position = find_from ch (drop position text) position

-- `result += part + ch`, for each part.
join_loop : ℕ → List (List ℕ) → List ℕ → List ℕ
join_loop ch [] result = result
join_loop ch (part ∷ input) result = join_loop ch input (result ++ (part ++ (ch ∷ [])))

-- The trailing delimiter is cut off; the size less 1 wraps around on an empty result.
unfoldable pub str_join : List (List ℕ) → ℕ → Result (List ℕ)
unfolding join_loop
str_join input ch =
    let result = join_loop ch input [] in substr result 0 (sub_size (length result) 1)

-- `input += " "`, so many times.
pad_loop : ℕ → List ℕ → List ℕ
pad_loop zero input = input
pad_loop (suc rounds) input = pad_loop rounds (input ++ (b' ' ∷ []))

unfoldable pub str_pad : List ℕ → ℕ → List ℕ
unfolding pad_loop
str_pad input width =
    if ltb (length input) width then pad_loop (width - length input) input else input

-- `while (pos != npos)` and the last part. `none` means that the fuel ran out. `split_last` is the
-- `substr` behind the loop.
split_last : List ℕ → ℕ → ℕ → List (List ℕ) → Result (List (List ℕ))
split_last input initial_pos pos result = do
  part ← substr input initial_pos (sub_size (min pos (length input)) initial_pos + 1)
  ok (result ++ (part ∷ []))

split_loop : ℕ → ℕ → List ℕ → ℕ → ℕ → List (List ℕ) → Option (Result (List (List ℕ)))
split_loop zero ch input initial_pos pos result = none
split_loop (suc fuel) ch input initial_pos pos result = elim (pos == npos) [
  | true ↦ some (split_last input initial_pos pos result)
  | false ↦ elim (substr input initial_pos (sub_size pos initial_pos)) [
    | ok part ↦ split_loop fuel ch input (pos + 1) (find ch input (pos + 1)) (result ++ (part ∷ []))
    | err e ↦ some (err e)
    | undefined ↦ some undefined
  ]
]

-- Each round takes at least the delimiter, so one round more than there are characters is enough.
unfoldable pub str_split : List ℕ → ℕ → Option (Result (List (List ℕ)))
unfolding split_loop split_last find find_from
str_split input ch = split_loop (length input + 1) ch input 0 (find ch input 0) []

-- The characters of "\t\n\r\f\v". A blank is not among them.
abbrev pub is_whitespace : ℕ → Bool
is_whitespace c = c == 9 || (c == 10 || (c == 13 || (c == 12 || c == 11)))

-- `find_last_not_of` and `find_first_not_of` over the text from `i` on.
last_not_of : List ℕ → ℕ → ℕ → ℕ
last_not_of [] i best = best
last_not_of (c ∷ rest) i best = last_not_of rest (i + 1) (if is_whitespace c then best else i)

first_not_of : List ℕ → ℕ → ℕ
first_not_of [] i = npos
first_not_of (c ∷ rest) i = if is_whitespace c then first_not_of rest (i + 1) else i

-- `erase(position)` and `erase(0, count)`.
abbrev erase_from : List ℕ → ℕ → List ℕ
erase_from text position = take position text

abbrev erase_front : List ℕ → ℕ → List ℕ
erase_front text count = drop count text

-- `std::tolower` on ASCII.
abbrev pub to_lower : ℕ → ℕ
to_lower c = if leb b'A' c && leb c b'Z' then c + 32 else c

unfoldable pub str_trim : List ℕ → Bool → List ℕ
unfolding last_not_of first_not_of
str_trim str to_lowercase =
    let back = erase_from str ((last_not_of str 0 npos + 1) % 2 ^ 64) in
    let front = erase_front back (first_not_of back 0) in
    if to_lowercase then map to_lower front else front
