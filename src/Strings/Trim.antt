-- ===== src/Strings/Trim.antt =====
-- `str_trim` cuts off exactly the outer whitespace.
use serialization_cpp.Common.{
  if◌then◌else◌, Bool-cases, length, take, drop, ℕ, zero, suc, ◌+◌, ◌-◌, ◌%◌, ◌^◌, ◌≤◌, ◌<◌, ◌≡◌,
  refl, sym, ap, ◌∙◌, inl, inr, Bool, List, [], ◌∷◌, map, arith,
}
use serialization_cpp.Strings.{npos, is_whitespace, last_not_of, first_not_of, to_lower, str_trim}

-- The text without the whitespace in front of it, and without that behind it.
abbrev pub trim_front : List ℕ → List ℕ
trim_front [] = []
trim_front (c ∷ rest) = if is_whitespace c then trim_front rest else c ∷ rest

abbrev pub keep : ℕ → List ℕ → List ℕ
keep c [] = if is_whitespace c then [] else c ∷ []
keep c (d ∷ more) = c ∷ d ∷ more

abbrev pub trim_back : List ℕ → List ℕ
trim_back [] = []
trim_back (c ∷ rest) = keep c (trim_back rest)

-- Where the last character that is kept stands.
abbrev place : List ℕ → ℕ → ℕ → ℕ
place [] i best = best
place (d ∷ more) i best = i + length more

place-keep :
    (c : ℕ) (kept : List ℕ) (i best : ℕ)
    → place kept (i + 1) (if is_whitespace c then best else i) ≡ place (keep c kept) i best
place-keep c [] i best = elim (Bool-cases (is_whitespace c)) [
  | inl space ↦ rw space
  | inr other ↦ rw other (omega arith)
]
place-keep c (d ∷ more) i best = omega arith

last_not_of-place :
    (text : List ℕ) (i best : ℕ) → last_not_of text i best ≡ place (trim_back text) i best
unfolding last_not_of
last_not_of-place [] i best = refl
last_not_of-place (c ∷ rest) i best =
    last_not_of-place rest (i + 1) (if is_whitespace c then best else i)
    ∙ place-keep c (trim_back rest) i best

take-keep :
    (c : ℕ) (kept rest : List ℕ)
    → take (length kept) rest ≡ kept
    → take (length (keep c kept)) (c ∷ rest) ≡ keep c kept
take-keep c [] rest h = elim (Bool-cases (is_whitespace c)) [
  | inl space ↦ rw space
  | inr other ↦ rw other
]
take-keep c (d ∷ more) rest h = ap (λ t. c ∷ t) h

take-trim_back : (text : List ℕ) → take (length (trim_back text)) text ≡ trim_back text
take-trim_back [] = refl
take-trim_back (c ∷ rest) = take-keep c (trim_back rest) rest (take-trim_back rest)

length-keep : (c : ℕ) (kept : List ℕ) → length (keep c kept) ≤ suc (length kept)
length-keep c [] = ground arith
length-keep c (d ∷ more) = omega arith

length-trim_back : (text : List ℕ) → length (trim_back text) ≤ length text
length-trim_back [] = omega arith
length-trim_back (c ∷ rest) = omega (arith, length-keep c (trim_back rest), length-trim_back rest)

-- The first `erase`.
kept_length :
    (kept : List ℕ) → length kept < 2 ^ 64 → (place kept 0 npos + 1) % 2 ^ 64 ≡ length kept
kept_length [] h = refl
kept_length (d ∷ more) h = omega arith

erase_back :
    (text : List ℕ)
    → length text < npos
    → take ((last_not_of text 0 npos + 1) % 2 ^ 64) text ≡ trim_back text
erase_back text h =
    rw
      (
        last_not_of-place text 0 npos,
        kept_length (trim_back text) (omega (arith, length-trim_back text)),
      )
      (take-trim_back text)

-- The second `erase`.
first_not_of-ge : (text : List ℕ) (i : ℕ) → i + length text ≤ npos → i ≤ first_not_of text i
unfolding first_not_of
first_not_of-ge [] i h = omega arith
first_not_of-ge (c ∷ rest) i h = elim (Bool-cases (is_whitespace c)) [
  | inl space ↦ rw space (omega (arith, first_not_of-ge rest (i + 1) (omega arith)))
  | inr other ↦ rw other (omega arith)
]

drop_nothing : (n : ℕ) → drop {A = ℕ} n [] ≡ []
drop_nothing zero = refl
drop_nothing (suc n) = refl

drop-first_not_of :
    (text : List ℕ) (i : ℕ)
    → i + length text ≤ npos
    → drop (first_not_of text i - i) text ≡ trim_front text
unfolding first_not_of
drop-first_not_of [] i h = drop_nothing (npos - i)
drop-first_not_of (c ∷ rest) i h = elim (Bool-cases (is_whitespace c)) [
  | inl space ↦
      let p = first_not_of-ge rest (i + 1) (omega arith) in
      let e : first_not_of rest (i + 1) - i ≡ suc (first_not_of rest (i + 1) - (i + 1)) =
        omega (arith, p) in
      rw (space, e) (drop-first_not_of rest (i + 1) (omega arith))
  | inr other ↦ let e : i - i ≡ 0 = omega arith in rw (other, e)
]

erase_front_lem :
    (text : List ℕ) → length text < npos → drop (first_not_of text 0) text ≡ trim_front text
erase_front_lem text h =
    let e : first_not_of text 0 - 0 ≡ first_not_of text 0 = omega arith in
    ap (λ n. drop n text) (sym e) ∙ drop-first_not_of text 0 (omega arith)

-- The call in terms of the two trims.
pub str_trim-trim :
    (text : List ℕ) (to_lowercase : Bool)
    → length text < npos
    → str_trim text to_lowercase ≡ (
        if to_lowercase
        then map to_lower (trim_front (trim_back text))
        else trim_front (trim_back text))
unfolding str_trim
str_trim-trim text to_lowercase h =
    let short : length (trim_back text) < npos = omega (arith, length-trim_back text) in
    rw (erase_back text h, erase_front_lem (trim_back text) short)
