-- ===== src/Strings/Outer.antt =====
-- What the trimmed text is, with no mention of how it is found.
use serialization_cpp.Common.{
  Bool-cases, length, All, length-append, ℕ, ◌+◌, ◌<◌, ◌≡◌, refl, sym, ap, ◌∙◌, inl, inr, true,
  false, List, [], ◌∷◌, ◌++◌, map, append_assoc, arith,
}
use serialization_cpp.Strings.{npos, is_whitespace, to_lower, str_trim}
use serialization_cpp.Strings.Trim.{trim_front, keep, trim_back, str_trim-trim}

abbrev pub IsSpace : ℕ → Type 0
IsSpace c = is_whitespace c ≡ true

abbrev pub last : ℕ → List ℕ → ℕ
last c [] = c
last c (d ∷ rest) = last d rest

-- No whitespace at either end.
abbrev pub IsTight : List ℕ → Type 0
IsTight [] = Unit {0}
IsTight (c ∷ rest) = (is_whitespace c ≡ false) × (is_whitespace (last c rest) ≡ false)

-- No whitespace at the end.
abbrev EndsTight : List ℕ → Type 0
EndsTight [] = Unit {0}
EndsTight (c ∷ rest) = is_whitespace (last c rest) ≡ false

keep-EndsTight : (c : ℕ) (kept : List ℕ) → EndsTight kept → EndsTight (keep c kept)
keep-EndsTight c [] h = elim (Bool-cases (is_whitespace c)) [
  | inl space ↦ rw space tt
  | inr other ↦ rw other other
]
keep-EndsTight c (d ∷ more) h = h

trim_back-EndsTight : (text : List ℕ) → EndsTight (trim_back text)
trim_back-EndsTight [] = tt
trim_back-EndsTight (c ∷ rest) = keep-EndsTight c (trim_back rest) (trim_back-EndsTight rest)

keep_apart :
    (c : ℕ) (kept back : List ℕ)
    → All IsSpace back
    → (more : List ℕ) × (c ∷ (kept ++ back) ≡ keep c kept ++ more) × All IsSpace more
keep_apart c [] back h = elim (Bool-cases (is_whitespace c)) [
  | inl space ↦ (c ∷ back, rw space, (space, h))
  | inr other ↦ (back, rw other, h)
]
keep_apart c (d ∷ more) back h = (back, refl, h)

trim_back_apart :
    (text : List ℕ) → (back : List ℕ) × (text ≡ trim_back text ++ back) × All IsSpace back
trim_back_apart [] = ([], refl, tt)
trim_back_apart (c ∷ rest) =
    let (back, e, h) = trim_back_apart rest in
    let (more, e', h') = keep_apart c (trim_back rest) back h in (more, ap (λ t. c ∷ t) e ∙ e', h')

EndsTight-tail : (c : ℕ) (rest : List ℕ) → EndsTight (c ∷ rest) → EndsTight rest
EndsTight-tail c [] h = tt
EndsTight-tail c (d ∷ rest) h = h

trim_front_apart :
    (text : List ℕ)
    → EndsTight text
    → (front : List ℕ) × (text ≡ front ++ trim_front text)
      × All IsSpace front
      × IsTight (trim_front text)
trim_front_apart [] h = ([], refl, tt, tt)
trim_front_apart (c ∷ rest) h = elim (Bool-cases (is_whitespace c)) [
  | inl space ↦
      let (front, e, hf, tight) = trim_front_apart rest (EndsTight-tail c rest h) in
      (c ∷ front, rw space (ap (λ t. c ∷ t) e), (space, hf), rw space tight)
  | inr other ↦ ([], rw other, tt, rw other (other, h))
]

-- A text that a std::string can hold is some whitespace, the trimmed text and some whitespace, and the
-- trimmed text neither begins nor ends with whitespace. Whitespace is tab, line feed, carriage return,
-- form feed and vertical tab. With the flag the trimmed text is then put in lower case.
pub str_trim_parts :
    (text : List ℕ)
    → length text < npos
    → (front : List ℕ) × (back : List ℕ) × (text ≡ front ++ (str_trim text false ++ back))
      × All IsSpace front
      × All IsSpace back
      × IsTight (str_trim text false)
      × (str_trim text true ≡ map to_lower (str_trim text false))
str_trim_parts text h =
    let (back, eb, hb) = trim_back_apart text in
    let (front, ef, hf, tight) = trim_front_apart (trim_back text) (trim_back-EndsTight text) in
    let same = str_trim-trim text false h in
    let whole = eb ∙ ap (λ t. t ++ back) ef ∙ append_assoc front _ back in
    (
      front,
      back,
      rw same whole,
      hf,
      hb,
      rw same tight,
      str_trim-trim text true h ∙ ap (map to_lower) (sym same),
    )

keep_snoc : (c : ℕ) (text : List ℕ) → keep c (text ++ (b' ' ∷ [])) ≡ c ∷ (text ++ (b' ' ∷ []))
keep_snoc c [] = refl
keep_snoc c (d ∷ text) = refl

trim_back_snoc : (text : List ℕ) → trim_back (text ++ (b' ' ∷ [])) ≡ text ++ (b' ' ∷ [])
trim_back_snoc [] = refl
trim_back_snoc (c ∷ text) = rw (trim_back_snoc text) (keep_snoc c text)

-- Blanks are not trimmed: a text with a blank at either end, which a std::string can hold, is returned
-- as it is.
pub str_trim_blanks :
    (text : List ℕ)
    → length text + 2 < npos
    → str_trim (b' ' ∷ (text ++ (b' ' ∷ []))) false ≡ b' ' ∷ (text ++ (b' ' ∷ []))
str_trim_blanks text h =
    let l : length (text ++ (b' ' ∷ [])) ≡ length text + 1 = length-append text (b' ' ∷ []) in
    str_trim-trim _ false (omega (arith, l)) ∙ ap trim_front (trim_back_snoc (b' ' ∷ text))
