-- ===== src/Strings/Join.antt =====
-- What `str_join` and `str_pad` return.
use serialization_cpp.Common.{
  le→ltb, ltb, Bool-cases, length, replicate, length-append, take-append, ℕ, zero, suc, ◌+◌, ◌-◌,
  ◌<◌, ◌≡◌, refl, sym, ap, ◌∙◌, inl, inr, List, [], ◌∷◌, ◌++◌, append_assoc, append-nil, arith,
}
use serialization_cpp.Common.Result.{ok}
use serialization_cpp.Strings.{npos, sub_size, join_loop, str_join, pad_loop, str_pad}

-- The parts with a delimiter behind each, and with one between each two.
abbrev pub ended : ℕ → List (List ℕ) → List ℕ
ended ch [] = []
ended ch (part ∷ input) = part ++ (ch ∷ ended ch input)

abbrev pub joined : ℕ → List (List ℕ) → List ℕ
joined ch [] = []
joined ch (part ∷ []) = part
joined ch (part ∷ part' ∷ input) = part ++ (ch ∷ joined ch (part' ∷ input))

join_loop-ended :
    (ch : ℕ) (input : List (List ℕ)) (result : List ℕ)
    → join_loop ch input result ≡ result ++ ended ch input
unfolding join_loop
join_loop-ended ch [] result = sym (append-nil result)
join_loop-ended ch (part ∷ input) result =
    join_loop-ended ch input (result ++ (part ++ (ch ∷ []))) ∙ simp append_assoc

pub ended-joined :
    (ch : ℕ) (part : List ℕ) (input : List (List ℕ))
    → ended ch (part ∷ input) ≡ joined ch (part ∷ input) ++ (ch ∷ [])
ended-joined ch part [] = refl
ended-joined ch part (part' ∷ input) =
    ap (λ t. part ++ (ch ∷ t)) (ended-joined ch part' input)
    ∙ sym (append_assoc part (ch ∷ joined ch (part' ∷ input)) (ch ∷ []))

-- The result is the parts with one delimiter between each two, and the empty text for no part, if the
-- text with the trailing delimiter is one that a std::string can hold.
pub str_join-joined :
    (input : List (List ℕ)) (ch : ℕ)
    → length (ended ch input) < npos
    → str_join input ch ≡ ok (joined ch input)
unfolding str_join
str_join-joined [] ch h = refl
str_join-joined (part ∷ input) ch h =
    let e = join_loop-ended ch (part ∷ input) [] ∙ ended-joined ch part input in
    let text = joined ch (part ∷ input) in
    let l : length (text ++ (ch ∷ [])) ≡ length text + 1 = length-append text (ch ∷ []) in
    let fits : length text + 1 < npos =
      omega (arith, l, ap length (ended-joined ch part input), h) in
    let cut : sub_size (length (text ++ (ch ∷ []))) 1 ≡ length text = omega (arith, l) in
    rw (e, cut, le→ltb (length (text ++ (ch ∷ []))) 0 (omega arith))
      (ap ok (take-append text (ch ∷ [])))

pad_loop-replicate :
    (rounds : ℕ) (input : List ℕ) → pad_loop rounds input ≡ input ++ replicate rounds b' '
unfolding pad_loop
pad_loop-replicate zero input = sym (append-nil input)
pad_loop-replicate (suc rounds) input =
    pad_loop-replicate rounds (input ++ (b' ' ∷ []))
    ∙ append_assoc input (b' ' ∷ []) (replicate rounds b' ')

-- Padding appends the blanks that are missing, and none to a text that is as long or longer.
pub str_pad-replicate :
    (input : List ℕ) (width : ℕ)
    → str_pad input width ≡ input ++ replicate (width - length input) b' '
unfolding str_pad
str_pad-replicate input width = elim (Bool-cases (ltb (length input) width)) [
  | inl short ↦ rw short (pad_loop-replicate (width - length input) input)
  | inr long ↦
      let none_missing : width - length input ≡ 0 = ground arith in
      rw (long, none_missing) (sym (append-nil input))
]
