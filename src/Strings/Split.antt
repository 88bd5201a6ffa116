-- ===== src/Strings/Split.antt =====
-- `str_split` cuts at every delimiter, and undoes `str_join`.
use serialization_cpp.Common.{
  ltb, ◌==◌, le→ltb, Bool-cases, length, take, drop, All, length-append, length-drop, drop-drop, ℕ,
  zero, suc, ◌+◌, ◌-◌, ◌≤◌, ◌<◌, min, ◌≡◌, refl, sym, ap, ◌∙◌, inl, inr, false, some, List, [], ◌∷◌,
  ◌++◌, append_assoc, arith,
}
use serialization_cpp.Common.Result.{ok}
use serialization_cpp.Strings.{
  npos, sub_size, substr, find_from, find, str_join, split_last, split_loop, str_split,
}
use serialization_cpp.Strings.Join.{ended, joined, ended-joined, str_join-joined}
use serialization_cpp.Strings.Parts.{
  parts, Lacks, parts-joined, parts-ne-nil, joined-parts, ended_size,
}

-- Where the search finds nothing there is one part; where it finds the delimiter, what stands before
-- it is the first part, and the others are those of the text behind it.
data Search (ch : ℕ) (rest : List ℕ) (i : ℕ) : Type 0 where
  missing : find_from ch rest i ≡ npos → parts ch rest ≡ rest ∷ [] → Search ch rest i
  found :
      (k : ℕ)
      → k < length rest
      → find_from ch rest i ≡ i + k
      → parts ch rest ≡ take k rest ∷ parts ch (drop (suc k) rest)
      → Search ch rest i

find_from-Search : (ch : ℕ) (rest : List ℕ) (i : ℕ) → Search ch rest i
unfolding find_from
find_from-Search ch [] i = missing refl refl
find_from-Search ch (c ∷ rest) i = elim (Bool-cases (c == ch)) [
  | inl here ↦ found 0 (omega arith) (rw here (omega arith)) (rw here)
  | inr other ↦ elim (find_from-Search ch rest (i + 1)) [
    | missing e p ↦ missing (rw other e) (rw (other, p))
    | found k h e p ↦ found (suc k) (omega arith) (rw other (e ∙ omega arith)) (rw (other, p))
  ]
]

substr_inside :
    (text : List ℕ) (position count : ℕ)
    → position ≤ length text
    → substr text position count ≡ ok (take count (drop position text))
substr_inside text position count h = rw (le→ltb _ _ h)

take_more : (xs : List ℕ) (n : ℕ) → length xs ≤ n → take n xs ≡ xs
take_more [] zero h = refl
take_more [] (suc n) h = refl
take_more (x ∷ xs) zero h = absurd (omega arith)
take_more (x ∷ xs) (suc n) h = rw (take_more xs n (omega arith))

split_last_lem :
    (input : List ℕ) (i : ℕ) (result : List (List ℕ))
    → i ≤ length input
    → length input < npos
    → split_last input i npos result ≡ ok (result ++ (drop i input ∷ []))
unfolding split_last
split_last_lem input i result h s =
    let least : min npos (length input) ≡ length input = omega arith in
    let n : sub_size (length input) i + 1 ≡ length input - i + 1 = omega arith in
    let whole : take (length input - i + 1) (drop i input) ≡ drop i input =
      take_more (drop i input) _ (omega (arith, length-drop i input)) in
    rw (least, n, substr_inside input i (length input - i + 1) h, whole)

split_loop_end :
    (fuel ch : ℕ) (input : List ℕ) (i : ℕ) (result : List (List ℕ))
    → i ≤ length input
    → length input < npos
    → split_loop (suc fuel) ch input i npos result ≡ some (ok (result ++ (drop i input ∷ [])))
unfolding split_loop
split_loop_end fuel ch input i result h s = ap some (split_last_lem input i result h s)

split_loop_round :
    (fuel ch : ℕ) (input : List ℕ) (i k : ℕ) (result : List (List ℕ))
    → i + k < length input
    → length input < npos
    → split_loop (suc fuel) ch input i (i + k) result
      ≡ split_loop fuel ch input
          (i + k + 1)
          (find ch input (i + k + 1))
          (result ++ (take k (drop i input) ∷ []))
unfolding split_loop
split_loop_round fuel ch input i k result h s =
    let more : (i + k == npos) ≡ false = ground arith in
    let n : sub_size (i + k) i ≡ k = omega arith in
    let inside : ltb (length input) i ≡ false = le→ltb _ _ (omega arith) in
    rw (more, split_loop) (rw (n, inside))

-- The loop, from behind any delimiter on, with enough fuel for what is left.
split_loop_lem :
    (fuel ch : ℕ) (input : List ℕ) (i : ℕ) (result : List (List ℕ))
    → i ≤ length input
    → length input < npos
    → length input - i < fuel
    → split_loop fuel ch input i (find ch input i) result
      ≡ some (ok (result ++ parts ch (drop i input)))
unfolding find
split_loop_lem zero ch input i result h s f = absurd (omega arith)
split_loop_lem (suc fuel) ch input i result h s f = elim (find_from-Search ch (drop i input) i) [
  | missing e p ↦ rw (e, p) (split_loop_end fuel ch input i result h s)
  | found k l e p ↦
      let inside : i + k < length input = omega (arith, length-drop i input) in
      let part = take k (drop i input) in
      let d : drop (suc k) (drop i input) ≡ drop (i + k + 1) input =
        drop-drop (suc k) i input ∙ ap (λ n. drop n input) (omega arith) in
      rw (e, p, d)
        (split_loop_round fuel ch input i k result inside s
          ∙ split_loop_lem fuel ch input (i + k + 1) (result ++ (part ∷ [])) (omega arith) s
              (omega arith)
          ∙ ap (λ t. some (ok t))
              (append_assoc result (part ∷ []) (parts ch (drop (i + k + 1) input))))
]

-- On a text that a std::string can hold the call ends, throws nothing and returns the text cut at every
-- delimiter.
pub str_split-parts :
    (input : List ℕ) (ch : ℕ)
    → length input < npos
    → str_split input ch ≡ some (ok (parts ch input))
unfolding str_split
str_split-parts input ch s =
    split_loop_lem (length input + 1) ch input 0 [] (omega arith) s (omega arith)

-- Joining some parts and splitting the result at the same delimiter gives the parts back, if there is a
-- part, none holds the delimiter, and a std::string can hold them.
pub str_split-str_join :
    (part : List ℕ) (input : List (List ℕ)) (ch : ℕ) {text : List ℕ}
    → All (Lacks ch) (part ∷ input)
    → length (ended ch (part ∷ input)) < npos
    → str_join (part ∷ input) ch ≡ ok text
    → str_split text ch ≡ some (ok (part ∷ input))
str_split-str_join part input ch {text} h s e =
    let written : ok text ≡ ok (joined ch (part ∷ input)) =
      sym e ∙ str_join-joined (part ∷ input) ch s in
    let same : text ≡ joined ch (part ∷ input) = cc in
    let n = ap length (ended-joined ch part input) in
    let l = length-append (joined ch (part ∷ input)) (ch ∷ []) in
    rw same (
      str_split-parts (joined ch (part ∷ input)) ch (omega (arith, n, l, s))
      ∙ ap (λ ps. some (ok ps)) (parts-joined ch part input h))

-- Splitting a text and joining the parts with the same delimiter gives the text back, whatever it
-- holds, if a std::string can hold it and one more character.
pub str_join-str_split :
    (text : List ℕ) (ch : ℕ) {ps : List (List ℕ)}
    → length text + 1 < npos
    → str_split text ch ≡ some (ok ps)
    → str_join ps ch ≡ ok text
str_join-str_split text ch {ps} s e =
    let found : some (ok ps) ≡ some (ok (parts ch text)) =
      sym e ∙ str_split-parts text ch (omega arith) in
    let same : ps ≡ parts ch text = cc in
    let size : length (ended ch (parts ch text)) < npos = omega (
      arith,
      ended_size ch (parts ch text) (parts-ne-nil ch text),
      ap length (joined-parts ch text),
    ) in
    rw same (str_join-joined (parts ch text) ch size ∙ ap ok (joined-parts ch text))
