-- ===== src/Strings/Parts.antt =====
-- The parts of a text between its delimiters, and the text that they make when they are joined.
use serialization_cpp.Common.{
  List, ℕ, [], ◌∷◌, ◌++◌, length, length-append, All, refl, ap, sym, ◌∙◌, ◌==◌, if◌then◌else◌,
  ==_refl, false, inl, inr, Bool-cases, ◌≢◌, ◌+◌, arith,
}
use serialization_cpp.Strings.Join.{ended, joined, ended-joined}
use serialization_cpp.Common.{
  ◌==◌, if◌then◌else◌, Bool-cases, ==_refl, length, All, length-append, ℕ, ◌+◌, ◌≡◌, refl, sym, ap,
  ◌∙◌, ◌≢◌, inl, inr, false, List, [], ◌∷◌, ◌++◌, arith,
}
use serialization_cpp.Common.{◌≡◌}

abbrev pub Lacks : ℕ → List ℕ → Type 0
Lacks ch = All (λ c. (c == ch) ≡ false)

abbrev begin : ℕ → List (List ℕ) → List (List ℕ)
begin c [] = (c ∷ []) ∷ []
begin c (part ∷ more) = (c ∷ part) ∷ more

-- The parts of a text.
abbrev pub parts : ℕ → List ℕ → List (List ℕ)
parts ch [] = [] ∷ []
parts ch (c ∷ text) = if c == ch then [] ∷ parts ch text else begin c (parts ch text)

begin-append :
    (c : ℕ) (text : List ℕ) (ps : List (List ℕ)) (more : List (List ℕ))
    → ps ≡ text ∷ more
    → begin c ps ≡ (c ∷ text) ∷ more
begin-append c text ps more e = rw e

parts-append :
    (ch : ℕ) (part rest : List ℕ)
    → Lacks ch part
    → parts ch (part ++ (ch ∷ rest)) ≡ part ∷ parts ch rest
parts-append ch [] rest h = rw (==_refl ch)
parts-append ch (c ∷ part) rest (hc, hs) = rw (hc, parts-append ch part rest hs)

pub parts_one : (ch : ℕ) (part : List ℕ) → Lacks ch part → parts ch part ≡ part ∷ []
parts_one ch [] h = refl
parts_one ch (c ∷ part) (hc, hs) = rw (hc, parts_one ch part hs)

pub parts-joined :
    (ch : ℕ) (part : List ℕ) (input : List (List ℕ))
    → All (Lacks ch) (part ∷ input)
    → parts ch (joined ch (part ∷ input)) ≡ part ∷ input
parts-joined ch part [] (h, _) = parts_one ch part h
parts-joined ch part (part' ∷ input) (h, hs) =
    rw (parts-append ch part (joined ch (part' ∷ input)) h, parts-joined ch part' input hs)

joined-begin : (ch c : ℕ) (ps : List (List ℕ)) → ps ≢ [] → joined ch (begin c ps) ≡ c ∷ joined ch ps
joined-begin ch c [] h = absurd (h refl)
joined-begin ch c (p ∷ []) h = refl
joined-begin ch c (p ∷ q ∷ ps) h = refl

joined-cons :
    (ch : ℕ) (p : List ℕ) (ps : List (List ℕ))
    → ps ≢ []
    → joined ch (p ∷ ps) ≡ p ++ (ch ∷ joined ch ps)
joined-cons ch p [] h = absurd (h refl)
joined-cons ch p (q ∷ ps) h = refl

begin-ne-nil : (c : ℕ) (ps : List (List ℕ)) → begin c ps ≢ []
begin-ne-nil c [] = λ e. cc
begin-ne-nil c (p ∷ ps) = λ e. cc

pub parts-ne-nil : (ch : ℕ) (text : List ℕ) → parts ch text ≢ []
parts-ne-nil ch [] = λ e. cc
parts-ne-nil ch (c ∷ text) = elim (Bool-cases (c == ch)) [
  | inl here ↦ rw here (λ e. cc)
  | inr other ↦ rw other (begin-ne-nil c (parts ch text))
]

pub joined-parts : (ch : ℕ) (text : List ℕ) → joined ch (parts ch text) ≡ text
joined-parts ch [] = refl
joined-parts ch (c ∷ text) = elim (Bool-cases (c == ch)) [
  | inl here ↦
      let same : c ≡ ch = ground arith in
      rw here (
        joined-cons ch [] (parts ch text) (parts-ne-nil ch text)
        ∙ ap (λ t. ch ∷ t) (joined-parts ch text)
        ∙ ap (λ x. x ∷ text) (sym same))
  | inr other ↦ rw other (
      joined-begin ch c (parts ch text) (parts-ne-nil ch text)
      ∙ ap (λ t. c ∷ t) (joined-parts ch text))
]

pub ended_size :
    (ch : ℕ) (ps : List (List ℕ)) → ps ≢ [] → length (ended ch ps) ≡ length (joined ch ps) + 1
ended_size ch [] h = absurd (h refl)
ended_size ch (p ∷ ps) h =
    ap length (ended-joined ch p ps) ∙ length-append (joined ch (p ∷ ps)) (ch ∷ [])
