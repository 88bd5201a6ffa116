-- ===== src/Deserializer/Reads.antt =====
-- The abstract view of a reader: the bytes that it has not read. A read that takes some bytes off
-- their front, whatever follows them.
use serialization_cpp.Common.{
  refl, true, false, false, if◌then◌else◌, length, drop, All, length-append, length-drop,
  drop-append, drop-drop, ℕ, ◌+◌, ◌^◌, ◌≤◌, ◌<◌, ◌≡◌, sym, ap, ◌∙◌, Bool, List, [], ◌∷◌, ◌++◌,
  append_assoc, arith,
}
use serialization_cpp.Common.Bits.{IsByte}
use serialization_cpp.Common.Result.{ok}
use serialization_cpp.Common.Run.{Run, pure, ◌>>=◌}
use serialization_cpp.Serializer.Writes.{joined}
use serialization_cpp.Deserializer.{advance, repeat, Deserializer}
use native.Mathlib.Nat.{mod-eq_of_lt}

pub record Ready (d : Deserializer) : Type 0 where
  pub inside : d.offset ≤ length d.buffer
  pub measured : length d.buffer < 2 ^ 64
  pub all_bytes : All IsByte d.buffer

-- The bytes not read yet.
abbrev pub unread : Deserializer → List ℕ
unread d = drop d.offset d.buffer

abbrev pub moved : ℕ → Deserializer → Deserializer
moved count d = record d { offset = d.offset + count }

-- Where these bytes stand in front of what is unread, the read returns this value and moves the offset
-- behind them.
abbrev pub Reads {ℓ} : {A : Type ℓ} → Run Deserializer A → List ℕ → A → Type ℓ
Reads read bytes' a =
    (d : Deserializer) (rest : List ℕ)
    → Ready d
    → unread d ≡ bytes' ++ rest
    → read d ≡ (ok a, moved (length bytes') d)

-- The same of a method with a `peek` flag, which leaves the offset if it is set.
abbrev pub ReadsOrPeeks {ℓ} : {A : Type ℓ} → (Bool → Run Deserializer A) → List ℕ → A → Type ℓ
ReadsOrPeeks read bytes' a =
    (peek : Bool) (d : Deserializer) (rest : List ℕ)
    → Ready d
    → unread d ≡ bytes' ++ rest
    → read peek d ≡ (ok a, if peek then d else moved (length bytes') d)

pub taken :
    (d : Deserializer) (bytes' rest : List ℕ)
    → unread d ≡ bytes' ++ rest
    → d.offset ≤ length d.buffer
    → d.offset + length bytes' ≤ length d.buffer
taken d bytes' rest e h =
    omega (arith, length-drop d.offset d.buffer, ap length e, length-append bytes' rest)

pub Ready-moved :
    (d : Deserializer) (bytes' rest : List ℕ)
    → Ready d
    → unread d ≡ bytes' ++ rest
    → Ready (moved (length bytes') d)
Ready-moved d bytes' rest h e = record {
  inside = taken d bytes' rest e h.inside;
  measured = h.measured;
  all_bytes = h.all_bytes;
}

pub unread-moved :
    (d : Deserializer) (bytes' rest : List ℕ)
    → unread d ≡ bytes' ++ rest
    → unread (moved (length bytes') d) ≡ rest
unread-moved d bytes' rest e =
    sym (drop-drop (length bytes') d.offset d.buffer)
    ∙ ap (drop (length bytes')) e
    ∙ drop-append bytes' rest

pub moved-moved : (m n : ℕ) (d : Deserializer) → moved n (moved m d) ≡ moved (m + n) d
moved-moved m n d =
    let e : d.offset + m + n ≡ d.offset + (m + n) = omega arith in λ i. record d { offset = e i }

pub moved-zero : (d : Deserializer) → moved 0 d ≡ d
moved-zero d = let e : d.offset + 0 ≡ d.offset = omega arith in λ i. record d { offset = e i }

pub Reads-pure {ℓ} : {A : Type ℓ} (a : A) → Reads (pure a) [] a
Reads-pure a d rest h e = let m = sym (moved-zero d) in λ i. (ok a, m i)

pub Reads->>= {ℓ κ} :
    {A : Type ℓ} {B : Type κ} (m : Run Deserializer A) (f : A → Run Deserializer B) (xs ys : List ℕ)
    (a : A) (b : B)
    → Reads m xs a
    → Reads (f a) ys b
    → Reads (m >>= f) (xs ++ ys) b
Reads->>= m f xs ys a b hm hf d rest h e =
    let e' = e ∙ append_assoc xs ys rest in
    let first = hm d (ys ++ rest) h e' in
    let second =
      hf (moved (length xs) d) rest (Ready-moved d xs (ys ++ rest) h e')
        (unread-moved d xs (ys ++ rest) e') in
    let l = length-append xs ys in
    let all : moved (length ys) (moved (length xs) d) ≡ moved (length (xs ++ ys)) d =
      moved-moved (length xs) (length ys) d ∙ λ i. record d { offset = d.offset + sym l i } in
    rw first (second ∙ λ i. (ok b, all i))

pub Reads-map {ℓ κ} :
    {A : Type ℓ} {B : Type κ} (m : Run Deserializer A) (g : A → B) (xs : List ℕ) (a : A)
    → Reads m xs a
    → Reads (m >>= λ x. pure (g x)) xs (g a)
Reads-map m g xs a hm d rest h e = rw (hm d rest h e)

-- One read for each element.
pub Reads-repeat {ℓ} :
    {A : Type ℓ} (read : Run Deserializer A) (encode : A → List ℕ) (xs : List A)
    → All (λ x. Reads read (encode x) x) xs
    → Reads (repeat (length xs) read) (joined encode xs) xs
unfolding repeat
Reads-repeat read encode [] h = Reads-pure []
Reads-repeat {A} read encode (x ∷ xs) (hx, hs) =
    let later = λ (y : A). repeat (length xs) read >>= (λ ys. pure (y ∷ ys)) in
    Reads->>= read later (encode x) (joined encode xs) x (x ∷ xs) hx (
      Reads-map (repeat (length xs) read) (λ ys. x ∷ ys) (joined encode xs) xs
        (Reads-repeat read encode xs hs))

-- A method with its flag down.
pub Reads-false {ℓ} :
    {A : Type ℓ} (read : Bool → Run Deserializer A) (bytes' : List ℕ) (a : A)
    → ReadsOrPeeks read bytes' a
    → Reads (read false) bytes' a
Reads-false read bytes' a h d rest r e = h false d rest r e

pub advance-moved :
    (peek : Bool) (count : ℕ) (d : Deserializer)
    → d.offset + count < 2 ^ 64
    → advance peek count d ≡ (if peek then d else moved count d)
advance-moved true count d h = refl
advance-moved false count d h = λ i. record d { offset = mod-eq_of_lt h i }
