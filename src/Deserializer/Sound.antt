-- ===== src/Deserializer/Sound.antt =====
-- Reads of a queue of bytes, whose answers have the properties of their types.
use serialization_cpp.Common.{
  List, ℕ, refl, length, All, All-drop, All-take, length-take, take, Bool, true, false, ◌<◌, ◌≤◌,
  ◌^◌, ◌==◌, ◌&&◌, ◌+◌, Bool-cases, inl, inr, ltb, leb, le→ltb, leb→le, arith, ◌≡◌, All-reverse,
  length-reverse, zero, suc,
}
use serialization_cpp.Common.Bits.{IsByte}
use serialization_cpp.Common.Result.{Result, ok, err, undefined}
use serialization_cpp.Common.Run.{Run, proceed}
use serialization_cpp.Deserializer.Queue.{Queue, taken_off, times, given_back}
use serialization_cpp.Pack.{Layout}
use serialization_cpp.Pack.Memory.{ordered}
use serialization_cpp.Pack.Native.{unsigned, le_value-lt}
use serialization_cpp.Varint.{modulus}
use serialization_cpp.Varint.Loop.{marked_run}
use native.Mathlib.Nat.{mod-lt, one-le-pow}
use serialization_cpp.Deserializer.Queue

-- After a success on bytes: the answer has the property, and bytes are left.
abbrev pub Sound {ℓ κ} : {A : Type ℓ} → (A → Type κ) → Result A × Queue → Type κ
Sound P (ok a, q) = P a × All IsByte q
Sound P (err e, q) = Unit
Sound P (undefined, q) = Unit

abbrev pub AnswersWith {ℓ κ} : {A : Type ℓ} → (A → Type κ) → Run Queue A → Type κ
AnswersWith P read = (q : Queue) → All IsByte q → Sound P (read q)

pub proceed-Sound {ℓ κ μ ν} :
    {A : Type ℓ} {B : Type κ} (P : A → Type μ) (R : B → Type ν) (x : Result A × Queue)
    (f : A → Run Queue B)
    → Sound P x
    → ((a : A) → P a → AnswersWith R (f a))
    → Sound R (proceed x f)
proceed-Sound P R (ok a, q) f (p, left) h = h a p q left
proceed-Sound P R (err e, q) f s h = tt
proceed-Sound P R (undefined, q) f s h = tt

pub taken_off-IsByte :
    (peek : Bool) (count : ℕ) (q : Queue) → All IsByte q → All IsByte (taken_off peek count q)
taken_off-IsByte true count q h = h
taken_off-IsByte false count q h = All-drop IsByte count q h

pub ordered-IsByte :
    (be : Bool) (bs : List ℕ)
    → All IsByte bs
    → All IsByte (ordered be bs) × (length (ordered be bs) ≡ length bs)
ordered-IsByte true bs h = (All-reverse IsByte bs h, length-reverse bs)
ordered-IsByte false bs h = (h, refl)

-- A native integer is below the bound of its type.
pub unsigned-Sound :
    (n : ℕ) (h : n ≤ 64) (be peek : Bool)
    → AnswersWith (λ v. v < 256 ^ n) (Queue.fixed (unsigned n h) be peek)
unsigned-Sound n h be peek q left = elim (Bool-cases (ltb (length q) n)) [
  | inl short ↦ rw short tt
  | inr whole ↦
      let (all_bytes, size) = ordered-IsByte be (take n q) (All-take IsByte n q left) in
      let count : length (ordered be (take n q)) ≡ n =
        ground (arith, size, length-take n q, whole) in
      rw whole (
        rw count at (le_value-lt (ordered be (take n q)) all_bytes),
        taken_off-IsByte peek n q left,
      )
]

-- Any layout's value.
pub fixed-Sound :
    (T : Layout) (be peek : Bool) → AnswersWith (λ v. Unit {0}) (Queue.fixed T be peek)
fixed-Sound T be peek q left = elim (Bool-cases (ltb (length q) T.size)) [
  | inl short ↦ rw short tt
  | inr whole ↦ rw whole (tt, taken_off-IsByte peek T.size q left)
]

-- Some bytes, as many as asked for.
abbrev pub AreBytes : ℕ → List ℕ → Type 0
AreBytes count bs = (length bs ≡ count) × All IsByte bs

pub bytes-Sound : (count : ℕ) (peek : Bool) → AnswersWith (AreBytes count) (Queue.bytes count peek)
bytes-Sound count peek q left = elim (Bool-cases (leb count (length q))) [
  | inl whole ↦
      let size : length (take count q) ≡ count =
        ground (arith, length-take count q, leb→le _ _ whole) in
      rw whole ((size, All-take IsByte count q left), taken_off-IsByte peek count q left)
  | inr short ↦ rw short tt
]

pub varint-Sound :
    (size : ℕ) (peek : Bool) → AnswersWith (λ v. v < modulus size) (Queue.varint size peek)
varint-Sound size peek q left =
    let all : ltb (length q) 0 ≡ false = le→ltb _ 0 (omega arith) in
    elim (Bool-cases (leb 10 (marked_run q) && ltb 10 (length q))) [
      | inl wide ↦ rw (all, wide) tt
      | inr narrow ↦ elim (Bool-cases (marked_run q == length q)) [
        | inl cut ↦ rw (all, narrow, cut) tt
        | inr whole ↦
            rw (all, narrow, whole)
              (
                mod-lt _ (one-le-pow size 256 (omega arith)),
                taken_off-IsByte peek (marked_run q + 1) q left,
              )
      ]
    ]

pub times-Sound {ℓ κ} :
    {A : Type ℓ} (P : A → Type κ) (read : Run Queue A) (count : ℕ)
    → AnswersWith P read
    → AnswersWith (All P) (times count read)
unfolding times
times-Sound P read zero h q left = (tt, left)
times-Sound P read (suc count) h q left =
    proceed-Sound P (All P) (read q) _ (h q left) (λ x p q' left'.
      proceed-Sound (All P) (All P) (times count read q') _ (times-Sound P read count h q' left')
        (λ xs ps q'' left''. ((p, ps), left'')))

pub many-Sound {ℓ κ} :
    {A : Type ℓ} (P : A → Type κ) (read : Run Queue A)
    → AnswersWith P read
    → AnswersWith (All P) (Queue.many read)
many-Sound P read h q left =
    proceed-Sound (λ v. v < modulus 8) (All P) (Queue.varint 8 false q) _
      (varint-Sound 8 false q left) (λ count _. times-Sound P read count h)

pub given_back-Sound {ℓ κ} :
    {A : Type ℓ} (P : A → Type κ) (peek : Bool) (q : Queue) (x : Result A × Queue)
    → All IsByte q
    → Sound P x
    → Sound P (given_back peek q x)
given_back-Sound P true q (ok a, _) left (p, _) = (p, left)
given_back-Sound P false q (ok a, _) left s = s
given_back-Sound P peek q (err e, _) left s = tt
given_back-Sound P peek q (undefined, _) left s = tt

pub vector-Sound {ℓ κ} :
    {A : Type ℓ} (P : A → Type κ) (read : Run Queue A) (peek : Bool)
    → AnswersWith P read
    → AnswersWith (All P) (Queue.vector read peek)
vector-Sound P read peek h q left =
    given_back-Sound (All P) peek q (Queue.many read q) left (many-Sound P read h q left)
