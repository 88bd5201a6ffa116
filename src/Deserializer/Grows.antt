-- ===== src/Deserializer/Grows.antt =====
-- Bytes that come behind a queue do not change what a successful read of it answers.
use serialization_cpp.Common.{
  List, ℕ, [], ◌∷◌, ◌++◌, refl, Bool, true, false, length, ltb, leb, ◌≤◌, ◌<◌, Bool-cases, inl, inr,
  le→ltb, leb→le, length-append, take-append_le, drop-append_le, arith, zero, suc, ◌==◌, ◌≡◌, ◌&&◌,
  ◌+◌,
}
use serialization_cpp.Common.Result.{Result, ok, err, undefined}
use serialization_cpp.Common.Run.{Run, ◌>>=◌, proceed}
use serialization_cpp.Deserializer.Queue.{Queue, times, given_back, taken_off}
use serialization_cpp.Deserializer.Requests.{
  Request, expect, expect_all, uint8, boolean, uint16, uint32, uint64, uint128, uint256, bytes, hex,
  varint, varint_vector, pod, pod_vector, pod_nested,
}
use serialization_cpp.Pack.{Layout}
use serialization_cpp.Pack.Native.{uint8_t, uint16_t, uint32_t, uint64_t}
use serialization_cpp.Serializable.{Serializable}
use serialization_cpp.Varint.Loop.{marked_run, varint_value}
use serialization_cpp.Hex.RoundTrip.{hex_text}
use serialization_cpp.Deserializer.{loaded}
use serialization_cpp.Varint.Decode.{marked_run-le}
use serialization_cpp.Deserializer.Queue

-- After a success without the bytes, the outcome with them.
abbrev pub Grown {ℓ} : {A : Type ℓ} → List ℕ → Result A × Queue → Result A × Queue → Type ℓ
Grown more (ok a, q) y = y ≡ (ok a, q ++ more)
Grown more (err e, q) y = Unit
Grown more (undefined, q) y = Unit

abbrev pub Grows {ℓ} : {A : Type ℓ} → Run Queue A → Type ℓ
Grows read = (q more : Queue) → Grown more (read q) (read (q ++ more))

Grown-proceed {ℓ κ} :
    {A : Type ℓ} {B : Type κ} (more : List ℕ) (x y : Result A × Queue) (f : A → Run Queue B)
    → Grown more x y
    → ((a : A) → Grows (f a))
    → Grown more (proceed x f) (proceed y f)
Grown-proceed more (ok a, q) y f g h = rw g (h a q more)
Grown-proceed more (err e, q) y f g h = tt
Grown-proceed more (undefined, q) y f g h = tt

Grows->>= {ℓ κ} :
    {A : Type ℓ} {B : Type κ} (m : Run Queue A) (f : A → Run Queue B)
    → Grows m
    → ((a : A) → Grows (f a))
    → Grows (m >>= f)
Grows->>= m f hm h q more = Grown-proceed more (m q) (m (q ++ more)) f (hm q more) h

Grows-result {ℓ} : {A : Type ℓ} (r : Result A) → Grows (λ q. (r, q))
Grows-result (ok a) q more = refl
Grows-result (err e) q more = tt
Grows-result undefined q more = tt

taken_off-append :
    (peek : Bool) (count : ℕ) (q more : Queue)
    → count ≤ length q
    → taken_off peek count (q ++ more) ≡ taken_off peek count q ++ more
taken_off-append true count q more h = refl
taken_off-append false count q more h = drop-append_le count q more h

Grows-fixed : (T : Layout) (be peek : Bool) → Grows (Queue.fixed T be peek)
Grows-fixed T be peek q more = elim (Bool-cases (ltb (length q) T.size)) [
  | inl short ↦ rw short tt
  | inr whole ↦
      let h : T.size ≤ length q = ground arith in
      let longer : ltb (length (q ++ more)) T.size ≡ false =
        le→ltb _ _ (omega (arith, length-append q more)) in
      rw (whole, longer, take-append_le T.size q more h, taken_off-append peek T.size q more h) refl
]

Grows-bytes : (count : ℕ) (peek : Bool) → Grows (Queue.bytes count peek)
Grows-bytes count peek q more = elim (Bool-cases (leb count (length q))) [
  | inl whole ↦
      let h = leb→le count (length q) whole in
      let longer : leb count (length (q ++ more)) ≡ true = ground (arith, length-append q more) in
      rw (whole, longer, take-append_le count q more h, taken_off-append peek count q more h) refl
  | inr short ↦ rw short tt
]

marked_run-append :
    (q more : List ℕ)
    → marked_run q < length q
    → (marked_run (q ++ more) ≡ marked_run q) × (varint_value (q ++ more) ≡ varint_value q)
marked_run-append [] more h = absurd (omega arith)
marked_run-append (b ∷ q) more h = elim (Bool-cases (ltb b 128)) [
  | inl last ↦ rw last (refl, refl)
  | inr next ↦
      let (run, value) = marked_run-append q more (ground arith) in
      rw (next, run, value) (refl, refl)
]

Grows-varint : (size : ℕ) (peek : Bool) → Grows (Queue.varint size peek)
Grows-varint size peek q more =
    let all : ltb (length q) 0 ≡ false = le→ltb _ 0 (omega arith) in
    let all' : ltb (length (q ++ more)) 0 ≡ false = le→ltb _ 0 (omega arith) in
    elim (Bool-cases (leb 10 (marked_run q) && ltb 10 (length q))) [
      | inl wide ↦ rw (all, wide) tt
      | inr narrow ↦ elim (Bool-cases (marked_run q == length q)) [
        | inl cut ↦ rw (all, narrow, cut) tt
        | inr whole ↦
            let h : marked_run q < length q = ground (arith, marked_run-le q) in
            let (run, value) = marked_run-append q more h in
            let narrow' : (leb 10 (marked_run q) && ltb 10 (length (q ++ more))) ≡ false =
              ground arith in
            let whole' : (marked_run q == length (q ++ more)) ≡ false =
              ground (arith, length-append q more) in
            rw (all, all', run, narrow, narrow', whole, whole', value)
              (rw (taken_off-append peek (marked_run q + 1) q more (omega (arith, h))) refl)
      ]
    ]

Grows-times {ℓ} :
    {A : Type ℓ} (read : Run Queue A) (count : ℕ) → Grows read → Grows (times count read)
unfolding times
Grows-times {A} read zero h = Grows-result {A = List A} (ok [])
Grows-times read (suc count) h = Grows->>= read _ h (λ x.
    Grows->>= (times count read) _ (Grows-times read count h) (λ xs. Grows-result (ok (x ∷ xs))))

Grown-given_back {ℓ} :
    {A : Type ℓ} (peek : Bool) (q more : Queue) (x y : Result A × Queue)
    → Grown more x y
    → Grown more (given_back peek q x) (given_back peek (q ++ more) y)
Grown-given_back true q more (ok a, _) y h = rw h refl
Grown-given_back false q more (ok a, _) y h = rw h refl
Grown-given_back peek q more (err e, _) y h = tt
Grown-given_back peek q more (undefined, _) y h = tt

Grows-many {ℓ} : {A : Type ℓ} (read : Run Queue A) → Grows read → Grows (Queue.many read)
Grows-many read h =
    Grows->>= (Queue.varint 8 false) _ (Grows-varint 8 false) (λ count. Grows-times read count h)

Grows-vector {ℓ} :
    {A : Type ℓ} (read : Run Queue A) (peek : Bool) → Grows read → Grows (Queue.vector read peek)
Grows-vector read peek h q more =
    Grown-given_back peek q more (Queue.many read q) (Queue.many read (q ++ more))
      (Grows-many read h q more)

Grows-pod : (S : Serializable) (peek : Bool) → Grows (Queue.pod S peek)
Grows-pod S peek =
    Grows->>= (Queue.bytes (S.size S.default) peek) _ (Grows-bytes (S.size S.default) peek)
      (λ bytes'. Grows-result (loaded (S.deserialize bytes' S.default)))

pub Grows-expect :
    (W128 W256 : Layout) (S : Serializable) (r : Request) → Grows (expect W128 W256 S r)
unfolding expect
Grows-expect W128 W256 S (uint8 peek) = Grows-fixed uint8_t false peek
Grows-expect W128 W256 S (boolean peek) =
    Grows->>= (Queue.fixed uint8_t false peek) _ (Grows-fixed uint8_t false peek)
      (λ value. Grows-result (ok (value == 1)))
Grows-expect W128 W256 S (uint16 peek be) = Grows-fixed uint16_t be peek
Grows-expect W128 W256 S (uint32 peek be) = Grows-fixed uint32_t be peek
Grows-expect W128 W256 S (uint64 peek be) = Grows-fixed uint64_t be peek
Grows-expect W128 W256 S (uint128 peek be) = Grows-fixed W128 be peek
Grows-expect W128 W256 S (uint256 peek be) = Grows-fixed W256 be peek
Grows-expect W128 W256 S (bytes count peek) = Grows-bytes count peek
Grows-expect W128 W256 S (hex count peek) =
    Grows->>= (Queue.bytes count peek) _ (Grows-bytes count peek)
      (λ bytes'. Grows-result (ok (hex_text bytes')))
Grows-expect W128 W256 S (varint size peek) = Grows-varint size peek
Grows-expect W128 W256 S (varint_vector size peek) =
    Grows-vector (Queue.varint size false) peek (Grows-varint size false)
Grows-expect W128 W256 S (pod peek) = Grows-pod S peek
Grows-expect W128 W256 S (pod_vector peek) =
    Grows-vector (Queue.pod S false) peek (Grows-pod S false)
Grows-expect W128 W256 S (pod_nested peek) =
    Grows-vector _ peek (Grows-many (Queue.pod S false) (Grows-pod S false))

pub Grows-expect_all :
    (W128 W256 : Layout) (S : Serializable) (rs : List Request) → Grows (expect_all W128 W256 S rs)
unfolding expect_all
Grows-expect_all W128 W256 S [] = Grows-result (ok tt)
Grows-expect_all W128 W256 S (r ∷ rs) =
    Grows->>= (expect W128 W256 S r) _ (Grows-expect W128 W256 S r) (λ a.
      Grows->>= (expect_all W128 W256 S rs) _ (Grows-expect_all W128 W256 S rs)
        (λ as'. Grows-result (ok (a, as'))))
