-- ===== src/Pod/Order.antt =====
-- The comparisons of pods are those of the numbers that their bytes spell, least significant first.
use serialization_cpp.Range
use serialization_cpp.Common.{
  ◌||◌, ltb, leb, ◌==◌, if◌then◌else◌, length, get_or, take, All, ℕ, zero, suc, ◌+◌, ◌*◌, ◌^◌, ◌≤◌,
  ◌<◌, ◌≡◌, refl, sym, ap, ◌∙◌, true, false, not, List, [], ◌∷◌, arith,
}
use serialization_cpp.Common.Bits.{IsByte}
use serialization_cpp.Common.Result.{ok}
use serialization_cpp.Pack.Native.{le_value}
use serialization_cpp.Pod.{
  same_byte, less_loop, greater_loop, equals, differs, less, greater, less_equal, greater_equal,
  Pod,
}
use native.Mathlib.Nat.{pow-suc, mul-le-mul_right, one-le-pow}

-- A pod of its size, of bytes.
pub record IsPod (SIZE : ℕ) (p : Pod) : Type 0 where
  pub sized : length p.bytes ≡ SIZE
  pub all_bytes : All IsByte p.bytes

abbrev pub value : Pod → ℕ
value p = le_value p.bytes

le_value_snoc :
    (xs : List ℕ) (i : ℕ)
    → i < length xs
    → le_value (take (suc i) xs) ≡ le_value (take i xs) + get_or xs i 0 * 256 ^ i
le_value_snoc [] i h = absurd (omega arith)
le_value_snoc (x ∷ xs) zero h = omega arith
le_value_snoc (x ∷ xs) (suc i) h = simp pow-suc (omega (arith, le_value_snoc xs i (omega arith)))

le_value-take-lt : (xs : List ℕ) (i : ℕ) → All IsByte xs → le_value (take i xs) < 256 ^ i
le_value-take-lt xs zero h = omega arith
le_value-take-lt [] (suc i) h = one-le-pow (suc i) 256 (omega arith)
le_value-take-lt (x ∷ xs) (suc i) (hx, hs) = simp pow-suc (omega (arith, le_value-take-lt xs i hs))

take-all : (xs : List ℕ) (n : ℕ) → length xs ≡ n → take n xs ≡ xs
take-all [] zero h = refl
take-all [] (suc n) h = refl
take-all (x ∷ xs) zero h = absurd (omega arith)
take-all (x ∷ xs) (suc n) h = rw (take-all xs n (omega arith))

-- Of two numbers in base `b`, the one with the greater leading digit is greater.
leading_lt : (low low' x y b : ℕ) → low < b → x < y → low + x * b < low' + y * b
leading_lt low low' x y b h l =
    let step : suc x * b ≤ y * b = mul-le-mul_right b l in omega (arith, step)

leading_digit :
    (low low' x y b : ℕ)
    → low < b
    → low' < b
    → (if ltb x y then true else if ltb y x then false else ltb low low')
      ≡ ltb (low + x * b) (low' + y * b)
leading_digit low low' x y b h h' =
    ground (arith, leading_lt low low' x y b h, leading_lt low' low y x b h')

le_or : (a b : ℕ) → (a == b || ltb a b) ≡ leb a b
le_or a b = ground arith

ge_or : (a b : ℕ) → (a == b || ltb b a) ≡ leb b a
ge_or a b = ground arith

less_loop_lem :
    (i : ℕ) (a b : List ℕ)
    → All IsByte a
    → All IsByte b
    → i ≤ length a
    → i ≤ length b
    → less_loop i a b ≡ ltb (le_value (take i a)) (le_value (take i b))
unfolding less_loop
less_loop_lem zero a b ha hb la lb = refl
less_loop_lem (suc i) a b ha hb la lb =
    let sa = le_value_snoc a i la in
    let sb = le_value_snoc b i lb in
    let fa = le_value-take-lt a i ha in
    let fb = le_value-take-lt b i hb in
    let ih = less_loop_lem i a b ha hb (omega arith) (omega arith) in
    rw (sa, sb, ih) (leading_digit _ _ (get_or a i 0) (get_or b i 0) (256 ^ i) fa fb)

greater_loop_lem : (i : ℕ) (a b : List ℕ) → greater_loop i a b ≡ less_loop i b a
unfolding greater_loop less_loop
greater_loop_lem zero a b = refl
greater_loop_lem (suc i) a b = rw (greater_loop_lem i a b)

-- Two lists of bytes of one length are equal where the numbers are.
equal_bytes :
    (a b : List ℕ)
    → All IsByte a
    → All IsByte b
    → length a ≡ length b
    → Range.equal same_byte a b ≡ ok (le_value a == le_value b)
unfolding Range.equal
equal_bytes [] [] ha hb l = refl
equal_bytes [] (y ∷ b) ha hb l = absurd (omega arith)
equal_bytes (x ∷ a) [] ha hb l = absurd (omega arith)
equal_bytes (x ∷ a) (y ∷ b) (hx, ha) (hy, hb) l =
    ground (arith, equal_bytes a b ha hb (omega arith))

-- Each of the six operators, on two pods of `SIZE` bytes, answers what the comparison of the two
-- little-endian numbers does.
pub comparisons :
    (SIZE : ℕ) (p q : Pod)
    → IsPod SIZE p
    → IsPod SIZE q
    → (equals SIZE p q ≡ ok (value p == value q))
      × (differs SIZE p q ≡ ok (not (value p == value q)))
      × (less SIZE p q ≡ ltb (value p) (value q))
      × (greater SIZE p q ≡ ltb (value q) (value p))
      × (less_equal SIZE p q ≡ ok (leb (value p) (value q)))
      × (greater_equal SIZE p q ≡ ok (leb (value q) (value p)))
unfolding equals differs less greater less_equal greater_equal
comparisons SIZE p q hp hq =
    let e = equal_bytes p.bytes q.bytes hp.all_bytes hq.all_bytes (hp.sized ∙ sym hq.sized) in
    let tp = take-all p.bytes SIZE hp.sized in
    let tq = take-all q.bytes SIZE hq.sized in
    let lt =
      less_loop_lem SIZE p.bytes q.bytes hp.all_bytes hq.all_bytes (omega (arith, hp.sized))
        (omega (arith, hq.sized)) in
    let gt =
      less_loop_lem SIZE q.bytes p.bytes hq.all_bytes hp.all_bytes (omega (arith, hq.sized))
        (omega (arith, hp.sized)) in
    let l = rw (tp, tq) at lt in
    let g = greater_loop_lem SIZE p.bytes q.bytes ∙ rw (tp, tq) at gt in
    (
      e,
      rw e,
      l,
      g,
      rw (e, l) (ap ok (le_or (value p) (value q))),
      rw (e, g) (ap ok (ge_or (value p) (value q))),
    )
