-- ===== src/Varint/Loop.antt =====
-- The loop of `decode_varint`, round by round.
use serialization_cpp.Common.{
  ltb, if◌then◌else◌, ltb→lt, lt→ltb, le→ltb, Bool-cases, length, All, ℕ, zero, suc, ◌+◌, ◌-◌, ◌*◌,
  ◌%◌, ◌^◌, ◌≤◌, ◌<◌, ◌≡◌, refl, sym, ap, ◌∙◌, inl, inr, List, [], ◌∷◌, arith,
}
use serialization_cpp.Common.Bits.{IsByte, low_seven}
use serialization_cpp.Common.Result.{could_not_decode, Result, ok, err, undefined}
use serialization_cpp.Varint.{modulus, shifted_group, decode_loop}
use Prim.Native.Nat.{◌∣◌}
use native.Mathlib.Nat.{
  add-zero, add-suc, dvd-mul_right, mod-mod_of_dvd, pow-le-pow_right, mod-add-mod, add-mod-mod,
  pow-suc,
}
use native.Mathlib.Numerals.{towards_suc}

-- The length of the longest run of bytes with their top bit set, from the front.
abbrev pub marked_run : List ℕ → ℕ
marked_run [] = 0
marked_run (b ∷ rest) = if ltb b 128 then 0 else suc (marked_run rest)

-- The number that the groups spell up to the first byte below 128, with no bound.
abbrev pub varint_value : List ℕ → ℕ
varint_value [] = 0
varint_value (b ∷ rest) = if ltb b 128 then b else b % 128 + 128 * varint_value rest

pub shifted_group_ok :
    (b shift : ℕ) → b < 256 → shift < 64 → shifted_group b shift ≡ ok (b % 128 * 2 ^ shift % 2 ^ 64)
unfolding shifted_group
shifted_group_ok b shift hb hs = elim (Bool-cases (ltb shift 28)) [
  | inl near ↦ rw (near, low_seven b hb)
  | inr far ↦
      let p : 2 ^ shift ≤ 2 ^ 63 = pow-le-pow_right (omega arith) {j = 63} (omega arith) in
      let e : 1 * 2 ^ shift % 2 ^ 64 ≡ 2 ^ shift = omega (arith, p) in
      rw (far, lt→ltb shift 64 hs, low_seven b hb, e)
]

pub shifted_group_wide : (b shift : ℕ) → 64 ≤ shift → shifted_group b shift ≡ undefined
unfolding shifted_group
shifted_group_wide b shift hs = rw (le→ltb shift 28 (omega arith), le→ltb shift 64 hs)

-- A type of at most 8 bytes keeps the low bits of a `uint64_t`.
modulus-add : (a b : ℕ) → modulus (a + b) ≡ modulus a * modulus b
modulus-add a zero = rw add-zero (omega arith)
modulus-add a (suc b) = rw add-suc (simp pow-suc (omega (arith, modulus-add a b)))

modulus-∣ : (size : ℕ) → size ≤ 8 → modulus size ∣ 2 ^ 64
modulus-∣ size h =
    let e : modulus size * modulus (8 - size) ≡ 2 ^ 64 =
      sym (modulus-add size (8 - size)) ∙ ap modulus {y = 8} (omega arith) in
    rw e at (dvd-mul_right (modulus size) (modulus (8 - size)))

narrow : (size a : ℕ) → size ≤ 8 → a % 2 ^ 64 % modulus size ≡ a % modulus size
narrow size a h = mod-mod_of_dvd (modulus size) a (modulus-∣ size h)

add_narrow :
    (size x a : ℕ)
    → size ≤ 8
    → (x % modulus size + a % 2 ^ 64 % modulus size) % modulus size ≡ (x + a) % modulus size
add_narrow size x a h = rw (narrow size a h, add-mod-mod, mod-add-mod)

-- One round of the loop: on a byte below 128, on a byte with its top bit set, and with a shift that is
-- too wide.
last_round :
    (size b : ℕ) (rest : List ℕ) (counter shift x : ℕ)
    → size ≤ 8
    → b < 128
    → shift < 64
    → decode_loop size (b ∷ rest) counter shift (x % modulus size)
      ≡ ok ((x + b * 2 ^ shift) % modulus size, counter + 1)
unfolding decode_loop
last_round size b rest counter shift x h hb hs =
    let e : b % 128 ≡ b = omega arith in
    rw (
      shifted_group_ok b shift (omega arith) hs,
      lt→ltb b 128 hb,
      e,
      add_narrow size x (b * 2 ^ shift) h,
    )

inner_round :
    (size b : ℕ) (rest : List ℕ) (counter shift x : ℕ)
    → size ≤ 8
    → b < 256
    → 128 ≤ b
    → shift < 64
    → decode_loop size (b ∷ rest) counter shift (x % modulus size)
      ≡ decode_loop size rest (counter + 1) (shift + 7) ((x + b % 128 * 2 ^ shift) % modulus size)
unfolding decode_loop
inner_round size b rest counter shift x h hb lb hs =
    rw (shifted_group_ok b shift hb hs, le→ltb b 128 lb, add_narrow size x (b % 128 * 2 ^ shift) h)

wide_round :
    (size b : ℕ) (rest : List ℕ) (counter shift temp : ℕ)
    → 64 ≤ shift
    → decode_loop size (b ∷ rest) counter shift temp ≡ undefined
unfolding decode_loop
wide_round size b rest counter shift temp hs = rw (shifted_group_wide b shift hs)

shift_seven : (shift : ℕ) → 2 ^ (shift + 7) ≡ 128 * 2 ^ shift
shift_seven shift = simp towards_suc (omega arith)

-- The lowest group of a number and the groups above it, at their places.
groups_apart :
    (x low high shift : ℕ)
    → x + low * 2 ^ shift + high * 2 ^ (shift + 7) ≡ x + (low + 128 * high) * 2 ^ shift
groups_apart x low high shift = rw shift_seven (omega arith)

ok_pair : {a b c d : ℕ} → a ≡ b → c ≡ d → ◌≡◌ {A = Result (ℕ × ℕ)} (ok (a, c)) (ok (b, d))
ok_pair p q = λ i. ok (p i, q i)

module _ (size : ℕ) (native : size ≤ 8) where
  pub decode_loop_ok :
      (rest : List ℕ) (counter shift x : ℕ)
      → All IsByte rest
      → marked_run rest < length rest
      → 7 * marked_run rest + shift < 64
      → decode_loop size rest counter shift (x % modulus size)
        ≡ ok ((x + varint_value rest * 2 ^ shift) % modulus size, counter + marked_run rest + 1)
  decode_loop_ok [] counter shift x bs h s = absurd (omega arith)
  decode_loop_ok (b ∷ rest) counter shift x (hb, bs) h s = elim (Bool-cases (ltb b 128)) [
    | inl last ↦ rw last (
        last_round size b rest counter shift x native (ltb→lt b 128 last) (ground arith)
        ∙ ok_pair refl (omega arith))
    | inr more ↦
        let lb : 128 ≤ b = ground arith in
        let apart = groups_apart x (b % 128) (varint_value rest) shift in
        rw more (
          inner_round size b rest counter shift x native hb lb (omega arith)
          ∙ decode_loop_ok rest (counter + 1) (shift + 7) _ bs (ground arith) (ground arith)
          ∙ ok_pair (ap (λ t. t % modulus size) apart) (omega arith))
  ]

  pub decode_loop_cut :
      (rest : List ℕ) (counter shift x : ℕ)
      → All IsByte rest
      → marked_run rest ≡ length rest
      → 7 * length rest + shift < 71
      → decode_loop size rest counter shift (x % modulus size) ≡ err could_not_decode
  decode_loop_cut [] counter shift x bs h s = unfold decode_loop in refl
  decode_loop_cut (b ∷ rest) counter shift x (hb, bs) h s =
      let lb : 128 ≤ b = ground arith in
      inner_round size b rest counter shift x native hb lb (omega arith)
      ∙ decode_loop_cut rest (counter + 1) (shift + 7) _ bs (ground arith) (omega arith)

  pub decode_loop_wide :
      (rest : List ℕ) (counter shift x k : ℕ)
      → All IsByte rest
      → k ≤ marked_run rest
      → k < length rest
      → 64 ≤ 7 * k + shift
      → decode_loop size rest counter shift (x % modulus size) ≡ undefined
  decode_loop_wide [] counter shift x k bs h l w = absurd (omega arith)
  decode_loop_wide (b ∷ rest) counter shift x k (hb, bs) h l w = elim (Bool-cases (ltb shift 64)) [
    | inl near ↦
        let lb : 128 ≤ b = ground arith in
        inner_round size b rest counter shift x native hb lb (ltb→lt shift 64 near)
        ∙ decode_loop_wide rest (counter + 1) (shift + 7) _ (k - 1) bs (ground arith) (ground arith)
            (ground arith)
    | inr far ↦ wide_round size b rest counter shift _ (ground arith)
  ]
