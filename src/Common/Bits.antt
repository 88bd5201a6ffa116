-- ===== src/Common/Bits.antt =====
-- Masks on one byte as arithmetic: each law is a table of at most 256 entries, checked by evaluation.
use Prim.Native.Nat.{ℕ, zero, suc, ◌+◌, ◌*◌, ◌/◌, ◌%◌, ◌<◌, bit_and, bit_or}
use mathlib.Core.Path.{◌≡◌, refl}
use mathlib.Core.Bool.{Bool, true, false}
use mathlib.Core.Logic.{ite}
use native.Mathlib.Decide.{ℕ_discrete}
use native.Mathlib.Omega.{arith}

-- An `unsigned char`.
abbrev pub IsByte : ℕ → Type 0
IsByte b = b < 256

module _ (f g : ℕ → ℕ) where
  unfoldable pub agree_below : ℕ → Bool
  unfolding ℕ_discrete
  agree_below zero = true
  agree_below (suc n) = ite (ℕ_discrete (f n) (g n)) (agree_below n) false

  pub agree_below→eq : (n : ℕ) → agree_below n ≡ true → (i : ℕ) → i < n → f i ≡ g i
  unfolding agree_below
  agree_below→eq zero e i h = absurd (omega arith)
  agree_below→eq (suc n) e i h = ground (arith, agree_below→eq n (ground arith) i)

pub low_seven : (b : ℕ) → b < 256 → bit_and b 0x7f ≡ b % 128
unfolding agree_below
low_seven = agree_below→eq _ _ 256 refl

pub set_top_bit : (b : ℕ) → b < 128 → bit_or b 0x80 ≡ b + 128
unfolding agree_below
set_top_bit = agree_below→eq _ _ 128 refl

pub low_four : (b : ℕ) → b < 256 → bit_and b 15 ≡ b % 16
unfolding agree_below
low_four = agree_below→eq _ _ 256 refl

-- Two halves of a byte, put together.
join_halves_table : (b : ℕ) → b < 256 → bit_or (b / 16 * 16) (b % 16) ≡ b
unfolding agree_below
join_halves_table = agree_below→eq _ _ 256 refl

pub join_halves : (hi lo : ℕ) → hi < 16 → lo < 16 → bit_or (hi * 16) lo ≡ hi * 16 + lo
join_halves hi lo h l =
    let b = hi * 16 + lo in
    let eh : b / 16 ≡ hi = omega arith in
    let el : b % 16 ≡ lo = omega arith in rw (eh, el) at (join_halves_table b (omega arith))
