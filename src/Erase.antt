-- ===== src/Erase.antt =====
-- src/secure_erase.cpp: `secure_erase`. Memory is the list of bytes from the pointer on, up to the end
-- of the object that it points into.
use serialization_cpp.Common.{
  length, drop, replicate, ℕ, zero, suc, ◌≤◌, ◌≡◌, refl, List, [], ◌∷◌, ◌++◌, arith,
}
use serialization_cpp.Common.Result.{◌>>=◌, Result, ok, undefined}

-- `std::memset(pointer, 0, length)`. Bytes behind the object are outside of it. The empty assembly
-- statement that follows changes nothing; it keeps the call from being optimised away.
unfoldable pub secure_erase : List ℕ → ℕ → Result (List ℕ)
secure_erase memory zero = ok memory
secure_erase [] (suc count) = undefined
secure_erase (b ∷ memory) (suc count) = do rest ← secure_erase memory count; ok (0 ∷ rest)

-- Within the object, the first `count` bytes become 0 and those behind them stay.
pub secure_erase_lem :
    (memory : List ℕ) (count : ℕ)
    → count ≤ length memory
    → secure_erase memory count ≡ ok (replicate count 0 ++ drop count memory)
unfolding secure_erase
secure_erase_lem memory zero h = refl
secure_erase_lem [] (suc count) h = absurd (omega arith)
secure_erase_lem (b ∷ memory) (suc count) h = rw (secure_erase_lem memory count (omega arith))
