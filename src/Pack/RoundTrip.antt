-- ===== src/Pack/RoundTrip.antt =====
-- `unpack` reads back what `pack` wrote.
use serialization_cpp.Common.{
  ltb, le→ltb, length, length-append, drop-append, take-append, ℕ, ◌+◌, ◌^◌, ◌<◌, ◌≡◌, refl, sym,
  ap, ◌∙◌, Bool, true, false, List, ◌++◌, reverse-reverse, arith, length-reverse,
}
use serialization_cpp.Common.Result.{ok}
use serialization_cpp.Pack.{pack, unpack, Layout}
use serialization_cpp.Pack.Memory.{ordered, pack-ordered}
use serialization_cpp.Pack.Unpack.{slice, unpack_cases}

pub ordered-ordered : (be : Bool) (bytes : List ℕ) → ordered be (ordered be bytes) ≡ bytes
ordered-ordered true bytes = reverse-reverse bytes
ordered-ordered false bytes = refl

pub length-ordered : (be : Bool) (bytes : List ℕ) → length (ordered be bytes) ≡ length bytes
length-ordered true bytes = length-reverse bytes
length-ordered false bytes = refl

pub length-pack : (T : Layout) (v : T.Value) (be : Bool) → length (pack T v be) ≡ T.size
length-pack T v be = rw pack-ordered (length-ordered be (T.store v) ∙ T.length-store v)

pub slice-append :
    (front bytes rest : List ℕ)
    → slice (front ++ (bytes ++ rest)) (length front) (length bytes) ≡ bytes
slice-append front bytes rest = rw (drop-append, take-append)

-- Wherever the packing of a value that its type holds stands in a buffer that `size_t` can measure, the
-- value is read back, in either byte order.
pub unpack-pack :
    (T : Layout) (v : T.Value) (be : Bool) (front rest : List ℕ)
    → T.Fits v
    → length (front ++ (pack T v be ++ rest)) < 2 ^ 64
    → unpack T (front ++ (pack T v be ++ rest)) (length front) be ≡ ok v
unpack-pack T v be front rest fits h =
    let packed = front ++ (pack T v be ++ rest) in
    let l = length-append front (pack T v be ++ rest) in
    let l' = length-append (pack T v be) rest in
    let n = length-pack T v be in
    let whole : ltb (length packed) (length front + T.size) ≡ false = le→ltb _ _ (omega arith) in
    let same : slice packed (length front) T.size ≡ pack T v be =
      ap (λ k. slice packed (length front) k) (sym n) ∙ slice-append front (pack T v be) rest in
    unpack_cases T packed (length front) be (omega arith)
    ∙ rw (whole, same, pack-ordered, ordered-ordered, T.load-store v fits)
