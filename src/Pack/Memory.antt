-- ===== src/Pack/Memory.antt =====
-- The copies that `pack` and `unpack` make.
use serialization_cpp.Common.{
  if◌then◌else◌, length, get_elem?, set, take, drop, replicate, length-append, ℕ, zero, suc, ◌+◌,
  ◌≡◌, refl, sym, ap, ◌∙◌, Bool, some, List, [], ◌∷◌, ◌++◌, reverse, append_assoc, arith,
  take-append,
}
use serialization_cpp.Common.Result.{ok}
use serialization_cpp.Pack.{copy_loop, pack, Layout}

-- What `pack` returns: the representation, turned round on demand.
abbrev pub ordered : Bool → List ℕ → List ℕ
ordered big_endian bytes = if big_endian then reverse bytes else bytes

pub pack-ordered : (T : Layout) (v : T.Value) (be : Bool) → pack T v be ≡ ordered be (T.store v)
unfolding pack
pack-ordered T v be =
    let l = T.length-store v in
    let unused = drop T.size (replicate 64 0) in
    ap (ordered be)
      (ap (λ n. take n (T.store v ++ unused)) (sym l) ∙ take-append (T.store v) unused)

get_elem?-drop :
    (packed : List ℕ) (i : ℕ) {b : ℕ} {rest : List ℕ}
    → drop i packed ≡ b ∷ rest
    → (get_elem? packed i ≡ some b) × (drop (i + 1) packed ≡ rest)
get_elem?-drop [] zero h = absurd (cc)
get_elem?-drop [] (suc i) h = absurd (cc)
get_elem?-drop (c ∷ packed) zero h = (cc, cc)
get_elem?-drop (c ∷ packed) (suc i) h =
    let (e, d) = get_elem?-drop packed i h in
    let s : suc i + 1 ≡ suc (i + 1) = omega arith in (e, rw s d)

set-append :
    (done : List ℕ) (b c : ℕ) (left : List ℕ)
    → set (done ++ (c ∷ left)) (length done) b ≡ (done ++ (b ∷ [])) ++ left
set-append [] b c left = refl
set-append (d ∷ done) b c left = ap (λ t. d ∷ t) (set-append done b c left)

copy_loop_step :
    (rounds : ℕ) (packed : List ℕ) (i j : ℕ) (bytes : List ℕ) {b : ℕ}
    → get_elem? packed i ≡ some b
    → copy_loop (suc rounds) packed i j bytes
      ≡ copy_loop rounds packed (i + 1) (j + 1) (set bytes j b)
unfolding copy_loop
copy_loop_step rounds packed i j bytes h = rw (h, copy_loop)

-- The loop copies the bytes at `i` over those at `j`, while both last.
pub copy_loop_lem :
    (source packed : List ℕ) (i : ℕ) (tail done old : List ℕ)
    → drop i packed ≡ source ++ tail
    → length old ≡ length source
    → copy_loop (length source) packed i (length done) (done ++ old) ≡ ok (done ++ source)
copy_loop_lem [] packed i tail done [] h e = unfold copy_loop in refl
copy_loop_lem [] packed i tail done (o ∷ old) h e = absurd (omega arith)
copy_loop_lem (b ∷ source) packed i tail done [] h e = absurd (omega arith)
copy_loop_lem (b ∷ source) packed i tail done (o ∷ old) h e =
    let (found, next) = get_elem?-drop packed i h in
    let l : length done + 1 ≡ length (done ++ (b ∷ [])) =
      omega (arith, length-append done (b ∷ [])) in
    copy_loop_step (length source) packed i (length done) (done ++ (o ∷ old)) found
    ∙ rw (set-append, l)
        (copy_loop_lem source packed (i + 1) tail (done ++ (b ∷ [])) old next (omega arith)
          ∙ ap ok (append_assoc done (b ∷ []) source))
