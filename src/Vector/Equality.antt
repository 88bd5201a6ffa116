-- ===== src/Vector/Equality.antt =====
-- `operator==` of vectors looks at the elements of the first one only.
use serialization_cpp.Range
use serialization_cpp.Common.{
  All, ◌≡◌, refl, sym, ap, ◌∙◌, Bool, true, false, List, [], ◌∷◌, ◌++◌, append-nil,
}
use serialization_cpp.Common.Result.{Result, ok, undefined}
use serialization_cpp.Serializable.{Serializable}
use serialization_cpp.Vector.{equals, differs, SerializableVector}

module _ {ℓ} {A : Type ℓ} (same : A → A → Result Bool) where
  equal_prefix :
      (xs more : List A)
      → All (λ x. same x x ≡ ok true) xs
      → Range.equal same xs (xs ++ more) ≡ ok true
  unfolding Range.equal
  equal_prefix [] more h = refl
  equal_prefix (x ∷ xs) more (hx, hs) = rw hx (equal_prefix xs more hs)

  equal_longer :
      (xs : List A) (y : A) (more : List A)
      → All (λ x. same x x ≡ ok true) xs
      → Range.equal same (xs ++ (y ∷ more)) xs ≡ undefined
  unfolding Range.equal
  equal_longer [] y more h = refl
  equal_longer (x ∷ xs) y more (hx, hs) = rw hx (equal_longer xs y more hs)

-- A vector of elements that equal themselves is equal to itself and to any vector that continues it; the
-- other way round, the longer one compared with its own start is read past its end.
pub equals_prefix :
    (S : Serializable) (same : S.Object → S.Object → Result Bool) (v : SerializableVector S)
    (x : S.Object) (more : List S.Object)
    → All (λ y. same y y ≡ ok true) v.container
    → (equals S same v v ≡ ok true)
      × (equals S same v (record { container = v.container ++ (x ∷ more) }) ≡ ok true)
      × (differs S same v (record { container = v.container ++ (x ∷ more) }) ≡ ok false)
      × (equals S same (record { container = v.container ++ (x ∷ more) }) v ≡ undefined)
unfolding equals differs
equals_prefix S same v x more h =
    let e = equal_prefix same v.container (x ∷ more) h in
    let self = ap (Range.equal same v.container) (sym (append-nil v.container)) in
    (self ∙ equal_prefix same v.container [] h, e, rw e, equal_longer same v.container x more h)
