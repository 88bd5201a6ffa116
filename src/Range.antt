-- ===== src/Range.antt =====
-- `std::equal` of a range and the start of another, which the comparisons of the structures use.
use serialization_cpp.Common.{if◌then◌else◌, Bool, true, false, List, [], ◌∷◌}
use serialization_cpp.Common.Result.{◌>>=◌, Result, ok, undefined}

-- A second range that is shorter than the first is read past its end, unless they differ before.
unfoldable pub equal {ℓ} : {A : Type ℓ} → (A → A → Result Bool) → List A → List A → Result Bool
equal same [] ys = ok true
equal same (x ∷ xs) [] = undefined
equal same (x ∷ xs) (y ∷ ys) = do first ← same x y; if first then equal same xs ys else ok false
