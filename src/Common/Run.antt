-- ===== src/Common/Run.antt =====
-- Calls that change an object: the object's new state stands beside the outcome, since a C++
-- exception leaves the changes made before it.
use serialization_cpp.Common.Result.{Result, ok, err, undefined}

abbrev pub Run {ℓ κ} : Type ℓ → Type κ → Type (ℓ ⊔ κ)
Run S A = S → Result A × S

module _ {ℓ κ} {S : Type ℓ} where
  abbrev pub pure : {A : Type κ} → A → Run S A
  pure a s = (ok a, s)

module _ {ℓ κ μ} {S : Type ℓ} {A : Type κ} {B : Type μ} where
  -- An exception, and undefined behaviour, skip the rest.
  abbrev pub proceed : Result A × S → (A → Run S B) → Result B × S
  proceed (ok a, s) f = f a s
  proceed (err e, s) f = (err e, s)
  proceed (undefined, s) f = (undefined, s)

  infixl 5 ◌>>=◌
  abbrev pub ◌>>=◌ : Run S A → (A → Run S B) → Run S B
  ◌>>=◌ m f s = proceed (m s) f

module _ {ℓ κ} {S : Type ℓ} {B : Type κ} where
  infixl 5 ◌>>◌
  abbrev pub ◌>>◌ : Run S (Unit {0}) → Run S B → Run S B
  m >> k = m >>= λ _. k

-- A call that does not touch the object, and then one that does.
abbrev pub stop {ℓ κ} :
    {A : Type ℓ} {S : Type κ} → Result A → (A → Run S (Unit {0})) → Run S (Unit {0})
stop (ok a) f s = f a s
stop (err e) f s = (err e, s)
stop undefined f s = (undefined, s)
