-- ===== src/Serializer/Appends.antt =====
-- Calls of `serializer_t` only append, also those that fail.
use serialization_cpp.Common.{
  length, ℕ, zero, suc, ◌≡◌, refl, sym, ap, ◌∙◌, Bool, true, false, List, [], ◌∷◌, ◌++◌,
  append_assoc, append-nil,
}
use serialization_cpp.Common.Result.{Result, ok, err, undefined, Error}
use serialization_cpp.Common.Run.{Run, proceed}
use serialization_cpp.Varint.{encode_varint}
use serialization_cpp.Serializable.{Serializable}
use serialization_cpp.Serializer.{
  push_back, boolean, bytes_loop, bytes, extend, extend_result, uint8, varint, each, varint_vector,
  pod, pod_vector, pod_nested, Serializer,
}
use serialization_cpp.Serializer.Writes.{appended, extend-appended}

-- The writer holds what it held, and more behind it.
abbrev pub Extends : Serializer → Serializer → Type 0
Extends s s' = (more : List ℕ) × (s'.buffer ≡ s.buffer ++ more)

-- So after the call, whatever its outcome.
abbrev pub Appends : Run Serializer (Unit {0}) → Type 0
Appends write = (s : Serializer) → Extends s (write s).1

pub Extends-refl : (s : Serializer) → Extends s s
Extends-refl s = ([], sym (append-nil s.buffer))

pub Extends-trans : (s s' s'' : Serializer) → Extends s s' → Extends s' s'' → Extends s s''
Extends-trans s s' s'' (xs, e) (ys, e') =
    (xs ++ ys, e' ∙ ap (λ t. t ++ ys) e ∙ append_assoc s.buffer xs ys)

Extends-appended : (s : Serializer) (more : List ℕ) → Extends s (appended s more)
Extends-appended s more = (more, refl)

pub Extends-extend : (vector' : List ℕ) (s : Serializer) → Extends s (extend vector' s)
Extends-extend vector' s = rw extend-appended (Extends-appended s vector')

proceed-Extends :
    (s : Serializer) (x : Result (Unit {0}) × Serializer) (f : Unit {0} → Run Serializer (Unit {0}))
    → Extends s x.1
    → Appends (f tt)
    → Extends s (proceed x f).1
proceed-Extends s (ok _, s') f h k = Extends-trans s s' _ h (k s')
proceed-Extends s (err e, s') f h k = h
proceed-Extends s (undefined, s') f h k = h

Appends-each {ℓ} :
    {A : Type ℓ} (f : A → Run Serializer (Unit {0})) (xs : List A)
    → ((x : A) → Appends (f x))
    → Appends (each f xs)
unfolding each
Appends-each f [] k s = Extends-refl s
Appends-each f (x ∷ xs) k s = proceed-Extends s (f x s) _ (k x s) (Appends-each f xs k)

pub Appends-extend_result : (r : Result (List ℕ)) → Appends (extend_result r)
unfolding extend_result
Appends-extend_result (ok bytes') s = Extends-extend bytes' s
Appends-extend_result (err e) s = Extends-refl s
Appends-extend_result undefined s = Extends-refl s

-- The bytes in front of a read outside of the object are written.
Appends-bytes_loop : (rounds : ℕ) (raw : List ℕ) → Appends (bytes_loop rounds raw)
unfolding bytes_loop
Appends-bytes_loop zero raw s = Extends-refl s
Appends-bytes_loop (suc rounds) [] s = Extends-refl s
Appends-bytes_loop (suc rounds) (b ∷ raw) s =
    Extends-trans s (push_back b s) _ (Extends-appended s (b ∷ []))
      (Appends-bytes_loop rounds raw (push_back b s))

pub Appends-bytes : (raw : List ℕ) (count : ℕ) → Appends (bytes raw count)
unfolding bytes
Appends-bytes raw count = Appends-bytes_loop count raw

pub Extends-boolean : (value : Bool) (s : Serializer) → Extends s (boolean value s)
unfolding boolean
Extends-boolean true s = Extends-appended s (1 ∷ [])
Extends-boolean false s = Extends-appended s (0 ∷ [])

pub Extends-uint8 : (value : ℕ) (s : Serializer) → Extends s (uint8 value s)
unfolding uint8
Extends-uint8 value s = Extends-appended s (value ∷ [])

pub Appends-varint : (type_size value : ℕ) → Appends (varint type_size value)
unfolding varint
Appends-varint type_size value = Appends-extend_result (encode_varint type_size value)

pub Appends-varint_vector :
    (type_size : ℕ) (values : List ℕ) → Appends (varint_vector type_size values)
unfolding varint_vector
Appends-varint_vector type_size values s =
    proceed-Extends s (varint 8 (length values) s) _ (Appends-varint 8 (length values) s)
      (Appends-each (varint type_size) values (Appends-varint type_size))

module _ (S : Serializable) where
  pub Appends-pod : (value : S.Object) → Appends (pod S value)
  unfolding pod
  Appends-pod value = Appends-extend_result (S.serialize value)

  pub Appends-pod_vector : (values : List S.Object) → Appends (pod_vector S values)
  unfolding pod_vector
  Appends-pod_vector values s =
      proceed-Extends s (varint 8 (length values) s) _ (Appends-varint 8 (length values) s)
        (Appends-each (pod S) values Appends-pod)

  pub Appends-pod_nested : (values : List (List S.Object)) → Appends (pod_nested S values)
  unfolding pod_nested
  Appends-pod_nested values s =
      proceed-Extends s (varint 8 (length values) s) _ (Appends-varint 8 (length values) s) (
        Appends-each _ values (λ level1 s'.
          proceed-Extends s' (varint 8 (length level1) s') _ (Appends-varint 8 (length level1) s')
            (Appends-each (pod S) level1 Appends-pod)))

pub extend_result_throws :
    (r : Result (List ℕ)) (s : Serializer) {e : Error} → r ≡ err e → extend_result r s ≡ (err e, s)
unfolding extend_result
extend_result_throws r s h = rw h refl

-- A value whose bytes could not be made leaves the writer as it was.
pub extend_result_err :
    (r : Result (List ℕ)) (s : Serializer) {e : Error}
    → (extend_result r s).0 ≡ err e
    → (extend_result r s).1 ≡ s
unfolding extend_result
extend_result_err (ok bytes') s h = absurd (cc h)
extend_result_err (err e) s h = refl
extend_result_err undefined s h = refl
