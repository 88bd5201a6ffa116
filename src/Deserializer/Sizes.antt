-- ===== src/Deserializer/Sizes.antt =====
-- A size that was written by somebody else cannot make a reader produce more elements than it has bytes.
use serialization_cpp.Common.{
  ltb, leb, ◌==◌, le→ltb, Bool-cases, length, length-drop, ℕ, zero, suc, ◌+◌, ◌≤◌, ◌<◌, ◌≡◌, inl,
  inr, false, ◌&&◌, List, ◌∷◌, arith, leb→le, take, drop, ◌∙◌, sym, ap, Bool,
}
use serialization_cpp.Common.Result.{Result, ok, err, undefined}
use serialization_cpp.Common.Run.{Run, pure, proceed}
use serialization_cpp.Serializable.{Serializable}
use serialization_cpp.Deserializer.{Deserializer, varint_vector, pod_vector, loaded}
use serialization_cpp.Deserializer.Reads.{Ready, unread}
use serialization_cpp.Deserializer.Refines.{Related, IsRoomy}
use serialization_cpp.Deserializer.Refinement.{Refines-varint_vector, Refines-pod_vector}
use serialization_cpp.Varint.Decode.{marked_run-le}
use serialization_cpp.Varint.Loop.{marked_run}
use serialization_cpp.Deserializer.Queue.{Queue, times}
use serialization_cpp.Deserializer.Queue

-- A success takes as many bytes as the measure of what was read.
abbrev pub Takes {ℓ} : {A : Type ℓ} → (A → ℕ) → ℕ → Result A × Queue → Type 0
Takes size left (ok a, q) = length q + size a ≤ left
Takes size left (err e, q) = Unit {0}
Takes size left (undefined, q) = Unit {0}

proceed-Takes {ℓ κ} :
    {A : Type ℓ} {B : Type κ} (left n : ℕ) (size : B → ℕ) (x : Result A × Queue)
    (f : A → Run Queue B)
    → Takes (λ a. n) left x
    → ((a : A) (q : Queue) → length q + n ≤ left → Takes size left (f a q))
    → Takes size left (proceed x f)
proceed-Takes left n size (ok a, q) f h k = k a q h
proceed-Takes left n size (err e, q) f h k = tt
proceed-Takes left n size (undefined, q) f h k = tt

-- An element more, read in front of the others.
proceed_more {ℓ} :
    {A : Type ℓ} (left : ℕ) (x : A) (q : Queue) (r : Result (List A) × Queue)
    → length q + 1 ≤ left
    → Takes length (length q) r
    → Takes length left (proceed r (λ xs. pure (x ∷ xs)))
proceed_more left x q (ok xs, q') h k = omega arith
proceed_more left x q (err e, q') h k = tt
proceed_more left x q (undefined, q') h k = tt

times-Takes {ℓ} :
    {A : Type ℓ} (read : Run Queue A) (count : ℕ) (q : Queue)
    → ((q : Queue) → Takes (λ a. 1) (length q) (read q))
    → Takes length (length q) (times count read q)
unfolding times
times-Takes read zero q k = omega arith
times-Takes read (suc count) q k =
    proceed-Takes (length q) 1 length (read q) _ (k q)
      (λ x q' h. proceed_more (length q) x q' (times count read q') h (times-Takes read count q' k))

varint-Takes : (size : ℕ) (q : Queue) → Takes (λ a. 1) (length q) (Queue.varint size false q)
varint-Takes size q =
    let all : ltb (length q) 0 ≡ false = le→ltb _ 0 (omega arith) in
    elim (Bool-cases (leb 10 (marked_run q) && ltb 10 (length q))) [
      | inl wide ↦ rw (all, wide) tt
      | inr narrow ↦ elim (Bool-cases (marked_run q == length q)) [
        | inl cut ↦ rw (all, narrow, cut) tt
        | inr whole ↦
            rw (all, narrow, whole)
              (ground (arith, marked_run-le q, length-drop (marked_run q + 1) q))
      ]
    ]

result-Takes {ℓ} :
    {A : Type ℓ} (r : Result A) (left n : ℕ) (q : Queue)
    → length q + n ≤ left
    → Takes (λ a. n) left (r, q)
result-Takes (ok a) left n q h = h
result-Takes (err e) left n q h = tt
result-Takes undefined left n q h = tt

pod-Takes :
    (S : Serializable) (q : Queue)
    → 0 < S.size S.default
    → Takes (λ a. 1) (length q) (Queue.pod S false q)
pod-Takes S q filled = elim (Bool-cases (leb (S.size S.default) (length q))) [
  | inl whole ↦
      let n = S.size S.default in
      let shorter : length (drop n q) + 1 ≤ length q =
        omega (arith, leb→le _ _ whole, length-drop n q) in
      rw whole
        (result-Takes (loaded (S.deserialize (take n q) S.default)) (length q) 1 (drop n q) shorter)
  | inr short ↦ rw short tt
]

proceed_counted {ℓ} :
    {A : Type ℓ} (left : ℕ) (r : Result (List A) × Queue) (q : Queue)
    → length q + 1 ≤ left
    → Takes length (length q) r
    → Takes (λ xs. length xs + 1) left r
proceed_counted left (ok xs, q') q h k = omega arith
proceed_counted left (err e, q') q h k = tt
proceed_counted left (undefined, q') q h k = tt

many-Takes {ℓ} :
    {A : Type ℓ} (read : Run Queue A) (q : Queue)
    → ((q : Queue) → Takes (λ a. 1) (length q) (read q))
    → Takes (λ xs. length xs + 1) (length q) (Queue.many read q)
many-Takes read q k =
    proceed-Takes (length q) 1 (λ xs. length xs + 1) (Queue.varint 8 false q) _ (varint-Takes 8 q)
      (λ count q' h.
        proceed_counted (length q) (times count read q') q' h (times-Takes read count q' k))

given_back_bound {ℓ} :
    {A : Type ℓ} (peek : Bool) (q : Queue) (r : Result (List A) × Queue) {xs : List A}
    → Takes (λ xs. length xs + 1) (length q) r
    → (Queue.given_back peek q r).0 ≡ ok xs
    → length xs < length q
given_back_bound peek q (ok ys, q') {xs} h e =
    let same : ys ≡ xs = cc e in omega (arith, ap length same)
given_back_bound peek q (err e', q') h e = absurd (cc e)
given_back_bound peek q (undefined, q') h e = absurd (cc e)

Related-ok :
    {A : Type 0} (d : Deserializer) (x : Result A × Deserializer) (y : Result A × Queue) {a : A}
    → Related d x y
    → x.0 ≡ ok a
    → y.0 ≡ ok a
Related-ok d (ok a', d') (ok b, q) (e, _, _, _) h = ap ok (sym e) ∙ h
Related-ok d (ok a', d') (err e, q) r h = absurd r
Related-ok d (ok a', d') (undefined, q) r h = absurd r
Related-ok d (err e, d') y r h = absurd (cc h)
Related-ok d (undefined, d') y r h = absurd (cc h)

-- However large the size that stands in front of them, numbers of a type of at most 8 bytes are read only
-- if they are fewer than the bytes that are left. The offset is in the buffer, and the buffer is more
-- than 64 bytes short of what `size_t` can measure.
varint_vector_bounded :
    (size : ℕ) (peek : Bool) (d : Deserializer) {values : List ℕ}
    → size ≤ 8
    → Ready d
    → IsRoomy d
    → (varint_vector size peek d).0 ≡ ok values
    → length values < length (unread d)
varint_vector_bounded size peek d native ready roomy e =
    let q = unread d in
    let r = Refines-varint_vector size peek native d ready roomy in
    given_back_bound peek q (Queue.many (Queue.varint size false) q)
      (many-Takes (Queue.varint size false) q (varint-Takes size)) (Related-ok d _ _ r e)

-- However large the size that stands in front of them, structures that a default object says to take at
-- least one byte are read only if they are fewer than the bytes that are left. The offset is in the
-- buffer, and the buffer is more than 64 bytes short of what `size_t` can measure.
pub pod_vector_bounded :
    (S : Serializable) (peek : Bool) (d : Deserializer) {objects : List S.Object}
    → 0 < S.size S.default
    → Ready d
    → IsRoomy d
    → (pod_vector S peek d).0 ≡ ok objects
    → length objects < length (unread d)
pod_vector_bounded S peek d filled ready roomy e =
    let q = unread d in
    let r = Refines-pod_vector S peek d ready roomy in
    given_back_bound peek q (Queue.many (Queue.pod S false) q)
      (many-Takes (Queue.pod S false) q (λ q'. pod-Takes S q' filled)) (Related-ok d _ _ r e)
