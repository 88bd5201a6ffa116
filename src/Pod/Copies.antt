-- ===== src/Pod/Copies.antt =====
-- What a load of a pod promises: the bytes that it is of are all of the pod, or none of them.
use serialization_cpp.Common.{
  false, length, ◌==◌, if◌then◌else◌, ℕ, ◌≡◌, Bool-cases, inl, inr, List, refl, arith, true,
}
use serialization_cpp.Common.Result.{
  Error, Result, ok, err, undefined, wrong_data_size, invalid_value_size, ◌>>=◌,
}
use serialization_cpp.Common.Run.{Run, stop}
use serialization_cpp.Hex.{from_hex}
use serialization_cpp.Deserializer.{Deserializer}
use serialization_cpp.Pod.{
  Pod, deserialize_hooked, deserialize_read, deserialize_reader_hooked, copy_input,
  from_string_hooked, memcpy,
}
use serialization_cpp.Pod.Laws.{memcpy_all}
use serialization_cpp.Deserializer

-- As many bytes as the pod has take the place of those that it had, and the hook is called; any other
-- number of them, and no bytes, leave it alone.
abbrev pub copied : ℕ → Run Pod (Unit {0}) → Error → Result (List ℕ) → Run Pod (Unit {0})
copied SIZE hook mismatch (ok bytes') p =
    if length bytes' == SIZE then hook (record { bytes = bytes' }) else (err mismatch, p)
copied SIZE hook mismatch (err e) p = (err e, p)
copied SIZE hook mismatch undefined p = (undefined, p)

module _ (SIZE : ℕ) (hook : Run Pod (Unit {0})) where
  fitting :
      (p : Pod) (bytes' : List ℕ)
      → length p.bytes ≡ SIZE
      → (length bytes' == SIZE) ≡ true
      → memcpy p.bytes bytes' ≡ ok bytes'
  fitting p bytes' h same = memcpy_all p.bytes bytes' (ground (arith, h, same))

  pub deserialize-copied :
      (bytes' : List ℕ) (p : Pod)
      → length p.bytes ≡ SIZE
      → deserialize_hooked SIZE hook bytes' p ≡ copied SIZE hook wrong_data_size (ok bytes') p
  unfolding deserialize_hooked
  deserialize-copied bytes' p h = elim (Bool-cases (length bytes' == SIZE)) [
    | inl same ↦ rw (same, fitting p bytes' h same) refl
    | inr other ↦ rw other refl
  ]

  input-copied :
      (r : Result (List ℕ)) (p : Pod)
      → length p.bytes ≡ SIZE
      → copy_input SIZE hook r p ≡ copied SIZE hook invalid_value_size r p
  unfolding copy_input
  input-copied (ok input) p h = elim (Bool-cases (length input == SIZE)) [
    | inl same ↦ rw (same, fitting p input h same) refl
    | inr other ↦ rw other refl
  ]
  input-copied (err e) p h = refl
  input-copied undefined p h = refl

  pub from_string-copied :
      (str : List ℕ) (p : Pod)
      → length p.bytes ≡ SIZE
      → from_string_hooked SIZE hook str p ≡ copied SIZE hook invalid_value_size (from_hex str) p
  unfolding from_string_hooked
  from_string-copied str p h = input-copied (from_hex str) p h

  -- What a load from a reader comes to, and the object.
  abbrev pub without_reader : Result (Unit {0}) × (Deserializer × Pod) → Result (Unit {0}) × Pod
  without_reader (r, (d, p)) = (r, p)

  read-copied :
      (x : Result (List ℕ) × Deserializer) (p : Pod)
      → length p.bytes ≡ SIZE
      → without_reader (deserialize_read SIZE hook p x) ≡ copied SIZE hook wrong_data_size x.0 p
  unfolding deserialize_read
  read-copied (ok bytes', d) p h = deserialize-copied bytes' p h
  read-copied (err e, d) p h = refl
  read-copied (undefined, d) p h = refl

  pub reader-copied :
      (d : Deserializer) (p : Pod)
      → length p.bytes ≡ SIZE
      → without_reader (deserialize_reader_hooked SIZE hook (d, p))
        ≡ copied SIZE hook wrong_data_size (Deserializer.bytes SIZE false d).0 p
  unfolding deserialize_reader_hooked
  reader-copied d p h = read-copied (Deserializer.bytes SIZE false d) p h

  -- A test in front of a load.
  pub stop-copied {ℓ} :
      {A : Type ℓ} (mismatch : Error) (r : Result A) (f : A → Run Pod (Unit {0}))
      (bytes_of : A → Result (List ℕ)) (p : Pod)
      → ((a : A) → f a p ≡ copied SIZE hook mismatch (bytes_of a) p)
      → stop r f p ≡ copied SIZE hook mismatch (r >>= bytes_of) p
  stop-copied mismatch (ok a) f bytes_of p h = h a
  stop-copied mismatch (err e) f bytes_of p h = refl
  stop-copied mismatch undefined f bytes_of p h = refl

  pub length-copied :
      (mismatch : Error) (r : Result (List ℕ)) (p : Pod)
      → ((q : Pod) → length q.bytes ≡ SIZE → length (hook q).1.bytes ≡ SIZE)
      → length p.bytes ≡ SIZE
      → length (copied SIZE hook mismatch r p).1.bytes ≡ SIZE
  length-copied mismatch (ok bytes') p keeps h = elim (Bool-cases (length bytes' == SIZE)) [
    | inl same ↦ rw same (keeps _ (ground (arith, same)))
    | inr other ↦ rw other h
  ]
  length-copied mismatch (err e) p keeps h = h
  length-copied mismatch undefined p keeps h = h
