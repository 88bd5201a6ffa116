-- ===== src/Interface/Attempts.antt =====
-- Byte structures over their lives: an object that a client loads again and again, whatever comes of it.
use serialization_cpp.Common.{false, length, length-replicate, ℕ, ◌≡◌, List, [], ◌∷◌, refl}
use serialization_cpp.Common.Result.{Error, Result, ok, wrong_data_size, invalid_value_size, ◌>>=◌}
use serialization_cpp.Common.Run.{Run}
use serialization_cpp.Hex.{from_hex}
use serialization_cpp.Deserializer.{Deserializer}
use serialization_cpp.Pod.{Pod, deserialize_hooked, deserialize_reader_hooked, from_string_hooked}
use serialization_cpp.Pod.Copies.{
  copied, deserialize-copied, reader-copied, from_string-copied, stop-copied, length-copied,
  without_reader,
}
use serialization_cpp.Json.{Json, get_json_value}
use serialization_cpp.Json.Load.{string_or_throw, member_or_throw}
use serialization_cpp.Json.Structures.{pod_from_json_hooked, pod_from_json_at_hooked}
use serialization_cpp.Pod
use serialization_cpp.Deserializer

-- A load, by any of the members.
pub data Load (J : Json) : Type 0 where
  from_bytes from_text : List ℕ → Load J
  from_reader : Deserializer → Load J
  from_value : J.Value → Load J
  from_member : J.Value → List ℕ → Load J

module _ (J : Json) (SIZE : ℕ) (hook : Run Pod (Unit {0})) where
  -- The call of the code; what the reader is left with is not looked at.
  abbrev pub load : Load J → Run Pod (Unit {0})
  load (from_bytes bytes') p = deserialize_hooked SIZE hook bytes' p
  load (from_text str) p = from_string_hooked SIZE hook str p
  load (from_reader d) p = without_reader SIZE hook (deserialize_reader_hooked SIZE hook (d, p))
  load (from_value j) p = pod_from_json_hooked J SIZE hook j p
  load (from_member val key) p = pod_from_json_at_hooked J SIZE hook val key p

  -- The bytes of a JSON value.
  abbrev value_bytes : J.Value → Result (List ℕ)
  value_bytes j = string_or_throw J j >>= λ _. from_hex (J.get_string j)

  -- The bytes that a load is of, if there are any, and the message when they are not as many as the
  -- object has.
  abbrev pub offered : Load J → Result (List ℕ)
  offered (from_bytes bytes') = ok bytes'
  offered (from_text str) = from_hex str
  offered (from_reader d) = (Deserializer.bytes SIZE false d).0
  offered (from_value j) = value_bytes j
  offered (from_member val key) =
      member_or_throw J val key >>= λ _. get_json_value J val key >>= value_bytes

  abbrev pub mismatch : Load J → Error
  mismatch (from_bytes bytes') = wrong_data_size
  mismatch (from_text str) = invalid_value_size
  mismatch (from_reader d) = wrong_data_size
  mismatch (from_value j) = invalid_value_size
  mismatch (from_member val key) = invalid_value_size

  -- What a load promises: with no array that is written to.
  abbrev pub replaced : Load J → Run Pod (Unit {0})
  replaced l = copied SIZE hook (mismatch l) (offered l)

-- Loads in a row by a client that goes on after an exception: what they came to, and the object.
unfoldable pub attempts :
    {L : Type 0} → (L → Run Pod (Unit {0})) → List L → Pod → List (Result (Unit {0})) × Pod
attempts call [] p = ([], p)
attempts call (l ∷ ls) p =
    let (r, p') = call l p in let (rs, p'') = attempts call ls p' in (r ∷ rs, p'')

module _ (J : Json) (SIZE : ℕ) (hook : Run Pod (Unit {0}))
    (keeps : (q : Pod) → length q.bytes ≡ SIZE → length (hook q).1.bytes ≡ SIZE) where
  value-replaced :
      (j : J.Value) (p : Pod)
      → length p.bytes ≡ SIZE
      → pod_from_json_hooked J SIZE hook j p
        ≡ copied SIZE hook invalid_value_size (value_bytes J SIZE hook j) p
  unfolding pod_from_json_hooked
  value-replaced j p h =
      stop-copied SIZE hook invalid_value_size (string_or_throw J j) _
        (λ _. from_hex (J.get_string j)) p (λ _. from_string-copied SIZE hook (J.get_string j) p h)

  load-replaced :
      (l : Load J) (p : Pod)
      → length p.bytes ≡ SIZE
      → load J SIZE hook l p ≡ replaced J SIZE hook l p
  unfolding pod_from_json_at_hooked pod_from_json_hooked
  load-replaced (from_bytes bytes') p h = deserialize-copied SIZE hook bytes' p h
  load-replaced (from_text str) p h = from_string-copied SIZE hook str p h
  load-replaced (from_reader d) p h = reader-copied SIZE hook d p h
  load-replaced (from_value j) p h = value-replaced j p h
  load-replaced (from_member val key) p h =
      stop-copied SIZE hook invalid_value_size (member_or_throw J val key) _
        (λ _. get_json_value J val key >>= value_bytes J SIZE hook) p
        (λ _.
          stop-copied SIZE hook invalid_value_size (get_json_value J val key) _
            (value_bytes J SIZE hook) p (λ j. value-replaced j p h))

  attempts-replaced :
      (loads : List (Load J)) (p : Pod)
      → length p.bytes ≡ SIZE
      → attempts (load J SIZE hook) loads p ≡ attempts (replaced J SIZE hook) loads p
  unfolding attempts
  attempts-replaced [] p h = refl
  attempts-replaced (l ∷ ls) p h =
      let kept =
        length-copied SIZE hook (mismatch J SIZE hook l) (offered J SIZE hook l) p keeps h in
      rw (load-replaced l p h, attempts-replaced ls (replaced J SIZE hook l p).1 kept) refl

  -- A byte structure is a cell. Whatever a default object is loaded from, by whichever members and in
  -- whatever order, by a client that goes on after an exception, each load comes to what it does of a cell:
  -- as many bytes as the class has take the place of the old ones, and the hook is called on them; any
  -- other number of bytes throws, and what gives no bytes ends as that does, and both leave the object as
  -- it was. No load writes past the array. The hook leaves as many bytes as it finds.
  pub loads-replaced :
      (loads : List (Load J))
      → attempts (load J SIZE hook) loads (Pod.default SIZE)
        ≡ attempts (replaced J SIZE hook) loads (Pod.default SIZE)
  loads-replaced loads = attempts-replaced loads (Pod.default SIZE) (length-replicate SIZE 0)
