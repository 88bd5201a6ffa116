-- ===== src/Vector/Refused.antt =====
-- Loading a vector of which an element is refused.
use serialization_cpp.Common.{
  refl, length, All, All-drop, length-drop, ℕ, ◌^◌, ◌<◌, ◌≡◌, Bool, true, false, List, ◌∷◌, ◌++◌,
  arith,
}
use serialization_cpp.Common.Bits.{IsByte}
use serialization_cpp.Common.Result.{Error, err}
use serialization_cpp.Serializable.{Serializable, IsFixedSize}
use serialization_cpp.Deserializer.{Deserializer, loaded}
use serialization_cpp.Deserializer.Reads.{Ready, unread, moved}
use serialization_cpp.Deserializer.Stops.{up_to, pod_vector-Throws}
use serialization_cpp.Stream.{varint_code}
use serialization_cpp.Stream.Bytes.{count_code_lem}
use serialization_cpp.Vector.{SerializableVector}
use serialization_cpp.Vector
use serialization_cpp.Deserializer

-- A reader of what another one has not read.
unread-Ready : (d : Deserializer) → Ready d → Ready (record { buffer = unread d; offset = 0 })
unread-Ready d h = record {
  inside = omega arith;
  measured = omega (arith, h.measured, length-drop d.offset d.buffer);
  all_bytes = All-drop IsByte d.offset d.buffer h.all_bytes;
}

module _ (S : Serializable) (laws : IsFixedSize S) (front rest : List S.Object)
    (bad : S.Object) where
  -- The bytes of a vector of the three, as far as the end of the second.
  abbrev pub refused_code : List ℕ
  refused_code = varint_code 8 (length (front ++ (bad ∷ rest))) ++ up_to laws.encode front bad

  -- Loading a vector is all or nothing. If an element is refused, that is, throws when it is loaded from
  -- as many bytes as a default one takes, and those before it can be read back, loading the vector from a
  -- reader or from bytes throws the same exception, and the vector keeps its old elements. The reader is
  -- then behind the refused element, and so it is when it was only to peek at the vector. The elements are
  -- fewer than 2 ^ 64, and the offset is in the buffer.
  pub vector_refused :
      (d : Deserializer) (more : List ℕ) (old : SerializableVector S) {e : Error}
      → length (front ++ (bad ∷ rest)) < 2 ^ 64
      → All laws.Keeps front
      → length (laws.encode bad) ≡ S.size S.default
      → loaded (S.deserialize (laws.encode bad) S.default) ≡ err e
      → Ready d
      → unread d ≡ refused_code ++ more
      → (Vector.deserialize_reader S (d, old) ≡ (err e, (moved (length refused_code) d, old)))
        × (Vector.deserialize S (unread d) old ≡ (err e, old))
        × (Deserializer.pod_vector S true d ≡ (err e, moved (length refused_code) d))
  unfolding Vector.deserialize_reader Vector.deserialize Deserializer.of_vector
  vector_refused d more old small k size fails ready left =
      let throws = λ (peek : Bool).
        pod_vector-Throws S laws peek front rest bad small (count_code_lem _ small) k size fails in
      let again : Deserializer = record { buffer = unread d; offset = 0 } in
      (
        rw (throws false d more ready left) refl,
        rw (throws false again more (unread-Ready d ready) left) refl,
        throws true d more ready left,
      )
