-- ===== src/Stream/Stops.antt =====
-- What calls in a row leave in a writer when one of them throws.
use serialization_cpp.Common.{
  List, ℕ, [], ◌∷◌, length, All, ◌^◌, ◌<◌, ◌++◌, sym, ◌∙◌, All-map, ◌≡◌, subst,
}
use serialization_cpp.Common.Run.{Run}
use serialization_cpp.Common.Result.{ok, err, Error}
use serialization_cpp.Serializer.{Serializer}
use serialization_cpp.Serializer.Writes.{
  Writes, appended, joined, appended-nil, appended-append, Writes-varint, Writes-pod,
}
use serialization_cpp.Serializable.{Serializable, IsFixedSize}
use serialization_cpp.Stream.{varint_code, Item, Fits, write, write_all, encoding}
use serialization_cpp.Stream.Bytes.{count_code_lem, write-encoding}
use serialization_cpp.Stream.RoundTrip.{stream}
use serialization_cpp.Stream.Reach.{IsSingle, write_err}
use serialization_cpp.Pack.{Layout}
use serialization_cpp.Serializer.Appends.{extend_result_throws}
use serialization_cpp.Serializer

-- The calls before the one that throws have written, it has not, and those behind it are not made.
each_stops {ℓ} :
    {A : Type ℓ} (f : A → Run Serializer (Unit {0})) (encode : A → List ℕ) (front rest : List A)
    (x : A) (s : Serializer) {e : Error}
    → All (λ y. Writes (f y) (encode y)) front
    → f x (appended s (joined encode front)) ≡ (err e, appended s (joined encode front))
    → Serializer.each f (front ++ (x ∷ rest)) s ≡ (err e, appended s (joined encode front))
unfolding Serializer.each
each_stops f encode [] rest x s {e} h fails =
    let fails' = subst (λ t. f x t ≡ (err e, t)) (appended-nil s) fails in
    let same = sym (appended-nil s) in rw fails' (λ i. (err e, same i))
each_stops f encode (y ∷ front) rest x s {e} (h, hs) fails =
    let s' = appended s (encode y) in
    let same = appended-append s (encode y) (joined encode front) in
    let fails' = subst (λ t. f x t ≡ (err e, t)) (sym same) fails in
    rw (h s) (each_stops f encode front rest x s' hs fails' ∙ λ i. (err e, same i))

module _ (S : Serializable) where
  pod_stops :
      (x : S.Object) (s : Serializer) {e : Error}
      → S.serialize x ≡ err e
      → Serializer.pod S x s ≡ (err e, s)
  unfolding Serializer.pod
  pod_stops x s fails = extend_result_throws (S.serialize x) s fails

  -- Writing a vector of fewer than 2 ^ 64 structures, of which one throws when it is serialized and those
  -- before it do not, gives the exception. The writer then holds what it held, the size of the whole
  -- vector, and the structures before that one.
  pod_vector_stops :
      (encode : S.Object → List ℕ) (front rest : List S.Object) (x : S.Object) (s : Serializer)
      {e : Error}
      → length (front ++ (x ∷ rest)) < 2 ^ 64
      → All (λ y. S.serialize y ≡ ok (encode y)) front
      → S.serialize x ≡ err e
      → Serializer.pod_vector S (front ++ (x ∷ rest)) s
        ≡ (err e, appended s (varint_code 8 (length (front ++ (x ∷ rest))) ++ joined encode front))
  unfolding Serializer.pod_vector
  pod_vector_stops encode front rest x s {e} small h fails =
      let count = length (front ++ (x ∷ rest)) in
      let code = varint_code 8 count in
      let sized = Writes-varint 8 count (count_code_lem count small) s in
      let writes = All-map _ _ (λ y g. Writes-pod S y (encode y) g) front h in
      let last = pod_stops x (appended (appended s code) (joined encode front)) fails in
      let same = appended-append s code (joined encode front) in
      rw sized (
        each_stops (Serializer.pod S) encode front rest x (appended s code) writes last ∙ λ i.
        (err e, same i))

module _ (W128 W256 : Layout) (S : Serializable) (laws : IsFixedSize S) where
  -- Calls in a row, of which the first ones are given values of their types and the next one writes one
  -- value and throws, end in its exception, and the writer holds what it held and the bytes that stand for
  -- the first ones: of that one and those behind it nothing is written.
  write_all_stops :
      (front rest : List (Item W128 W256 S)) (item : Item W128 W256 S) (s : Serializer) {e : Error}
      → All (Fits W128 W256 S laws) front
      → IsSingle W128 W256 S item
      → (write W128 W256 S item (appended s (stream W128 W256 S laws front))).0 ≡ err e
      → write_all W128 W256 S (front ++ (item ∷ rest)) s
        ≡ (err e, appended s (stream W128 W256 S laws front))
  unfolding write_all
  write_all_stops front rest item s {e} fits single fails =
      let kept =
        write_err W128 W256 S item (appended s (stream W128 W256 S laws front)) single fails in
      let writes = All-map _ _ (write-encoding W128 W256 S laws) front fits in
      each_stops (write W128 W256 S) (encoding W128 W256 S laws) front rest item s writes
        (λ i. (fails i, kept i))
