-- ===== src/Stream/Truncated.antt =====
-- What a program wrote and somebody cut is never taken for the whole.
use serialization_cpp.Common.{
  List, ℕ, [], ◌∷◌, length, All, ◌+◌, ◌^◌, ◌<◌, ◌/◌, take, false, ◌≢◌, ◌≡◌, ◌≤◌, arith, ap, ◌∙◌,
  drop, take-append-drop, length-take,
}
use serialization_cpp.Common.Run.{Run, ◌>>=◌, pure}
use serialization_cpp.Common.Result.{ok, Result, err, undefined}
use serialization_cpp.Deserializer.{Deserializer, of_vector}
use serialization_cpp.Deserializer.Steady.{
  Steady, Steady->>=, Steady-pure, Steady-ask, Settled, longer,
}
use serialization_cpp.Deserializer.Requests.{ask}
use serialization_cpp.Pack.{Layout}
use serialization_cpp.Serializable.{Serializable, IsFixedSize}
use serialization_cpp.Stream.{Item, read, read_all, Fits}
use serialization_cpp.Stream.RoundTrip.{stream, stream-IsByte, read_all-whole}
use serialization_cpp.Deserializer.Reads.{Ready}
use serialization_cpp.Stream
use serialization_cpp.Deserializer.Requests

module _ (W128 W256 : Layout) (S : Serializable) (laws : IsFixedSize S) where
  -- A read's result put in the item's place.
  Steady-map :
      {A B : Type 0} (m : Run Deserializer A) (g : A → B)
      → Steady m
      → Steady (m >>= λ x. pure (g x))
  Steady-map m g h = Steady->>= m _ h (λ x. Steady-pure (g x))

  Steady-read :
      (item : Item W128 W256 S) → Fits W128 W256 S laws item → Steady (read W128 W256 S item)
  unfolding read ask
  Steady-read (Stream.boolean _) h =
      Steady-map _ Stream.boolean (Steady-ask W128 W256 S (Requests.boolean false) tt)
  Steady-read (Stream.uint8 _) h =
      Steady-map _ Stream.uint8 (Steady-ask W128 W256 S (Requests.uint8 false) tt)
  Steady-read (Stream.uint16 _ be) h =
      Steady-map _ (λ v. Stream.uint16 v be) (Steady-ask W128 W256 S (Requests.uint16 false be) tt)
  Steady-read (Stream.uint32 _ be) h =
      Steady-map _ (λ v. Stream.uint32 v be) (Steady-ask W128 W256 S (Requests.uint32 false be) tt)
  Steady-read (Stream.uint64 _ be) h =
      Steady-map _ (λ v. Stream.uint64 v be) (Steady-ask W128 W256 S (Requests.uint64 false be) tt)
  Steady-read (Stream.uint128 _ be) h =
      Steady-map _ (λ v. Stream.uint128 v be)
        (Steady-ask W128 W256 S (Requests.uint128 false be) tt)
  Steady-read (Stream.uint256 _ be) h =
      Steady-map _ (λ v. Stream.uint256 v be)
        (Steady-ask W128 W256 S (Requests.uint256 false be) tt)
  Steady-read (Stream.bytes bs) h =
      Steady-map _ Stream.bytes (Steady-ask W128 W256 S (Requests.bytes (length bs) false) tt)
  Steady-read (Stream.hex text) h =
      Steady-map _ Stream.hex (Steady-ask W128 W256 S (Requests.hex (length text / 2) false) tt)
  Steady-read (Stream.varint n _) (native, _) =
      Steady-map _ (Stream.varint n) (Steady-ask W128 W256 S (Requests.varint n false) native)
  Steady-read (Stream.varint_vector n _) (native, _, _) =
      Steady-map _ (Stream.varint_vector n)
        (Steady-ask W128 W256 S (Requests.varint_vector n false) native)
  Steady-read (Stream.pod _) h =
      Steady-map _ Stream.pod (Steady-ask W128 W256 S (Requests.pod false) tt)
  Steady-read (Stream.pod_vector _) h =
      Steady-map _ Stream.pod_vector (Steady-ask W128 W256 S (Requests.pod_vector false) tt)
  Steady-read (Stream.pod_nested _) h =
      Steady-map _ Stream.pod_nested (Steady-ask W128 W256 S (Requests.pod_nested false) tt)

  Steady-read_all :
      (items : List (Item W128 W256 S))
      → All (Fits W128 W256 S laws) items
      → Steady (read_all W128 W256 S items)
  unfolding read_all
  Steady-read_all [] h = Steady-pure []
  Steady-read_all (item ∷ items) (h, hs) =
      Steady->>= (read W128 W256 S item) _ (Steady-read item h)
        (λ x. Steady-map (read_all W128 W256 S items) (λ xs. x ∷ xs) (Steady-read_all items hs))

  Settled-end :
      {A : Type 0} (more : List ℕ) (d : Deserializer) (x y : Result A × Deserializer) {a : A}
      → Settled more d x y
      → x.0 ≡ ok a
      → y.1.offset ≤ length d.buffer
  Settled-end more d (ok _, e) y (same, buffer, inside) h =
      omega (arith, ap (λ t. t.1.offset) same, ap length buffer, inside)
  Settled-end more d (err _, e) y s h = absurd (cc h)
  Settled-end more d (undefined, e) y s h = absurd (cc h)

  -- The reads that answer some writes never all succeed on a strict front of the bytes that were
  -- written: what a sequence of calls wrote, cut short, is not read as whole. The items are values of
  -- their types, structures are ones that keep the laws of `IsFixedSize`, and the bytes written are more
  -- than 64 short of 2 ^ 64.
  pub read_all-take :
      (items xs : List (Item W128 W256 S)) (n : ℕ)
      → All (Fits W128 W256 S laws) items
      → length (stream W128 W256 S laws items) + 64 < 2 ^ 64
      → n < length (stream W128 W256 S laws items)
      → (read_all W128 W256 S items (of_vector (take n (stream W128 W256 S laws items)))).0 ≢ ok xs
  unfolding of_vector
  read_all-take items xs n fits roomy short h =
      let whole = stream W128 W256 S laws items in
      let front : Deserializer = record { buffer = take n whole; offset = 0 } in
      let back = drop n whole in
      let same : longer back front ≡ record { buffer = whole; offset = 0 } =
        λ i. record { buffer = take-append-drop n whole i; offset = 0 } in
      let all_read =
        ap (read_all W128 W256 S items) same
        ∙ read_all-whole W128 W256 S laws items fits (omega (arith, roomy)) in
      let bytes' = stream-IsByte W128 W256 S laws items fits in
      let ready : Ready (longer back front) =
        rw same
          (record { inside = omega arith; measured = omega (arith, roomy); all_bytes = bytes' }) in
      let steady =
        Steady-read_all items fits front back (omega arith) ready
          (rw (take-append-drop n whole) roomy) in
      let end = Settled-end back front _ _ steady h in
      absurd (omega (arith, end, ap (λ t. t.1.offset) all_read, length-take n whole, short))
