-- ===== src/Stream/RoundTrip.antt =====
-- What a program writes to a `serializer_t`, a `deserializer_t` made of it gives back.
use serialization_cpp.Common.{
  length, All, All-append, All-map, ℕ, suc, ◌+◌, ◌^◌, ◌≤◌, ◌<◌, ◌≡◌, sym, ◌∙◌, Bool, true, false,
  List, [], ◌∷◌, ◌++◌, append-nil, arith, All-reverse,
}
use serialization_cpp.Common.Bits.{IsByte}
use serialization_cpp.Common.Run.{◌>>=◌, pure}
use serialization_cpp.Common.Result.{ok}
use serialization_cpp.Varint.Encode.{varint_bytes-IsByte, modulus-le}
use serialization_cpp.Varint.{modulus}
use serialization_cpp.Pack.{pack, Layout}
use serialization_cpp.Pack.Native.{uint16_t, uint32_t, uint64_t}
use serialization_cpp.Pack.Memory.{pack-ordered}
use serialization_cpp.Serializable.{Serializable, IsFixedSize}
use serialization_cpp.Serializer.{Serializer, empty}
use serialization_cpp.Serializer.Writes.{Writes, joined, Writes-each}
use serialization_cpp.Deserializer.{Deserializer, of_writer}
use serialization_cpp.Deserializer.Reads.{Reads->>=, Reads, Reads-pure, Reads-map, Ready}
use serialization_cpp.Stream.{
  boolean, uint8, uint16, uint32, uint64, uint128, uint256, bytes, hex, varint, varint_vector, pod,
  pod_vector, pod_nested, varint_code, write, read, read_all, write_all, Fits, encoding, Item,
}
use serialization_cpp.Stream.Bytes.{hex_item, write-encoding, read-encoding}

pack-IsByte : (T : Layout) (v : T.Value) (be : Bool) → All IsByte (pack T v be)
pack-IsByte T v true = rw pack-ordered (All-reverse IsByte (T.store v) (T.store-IsByte v))
pack-IsByte T v false = rw pack-ordered (T.store-IsByte v)

joined-IsByte {ℓ κ} :
    {A : Type ℓ} (P : A → Type κ) (encode : A → List ℕ)
    → ((x : A) → P x → All IsByte (encode x))
    → (xs : List A) → All P xs
    → All IsByte (joined encode xs)
joined-IsByte P encode f [] h = tt
joined-IsByte P encode f (x ∷ xs) (p, h) =
    All-append IsByte (encode x) _ (f x p) (joined-IsByte P encode f xs h)

pub varint_code-IsByte : (n v : ℕ) → n ≤ 8 → v < modulus n → All IsByte (varint_code n v)
varint_code-IsByte n v h f =
    let fits : v < 128 ^ (n + 2) = omega (arith, modulus-le n (omega arith)) in
    let same : n + 2 ≡ suc (n + 1) = omega arith in varint_bytes-IsByte (n + 1) v (rw same at fits)

module _ (S : Serializable) (laws : IsFixedSize S) where
  pub vector-IsByte :
      (vs : List S.Object)
      → (length vs < 2 ^ 64) × All laws.Keeps vs
      → All IsByte (varint_code 8 (length vs) ++ joined laws.encode vs)
  vector-IsByte vs (hl, hv) =
      All-append IsByte (varint_code 8 (length vs)) _ (varint_code-IsByte 8 _ (omega arith) hl)
        (joined-IsByte laws.Keeps laws.encode laws.encode-IsByte vs hv)

module _ (W128 W256 : Layout) (S : Serializable) (laws : IsFixedSize S) where
  encoding-IsByte :
      (item : Item W128 W256 S)
      → Fits W128 W256 S laws item
      → All IsByte (encoding W128 W256 S laws item)
  encoding-IsByte (boolean true) h = omega arith
  encoding-IsByte (boolean false) h = omega arith
  encoding-IsByte (uint8 v) h = (h, tt)
  encoding-IsByte (uint16 v be) h = pack-IsByte uint16_t v be
  encoding-IsByte (uint32 v be) h = pack-IsByte uint32_t v be
  encoding-IsByte (uint64 v be) h = pack-IsByte uint64_t v be
  encoding-IsByte (uint128 v be) h = pack-IsByte W128 v be
  encoding-IsByte (uint256 v be) h = pack-IsByte W256 v be
  encoding-IsByte (bytes bs) h = h
  encoding-IsByte (hex text) (bs, hb, e) = rw (← (hex_item text bs hb e).1) hb
  encoding-IsByte (varint n v) (hn, hv) = varint_code-IsByte n v hn hv
  encoding-IsByte (varint_vector n vs) (hn, hl, hv) =
      All-append IsByte (varint_code 8 (length vs)) _ (varint_code-IsByte 8 _ (omega arith) hl) (
        joined-IsByte (λ v. v < modulus n) (varint_code n) (λ v f. varint_code-IsByte n v hn f) vs
          hv)
  encoding-IsByte (pod v) h = laws.encode-IsByte v h
  encoding-IsByte (pod_vector vs) h = vector-IsByte S laws vs h
  encoding-IsByte (pod_nested vss) (hl, hv) =
      All-append IsByte (varint_code 8 (length vss)) _ (varint_code-IsByte 8 _ (omega arith) hl) (
        joined-IsByte (λ vs. (length vs < 2 ^ 64) × All laws.Keeps vs) _ (vector-IsByte S laws) vss
          hv)

  -- The bytes of a whole conversation.
  abbrev pub stream : List (Item W128 W256 S) → List ℕ
  stream = joined (encoding W128 W256 S laws)

  write_all-stream :
      (items : List (Item W128 W256 S))
      → All (Fits W128 W256 S laws) items
      → Writes (write_all W128 W256 S items) (stream items)
  unfolding write_all
  write_all-stream items h =
      Writes-each (write W128 W256 S) (encoding W128 W256 S laws) items
        (All-map _ _ (write-encoding W128 W256 S laws) items h)

  read_all-stream :
      (items : List (Item W128 W256 S))
      → All (Fits W128 W256 S laws) items
      → Reads (read_all W128 W256 S items) (stream items) items
  unfolding read_all
  read_all-stream [] h = Reads-pure []
  read_all-stream (item ∷ items) (hi, hs) =
      Reads->>= (read W128 W256 S item) (λ x. read_all W128 W256 S items >>= λ xs. pure (x ∷ xs))
        (encoding W128 W256 S laws item) (stream items) item (item ∷ items)
        (read-encoding W128 W256 S laws item hi)
        (Reads-map (read_all W128 W256 S items) (λ xs. item ∷ xs) (stream items) items
          (read_all-stream items hs))

  -- Writing any items whose arguments are of their types appends exactly the bytes that stand for them,
  -- in order, to whatever the writer held, and no call throws.
  pub write_all_lem :
      (items : List (Item W128 W256 S)) (s : Serializer)
      → All (Fits W128 W256 S laws) items
      → write_all W128 W256 S items s ≡ (ok tt, record { buffer = s.buffer ++ stream items })
  write_all_lem items s h = write_all-stream items h s

  pub stream-IsByte :
      (items : List (Item W128 W256 S))
      → All (Fits W128 W256 S laws) items
      → All IsByte (stream items)
  stream-IsByte items h = joined-IsByte (Fits W128 W256 S laws) _ encoding-IsByte items h

  pub read_all-whole :
      (items : List (Item W128 W256 S))
      → All (Fits W128 W256 S laws) items
      → length (stream items) < 2 ^ 64
      → read_all W128 W256 S items (record { buffer = stream items; offset = 0 })
        ≡ (ok items, record { buffer = stream items; offset = length (stream items) })
  read_all-whole items h small =
      let start : Deserializer = record { buffer = stream items; offset = 0 } in
      let ready : Ready start = record {
        inside = omega arith;
        measured = small;
        all_bytes = stream-IsByte items h;
      } in
      let e : 0 + length (stream items) ≡ length (stream items) = omega arith in
      read_all-stream items h start [] ready (sym (append-nil (stream items))) ∙ λ i.
      (ok items, record { buffer = stream items; offset = e i })

  -- What was written to an empty writer, with arguments of their types and in fewer than 2 ^ 64 bytes, is
  -- read back, item by item, by a reader made of it, which then stands at the end of its buffer: no read
  -- throws or leaves the buffer.
  pub read_all-write_all :
      (items : List (Item W128 W256 S))
      → All (Fits W128 W256 S laws) items
      → length (stream items) < 2 ^ 64
      → read_all W128 W256 S items (of_writer (write_all W128 W256 S items empty).1)
        ≡ (ok items, record { buffer = stream items; offset = length (stream items) })
  unfolding of_writer
  read_all-write_all items h small =
      rw (write_all-stream items h empty) (read_all-whole items h small)
