-- ===== src/Deserializer/Vectors.antt =====
-- The reads of structures and of vectors take the bytes that the writes of them append.
use serialization_cpp.Common.{
  if◌then◌else◌, length, All, length-append, All-map, ℕ, ◌+◌, ◌^◌, ◌≤◌, ◌<◌, ◌≡◌, refl, sym, ap,
  ◌∙◌, Bool, true, false, List, ◌++◌, append_assoc, arith,
}
use serialization_cpp.Common.Result.{ok}
use serialization_cpp.Common.Run.{Run, pure, ◌>>=◌, ◌>>◌}
use serialization_cpp.Varint.{modulus, encode_varint}
use serialization_cpp.Serializable.{Serializable, IsFixedSize}
use serialization_cpp.Serializer.Writes.{joined}
use serialization_cpp.Deserializer.{
  bytes, reset, varint, repeat, restore, varint_vector, pod, pod_vector, pod_nested, Deserializer,
}
use serialization_cpp.Deserializer.Reads.{
  moved, Reads, ReadsOrPeeks, Ready-moved, unread-moved, moved-moved, Reads->>=, Reads-repeat,
  Reads-false,
}
use serialization_cpp.Deserializer.Methods.{Reads-bytes, Reads-varint}

-- The size of a vector, as a varint of `size_t`.
pub Reads-count :
    (count : ℕ) {output : List ℕ}
    → count < 2 ^ 64
    → encode_varint 8 count ≡ ok output
    → Reads (varint 8 false) output count
Reads-count count {output} h w =
    Reads-false (varint 8) output count (Reads-varint 8 count (omega arith) h w)

-- The end of a vector's read: back to where it began, on demand.
restore-moved :
    (peek : Bool) (m n : ℕ) (d : Deserializer)
    → restore peek d.offset (moved n (moved m d)) ≡ (ok tt, if peek then d else moved (m + n) d)
unfolding restore reset
restore-moved true m n d = refl
restore-moved false m n d = let e = moved-moved m n d in λ i. (ok tt, e i)

-- A size, and so many reads behind it.
abbrev counted {ℓ} : {A : Type ℓ} → Run Deserializer A → Bool → Run Deserializer (List A)
counted {A} read peek d =
    let run : Run Deserializer (List A) = do
      count ← varint 8 false
      result ← repeat count read
      restore peek d.offset
      pure result
    in run d

Reads-counted {ℓ} :
    {A : Type ℓ} (read : Run Deserializer A) (encode : A → List ℕ) (xs : List A) {output : List ℕ}
    → length xs < 2 ^ 64
    → encode_varint 8 (length xs) ≡ ok output
    → All (λ x. Reads read (encode x) x) xs
    → ReadsOrPeeks (counted read) (output ++ joined encode xs) xs
Reads-counted read encode xs {output} hn w hs peek d rest h e =
    let e' = e ∙ append_assoc output (joined encode xs) rest in
    let first = Reads-count (length xs) hn w d (joined encode xs ++ rest) h e' in
    let d' = moved (length output) d in
    let second =
      Reads-repeat read encode xs hs d' rest (Ready-moved d output _ h e')
        (unread-moved d output _ e') in
    let third = restore-moved peek (length output) (length (joined encode xs)) d in
    let l : length output + length (joined encode xs) ≡ length (output ++ joined encode xs) =
      sym (length-append output (joined encode xs)) in
    rw (first, second, third) (λ i. (ok xs, if peek then d else moved (l i) d))

pub Reads-varint_vector :
    (type_size : ℕ) (values : List ℕ) (encode : ℕ → List ℕ) {output : List ℕ}
    → type_size ≤ 8
    → length values < 2 ^ 64
    → encode_varint 8 (length values) ≡ ok output
    → All (λ v. (v < modulus type_size) × (encode_varint type_size v ≡ ok (encode v))) values
    → ReadsOrPeeks (varint_vector type_size) (output ++ joined encode values) values
unfolding varint_vector
Reads-varint_vector type_size values encode {output} hs hn w all_fit =
    Reads-counted (varint type_size false) encode values hn w (
      All-map _ _
        (λ v (lt, e).
          Reads-false (varint type_size) (encode v) v (Reads-varint type_size v hs lt e))
        values all_fit)

module _ (S : Serializable) (laws : IsFixedSize S) where
  pub Reads-pod : (v : S.Object) → laws.Keeps v → ReadsOrPeeks (pod S) (laws.encode v) v
  unfolding pod
  Reads-pod v k peek d rest h e =
      let l = laws.length-encode v k in
      let same : bytes (S.size S.default) peek d ≡ bytes (length (laws.encode v)) peek d =
        ap (λ n. bytes n peek d) (sym l) in
      rw (same, Reads-bytes (laws.encode v) peek d rest h e, laws.deserialize-encode v k)

  pub Reads-pod_vector :
      (values : List S.Object) {output : List ℕ}
      → length values < 2 ^ 64
      → encode_varint 8 (length values) ≡ ok output
      → All laws.Keeps values
      → ReadsOrPeeks (pod_vector S) (output ++ joined laws.encode values) values
  unfolding pod_vector
  Reads-pod_vector values hn w k =
      Reads-counted (pod S false) laws.encode values hn w
        (All-map _ _ (λ v kv. Reads-false (pod S) (laws.encode v) v (Reads-pod v kv)) values k)

  -- A vector inside of a nested one: its size, and its elements.
  abbrev pub inner_encode : (ℕ → List ℕ) → List S.Object → List ℕ
  inner_encode count values = count (length values) ++ joined laws.encode values

  pub Reads-pod_nested :
      (values : List (List S.Object)) (count : ℕ → List ℕ)
      → ((n : ℕ) → n < 2 ^ 64 → encode_varint 8 n ≡ ok (count n))
      → length values < 2 ^ 64
      → All (λ level1. (length level1 < 2 ^ 64) × All laws.Keeps level1) values
      → ReadsOrPeeks
          (pod_nested S)
          (count (length values) ++ joined (inner_encode count) values)
          values
  unfolding pod_nested
  Reads-pod_nested values count w hn k =
      let level2 : Run Deserializer (List S.Object) = do n ← varint 8 false; repeat n (pod S false)
      in Reads-counted level2 (inner_encode count) values hn (w _ hn) (
        All-map _ _
          (λ level1 (hl, ks).
            Reads->>= (varint 8 false) (λ n. repeat n (pod S false)) (count (length level1))
              (joined laws.encode level1) (length level1) level1
              (Reads-count (length level1) hl (w _ hl))
              (Reads-repeat (pod S false) laws.encode level1 (
                All-map _ _ (λ v kv. Reads-false (pod S) (laws.encode v) v (Reads-pod v kv)) level1
                  ks)))
          values k)
