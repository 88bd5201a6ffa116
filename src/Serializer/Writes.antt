-- ===== src/Serializer/Writes.antt =====
-- What each method of `serializer_t` appends: the abstract view of a writer is the bytes behind those
-- that it held.
use serialization_cpp.Common.{
  All-map, ◌^◌, ◌<◌, if◌then◌else◌, length, All, ℕ, ◌≡◌, refl, sym, ◌∙◌, Bool, true, false, List,
  [], ◌∷◌, ◌++◌, append_assoc, append-nil,
}
use serialization_cpp.Common.Result.{Result, ok}
use serialization_cpp.Common.Run.{Run, pure, ◌>>◌}
use serialization_cpp.Hex.{from_hex}
use serialization_cpp.Varint.{encode_varint}
use serialization_cpp.Pack.{pack, Layout}
use serialization_cpp.Pack.Native.{uint16_t, uint32_t, uint64_t}
use serialization_cpp.Serializable.{Serializable}
use serialization_cpp.Serializer.{
  pod_nested, varint_vector, pod_vector, push_back, boolean, bytes_loop, bytes, extend,
  bytes_vector, extend_result, hex, uint8, uint16, uint32, uint64, uint128, uint256, varint, each,
  pod, Serializer,
}

abbrev pub appended : Serializer → List ℕ → Serializer
appended s bytes' = record { buffer = s.buffer ++ bytes' }

-- The call succeeds on every writer, and appends these bytes.
abbrev pub Writes : Run Serializer (Unit {0}) → List ℕ → Type 0
Writes write bytes' = (s : Serializer) → write s ≡ (ok tt, appended s bytes')

-- A method that cannot throw, as a call.
abbrev pub total : (Serializer → Serializer) → Run Serializer (Unit {0})
total f s = (ok tt, f s)

pub appended-nil : (s : Serializer) → appended s [] ≡ s
appended-nil s = λ i. record { buffer = append-nil s.buffer i }

pub appended-append :
    (s : Serializer) (xs ys : List ℕ) → appended (appended s xs) ys ≡ appended s (xs ++ ys)
appended-append s xs ys = λ i. record { buffer = append_assoc s.buffer xs ys i }

pub extend-appended : (vector' : List ℕ) (s : Serializer) → extend vector' s ≡ appended s vector'
unfolding extend
extend-appended [] s = sym (appended-nil s)
extend-appended (element ∷ vector') s =
    extend-appended vector' (push_back element s) ∙ appended-append s (element ∷ []) vector'

pub Writes-pure : Writes (pure tt) []
Writes-pure s = let e = sym (appended-nil s) in λ i. (ok tt, e i)

pub Writes->> :
    (m k : Run Serializer (Unit {0})) (xs ys : List ℕ)
    → Writes m xs
    → Writes k ys
    → Writes (m >> k) (xs ++ ys)
Writes->> m k xs ys hm hk s =
    let e = appended-append s xs ys in rw (hm s) (hk (appended s xs) ∙ λ i. (ok tt, e i))

-- The bytes of a vector of values, one behind the other.
abbrev pub joined {ℓ} : {A : Type ℓ} → (A → List ℕ) → List A → List ℕ
joined encode [] = []
joined encode (x ∷ xs) = encode x ++ joined encode xs

pub Writes-each {ℓ} :
    {A : Type ℓ} (f : A → Run Serializer (Unit {0})) (encode : A → List ℕ) (xs : List A)
    → All (λ x. Writes (f x) (encode x)) xs
    → Writes (each f xs) (joined encode xs)
unfolding each
Writes-each f encode [] h = Writes-pure
Writes-each f encode (x ∷ xs) (hx, hs) =
    Writes->> (f x) (each f xs) (encode x) (joined encode xs) hx (Writes-each f encode xs hs)

pub Writes-extend : (vector' : List ℕ) → Writes (total (extend vector')) vector'
Writes-extend vector' s = let e = extend-appended vector' s in λ i. (ok tt, e i)

pub Writes-boolean : (value : Bool) → Writes (total (boolean value)) ((if value then 1 else 0) ∷ [])
unfolding boolean
Writes-boolean true s = refl
Writes-boolean false s = refl

pub Writes-uint8 : (value : ℕ) → Writes (total (uint8 value)) (value ∷ [])
unfolding uint8
Writes-uint8 value s = refl

pub Writes-uint16 : (v : ℕ) (be : Bool) → Writes (total (uint16 v be)) (pack uint16_t v be)
unfolding uint16
Writes-uint16 v be = Writes-extend (pack uint16_t v be)

pub Writes-uint32 : (v : ℕ) (be : Bool) → Writes (total (uint32 v be)) (pack uint32_t v be)
unfolding uint32
Writes-uint32 v be = Writes-extend (pack uint32_t v be)

pub Writes-uint64 : (v : ℕ) (be : Bool) → Writes (total (uint64 v be)) (pack uint64_t v be)
unfolding uint64
Writes-uint64 v be = Writes-extend (pack uint64_t v be)

pub Writes-uint128 :
    (T : Layout) (v : T.Value) (be : Bool) → Writes (total (uint128 T v be)) (pack T v be)
unfolding uint128
Writes-uint128 T v be = Writes-extend (pack T v be)

pub Writes-uint256 :
    (T : Layout) (v : T.Value) (be : Bool) → Writes (total (uint256 T v be)) (pack T v be)
unfolding uint256
Writes-uint256 T v be = Writes-extend (pack T v be)

pub Writes-bytes_vector : (value : List ℕ) → Writes (total (bytes_vector value)) value
unfolding bytes_vector
Writes-bytes_vector value = Writes-extend value

-- The whole object that `data` points at.
Writes-bytes_loop : (raw : List ℕ) → Writes (bytes_loop (length raw) raw) raw
unfolding bytes_loop
Writes-bytes_loop [] s = Writes-pure s
Writes-bytes_loop (b ∷ raw) s =
    let e = appended-append s (b ∷ []) raw in
    Writes-bytes_loop raw (push_back b s) ∙ λ i. (ok tt, e i)

pub Writes-bytes : (raw : List ℕ) → Writes (bytes raw (length raw)) raw
unfolding bytes
Writes-bytes raw = Writes-bytes_loop raw

pub Writes-extend_result :
    (r : Result (List ℕ)) (vector' : List ℕ) → r ≡ ok vector' → Writes (extend_result r) vector'
Writes-extend_result r vector' e = rw e (unfold extend_result in Writes-extend vector')

pub Writes-hex : (text vector' : List ℕ) → from_hex text ≡ ok vector' → Writes (hex text) vector'
unfolding hex
Writes-hex text vector' e = Writes-extend_result (from_hex text) vector' e

pub Writes-varint :
    (type_size value : ℕ) {output : List ℕ}
    → encode_varint type_size value ≡ ok output
    → Writes (varint type_size value) output
unfolding varint
Writes-varint type_size value {output} e =
    Writes-extend_result (encode_varint type_size value) output e

pub Writes-pod :
    (S : Serializable) (v : S.Object) (vector' : List ℕ)
    → S.serialize v ≡ ok vector'
    → Writes (pod S v) vector'
unfolding pod
Writes-pod S v vector' e = Writes-extend_result (S.serialize v) vector' e

-- A size, and the elements behind it.
Writes-counted {ℓ} :
    {A : Type ℓ} (f : A → Run Serializer (Unit {0})) (encode : A → List ℕ) (xs : List A)
    {output : List ℕ}
    → encode_varint 8 (length xs) ≡ ok output
    → All (λ x. Writes (f x) (encode x)) xs
    → Writes (varint 8 (length xs) >> each f xs) (output ++ joined encode xs)
Writes-counted f encode xs {output} w h =
    Writes->> (varint 8 (length xs)) (each f xs) output (joined encode xs)
      (Writes-varint 8 (length xs) w) (Writes-each f encode xs h)

pub Writes-varint_vector :
    (type_size : ℕ) (values : List ℕ) (encode : ℕ → List ℕ) {output : List ℕ}
    → encode_varint 8 (length values) ≡ ok output
    → All (λ v. encode_varint type_size v ≡ ok (encode v)) values
    → Writes (varint_vector type_size values) (output ++ joined encode values)
unfolding varint_vector
Writes-varint_vector type_size values encode w h =
    Writes-counted (varint type_size) encode values w
      (All-map _ _ (λ v e. Writes-varint type_size v e) values h)

pub Writes-pod_vector :
    (S : Serializable) (values : List S.Object) (encode : S.Object → List ℕ) {output : List ℕ}
    → encode_varint 8 (length values) ≡ ok output
    → All (λ v. S.serialize v ≡ ok (encode v)) values
    → Writes (pod_vector S values) (output ++ joined encode values)
unfolding pod_vector
Writes-pod_vector S values encode w h =
    Writes-counted (pod S) encode values w
      (All-map _ _ (λ v e. Writes-pod S v (encode v) e) values h)

pub Writes-pod_nested :
    (S : Serializable) (values : List (List S.Object)) (encode : S.Object → List ℕ)
    (count : ℕ → List ℕ)
    → ((n : ℕ) → n < 2 ^ 64 → encode_varint 8 n ≡ ok (count n))
    → length values < 2 ^ 64
    → All
        (λ level1. (length level1 < 2 ^ 64) × All (λ v. S.serialize v ≡ ok (encode v)) level1)
        values
    → Writes
        (pod_nested S values)
        (count (length values) ++ joined (λ vs. count (length vs) ++ joined encode vs) values)
unfolding pod_nested
Writes-pod_nested S values encode count w hn h =
    Writes-counted (λ level1. varint 8 (length level1) >> each (pod S) level1)
      (λ vs. count (length vs) ++ joined encode vs) values (w _ hn)
      (All-map _ _
        (λ level1 (hl, hs).
          Writes-counted (pod S) encode level1 (w _ hl)
            (All-map _ _ (λ v e. Writes-pod S v (encode v) e) level1 hs))
        values h)
