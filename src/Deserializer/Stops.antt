-- ===== src/Deserializer/Stops.antt =====
-- Reading a vector of structures of which one is refused.
use serialization_cpp.Common.{
  length, All, All-map, length-append, ℕ, ◌+◌, ◌^◌, ◌<◌, ◌≡◌, refl, sym, ap, ◌∙◌, Bool, false, List,
  [], ◌∷◌, ◌++◌, append_assoc,
}
use serialization_cpp.Common.Result.{Error, ok, err}
use serialization_cpp.Common.Run.{Run}
use serialization_cpp.Varint.{encode_varint}
use serialization_cpp.Serializable.{Serializable, IsFixedSize}
use serialization_cpp.Serializer.Writes.{joined}
use serialization_cpp.Deserializer.{bytes, loaded, repeat, pod, pod_vector, Deserializer}
use serialization_cpp.Deserializer.Reads.{
  moved, Ready, unread, Reads, Ready-moved, unread-moved, moved-moved, Reads-false,
}
use serialization_cpp.Deserializer.Methods.{Reads-bytes}
use serialization_cpp.Deserializer.Vectors.{Reads-count, Reads-pod}

-- Where these bytes stand in front of what is unread, the read throws, with the offset behind them.
abbrev pub Throws {ℓ} : {A : Type ℓ} → Run Deserializer A → List ℕ → Error → Type ℓ
Throws read bytes' e =
    (d : Deserializer) (rest : List ℕ)
    → Ready d
    → unread d ≡ bytes' ++ rest
    → read d ≡ (err e, moved (length bytes') d)

-- Two moves in a row, to the end of some bytes behind others.
moved_on :
    (xs ys : List ℕ) (d : Deserializer)
    → moved (length ys) (moved (length xs) d) ≡ moved (length (xs ++ ys)) d
moved_on xs ys d =
    let l = sym (length-append xs ys) in
    moved-moved (length xs) (length ys) d ∙ λ i. record d { offset = d.offset + l i }

-- The bytes of the elements up to the one that is refused.
abbrev pub up_to {ℓ} : {A : Type ℓ} → (A → List ℕ) → List A → A → List ℕ
up_to encode front bad = joined encode front ++ encode bad

repeat_stops {ℓ} :
    {A : Type ℓ} (read : Run Deserializer A) (encode : A → List ℕ) (front rest : List A) (bad : A)
    {e : Error}
    → All (λ x. Reads read (encode x) x) front
    → Throws read (encode bad) e
    → Throws (repeat (length (front ++ (bad ∷ rest))) read) (up_to encode front bad) e
unfolding repeat
repeat_stops read encode [] rest bad h fails d more ready left = rw (fails d more ready left) refl
repeat_stops read encode (x ∷ front) rest bad {e} (hx, hs) fails d more ready left =
    let all = append_assoc (encode x) (joined encode front) (encode bad) in
    let left' : unread d ≡ encode x ++ (up_to encode front bad ++ more) =
      left ∙ (λ i. all i ++ more) ∙ append_assoc (encode x) (up_to encode front bad) more in
    let first = hx d _ ready left' in
    let later =
      repeat_stops read encode front rest bad hs fails (moved (length (encode x)) d) more
        (Ready-moved d (encode x) _ ready left') (unread-moved d (encode x) _ left') in
    let place =
      moved_on (encode x) (up_to encode front bad) d ∙ λ i. moved (length (sym all i)) d in
    rw (first, later) (λ i. (err e, place i))

module _ (S : Serializable) (laws : IsFixedSize S) where
  Throws-pod :
      (bad : S.Object) {e : Error}
      → length (laws.encode bad) ≡ S.size S.default
      → loaded (S.deserialize (laws.encode bad) S.default) ≡ err e
      → Throws (pod S false) (laws.encode bad) e
  unfolding pod
  Throws-pod bad size fails d rest ready left =
      let same : bytes (S.size S.default) false d ≡ bytes (length (laws.encode bad)) false d =
        ap (λ n. bytes n false d) (sym size) in
      rw (same, Reads-bytes (laws.encode bad) false d rest ready left, fails) refl

  pub pod_vector-Throws :
      (peek : Bool) (front rest : List S.Object) (bad : S.Object) {output : List ℕ} {e : Error}
      → length (front ++ (bad ∷ rest)) < 2 ^ 64
      → encode_varint 8 (length (front ++ (bad ∷ rest))) ≡ ok output
      → All laws.Keeps front
      → length (laws.encode bad) ≡ S.size S.default
      → loaded (S.deserialize (laws.encode bad) S.default) ≡ err e
      → Throws (pod_vector S peek) (output ++ up_to laws.encode front bad) e
  unfolding pod_vector
  pod_vector-Throws peek front rest bad {output} {e} small coded k size fails d more ready left =
      let behind = up_to laws.encode front bad in
      let left' = left ∙ append_assoc output behind more in
      let first = Reads-count _ small coded d (behind ++ more) ready left' in
      let reads =
        All-map _ _ (λ v kv. Reads-false (pod S) (laws.encode v) v (Reads-pod S laws v kv)) front
          k in
      let later =
        repeat_stops (pod S false) laws.encode front rest bad reads (Throws-pod bad size fails)
          (moved (length output) d) more (Ready-moved d output _ ready left')
          (unread-moved d output _ left') in
      rw (first, later) (λ i. (err e, moved_on output behind d i))
