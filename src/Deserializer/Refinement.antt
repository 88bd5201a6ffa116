-- ===== src/Deserializer/Refinement.antt =====
-- The reads of `deserializer_t` do what those of the queue do.
use serialization_cpp.Common.{
  All-drop, ◌&&◌, All-take, take, ◌<◌, le→ltb, length-drop, ltb, leb, Bool-cases, length, drop-drop,
  ℕ, ◌+◌, ◌≤◌, ◌≡◌, refl, sym, inl, inr, Bool, true, false, arith, ◌^◌, ◌==◌, leb→le, ◌∙◌, List,
}
use native.Mathlib.Nat.{mod-eq_of_lt}
use serialization_cpp.Common.Result.{Result, ok, err, undefined}
use serialization_cpp.Common.Run.{Run, pure, ◌>>=◌, proceed, ◌>>◌}
use serialization_cpp.Hex.RoundTrip.{to_hex-hex_text}
use serialization_cpp.Pack.{Layout, unpack}
use serialization_cpp.Pack.Unpack.{unpack_cases}
use serialization_cpp.Varint.Decode.{decode_varint-decoded, marked_run-le}
use serialization_cpp.Varint.Loop.{marked_run}
use serialization_cpp.Serializable.{Serializable}
use serialization_cpp.Deserializer.{
  add_size, advance, bytes, hex, size, varint, Deserializer, loaded, pod, boolean, uint8, repeat,
  restore, pod_vector, pod_nested, varint_vector,
}
use serialization_cpp.Deserializer.Reads.{unread, Ready}
use serialization_cpp.Deserializer.Refines.{
  Related, Refines, Refines-pure, Refines-times, Refines-result, Refines->>=, Related-back,
}
use serialization_cpp.Common.Bits.{IsByte}
use serialization_cpp.Pack.Native.{uint8_t}
use serialization_cpp.Deserializer.Queue

-- What a read of so many bytes leaves, with the flag and without.
Related-taken :
    {A : Type 0} (peek : Bool) (count : ℕ) (a : A) (d : Deserializer)
    → Ready d
    → d.offset + count ≤ length d.buffer
    → Related d (ok a, advance peek count d) (ok a, Queue.taken_off peek count (unread d))
Related-taken true count a d ready inside = (refl, refl, ready, refl)
Related-taken false count a d ready inside =
    let e : add_size d.offset count ≡ d.offset + count =
      mod-eq_of_lt (omega (arith, ready.measured)) in
    let ready' : Ready (advance false count d) = record {
      inside = rw e inside;
      measured = ready.measured;
      all_bytes = ready.all_bytes;
    } in
    (refl, refl, ready', rw e (sym (drop-drop count d.offset d.buffer)))

pub Refines-fixed :
    (T : Layout) (be peek : Bool)
    → Refines (λ d. (unpack T d.buffer d.offset be, advance peek T.size d)) (Queue.fixed T be peek)
Refines-fixed T be peek d ready roomy =
    let small : d.offset + T.size < 2 ^ 64 = omega (arith, ready.inside, T.size_le, roomy) in
    let cases = unpack_cases T d.buffer d.offset be small in
    let l = length-drop d.offset d.buffer in
    elim (Bool-cases (ltb (length (unread d)) T.size)) [
      | inl short ↦
          let short' : ltb (length d.buffer) (d.offset + T.size) ≡ true =
            ground (arith, l, ready.inside) in
          rw (cases, short', short) refl
      | inr whole ↦
          let inside : d.offset + T.size ≤ length d.buffer = ground (arith, l, ready.inside) in
          let whole' : ltb (length d.buffer) (d.offset + T.size) ≡ false = le→ltb _ _ inside in
          rw (cases, whole', whole) (Related-taken peek T.size _ d ready inside)
    ]

-- The test of the copy's end is one of what is left.
leb-unread :
    (count : ℕ) (d : Deserializer)
    → Ready d
    → leb (d.offset + count) (length d.buffer) ≡ leb count (length (unread d))
leb-unread count d ready = ground (arith, length-drop d.offset d.buffer, ready.inside)

pub Refines-bytes : (count : ℕ) (peek : Bool) → Refines (bytes count peek) (Queue.bytes count peek)
unfolding bytes
Refines-bytes count peek d ready roomy =
    let e = leb-unread count d ready in
    elim (Bool-cases (leb count (length (unread d)))) [
      | inl whole ↦ rw (e, whole) (Related-taken peek count _ d ready (leb→le _ _ (e ∙ whole)))
      | inr short ↦ rw (e, short) tt
    ]

pub Refines-hex : (count : ℕ) (peek : Bool) → Refines (hex count peek) (Queue.hex count peek)
unfolding hex bytes
Refines-hex count peek d ready roomy =
    let e = leb-unread count d ready in
    let left = All-drop IsByte d.offset d.buffer ready.all_bytes in
    let text = to_hex-hex_text (take count (unread d)) (All-take IsByte count (unread d) left) in
    elim (Bool-cases (leb count (length (unread d)))) [
      | inl whole ↦
          rw (e, whole, text) (Related-taken peek count _ d ready (leb→le _ _ (e ∙ whole)))
      | inr short ↦ rw (e, short) tt
    ]

pub Refines-varint :
    (size : ℕ) (peek : Bool) → size ≤ 8 → Refines (varint size peek) (Queue.varint size peek)
unfolding varint
Refines-varint size peek native d ready roomy =
    let same = decode_varint-decoded size d.buffer d.offset native ready.all_bytes in
    let inside : ltb (length d.buffer) d.offset ≡ false = le→ltb _ _ ready.inside in
    let all : ltb (length (unread d)) 0 ≡ false = le→ltb _ 0 (omega arith) in
    let rest = unread d in
    elim (Bool-cases (leb 10 (marked_run rest) && ltb 10 (length rest))) [
      | inl wide ↦ rw (same, inside, all, wide) tt
      | inr narrow ↦ elim (Bool-cases (marked_run rest == length rest)) [
        | inl cut ↦ rw (same, inside, all, narrow, cut) refl
        | inr whole ↦
            let read : d.offset + (marked_run rest + 1) ≤ length d.buffer =
              ground (arith, marked_run-le rest, length-drop d.offset d.buffer, ready.inside) in
            rw (same, inside, all, narrow, whole)
              (Related-taken peek (marked_run rest + 1) _ d ready read)
      ]
    ]

pub Refines-boolean : (peek : Bool) → Refines (boolean peek) (Queue.boolean peek)
unfolding boolean uint8
Refines-boolean peek =
    Refines->>= (uint8 peek) (Queue.fixed uint8_t false peek) _ _ (Refines-fixed uint8_t false peek)
      (λ value. Refines-pure (value == 1))

pub Refines-pod : (S : Serializable) (peek : Bool) → Refines (pod S peek) (Queue.pod S peek)
unfolding pod
Refines-pod S peek =
    Refines->>= (bytes (S.size S.default) peek) (Queue.bytes (S.size S.default) peek) _
      (λ bytes' q. (loaded (S.deserialize bytes' S.default), q))
      (Refines-bytes (S.size S.default) peek)
      (λ bytes'. Refines-result (loaded (S.deserialize bytes' S.default)))

-- A vector's read: a size, so many reads, and the offset put back on demand.
abbrev reads_many : {A : Type 0} → Run Deserializer A → Run Deserializer (List A)
reads_many read = do count ← varint 8 false; repeat count read

Refines-many :
    {A : Type 0} (read : Run Deserializer A) (s : Run Queue.Queue A)
    → Refines read s
    → Refines (reads_many read) (Queue.many s)
Refines-many read s h =
    Refines->>= (varint 8 false) (Queue.varint 8 false) _ _ (Refines-varint 8 false (omega arith))
      (λ count. Refines-times read s count h)

proceed_assoc :
    {A B C : Type 0} (x : Result A × Deserializer) (f : A → Run Deserializer B)
    (g : B → Run Deserializer C)
    → proceed x (λ a. f a >>= g) ≡ proceed (proceed x f) g
proceed_assoc (ok a, d) f g = refl
proceed_assoc (err e, d) f g = refl
proceed_assoc (undefined, d) f g = refl

-- The methods for vectors end by this.
Refines-vector :
    {A : Type 0} (read : Run Deserializer A) (s : Run Queue.Queue A) (peek : Bool)
    → Refines read s
    → Refines
        (λ d.
          proceed
            (varint 8 false d)
            (λ count. repeat count read >>= (λ a. restore peek d.offset >> pure a)))
        (Queue.vector s peek)
Refines-vector read s peek h d ready roomy =
    let e =
      proceed_assoc (varint 8 false d) (λ count. repeat count read)
        (λ a. restore peek d.offset >> pure a) in
    rw e (
      Related-back peek d (reads_many read d) (Queue.many s (unread d)) ready
        (Refines-many read s h d ready roomy))

pub Refines-varint_vector :
    (size : ℕ) (peek : Bool)
    → size ≤ 8
    → Refines (varint_vector size peek) (Queue.vector (Queue.varint size false) peek)
unfolding varint_vector
Refines-varint_vector size peek native =
    Refines-vector (varint size false) (Queue.varint size false) peek
      (Refines-varint size false native)

pub Refines-pod_vector :
    (S : Serializable) (peek : Bool)
    → Refines (pod_vector S peek) (Queue.vector (Queue.pod S false) peek)
unfolding pod_vector
Refines-pod_vector S peek =
    Refines-vector (pod S false) (Queue.pod S false) peek (Refines-pod S false)

pub Refines-pod_nested :
    (S : Serializable) (peek : Bool)
    → Refines (pod_nested S peek) (Queue.vector (Queue.many (Queue.pod S false)) peek)
unfolding pod_nested
Refines-pod_nested S peek =
    Refines-vector (reads_many (pod S false)) (Queue.many (Queue.pod S false)) peek
      (Refines-many (pod S false) (Queue.pod S false) (Refines-pod S false))
