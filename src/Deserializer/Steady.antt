-- ===== src/Deserializer/Steady.antt =====
-- Bytes that come behind a buffer do not change what a successful read of it answers.
use serialization_cpp.Common.{
  List, ℕ, ◌++◌, refl, length, ◌≤◌, arith, length-append, drop-append_le, All-front, ◌≡◌, sym, ap,
  ◌∙◌, length-drop, All,
}
use serialization_cpp.Common.Bits.{IsByte}
use serialization_cpp.Common.Result.{Result, ok, err, undefined}
use serialization_cpp.Common.Run.{Run, ◌>>=◌, proceed, pure}
use serialization_cpp.Deserializer.{Deserializer}
use serialization_cpp.Deserializer.Reads.{Ready, unread}
use serialization_cpp.Deserializer.Refines.{Related, Refines, IsRoomy}
use serialization_cpp.Deserializer.Queue.{Queue}
use serialization_cpp.Deserializer.Grows.{Grown, Grows, Grows-expect, Grows-expect_all}
use serialization_cpp.Deserializer.Requests.{
  Request, ask, ask_all, expect, expect_all, IsNative, Answers, Refines-ask, Refines-ask_all,
}
use serialization_cpp.Pack.{Layout}
use serialization_cpp.Serializable.{Serializable}

-- The same reader, with more bytes behind its own.
abbrev pub longer : List ℕ → Deserializer → Deserializer
longer more d = record { buffer = d.buffer ++ more; offset = d.offset }

-- After a success on the shorter buffer: that on the longer one, and where the first one ends.
abbrev pub Settled {ℓ} :
    {A : Type ℓ}
    → List ℕ
    → Deserializer
    → Result A × Deserializer
    → Result A × Deserializer
    → Type ℓ
Settled more d (ok a, e) y =
    (y ≡ (ok a, longer more e)) × (e.buffer ≡ d.buffer) × (e.offset ≤ length e.buffer)
Settled more d (err e, _) y = Unit
Settled more d (undefined, _) y = Unit

-- The offset is in the shorter buffer.
abbrev pub Steady {ℓ} : {A : Type ℓ} → Run Deserializer A → Type ℓ
Steady read =
    (d : Deserializer) (more : List ℕ)
    → d.offset ≤ length d.buffer
    → Ready (longer more d)
    → IsRoomy (longer more d)
    → Settled more d (read d) (read (longer more d))

pub Steady-pure {ℓ} : {A : Type ℓ} (a : A) → Steady (pure a)
Steady-pure a d more inside ready roomy = (refl, refl, inside)

Ready-shorter :
    (d : Deserializer) (more : List ℕ)
    → d.offset ≤ length d.buffer
    → Ready (longer more d)
    → Ready d
Ready-shorter d more inside ready = record {
  inside = inside;
  measured = omega (arith, ready.measured, length-append d.buffer more);
  all_bytes = All-front IsByte d.buffer more ready.all_bytes;
}

Settled-buffer {ℓ} :
    {A : Type ℓ} (d e : Deserializer) (more : List ℕ) (x y : Result A × Deserializer)
    → e.buffer ≡ d.buffer
    → Settled more e x y
    → Settled more d x y
Settled-buffer d e more (ok a, _) y same (y_is, buffer, inside) = (y_is, buffer ∙ same, inside)
Settled-buffer d e more (err _, _) y same s = tt
Settled-buffer d e more (undefined, _) y same s = tt

Ready-longer :
    (d e : Deserializer) (more : List ℕ)
    → e.buffer ≡ d.buffer
    → e.offset ≤ length e.buffer
    → Ready (longer more d)
    → Ready (longer more e)
Ready-longer d e more same inside ready = record {
  inside = omega (arith, inside, length-append e.buffer more);
  measured = rw same ready.measured;
  all_bytes = rw same ready.all_bytes;
}

Settled-proceed {ℓ κ} :
    {A : Type ℓ} {B : Type κ} (d : Deserializer) (more : List ℕ) (x y : Result A × Deserializer)
    (f : A → Run Deserializer B)
    → Ready (longer more d)
    → IsRoomy (longer more d)
    → Settled more d x y
    → ((a : A) → Steady (f a))
    → Settled more d (proceed x f) (proceed y f)
Settled-proceed d more (ok a, e) y f ready roomy (same, buffer, inside) h = rw same (
    Settled-buffer d e more (f a e) (f a (longer more e)) buffer
      (h a e more inside (Ready-longer d e more buffer inside ready) (rw buffer roomy)))
Settled-proceed d more (err e, _) y f ready roomy s h = tt
Settled-proceed d more (undefined, _) y f ready roomy s h = tt

pub Steady->>= {ℓ κ} :
    {A : Type ℓ} {B : Type κ} (m : Run Deserializer A) (f : A → Run Deserializer B)
    → Steady m
    → ((a : A) → Steady (f a))
    → Steady (m >>= f)
Steady->>= m f hm h d more inside ready roomy =
    Settled-proceed d more (m d) (m (longer more d)) f ready roomy (hm d more inside ready roomy) h

-- Two reads that do what a queue's does.
longer-success :
    {A : Type 0} (d : Deserializer) (more : List ℕ) (a b : A) (e : Deserializer) (q : Queue)
    (y : Result A × Deserializer)
    → Related d (ok a, e) (ok b, q)
    → Related (longer more d) y (ok b, q ++ more)
    → y ≡ (ok a, longer more e)
longer-success d more a b e q (ok a', e') (same, buffer, ready, left)
      (same', buffer', ready', left') =
    let value : a' ≡ a = same' ∙ sym same in
    let bytes : e'.buffer ≡ e.buffer ++ more = buffer' ∙ ap (λ t. t ++ more) (sym buffer) in
    let place : e'.offset ≡ e.offset = omega (
      arith,
      length-drop e.offset e.buffer,
      length-drop e'.offset e'.buffer,
      ap length left,
      ap length left',
      length-append q more,
      length-append e.buffer more,
      ap length bytes,
      ready.inside,
      ready'.inside,
    ) in
    λ i. (ok (value i), record { buffer = bytes i; offset = place i })
longer-success d more a b e q (err _, e') r r' = absurd r'
longer-success d more a b e q (undefined, e') r r' = absurd r'

Related-Settled :
    {A : Type 0} (d : Deserializer) (more : List ℕ) (x y : Result A × Deserializer)
    (s t : Result A × Queue)
    → Related d x s
    → Related (longer more d) y t
    → Grown more s t
    → Settled more d x y
Related-Settled d more (ok a, e) y (ok b, q) t r r' g =
    let (same, buffer, ready, left) = r in
    (longer-success d more a b e q y r (rw g at r'), buffer, ready.inside)
Related-Settled d more (ok a, e) y (err _, q) t r r' g = absurd r
Related-Settled d more (ok a, e) y (undefined, q) t r r' g = absurd r
Related-Settled d more (err _, _) y s t r r' g = tt
Related-Settled d more (undefined, _) y s t r r' g = tt

pub Refines-Steady :
    {A : Type 0} (read : Run Deserializer A) (s : Run Queue A)
    → Refines read s
    → Grows s
    → Steady read
Refines-Steady read s refines grows d more inside ready roomy =
    let short =
      refines d (Ready-shorter d more inside ready)
        (omega (arith, roomy, length-append d.buffer more)) in
    let long = refines (longer more d) ready roomy in
    let left = drop-append_le d.offset d.buffer more inside in
    Related-Settled d more (read d) (read (longer more d)) (s (unread d)) (s (unread d ++ more))
      short (rw left at long) (grows (unread d) more)

pub Steady-ask :
    (W128 W256 : Layout) (S : Serializable) (r : Request) → IsNative r → Steady (ask W128 W256 S r)
Steady-ask W128 W256 S r native =
    Refines-Steady (ask W128 W256 S r) (expect W128 W256 S r) (Refines-ask W128 W256 S r native)
      (Grows-expect W128 W256 S r)

-- Requests that succeed on a buffer answer the same on one with more bytes behind it, and leave the same
-- offset: no read looks beyond what it takes. The varint types have at most 8 bytes, the offset is in
-- the shorter buffer, and the longer one is more than 64 bytes short of what `size_t` can measure.
ask_all-longer :
    (W128 W256 : Layout) (S : Serializable) (rs : List Request) (d : Deserializer) (more : List ℕ)
    {answers : Answers W128 W256 S rs} {e : Deserializer}
    → All IsNative rs
    → d.offset ≤ length d.buffer
    → Ready (longer more d)
    → IsRoomy (longer more d)
    → ask_all W128 W256 S rs d ≡ (ok answers, e)
    → ask_all W128 W256 S rs (longer more d) ≡ (ok answers, longer more e)
ask_all-longer W128 W256 S rs d more native inside ready roomy h =
    let steady =
      Refines-Steady (ask_all W128 W256 S rs) (expect_all W128 W256 S rs)
        (Refines-ask_all W128 W256 S rs native) (Grows-expect_all W128 W256 S rs) d more inside
        ready roomy in
    (rw h at steady).0
