-- ===== src/Deserializer/Refines.antt =====
-- When a read does what the queue's read does, and how such reads are put together.
use serialization_cpp.Common.{
  length, arith, ap, ℕ, zero, suc, ◌≡◌, refl, ◌∙◌, Bool, true, false, [], ◌∷◌, ◌+◌, ◌^◌, ◌<◌,
}
use serialization_cpp.Common.Result.{Result, ok, err, undefined}
use serialization_cpp.Common.Run.{Run, pure, ◌>>=◌, proceed, ◌>>◌}
use serialization_cpp.Deserializer.{reset, repeat, restore, Deserializer}
use serialization_cpp.Deserializer.Reads.{unread, Ready}
use serialization_cpp.Deserializer.Queue.{Queue, times, given_back}

-- The outcomes are the same. After a success the buffer is as it was, the offset is in it, and the bytes
-- not read yet are those in the queue.
abbrev pub Related :
    {A : Type 0} → Deserializer → Result A × Deserializer → Result A × Queue → Type 0
Related d (ok a, d') (ok b, q) = (a ≡ b) × (d'.buffer ≡ d.buffer) × Ready d' × (unread d' ≡ q)
Related d (ok a, d') (err e, q) = ⊥
Related d (ok a, d') (undefined, q) = ⊥
Related d (err e, d') (ok b, q) = ⊥
Related d (err e, d') (err e', q) = e ≡ e'
Related d (err e, d') (undefined, q) = ⊥
Related d (undefined, d') (ok b, q) = ⊥
Related d (undefined, d') (err e, q) = ⊥
Related d (undefined, d') (undefined, q) = Unit

-- No offset in the buffer and no size of an integer add up beyond `size_t`.
abbrev pub IsRoomy : Deserializer → Type 0
IsRoomy d = length d.buffer + 64 < 2 ^ 64

-- The read does what the queue's does, on every reader whose offset is in its buffer.
abbrev pub Refines : {A : Type 0} → Run Deserializer A → Run Queue A → Type 0
Refines read spec = (d : Deserializer) → Ready d → IsRoomy d → Related d (read d) (spec (unread d))

Related-buffer :
    {A : Type 0} (d d' : Deserializer) (x : Result A × Deserializer) (y : Result A × Queue)
    → d'.buffer ≡ d.buffer
    → Related d' x y
    → Related d x y
Related-buffer d d' (ok a, _) (ok b, q) same (e, b', ready, u) = (e, b' ∙ same, ready, u)
Related-buffer d d' (ok a, _) (err e, q) same h = absurd h
Related-buffer d d' (ok a, _) (undefined, q) same h = absurd h
Related-buffer d d' (err e, _) (ok b, q) same h = absurd h
Related-buffer d d' (err e, _) (err e', q) same h = h
Related-buffer d d' (err e, _) (undefined, q) same h = absurd h
Related-buffer d d' (undefined, _) (ok b, q) same h = absurd h
Related-buffer d d' (undefined, _) (err e, q) same h = absurd h
Related-buffer d d' (undefined, _) (undefined, q) same h = tt

Related-proceed :
    {A B : Type 0} (d : Deserializer) (x : Result A × Deserializer) (y : Result A × Queue)
    (f : A → Run Deserializer B) (g : A → Run Queue B)
    → IsRoomy d
    → Related d x y
    → ((a : A) → Refines (f a) (g a))
    → Related d (proceed x f) (proceed y g)
Related-proceed d (ok a, d') (ok b, q) f g roomy (e, same, ready, u) h =
    let next =
      Related-buffer d d' (f a d') (g a (unread d')) same
        (h a d' ready (omega (arith, ap length same))) in
    rw (← e, ← u) next
Related-proceed d (ok a, _) (err e, q) f g roomy r h = absurd r
Related-proceed d (ok a, _) (undefined, q) f g roomy r h = absurd r
Related-proceed d (err e, _) (ok b, q) f g roomy r h = absurd r
Related-proceed d (err e, _) (err e', q) f g roomy r h = r
Related-proceed d (err e, _) (undefined, q) f g roomy r h = absurd r
Related-proceed d (undefined, _) (ok b, q) f g roomy r h = absurd r
Related-proceed d (undefined, _) (err e, q) f g roomy r h = absurd r
Related-proceed d (undefined, _) (undefined, q) f g roomy r h = tt

pub Refines->>= :
    {A B : Type 0} (m : Run Deserializer A) (s : Run Queue A) (f : A → Run Deserializer B)
    (g : A → Run Queue B)
    → Refines m s
    → ((a : A) → Refines (f a) (g a))
    → Refines (m >>= f) (s >>= g)
Refines->>= m s f g hm h d ready roomy =
    Related-proceed d (m d) (s (unread d)) f g roomy (hm d ready roomy) h

pub Refines-pure : {A : Type 0} (a : A) → Refines (pure a) (pure a)
Refines-pure a d ready roomy = (refl, refl, ready, refl)

-- An outcome that does not read.
pub Refines-result : {A : Type 0} (r : Result A) → Refines (λ d. (r, d)) (λ q. (r, q))
Refines-result (ok a) d ready roomy = (refl, refl, ready, refl)
Refines-result (err e) d ready roomy = refl
Refines-result undefined d ready roomy = tt

pub Refines-times :
    {A : Type 0} (read : Run Deserializer A) (s : Run Queue A) (count : ℕ)
    → Refines read s
    → Refines (repeat count read) (times count s)
unfolding repeat times
Refines-times read s zero h = Refines-pure []
Refines-times read s (suc count) h = Refines->>= read s _ _ h (λ x.
    Refines->>= (repeat count read) (times count s) _ _ (Refines-times read s count h)
      (λ xs. Refines-pure (x ∷ xs)))

pub Related-back :
    {A : Type 0} (peek : Bool) (d : Deserializer) (x : Result A × Deserializer)
    (y : Result A × Queue)
    → Ready d
    → Related d x y
    → Related d (proceed x (λ a. restore peek d.offset >> pure a)) (given_back peek (unread d) y)
unfolding restore reset
Related-back true d (ok a, d') (ok b, q) ready (e, same, _, u) =
    let back : reset d.offset d' ≡ d = λ i. record { buffer = same i; offset = d.offset } in
    (e, same, rw back ready, ap unread back)
Related-back false d (ok a, d') (ok b, q) ready h = h
Related-back peek d (ok a, _) (err e, q) ready h = absurd h
Related-back peek d (ok a, _) (undefined, q) ready h = absurd h
Related-back peek d (err e, _) (ok b, q) ready h = absurd h
Related-back peek d (err e, _) (err e', q) ready h = h
Related-back peek d (err e, _) (undefined, q) ready h = absurd h
Related-back peek d (undefined, _) (ok b, q) ready h = absurd h
Related-back peek d (undefined, _) (err e, q) ready h = absurd h
Related-back peek d (undefined, _) (undefined, q) ready h = tt
