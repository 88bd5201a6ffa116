-- ===== src/Deserializer/Cursor.antt =====
-- A reader's specification with the calls that place it: a cursor in the bytes that it was made of.
use serialization_cpp.Common.{
  ℕ, ◌+◌, ◌-◌, ◌≡◌, Option, none, some, List, [], ◌∷◌, length, drop, leb, if◌then◌else◌,
}
use serialization_cpp.Common.Result.{Result, ok, err, undefined}
use serialization_cpp.Common.Run.{Run, pure, ◌>>=◌}
use serialization_cpp.Pack.{Layout}
use serialization_cpp.Serializable.{Serializable}
use serialization_cpp.Deserializer.{Deserializer}
use serialization_cpp.Deserializer.Reads.{Ready}
use serialization_cpp.Deserializer.Requests.{Request, Answer, IsNative, ask, expect}
use serialization_cpp.Deserializer

-- A read, or a call that places the reader.
pub data Call : Type 0 where
  asks : Request → Call
  skips resets : ℕ → Call
  compacts : Call

-- A read's varints are of a type of at most 8 bytes.
abbrev pub IsNativeCall : Call → Type 0
IsNativeCall (asks r) = IsNative r
IsNativeCall (skips count) = Unit {0}
IsNativeCall (resets position) = Unit {0}
IsNativeCall compacts = Unit {0}

-- How many bytes are dropped off the front, and how many of those behind them are passed.
pub record Cursor : Type 0 where
  pub base : ℕ
  pub offset : ℕ

-- From a place on, as long as that succeeds; `none` is a place behind the end.
abbrev pub resume {ℓ κ} :
    {A : Type ℓ} {B : Type κ}
    → Option (Result A × Cursor)
    → (A → Cursor → Option (Result B × Cursor))
    → Option (Result B × Cursor)
resume none f = none
resume (some (ok a, k)) f = f a k
resume (some (err e, k)) f = some (err e, k)
resume (some (undefined, k)) f = some (undefined, k)

module _ (W128 W256 : Layout) (S : Serializable) where
  abbrev pub Reply : Call → Type 0
  Reply (asks r) = Answer W128 W256 S r
  Reply (skips count) = Unit {0}
  Reply (resets position) = Unit {0}
  Reply compacts = Unit {0}

  abbrev pub Replies : List Call → Type 0
  Replies [] = Unit {0}
  Replies (c ∷ cs) = Reply c × Replies cs

  -- The call of the code.
  abbrev pub call : (c : Call) → Run Deserializer (Reply c)
  call (asks r) d = ask W128 W256 S r d
  call (skips count) d = (ok tt, Deserializer.skip count d)
  call (resets position) d = (ok tt, Deserializer.reset position d)
  call compacts d = Deserializer.compact d

  unfoldable pub call_all : (cs : List Call) → Run Deserializer (Replies cs)
  call_all [] = pure tt
  call_all (c ∷ cs) = do a ← call c; as' ← call_all cs; pure (a, as')

  module _ (all : List ℕ) where
    -- A read's cursor is where the queue of the rest ends up.
    abbrev pub follow : (c : Call) → Cursor → Option (Result (Reply c) × Cursor)
    follow (asks r) k =
        let (x, q) = expect W128 W256 S r (drop (k.base + k.offset) all) in
        some (x, record k { offset = length all - k.base - length q })
    follow (skips count) k =
        if leb (k.base + k.offset + count) (length all)
        then some (ok tt, record k { offset = k.offset + count })
        else none
    follow (resets position) k =
        if leb (k.base + position) (length all)
        then some (ok tt, record k { offset = position })
        else none
    -- What has been read is dropped, and the offset stays.
    follow compacts k =
        if leb (k.base + k.offset + k.offset) (length all)
        then some (ok tt, record { base = k.base + k.offset; offset = k.offset })
        else none

    unfoldable pub follow_all : (cs : List Call) → Cursor → Option (Result (Replies cs) × Cursor)
    follow_all [] k = some (ok tt, k)
    follow_all (c ∷ cs) k =
        resume (follow c k) (λ a k'. resume (follow_all cs k') (λ as' k''. some (ok (a, as'), k'')))

-- The reader is where the cursor is, in the bytes.
pub record IsAt (all : List ℕ) (k : Cursor) (d : Deserializer) : Type 0 where
  pub buffer_is : d.buffer ≡ drop k.base all
  pub offset_is : d.offset ≡ k.offset
  pub ready : Ready d

-- The outcomes are the same, and after a success the reader is where the cursor is.
abbrev pub Tracks : {A : Type 0} → List ℕ → Result A × Deserializer → Result A × Cursor → Type 0
Tracks all (ok a, d) (ok b, k) = (a ≡ b) × IsAt all k d
Tracks all (ok a, d) (err e, k) = ⊥
Tracks all (ok a, d) (undefined, k) = ⊥
Tracks all (err e, d) (ok b, k) = ⊥
Tracks all (err e, d) (err e', k) = e ≡ e'
Tracks all (err e, d) (undefined, k) = ⊥
Tracks all (undefined, d) (ok b, k) = ⊥
Tracks all (undefined, d) (err e, k) = ⊥
Tracks all (undefined, d) (undefined, k) = Unit
