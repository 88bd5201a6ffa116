-- ===== src/Deserializer/Tracked.antt =====
-- A reader follows its cursor.
use serialization_cpp.Common.{
  ℕ, ◌+◌, ◌-◌, ◌^◌, ◌<◌, ◌≤◌, ◌≡◌, refl, sym, ap, ◌∙◌, Option, none, some, List, [], ◌∷◌, length,
  drop, length-drop, drop-drop, leb, leb→le, Bool-cases, inl, inr, All, arith, true, subst,
  All-drop,
}
use serialization_cpp.Common.Bits.{IsByte}
use serialization_cpp.Common.Result.{Result, ok, err, undefined}
use serialization_cpp.Common.Run.{Run, proceed}
use serialization_cpp.Pack.{Layout, add_size}
use serialization_cpp.Serializable.{Serializable}
use serialization_cpp.Deserializer.{Deserializer}
use serialization_cpp.Deserializer.Queue.{Queue}
use serialization_cpp.Deserializer.Reads.{unread}
use serialization_cpp.Deserializer.Refines.{Related, IsRoomy}
use serialization_cpp.Deserializer.Requests.{ask, expect, Refines-ask}
use serialization_cpp.Deserializer.Cursor.{
  Call, Cursor, IsNativeCall, Replies, call, call_all, follow, follow_all, resume, IsAt, Tracks,
  asks, skips, resets, compacts,
}
use serialization_cpp.Deserializer

-- As long as the cursor is in the bytes.
abbrev TracksIn :
    {A : Type 0} → List ℕ → Result A × Deserializer → Option (Result A × Cursor) → Type 0
TracksIn all x none = Unit
TracksIn all x (some y) = Tracks all x y

resume-Tracks :
    {A B : Type 0} (all : List ℕ) (x : Result A × Deserializer) (y : Option (Result A × Cursor))
    (f : A → Run Deserializer B) (g : A → Cursor → Option (Result B × Cursor))
    → TracksIn all x y
    → ((a : A) (k : Cursor) (d : Deserializer) → IsAt all k d → TracksIn all (f a d) (g a k))
    → TracksIn all (proceed x f) (resume y g)
resume-Tracks all x none f g t h = tt
resume-Tracks all (ok a, d) (some (ok b, k)) f g (same, at) h =
    subst (λ c. TracksIn all (f a d) (g c k)) same (h a k d at)
resume-Tracks all (ok a, d) (some (err e, k)) f g t h = absurd t
resume-Tracks all (ok a, d) (some (undefined, k)) f g t h = absurd t
resume-Tracks all (err e, d) (some (ok b, k)) f g t h = absurd t
resume-Tracks all (err e, d) (some (err e', k)) f g t h = t
resume-Tracks all (err e, d) (some (undefined, k)) f g t h = absurd t
resume-Tracks all (undefined, d) (some (ok b, k)) f g t h = absurd t
resume-Tracks all (undefined, d) (some (err e, k)) f g t h = absurd t
resume-Tracks all (undefined, d) (some (undefined, k)) f g t h = tt

module _ (all : List ℕ) (k : Cursor) (d : Deserializer) (at : IsAt all k d) where
  length-buffer : length d.buffer ≡ length all - k.base
  length-buffer = ap length at.buffer_is ∙ length-drop k.base all

  unread-all : unread d ≡ drop (k.base + k.offset) all
  unread-all = (λ i. drop (at.offset_is i) (at.buffer_is i)) ∙ drop-drop k.offset k.base all

  -- What a read of the queue leaves is where the offset is.
  Related-Tracks :
      {A : Type 0} (x : Result A × Deserializer) (y : Result A × Queue)
      → Related d x y
      → Tracks all x (y.0, record k { offset = length all - k.base - length y.1 })
  Related-Tracks (ok a, d') (ok b, q) (same, buffer, ready, left) =
      let size = sym (length-drop d'.offset d'.buffer) ∙ ap length left in
      let inside = ready.inside in
      (
        same,
        record {
          buffer_is = buffer ∙ at.buffer_is;
          offset_is = omega (arith, size, inside, ap length buffer, length-buffer);
          ready = ready;
        },
      )
  Related-Tracks (ok a, _) (err e, q) r = absurd r
  Related-Tracks (ok a, _) (undefined, q) r = absurd r
  Related-Tracks (err e, _) (ok b, q) r = absurd r
  Related-Tracks (err e, _) (err e', q) r = r
  Related-Tracks (err e, _) (undefined, q) r = absurd r
  Related-Tracks (undefined, _) (ok b, q) r = absurd r
  Related-Tracks (undefined, _) (err e, q) r = absurd r
  Related-Tracks (undefined, _) (undefined, q) r = tt

  -- An offset in the buffer, which a call sets.
  placed :
      (position : ℕ)
      → k.base + position ≤ length all
      → IsAt all (record k { offset = position }) (record d { offset = position })
  placed position h = record {
    buffer_is = at.buffer_is;
    offset_is = refl;
    ready = record {
      inside = omega (arith, h, length-buffer);
      measured = at.ready.measured;
      all_bytes = at.ready.all_bytes;
    };
  }

  skipped :
      (count : ℕ)
      → length all + 64 < 2 ^ 64
      → k.base + k.offset + count ≤ length all
      → IsAt all (record k { offset = k.offset + count }) (Deserializer.skip count d)
  unfolding Deserializer.skip
  skipped count roomy h =
      let place = placed (k.offset + count) (omega (arith, h)) in
      let e : add_size d.offset count ≡ k.offset + count = omega (arith, at.offset_is, h, roomy) in
      record {
        buffer_is = place.buffer_is;
        offset_is = e;
        ready = record {
          inside = omega (arith, e, place.ready.inside);
          measured = place.ready.measured;
          all_bytes = place.ready.all_bytes;
        };
      }

  compacted :
      k.base + k.offset + k.offset ≤ length all
      → (Deserializer.compact d ≡ (ok tt, record d { buffer = drop d.offset d.buffer }))
        × IsAt all
            (record { base = k.base + k.offset; offset = k.offset })
            (record d { buffer = drop d.offset d.buffer })
  unfolding Deserializer.compact
  compacted h =
      let fits : leb d.offset (length d.buffer) ≡ true = ground (arith, at.ready.inside) in
      let size = length-drop d.offset d.buffer in
      (
        rw fits refl,
        record {
          buffer_is = unread-all;
          offset_is = at.offset_is;
          ready = record {
            inside = omega (arith, size, h, at.offset_is, length-buffer);
            measured = omega (arith, size, at.ready.measured);
            all_bytes = All-drop IsByte d.offset d.buffer at.ready.all_bytes;
          };
        },
      )

module _ (W128 W256 : Layout) (S : Serializable) (all : List ℕ)
    (roomy : length all + 64 < 2 ^ 64) where
  call-Tracks :
      (c : Call) (k : Cursor) (d : Deserializer)
      → IsNativeCall c
      → IsAt all k d
      → TracksIn all (call W128 W256 S c d) (follow W128 W256 S all c k)
  unfolding Deserializer.reset
  call-Tracks (asks r) k d native at =
      let fits : IsRoomy d = omega (arith, roomy, length-buffer all k d at) in
      let related =
        subst (λ u. Related d (ask W128 W256 S r d) (expect W128 W256 S r u))
          (unread-all all k d at) (Refines-ask W128 W256 S r native d at.ready fits) in
      Related-Tracks all k d at (ask W128 W256 S r d) _ related
  call-Tracks (skips count) k d native at =
      elim (Bool-cases (leb (k.base + k.offset + count) (length all))) [
        | inl inside ↦ rw inside (refl, skipped all k d at count roomy (leb→le _ _ inside))
        | inr behind ↦ rw behind tt
      ]
  call-Tracks (resets position) k d native at =
      elim (Bool-cases (leb (k.base + position) (length all))) [
        | inl inside ↦ rw inside (refl, placed all k d at position (leb→le _ _ inside))
        | inr behind ↦ rw behind tt
      ]
  call-Tracks compacts k d native at =
      elim (Bool-cases (leb (k.base + k.offset + k.offset) (length all))) [
        | inl inside ↦
            let (e, at') = compacted all k d at (leb→le _ _ inside) in rw (inside, e) (refl, at')
        | inr behind ↦ rw behind tt
      ]

  call_all-Tracks :
      (cs : List Call) (k : Cursor) (d : Deserializer)
      → All IsNativeCall cs
      → IsAt all k d
      → TracksIn all (call_all W128 W256 S cs d) (follow_all W128 W256 S all cs k)
  unfolding call_all follow_all
  call_all-Tracks [] k d h at = (refl, at)
  call_all-Tracks (c ∷ cs) k d (h, hs) at =
      resume-Tracks all (call W128 W256 S c d) (follow W128 W256 S all c k) _ _
        (call-Tracks c k d h at)
        (λ a k' d' at'.
          resume-Tracks all (call_all W128 W256 S cs d') (follow_all W128 W256 S all cs k') _ _
            (call_all-Tracks cs k' d' hs at') (λ as' k'' d'' at''. (refl, at'')))

-- A reader is a cursor in the bytes that it was made of. Reads, `skip`, `reset` and `compact` in any order,
-- up to the first that fails, answer what the queue of the bytes from the cursor on does, or fail with the
-- same exception or the same undefined read. After a success the buffer is the bytes less the front that
-- `compact` has dropped, and the offset is the cursor's: a read that is no peek moves it behind what it
-- took, `skip` moves it on, `reset` sets it, and `compact` drops what is passed and leaves it. No call
-- places the cursor behind the end; the bytes are more than 64 short of what `size_t` can measure, and the
-- varint types have at most 8 bytes.
pub call_all-follow_all :
    (W128 W256 : Layout) (S : Serializable) (all : List ℕ) (cs : List Call)
    {y : Result (Replies W128 W256 S cs) × Cursor}
    → All IsByte all
    → length all + 64 < 2 ^ 64
    → All IsNativeCall cs
    → follow_all W128 W256 S all cs (record { base = 0; offset = 0 }) ≡ some y
    → Tracks all (call_all W128 W256 S cs (Deserializer.of_vector all)) y
unfolding Deserializer.of_vector
call_all-follow_all W128 W256 S all cs {y} all_bytes roomy native follows =
    let start : IsAt all (record { base = 0; offset = 0 }) (Deserializer.of_vector all) = record {
      buffer_is = refl;
      offset_is = refl;
      ready = record {
        inside = omega arith;
        measured = omega (arith, roomy);
        all_bytes = all_bytes;
      };
    } in
    subst (TracksIn all (call_all W128 W256 S cs (Deserializer.of_vector all))) follows (
      call_all-Tracks W128 W256 S all roomy cs (record { base = 0; offset = 0 })
        (Deserializer.of_vector all) native start)
