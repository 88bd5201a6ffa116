-- ===== src/Deserializer/Queue.antt =====
-- What `deserializer_t` promises, with no buffer and no offset: a queue of the bytes that were not read
-- yet. Each read looks at the front of the queue, and takes what it read off it unless it peeks.
use serialization_cpp.Common.{
  ltb, leb, ◌==◌, if◌then◌else◌, length, take, drop, ℕ, zero, suc, Bool, false, List, [], ◌∷◌,
}
use serialization_cpp.Common.Result.{not_enough_data, Result, ok, err, undefined}
use serialization_cpp.Common.Run.{Run, pure, ◌>>=◌}
use serialization_cpp.Pack.{Layout}
use serialization_cpp.Pack.Memory.{ordered}
use serialization_cpp.Pack.Native.{uint8_t}
use serialization_cpp.Hex.RoundTrip.{hex_text}
use serialization_cpp.Varint.Decode.{decoded}
use serialization_cpp.Serializable.{Serializable}
use serialization_cpp.Deserializer.{loaded}

abbrev pub Queue : Type 0
Queue = List ℕ

abbrev pub taken_off : Bool → ℕ → Queue → Queue
taken_off peek count q = if peek then q else drop count q

-- An integer that is not all there throws.
abbrev pub fixed : (T : Layout) → Bool → Bool → Run Queue T.Value
fixed T be peek q =
    if ltb (length q) T.size
    then (err not_enough_data, q)
    else (ok (T.load (ordered be (take T.size q))), taken_off peek T.size q)

abbrev pub boolean : Bool → Run Queue Bool
boolean peek = do value ← fixed uint8_t false peek; pure (value == 1)

-- Bytes that are not all there are undefined.
abbrev pub bytes : ℕ → Bool → Run Queue (List ℕ)
bytes count peek q =
    if leb count (length q) then (ok (take count q), taken_off peek count q) else (undefined, q)

abbrev pub hex : ℕ → Bool → Run Queue (List ℕ)
hex count peek = do bytes' ← bytes count peek; pure (hex_text bytes')

abbrev counted : Bool → Result (ℕ × ℕ) → Run Queue ℕ
counted peek (ok (value, count)) q = (ok value, taken_off peek count q)
counted peek (err e) q = (err e, q)
counted peek undefined q = (undefined, q)

abbrev pub varint : ℕ → Bool → Run Queue ℕ
varint size peek q = counted peek (decoded size q 0) q

unfoldable pub times {ℓ} : {A : Type ℓ} → ℕ → Run Queue A → Run Queue (List A)
times zero read = pure []
times (suc count) read = do x ← read; xs ← times count read; pure (x ∷ xs)

-- A successful peek of a vector gives the whole queue back.
abbrev pub given_back {ℓ} : {A : Type ℓ} → Bool → Queue → Result A × Queue → Result A × Queue
given_back peek q (ok a, q') = (ok a, if peek then q else q')
given_back peek q (err e, q') = (err e, q')
given_back peek q (undefined, q') = (undefined, q')

-- A size, and so many reads.
abbrev pub many {ℓ} : {A : Type ℓ} → Run Queue A → Run Queue (List A)
many read = do count ← varint 8 false; times count read

abbrev pub vector {ℓ} : {A : Type ℓ} → Run Queue A → Bool → Run Queue (List A)
vector read peek q = given_back peek q (many read q)

module _ (S : Serializable) where
  abbrev pub pod : Bool → Run Queue S.Object
  pod peek = do
    bytes' ← bytes (S.size S.default) peek
    λ q. (loaded (S.deserialize bytes' S.default), q)
