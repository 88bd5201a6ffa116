-- ===== src/Deserializer/Peek.antt =====
-- The `peek` flag.
use serialization_cpp.Common.{◌==◌, length, ℕ, ◌≡◌, refl, Bool, true, false}
use serialization_cpp.Common.Run.{Run, pure, proceed, ◌>>=◌, ◌>>◌}
use serialization_cpp.Common.Result.{Result, ok, err, undefined}
use serialization_cpp.Hex.{to_hex}
use serialization_cpp.Varint.{decode_varint}
use serialization_cpp.Pack.{Layout}
use serialization_cpp.Serializable.{Serializable}
use serialization_cpp.Deserializer.{
  uint8, boolean, bytes, call, hex, reset, uint16, uint32, uint64, uint128, uint256, varint_read,
  varint, repeat, restore, varint_vector, loaded, pod, pod_vector, pod_nested, Deserializer,
}

-- The read answers the same with the flag as without, and leaves the reader as it was.
abbrev pub Peeks {ℓ} : {A : Type ℓ} → (Bool → Run Deserializer A) → Deserializer → Type ℓ
Peeks read d = read true d ≡ ((read false d).0, d)

-- The outcome of a step decides what follows, and not the object, if what follows leaves that alone.
after_call {ℓ κ} :
    {A : Type ℓ} {B : Type κ} (r : Result A) (f : A → Result B) (d d' : Deserializer)
    → proceed (r, d) (λ a. call (f a)) ≡ ((proceed (r, d') (λ a. call (f a))).0, d)
after_call (ok a) f d d' = refl
after_call (err e) f d d' = refl
after_call undefined f d d' = refl

varint_peeks :
    (r : Result (ℕ × ℕ)) (d : Deserializer) → varint_read true r d ≡ ((varint_read false r d).0, d)
unfolding varint_read
varint_peeks (ok (result, count)) d = refl
varint_peeks (err e) d = refl
varint_peeks undefined d = refl

-- With the flag set every read of a single value answers what it would without, be it a value, an
-- exception or a read outside of the buffer, and leaves the reader as it was.
pub peeks :
    (T : Layout) (S : Serializable) (be : Bool) (count type_size : ℕ) (d : Deserializer)
    → Peeks uint8 d
      × Peeks boolean d
      × Peeks (λ peek. uint16 peek be) d
      × Peeks (λ peek. uint32 peek be) d
      × Peeks (λ peek. uint64 peek be) d
      × Peeks (λ peek. uint128 T peek be) d
      × Peeks (λ peek. uint256 T peek be) d
      × Peeks (bytes count) d
      × Peeks (hex count) d
      × Peeks (varint type_size) d
      × Peeks (pod S) d
unfolding uint8 boolean uint16 uint32 uint64 uint128 uint256 bytes hex varint pod
peeks T S be count type_size d = (
  refl,
  after_call _ (λ value. ok (value == 1)) d _,
  refl,
  refl,
  refl,
  refl,
  refl,
  refl,
  after_call _ (λ temp. to_hex temp (length temp)) d _,
  varint_peeks (decode_varint type_size d.buffer d.offset) d,
  after_call _ (λ bytes'. loaded (S.deserialize bytes' S.default)) d _,
)

-- A reader put back to where it was, if the read succeeded.
abbrev pub rewound {ℓ} :
    {A : Type ℓ} → Deserializer → Result A × Deserializer → Result A × Deserializer
rewound d (ok a, d') = (ok a, record { buffer = d'.buffer; offset = d.offset })
rewound d (err e, d') = (err e, d')
rewound d (undefined, d') = (undefined, d')

-- How the reads of vectors end.
abbrev ending {ℓ} : {A : Type ℓ} → Bool → ℕ → A → Run Deserializer A
ending peek start a = restore peek start >> pure a

rewinds {ℓ} :
    {A : Type ℓ} (r : Result A × Deserializer) (d : Deserializer)
    → proceed r (ending true d.offset) ≡ rewound d (proceed r (ending false d.offset))
unfolding restore reset
rewinds (ok a, d') d = refl
rewinds (err e, d') d = refl
rewinds (undefined, d') d = refl

rewinds_counted {ℓ} :
    {A : Type ℓ} (r : Result ℕ × Deserializer) (body : ℕ → Run Deserializer A) (d : Deserializer)
    → proceed r (λ count. body count >>= ending true d.offset)
      ≡ rewound d (proceed r (λ count. body count >>= ending false d.offset))
rewinds_counted (ok count, d') body d = rewinds (body count d') d
rewinds_counted (err e, d') body d = refl
rewinds_counted (undefined, d') body d = refl

-- With the flag set the reads of vectors answer what they would without, and a successful one puts the
-- offset back to where it was. One that throws does not: the reader is left where the exception met it.
pub peeks_vectors :
    (type_size : ℕ) (S : Serializable) (d : Deserializer)
    → (varint_vector type_size true d ≡ rewound d (varint_vector type_size false d))
      × (pod_vector S true d ≡ rewound d (pod_vector S false d))
      × (pod_nested S true d ≡ rewound d (pod_nested S false d))
unfolding varint_vector pod_vector pod_nested
peeks_vectors type_size S d = (
  rewinds_counted (varint 8 false d) (λ count. repeat count (varint type_size false)) d,
  rewinds_counted (varint 8 false d) (λ count. repeat count (pod S false)) d,
  rewinds_counted (varint 8 false d) _ d,
)
