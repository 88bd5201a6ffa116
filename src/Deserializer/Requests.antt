-- ===== src/Deserializer/Requests.antt =====
-- A client of a reader: any reads, one behind the other, each with its own flag.
use serialization_cpp.Common.{All, ℕ, ◌≤◌, Bool, false, List, [], ◌∷◌}
use serialization_cpp.Common.Run.{Run, pure, ◌>>=◌}
use serialization_cpp.Pack.{Layout}
use serialization_cpp.Pack.Native.{uint8_t, uint16_t, uint32_t, uint64_t}
use serialization_cpp.Serializable.{Serializable}
use serialization_cpp.Deserializer.{Deserializer}
use serialization_cpp.Deserializer.Reads.{Ready, unread}
use serialization_cpp.Deserializer.Refines.{Related, IsRoomy, Refines, Refines->>=, Refines-pure}
use serialization_cpp.Deserializer.Refinement.{
  Refines-fixed, Refines-bytes, Refines-hex, Refines-varint, Refines-boolean, Refines-pod,
  Refines-varint_vector, Refines-pod_vector, Refines-pod_nested,
}
use serialization_cpp.Deserializer
use serialization_cpp.Deserializer.Queue

-- A call of a method, with the number of bytes, the size of the type, the flag `peek` and the byte order.
pub data Request : Type 0 where
  uint8 : Bool → Request
  boolean : Bool → Request
  uint16 uint32 uint64 uint128 uint256 : Bool → Bool → Request
  bytes hex : ℕ → Bool → Request
  varint varint_vector : ℕ → Bool → Request
  pod pod_vector pod_nested : Bool → Request

-- A varint's type is one of at most 8 bytes.
abbrev pub IsNative : Request → Type 0
IsNative (varint size peek) = size ≤ 8
IsNative (varint_vector size peek) = size ≤ 8
IsNative (uint8 peek) = Unit {0}
IsNative (boolean peek) = Unit {0}
IsNative (uint16 peek be) = Unit {0}
IsNative (uint32 peek be) = Unit {0}
IsNative (uint64 peek be) = Unit {0}
IsNative (uint128 peek be) = Unit {0}
IsNative (uint256 peek be) = Unit {0}
IsNative (bytes count peek) = Unit {0}
IsNative (hex count peek) = Unit {0}
IsNative (pod peek) = Unit {0}
IsNative (pod_vector peek) = Unit {0}
IsNative (pod_nested peek) = Unit {0}

module _ (W128 W256 : Layout) (S : Serializable) where
  abbrev pub Answer : Request → Type 0
  Answer (uint8 peek) = ℕ
  Answer (boolean peek) = Bool
  Answer (uint16 peek be) = ℕ
  Answer (uint32 peek be) = ℕ
  Answer (uint64 peek be) = ℕ
  Answer (uint128 peek be) = W128.Value
  Answer (uint256 peek be) = W256.Value
  Answer (bytes count peek) = List ℕ
  Answer (hex count peek) = List ℕ
  Answer (varint size peek) = ℕ
  Answer (varint_vector size peek) = List ℕ
  Answer (pod peek) = S.Object
  Answer (pod_vector peek) = List S.Object
  Answer (pod_nested peek) = List (List S.Object)

  -- The call of the code.
  unfoldable pub ask : (r : Request) → Run Deserializer (Answer r)
  ask (uint8 peek) = Deserializer.uint8 peek
  ask (boolean peek) = Deserializer.boolean peek
  ask (uint16 peek be) = Deserializer.uint16 peek be
  ask (uint32 peek be) = Deserializer.uint32 peek be
  ask (uint64 peek be) = Deserializer.uint64 peek be
  ask (uint128 peek be) = Deserializer.uint128 W128 peek be
  ask (uint256 peek be) = Deserializer.uint256 W256 peek be
  ask (bytes count peek) = Deserializer.bytes count peek
  ask (hex count peek) = Deserializer.hex count peek
  ask (varint size peek) = Deserializer.varint size peek
  ask (varint_vector size peek) = Deserializer.varint_vector size peek
  ask (pod peek) = Deserializer.pod S peek
  ask (pod_vector peek) = Deserializer.pod_vector S peek
  ask (pod_nested peek) = Deserializer.pod_nested S peek

  -- The call on a queue.
  unfoldable pub expect : (r : Request) → Run Queue.Queue (Answer r)
  expect (uint8 peek) = Queue.fixed uint8_t false peek
  expect (boolean peek) = Queue.boolean peek
  expect (uint16 peek be) = Queue.fixed uint16_t be peek
  expect (uint32 peek be) = Queue.fixed uint32_t be peek
  expect (uint64 peek be) = Queue.fixed uint64_t be peek
  expect (uint128 peek be) = Queue.fixed W128 be peek
  expect (uint256 peek be) = Queue.fixed W256 be peek
  expect (bytes count peek) = Queue.bytes count peek
  expect (hex count peek) = Queue.hex count peek
  expect (varint size peek) = Queue.varint size peek
  expect (varint_vector size peek) = Queue.vector (Queue.varint size false) peek
  expect (pod peek) = Queue.pod S peek
  expect (pod_vector peek) = Queue.vector (Queue.pod S false) peek
  expect (pod_nested peek) = Queue.vector (Queue.many (Queue.pod S false)) peek

  -- The answers to some requests.
  abbrev pub Answers : List Request → Type 0
  Answers [] = Unit {0}
  Answers (r ∷ rs) = Answer r × Answers rs

  -- Requests until one fails.
  unfoldable pub ask_all : (rs : List Request) → Run Deserializer (Answers rs)
  ask_all [] = pure tt
  ask_all (r ∷ rs) = do a ← ask r; as' ← ask_all rs; pure (a, as')

  unfoldable pub expect_all : (rs : List Request) → Run Queue.Queue (Answers rs)
  expect_all [] = pure tt
  expect_all (r ∷ rs) = do a ← expect r; as' ← expect_all rs; pure (a, as')

  pub Refines-ask : (r : Request) → IsNative r → Refines (ask r) (expect r)
  unfolding ask expect Deserializer.uint8 Deserializer.uint16 Deserializer.uint32
      Deserializer.uint64 Deserializer.uint128 Deserializer.uint256
  Refines-ask (uint8 peek) h = Refines-fixed uint8_t false peek
  Refines-ask (boolean peek) h = Refines-boolean peek
  Refines-ask (uint16 peek be) h = Refines-fixed uint16_t be peek
  Refines-ask (uint32 peek be) h = Refines-fixed uint32_t be peek
  Refines-ask (uint64 peek be) h = Refines-fixed uint64_t be peek
  Refines-ask (uint128 peek be) h = Refines-fixed W128 be peek
  Refines-ask (uint256 peek be) h = Refines-fixed W256 be peek
  Refines-ask (bytes count peek) h = Refines-bytes count peek
  Refines-ask (hex count peek) h = Refines-hex count peek
  Refines-ask (varint size peek) h = Refines-varint size peek h
  Refines-ask (varint_vector size peek) h = Refines-varint_vector size peek h
  Refines-ask (pod peek) h = Refines-pod S peek
  Refines-ask (pod_vector peek) h = Refines-pod_vector S peek
  Refines-ask (pod_nested peek) h = Refines-pod_nested S peek

  pub Refines-ask_all : (rs : List Request) → All IsNative rs → Refines (ask_all rs) (expect_all rs)
  unfolding ask_all expect_all
  Refines-ask_all [] h = Refines-pure tt
  Refines-ask_all (r ∷ rs) (h, hs) = Refines->>= (ask r) (expect r) _ _ (Refines-ask r h) (λ a.
      Refines->>= (ask_all rs) (expect_all rs) _ _ (Refines-ask_all rs hs)
        (λ as'. Refines-pure (a, as')))

-- A reader refines a queue of bytes. Any requests, up to the first that fails, answer what they do on
-- the queue of the bytes not read yet, or fail with the same exception or the same undefined read; after
-- a success the buffer is as it was, the offset is in it, and what is unread is what the queue holds.
-- The offset is in the buffer at first, and the buffer is more than 64 bytes short of what `size_t` can
-- measure.
pub ask_all-expect_all :
    (W128 W256 : Layout) (S : Serializable) (rs : List Request) (d : Deserializer)
    → All IsNative rs
    → Ready d
    → IsRoomy d
    → Related d (ask_all W128 W256 S rs d) (expect_all W128 W256 S rs (unread d))
ask_all-expect_all W128 W256 S rs d native ready roomy =
    Refines-ask_all W128 W256 S rs native d ready roomy
