-- ===== src/Stream/Refines.antt =====
-- A writer against its specification: calls in a row, whatever they are given, are a log.
use serialization_cpp.Common.{List, ℕ, if◌then◌else◌, [], ◌∷◌, ◌≡◌}
use serialization_cpp.Common.Run.{Run}
use serialization_cpp.Common.Result.{ok}
use serialization_cpp.Pack.{Layout, pack}
use serialization_cpp.Pack.Native.{uint16_t, uint32_t, uint64_t}
use serialization_cpp.Hex.{from_hex}
use serialization_cpp.Varint.{encode_varint}
use serialization_cpp.Serializable.{Serializable}
use serialization_cpp.Serializer.{Serializer}
use serialization_cpp.Serializer.Writes.{
  appended, Writes-boolean, Writes-uint8, Writes-uint16, Writes-uint32, Writes-uint64,
  Writes-uint128, Writes-uint256, Writes-bytes_vector,
}
use serialization_cpp.Serializer.Log.{
  Log, entry, log_each, log_copy, log_vector, Logs, Logs-extend_result, Logs-each, Logs-bytes,
  Logs-varint, Logs-varint_vector, Logs-pod, Logs-pod_vector, Logs-pod_nested,
}
use serialization_cpp.Stream.{
  boolean, uint8, uint16, uint32, uint64, uint128, uint256, bytes, hex, varint, varint_vector, pod,
  pod_vector, pod_nested, write, Item,
}
use serialization_cpp.Serializer

-- A call that appends: an item, or a copy of bytes from a pointer.
pub data Call (W128 W256 : Layout) (S : Serializable) : Type 0 where
  writes : Item W128 W256 S → Call W128 W256 S
  copies : List ℕ → ℕ → Call W128 W256 S

module _ (W128 W256 : Layout) (S : Serializable) where
  abbrev pub call : Call W128 W256 S → Run Serializer (Unit {0})
  call (writes item) = write W128 W256 S item
  call (copies raw count) = Serializer.bytes raw count

  abbrev pub call_all : List (Call W128 W256 S) → Run Serializer (Unit {0})
  call_all calls = Serializer.each call calls

  -- What an item is in the log.
  abbrev log_item : Item W128 W256 S → Log
  log_item (boolean b) = (ok tt, (if b then 1 else 0) ∷ [])
  log_item (uint8 v) = (ok tt, v ∷ [])
  log_item (uint16 v be) = (ok tt, pack uint16_t v be)
  log_item (uint32 v be) = (ok tt, pack uint32_t v be)
  log_item (uint64 v be) = (ok tt, pack uint64_t v be)
  log_item (uint128 v be) = (ok tt, pack W128 v be)
  log_item (uint256 v be) = (ok tt, pack W256 v be)
  log_item (bytes bs) = (ok tt, bs)
  log_item (hex text) = entry (from_hex text)
  log_item (varint n v) = entry (encode_varint n v)
  log_item (varint_vector n vs) = log_vector (λ v. entry (encode_varint n v)) vs
  log_item (pod v) = entry (S.serialize v)
  log_item (pod_vector vs) = log_vector (λ v. entry (S.serialize v)) vs
  log_item (pod_nested vss) = log_vector (log_vector (λ v. entry (S.serialize v))) vss

  abbrev pub log : Call W128 W256 S → Log
  log (writes item) = log_item item
  log (copies raw count) = log_copy count raw

  abbrev pub log_all : List (Call W128 W256 S) → Log
  log_all calls = log_each log calls

  Logs-write : (item : Item W128 W256 S) → Logs (write W128 W256 S item) (log_item item)
  unfolding write Serializer.hex
  Logs-write (boolean b) = Writes-boolean b
  Logs-write (uint8 v) = Writes-uint8 v
  Logs-write (uint16 v be) = Writes-uint16 v be
  Logs-write (uint32 v be) = Writes-uint32 v be
  Logs-write (uint64 v be) = Writes-uint64 v be
  Logs-write (uint128 v be) = Writes-uint128 W128 v be
  Logs-write (uint256 v be) = Writes-uint256 W256 v be
  Logs-write (bytes bs) = Writes-bytes_vector bs
  Logs-write (hex text) = Logs-extend_result (from_hex text)
  Logs-write (varint n v) = Logs-varint n v
  Logs-write (varint_vector n vs) = Logs-varint_vector n vs
  Logs-write (pod v) = Logs-pod S v
  Logs-write (pod_vector vs) = Logs-pod_vector S vs
  Logs-write (pod_nested vss) = Logs-pod_nested S vss

  Logs-call : (c : Call W128 W256 S) → Logs (call c) (log c)
  Logs-call (writes item) = Logs-write item
  Logs-call (copies raw count) = Logs-bytes raw count

  -- A writer refines a log. Any calls that append, given whatever they are given, up to the first that
  -- fails, end as they do in the log, with the same exception or the same undefined read, and the writer
  -- then holds what it held and behind it the bytes of the log: what the failing call wrote before it
  -- failed, too. What the writer held has no part in either.
  pub call_all-log_all :
      (calls : List (Call W128 W256 S)) (s : Serializer)
      → call_all calls s ≡ ((log_all calls).0, appended s (log_all calls).1)
  call_all-log_all calls = Logs-each call log calls Logs-call
