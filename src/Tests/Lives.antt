-- ===== src/Tests/Lives.antt =====
-- Loads of a pod in a row.
use serialization_cpp.Common.{[], ◌∷◌, ◌==◌, get_or, Bool-cases, inl, inr, length, List, ◌≡◌}
use serialization_cpp.Common.Result.{ok, err, wrong_data_size}
use serialization_cpp.Pod.{Pod}
use serialization_cpp.Hex.{from_hex, hex_values}
use serialization_cpp.Pod
use serialization_cpp.Interface.Attempts.{
  Load, from_bytes, from_text, load, attempts, loads-replaced,
}
use serialization_cpp.Tests.{refuse_zero}
use serialization_cpp.Tests.Trees.{tree_json}

length-refuse_zero : (q : Pod) → length q.bytes ≡ 2 → length (refuse_zero q).1.bytes ≡ 2
length-refuse_zero q h = elim (Bool-cases (get_or q.bytes 0 0 == 0)) [
  | inl zero_first ↦ rw zero_first h
  | inr other ↦ rw other h
]

-- A pod is loaded, too many bytes are refused, and then a text is whose pod the hook refuses.
abbrev loads : List (Load tree_json)
loads =
    from_bytes (1 ∷ 2 ∷ [])
    ∷ from_bytes (3 ∷ 4 ∷ 5 ∷ [])
    ∷ from_text (b'0' ∷ b'0' ∷ b'0' ∷ b'7' ∷ [])
    ∷ []

loads-replaced_example :
    attempts (load tree_json 2 refuse_zero) loads (Pod.default 2)
    ≡ (ok tt ∷ err wrong_data_size ∷ err wrong_data_size ∷ [], record { bytes = 0 ∷ 7 ∷ [] })
unfolding attempts from_hex hex_values
loads-replaced_example = loads-replaced tree_json 2 refuse_zero length-refuse_zero loads
