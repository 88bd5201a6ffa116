-- ===== src/Json/Write.antt =====
-- include/json_helper.h: the macros that write JSON and that go from a document to its text and back,
-- and the `toJSON` members of include/serializable_pod.h and include/serializable_vector.h.
use serialization_cpp.Common.{ℕ, Bool, Option, none, some, List, [], ◌∷◌}
use serialization_cpp.Common.Result.{Result, ok, err, undefined, could_not_parse}
use serialization_cpp.Common.Run.{Run, ◌>>◌, pure}
use serialization_cpp.Json.{Json}
use serialization_cpp.Serializable.{Serializable}
use serialization_cpp.Vector.{SerializableVector}
use serialization_cpp.Pod.{Pod}
use serialization_cpp.Pod

-- The members of `rapidjson::Writer` and `rapidjson::Document` that the macros call. A writer's state is
-- that of its buffer too: `start` is a writer of an empty buffer, and `text` is what `GetString` of the
-- buffer gives. `parse` has `none` for `HasParseError`. A text is only passed on.
pub record Writer (J : Json) : Type 1 where
  pub State : Type 0
  pub Text : Type 0
  pub start : State
  pub key : List ℕ → State → State
  pub string : List ℕ → State → State
  pub uint64 : ℕ → State → State
  pub uint : ℕ → State → State
  pub boolean : Bool → State → State
  pub start_array : State → State
  pub end_array : State → State
  pub start_object : State → State
  pub end_object : State → State
  pub text : State → Text
  pub parse : Text → Option J.Value

module _ {J : Json} (W : Writer J) where
  -- A call of the writer: none throws.
  abbrev pub calls : (W.State → W.State) → Run W.State (Unit {0})
  calls f s = (ok tt, f s)

  -- `KEY_TO_JSON`, by the `toJSON` of the field.
  unfoldable pub key_to_json : List ℕ → Run W.State (Unit {0}) → Run W.State (Unit {0})
  key_to_json field to_json = calls (W.key field) >> to_json

  -- `val.toJSON(writer)` for each element.
  unfoldable pub to_json_each {ℓ} :
      {A : Type ℓ} → (A → Run W.State (Unit {0})) → List A → Run W.State (Unit {0})
  to_json_each to_json [] = pure tt
  to_json_each to_json (val ∷ values) = to_json val >> to_json_each to_json values

  -- `StartArray`, what is between, and `EndArray`.
  unfoldable pub in_array : Run W.State (Unit {0}) → Run W.State (Unit {0})
  in_array body = do calls W.start_array; body; calls W.end_array

  -- `KEYV_TO_JSON` and `KEYVV_TO_JSON`.
  unfoldable pub keyv_to_json {ℓ} :
      {A : Type ℓ} → (A → Run W.State (Unit {0})) → List ℕ → List A → Run W.State (Unit {0})
  unfolding in_array to_json_each
  keyv_to_json to_json field values = calls (W.key field) >> in_array (to_json_each to_json values)

  unfoldable pub keyvv_to_json {ℓ} :
      {A : Type ℓ} → (A → Run W.State (Unit {0})) → List ℕ → List (List A) → Run W.State (Unit {0})
  unfolding in_array to_json_each
  keyvv_to_json to_json field values =
      calls (W.key field)
      >> in_array (to_json_each (λ level1. in_array (to_json_each to_json level1)) values)

  -- `U64_TO_JSON`, `U32_TO_JSON`, `STRING_TO_JSON` and `BOOL_TO_JSON`.
  unfoldable pub u64_to_json : List ℕ → ℕ → Run W.State (Unit {0})
  u64_to_json field value = do calls (W.key field); calls (W.uint64 value)

  unfoldable pub u32_to_json : List ℕ → ℕ → Run W.State (Unit {0})
  u32_to_json field value = do calls (W.key field); calls (W.uint value)

  unfoldable pub string_to_json : List ℕ → List ℕ → Run W.State (Unit {0})
  string_to_json field value = do calls (W.key field); calls (W.string value)

  unfoldable pub bool_to_json : List ℕ → Bool → Run W.State (Unit {0})
  bool_to_json field value = do calls (W.key field); calls (W.boolean value)

  -- `SerializablePod::toJSON`: the text is made before the writer is called.
  write_string : Result (List ℕ) → Run W.State (Unit {0})
  write_string (ok str) s = (ok tt, W.string str s)
  write_string (err e) s = (err e, s)
  write_string undefined s = (undefined, s)

  unfoldable pub pod_to_json : ℕ → Pod → Run W.State (Unit {0})
  unfolding write_string
  pod_to_json SIZE p = write_string (Pod.to_string SIZE p)

  -- `SerializableVector::toJSON`.
  unfoldable pub vector_to_json :
      (S : Serializable)
      → (S.Object → Run W.State (Unit {0}))
      → SerializableVector S
      → Run W.State (Unit {0})
  unfolding in_array to_json_each
  vector_to_json S to_json v = in_array (to_json_each to_json v.container)

  -- `JSON_INIT`, some calls of the writer, and `JSON_DUMP`.
  dumped : Result (Unit {0}) × W.State → Result W.Text
  dumped (ok _, s) = ok (W.text s)
  dumped (err e, s) = err e
  dumped (undefined, s) = undefined

  unfoldable pub json_dump : Run W.State (Unit {0}) → Result W.Text
  unfolding dumped
  json_dump body = dumped (body W.start)

  -- `JSON_PARSE` and `STR_TO_JSON`.
  unless_error : Option J.Value → Result J.Value
  unless_error none = err could_not_parse
  unless_error (some body) = ok body

  unfoldable pub json_parse : W.Text → Result J.Value
  unfolding unless_error
  json_parse str = unless_error (W.parse str)
