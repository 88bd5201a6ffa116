-- ===== src/Json.antt =====
-- include/json_helper.h: the getters. RapidJSON is another library: its values and the members that the
-- code calls are a parameter.
pub mod Load
pub mod Structures
pub mod Write
pub mod Tree
pub mod Emits
pub mod Struct
pub mod Documents
pub mod Laws
use serialization_cpp.Common.{
  if◌then◌else◌, ℕ, ◌^◌, ◌<◌, ◌≡◌, Bool, true, false, Option, none, some, List, get_elem?, [], ◌∷◌,
}
use serialization_cpp.Common.Result.{
  ◌>>=◌, Result, ok, err, undefined, Error, missing_json_parameter, expected_bool, expected_int64_t,
  expected_uint64_t, expected_uint32_t, expected_double, expected_string, expected_array,
  expected_object,
}

-- `IsT` and `GetT` of a value, and `GetType`, as the number of the kind in `rapidjson::Type`. `find_member` is `FindMember`, with `none` for `MemberEnd()`; it may be
-- called on an object only. A number's and a double's values are types of their own.
pub record Json : Type 1 where
  pub Value : Type 0
  pub Int64 : Type 0
  pub Double : Type 0
  pub is_bool : Value → Bool
  pub is_int64 : Value → Bool
  pub is_uint64 : Value → Bool
  pub is_uint : Value → Bool
  pub is_double : Value → Bool
  pub is_string : Value → Bool
  pub is_array : Value → Bool
  pub is_object : Value → Bool
  pub get_type : Value → ℕ
  pub get_bool : Value → Bool
  pub get_int64 : Value → Int64
  pub get_uint64 : Value → ℕ
  pub get_uint : Value → ℕ
  pub get_double : Value → Double
  pub get_string : Value → List ℕ
  pub get_array : Value → List Value
  pub find_member : Value → List ℕ → Option Value

-- What the documentation says of the kinds: there are seven of them, no object is an array, and a value
-- that is an unsigned 32-bit integer is below 2 ^ 32, is an unsigned 64-bit one too, and is the same number
-- either way.
pub record IsRapid (J : Json) : Type 0 where
  pub uint_is_uint64 : (j : J.Value) → J.is_uint j ≡ true → J.is_uint64 j ≡ true
  pub get_uint-get_uint64 : (j : J.Value) → J.is_uint j ≡ true → J.get_uint j ≡ J.get_uint64 j
  pub object_is_no_array : (j : J.Value) → J.is_object j ≡ true → J.is_array j ≡ false
  pub get_type-lt : (j : J.Value) → J.get_type j < 7
  pub get_uint-lt : (j : J.Value) → J.is_uint j ≡ true → J.get_uint j < 2 ^ 32

-- `kTypeNames`.
abbrev pub type_names : List (List ℕ)
type_names =
    (b'N' ∷ b'u' ∷ b'l' ∷ b'l' ∷ [])
    ∷ (b'F' ∷ b'a' ∷ b'l' ∷ b's' ∷ b'e' ∷ [])
    ∷ (b'T' ∷ b'r' ∷ b'u' ∷ b'e' ∷ [])
    ∷ (b'O' ∷ b'b' ∷ b'j' ∷ b'e' ∷ b'c' ∷ b't' ∷ [])
    ∷ (b'A' ∷ b'r' ∷ b'r' ∷ b'a' ∷ b'y' ∷ [])
    ∷ (b'S' ∷ b't' ∷ b'r' ∷ b'i' ∷ b'n' ∷ b'g' ∷ [])
    ∷ (b'N' ∷ b'u' ∷ b'm' ∷ b'b' ∷ b'e' ∷ b'r' ∷ [])
    ∷ (b'D' ∷ b'o' ∷ b'u' ∷ b'b' ∷ b'l' ∷ b'e' ∷ [])
    ∷ []

module _ (J : Json) where
  -- `kTypeNames[j.GetType()]`, also as `JSON_TYPE_NAME`, and an exception whose message ends in it.
  unfoldable pub type_name : J.Value → Result (List ℕ)
  type_name j = elim (get_elem? type_names (J.get_type j)) [
    | none ↦ undefined
    | some name ↦ ok name
  ]

  abbrev pub type_error {ℓ} : {A : Type ℓ} → (List ℕ → Error) → J.Value → Result A
  type_error message j = type_name j >>= λ name. err (message name)

  -- `FindMember` on what is no object fails an assertion of RapidJSON.
  unfoldable pub has_member : J.Value → List ℕ → Result Bool
  has_member j key =
      if J.is_object j
      then elim (J.find_member j key) [ none ↦ ok false | some val ↦ ok true ]
      else undefined

  unfoldable pub get_json_value : J.Value → List ℕ → Result J.Value
  get_json_value j key =
      if J.is_object j
      then elim (J.find_member j key) [
        | none ↦ err (missing_json_parameter key)
        | some val ↦ ok val
      ]
      else undefined

  unfoldable pub get_json_bool : J.Value → Result Bool
  get_json_bool j = if J.is_bool j then ok (J.get_bool j) else type_error expected_bool j

  unfoldable pub get_json_bool_at : J.Value → List ℕ → Result Bool
  get_json_bool_at j key = do val ← get_json_value j key; get_json_bool val

  unfoldable pub get_json_int64_t : J.Value → Result J.Int64
  get_json_int64_t j = if J.is_int64 j then ok (J.get_int64 j) else type_error expected_int64_t j

  unfoldable pub get_json_int64_t_at : J.Value → List ℕ → Result J.Int64
  get_json_int64_t_at j key = do val ← get_json_value j key; get_json_int64_t val

  unfoldable pub get_json_uint64_t : J.Value → Result ℕ
  get_json_uint64_t j =
      if J.is_uint64 j then ok (J.get_uint64 j) else type_error expected_uint64_t j

  unfoldable pub get_json_uint64_t_at : J.Value → List ℕ → Result ℕ
  get_json_uint64_t_at j key = do val ← get_json_value j key; get_json_uint64_t val

  unfoldable pub get_json_uint32_t : J.Value → Result ℕ
  get_json_uint32_t j = if J.is_uint j then ok (J.get_uint j) else type_error expected_uint32_t j

  unfoldable pub get_json_uint32_t_at : J.Value → List ℕ → Result ℕ
  get_json_uint32_t_at j key = do val ← get_json_value j key; get_json_uint32_t val

  unfoldable pub get_json_double : J.Value → Result J.Double
  get_json_double j = if J.is_double j then ok (J.get_double j) else type_error expected_double j

  unfoldable pub get_json_double_at : J.Value → List ℕ → Result J.Double
  get_json_double_at j key = do val ← get_json_value j key; get_json_double val

  unfoldable pub get_json_string : J.Value → Result (List ℕ)
  get_json_string j = if J.is_string j then ok (J.get_string j) else type_error expected_string j

  unfoldable pub get_json_string_at : J.Value → List ℕ → Result (List ℕ)
  get_json_string_at j key = do val ← get_json_value j key; get_json_string val

  unfoldable pub get_json_array : J.Value → Result (List J.Value)
  get_json_array j = if J.is_array j then ok (J.get_array j) else type_error expected_array j

  unfoldable pub get_json_array_at : J.Value → List ℕ → Result (List J.Value)
  get_json_array_at j key = do val ← get_json_value j key; get_json_array val

  -- An object is the value that it is of.
  unfoldable pub get_json_object : J.Value → Result J.Value
  get_json_object j = if J.is_object j then ok j else type_error expected_object j

  unfoldable pub get_json_object_at : J.Value → List ℕ → Result J.Value
  get_json_object_at j key = do val ← get_json_value j key; get_json_object val
