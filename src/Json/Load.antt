-- ===== src/Json/Load.antt =====
-- include/json_helper.h: the macros that check a value and load a field from it. A macro's field is the
-- object that the run changes; the class whose constructor it calls is a function that may throw.
pub mod Vectors
use serialization_cpp.Common.Run
use serialization_cpp.Common.{if◌then◌else◌, ℕ, Bool, List, [], ◌∷◌, ◌++◌}
use serialization_cpp.Common.Result.{◌>>=◌, Result, ok, err, undefined, wrong_json_type, not_found}
use serialization_cpp.Common.Run.{Run, stop}
use serialization_cpp.Deserializer.{loaded}
use serialization_cpp.Json.{
  get_json_value, has_member, get_json_bool_at, get_json_uint64_t_at, get_json_uint32_t_at,
  get_json_string_at, get_json_array, get_json_array_at, Json, type_error,
}

-- A field assigned.
assign {ℓ} : {A : Type ℓ} → Result A → Run A (Unit {0})
assign (ok a) old = (ok tt, a)
assign (err e) old = (err e, old)
assign undefined old = (undefined, old)

module _ (J : Json) where
  -- `JSON_STRING_OR_THROW`, `JSON_OBJECT_OR_THROW` and `JSON_MEMBER_OR_THROW`.
  unfoldable pub string_or_throw : J.Value → Result (Unit {0})
  string_or_throw j = if J.is_string j then ok tt else type_error J wrong_json_type j

  unfoldable pub object_or_throw : J.Value → Result (Unit {0})
  object_or_throw j = if J.is_object j then ok tt else type_error J wrong_json_type j

  unfoldable pub member_or_throw : J.Value → List ℕ → Result (Unit {0})
  member_or_throw j key = do
    present ← has_member J j key
    if present then ok tt else err (not_found key)

  -- `LOAD_STRING_FROM_JSON` and its likes for the other plain types.
  unfoldable pub load_string : J.Value → List ℕ → Run (List ℕ) (Unit {0})
  unfolding assign
  load_string j key = stop (member_or_throw j key) (λ _. assign (get_json_string_at J j key))

  unfoldable pub load_bool : J.Value → List ℕ → Run Bool (Unit {0})
  unfolding assign
  load_bool j key = stop (member_or_throw j key) (λ _. assign (get_json_bool_at J j key))

  unfoldable pub load_u64 : J.Value → List ℕ → Run ℕ (Unit {0})
  unfolding assign
  load_u64 j key = stop (member_or_throw j key) (λ _. assign (get_json_uint64_t_at J j key))

  unfoldable pub load_u32 : J.Value → List ℕ → Run ℕ (Unit {0})
  unfolding assign
  load_u32 j key = stop (member_or_throw j key) (λ _. assign (get_json_uint32_t_at J j key))

  -- `JSON_IF_MEMBER` in front of a statement.
  unfoldable pub if_member {ℓ} :
      {A : Type ℓ} → J.Value → List ℕ → Run A (Unit {0}) → Run A (Unit {0})
  if_member j field body =
      stop (has_member J j field) (λ present. if present then body else Run.pure tt)

  -- `LOAD_KEY_FROM_JSON`, by the `fromJSON(val, key)` of the field.
  unfoldable pub load_key {ℓ} :
      {A : Type ℓ} → (J.Value → List ℕ → Run A (Unit {0})) → J.Value → List ℕ → Run A (Unit {0})
  load_key from_json j key = stop (member_or_throw j key) (λ _. from_json j key)

  module _ {A : Type 0} (construct : J.Value → Result A) where
    -- `auto temp = type(elem); field.emplace_back(temp);` for each element.
    unfoldable pub emplace_each : List J.Value → Run (List A) (Unit {0})
    emplace_each [] field = (ok tt, field)
    emplace_each (elem ∷ elems) field =
        stop (construct elem) (λ temp field'. emplace_each elems (field' ++ (temp ∷ []))) field

    -- `LOAD_KEYV_FROM_JSON`: the field is cleared before the array is looked at.
    unfoldable pub load_keyv : J.Value → List ℕ → Run (List A) (Unit {0})
    unfolding emplace_each
    load_keyv j key =
        stop (member_or_throw j key) (λ _ field. stop (get_json_array_at J j key) emplace_each [])

    -- `LOAD_KEYVV_FROM_JSON`: each inner vector is appended empty, and then filled in place.
    fill_last : List (List A) → Result (Unit {0}) × List A → Result (Unit {0}) × List (List A)
    fill_last field (r, inner) = (r, field ++ (inner ∷ []))

    emplace_nested : List J.Value → Run (List (List A)) (Unit {0})
    unfolding fill_last
    emplace_nested [] field = (ok tt, field)
    emplace_nested (level1 ∷ values) field =
        let filled : Result (Unit {0}) × List (List A) =
          fill_last field (stop (get_json_array J level1) emplace_each []) in
        Run.proceed filled (λ _. emplace_nested values)

    unfoldable pub load_keyvv : J.Value → List ℕ → Run (List (List A)) (Unit {0})
    unfolding emplace_nested
    load_keyvv j key =
        stop (member_or_throw j key) (λ _ field. stop (get_json_array_at J j key) emplace_nested [])

  -- `JSON_OBJECT_CONSTRUCTOR` and `JSON_STRING_CONSTRUCTOR`, on an object that the other members
  -- initialise and the function called. After an exception there is no object.
  module _ {ℓ} {A : Type ℓ} (default : A) (funccall : J.Value → Run A (Unit {0})) where
    unfoldable pub object_constructor : J.Value → Result A
    unfolding loaded
    object_constructor j = do _ ← object_or_throw j; loaded (funccall j default)

    unfoldable pub object_constructor_at : J.Value → List ℕ → Result A
    unfolding loaded
    object_constructor_at val key = do
      j ← get_json_value J val key
      _ ← object_or_throw j
      loaded (funccall j default)

    unfoldable pub string_constructor : J.Value → Result A
    unfolding loaded
    string_constructor j = do _ ← string_or_throw j; loaded (funccall j default)

    unfoldable pub string_constructor_at : J.Value → List ℕ → Result A
    unfolding loaded
    string_constructor_at val key = do
      j ← get_json_value J val key
      _ ← string_or_throw j
      loaded (funccall j default)
