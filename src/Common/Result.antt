-- ===== src/Common/Result.antt =====
-- The outcome of a call: a value, a C++ exception, or undefined behaviour.
use Prim.Native.Nat.{ℕ}
use mathlib.Core.List.{List}

-- One constructor for each message that the code throws, with the name of a key or of a kind of JSON
-- value that it holds.
pub data Error : Type 0 where
  -- std::range_error: pack, unpack and the varints
  not_enough_data value_out_of_range offset_exceeds_size could_not_decode : Error
  -- std::runtime_error: hexadecimal text and sizes
  invalid_hex_character invalid_string_size wrong_data_size invalid_value_size : Error
  -- std::out_of_range, of std::string
  position_out_of_range : Error
  -- std::invalid_argument: JSON
  could_not_parse : Error
  -- "JSON value is of the wrong type: …", and what the getters expected and got, with the name of a kind
  wrong_json_type : List ℕ → Error
  expected_bool expected_int64_t expected_uint64_t expected_uint32_t : List ℕ → Error
  expected_double expected_string expected_array expected_object : List ℕ → Error
  -- "Missing JSON parameter: '…'" and "… not found in JSON object", with the key
  missing_json_parameter not_found : List ℕ → Error

-- `undefined` is a read or a write outside of an object, or a shift that is too wide: the language says
-- nothing of what follows.
pub data Result {ℓ} (A : Type ℓ) : Type ℓ where
  ok : A → Result A
  err : Error → Result A
  undefined : Result A

infixl 5 ◌>>=◌
abbrev pub ◌>>=◌ {ℓ κ} : {A : Type ℓ} {B : Type κ} → Result A → (A → Result B) → Result B
ok a >>= f = f a
err e >>= f = err e
undefined >>= f = undefined
