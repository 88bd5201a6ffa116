-- ===== src/Tests.antt =====
-- Test data: layouts, structures, readers and a JSON library, and runs of the code on them.
mod Text
mod Numbers
mod Readers
mod Structures
mod Documents
mod Trees
mod Documented
mod Written
mod Requests
mod Classes
mod Logs
mod Lives
mod Program
use serialization_cpp.Common.{
  sym, ltb, ◌==◌, if◌then◌else◌, ℕ, ◌^◌, ◌<◌, ◌≡◌, refl, Bool, true, false, ◌&&◌, Option, none,
  some, List, [], ◌∷◌, map, arith, get_or,
}
use serialization_cpp.Pack.{Layout}
use serialization_cpp.Pack.Native.{unsigned}
use serialization_cpp.Pod.{Pod}
use serialization_cpp.Pod.Order.{IsPod}
use serialization_cpp.Deserializer.{bytes}
use serialization_cpp.Json.{Json, IsRapid}
use serialization_cpp.Common.Run.{Run}
use serialization_cpp.Common.Result.{ok, err, wrong_data_size}

abbrev pub wide : Layout
wide = unsigned 16 (omega arith)

abbrev pub wider : Layout
wider = unsigned 32 (omega arith)

abbrev pub pair : Pod
pair = record { bytes = 1 ∷ 2 ∷ [] }

abbrev pub other_pair : Pod
other_pair = record { bytes = 171 ∷ 0 ∷ [] }

pub pair-IsPod : IsPod 2 pair
pair-IsPod = record { sized = refl; all_bytes = (omega arith, (omega arith, tt)) }

pub other_pair-IsPod : IsPod 2 other_pair
other_pair-IsPod = record { sized = refl; all_bytes = (omega arith, (omega arith, tt)) }

-- A hook that refuses a pod of which the first byte is zero.
abbrev pub refuse_zero : Run Pod (Unit {0})
refuse_zero p = if get_or p.bytes 0 0 == 0 then (err wrong_data_size, p) else (ok tt, p)

-- A JSON value, which may be an object of one member or an array of texts.
pub data Value : Type 0 where
  text : List ℕ → Value
  number : ℕ → Value
  texts : List (List ℕ) → Value
  member : List ℕ → Value → Value

abbrev same_text : List ℕ → List ℕ → Bool
same_text [] [] = true
same_text [] (d ∷ b) = false
same_text (c ∷ a) [] = false
same_text (c ∷ a) (d ∷ b) = c == d && same_text a b

abbrev is_text : Value → Bool
is_text (text t) = true
is_text (number n) = false
is_text (texts ts) = false
is_text (member key v) = false

abbrev is_number : ℕ → Value → Bool
is_number bound (text t) = false
is_number bound (number n) = ltb n bound
is_number bound (texts ts) = false
is_number bound (member key v) = false

abbrev is_texts : Value → Bool
is_texts (text t) = false
is_texts (number n) = false
is_texts (texts ts) = true
is_texts (member key v) = false

abbrev is_member : Value → Bool
is_member (text t) = false
is_member (number n) = false
is_member (texts ts) = false
is_member (member key v) = true

abbrev the_text : Value → List ℕ
the_text (text t) = t
the_text (number n) = []
the_text (texts ts) = []
the_text (member key v) = []

abbrev the_number : Value → ℕ
the_number (text t) = 0
the_number (number n) = n
the_number (texts ts) = 0
the_number (member key v) = 0

abbrev the_texts : Value → List Value
the_texts (text t) = []
the_texts (number n) = []
the_texts (texts ts) = map text ts
the_texts (member key v) = []

abbrev the_member : Value → List ℕ → Option Value
the_member (text t) key = none
the_member (number n) key = none
the_member (texts ts) key = none
the_member (member name v) key = if same_text name key then some v else none

-- The numbers of the kinds in `rapidjson::Type`.
abbrev kind_of : Value → ℕ
kind_of (text t) = 5
kind_of (number n) = 6
kind_of (texts ts) = 4
kind_of (member key v) = 3

kind_of_lt : (v : Value) → kind_of v < 7
kind_of_lt (text t) = omega arith
kind_of_lt (number n) = omega arith
kind_of_lt (texts ts) = omega arith
kind_of_lt (member key v) = omega arith

abbrev pub rapid : Json
rapid = record {
  Value = Value;
  Int64 = ℕ;
  Double = ℕ;
  is_bool = λ v. false;
  is_int64 = is_number (2 ^ 63);
  is_uint64 = is_number (2 ^ 64);
  is_uint = is_number (2 ^ 32);
  is_double = λ v. false;
  is_string = is_text;
  is_array = is_texts;
  is_object = is_member;
  get_type = kind_of;
  get_bool = λ v. false;
  get_int64 = the_number;
  get_uint64 = the_number;
  get_uint = the_number;
  get_double = the_number;
  get_string = the_text;
  get_array = the_texts;
  find_member = the_member;
}

uint_lt : (v : Value) → is_number (2 ^ 32) v ≡ true → the_number v < 2 ^ 32
uint_lt (text t) h = omega arith
uint_lt (number n) h = ground (arith, h)
uint_lt (texts ts) h = omega arith
uint_lt (member key v) h = omega arith

uint_uint64 : (v : Value) → is_number (2 ^ 32) v ≡ true → is_number (2 ^ 64) v ≡ true
uint_uint64 (text t) h = h
uint_uint64 (number n) h = ground (arith, h)
uint_uint64 (texts ts) h = h
uint_uint64 (member key v) h = h

object_is_no_array : (v : Value) → is_member v ≡ true → is_texts v ≡ false
object_is_no_array (text t) h = refl
object_is_no_array (number n) h = refl
object_is_no_array (texts ts) h = sym h
object_is_no_array (member key v) h = refl

pub rapid_laws : IsRapid rapid
rapid_laws = record {
  uint_is_uint64 = uint_uint64;
  get_uint-get_uint64 = λ j h. refl;
  object_is_no_array = object_is_no_array;
  get_type-lt = kind_of_lt;
  get_uint-lt = uint_lt;
}
