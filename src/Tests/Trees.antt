-- ===== src/Tests/Trees.antt =====
-- A JSON library whose values are trees, and a writer that keeps a stack of what was written.
use serialization_cpp.Json.Tree.{
  same_text, member, cons, array, object, end, nil, Members, Tree, Trees, string, uint64, uint,
  boolean,
}
use serialization_cpp.Common.{
  ltb, if◌then◌else◌, ℕ, ◌^◌, Bool, true, false, Option, none, some, List, [], ◌∷◌,
}
use serialization_cpp.Json.{Json}
use serialization_cpp.Json.Write.{Writer}

abbrev is_string : Tree → Bool
is_string (string str) = true
is_string (uint64 n) = false
is_string (uint n) = false
is_string (boolean b) = false
is_string (array ts) = false
is_string (object ms) = false

abbrev get_string : Tree → List ℕ
get_string (string str) = str
get_string (uint64 n) = []
get_string (uint n) = []
get_string (boolean b) = []
get_string (array ts) = []
get_string (object ms) = []

abbrev is_number : ℕ → Tree → Bool
is_number bound (string str) = false
is_number bound (uint64 n) = ltb n bound
is_number bound (uint n) = ltb n bound
is_number bound (boolean b) = false
is_number bound (array ts) = false
is_number bound (object ms) = false

abbrev get_number : Tree → ℕ
get_number (string str) = 0
get_number (uint64 n) = n
get_number (uint n) = n
get_number (boolean b) = 0
get_number (array ts) = 0
get_number (object ms) = 0

abbrev is_bool : Tree → Bool
is_bool (string str) = false
is_bool (uint64 n) = false
is_bool (uint n) = false
is_bool (boolean b) = true
is_bool (array ts) = false
is_bool (object ms) = false

abbrev get_bool : Tree → Bool
get_bool (string str) = false
get_bool (uint64 n) = false
get_bool (uint n) = false
get_bool (boolean b) = b
get_bool (array ts) = false
get_bool (object ms) = false

abbrev pub values : Trees → List Tree
values nil = []
values (cons t ts) = t ∷ values ts

abbrev is_array : Tree → Bool
is_array (string str) = false
is_array (uint64 n) = false
is_array (uint n) = false
is_array (boolean b) = false
is_array (array ts) = true
is_array (object ms) = false

abbrev get_array : Tree → List Tree
get_array (string str) = []
get_array (uint64 n) = []
get_array (uint n) = []
get_array (boolean b) = []
get_array (array ts) = values ts
get_array (object ms) = []

abbrev is_object : Tree → Bool
is_object (string str) = false
is_object (uint64 n) = false
is_object (uint n) = false
is_object (boolean b) = false
is_object (array ts) = false
is_object (object ms) = true

abbrev pub lookup : Members → List ℕ → Option Tree
lookup end key = none
lookup (member name t ms) key = if same_text name key then some t else lookup ms key

abbrev find_member : Tree → List ℕ → Option Tree
find_member (string str) key = none
find_member (uint64 n) key = none
find_member (uint n) key = none
find_member (boolean b) key = none
find_member (array ts) key = none
find_member (object ms) key = lookup ms key

-- The numbers of the kinds in `rapidjson::Type`.
abbrev kind_of : Tree → ℕ
kind_of (string str) = 5
kind_of (uint64 n) = 6
kind_of (uint n) = 6
kind_of (boolean b) = if b then 2 else 1
kind_of (array ts) = 4
kind_of (object ms) = 3

abbrev pub tree_json : Json
tree_json = record {
  Value = Tree;
  Int64 = ℕ;
  Double = ℕ;
  is_bool = is_bool;
  is_int64 = is_number (2 ^ 63);
  is_uint64 = is_number (2 ^ 64);
  is_uint = is_number (2 ^ 32);
  is_double = λ v. false;
  is_string = is_string;
  is_array = is_array;
  is_object = is_object;
  get_type = kind_of;
  get_bool = get_bool;
  get_int64 = get_number;
  get_uint64 = get_number;
  get_uint = get_number;
  get_double = get_number;
  get_string = get_string;
  get_array = get_array;
  find_member = find_member;
}

-- What stands on the stack.
pub data Part : Type 0 where
  open_array : Part
  open_object : Part
  named : List ℕ → Part
  value : Tree → Part

abbrev pub close_array : Trees → List Part → List Part
close_array ts [] = []
close_array ts (open_array ∷ s) = value (array ts) ∷ s
close_array ts (open_object ∷ s) = []
close_array ts (named key ∷ s) = []
close_array ts (value t ∷ s) = close_array (cons t ts) s

abbrev pub close_object : Members → List Part → List Part
close_object ms [] = []
close_object ms (open_array ∷ s) = []
close_object ms (open_object ∷ s) = value (object ms) ∷ s
close_object ms (named key ∷ s) = []
close_object ms (value t ∷ []) = []
close_object ms (value t ∷ open_array ∷ s) = []
close_object ms (value t ∷ open_object ∷ s) = []
close_object ms (value t ∷ named key ∷ s) = close_object (member key t ms) s
close_object ms (value t ∷ value u ∷ s) = []

abbrev the_value : List Part → Option Tree
the_value [] = none
the_value (open_array ∷ s) = none
the_value (open_object ∷ s) = none
the_value (named key ∷ s) = none
the_value (value t ∷ []) = some t
the_value (value t ∷ p ∷ s) = none

abbrev pub tree_writer : Writer tree_json
tree_writer = record {
  State = List Part;
  Text = List Part;
  start = [];
  key = λ key s. named key ∷ s;
  string = λ str s. value (string str) ∷ s;
  uint64 = λ n s. value (uint64 n) ∷ s;
  uint = λ n s. value (uint n) ∷ s;
  boolean = λ b s. value (boolean b) ∷ s;
  start_array = λ s. open_array ∷ s;
  end_array = close_array nil;
  start_object = λ s. open_object ∷ s;
  end_object = close_object end;
  text = λ s. s;
  parse = the_value;
}
