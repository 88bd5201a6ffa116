-- ===== src/Tests/Written.antt =====
-- JSON that is written and loaded, with the library of trees.
use serialization_cpp.Json.Struct.{Kind, Struct, struct_to_json, struct_from_json}
use serialization_cpp.Json.Struct.Fields.{Fits, AreNames}
use serialization_cpp.Json.Struct.Reload.{struct_round_trip}
use serialization_cpp.Json.Documents.{pods, pods_laws}
use serialization_cpp.Json.Write.{json_dump, json_parse}
use serialization_cpp.Tests.Trees.{tree_writer}
use serialization_cpp.Tests.Documented.{tree_writer-IsDocumented}
use serialization_cpp.Tests.{pair, other_pair, pair-IsPod, other_pair-IsPod}
use serialization_cpp.Json.Tree.{Tree, Shows, Members}
use serialization_cpp.Common.{List, ℕ, ◌∷◌, [], refl, arith, ◌≡◌}
use serialization_cpp.Common.Result.{ok, ◌>>=◌, err, not_found, expected_array}
use serialization_cpp.Json.Struct.Missing.{struct_from_json-missing}
use serialization_cpp.Json.Struct.Wrong.{struct_from_json-wrong}
use serialization_cpp.Json.{type_name}
use serialization_cpp.Json.Struct

abbrev fields : List (List ℕ × Kind)
fields =
    (b'a' ∷ [], Struct.string)
    ∷ (b'b' ∷ [], Struct.nested)
    ∷ (b'c' ∷ [], Struct.object)
    ∷ (b'd' ∷ [], Struct.uint64)
    ∷ []

abbrev first : Struct (pods tree_writer 2) fields
first = (b'x' ∷ [], ((pair ∷ other_pair ∷ []) ∷ [] ∷ [], (other_pair, (70000, tt))))

abbrev second : Struct (pods tree_writer 2) fields
second = ([], ([], (pair, (0, tt))))

first-Fits : Fits (pods tree_writer 2) (pods_laws tree_writer 2) fields first
first-Fits = (
  ((omega arith, omega arith), tt),
  (((pair-IsPod, (other_pair-IsPod, tt)), (tt, tt)), (other_pair-IsPod, (omega arith, tt))),
)

fields-AreNames : AreNames (pods tree_writer 2) (pods_laws tree_writer 2) fields
fields-AreNames = (
  ((omega arith, omega arith), tt),
  refl,
  (
    ((omega arith, omega arith), tt),
    refl,
    (((omega arith, omega arith), tt), refl, (((omega arith, omega arith), tt), refl, tt)),
  ),
)

struct_round_trip_example :
    (j : Tree) × ((json_dump tree_writer (struct_to_json (pods tree_writer 2) fields first)
        >>= json_parse tree_writer)
      ≡ ok j)
    × (struct_from_json (pods tree_writer 2) fields j second ≡ (ok tt, first))
struct_round_trip_example =
    struct_round_trip tree_writer-IsDocumented (pods tree_writer 2) (pods_laws tree_writer 2) fields
      first second fields-AreNames first-Fits (tt, (tt, (pair-IsPod, (tt, tt))))

-- An object with the first and the last member of three.
abbrev gap : Tree
gap = Tree.object (
    Members.member (b'a' ∷ []) (Tree.string (b'x' ∷ []))
      (Members.member (b'd' ∷ []) (Tree.uint64 5) Members.end))

struct_from_json-missing_example :
    struct_from_json
      (pods tree_writer 2)
      ((b'a' ∷ [], Struct.string) ∷ (b'b' ∷ [], Struct.nested) ∷ (b'd' ∷ [], Struct.uint64) ∷ [])
      gap
      ([], ((pair ∷ []) ∷ [], (9, tt)))
    ≡ (err (not_found (b'b' ∷ [])), (b'x' ∷ [], ((pair ∷ []) ∷ [], (9, tt))))
unfolding Shows
struct_from_json-missing_example =
    struct_from_json-missing (pods tree_writer 2) (pods_laws tree_writer 2)
      ((b'a' ∷ [], Struct.string) ∷ []) ((b'd' ∷ [], Struct.uint64) ∷ []) (b'b' ∷ []) Struct.nested
      gap (b'x' ∷ [], tt) ([], tt) ((pair ∷ []) ∷ [], (9, tt)) refl
      ((Tree.string (b'x' ∷ []), refl, (refl, refl)), tt) (((omega arith, omega arith), tt), tt)
      (tt, tt) refl

-- The second member is a number, where an array is asked for.
abbrev odd : Tree
odd = Tree.object (
    Members.member (b'a' ∷ []) (Tree.string (b'x' ∷ []))
      (Members.member (b'b' ∷ []) (Tree.uint64 5) Members.end))

struct_from_json-wrong_example :
    struct_from_json
      (pods tree_writer 2)
      ((b'a' ∷ [], Struct.string) ∷ (b'b' ∷ [], Struct.nested) ∷ (b'd' ∷ [], Struct.uint64) ∷ [])
      odd
      ([], ((pair ∷ []) ∷ [], (9, tt)))
    ≡ (
      err (expected_array (b'N' ∷ b'u' ∷ b'm' ∷ b'b' ∷ b'e' ∷ b'r' ∷ [])),
      (b'x' ∷ [], ([], (9, tt))),
    )
unfolding Shows type_name
struct_from_json-wrong_example =
    struct_from_json-wrong (pods tree_writer 2) (pods_laws tree_writer 2)
      ((b'a' ∷ [], Struct.string) ∷ []) ((b'd' ∷ [], Struct.uint64) ∷ []) (b'b' ∷ []) Struct.nested
      odd (Tree.uint64 5) (b'x' ∷ [], tt) ([], tt) ((pair ∷ []) ∷ []) (9, tt) refl
      ((Tree.string (b'x' ∷ []), refl, (refl, refl)), tt) (((omega arith, omega arith), tt), tt)
      (tt, tt) refl refl refl
