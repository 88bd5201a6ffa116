-- ===== src/Json/Load/Vectors.antt =====
-- Loading vectors, and vectors of vectors, of elements that can all be constructed.
use serialization_cpp.Common.{ℕ, ◌≡◌, true, some, List, [], ◌∷◌, ◌++◌, append_assoc, append-nil}
use serialization_cpp.Common.Result.{Result, ok}
use serialization_cpp.Json.{has_member, get_json_value, get_json_array, get_json_array_at, Json}
use serialization_cpp.Json.Load.{member_or_throw, load_keyv, emplace_nested, load_keyvv}
use serialization_cpp.Json.Laws.{AreConstructed, emplace_each-all}

module _ (J : Json) {A : Type 0} (construct : J.Value → Result A) where
  -- Each value is an array, and its elements construct those of one of the vectors.
  abbrev pub AreFilled : List J.Value → List (List A) → Type 0
  AreFilled [] [] = Unit {0}
  AreFilled [] (xs ∷ xss) = ⊥
  AreFilled (v ∷ vs) [] = ⊥
  AreFilled (v ∷ vs) (xs ∷ xss) =
      (J.is_array v ≡ true) × AreConstructed construct (J.get_array v) xs × AreFilled vs xss

  emplace_nested-all :
      (vs : List J.Value) (xss field : List (List A))
      → AreFilled vs xss
      → emplace_nested J construct vs field ≡ (ok tt, field ++ xss)
  unfolding emplace_nested get_json_array
  emplace_nested-all [] [] field h = rw append-nil
  emplace_nested-all [] (xs ∷ xss) field h = absurd h
  emplace_nested-all (v ∷ vs) [] field h = absurd h
  emplace_nested-all (v ∷ vs) (xs ∷ xss) field (a, c, h) = rw (
    a,
    emplace_each-all J construct (J.get_array v) xs [] c,
    emplace_nested-all vs xss (field ++ (xs ∷ [])) h,
    append_assoc,
  )

  module _ (j v : J.Value) (key : List ℕ) (object : J.is_object j ≡ true)
      (found : J.find_member j key ≡ some v) (array : J.is_array v ≡ true) where
    pub load_keyv-all :
        (xs old : List A)
        → AreConstructed construct (J.get_array v) xs
        → load_keyv J construct j key old ≡ (ok tt, xs)
    unfolding load_keyv member_or_throw has_member get_json_array_at get_json_value get_json_array
    load_keyv-all xs old c =
        rw (object, found, array, emplace_each-all J construct (J.get_array v) xs [] c)

    pub load_keyvv-all :
        (xss old : List (List A))
        → AreFilled (J.get_array v) xss
        → load_keyvv J construct j key old ≡ (ok tt, xss)
    unfolding load_keyvv member_or_throw has_member get_json_array_at get_json_value get_json_array
    load_keyvv-all xss old h =
        rw (object, found, array, emplace_nested-all (J.get_array v) xss [] h)
