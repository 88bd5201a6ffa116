-- ===== src/Json/Laws.antt =====
-- What loading from JSON leaves in a field, on success and after an exception.
use serialization_cpp.Common.{
  if◌then◌else◌, Bool-cases, ℕ, ◌^◌, ◌<◌, ◌≡◌, sym, ap, ◌∙◌, inl, inr, true, some, List, [], ◌∷◌,
  ◌++◌, append_assoc, append-nil, arith, ◌≢◌, get_elem?, get_elem?-inside, option_cases, refl,
  false,
}
use serialization_cpp.Common.Result.{
  ◌>>=◌, Error, Result, ok, err, undefined, expected_array, wrong_json_type,
}
use serialization_cpp.Json.{
  has_member, get_json_value, get_json_uint64_t, get_json_uint64_t_at, get_json_uint32_t,
  get_json_uint32_t_at, get_json_array, Json, IsRapid, type_error, type_name, type_names,
}
use serialization_cpp.Json.Load.{
  string_or_throw, member_or_throw, emplace_each, object_constructor, object_constructor_at,
  object_or_throw,
}
use serialization_cpp.Json.Structures.{
  pod_from_json, pod_from_json_at, vector_from_json, vector_construct, vector_construct_at,
}
use serialization_cpp.Deserializer.{loaded}
use serialization_cpp.Serializable.{Serializable}
use serialization_cpp.Vector.{SerializableVector}
use serialization_cpp.Pod.{Pod}
use serialization_cpp.Hex.RoundTrip.{hex_text}
use serialization_cpp.Pod.Order.{IsPod}
use serialization_cpp.Pod.Laws.{from_string-to_string}

-- The objects that are constructed of all values.
abbrev pub AreConstructed : {V A : Type 0} → (V → Result A) → List V → List A → Type 0
AreConstructed f [] [] = Unit {0}
AreConstructed f [] (a ∷ xs) = ⊥
AreConstructed f (v ∷ vs) [] = ⊥
AreConstructed f (v ∷ vs) (a ∷ xs) = (f v ≡ ok a) × AreConstructed f vs xs

module _ (J : Json) {A : Type 0} (construct : J.Value → Result A) where
  emplace_each-append :
      (vs rest : List J.Value) (ys field : List A)
      → AreConstructed construct vs ys
      → emplace_each J construct (vs ++ rest) field ≡ emplace_each J construct rest (field ++ ys)
  unfolding emplace_each
  emplace_each-append [] rest [] field h = rw (append-nil field)
  emplace_each-append [] rest (a ∷ ys) field h = absurd h
  emplace_each-append (v ∷ vs) rest [] field h = absurd h
  emplace_each-append (v ∷ vs) rest (a ∷ ys) field h =
      rw (h.0, emplace_each-append vs rest ys (field ++ (a ∷ [])) h.1, append_assoc)

  pub emplace_each-all :
      (vs : List J.Value) (ys field : List A)
      → AreConstructed construct vs ys
      → emplace_each J construct vs field ≡ (ok tt, field ++ ys)
  unfolding emplace_each
  emplace_each-all vs ys field h =
      ap (λ l. emplace_each J construct l field) (sym (append-nil vs))
      ∙ emplace_each-append vs [] ys field h

  emplace_each-stops :
      (vs : List J.Value) (bad : J.Value) (rest : List J.Value) (ys field : List A) (e : Error)
      → AreConstructed construct vs ys
      → construct bad ≡ err e
      → emplace_each J construct (vs ++ (bad ∷ rest)) field ≡ (err e, field ++ ys)
  unfolding emplace_each
  emplace_each-stops vs bad rest ys field e h b =
      emplace_each-append vs (bad ∷ rest) ys field h ∙ rw b

-- A vector's old elements are gone as soon as a load starts. A value that is an array of which every
-- element can be constructed gives the vector of these elements.
pub vector_from_json_loads :
    (J : Json) (S : Serializable) (construct : J.Value → Result S.Object) (j : J.Value)
    (values : List S.Object) (v : SerializableVector S)
    → J.is_array j ≡ true
    → AreConstructed construct (J.get_array j) values
    → vector_from_json J S construct j v ≡ (ok tt, record { container = values })
unfolding vector_from_json get_json_array
vector_from_json_loads J S construct j values v a h =
    rw (a, emplace_each-all J construct (J.get_array j) values [] h)

-- Loading a vector is not undone by an exception, and its old elements are lost: of an array with an
-- element that cannot be constructed, the vector is left with the elements before that one, and of a
-- value that is no array it is left empty. The message of the latter names the kind of the value.
pub vector_from_json_stops :
    (J : Json) (S : Serializable) (construct : J.Value → Result S.Object) (j bad other : J.Value)
    (front rest : List J.Value) (values : List S.Object) (e : Error) (v : SerializableVector S)
    {name : List ℕ}
    → J.is_array j ≡ true
    → J.get_array j ≡ front ++ (bad ∷ rest)
    → AreConstructed construct front values
    → construct bad ≡ err e
    → J.is_array other ≡ false
    → type_name J other ≡ ok name
    → (vector_from_json J S construct j v ≡ (err e, record { container = values }))
      × (vector_from_json J S construct other v
          ≡ (err (expected_array name), record { container = [] }))
unfolding vector_from_json get_json_array
vector_from_json_stops J S construct j bad other front rest values e v array a h b no_array named =
    let stopped = emplace_each-stops J construct front bad rest values [] e h b in
    (rw (array, a, stopped) refl, rw (no_array, named) refl)

type_error_no_ok {ℓ} :
    {A : Type ℓ} (J : Json) (message : List ℕ → Error) (j : J.Value) (a : A)
    → type_error J message j ≢ ok a
unfolding type_name
type_error_no_ok J message j a h = elim (option_cases (get_elem? type_names (J.get_type j))) [
  | inl outside ↦ absurd (cc (h, outside))
  | inr (name, inside) ↦ absurd (cc (h, inside))
]

narrow :
    (J : Json) (laws : IsRapid J) (r : Result J.Value) (n : ℕ)
    → (r >>= get_json_uint32_t J) ≡ ok n
    → ((r >>= get_json_uint64_t J) ≡ ok n) × (n < 2 ^ 32)
unfolding get_json_uint32_t get_json_uint64_t
narrow J laws (err e) n h = absurd (cc h)
narrow J laws undefined n h = absurd (cc h)
narrow J laws (ok j) n h = elim (Bool-cases (J.is_uint j)) [
  | inl u ↦
      let same : J.get_uint64 j ≡ n = cc (h, u, laws.get_uint-get_uint64 j u) in
      (
        rw (laws.uint_is_uint64 j u, same),
        omega (arith, laws.get_uint-lt j u, laws.get_uint-get_uint64 j u, same),
      )
  | inr other ↦ absurd (type_error_no_ok J _ j n (rw other at h))
]

-- A number that a 32-bit load accepts is below 2 ^ 32, and a 64-bit load of the same member accepts it
-- and gives the same number.
pub uint32_at_uint64 :
    (J : Json) (laws : IsRapid J) (val : J.Value) (key : List ℕ) (n : ℕ)
    → get_json_uint32_t_at J val key ≡ ok n
    → (get_json_uint64_t_at J val key ≡ ok n) × (n < 2 ^ 32)
unfolding get_json_uint32_t_at get_json_uint64_t_at
uint32_at_uint64 J laws val key n h = narrow J laws (get_json_value J val key) n h

-- A pod that is printed in the member `key` of an object is loaded from it into any pod of the size; a
-- member that is no string throws and leaves the pod as it was.
pub pod_from_json_member :
    (J : Json) (SIZE : ℕ) (val j : J.Value) (key : List ℕ) (p q : Pod) {name : List ℕ}
    → type_name J j ≡ ok name
    → IsPod SIZE p
    → IsPod SIZE q
    → J.is_object val ≡ true
    → J.find_member val key ≡ some j
    → J.get_string j ≡ hex_text p.bytes
    → pod_from_json_at J SIZE val key q
      ≡ (if J.is_string j then (ok tt, p) else (err (wrong_json_type name), q))
unfolding pod_from_json_at pod_from_json member_or_throw has_member get_json_value string_or_throw
pod_from_json_member J SIZE val j key p q named hp hq o f s =
    let cases = from_string-to_string SIZE p q hp hq in
    elim (Bool-cases (J.is_string j)) [
      | inl text ↦ rw (o, f, text, s, cases.1)
      | inr other ↦ rw (o, f, other, named)
    ]

-- The kind of every value has a name in the table.
pub type_name_found :
    (J : Json) (laws : IsRapid J) (j : J.Value) → (name : List ℕ) × (type_name J j ≡ ok name)
unfolding type_name
type_name_found J laws j =
    let (name, inside) =
      get_elem?-inside type_names (J.get_type j) (omega (arith, laws.get_type-lt j)) in
    (name, rw inside refl)

-- Constructing a vector from JSON always throws, with or without a key: the constructor wants an object,
-- and what it calls wants an array, which no object is. The message names the value's kind.
pub vector_construct_throws :
    (J : Json) (laws : IsRapid J) (S : Serializable) (construct : J.Value → Result S.Object)
    (val j : J.Value) (key : List ℕ)
    → get_json_value J val key ≡ ok j
    → (name : List ℕ) × (type_name J j ≡ ok name)
      × (vector_construct J S construct j
          ≡ err (if J.is_object j then expected_array name else wrong_json_type name))
      × (vector_construct_at J S construct val key
          ≡ err (if J.is_object j then expected_array name else wrong_json_type name))
unfolding vector_construct_at vector_construct object_or_throw vector_from_json get_json_array
    loaded object_constructor object_constructor_at
vector_construct_throws J laws S construct val j key e =
    let (name, named) = type_name_found J laws j in
    elim (Bool-cases (J.is_object j)) [
      | inl object ↦
          let other = laws.object_is_no_array j object in
          (name, named, rw (object, other, named), rw (e, object, other, named))
      | inr other ↦ (name, named, rw (other, named), rw (e, other, named))
    ]
