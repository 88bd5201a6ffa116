-- ===== src/Json/Tree.antt =====
-- What a JSON document holds, with no mention of how it is written: the trees that the members of
-- RapidJSON's writer spell, and what the values that it parses show of them.
use serialization_cpp.Common.{
  ◌==◌, if◌then◌else◌, All, ℕ, ◌^◌, ◌≤◌, ◌<◌, ◌≡◌, Bool, true, false, ◌&&◌, some, List, [], ◌∷◌,
  ==_refl, refl,
}
use serialization_cpp.Json.{Json}
use serialization_cpp.Json.Write.{Writer}

mutual
  pub data Tree : Type 0 where
    string : List ℕ → Tree
    uint64 : ℕ → Tree
    uint : ℕ → Tree
    boolean : Bool → Tree
    array : Trees → Tree
    object : Members → Tree

  pub data Trees : Type 0 where
    nil : Trees
    cons : Tree → Trees → Trees

  pub data Members : Type 0 where
    end : Members
    member : List ℕ → Tree → Members → Members

-- The calls of a writer that spell a tree.
module _ {J : Json} (W : Writer J) where
  unfoldable mutual
    pub play : Tree → W.State → W.State
    play (string str) s = W.string str s
    play (uint64 n) s = W.uint64 n s
    play (uint n) s = W.uint n s
    play (boolean b) s = W.boolean b s
    play (array ts) s = W.end_array (play_trees ts (W.start_array s))
    play (object ms) s = W.end_object (play_members ms (W.start_object s))

    pub play_trees : Trees → W.State → W.State
    play_trees nil s = s
    play_trees (cons t ts) s = play_trees ts (play t s)

    pub play_members : Members → W.State → W.State
    play_members end s = s
    play_members (member key t ms) s = play_members ms (play t (W.key key s))

-- A parsed value is of the tree's kind and holds what the tree does.
module _ (J : Json) where
  unfoldable mutual
    pub Shows : J.Value → Tree → Type 0
    Shows j (string str) = (J.is_string j ≡ true) × (J.get_string j ≡ str)
    Shows j (uint64 n) = (J.is_uint64 j ≡ true) × (J.get_uint64 j ≡ n)
    Shows j (uint n) = (J.is_uint j ≡ true) × (J.get_uint j ≡ n)
    Shows j (boolean b) = (J.is_bool j ≡ true) × (J.get_bool j ≡ b)
    Shows j (array ts) = (J.is_array j ≡ true) × ShowsTrees (J.get_array j) ts
    Shows j (object ms) = (J.is_object j ≡ true) × ShowsMembers j ms

    pub ShowsTrees : List J.Value → Trees → Type 0
    ShowsTrees [] nil = Unit {0}
    ShowsTrees [] (cons t ts) = ⊥
    ShowsTrees (j ∷ js) nil = ⊥
    ShowsTrees (j ∷ js) (cons t ts) = Shows j t × ShowsTrees js ts

    pub ShowsMembers : J.Value → Members → Type 0
    ShowsMembers j end = Unit {0}
    ShowsMembers j (member key t ms) =
        ((v : J.Value) × (J.find_member j key ≡ some v) × Shows v t) × ShowsMembers j ms

abbrev pub same_text : List ℕ → List ℕ → Bool
same_text [] [] = true
same_text [] (d ∷ b) = false
same_text (c ∷ a) [] = false
same_text (c ∷ a) (d ∷ b) = c == d && same_text a b

pub same_text_refl : (a : List ℕ) → same_text a a ≡ true
same_text_refl [] = refl
same_text_refl (c ∷ a) = rw (==_refl c) (same_text_refl a)

-- Whether no member has the key.
abbrev pub is_fresh : List ℕ → Members → Bool
is_fresh key end = true
is_fresh key (member name t ms) = if same_text name key then false else is_fresh key ms

-- A character of ASCII that a C string can hold.
abbrev pub IsAscii : ℕ → Type 0
IsAscii c = (1 ≤ c) × (c < 128)

-- A tree whose texts are of such characters, whose numbers are of their types, and whose objects have no
-- key twice.
unfoldable mutual
  pub IsPlain : Tree → Type 0
  IsPlain (string str) = All IsAscii str
  IsPlain (uint64 n) = n < 2 ^ 64
  IsPlain (uint n) = n < 2 ^ 32
  IsPlain (boolean b) = Unit {0}
  IsPlain (array ts) = ArePlain ts
  IsPlain (object ms) = AreMembers ms

  pub ArePlain : Trees → Type 0
  ArePlain nil = Unit {0}
  ArePlain (cons t ts) = IsPlain t × ArePlain ts

  pub AreMembers : Members → Type 0
  AreMembers end = Unit {0}
  AreMembers (member key t ms) =
      All IsAscii key × (is_fresh key ms ≡ true) × IsPlain t × AreMembers ms

-- What the documentation says of the writer and the parser together: the text of a tree that is written
-- as a whole document is parsed, and the document shows the tree.
pub record IsDocumented {J : Json} (W : Writer J) : Type 0 where
  pub parse-play :
      (t : Tree)
      → IsPlain t
      → (j : J.Value) × (W.parse (W.text (play W t W.start)) ≡ some j) × Shows J j t
