-- ===== src/Tests/Documented.antt =====
-- The library of trees does what the documentation says of the writer and the parser.
use serialization_cpp.Common.{
  List, ℕ, [], ◌∷◌, refl, true, none, some, ap, ◌==◌, arith, inl, inr, Bool-cases, lt→ltb, ◌^◌, ◌≡◌,
}
use serialization_cpp.Json.Tree.{
  string, uint64, uint, boolean, array, object, nil, cons, end, member, Tree, Trees, Members,
  same_text, play, play_trees, play_members, is_fresh, Shows, ShowsTrees, ShowsMembers, IsPlain,
  ArePlain, AreMembers, IsDocumented, same_text_refl,
}
use serialization_cpp.Tests.Trees.{
  tree_json, tree_writer, values, lookup, close_array, close_object, Part, open_array, open_object,
  named, value,
}

abbrev and_trees : Trees → Trees → Trees
and_trees nil us = us
and_trees (cons t ts) us = cons t (and_trees ts us)

abbrev and_members : Members → Members → Members
and_members end ns = ns
and_members (member key t ms) ns = member key t (and_members ms ns)

and_nil : (ts : Trees) → and_trees ts nil ≡ ts
and_nil nil = refl
and_nil (cons t ts) = ap (cons t) (and_nil ts)

and_end : (ms : Members) → and_members ms end ≡ ms
and_end end = refl
and_end (member key t ms) = ap (member key t) (and_end ms)

mutual
  unfolding play

  play-value : (t : Tree) (s : List Part) → play tree_writer t s ≡ value t ∷ s
  play-value (string str) s = refl
  play-value (uint64 n) s = refl
  play-value (uint n) s = refl
  play-value (boolean b) s = refl
  play-value (array ts) s = rw (play_trees-values ts nil (open_array ∷ s), and_nil ts)
  play-value (object ms) s = rw (play_members-values ms end (open_object ∷ s), and_end ms)

  play_trees-values :
      (ts us : Trees) (s : List Part)
      → close_array us (play_trees tree_writer ts s) ≡ close_array (and_trees ts us) s
  play_trees-values nil us s = refl
  play_trees-values (cons t ts) us s = rw (play-value t s) (play_trees-values ts us (value t ∷ s))

  play_members-values :
      (ms ns : Members) (s : List Part)
      → close_object ns (play_members tree_writer ms s) ≡ close_object (and_members ms ns) s
  play_members-values end ns s = refl
  play_members-values (member key t ms) ns s =
      rw (play-value t (named key ∷ s)) (play_members-values ms ns (value t ∷ named key ∷ s))

same_text→≡ : (a b : List ℕ) → same_text a b ≡ true → a ≡ b
same_text→≡ [] [] h = refl
same_text→≡ [] (d ∷ b) h = absurd (cc h)
same_text→≡ (c ∷ a) [] h = absurd (cc h)
same_text→≡ (c ∷ a) (d ∷ b) h = elim (Bool-cases (c == d)) [
  | inl same ↦
      let head : c ≡ d = ground (arith, same) in let tail = same_text→≡ a b (rw same at h) in cc
  | inr other ↦ absurd (cc (rw other at h))
]

fresh-lookup : (key : List ℕ) (ms : Members) → is_fresh key ms ≡ true → lookup ms key ≡ none
fresh-lookup key end h = refl
fresh-lookup key (member name t ms) h = elim (Bool-cases (same_text name key)) [
  | inl same ↦ absurd (cc (h, same))
  | inr other ↦ rw other (fresh-lookup key ms (rw other at h))
]

-- A member of all is found.
abbrev Finds : Members → Members → Type 0
Finds all ms = (key : List ℕ) (t : Tree) → lookup ms key ≡ some t → lookup all key ≡ some t

Finds-rest :
    (all ms : Members) (key : List ℕ) (t : Tree)
    → is_fresh key ms ≡ true
    → Finds all (member key t ms)
    → Finds all ms
Finds-rest all ms key t fresh finds other u e = elim (Bool-cases (same_text key other)) [
  | inl same ↦
      let gone = fresh-lookup key ms fresh in
      let e' = same_text→≡ key other same in absurd (cc (gone, e, e'))
  | inr differs ↦ finds other u (rw differs e)
]

mutual
  unfolding Shows IsPlain

  Shows-itself : (t : Tree) → IsPlain t → Shows tree_json t t
  Shows-itself (string str) h = (refl, refl)
  Shows-itself (uint64 n) h = (lt→ltb n (2 ^ 64) h, refl)
  Shows-itself (uint n) h = (lt→ltb n (2 ^ 32) h, refl)
  Shows-itself (boolean b) h = (refl, refl)
  Shows-itself (array ts) h = (refl, ShowsTrees-values ts h)
  Shows-itself (object ms) h = (refl, ShowsMembers-members ms ms h (λ key t e. e))

  ShowsTrees-values : (ts : Trees) → ArePlain ts → ShowsTrees tree_json (values ts) ts
  ShowsTrees-values nil h = tt
  ShowsTrees-values (cons t ts) (h, hs) = (Shows-itself t h, ShowsTrees-values ts hs)

  ShowsMembers-members :
      (all ms : Members) → AreMembers ms → Finds all ms → ShowsMembers tree_json (object all) ms
  ShowsMembers-members all end h f = tt
  ShowsMembers-members all (member key t ms) (ascii, fresh, h, hs) f = (
    (t, f key t (rw (same_text_refl key) refl), Shows-itself t h),
    ShowsMembers-members all ms hs (Finds-rest all ms key t fresh f),
  )

pub tree_writer-IsDocumented : IsDocumented tree_writer
tree_writer-IsDocumented = record {
  parse-play = λ t h. (t, rw (play-value t []) refl, Shows-itself t h);
}
