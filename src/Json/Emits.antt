-- ===== src/Json/Emits.antt =====
-- What the code that writes JSON spells, as trees.
use serialization_cpp.Common.{◌<◌, ◌%◌, arith, ◌/◌, All, ℕ, ◌≡◌, refl, List, [], ◌∷◌}
use serialization_cpp.Common.Result.{◌>>=◌, ok}
use serialization_cpp.Common.Run.{Run, ◌>>◌}
use serialization_cpp.Common.Bits.{IsByte}
use serialization_cpp.Hex.Digits.{digit_char}
use serialization_cpp.Hex.RoundTrip.{hex_text, to_hex-hex_text}
use serialization_cpp.Json.{Json}
use serialization_cpp.Json.Write.{
  to_json_each, in_array, pod_to_json, json_dump, json_parse, Writer,
}
use serialization_cpp.Json.Tree.{
  play, play_trees, Shows, IsAscii, IsPlain, ArePlain, IsDocumented, Tree, string, array, Trees,
  nil, cons,
}
use serialization_cpp.Pod.{Pod}
use serialization_cpp.Pod.Order.{IsPod}
use serialization_cpp.Pod

-- The tree of each element.
abbrev pub trees {ℓ} : {A : Type ℓ} → (A → Tree) → List A → Trees
trees tree [] = nil
trees tree (x ∷ xs) = cons (tree x) (trees tree xs)

pub ArePlain-trees {ℓ κ} :
    {A : Type ℓ} (P : A → Type κ) (tree : A → Tree)
    → ((x : A) → P x → IsPlain (tree x))
    → (xs : List A) → All P xs
    → ArePlain (trees tree xs)
unfolding IsPlain
ArePlain-trees P tree f [] h = tt
ArePlain-trees P tree f (x ∷ xs) (hx, hs) = (f x hx, ArePlain-trees P tree f xs hs)

module _ {J : Json} (W : Writer J) where
  -- The run succeeds, whatever was written before, and changes the writer so.
  abbrev pub Emits : Run W.State (Unit {0}) → (W.State → W.State) → Type 0
  Emits body f = (s : W.State) → body s ≡ (ok tt, f s)

  pub Emits->> :
      (m k : Run W.State (Unit {0})) (f g : W.State → W.State)
      → Emits m f
      → Emits k g
      → Emits (m >> k) (λ s. g (f s))
  Emits->> m k f g hm hk s = rw (hm s) (hk (f s))

  pub Emits-each {ℓ} :
      {A : Type ℓ} (to_json : A → Run W.State (Unit {0})) (tree : A → Tree) (xs : List A)
      → All (λ x. Emits (to_json x) (play W (tree x))) xs
      → Emits (to_json_each W to_json xs) (play_trees W (trees tree xs))
  unfolding to_json_each play
  Emits-each to_json tree [] h s = refl
  Emits-each to_json tree (x ∷ xs) (hx, hs) s =
      rw (hx s) (Emits-each to_json tree xs hs (play W (tree x) s))

  pub Emits-in_array :
      (body : Run W.State (Unit {0})) (ts : Trees)
      → Emits body (play_trees W ts)
      → Emits (in_array W body) (play W (array ts))
  unfolding in_array play
  Emits-in_array body ts h s = rw (h (W.start_array s))

  pub Emits-array {ℓ} :
      {A : Type ℓ} (to_json : A → Run W.State (Unit {0})) (tree : A → Tree) (xs : List A)
      → All (λ x. Emits (to_json x) (play W (tree x))) xs
      → Emits (in_array W (to_json_each W to_json xs)) (play W (array (trees tree xs)))
  Emits-array to_json tree xs h =
      Emits-in_array (to_json_each W to_json xs) (trees tree xs) (Emits-each to_json tree xs h)

  pub Emits-pod :
      (SIZE : ℕ) (p : Pod)
      → IsPod SIZE p
      → Emits (pod_to_json W SIZE p) (play W (string (hex_text p.bytes)))
  unfolding pod_to_json Pod.to_string play
  Emits-pod SIZE p h s = rw (to_hex-hex_text p.bytes h.all_bytes)

  -- A text that is dumped and parsed is a value that shows the tree.
  pub json_dump-play :
      (laws : IsDocumented W) (body : Run W.State (Unit {0})) (t : Tree)
      → Emits body (play W t)
      → IsPlain t
      → (j : J.Value) × ((json_dump W body >>= json_parse W) ≡ ok j) × Shows J j t
  unfolding json_dump json_parse
  json_dump-play laws body t h plain =
      let (j, parsed, shown) = laws.parse-play t plain in (j, rw (h W.start, parsed), shown)

-- The digits of bytes are characters of ASCII.
digit_char-IsAscii : (n : ℕ) → n < 16 → IsAscii (digit_char n)
digit_char-IsAscii n h = ground arith

pub hex_text-IsAscii : (bytes : List ℕ) → All IsByte bytes → All IsAscii (hex_text bytes)
hex_text-IsAscii [] h = tt
hex_text-IsAscii (b ∷ bytes) (hb, hs) = (
  digit_char-IsAscii (b / 16) (omega arith),
  (digit_char-IsAscii (b % 16) (omega arith), hex_text-IsAscii bytes hs),
)
