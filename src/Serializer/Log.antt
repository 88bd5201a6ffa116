-- ===== src/Serializer/Log.antt =====
-- A writer's specification: what a call writes is a log, its outcome and the bytes that it appends, which
-- nothing that the writer holds has a part in.
use serialization_cpp.Common.{
  if◌then◌else◌, length, take, leb, ℕ, zero, suc, ◌≡◌, refl, sym, ◌∙◌, true, false, List, [], ◌∷◌,
  ◌++◌, arith,
}
use serialization_cpp.Common.Result.{Result, ok, err, undefined}
use serialization_cpp.Common.Run.{Run, ◌>>◌}
use serialization_cpp.Varint.{encode_varint}
use serialization_cpp.Serializable.{Serializable}
use serialization_cpp.Serializer.{
  Serializer, extend_result, bytes, bytes_loop, push_back, varint, each, varint_vector, pod,
  pod_vector, pod_nested,
}
use serialization_cpp.Serializer.Writes.{appended, appended-nil, appended-append, extend-appended}

abbrev pub Log : Type 0
Log = Result (Unit {0}) × List ℕ

-- The bytes of a call, or its exception and none.
abbrev pub entry : Result (List ℕ) → Log
entry (ok bytes') = (ok tt, bytes')
entry (err e) = (err e, [])
entry undefined = (undefined, [])

-- One log, and after a success another.
abbrev pub continued : Log → Log → Log
continued (ok tt, xs) (r, ys) = (r, xs ++ ys)
continued (err e, xs) log = (err e, xs)
continued (undefined, xs) log = (undefined, xs)

-- The logs of the elements, to the first that fails.
unfoldable pub log_each {ℓ} : {A : Type ℓ} → (A → Log) → List A → Log
log_each log [] = (ok tt, [])
log_each log (x ∷ xs) = continued (log x) (log_each log xs)

-- A copy of so many bytes of an object, which ends with the object.
abbrev pub log_copy : ℕ → List ℕ → Log
log_copy count raw = (if leb count (length raw) then ok tt else undefined, take count raw)

-- The size of a vector, and the logs of its elements.
abbrev pub log_vector {ℓ} : {A : Type ℓ} → (A → Log) → List A → Log
log_vector log xs = continued (entry (encode_varint 8 (length xs))) (log_each log xs)

-- On any writer, the call ends as the log does and appends the log's bytes.
abbrev pub Logs : Run Serializer (Unit {0}) → Log → Type 0
Logs write log = (s : Serializer) → write s ≡ (log.0, appended s log.1)

pub Logs-extend_result : (r : Result (List ℕ)) → Logs (extend_result r) (entry r)
unfolding extend_result
Logs-extend_result (ok bytes') s = let e = extend-appended bytes' s in λ i. (ok tt, e i)
Logs-extend_result (err x) s = let e = sym (appended-nil s) in λ i. (err x, e i)
Logs-extend_result undefined s = let e = sym (appended-nil s) in λ i. (undefined, e i)

Logs->> :
    (m k : Run Serializer (Unit {0})) (l l' : Log)
    → Logs m l
    → Logs k l'
    → Logs (m >> k) (continued l l')
Logs->> m k (ok tt, xs) (r, ys) hm hk s =
    let e = appended-append s xs ys in rw (hm s) (hk (appended s xs) ∙ λ i. (r, e i))
Logs->> m k (err x, xs) l' hm hk s = rw (hm s) refl
Logs->> m k (undefined, xs) l' hm hk s = rw (hm s) refl

pub Logs-each {ℓ} :
    {A : Type ℓ} (f : A → Run Serializer (Unit {0})) (log : A → Log) (xs : List A)
    → ((x : A) → Logs (f x) (log x))
    → Logs (each f xs) (log_each log xs)
unfolding each log_each
Logs-each f log [] h s = let e = sym (appended-nil s) in λ i. (ok tt, e i)
Logs-each f log (x ∷ xs) h s =
    Logs->> (f x) (each f xs) (log x) (log_each log xs) (h x) (Logs-each f log xs h) s

pub Logs-bytes : (raw : List ℕ) (count : ℕ) → Logs (bytes raw count) (log_copy count raw)
unfolding bytes bytes_loop
Logs-bytes raw zero s =
    let all : leb 0 (length raw) ≡ true = ground arith in
    let e = sym (appended-nil s) in rw all (λ i. (ok tt, e i))
Logs-bytes [] (suc count) s =
    let short : leb (suc count) 0 ≡ false = ground arith in
    let e = sym (appended-nil s) in rw short (λ i. (undefined, e i))
Logs-bytes (b ∷ raw) (suc count) s =
    let same : leb (suc count) (suc (length raw)) ≡ leb count (length raw) = ground arith in
    let e = appended-append s (b ∷ []) (take count raw) in
    rw same (Logs-bytes raw count (push_back b s) ∙ λ i. ((log_copy count raw).0, e i))

pub Logs-varint : (n v : ℕ) → Logs (varint n v) (entry (encode_varint n v))
unfolding varint
Logs-varint n v = Logs-extend_result (encode_varint n v)

sized {ℓ} :
    {A : Type ℓ} (f : A → Run Serializer (Unit {0})) (log : A → Log) (xs : List A)
    → ((x : A) → Logs (f x) (log x))
    → Logs (varint 8 (length xs) >> each f xs) (log_vector log xs)
sized f log xs h =
    Logs->> (varint 8 (length xs)) (each f xs) (entry (encode_varint 8 (length xs)))
      (log_each log xs) (Logs-varint 8 (length xs)) (Logs-each f log xs h)

pub Logs-varint_vector :
    (n : ℕ) (vs : List ℕ)
    → Logs (varint_vector n vs) (log_vector (λ v. entry (encode_varint n v)) vs)
unfolding varint_vector
Logs-varint_vector n vs = sized (varint n) _ vs (Logs-varint n)

module _ (S : Serializable) where
  pub Logs-pod : (v : S.Object) → Logs (pod S v) (entry (S.serialize v))
  unfolding pod
  Logs-pod v = Logs-extend_result (S.serialize v)

  pub Logs-pod_vector :
      (vs : List S.Object) → Logs (pod_vector S vs) (log_vector (λ v. entry (S.serialize v)) vs)
  unfolding pod_vector
  Logs-pod_vector vs = sized (pod S) _ vs Logs-pod

  pub Logs-pod_nested :
      (vss : List (List S.Object))
      → Logs (pod_nested S vss) (log_vector (log_vector (λ v. entry (S.serialize v))) vss)
  unfolding pod_nested
  Logs-pod_nested vss =
      sized (λ level1. varint 8 (length level1) >> each (pod S) level1) _ vss
        (λ vs. sized (pod S) _ vs Logs-pod)
