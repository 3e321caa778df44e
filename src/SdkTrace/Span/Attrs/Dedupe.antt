-- ===== src/SdkTrace/Span/Attrs/Dedupe.antt =====
-- `dedupeAttrs` keeps each key once, with its last value.
use opentelemetry_go.Prelude.{
  ℕ, zero, suc, ◌+◌, ◌≤◌, ◌≡◌, refl, sym, ap, ◌∙◌, inl, inr, Option-cases, List, [], ◌∷◌, ◌++◌,
  Option, none, some, arith, if◌then◌else◌, Bytes, eq_bytes, eq_bytes_iff, length, set,
}
use opentelemetry_go.Attribute.{Value, KeyValue}
use opentelemetry_go.Attribute.Lookup.{
  first_value, or_else, last_value, DistinctKeys, first_value-snoc, or_else-none,
}
use opentelemetry_go.SdkTrace.Span.Attrs.{
  index_of, Unique, dedupe_step, dedupe_loop, dedupe_attrs_from_record, dedupe_attrs,
}

-- The place of the first attribute with the key, counted from `i`.
abbrev pub place : ℕ → Bytes → List KeyValue → Option ℕ
place i k [] = none
place i k (a ∷ l) = let rest = place (suc i) k l in if eq_bytes a.key k then some i else rest

module _ (a : KeyValue) (k : Bytes) where
  place-snoc :
      (i : ℕ) (xs : List KeyValue)
      → place i k (xs ++ (a ∷ [])) ≡ (
          if eq_bytes a.key k
          then elim (place i k xs) [ some j ↦ some j | none ↦ some (i + length xs) ]
          else place i k xs)
  place-snoc i [] = ground arith
  place-snoc i (x ∷ xs) = ground (arith, place-snoc (suc i) xs)

-- A write at the place of its own key changes the value of that key, and no place.
place-ge : (i : ℕ) (k : Bytes) (xs : List KeyValue) (j : ℕ) → place i k xs ≡ some j → i ≤ j
place-ge i k [] j h = cc
place-ge i k (x ∷ xs) j h = ground (arith, place-ge (suc i) k xs j)

module _ (a : KeyValue) (k : Bytes) where
  pub set-place :
      (i : ℕ) (xs : List KeyValue) (j : ℕ)
      → place i a.key xs ≡ some (i + j)
      → (place i k (set xs j a) ≡ place i k xs)
        × (first_value k (set xs j a)
            ≡ (if eq_bytes a.key k then some a.value else first_value k xs))
  set-place i [] j h = cc
  set-place i (x ∷ xs) zero h = ground (
    arith,
    eq_bytes_iff x.key a.key,
    eq_bytes_iff x.key k,
    eq_bytes_iff a.key k,
    place-ge (suc i) a.key xs i,
  )
  set-place i (x ∷ xs) (suc j) h = ground (
    arith,
    set-place (suc i) xs j,
    eq_bytes_iff x.key a.key,
    eq_bytes_iff x.key k,
    eq_bytes_iff a.key k,
  )

pub place-none :
    (i : ℕ) (k : Bytes) (xs : List KeyValue) → place i k xs ≡ none → first_value k xs ≡ none
place-none i k [] h = refl
place-none i k (x ∷ xs) h = ground (arith, place-none (suc i) k xs)

DistinctKeys-snoc :
    (xs : List KeyValue) (a : KeyValue)
    → DistinctKeys xs
    → first_value a.key xs ≡ none
    → DistinctKeys (xs ++ (a ∷ []))
DistinctKeys-snoc [] a d n = (refl, tt)
DistinctKeys-snoc (x ∷ xs) a (f, d) n = (
  ground (arith, first_value-snoc a x.key xs, eq_bytes_iff x.key a.key, eq_bytes_iff a.key x.key),
  DistinctKeys-snoc xs a d (ground arith),
)

DistinctKeys-set :
    (i : ℕ) (xs : List KeyValue) (a : KeyValue) (j : ℕ)
    → place i a.key xs ≡ some (i + j)
    → DistinctKeys xs
    → DistinctKeys (set xs j a)
DistinctKeys-set i [] a j h d = tt
DistinctKeys-set i (x ∷ xs) a zero h (f, d) =
    let same : x.key ≡ a.key =
      ground (arith, eq_bytes_iff x.key a.key, place-ge (suc i) a.key xs i) in
    (rw (sym same) f, d)
DistinctKeys-set i (x ∷ xs) a (suc j) h (f, d) =
    let later : place (suc i) a.key xs ≡ some (suc i + j) = ground arith in
    (
      ground (
        arith,
        set-place a x.key (suc i) xs j,
        eq_bytes_iff x.key a.key,
        eq_bytes_iff a.key x.key,
      ),
      DistinctKeys-set (suc i) xs a j later d,
    )

-- The record holds the place of each key of the unique attributes, whose keys differ.
pub record IsIndexed (u : Unique) : Type 0 where
  pub indexed : (k : Bytes) → index_of k u.exists ≡ place 0 k u.unique
  pub distinct : DistinctKeys u.unique

-- An attribute whose key is new goes to the end, and is recorded.
pub snoc-IsIndexed :
    (u : Unique) (a b : KeyValue)
    → IsIndexed u
    → a.key ≡ b.key
    → index_of a.key u.exists ≡ none
    → IsIndexed
        (record { unique = u.unique ++ (b ∷ []); exists = (a.key, length u.unique) ∷ u.exists })
unfolding index_of
snoc-IsIndexed u a b i e n =
    let absent : place 0 b.key u.unique ≡ none = sym (i.indexed b.key) ∙ rw (sym e) n in
    record {
      indexed =
          λ k. ground (arith, i.indexed k, place-snoc b k 0 u.unique, eq_bytes_iff b.key k, e);
      distinct = DistinctKeys-snoc u.unique b i.distinct (place-none 0 b.key u.unique absent);
    }

-- An attribute whose key is recorded replaces the one at its place.
pub set-IsIndexed :
    (u : Unique) (a : KeyValue) (j : ℕ)
    → IsIndexed u
    → index_of a.key u.exists ≡ some j
    → IsIndexed (record u { unique = set u.unique j a })
set-IsIndexed u a j i found =
    let here : place 0 a.key u.unique ≡ some (0 + j) =
      sym (i.indexed a.key) ∙ found ∙ ap some (omega arith) in
    record {
      indexed = λ k. i.indexed k ∙ sym (set-place a k 0 u.unique j here).0;
      distinct = DistinctKeys-set 0 u.unique a j here i.distinct;
    }

abbrev overridden : Bytes → KeyValue → Option Value → Option Value
overridden k a v = if eq_bytes a.key k then some a.value else v

dedupe_step-IsIndexed : (u : Unique) (a : KeyValue) → IsIndexed u → IsIndexed (dedupe_step u a)
unfolding dedupe_step
dedupe_step-IsIndexed u a i = elim (Option-cases (index_of a.key u.exists)) [
  | inl new ↦ rw new (snoc-IsIndexed u a a i refl new)
  | inr (j, found) ↦ rw found (set-IsIndexed u a j i found)
]

-- After a step the key of the attribute has its value, and the others have theirs.
dedupe_step-value :
    (u : Unique) (a : KeyValue) (k : Bytes)
    → IsIndexed u
    → first_value k (dedupe_step u a).unique ≡ overridden k a (first_value k u.unique)
unfolding dedupe_step
dedupe_step-value u a k i = elim (Option-cases (index_of a.key u.exists)) [
  | inl new ↦
      let absent = place-none 0 a.key u.unique (sym (i.indexed a.key) ∙ new) in
      rw new (ground (arith, first_value-snoc a k u.unique, eq_bytes_iff a.key k, absent))
  | inr (j, found) ↦
      let here : place 0 a.key u.unique ≡ some (0 + j) =
        sym (i.indexed a.key) ∙ found ∙ ap some (omega arith) in
      rw found (set-place a k 0 u.unique j here).1
]

dedupe_loop-IsIndexed :
    (xs : List KeyValue) (u : Unique) → IsIndexed u → IsIndexed (dedupe_loop u xs)
unfolding dedupe_loop
dedupe_loop-IsIndexed [] u i = i
dedupe_loop-IsIndexed (a ∷ xs) u i =
    dedupe_loop-IsIndexed xs (dedupe_step u a) (dedupe_step-IsIndexed u a i)

dedupe_loop-value :
    (xs : List KeyValue) (u : Unique) (k : Bytes)
    → IsIndexed u
    → first_value k (dedupe_loop u xs).unique ≡ or_else (last_value k xs) (first_value k u.unique)
unfolding dedupe_loop
dedupe_loop-value [] u k i = refl
dedupe_loop-value (a ∷ xs) u k i = ground (
  arith,
  dedupe_loop-value xs (dedupe_step u a) k (dedupe_step-IsIndexed u a i),
  dedupe_step-value u a k i,
)

start-IsIndexed : IsIndexed (record { unique = []; exists = [] })
unfolding index_of
start-IsIndexed = record { indexed = λ k. refl; distinct = tt }

pub dedupe_attrs_from_record-IsIndexed :
    (xs : List KeyValue) → IsIndexed (dedupe_attrs_from_record xs)
unfolding dedupe_attrs_from_record
dedupe_attrs_from_record-IsIndexed xs = dedupe_loop-IsIndexed xs _ start-IsIndexed

-- `dedupeAttrs` leaves attributes with different keys, and under each key the last value that the
-- attributes had for it: none where no attribute has the key.
pub dedupe_attrs-last_value :
    (xs : List KeyValue)
    → DistinctKeys (dedupe_attrs xs)
      × ((k : Bytes) → first_value k (dedupe_attrs xs) ≡ last_value k xs)
unfolding dedupe_attrs dedupe_attrs_from_record
dedupe_attrs-last_value xs = (
  (dedupe_attrs_from_record-IsIndexed xs).distinct,
  λ k. dedupe_loop-value xs _ k start-IsIndexed ∙ or_else-none _,
)
