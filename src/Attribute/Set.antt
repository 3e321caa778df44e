-- ===== src/Attribute/Set.antt =====
-- attribute/set.go: sets of attributes. A `Set` is the array of its `Distinct`; nil sets and the zero
-- `Set` are left out. The construction sorts and swaps in the caller's slice: the model returns that
-- slice too. `sort.Stable` is an insertion sort, which has the one stable result, and `sort.Search`
-- has the loop of the library.
pub mod Sort
pub mod Swap
pub mod Last
pub mod Filtered
pub mod Search
pub mod Equal
use opentelemetry_go.Prelude.{
  ℕ, zero, suc, ◌+◌, ◌-◌, ◌/◌, Bool, true, false, not, ◌&&◌, List, [], ◌∷◌, ◌++◌, Option, none,
  some, ltb, ◌==◌, if◌then◌else◌, Bytes, eq_bytes, length, get_elem?, get_or, set, take, drop,
}
use opentelemetry_go.Prelude.Int.{ℤ, pos, negsuc}
use opentelemetry_go.Attribute.{
  Value, invalid, bool, int64, float64, string, bool_slice, int64_slice, float64_slice,
  string_slice, KeyValue,
}
use opentelemetry_go.Attribute.Order.{ltb_bytes}

pub record Set : Type 0 where
  pub equivalent : List KeyValue

-- `KeyValue{}`
abbrev pub zero_key_value : KeyValue
zero_key_value = record { key = []; value = invalid }

-- `Sortable.Less`
abbrev pub less : KeyValue → KeyValue → Bool
less a b = ltb_bytes a.key b.key

-- An attribute goes before those that it is not greater than.
unfoldable pub insert_sorted : KeyValue → List KeyValue → List KeyValue
insert_sorted a [] = a ∷ []
insert_sorted a (b ∷ l) = let rest = insert_sorted a l in if less b a then b ∷ rest else a ∷ b ∷ l

-- `sort.Stable`
unfoldable pub stable_sort : List KeyValue → List KeyValue
unfolding insert_sorted
stable_sort [] = []
stable_sort (a ∷ l) = insert_sorted a (stable_sort l)

-- `kvs[i]`
abbrev pub at : List KeyValue → ℕ → KeyValue
at kvs i = get_or kvs i zero_key_value

-- `kvs[i], kvs[j] = kvs[j], kvs[i]`, as `Sortable.Swap`
unfoldable pub swap : ℕ → ℕ → List KeyValue → List KeyValue
swap i j kvs = set (set kvs i (at kvs j)) j (at kvs i)

-- The slice and the place from which its end holds what is kept.
pub record Kept : Type 0 where
  pub kvs : List KeyValue
  pub position : ℕ

-- The body of the loop that removes duplicates.
unfoldable pub distinct_step : ℕ → Kept → Kept
unfolding swap
distinct_step offset k =
    if eq_bytes (at k.kvs offset).key (at k.kvs k.position).key
    then k
    else record { kvs = swap offset (k.position - 1) k.kvs; position = k.position - 1 }

-- The loop, downwards from the offset before the argument.
unfoldable pub distinct_loop : ℕ → Kept → Kept
distinct_loop zero k = k
distinct_loop (suc offset) k = distinct_loop offset (distinct_step offset k)

-- The body of the loop of `filterSet`, and the loop.
unfoldable pub filter_step : (KeyValue → Bool) → ℕ → Kept → Kept
unfolding swap
filter_step filter offset k =
    if filter (at k.kvs offset)
    then record { kvs = swap offset (k.position - 1) k.kvs; position = k.position - 1 }
    else k

unfoldable pub filter_loop : (KeyValue → Bool) → ℕ → Kept → Kept
filter_loop filter zero k = k
filter_loop filter (suc offset) k = filter_loop filter offset (filter_step filter offset k)

-- `filterSet`: the slice as it leaves it, and where what it keeps begins
unfoldable pub filter_set : List KeyValue → (KeyValue → Bool) → Kept
filter_set kvs filter =
    filter_loop filter (length kvs) (record { kvs = kvs; position = length kvs })

-- The slice of the caller, sorted, with the last values at its end.
unfoldable pub sort_distinct : List KeyValue → Kept
unfolding distinct_loop
sort_distinct kvs =
    distinct_loop (length kvs - 1) (record { kvs = stable_sort kvs; position = length kvs - 1 })

-- The results, and the slice of the caller.
pub record NewSet : Type 0 where
  pub set : Set
  pub excluded : List KeyValue
  pub kvs : List KeyValue

new_set_from : Kept → Option (KeyValue → Bool) → NewSet
new_set_from k none = record {
  set = record { equivalent = drop k.position k.kvs };
  excluded = [];
  kvs = k.kvs;
}
new_set_from k (some filter) =
    let f = filter_set (drop k.position k.kvs) filter in
    record {
      set = record { equivalent = drop f.position f.kvs };
      excluded = take f.position f.kvs;
      kvs = take k.position k.kvs ++ f.kvs;
    }

-- `NewSetWithSortableFiltered`
unfoldable pub new_set_filtered : List KeyValue → Option (KeyValue → Bool) → NewSet
unfolding new_set_from sort_distinct
new_set_filtered kvs filter =
    if length kvs == 0
    then record { set = record { equivalent = [] }; excluded = []; kvs = kvs }
    else new_set_from (sort_distinct kvs) filter

-- `NewSet`, and `NewSetWithSortable`
unfoldable pub new_set : List KeyValue → Set
new_set kvs =
    if length kvs == 0 then record { equivalent = [] } else (new_set_filtered kvs none).set

-- `sort.Search(n, f)` between `i` and `j`; the fuel bounds the rounds
unfoldable pub search : ℕ → (ℕ → Bool) → ℕ → ℕ → ℕ
search zero f i j = i
search (suc fuel) f i j =
    let h = (i + j) / 2 in
    let low = if f h then i else h + 1 in
    let high = if f h then h else j in
    let rest = search fuel f low high in if ltb i j then rest else i

-- `Set.Value`
unfoldable pub value : Set → Bytes → Option Value
unfolding search
value l k =
    let idx =
      search (length l.equivalent) (λ idx. not (ltb_bytes (at l.equivalent idx).key k)) 0
        (length l.equivalent) in
    if not (ltb idx (length l.equivalent))
    then none
    else if eq_bytes k (at l.equivalent idx).key
    then some (at l.equivalent idx).value
    else none

-- `Set.HasValue`
abbrev pub has_value : Set → Bytes → Bool
has_value l k = elim (value l k) [ none ↦ false | some v ↦ true ]

-- `Set.Len` and `Set.Get`
abbrev pub set_length : Set → ℕ
set_length l = length l.equivalent

unfoldable pub get : Set → ℤ → Option KeyValue
get l (negsuc n) = none
get l (pos idx) = get_elem? l.equivalent idx

eq_bool : Bool → Bool → Bool
eq_bool true b = b
eq_bool false b = not b

eq_int : ℤ → ℤ → Bool
eq_int (pos m) (pos n) = m == n
eq_int (negsuc m) (negsuc n) = m == n
eq_int _ _ = false

-- A value that is a slice holds a pointer to it, and `==` compares the pointers: whether two such
-- values have one pointer is a parameter.
module _ (same_slice : Value → Value → Bool) where
  -- `==` on values
  unfoldable pub eq_value : Value → Value → Bool
  unfolding eq_bool eq_int
  eq_value invalid invalid = true
  eq_value (bool a) (bool b) = eq_bool a b
  eq_value (int64 a) (int64 b) = eq_int a b
  eq_value (float64 a) (float64 b) = a == b
  eq_value (string a) (string b) = eq_bytes a b
  eq_value (bool_slice a) (bool_slice b) = same_slice (bool_slice a) (bool_slice b)
  eq_value (int64_slice a) (int64_slice b) = same_slice (int64_slice a) (int64_slice b)
  eq_value (float64_slice a) (float64_slice b) = same_slice (float64_slice a) (float64_slice b)
  eq_value (string_slice a) (string_slice b) = same_slice (string_slice a) (string_slice b)
  eq_value _ _ = false

  -- `==` on the arrays of two sets
  eq_arrays : List KeyValue → List KeyValue → Bool
  eq_arrays [] [] = true
  eq_arrays (a ∷ l) (b ∷ m) = eq_bytes a.key b.key && eq_value a.value b.value && eq_arrays l m
  eq_arrays _ _ = false

  -- `Set.Equals`
  unfoldable pub equals : Set → Set → Bool
  unfolding eq_arrays
  equals l o = eq_arrays l.equivalent o.equivalent
