-- ===== src/Attribute/Iterator.antt =====
-- attribute/iterator.go: an iterator over a set, and over two sets at once. The deprecated names and
-- `IndexedAttribute` are left out.
pub mod Places
pub mod Rounds
pub mod Merge
pub mod Slice
use opentelemetry_go.Prelude.{
  ℕ, zero, suc, ◌≡◌, Bool, true, false, not, ◌&&◌, List, [], ◌∷◌, take, drop, Option, none, some,
  ltb, ◌==◌, if◌then◌else◌, eq_bytes,
}
use opentelemetry_go.Prelude.Int.{ℤ, pos, negsuc}
use opentelemetry_go.Attribute.{KeyValue}
use opentelemetry_go.Attribute.Order.{ltb_bytes}
use opentelemetry_go.Attribute.Set.{Set, zero_key_value, filter_set, set_length, get}

pub record Iterator : Type 0 where
  pub storage : Set
  pub idx : ℤ

-- `Set.Iter`
abbrev pub iter : Set → Iterator
iter l = record { storage = l; idx = negsuc 0 }

-- `idx + 1` and `idx < n`
abbrev pub succ_int : ℤ → ℤ
succ_int (pos n) = pos (suc n)
succ_int (negsuc zero) = pos 0
succ_int (negsuc (suc n)) = negsuc n

abbrev pub lower : ℤ → ℕ → Bool
lower (pos i) n = ltb i n
lower (negsuc i) n = true

-- `Iterator.Next`: the result and the iterator after it
abbrev pub next : Iterator → Bool × Iterator
next i = (
  lower (succ_int i.idx) (set_length i.storage),
  record { storage = i.storage; idx = succ_int i.idx },
)

-- `Iterator.Attribute`
abbrev pub attribute : Iterator → KeyValue
attribute i = elim (get i.storage i.idx) [ none ↦ zero_key_value | some kv ↦ kv ]

-- `Iterator.ToSlice`; the fuel bounds the rounds of its loop
unfoldable pub collect : ℕ → Iterator → List KeyValue
collect zero i = []
collect (suc fuel) i =
    let (more, i') = next i in
    let rest = collect fuel i' in if more then attribute i' ∷ rest else []

unfoldable pub to_slice : Iterator → List KeyValue
unfolding collect
to_slice i =
    if set_length i.storage == 0
    then []
    else collect (suc (set_length i.storage)) (record { storage = i.storage; idx = negsuc 0 })

-- `Set.ToSlice`
abbrev pub set_to_slice : Set → List KeyValue
set_to_slice l = to_slice (iter l)

-- `Set.Filter`: the set and the excluded attributes
unfoldable pub filter : Set → Option (KeyValue → Bool) → Set × List KeyValue
filter l none = (l, [])
filter l (some re) =
    let f = filter_set (set_to_slice l) re in
    (record { equivalent = drop f.position f.kvs }, take f.position f.kvs)

-- `oneIterator`
pub record OneIterator : Type 0 where
  pub iter : Iterator
  pub done : Bool
  pub attr : KeyValue

abbrev pub advance : OneIterator → OneIterator
advance oi =
    let (more, i) = next oi.iter in
    record { iter = i; done = not more; attr = if more then attribute i else oi.attr }

abbrev pub make_one : Iterator → OneIterator
make_one i = advance (record { iter = i; done = false; attr = zero_key_value })

pub record MergeIterator : Type 0 where
  pub one : OneIterator
  pub two : OneIterator
  pub current : KeyValue

-- `NewMergeIterator`
abbrev pub new_merge_iterator : Set → Set → MergeIterator
new_merge_iterator s1 s2 = record {
  one = make_one (iter s1);
  two = make_one (iter s2);
  current = zero_key_value;
}

-- `MergeIterator.Next`: the result and the iterator after it, whose `current` is `Attribute()`
unfoldable pub merge_next : MergeIterator → Bool × MergeIterator
merge_next m =
    if m.one.done && m.two.done
    then (false, m)
    else if m.one.done
    then (true, record { one = m.one; two = advance m.two; current = m.two.attr })
    else if m.two.done
    then (true, record { one = advance m.one; two = m.two; current = m.one.attr })
    else if eq_bytes m.one.attr.key m.two.attr.key
    then (true, record { one = advance m.one; two = advance m.two; current = m.one.attr })
    else if ltb_bytes m.one.attr.key m.two.attr.key
    then (true, record { one = advance m.one; two = m.two; current = m.one.attr })
    else (true, record { one = m.one; two = advance m.two; current = m.two.attr })

-- `for mi.Next() { ... mi.Attribute() ... }`, with fuel; `none` when the fuel does not reach to the end
unfoldable pub drain_merge : ℕ → MergeIterator → Option (List KeyValue)
unfolding merge_next
drain_merge zero m = none
drain_merge (suc fuel) m =
    let r = merge_next m in
    let rest = drain_merge fuel r.1 in
    if r.0 then elim rest [ none ↦ none | some l ↦ some (r.1.current ∷ l) ] else some []
