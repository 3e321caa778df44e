-- ===== src/Attribute/Set/Sort.antt =====
-- The stable sort orders the attributes and keeps what they mean.
use mathlib.Core.List.{Perm}
use mathlib.Core.List.Perm
use opentelemetry_go.Prelude.{
  suc, length, ◌≡◌, refl, ap, ◌∙◌, false, inl, inr, Bool-cases, List, [], ◌∷◌, none, some, arith,
  if◌then◌else◌, Bytes, eq_bytes, eq_bytes_iff, All,
}
use opentelemetry_go.Attribute.{KeyValue}
use opentelemetry_go.Attribute.Lookup.{last_value, or_else}
use opentelemetry_go.Attribute.Order.{
  ltb_bytes_trans, ltb_bytes_total, ltb_bytes_asymm, ltb_bytes-eq_bytes,
}
use opentelemetry_go.Attribute.Set.{less, insert_sorted, stable_sort}

-- No attribute is before an earlier one.
abbrev pub IsSorted : List KeyValue → Type 0
IsSorted [] = Unit
IsSorted (a ∷ l) = All (λ b. less b a ≡ false) l × IsSorted l

All-insert_sorted :
    (P : KeyValue → Type 0) (a : KeyValue) (l : List KeyValue)
    → P a
    → All P l
    → All P (insert_sorted a l)
unfolding insert_sorted
All-insert_sorted P a [] p q = (p, tt)
All-insert_sorted P a (b ∷ l) p q = elim (Bool-cases (less b a)) [
  | inl after ↦ rw after (q.0, All-insert_sorted P a l p q.1)
  | inr here ↦ rw here (p, q)
]

-- What is not before `b` is not before an `a` that is not after `b`.
below :
    (a b : KeyValue) (l : List KeyValue)
    → less b a ≡ false
    → All (λ c. less c b ≡ false) l
    → All (λ c. less c a ≡ false) l
below a b [] h q = tt
below a b (c ∷ l) h (q, qs) = (
  ground (arith, ltb_bytes_trans c.key a.key b.key, ltb_bytes_total b.key a.key),
  below a b l h qs,
)

insert_sorted-IsSorted :
    (a : KeyValue) (l : List KeyValue) → IsSorted l → IsSorted (insert_sorted a l)
unfolding insert_sorted
insert_sorted-IsSorted a [] s = (tt, tt)
insert_sorted-IsSorted a (b ∷ l) s = elim (Bool-cases (less b a)) [
  | inl after ↦ rw after (
    All-insert_sorted (λ c. less c b ≡ false) a l (ltb_bytes_asymm b.key a.key after) s.0,
    insert_sorted-IsSorted a l s.1,
  )
  | inr here ↦ rw here ((here, below a b l here s.0), s)
]

pub stable_sort-IsSorted : (l : List KeyValue) → IsSorted (stable_sort l)
unfolding stable_sort
stable_sort-IsSorted [] = tt
stable_sort-IsSorted (a ∷ l) = insert_sorted-IsSorted a (stable_sort l) (stable_sort-IsSorted l)

insert_sorted-perm : (a : KeyValue) (l : List KeyValue) → Perm (insert_sorted a l) (a ∷ l)
unfolding insert_sorted
insert_sorted-perm a [] = Perm.rfl
insert_sorted-perm a (b ∷ l) = elim (Bool-cases (less b a)) [
  | inl after ↦ rw after (Perm.trans (Perm.cons b (insert_sorted-perm a l)) (Perm.swap a b l))
  | inr here ↦ rw here Perm.rfl
]

pub stable_sort-perm : (l : List KeyValue) → Perm (stable_sort l) l
unfolding stable_sort
stable_sort-perm [] = Perm.rfl
stable_sort-perm (a ∷ l) =
    Perm.trans (insert_sorted-perm a (stable_sort l)) (Perm.cons a (stable_sort-perm l))

insert_sorted-last_value :
    (a : KeyValue) (l : List KeyValue) (k : Bytes)
    → last_value k (insert_sorted a l) ≡ last_value k (a ∷ l)
unfolding insert_sorted
insert_sorted-last_value a [] k = refl
insert_sorted-last_value a (b ∷ l) k = elim (Bool-cases (less b a)) [
  | inl after ↦ rw after (
      ground (
        arith,
        insert_sorted-last_value a l k,
        ltb_bytes-eq_bytes b.key a.key after,
        eq_bytes_iff b.key k,
        eq_bytes_iff a.key k,
        eq_bytes_iff b.key a.key,
      ))
  | inr here ↦ rw here refl
]

-- The sort keeps the last value of every key.
pub stable_sort-last_value :
    (l : List KeyValue) (k : Bytes) → last_value k (stable_sort l) ≡ last_value k l
unfolding stable_sort
stable_sort-last_value [] k = refl
stable_sort-last_value (a ∷ l) k =
    insert_sorted-last_value a (stable_sort l) k
    ∙ ap (λ o. or_else o (if eq_bytes a.key k then some a.value else none))
        (stable_sort-last_value l k)

length-insert_sorted :
    (a : KeyValue) (l : List KeyValue) → length (insert_sorted a l) ≡ suc (length l)
unfolding insert_sorted
length-insert_sorted a [] = refl
length-insert_sorted a (b ∷ l) = ground (arith, length-insert_sorted a l)

pub length-stable_sort : (l : List KeyValue) → length (stable_sort l) ≡ length l
unfolding stable_sort
length-stable_sort [] = refl
length-stable_sort (a ∷ l) = length-insert_sorted a (stable_sort l) ∙ ap suc (length-stable_sort l)
