-- ===== src/Attribute/Set/Last.antt =====
-- `NewSet` keeps the last value of each key, in the order of the keys.
use mathlib.Core.List.{Perm}
use mathlib.Core.Path.{subst}
use opentelemetry_go.Prelude.{
  ℕ, suc, ◌+◌, ◌-◌, ◌≡◌, ◌≢◌, refl, sym, ap, ◌∙◌, Bool, true, false, inl, inr, Bool-cases, List, [],
  ◌∷◌, ◌++◌, none, some, arith, ◌==◌, if◌then◌else◌, Bytes, eq_bytes, eq_bytes_iff, length, drop,
  All,
}
use opentelemetry_go.Attribute.{KeyValue}
use opentelemetry_go.Attribute.Lookup.{first_value, last_value, or_else, DistinctKeys, or_else-none}
use opentelemetry_go.Attribute.Order.{
  ltb_bytes, ltb_bytes_trans, ltb_bytes_total, ltb_bytes-eq_bytes,
}
use opentelemetry_go.Attribute.Set.{
  less, at, insert_sorted, stable_sort, Kept, distinct_step, distinct_loop, sort_distinct,
  new_set_from, new_set_filtered, new_set,
}
use opentelemetry_go.Attribute.Set.Sort.{
  IsSorted, stable_sort-IsSorted, stable_sort-last_value, length-stable_sort,
}
use opentelemetry_go.Attribute.Set.Swap.{
  onto, length-onto, at-front, at-behind, state, state-drop, state-keep,
}

-- The first attribute of a list has the key.
abbrev begins : Bytes → List KeyValue → Bool
begins k [] = false
begins k (b ∷ l) = eq_bytes k b.key

-- The last of each run of attributes with one key.
abbrev pub lasts : List KeyValue → List KeyValue
lasts [] = []
lasts (a ∷ l) = let rest = lasts l in if begins a.key rest then rest else a ∷ rest

-- The keys grow.
abbrev pub IsAscending : List KeyValue → Type 0
IsAscending [] = Unit
IsAscending (a ∷ l) = All (λ b. less a b ≡ true) l × IsAscending l

All-lasts : (P : KeyValue → Type 0) (l : List KeyValue) → All P l → All P (lasts l)
All-lasts P [] q = tt
All-lasts P (a ∷ l) (p, q) = elim (Bool-cases (begins a.key (lasts l))) [
  | inl again ↦ rw again (All-lasts P l q)
  | inr new ↦ rw new (p, All-lasts P l q)
]

-- Behind an attribute whose key is not that of the first of the rest, all are greater.
all_greater :
    (a : KeyValue) (l : List KeyValue)
    → begins a.key l ≡ false
    → All (λ b. less b a ≡ false) l
    → IsAscending l
    → All (λ b. less a b ≡ true) l
all_greater a [] n q s = tt
all_greater a (b ∷ l) n (p, q) (g, s) = (first, later l g)
  where
    first : less a b ≡ true
    first = ground (arith, ltb_bytes_total a.key b.key, eq_bytes_iff a.key b.key)

    later : (m : List KeyValue) → All (λ c. less b c ≡ true) m → All (λ c. less a c ≡ true) m
    later [] g = tt
    later (c ∷ m) (h, g) = (ltb_bytes_trans a.key b.key c.key first h, later m g)

lasts-IsAscending : (l : List KeyValue) → IsSorted l → IsAscending (lasts l)
lasts-IsAscending [] s = tt
lasts-IsAscending (a ∷ l) (q, s) = elim (Bool-cases (begins a.key (lasts l))) [
  | inl again ↦ rw again (lasts-IsAscending l s)
  | inr new ↦
      let ih = lasts-IsAscending l s in
      rw new (all_greater a (lasts l) new (All-lasts (λ b. less b a ≡ false) l q) ih, ih)
]

-- In an ascending list the key of the first occurs once.
pub absent :
    (k : Bytes) (l : List KeyValue) → All (λ b. ltb_bytes k b.key ≡ true) l → first_value k l ≡ none
absent k [] q = refl
absent k (b ∷ l) (p, q) =
    ground (
      arith,
      absent k l q,
      ltb_bytes-eq_bytes k b.key p,
      eq_bytes_iff k b.key,
      eq_bytes_iff b.key k,
    )

-- `a` before `b`, so that it is before all that `b` is before.
pub before_all :
    (a b : KeyValue) (l : List KeyValue)
    → less a b ≡ true
    → All (λ c. less b c ≡ true) l
    → All (λ c. less a c ≡ true) l
before_all a b [] p g = tt
before_all a b (c ∷ l) p (h, g) = (ltb_bytes_trans a.key b.key c.key p h, before_all a b l p g)

pub IsAscending-DistinctKeys : (l : List KeyValue) → IsAscending l → DistinctKeys l
IsAscending-DistinctKeys [] s = tt
IsAscending-DistinctKeys (a ∷ l) (q, s) = (absent a.key l q, IsAscending-DistinctKeys l s)

-- An attribute before a list that begins with its key adds nothing to the first values.
covered :
    (a : KeyValue) (m : List KeyValue) (k : Bytes)
    → begins a.key m ≡ true
    → first_value k m ≡ or_else (first_value k m) (if eq_bytes a.key k then some a.value else none)
covered a [] k h = cc
covered a (b ∷ m) k h = ground (
  arith,
  eq_bytes_iff a.key b.key,
  eq_bytes_iff b.key k,
  eq_bytes_iff a.key k,
  or_else-none (first_value k m),
)

lasts-first_value :
    (l : List KeyValue) (k : Bytes) → IsSorted l → first_value k (lasts l) ≡ last_value k l
lasts-first_value [] k s = refl
lasts-first_value (a ∷ l) k (q, s) = elim (Bool-cases (begins a.key (lasts l))) [
  | inl again ↦ rw again (
      covered a (lasts l) k again
      ∙ ap (λ o. or_else o (if eq_bytes a.key k then some a.value else none))
          (lasts-first_value l k s))
  | inr new ↦
      let ascending = lasts-IsAscending l s in
      let greater = all_greater a (lasts l) new (All-lasts (λ b. less b a ≡ false) l q) ascending in
      let none_later : last_value a.key l ≡ none =
        sym (lasts-first_value l a.key s) ∙ absent a.key (lasts l) greater in
      rw new (unshadowed none_later (lasts-first_value l k s))
]
  where
    unshadowed :
        last_value a.key l ≡ none
        → first_value k (lasts l) ≡ last_value k l
        → (if eq_bytes a.key k then some a.value else first_value k (lasts l))
          ≡ or_else (last_value k l) (if eq_bytes a.key k then some a.value else none)
    unshadowed n ih = elim (Bool-cases (eq_bytes a.key k)) [
      | inl same ↦ rw same (rw (sym ((eq_bytes_iff a.key k).0 same)) (rw n refl))
      | inr other ↦ rw other (ih ∙ sym (or_else-none (last_value k l)))
    ]

module _ (x : KeyValue) (front dropped : List KeyValue) (r : KeyValue) (kept : List KeyValue) where
  distinct_step-same :
      eq_bytes x.key r.key ≡ true
      → distinct_step (length front) (state (x ∷ front) dropped (r ∷ kept))
        ≡ state front (x ∷ dropped) (r ∷ kept)
  unfolding distinct_step
  distinct_step-same h =
      rw (at-front front x (dropped ++ (r ∷ kept)), at-behind (x ∷ front) dropped r kept)
        (rw h (state-drop x front dropped (r ∷ kept)))

  distinct_step-new :
      eq_bytes x.key r.key ≡ false
      → (others : List KeyValue) × Perm others dropped
        × (distinct_step (length front) (state (x ∷ front) dropped (r ∷ kept))
            ≡ state front others (x ∷ r ∷ kept))
  unfolding distinct_step
  distinct_step-new h =
      let (others, same, moved) = state-keep x front dropped (r ∷ kept) in
      let now = state (x ∷ front) dropped (r ∷ kept) in
      let test : eq_bytes (at now.kvs (length front)).key (at now.kvs now.position).key ≡ false =
        rw (at-front front x (dropped ++ (r ∷ kept)), at-behind (x ∷ front) dropped r kept) h in
      (others, same, rw test moved)

begins-cons :
    (k : Bytes) (m : List KeyValue) (r : KeyValue) (kept : List KeyValue)
    → m ≡ r ∷ kept
    → begins k m ≡ eq_bytes k r.key
begins-cons k m r kept e = ap (begins k) e

-- Where the loop ends: what was dropped, then the last of each run.
record Looped (front l : List KeyValue) (k : Kept) : Type 0 where
  others : List KeyValue
  ends : k ≡ state [] others (lasts (onto front l))

-- The list that is kept is not empty: `r` and what follows it.
distinct_loop-Looped :
    (front dropped l : List KeyValue) (r : KeyValue) (kept : List KeyValue)
    → lasts l ≡ r ∷ kept
    → Looped front l (distinct_loop (length front) (state front dropped (lasts l)))
unfolding distinct_loop
distinct_loop-Looped [] dropped l r kept e = record { others = dropped; ends = refl }
distinct_loop-Looped (x ∷ front) dropped l r kept e = elim (Bool-cases (eq_bytes x.key r.key)) [
  | inl again ↦
      let same_lasts : lasts (x ∷ l) ≡ lasts l =
        rw (begins-cons x.key (lasts l) r kept e ∙ again) refl in
      let ih = distinct_loop-Looped front (x ∷ dropped) (x ∷ l) r kept (same_lasts ∙ e) in
      let stepped =
        ap (λ m. distinct_step (length front) (state (x ∷ front) dropped m)) e
        ∙ distinct_step-same x front dropped r kept again
        ∙ ap (state front (x ∷ dropped)) (sym (same_lasts ∙ e)) in
      record { others = ih.others; ends = ap (distinct_loop (length front)) stepped ∙ ih.ends }
  | inr new ↦
      let new_lasts : lasts (x ∷ l) ≡ x ∷ lasts l =
        rw (begins-cons x.key (lasts l) r kept e ∙ new) refl in
      let (others, same, moved) = distinct_step-new x front dropped r kept new in
      let ih = distinct_loop-Looped front others (x ∷ l) x (lasts l) new_lasts in
      let stepped =
        ap (λ m. distinct_step (length front) (state (x ∷ front) dropped m)) e
        ∙ moved
        ∙ ap (λ m. state front others (x ∷ m)) (sym e)
        ∙ ap (state front others) (sym new_lasts) in
      record { others = ih.others; ends = ap (distinct_loop (length front)) stepped ∙ ih.ends }
]

-- A list as what stands before its last one, backwards, and the last one.
record Ended (kvs : List KeyValue) : Type 0 where
  front : List KeyValue
  last : KeyValue
  kvs_is : kvs ≡ onto front (last ∷ [])

onto-Ended : (l front : List KeyValue) (x : KeyValue) → Ended (onto front (x ∷ l))
onto-Ended [] front x = record { front = front; last = x; kvs_is = refl }
onto-Ended (y ∷ l) front x = onto-Ended l (x ∷ front) y

pub drop-append :
    (l : List KeyValue) (n : ℕ) → n ≡ length l → (m : List KeyValue) → drop n (l ++ m) ≡ m
drop-append l n e m = ap (λ i. drop i (l ++ m)) e ∙ whole l
  where
    whole : (l : List KeyValue) → drop (length l) (l ++ m) ≡ m
    whole [] = refl
    whole (a ∷ l) = whole l

-- What the loop keeps of a slice that is not empty.
distinct_loop-kept :
    (kvs : List KeyValue)
    → length kvs ≢ 0
    → (let k = distinct_loop (length kvs - 1) (record { kvs = kvs; position = length kvs - 1 }) in
        drop k.position k.kvs ≡ lasts kvs)
distinct_loop-kept [] e = absurd (e refl)
distinct_loop-kept (x ∷ kvs) e =
    let d = onto-Ended kvs [] x in
    let looped = distinct_loop-Looped d.front [] (d.last ∷ []) d.last [] refl in
    let long : length (x ∷ kvs) - 1 ≡ length d.front =
      ap (λ l. length l - 1) d.kvs_is ∙ omega (arith, length-onto d.front (d.last ∷ [])) in
    let started : distinct_loop (length (x ∷ kvs) - 1)
          (record { kvs = x ∷ kvs; position = length (x ∷ kvs) - 1 })
        ≡ distinct_loop (length d.front) (state d.front [] (d.last ∷ [])) =
      ap {A = List KeyValue} {B = Kept}
        (λ l.
          distinct_loop (length (x ∷ kvs) - 1)
            (record { kvs = l; position = length (x ∷ kvs) - 1 }))
        d.kvs_is
      ∙ ap {A = ℕ} {B = Kept}
          (λ p. distinct_loop p (record { kvs = onto d.front (d.last ∷ []); position = p })) long
      ∙ ap {A = ℕ} {B = Kept}
          (λ p.
            distinct_loop (length d.front)
              (record { kvs = onto d.front (d.last ∷ []); position = p }))
          (omega arith) in
    ap {A = Kept} {B = List KeyValue} (λ k. drop k.position k.kvs) (started ∙ looped.ends)
    ∙ drop-append looped.others (0 + length looped.others) (omega arith)
        (lasts (onto d.front (d.last ∷ [])))
    ∙ ap lasts (sym d.kvs_is)

pub new_set-lasts : (kvs : List KeyValue) → (new_set kvs).equivalent ≡ lasts (stable_sort kvs)
unfolding new_set new_set_filtered new_set_from sort_distinct stable_sort
new_set-lasts [] = refl
new_set-lasts (a ∷ l) =
    let full : (suc (length l) == 0) ≡ false = ground arith in
    rw full (
      ap {A = ℕ} {B = List KeyValue}
        (λ n.
          let k = distinct_loop (n - 1) (record { kvs = stable_sort (a ∷ l); position = n - 1 }) in
          drop k.position k.kvs)
        (sym (length-stable_sort (a ∷ l)))
      ∙ distinct_loop-kept (stable_sort (a ∷ l))
          (λ e. absurd (omega (arith, e, length-stable_sort (a ∷ l)))))

stable_sort-All : (P : KeyValue → Type 0) (l : List KeyValue) → All P l → All P (stable_sort l)
unfolding stable_sort insert_sorted
stable_sort-All P [] q = tt
stable_sort-All P (a ∷ l) (p, q) = inserted (stable_sort l) (stable_sort-All P l q)
  where
    inserted : (m : List KeyValue) → All P m → All P (insert_sorted a m)
    inserted [] q' = (p, tt)
    inserted (b ∷ m) (h, q') = elim (Bool-cases (less b a)) [
      | inl behind ↦ rw behind (h, inserted m q')
      | inr before ↦ rw before (p, (h, q'))
    ]

pub new_set-All :
    (P : KeyValue → Type 0) (kvs : List KeyValue) → All P kvs → All P (new_set kvs).equivalent
new_set-All P kvs q =
    subst (All P) (sym (new_set-lasts kvs))
      (All-lasts P (stable_sort kvs) (stable_sort-All P kvs q))

-- The attributes of a new set stand in the order of their keys, each key once, and the value of a key
-- is the last that the attributes given have for it; a key that they do not have has no value.
pub new_set-last_value :
    (kvs : List KeyValue)
    → IsAscending (new_set kvs).equivalent
      × ((k : Bytes) → first_value k (new_set kvs).equivalent ≡ last_value k kvs)
new_set-last_value kvs =
    let sorted = stable_sort-IsSorted kvs in
    (
      subst IsAscending (sym (new_set-lasts kvs)) (lasts-IsAscending (stable_sort kvs) sorted),
      λ k.
          ap (first_value k) (new_set-lasts kvs)
          ∙ lasts-first_value (stable_sort kvs) k sorted
          ∙ stable_sort-last_value kvs k,
    )
