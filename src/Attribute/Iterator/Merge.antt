-- ===== src/Attribute/Iterator/Merge.antt =====
-- The loop over a `MergeIterator` ends, and gives the attributes of both sets, those of the first set
-- where both have the key.
use mathlib.Core.Path.{subst}
use opentelemetry_go.Prelude.{
  ℕ, zero, suc, ◌+◌, ◌<◌, ◌≡◌, refl, sym, ap, ◌∙◌, Bool, true, false, inl, inr, Bool-cases, List,
  [], ◌∷◌, Option, none, some, arith, if◌then◌else◌, Bytes, eq_bytes, eq_bytes_iff, length, All,
}
use opentelemetry_go.Attribute.{Value, KeyValue}
use opentelemetry_go.Attribute.Lookup.{first_value, or_else}
use opentelemetry_go.Attribute.Order.{ltb_bytes, ltb_bytes_total}
use opentelemetry_go.Attribute.Set.{Set, less, set_length}
use opentelemetry_go.Attribute.Set.Last.{IsAscending, absent, before_all}
use opentelemetry_go.Attribute.Iterator.{
  advance, MergeIterator, new_merge_iterator, merge_next, drain_merge,
}
use opentelemetry_go.Attribute.Iterator.Places.{Ahead, make_one-Ahead, advance-Ahead}
use opentelemetry_go.Attribute.Iterator.Rounds.{
  drain_merge-round, merge_next-same, merge_next-one, merge_next-two, merge_next-one_only,
  merge_next-two_only, merge_next-done,
}

-- What the loop gives for two lists.
record Drained (l1 l2 : List KeyValue) (result : Option (List KeyValue)) : Type 0 where
  merged : List KeyValue
  result_is : result ≡ some merged
  ascending : IsAscending merged
  above :
      (a : KeyValue)
      → All (λ b. less a b ≡ true) l1
      → All (λ b. less a b ≡ true) l2
      → All (λ b. less a b ≡ true) merged
  values : (k : Bytes) → first_value k merged ≡ or_else (first_value k l1) (first_value k l2)

-- One attribute more, which has its key before all others.
Drained-cons :
    (a : KeyValue) (l1 l2 m1 m2 : List KeyValue) (result : Option (List KeyValue))
    → All (λ b. less a b ≡ true) l1
    → All (λ b. less a b ≡ true) l2
    → ((x : KeyValue)
        → All (λ b. less x b ≡ true) m1
        → All (λ b. less x b ≡ true) m2
        → (less x a ≡ true) × All (λ b. less x b ≡ true) l1 × All (λ b. less x b ≡ true) l2)
    → ((k : Bytes)
        → (if eq_bytes a.key k then some a.value else or_else (first_value k l1) (first_value k l2))
          ≡ or_else (first_value k m1) (first_value k m2))
    → Drained l1 l2 result
    → Drained m1 m2 (elim result [ none ↦ none | some l ↦ some (a ∷ l) ])
Drained-cons a l1 l2 m1 m2 result g1 g2 up same d = record {
  merged = a ∷ d.merged;
  result_is = rw d.result_is refl;
  ascending = (d.above a g1 g2, d.ascending);
  above = λ x p q. let (h, p', q') = up x p q in (h, d.above x p' q');
  values = λ k. ap (λ o. if eq_bytes a.key k then some a.value else o) (d.values k) ∙ same k;
}

-- The values after one attribute more.
or_else-first :
    (o : Option Value) (b : KeyValue) (k : Bytes)
    → (eq_bytes b.key k ≡ true → o ≡ none)
    → (w : Option Value)
    → (if eq_bytes b.key k then some b.value else or_else o w)
      ≡ or_else o (if eq_bytes b.key k then some b.value else w)
or_else-first o b k h w = elim (Bool-cases (eq_bytes b.key k)) [
  | inl same ↦ rw (same, h same) refl
  | inr other ↦ rw other refl
]

abbrev Above : KeyValue → List KeyValue → Type 0
Above a l = All (λ b. less a b ≡ true) l

-- A round that gives `a`, before the loop over the rest.
Drained-round :
    (fuel : ℕ) (now m : MergeIterator) (a : KeyValue) (l1 l2 m1 m2 : List KeyValue)
    → merge_next now ≡ (true, m)
    → m.current ≡ a
    → Above a l1
    → Above a l2
    → ((x : KeyValue) → Above x m1 → Above x m2 → (less x a ≡ true) × Above x l1 × Above x l2)
    → ((k : Bytes)
        → (if eq_bytes a.key k then some a.value else or_else (first_value k l1) (first_value k l2))
          ≡ or_else (first_value k m1) (first_value k m2))
    → Drained l1 l2 (drain_merge fuel m)
    → Drained m1 m2 (drain_merge (suc fuel) now)
Drained-round fuel now m a l1 l2 m1 m2 e c g1 g2 up same d =
    subst (Drained m1 m2) (sym (drain_merge-round now.one now.two now.current fuel m a e c))
      (Drained-cons a l1 l2 m1 m2 (drain_merge fuel m) g1 g2 up same d)

drain_merge-done :
    (fuel : ℕ) (m : MergeIterator)
    → m.one.done ≡ true
    → m.two.done ≡ true
    → drain_merge (suc fuel) m ≡ some []
unfolding drain_merge
drain_merge-done fuel m h1 h2 =
    ap {A = Bool × MergeIterator} {B = Option (List KeyValue)}
      (λ r.
        let rest = drain_merge fuel r.1 in
        if r.0 then elim rest [ none ↦ none | some l ↦ some (r.1.current ∷ l) ] else some [])
      (merge_next-done m.one m.two m.current h1 h2)

-- Keys that are equal, in order, or in order the other way.
data Order (a b : KeyValue) : Type 0 where
  together : eq_bytes a.key b.key ≡ true → Order a b
  first : eq_bytes a.key b.key ≡ false → ltb_bytes a.key b.key ≡ true → Order a b
  second :
      eq_bytes a.key b.key ≡ false
      → ltb_bytes a.key b.key ≡ false
      → ltb_bytes b.key a.key ≡ true
      → Order a b

order : (a b : KeyValue) → Order a b
order a b = elim (Bool-cases (eq_bytes a.key b.key)) [
  | inl e ↦ together e
  | inr n ↦ elim (Bool-cases (ltb_bytes a.key b.key)) [
    | inl l ↦ first n l
    | inr g ↦ second n g (ground (arith, eq_bytes_iff a.key b.key, ltb_bytes_total a.key b.key))
  ]
]

drains :
    (fuel : ℕ) (m : MergeIterator) (l1 l2 : List KeyValue)
    → Ahead m.one l1
    → Ahead m.two l2
    → IsAscending l1
    → IsAscending l2
    → length l1 + length l2 < fuel
    → Drained l1 l2 (drain_merge fuel m)
drains zero m l1 l2 h1 h2 s1 s2 enough = absurd (omega arith)
drains (suc fuel) m [] [] h1 h2 s1 s2 enough = record {
  merged = [];
  result_is = drain_merge-done fuel m h1.shows h2.shows;
  ascending = tt;
  above = λ a p q. tt;
  values = λ k. refl;
}
drains (suc fuel) m (a ∷ l1) [] h1 h2 (g1, s1) s2 enough =
    let (more, attr_is) = h1.shows in
    let next : MergeIterator = record { one = advance m.one; two = m.two; current = m.one.attr } in
    Drained-round fuel m next a l1 [] (a ∷ l1) []
      (merge_next-one_only m.one m.two m.current more h2.shows) attr_is g1 tt
      (λ x p q. (p.0, p.1, tt)) (λ k. ground arith)
      (drains fuel next l1 [] (advance-Ahead m.one a l1 h1) h2 s1 s2 (omega (arith, enough)))
drains (suc fuel) m [] (b ∷ l2) h1 h2 s1 (g2, s2) enough =
    let (more, attr_is) = h2.shows in
    let next : MergeIterator = record { one = m.one; two = advance m.two; current = m.two.attr } in
    Drained-round fuel m next b [] l2 [] (b ∷ l2)
      (merge_next-two_only m.one m.two m.current h1.shows more) attr_is tt g2
      (λ x p q. (q.0, tt, q.1)) (λ k. refl)
      (drains fuel next [] l2 h1 (advance-Ahead m.two b l2 h2) s1 s2 (omega (arith, enough)))
drains (suc fuel) m (a ∷ l1) (b ∷ l2) h1 h2 (g1, s1) (g2, s2) enough =
    let (more1, is1) = h1.shows in
    let (more2, is2) = h2.shows in
    let one = advance-Ahead m.one a l1 h1 in
    let two = advance-Ahead m.two b l2 h2 in
    let eq_is = ap (λ x. eq_bytes x.key m.two.attr.key) is1 ∙ ap (λ x. eq_bytes a.key x.key) is2 in
    let less_is =
      ap (λ x. ltb_bytes x.key m.two.attr.key) is1 ∙ ap (λ x. ltb_bytes a.key x.key) is2 in
    elim (order a b) [
      | together e ↦
          let next : MergeIterator = record {
            one = advance m.one;
            two = advance m.two;
            current = m.one.attr;
          } in
          Drained-round fuel m next a l1 l2 (a ∷ l1) (b ∷ l2)
            (merge_next-same m.one m.two m.current more1 more2 (eq_is ∙ e)) is1 g1
            (subst (λ k. All (λ c. ltb_bytes k c.key ≡ true) l2)
              (sym ((eq_bytes_iff a.key b.key).0 e)) g2)
            (λ x p q. (p.0, p.1, q.1)) (λ k. equal k ((eq_bytes_iff a.key b.key).0 e))
            (drains fuel next l1 l2 one two s1 s2 (omega (arith, enough)))
      | first n l ↦
          let next : MergeIterator = record {
            one = advance m.one;
            two = m.two;
            current = m.one.attr;
          } in
          Drained-round fuel m next a l1 (b ∷ l2) (a ∷ l1) (b ∷ l2)
            (merge_next-one m.one m.two m.current more1 more2 (eq_is ∙ n) (less_is ∙ l)) is1 g1
            (l, before_all a b l2 l g2) (λ x p q. (p.0, p.1, q)) (λ k. ground arith)
            (drains fuel next l1 (b ∷ l2) one h2 s1 (g2, s2) (omega (arith, enough)))
      | second n l g ↦
          let next : MergeIterator = record {
            one = m.one;
            two = advance m.two;
            current = m.two.attr;
          } in
          Drained-round fuel m next b (a ∷ l1) l2 (a ∷ l1) (b ∷ l2)
            (merge_next-two m.one m.two m.current more1 more2 (eq_is ∙ n) (less_is ∙ l)) is2
            (g, before_all b a l1 g g1) g2 (λ x p q. (q.0, p, q.1))
            (λ k. behind k (absent b.key (a ∷ l1) (g, before_all b a l1 g g1)))
            (drains fuel next (a ∷ l1) l2 h1 two (g1, s1) s2 (omega (arith, enough)))
    ]
  where
    equal :
        (k : Bytes)
        → a.key ≡ b.key
        → (if eq_bytes a.key k then some a.value else or_else (first_value k l1) (first_value k l2))
          ≡ or_else (first_value k (a ∷ l1)) (first_value k (b ∷ l2))
    equal k e = elim (Bool-cases (eq_bytes a.key k)) [
      | inl here ↦ rw here refl
      | inr other ↦ rw (other, ap (λ x. eq_bytes x k) (sym e) ∙ other) refl
    ]

    behind :
        (k : Bytes)
        → first_value b.key (a ∷ l1) ≡ none
        → (if eq_bytes b.key k
            then some b.value
            else or_else (first_value k (a ∷ l1)) (first_value k l2))
          ≡ or_else (first_value k (a ∷ l1)) (first_value k (b ∷ l2))
    behind k h =
        or_else-first (first_value k (a ∷ l1)) b k
          (λ same. ap (λ x. first_value x (a ∷ l1)) (sym ((eq_bytes_iff b.key k).0 same)) ∙ h)
          (first_value k l2)

-- The loop over the merge iterator of two sets, each in the order of its keys, ends within one round
-- more than the sets have attributes. It gives a list in the order of the keys, in which the value of a
-- key is that of the first set, or that of the second where the first does not have the key.
pub drain_merge-new :
    (s1 s2 : Set)
    → IsAscending s1.equivalent
    → IsAscending s2.equivalent
    → (merged : List KeyValue) × (drain_merge
          (suc (set_length s1 + set_length s2))
          (new_merge_iterator s1 s2)
        ≡ some merged)
      × IsAscending merged
      × ((k : Bytes)
          → first_value k merged
            ≡ or_else (first_value k s1.equivalent) (first_value k s2.equivalent))
drain_merge-new s1 s2 a1 a2 =
    let d =
      drains (suc (set_length s1 + set_length s2)) (new_merge_iterator s1 s2) s1.equivalent
        s2.equivalent (make_one-Ahead s1) (make_one-Ahead s2) a1 a2 (omega arith) in
    (d.merged, d.result_is, d.ascending, d.values)
