-- ===== src/Attribute/Iterator/Rounds.antt =====
-- What one round of `MergeIterator.Next` does, and the loop after it.
use opentelemetry_go.Prelude.{
  ℕ, suc, ◌≡◌, refl, ap, ◌∙◌, Bool, true, false, List, [], ◌∷◌, Option, none, some, if◌then◌else◌,
  eq_bytes,
}
use opentelemetry_go.Attribute.{KeyValue}
use opentelemetry_go.Attribute.Order.{ltb_bytes}
use opentelemetry_go.Attribute.Iterator.{
  OneIterator, advance, MergeIterator, merge_next, drain_merge,
}

module _ (one two : OneIterator) (current : KeyValue) where
  -- The iterator of this state, and after a round that gives `a`.
  abbrev pub now : MergeIterator
  now = record { one = one; two = two; current = current }

  -- What a round gives, and the loop after it.
  pub drain_merge-round :
      (fuel : ℕ) (m : MergeIterator) (a : KeyValue)
      → merge_next now ≡ (true, m)
      → m.current ≡ a
      → drain_merge (suc fuel) now
        ≡ elim (drain_merge fuel m) [ none ↦ none | some l ↦ some (a ∷ l) ]
  unfolding drain_merge
  drain_merge-round fuel m a e c =
      ap {A = Bool × MergeIterator} {B = Option (List KeyValue)}
        (λ r.
          let rest = drain_merge fuel r.1 in
          if r.0 then elim rest [ none ↦ none | some l ↦ some (r.1.current ∷ l) ] else some [])
        e
      ∙ ap (λ x. elim (drain_merge fuel m) [ none ↦ none | some l ↦ some (x ∷ l) ]) c

  module _ (one_more : one.done ≡ false) (two_more : two.done ≡ false) where
    pub merge_next-same :
        eq_bytes one.attr.key two.attr.key ≡ true
        → merge_next now
          ≡ (true, record { one = advance one; two = advance two; current = one.attr })
    unfolding merge_next
    merge_next-same h = rw (one_more, two_more, h) refl

    pub merge_next-one :
        eq_bytes one.attr.key two.attr.key ≡ false
        → ltb_bytes one.attr.key two.attr.key ≡ true
        → merge_next now ≡ (true, record { one = advance one; two = two; current = one.attr })
    unfolding merge_next
    merge_next-one h h' = rw (one_more, two_more, h, h') refl

    pub merge_next-two :
        eq_bytes one.attr.key two.attr.key ≡ false
        → ltb_bytes one.attr.key two.attr.key ≡ false
        → merge_next now ≡ (true, record { one = one; two = advance two; current = two.attr })
    unfolding merge_next
    merge_next-two h h' = rw (one_more, two_more, h, h') refl

  pub merge_next-one_only :
      one.done ≡ false
      → two.done ≡ true
      → merge_next now ≡ (true, record { one = advance one; two = two; current = one.attr })
  unfolding merge_next
  merge_next-one_only h h' = rw (h, h') refl

  pub merge_next-two_only :
      one.done ≡ true
      → two.done ≡ false
      → merge_next now ≡ (true, record { one = one; two = advance two; current = two.attr })
  unfolding merge_next
  merge_next-two_only h h' = rw (h, h') refl

  pub merge_next-done : one.done ≡ true → two.done ≡ true → merge_next now ≡ (false, now)
  unfolding merge_next
  merge_next-done h h' = rw (h, h') refl
