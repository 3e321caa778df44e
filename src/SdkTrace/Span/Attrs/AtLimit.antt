-- ===== src/SdkTrace/Span/Attrs/AtLimit.antt =====
-- What `SetAttributes` does where the attributes set might exceed the limit.
use opentelemetry_go.Prelude.{
  ℕ, suc, ◌+◌, ◌<◌, ◌≡◌, refl, sym, ap, ◌∙◌, true, ◌&&◌, inl, inr, Bool-cases, Option-cases, List,
  [], ◌∷◌, none, some, arith, if◌then◌else◌, Bytes, eq_bytes, eq_bytes_iff, length, leb,
}
use opentelemetry_go.Prelude.Int.{ℤ, pos, negsuc}
use opentelemetry_go.Attribute.{Value, KeyValue, is_valid_attr}
use opentelemetry_go.SdkTrace.Span.{RecordingSpan, is_recording}
use opentelemetry_go.SdkTrace.Span.Attrs.{
  truncate_attr, index_of, Unique, dedupe_attrs, OverCap, over_cap_at, over_cap_step, over_cap_loop,
  add_over_cap_attrs, set_limited, set_attributes,
}
use opentelemetry_go.Attribute.Lookup.{first_value, first_value-snoc, last_value, or_else}
use opentelemetry_go.SdkTrace.Span.Attrs.Dedupe.{
  place, place-none, set-place, IsIndexed, snoc-IsIndexed, set-IsIndexed,
  dedupe_attrs_from_record-IsIndexed, dedupe_attrs-last_value,
}
use opentelemetry_go.SdkTrace.Span.Attrs.Limit.{valid_attrs, is_zero-suc}

abbrev as_unique : OverCap → Unique
as_unique o = record { unique = o.attributes; exists = o.exists }

key-truncate_attr : (v : ℤ) (a : KeyValue) → a.key ≡ (truncate_attr v a).key
unfolding truncate_attr
key-truncate_attr (pos n) a = refl
key-truncate_attr (negsuc n) a = refl

over_cap_step-IsIndexed :
    (limit : ℕ) (v : ℤ) (o : OverCap) (a : KeyValue)
    → IsIndexed (as_unique o)
    → IsIndexed (as_unique (over_cap_step limit v o a))
unfolding over_cap_step
over_cap_step-IsIndexed limit v o a i = elim (Bool-cases (is_valid_attr a)) [
  | inr bad ↦ rw bad i
  | inl valid ↦ elim (Option-cases (index_of a.key o.exists)) [
    | inr (j, found) ↦ rw (valid, found) (set-IsIndexed (as_unique o) a j i found)
    | inl new ↦ elim (Bool-cases (leb limit (length o.attributes))) [
      | inl full ↦ rw (valid, new) (rw (full, over_cap_at) i)
      | inr room ↦
          rw (valid, new)
            (rw (room, over_cap_at)
              (snoc-IsIndexed (as_unique o) a (truncate_attr v a) i (key-truncate_attr v a) new))
    ]
  ]
]

-- A key that the span has gets the value of a valid attribute as it is, and keeps its own otherwise.
over_cap_step-value :
    (limit : ℕ) (v : ℤ) (o : OverCap) (a : KeyValue) (k : Bytes) (w : Value)
    → IsIndexed (as_unique o)
    → first_value k o.attributes ≡ some w
    → first_value k (over_cap_step limit v o a).attributes
      ≡ some (if is_valid_attr a && eq_bytes a.key k then a.value else w)
unfolding over_cap_step
over_cap_step-value limit v o a k w i has = elim (Bool-cases (is_valid_attr a)) [
  | inr bad ↦ rw bad has
  | inl valid ↦ elim (Option-cases (index_of a.key o.exists)) [
    | inr (j, found) ↦
        let here : place 0 a.key o.attributes ≡ some (0 + j) =
          sym (i.indexed a.key) ∙ found ∙ ap some (omega arith) in
        rw (valid, found) ((set-place a k 0 o.attributes j here).1 ∙ ground arith)
    | inl new ↦
        let absent = place-none 0 a.key o.attributes (sym (i.indexed a.key) ∙ new) in
        rw (valid, new) (at_new absent)
  ]
]
  where
    at_new :
        first_value a.key o.attributes ≡ none
        → first_value k (over_cap_at limit v o a none).attributes
          ≡ some (if eq_bytes a.key k then a.value else w)
    at_new absent =
        unfold over_cap_at in
        ground (arith, first_value-snoc (truncate_attr v a) k o.attributes, eq_bytes_iff a.key k)

over_cap_loop-value :
    (xs : List KeyValue) (limit : ℕ) (v : ℤ) (o : OverCap) (k : Bytes) (w : Value)
    → IsIndexed (as_unique o)
    → first_value k o.attributes ≡ some w
    → first_value k (over_cap_loop limit v o xs).attributes
      ≡ or_else (last_value k (valid_attrs xs)) (some w)
unfolding over_cap_loop
over_cap_loop-value [] limit v o k w i has = has
over_cap_loop-value (a ∷ xs) limit v o k w i has =
    over_cap_loop-value xs limit v (over_cap_step limit v o a) k _
      (over_cap_step-IsIndexed limit v o a i) (over_cap_step-value limit v o a k w i has)
    ∙ ground arith

set_limited-over :
    (s : RecordingSpan) (n : ℕ) (attrs : List KeyValue)
    → suc n < length s.attributes + length attrs
    → set_limited (pos (suc n)) s attrs ≡ add_over_cap_attrs s (suc n) attrs
unfolding set_limited
set_limited-over s n attrs h = ground arith

set_attributes-over :
    (s : RecordingSpan) (n : ℕ) (attrs : List KeyValue)
    → is_recording s ≡ true
    → s.limits.attribute_count_limit ≡ pos (suc n)
    → suc n < length s.attributes + length attrs
    → set_attributes s attrs ≡ add_over_cap_attrs s (suc n) attrs
unfolding set_attributes
set_attributes-over s n attrs r e h = simp (r, e, is_zero-suc n, set_limited-over s n attrs h)

-- On a recording span where the attributes set might exceed a limit of more than 0, a key that the
-- span has gets, in the attributes after `SetAttributes`, the last value that a valid one of the
-- attributes set gives it, as it is given, and else keeps the last value that the span had for it.
pub set_attributes-update :
    (s : RecordingSpan) (n : ℕ) (attrs : List KeyValue) (k : Bytes) (w : Value)
    → is_recording s ≡ true
    → s.limits.attribute_count_limit ≡ pos (suc n)
    → suc n < length s.attributes + length attrs
    → last_value k s.attributes ≡ some w
    → first_value k (set_attributes s attrs).attributes
      ≡ or_else (last_value k (valid_attrs attrs)) (some w)
unfolding add_over_cap_attrs dedupe_attrs
set_attributes-update s n attrs k w r e h has = rw (set_attributes-over s n attrs r e h) (
    over_cap_loop-value attrs (suc n) s.limits.attribute_value_length_limit _ k w
      (dedupe_attrs_from_record-IsIndexed s.attributes)
      ((dedupe_attrs-last_value s.attributes).1 k ∙ has))
