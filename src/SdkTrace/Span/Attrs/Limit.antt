-- ===== src/SdkTrace/Span/Attrs/Limit.antt =====
-- `SetAttributes` keeps a span within its limit on the number of attributes.
use opentelemetry_go.Prelude.{
  ℕ, suc, ◌+◌, ◌≤◌, ◌<◌, ◌≡◌, false, inl, inr, Bool-cases, Option-cases, List, [], ◌∷◌, Option,
  none, some, arith, if◌then◌else◌, length, length-append, length-set,
}
use opentelemetry_go.Prelude.Int.{ℤ, pos, is_zero}
use opentelemetry_go.Attribute.{KeyValue, is_valid_attr}
use opentelemetry_go.SdkTrace.Span.{RecordingSpan}
use opentelemetry_go.SdkTrace.Span.Attrs.{
  truncate_attr, index_of, Unique, dedupe_step, dedupe_loop, dedupe_attrs_from_record, OverCap,
  over_cap_at, over_cap_step, over_cap_loop, add_over_cap_attrs, append_attr, append_attrs,
  set_limited, set_attributes,
}

length-dedupe_step :
    (u : Unique) (a : KeyValue) → length (dedupe_step u a).unique ≤ length u.unique + 1
unfolding dedupe_step
length-dedupe_step u a = elim (Option-cases (index_of a.key u.exists)) [
  | inl new ↦ rw new (omega (arith, length-append u.unique (a ∷ [])))
  | inr (j, found) ↦ rw found (omega (arith, length-set u.unique j a))
]

length-dedupe_loop :
    (xs : List KeyValue) (u : Unique)
    → length (dedupe_loop u xs).unique ≤ length u.unique + length xs
unfolding dedupe_loop
length-dedupe_loop [] u = omega arith
length-dedupe_loop (a ∷ xs) u =
    omega (arith, length-dedupe_loop xs (dedupe_step u a), length-dedupe_step u a)

pub length-dedupe_attrs_from_record :
    (xs : List KeyValue) → length (dedupe_attrs_from_record xs).unique ≤ length xs
unfolding dedupe_attrs_from_record
length-dedupe_attrs_from_record xs =
    omega (arith, length-dedupe_loop xs (record { unique = []; exists = [] }))

over_cap_at-within :
    (limit : ℕ) (v : ℤ) (o : OverCap) (a : KeyValue) (found : Option ℕ)
    → length o.attributes ≤ limit
    → length (over_cap_at limit v o a found).attributes ≤ limit
unfolding over_cap_at
over_cap_at-within limit v o a (some j) h = omega (arith, length-set o.attributes j a)
over_cap_at-within limit v o a none h =
    ground (arith, length-append o.attributes (truncate_attr v a ∷ []))

over_cap_step-within :
    (limit : ℕ) (v : ℤ) (o : OverCap) (a : KeyValue)
    → length o.attributes ≤ limit
    → length (over_cap_step limit v o a).attributes ≤ limit
unfolding over_cap_step
over_cap_step-within limit v o a h = elim (Bool-cases (is_valid_attr a)) [
  | inl valid ↦ rw valid (over_cap_at-within limit v o a (index_of a.key o.exists) h)
  | inr bad ↦ rw bad h
]

over_cap_loop-within :
    (xs : List KeyValue) (limit : ℕ) (v : ℤ) (o : OverCap)
    → length o.attributes ≤ limit
    → length (over_cap_loop limit v o xs).attributes ≤ limit
unfolding over_cap_loop
over_cap_loop-within [] limit v o h = h
over_cap_loop-within (a ∷ xs) limit v o h =
    over_cap_loop-within xs limit v (over_cap_step limit v o a) (over_cap_step-within limit v o a h)

add_over_cap_attrs-within :
    (s : RecordingSpan) (limit : ℕ) (attrs : List KeyValue)
    → length s.attributes ≤ limit
    → length (add_over_cap_attrs s limit attrs).attributes ≤ limit
unfolding add_over_cap_attrs
add_over_cap_attrs-within s limit attrs h =
    over_cap_loop-within attrs limit _ _
      (omega (arith, length-dedupe_attrs_from_record s.attributes))

-- The attributes that `Valid` accepts.
abbrev pub valid_attrs : List KeyValue → List KeyValue
valid_attrs [] = []
valid_attrs (a ∷ l) = let rest = valid_attrs l in if is_valid_attr a then a ∷ rest else rest

length-valid_attrs : (xs : List KeyValue) → length (valid_attrs xs) ≤ length xs
length-valid_attrs [] = omega arith
length-valid_attrs (a ∷ xs) = ground (arith, length-valid_attrs xs)

append_attr-length :
    (s : RecordingSpan) (a : KeyValue)
    → length (append_attr s a).attributes ≤ length s.attributes + 1
unfolding append_attr
append_attr-length s a =
    ground (
      arith,
      length-append s.attributes (truncate_attr s.limits.attribute_value_length_limit a ∷ []),
    )

append_attrs-length :
    (xs : List KeyValue) (s : RecordingSpan)
    → length (append_attrs s xs).attributes ≤ length s.attributes + length xs
unfolding append_attrs
append_attrs-length [] s = omega arith
append_attrs-length (a ∷ xs) s =
    omega (arith, append_attrs-length xs (append_attr s a), append_attr-length s a)

set_limited-within :
    (s : RecordingSpan) (n : ℕ) (attrs : List KeyValue)
    → 0 < n
    → length s.attributes ≤ n
    → length (set_limited (pos n) s attrs).attributes ≤ n
unfolding set_limited
set_limited-within s n attrs p h =
    ground (arith, add_over_cap_attrs-within s n attrs h, append_attrs-length attrs s)

pub is_zero-suc : (n : ℕ) → is_zero (pos (suc n)) ≡ false
is_zero-suc n = ground arith

-- With a limit of `n` attributes, 0 included, a span that holds at most `n` still does after
-- `SetAttributes`, whatever attributes are set.
pub set_attributes-within :
    (s : RecordingSpan) (n : ℕ) (attrs : List KeyValue)
    → s.limits.attribute_count_limit ≡ pos n
    → length s.attributes ≤ n
    → length (set_attributes s attrs).attributes ≤ n
unfolding set_attributes
set_attributes-within s n attrs e h = rw e (ground (arith, h, set_limited-within s n attrs))
