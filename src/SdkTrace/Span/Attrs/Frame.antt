-- ===== src/SdkTrace/Span/Attrs/Frame.antt =====
-- The parts of a span that `SetAttributes` leaves as they are.
use opentelemetry_go.Prelude.{
  ℕ, ◌≡◌, refl, ap, ◌∙◌, inl, inr, Bool-cases, List, [], ◌∷◌, length, ltb, ◌&&◌, ◌+◌,
}
use opentelemetry_go.Prelude.Int.{ℤ, pos, negsuc, is_zero}
use opentelemetry_go.Attribute.{KeyValue, is_valid_attr}
use opentelemetry_go.SdkTrace.Span.{RecordingSpan, is_recording}
use opentelemetry_go.SdkTrace.Span.Attrs.{
  add_over_cap_attrs, append_attr, append_attrs, set_limited, set_attributes,
}

-- The spans that differ at most in the attributes and their count.
pub record SameButAttrs (s t : RecordingSpan) : Type 0 where
  pub attributes : List KeyValue
  pub dropped : ℕ
  pub same : t ≡ record s { attributes = attributes; dropped_attributes = dropped }

start_same : (s : RecordingSpan) → SameButAttrs s s
start_same s = record { attributes = s.attributes; dropped = s.dropped_attributes; same = refl }

append_attr-SameButAttrs : (s : RecordingSpan) (a : KeyValue) → SameButAttrs s (append_attr s a)
unfolding append_attr
append_attr-SameButAttrs s a = elim (Bool-cases (is_valid_attr a)) [
  | inl valid ↦ rw valid (record { attributes = _; dropped = _; same = refl })
  | inr bad ↦ rw bad (record { attributes = _; dropped = _; same = refl })
]

append_attrs-SameButAttrs :
    (xs : List KeyValue) (s : RecordingSpan) → SameButAttrs s (append_attrs s xs)
unfolding append_attrs
append_attrs-SameButAttrs [] s = start_same s
append_attrs-SameButAttrs (a ∷ xs) s =
    let first = append_attr-SameButAttrs s a in
    let rest = append_attrs-SameButAttrs xs (append_attr s a) in
    record {
      attributes = rest.attributes;
      dropped = rest.dropped;
      same =
          rest.same
          ∙ ap {A = RecordingSpan} {B = RecordingSpan}
              (λ t. record t { attributes = rest.attributes; dropped_attributes = rest.dropped })
              first.same;
    }

set_limited-SameButAttrs :
    (limit : ℤ) (s : RecordingSpan) (attrs : List KeyValue)
    → SameButAttrs s (set_limited limit s attrs)
unfolding set_limited add_over_cap_attrs
set_limited-SameButAttrs (negsuc n) s attrs = append_attrs-SameButAttrs attrs s
set_limited-SameButAttrs (pos limit) s attrs =
    elim (Bool-cases (ltb 0 limit && ltb limit (length s.attributes + length attrs))) [
      | inl over ↦ rw over (record { attributes = _; dropped = _; same = refl })
      | inr fits ↦ rw fits (append_attrs-SameButAttrs attrs s)
    ]

pub set_attributes-SameButAttrs :
    (s : RecordingSpan) (attrs : List KeyValue) → SameButAttrs s (set_attributes s attrs)
unfolding set_attributes
set_attributes-SameButAttrs s attrs = elim (Bool-cases (is_recording s)) [
  | inr over ↦ rw over (start_same s)
  | inl live ↦ elim (Bool-cases (is_zero s.limits.attribute_count_limit)) [
    | inl none_allowed ↦
        rw (live, none_allowed) (record { attributes = _; dropped = _; same = refl })
    | inr some_allowed ↦
        rw (live, some_allowed) (set_limited-SameButAttrs s.limits.attribute_count_limit s attrs)
  ]
]
