-- ===== src/SdkTrace/Span/Attrs/Room.antt =====
-- What `SetAttributes` does to a span that has room for the attributes.
use opentelemetry_go.Prelude.{
  ℕ, suc, ◌+◌, ◌≤◌, sym, append_assoc, append-nil, ◌≡◌, refl, ap, ◌∙◌, Bool, true, false, ◌&&◌, inl,
  inr, Bool-cases, List, [], ◌∷◌, ◌++◌, map, arith, ltb, if◌then◌else◌, Bytes, length, take,
  take-short, length-map,
}
use opentelemetry_go.Prelude.Int.{ℤ, pos, negsuc}
use opentelemetry_go.Attribute.{
  Value, invalid, string, string_slice, KeyValue, is_valid_attr, defined, is_typed,
}
use opentelemetry_go.SdkTrace.Span.{RecordingSpan, is_recording}
use opentelemetry_go.SdkTrace.Span.Attrs.{
  truncate_attr, cut_string, cut_value, append_attr, append_attrs, set_limited, set_attributes,
}
use opentelemetry_go.SdkTrace.Span.Attrs.Limit.{valid_attrs, is_zero-suc}

-- The value that a limit on the length leaves: the first bytes of a string, and of each string of a
-- slice; with a negative limit the value as it is.
abbrev pub shortened : ℤ → Value → Value
shortened (pos n) (string v) = string (take n v)
shortened (pos n) (string_slice vs) = string_slice (map (take n) vs)
shortened limit v = v

-- The attributes that have a key and a value, with their values shortened.
abbrev carries_key : Bytes → Bool
carries_key [] = false
carries_key (c ∷ key) = true

abbrev carries_value : Value → Bool
carries_value invalid = false
carries_value v = true

abbrev pub kept : ℤ → List KeyValue → List KeyValue
kept limit [] = []
kept limit (a ∷ l) =
    let rest = kept limit l in
    if carries_key a.key && carries_value a.value
    then record a { value = shortened limit a.value } ∷ rest
    else rest

cut_string-take : (n : ℕ) (v : Bytes) → cut_string n v ≡ take n v
cut_string-take n v = elim (Bool-cases (ltb n (length v))) [
  | inl longer ↦ rw longer refl
  | inr short ↦ rw short (sym (take-short n v (ground (arith, short))))
]

map-cut_string : (n : ℕ) (vs : List Bytes) → map (cut_string n) vs ≡ map (take n) vs
map-cut_string n [] = refl
map-cut_string n (v ∷ vs) = cc (cut_string-take n v, map-cut_string n vs)

cut_value-shortened : (n : ℕ) (v : Value) → cut_value n v ≡ shortened (pos n) v
unfolding cut_value
cut_value-shortened n (string v) = ap string (cut_string-take n v)
cut_value-shortened n (string_slice vs) = ap string_slice (map-cut_string n vs)
cut_value-shortened n v = refl

truncate_attr-shortened :
    (limit : ℤ) (a : KeyValue)
    → truncate_attr limit a ≡ record a { value = shortened limit a.value }
unfolding truncate_attr
truncate_attr-shortened (negsuc n) a = refl
truncate_attr-shortened (pos n) a =
    ap {A = Value} {B = KeyValue} (λ v. record a { value = v }) (cut_value-shortened n a.value)

defined-carries_key : (k : Bytes) → defined k ≡ carries_key k
defined-carries_key [] = refl
defined-carries_key (c ∷ k) = ground arith

is_typed-carries_value : (v : Value) → is_typed v ≡ carries_value v
is_typed-carries_value invalid = refl
is_typed-carries_value v = refl

is_valid_attr-kept : (a : KeyValue) → is_valid_attr a ≡ (carries_key a.key && carries_value a.value)
unfolding is_valid_attr
is_valid_attr-kept a = rw (defined-carries_key a.key, is_typed-carries_value a.value)

-- Of the valid attributes, truncated, that is the list.
valid_attrs-kept :
    (limit : ℤ) (xs : List KeyValue) → map (truncate_attr limit) (valid_attrs xs) ≡ kept limit xs
valid_attrs-kept limit [] = refl
valid_attrs-kept limit (a ∷ xs) = elim (Bool-cases (is_valid_attr a)) [
  | inl valid ↦
      let both : (carries_key a.key && carries_value a.value) ≡ true =
        sym (is_valid_attr-kept a) ∙ valid in
      rw (valid, both) (cc (truncate_attr-shortened limit a, valid_attrs-kept limit xs))
  | inr bad ↦
      let both : (carries_key a.key && carries_value a.value) ≡ false =
        sym (is_valid_attr-kept a) ∙ bad in
      rw (bad, both) (valid_attrs-kept limit xs)
]

-- The span with one more attribute, cut to the limit, or with one more counted as dropped.
abbrev appended : RecordingSpan → KeyValue → RecordingSpan
appended s a = record s {
  attributes = s.attributes ++ (truncate_attr s.limits.attribute_value_length_limit a ∷ []);
}

abbrev counted : RecordingSpan → RecordingSpan
counted s = record s { dropped_attributes = s.dropped_attributes + 1 }

append_attr-valid :
    (s : RecordingSpan) (a : KeyValue) → is_valid_attr a ≡ true → append_attr s a ≡ appended s a
unfolding append_attr
append_attr-valid s a valid = rw valid

append_attr-bad :
    (s : RecordingSpan) (a : KeyValue) → is_valid_attr a ≡ false → append_attr s a ≡ counted s
unfolding append_attr
append_attr-bad s a bad = rw bad

append_attrs-attributes :
    (xs : List KeyValue) (s : RecordingSpan)
    → (append_attrs s xs).attributes
      ≡ s.attributes ++ map (truncate_attr s.limits.attribute_value_length_limit) (valid_attrs xs)
unfolding append_attrs
append_attrs-attributes [] s = sym (append-nil s.attributes)
append_attrs-attributes (a ∷ xs) s = elim (Bool-cases (is_valid_attr a)) [
  | inl valid ↦
      let cut = truncate_attr s.limits.attribute_value_length_limit in
      rw (append_attr-valid s a valid, append_attrs)
        (rw valid (
          append_attrs-attributes xs (appended s a)
          ∙ append_assoc s.attributes (cut a ∷ []) (map cut (valid_attrs xs))))
  | inr bad ↦
      rw (append_attr-bad s a bad, append_attrs) (rw bad (append_attrs-attributes xs (counted s)))
]

append_attrs-dropped :
    (xs : List KeyValue) (s : RecordingSpan)
    → (append_attrs s xs).dropped_attributes + length (valid_attrs xs)
      ≡ s.dropped_attributes + length xs
unfolding append_attrs
append_attrs-dropped [] s = refl
append_attrs-dropped (a ∷ xs) s = elim (Bool-cases (is_valid_attr a)) [
  | inl valid ↦
      rw (append_attr-valid s a valid, append_attrs)
        (rw valid (omega (arith, append_attrs-dropped xs (appended s a))))
  | inr bad ↦
      rw (append_attr-bad s a bad, append_attrs)
        (rw bad (omega (arith, append_attrs-dropped xs (counted s))))
]

set_limited-room :
    (s : RecordingSpan) (n : ℕ) (attrs : List KeyValue)
    → length s.attributes + length attrs ≤ n
    → set_limited (pos n) s attrs ≡ append_attrs s attrs
unfolding set_limited
set_limited-room s n attrs h = ground arith

set_attributes-append :
    (s : RecordingSpan) (n : ℕ) (attrs : List KeyValue)
    → is_recording s ≡ true
    → s.limits.attribute_count_limit ≡ pos (suc n)
    → length s.attributes + length attrs ≤ suc n
    → set_attributes s attrs ≡ append_attrs s attrs
unfolding set_attributes
set_attributes-append s n attrs r e h =
    simp (r, e, is_zero-suc n, set_limited-room s (suc n) attrs h)

-- On a recording span where the attributes set fit under the limit of `n`, `SetAttributes` appends
-- those with a key and a value, in their order, and counts each of the others as dropped. Of a
-- string the first bytes are kept, as many as the length limit says, and so of each string of a
-- slice; a negative length limit keeps all.
pub set_attributes-room :
    (s : RecordingSpan) (n : ℕ) (attrs : List KeyValue)
    → is_recording s ≡ true
    → s.limits.attribute_count_limit ≡ pos (suc n)
    → length s.attributes + length attrs ≤ suc n
    → ((set_attributes s attrs).attributes
        ≡ s.attributes ++ kept s.limits.attribute_value_length_limit attrs)
      × ((set_attributes s attrs).dropped_attributes
            + length (kept s.limits.attribute_value_length_limit attrs)
          ≡ s.dropped_attributes + length attrs)
set_attributes-room s n attrs r e h =
    let limit = s.limits.attribute_value_length_limit in
    let new = valid_attrs-kept limit attrs in
    let many =
      ap (λ l. length l) (sym new) ∙ length-map (valid_attrs attrs) (truncate_attr limit) in
    rw (set_attributes-append s n attrs r e h) (
      append_attrs-attributes attrs s ∙ ap (◌++◌ s.attributes) new,
      omega (arith, append_attrs-dropped attrs s, many),
    )
