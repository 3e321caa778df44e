-- ===== src/Baggage/RoundTrip/Property.antt =====
-- The characters of keys and values, and that `parseProperty` undoes `Property.String`.
use opentelemetry_go.Prelude.{
  ℕ, ◌≡◌, refl, sym, ap, ◌∙◌, Bool, true, false, not, ◌&&◌, inl, inr, Bool-cases, List, [], ◌∷◌,
  ◌++◌, some, map, arith, ◌==◌, Bytes, length, length-append, all, all-append, all_mono, All,
}
use opentelemetry_go.Text.{is_space, trim_left, trim_right, split, join}
use opentelemetry_go.Text.Split.{Lacks, split-join, cut-append}
use opentelemetry_go.Text.Trim.{ends_with, trim_right_self}
use opentelemetry_go.Text.Space.{is_graphic}
use opentelemetry_go.Text.Escape.{is_unreserved, is_escaped}
use opentelemetry_go.Baggage.{
  Parsed, parsed, is_key_byte, is_value_byte, matches_key, matches_value, Property, match_key_value,
  parse_property, property_string, parse_properties,
}
use opentelemetry_go.Baggage.Map.{ItemProperty}

-- A printable character that is no separator of members or properties.
abbrev pub is_plain : ℕ → Bool
is_plain c = is_graphic c && not (c == b',') && not (c == b';')

is_key_byte-is_plain : (c : ℕ) → is_key_byte c ≡ true → is_plain c ≡ true
unfolding is_key_byte is_graphic
is_key_byte-is_plain c h = ground arith

is_value_byte-is_plain : (c : ℕ) → is_value_byte c ≡ true → is_plain c ≡ true
unfolding is_value_byte is_graphic
is_value_byte-is_plain c h = ground arith

is_key_byte-ne_equals : (c : ℕ) → is_key_byte c ≡ true → not (c == b'=') ≡ true
unfolding is_key_byte
is_key_byte-ne_equals c h = ground arith

is_escaped-is_plain : (c : ℕ) → is_escaped c ≡ true → is_plain c ≡ true
unfolding is_escaped is_unreserved is_graphic
is_escaped-is_plain c h = ground arith

is_plain-nonspace : (c : ℕ) → is_plain c ≡ true → not (is_space c) ≡ true
unfolding is_graphic
is_plain-nonspace c h = ground arith

is_plain-lacks :
    (c : ℕ)
    → is_plain c ≡ true
    → (not (c == b',') ≡ true) × (not (c == b';') ≡ true) × (is_graphic c ≡ true)
is_plain-lacks c h = (ground arith, ground arith, ground arith)

pub plain_key : (s : Bytes) → matches_key s ≡ true → all is_plain s ≡ true
unfolding matches_key
plain_key s h = all_mono is_key_byte is_plain s is_key_byte-is_plain (ground (arith, h))

pub plain_value : (s : Bytes) → matches_value s ≡ true → all is_plain s ≡ true
plain_value s h = all_mono is_value_byte is_plain s is_value_byte-is_plain h

pub plain_escaped : (s : Bytes) → all is_escaped s ≡ true → all is_plain s ≡ true
plain_escaped s h = all_mono is_escaped is_plain s is_escaped-is_plain h

pub key-Lacks : (s : Bytes) → matches_key s ≡ true → Lacks b'=' s
unfolding matches_key
key-Lacks s h =
    all_mono is_key_byte (λ c. not (c == b'=')) s is_key_byte-ne_equals (ground (arith, h))

pub plain-Lacks_comma : (s : Bytes) → all is_plain s ≡ true → Lacks b',' s
plain-Lacks_comma s h = all_mono is_plain (λ c. not (c == b',')) s (λ c p. (is_plain-lacks c p).0) h

pub plain-Lacks_semicolon : (s : Bytes) → all is_plain s ≡ true → Lacks b';' s
plain-Lacks_semicolon s h =
    all_mono is_plain (λ c. not (c == b';')) s (λ c p. (is_plain-lacks c p).1) h

pub plain-graphic : (s : Bytes) → all is_plain s ≡ true → all is_graphic s ≡ true
plain-graphic s h = all_mono is_plain is_graphic s (λ c p. (is_plain-lacks c p).2) h

trim_left-plain : (s : Bytes) → all is_plain s ≡ true → trim_left s ≡ s
unfolding trim_left
trim_left-plain [] h = refl
trim_left-plain (c ∷ s) h =
    let first : is_plain c ≡ true = ground arith in
    let other : is_space c ≡ false = ground (arith, is_plain-nonspace c first) in rw other refl

ends-plain :
    (c : ℕ) (s : Bytes)
    → all is_plain (c ∷ s) ≡ true
    → ends_with (λ c. not (is_space c)) (c ∷ s) ≡ true
unfolding ends_with
ends-plain c [] h = is_plain-nonspace c (ground arith)
ends-plain c (d ∷ s) h = ends-plain d s (ground arith)

trim_right-plain : (s : Bytes) → all is_plain s ≡ true → trim_right s ≡ s
unfolding trim_right
trim_right-plain [] h = refl
trim_right-plain (c ∷ s) h = trim_right_self (c ∷ s) (ends-plain c s h)

trim-plain : (s : Bytes) → all is_plain s ≡ true → trim_right (trim_left s) ≡ s
trim-plain s h = ap trim_right (trim_left-plain s h) ∙ trim_right-plain s h

pub plain-append :
    (a b : Bytes) (c : ℕ)
    → all is_plain a ≡ true
    → is_plain c ≡ true
    → all is_plain b ≡ true
    → all is_plain (a ++ (c ∷ b)) ≡ true
plain-append a b c h p k = all-append is_plain a (c ∷ b) ∙ rw (h, p, k) refl

pub plain_equals : is_plain b'=' ≡ true
unfolding is_graphic
plain_equals = refl

-- A valid property, as the internal package keeps it.
pub record IsValidProperty (p : ItemProperty) : Type 0 where
  pub key_ok : matches_key p.key ≡ true
  pub value_ok : matches_value p.value ≡ true
  pub no_value : p.has_value ≡ false → p.value ≡ []

-- The property that is parsed.
abbrev pub marked : ItemProperty → Property
marked p = record { key = p.key; value = p.value; has_value = p.has_value; has_data = true }

matches_key-fails : (k v : Bytes) → matches_key (k ++ (b'=' ∷ v)) ≡ false
unfolding matches_key is_key_byte
matches_key-fails k v =
    ap (λ b. not (length (k ++ (b'=' ∷ v)) == 0) && b) (all-append is_key_byte k (b'=' ∷ v))
    ∙ ground arith

long_enough : (s : Bytes) → matches_key s ≡ true → (length s == 0) ≡ false
unfolding matches_key
long_enough s h = ground (arith, h)

match_key_value-lem :
    (k v : Bytes)
    → matches_key k ≡ true
    → matches_value v ≡ true
    → match_key_value (some (k, v))
      ≡ parsed (record { key = k; value = v; has_value = true; has_data = true })
unfolding match_key_value
match_key_value-lem k v h h' =
    rw (trim-plain k (plain_key k h), trim-plain v (plain_value v h')) (rw (h, h') refl)

longer : (k v : Bytes) → (length (k ++ (b'=' ∷ v)) == 0) ≡ false
longer k v = ground (arith, length-append k (b'=' ∷ v))

pub property_string-plain :
    (p : ItemProperty) → IsValidProperty p → all is_plain (property_string (marked p)) ≡ true
unfolding property_string
property_string-plain p h = elim (Bool-cases p.has_value) [
  | inl with_value ↦ rw with_value (
      plain-append p.key p.value b'=' (plain_key p.key h.key_ok) plain_equals
        (plain_value p.value h.value_ok))
  | inr without ↦ rw without (plain_key p.key h.key_ok)
]

pub parse_property-property_string :
    (p : ItemProperty)
    → IsValidProperty p
    → parse_property (property_string (marked p)) ≡ parsed (marked p)
unfolding parse_property property_string
parse_property-property_string p h = elim (Bool-cases p.has_value) [
  | inl with_value ↦
      let s = p.key ++ (b'=' ∷ p.value) in
      let whole = trim-plain s (
        plain-append p.key p.value b'=' (plain_key p.key h.key_ok) plain_equals
          (plain_value p.value h.value_ok)) in
      rw with_value (
        rw (longer p.key p.value, ap matches_key whole ∙ matches_key-fails p.key p.value)
          (ap match_key_value (cut-append b'=' p.key p.value (key-Lacks p.key h.key_ok))
            ∙ match_key_value-lem p.key p.value h.key_ok h.value_ok))
  | inr without ↦
      let whole = trim-plain p.key (plain_key p.key h.key_ok) in
      rw without (
        rw (long_enough p.key h.key_ok, ap matches_key whole ∙ h.key_ok, whole)
          (ap {A = Bytes} {B = Parsed Property}
            (λ v. parsed (record { key = p.key; value = v; has_value = false; has_data = true }))
            (sym (h.no_value without))))
]

pub parse_properties-all :
    (ps : List ItemProperty)
    → All IsValidProperty ps
    → parse_properties (map (λ p. property_string (marked p)) ps) ≡ parsed (map marked ps)
unfolding parse_properties
parse_properties-all [] h = refl
parse_properties-all (p ∷ ps) (h, hs) =
    rw (parse_property-property_string p h, parse_properties-all ps hs) refl

pub properties-Lacks :
    (ps : List ItemProperty)
    → All IsValidProperty ps
    → All (Lacks b';') (map (λ p. property_string (marked p)) ps)
properties-Lacks [] h = tt
properties-Lacks (p ∷ ps) (h, hs) = (
  plain-Lacks_semicolon (property_string (marked p)) (property_string-plain p h),
  properties-Lacks ps hs,
)

-- What `strings.Split` makes of the properties in a member's string.
pub parse_properties-join :
    (p : ItemProperty) (ps : List ItemProperty)
    → All IsValidProperty (p ∷ ps)
    → parse_properties (split b';' (join b';' (map (λ p. property_string (marked p)) (p ∷ ps))))
      ≡ parsed (map marked (p ∷ ps))
parse_properties-join p ps h =
    ap parse_properties (
      split-join b';' (property_string (marked p)) (map (λ p. property_string (marked p)) ps)
        (properties-Lacks (p ∷ ps) h))
    ∙ parse_properties-all (p ∷ ps) h
