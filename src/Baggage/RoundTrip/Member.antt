-- ===== src/Baggage/RoundTrip/Member.antt =====
-- `parseMember` undoes `Member.String`.
use opentelemetry_go.Prelude.{
  ℕ, ◌≤◌, ◌≡◌, refl, ap, ◌∙◌, true, false, not, List, [], ◌∷◌, ◌++◌, map, arith, ltb, ◌==◌, Bytes,
  length, all, all-append, All, IsByte,
}
use opentelemetry_go.Text.{join, cut}
use opentelemetry_go.Text.Split.{Lacks, cut-append, cut-Lacks}
use opentelemetry_go.Text.Space.{trim_space, trim_space-graphic}
use opentelemetry_go.Text.Escape.{
  query_escape, query_unescape, query_unescape-query_escape, query_escape-is_escaped,
}
use opentelemetry_go.Baggage.{
  parsed, ◌>>=◌, max_bytes_per_members, is_value_byte, matches_key, matches_value, Property, Member,
  property_string, member_from, parse_key_value, parse_parts, parse_member, member_string,
}
use opentelemetry_go.Baggage.Map.{ItemProperty, Item, from_internal_properties, member_of}
use opentelemetry_go.Baggage.RoundTrip.Property.{
  is_plain, plain_key, plain_escaped, key-Lacks, plain-Lacks_comma, plain-Lacks_semicolon,
  plain-graphic, plain_equals, plain-append, IsValidProperty, marked, property_string-plain,
  parse_properties-join,
}

-- A valid entry of a baggage.
pub record IsValidEntry (e : Bytes × Item) : Type 0 where
  pub key_ok : matches_key e.0 ≡ true
  pub value_ok : matches_value (e.1).value ≡ true
  pub properties_ok : All IsValidProperty (e.1).properties

-- The member that is parsed.
abbrev pub parsed_member : Bytes × Item → Member
parsed_member e = record {
  key = e.0;
  value = (e.1).value;
  properties = map marked (e.1).properties;
  has_data = true;
}

bytes_of_value : (s : Bytes) → matches_value s ≡ true → All IsByte s
unfolding is_value_byte
bytes_of_value [] h = tt
bytes_of_value (c ∷ s) h = (is_value_byte-IsByte c (ground arith), bytes_of_value s (ground arith))
  where
    is_value_byte-IsByte : (c : ℕ) → is_value_byte c ≡ true → IsByte c
    is_value_byte-IsByte c h = ground arith

parse_key_value-lem :
    (k v : Bytes) (props : List Property)
    → matches_key k ≡ true
    → matches_value v ≡ true
    → parse_key_value (cut b'=' (k ++ (b'=' ∷ query_escape v))) props
      ≡ parsed (record { key = k; value = v; properties = props; has_data = true })
unfolding parse_key_value member_from
parse_key_value-lem k v props h h' =
    let bytes = bytes_of_value v h' in
    let escaped = plain_escaped (query_escape v) (query_escape-is_escaped v bytes) in
    ap (λ o. parse_key_value o props) (cut-append b'=' k (query_escape v) (key-Lacks k h))
    ∙ ap (λ s. member_from s (query_unescape (trim_space (query_escape v))) props)
        (trim_space-graphic k (plain-graphic k (plain_key k h)))
    ∙ ap (λ o. member_from k o props)
        (ap query_unescape
            (trim_space-graphic (query_escape v) (plain-graphic (query_escape v) escaped))
          ∙ query_unescape-query_escape v bytes)
    ∙ rw (h, h') refl

head_of : Bytes × Item → Bytes
head_of e = e.0 ++ (b'=' ∷ query_escape (e.1).value)

head_of-plain : (e : Bytes × Item) → IsValidEntry e → all is_plain (head_of e) ≡ true
unfolding head_of
head_of-plain e h =
    plain-append e.0 (query_escape (e.1).value) b'=' (plain_key e.0 h.key_ok) plain_equals (
      plain_escaped (query_escape (e.1).value)
        (query_escape-is_escaped (e.1).value (bytes_of_value (e.1).value h.value_ok)))

-- The part of a member's string behind its first `;`.
abbrev property_part : List ItemProperty → Bytes
property_part ps = join b';' (map (λ p. property_string (marked p)) ps)

property_strings :
    (ps : List ItemProperty)
    → map property_string (from_internal_properties ps) ≡ map (λ p. property_string (marked p)) ps
unfolding property_string
property_strings [] = refl
property_strings (p ∷ ps) = ap (◌∷◌ (property_string (marked p))) (property_strings ps)

member_string-bare :
    (k v : Bytes)
    → member_string (member_of (k, record { value = v; properties = [] }))
      ≡ head_of (k, record { value = v; properties = [] })
unfolding member_string head_of
member_string-bare k v = refl

member_string-properties :
    (k v : Bytes) (p : ItemProperty) (ps : List ItemProperty)
    → member_string (member_of (k, record { value = v; properties = p ∷ ps }))
      ≡ head_of (k, record { value = v; properties = p ∷ ps }) ++ (b';' ∷ property_part (p ∷ ps))
unfolding member_string head_of
member_string-properties k v p ps =
    let some_left : (length (from_internal_properties (p ∷ ps)) == 0) ≡ false = ground arith in
    rw some_left
      (ap (λ l. (k ++ (b'=' ∷ query_escape v)) ++ (b';' ∷ join b';' l)) (property_strings (p ∷ ps)))

parse_parts-string :
    (k v : Bytes) (ps : List ItemProperty)
    → IsValidEntry (k, record { value = v; properties = ps })
    → (let s = member_string (member_of (k, record { value = v; properties = ps })) in
        parse_parts s (cut b';' s))
      ≡ parsed (parsed_member (k, record { value = v; properties = ps }))
unfolding parse_parts head_of
parse_parts-string k v [] h =
    let e : Bytes × Item = (k, record { value = v; properties = [] }) in
    let nothing =
      cut-Lacks b';' (head_of e) (plain-Lacks_semicolon (head_of e) (head_of-plain e h)) in
    ap (λ s. parse_parts s (cut b';' s)) (member_string-bare k v)
    ∙ ap (parse_parts (head_of e)) nothing
    ∙ parse_key_value-lem k v [] h.key_ok h.value_ok
parse_parts-string k v (p ∷ ps) h =
    let e : Bytes × Item = (k, record { value = v; properties = p ∷ ps }) in
    let s = head_of e ++ (b';' ∷ property_part (p ∷ ps)) in
    let found =
      cut-append b';' (head_of e) (property_part (p ∷ ps))
        (plain-Lacks_semicolon (head_of e) (head_of-plain e h)) in
    ap (λ s. parse_parts s (cut b';' s)) (member_string-properties k v p ps)
    ∙ ap (parse_parts s) found
    ∙ ap (λ r. r >>= λ props. parse_key_value (cut b'=' (head_of e)) props)
        (parse_properties-join p ps h.properties_ok)
    ∙ parse_key_value-lem k v (map marked (p ∷ ps)) h.key_ok h.value_ok

pub parse_member-member_string :
    (e : Bytes × Item)
    → IsValidEntry e
    → length (member_string (member_of e)) ≤ max_bytes_per_members
    → parse_member (member_string (member_of e)) ≡ parsed (parsed_member e)
unfolding parse_member
parse_member-member_string e h short =
    let fits : ltb max_bytes_per_members (length (member_string (member_of e))) ≡ false =
      ground (arith, short) in
    rw fits (parse_parts-string e.0 (e.1).value (e.1).properties h)

-- Strings without a comma, joined by `;`, have no comma.
join-Lacks_comma :
    (w : Bytes) (ws : List Bytes) → All (Lacks b',') (w ∷ ws) → Lacks b',' (join b';' (w ∷ ws))
unfolding join
join-Lacks_comma w [] (h, hs) = h
join-Lacks_comma w (v ∷ ws) (h, hs) =
    all-append (λ c. not (c == b',')) w (b';' ∷ join b';' (v ∷ ws))
    ∙ rw (h, join-Lacks_comma v ws hs) refl

properties-Lacks_comma :
    (ps : List ItemProperty)
    → All IsValidProperty ps
    → All (Lacks b',') (map (λ p. property_string (marked p)) ps)
properties-Lacks_comma [] h = tt
properties-Lacks_comma (p ∷ ps) (h, hs) = (
  plain-Lacks_comma (property_string (marked p)) (property_string-plain p h),
  properties-Lacks_comma ps hs,
)

pub member_string-Lacks :
    (k v : Bytes) (ps : List ItemProperty)
    → IsValidEntry (k, record { value = v; properties = ps })
    → Lacks b',' (member_string (member_of (k, record { value = v; properties = ps })))
member_string-Lacks k v [] h =
    let e : Bytes × Item = (k, record { value = v; properties = [] }) in
    ap (all (λ c. not (c == b','))) (member_string-bare k v)
    ∙ plain-Lacks_comma (head_of e) (head_of-plain e h)
member_string-Lacks k v (p ∷ ps) h =
    let e : Bytes × Item = (k, record { value = v; properties = p ∷ ps }) in
    let first = plain-Lacks_comma (head_of e) (head_of-plain e h) in
    let later =
      join-Lacks_comma (property_string (marked p)) (map (λ p. property_string (marked p)) ps)
        (properties-Lacks_comma (p ∷ ps) h.properties_ok) in
    ap (all (λ c. not (c == b','))) (member_string-properties k v p ps)
    ∙ all-append (λ c. not (c == b',')) (head_of e) (b';' ∷ property_part (p ∷ ps))
    ∙ rw (first, later) refl
