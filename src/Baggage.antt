-- ===== src/Baggage.antt =====
-- baggage/baggage.go and internal/baggage/baggage.go: baggage, its members and their properties. An
-- error is the constant that `fmt.Errorf` wraps. `baggage.List`, a Go map, is a list of entries whose
-- keys differ, in the order in which the map is iterated. No class of the regular expressions holds a
-- character outside of ASCII, white space or one of the delimiters that split the string.
pub mod Map
pub mod RoundTrip
pub mod Limits
pub mod Context
use opentelemetry_go.Prelude.{
  ℕ, zero, suc, ◌+◌, Bool, true, false, not, ◌&&◌, ◌||◌, List, [], ◌∷◌, ◌++◌, Option, none, some,
  map, ltb, leb, ◌==◌, if◌then◌else◌, Bytes, eq_bytes, length, all,
}
use opentelemetry_go.Text.{split, join, cut, trim_left, trim_right}
use opentelemetry_go.Text.Escape.{query_escape, query_unescape}
use opentelemetry_go.Text.Space.{trim_space}

pub data BaggageError : Type 0 where
  err_invalid_key err_invalid_value err_invalid_property err_invalid_member : BaggageError
  err_member_number err_member_bytes err_baggage_bytes : BaggageError
  -- "inconsistent value", and an error of `url.QueryUnescape`
  err_inconsistent_value err_escape : BaggageError

-- `(T, error)`: the value, or the error in its place.
pub data Parsed (T : Type 0) : Type 0 where
  failed : BaggageError → Parsed T
  parsed : T → Parsed T

-- `if err != nil { return …, err }` and what follows it
infixl 4 ◌>>=◌
abbrev pub ◌>>=◌ : {T U : Type 0} → Parsed T → (T → Parsed U) → Parsed U
failed why >>= next = failed why
parsed t >>= next = next t

abbrev pub max_members : ℕ
max_members = 180

abbrev pub max_bytes_per_members : ℕ
max_bytes_per_members = 4096

abbrev pub max_bytes_per_baggage_string : ℕ
max_bytes_per_baggage_string = 8192

abbrev in_range : ℕ → ℕ → ℕ → Bool
in_range lo hi c = leb lo c && leb c hi

-- The classes of `keyDef` and `valueDef`
unfoldable pub is_key_byte : ℕ → Bool
is_key_byte c =
    c == 0x21
    || in_range 0x23 0x27 c
    || c == 0x2a
    || c == 0x2b
    || c == 0x2d
    || c == 0x2e
    || in_range 0x30 0x39 c
    || in_range 0x41 0x5a c
    || in_range 0x5e 0x7a c
    || c == 0x7c
    || c == 0x7e

unfoldable pub is_value_byte : ℕ → Bool
is_value_byte c =
    c == 0x21
    || in_range 0x23 0x2b c
    || in_range 0x2d 0x3a c
    || in_range 0x3c 0x5b c
    || in_range 0x5d 0x7e c

-- `keyRe` and `valueRe`
unfoldable pub matches_key : Bytes → Bool
matches_key s = not (length s == 0) && all is_key_byte s

abbrev pub matches_value : Bytes → Bool
matches_value s = all is_value_byte s

pub record Property : Type 0 where
  pub key : Bytes
  pub value : Bytes
  pub has_value : Bool
  pub has_data : Bool

-- `newInvalidProperty`
abbrev pub new_invalid_property : Property
new_invalid_property = record { key = []; value = []; has_value = false; has_data = false }

-- `NewKeyProperty` and `NewKeyValueProperty`
abbrev pub new_key_property : Bytes → Parsed Property
new_key_property key =
    if matches_key key
    then parsed (record { key = key; value = []; has_value = false; has_data = true })
    else failed err_invalid_key

abbrev pub new_key_value_property : Bytes → Bytes → Parsed Property
new_key_value_property key value =
    if not (matches_key key)
    then failed err_invalid_key
    else if not (matches_value value)
    then failed err_invalid_value
    else parsed (record { key = key; value = value; has_value = true; has_data = true })

-- What `\s*` leaves on both sides.
abbrev trim : Bytes → Bytes
trim s = trim_right (trim_left s)

-- The second branch of `propertyRe`, on the parts before and behind the first `=`.
unfoldable pub match_key_value : Option (Bytes × Bytes) → Parsed Property
match_key_value none = failed err_invalid_property
match_key_value (some (k, v)) =
    if matches_key (trim k) && matches_value (trim v)
    then parsed (record { key = trim k; value = trim v; has_value = true; has_data = true })
    else failed err_invalid_property

-- `parseProperty`
unfoldable pub parse_property : Bytes → Parsed Property
unfolding match_key_value
parse_property property =
    if length property == 0
    then parsed new_invalid_property
    else if matches_key (trim property)
    then parsed (record { key = trim property; value = []; has_value = false; has_data = true })
    else match_key_value (cut b'=' property)

-- `Property.validate`
unfoldable pub validate_property : Property → Option BaggageError
validate_property p =
    if not p.has_data
    then some err_invalid_property
    else if not (matches_key p.key)
    then some err_invalid_key
    else if p.has_value && not (matches_value p.value)
    then some err_invalid_value
    else if not p.has_value && not (length p.value == 0)
    then some err_inconsistent_value
    else none

-- `Property.String`
unfoldable pub property_string : Property → Bytes
property_string p = if p.has_value then p.key ++ (b'=' ∷ p.value) else p.key

-- `properties.validate` and `properties.String`
unfoldable pub validate_properties : List Property → Option BaggageError
unfolding validate_property
validate_properties [] = none
validate_properties (p ∷ ps) =
    let rest = validate_properties ps in
    elim (validate_property p) [ some e ↦ some e | none ↦ rest ]

abbrev pub properties_string : List Property → Bytes
properties_string ps = join b';' (map property_string ps)

pub record Member : Type 0 where
  pub key : Bytes
  pub value : Bytes
  pub properties : List Property
  pub has_data : Bool

-- `newInvalidMember`
abbrev pub new_invalid_member : Member
new_invalid_member = record { key = []; value = []; properties = []; has_data = false }

-- `Member.validate`
unfoldable pub validate_member : Member → Option BaggageError
unfolding validate_properties
validate_member m =
    if not m.has_data
    then some err_invalid_member
    else if not (matches_key m.key)
    then some err_invalid_key
    else if not (matches_value m.value)
    then some err_invalid_value
    else validate_properties m.properties

-- `NewMember`
unfoldable pub new_member : Bytes → Bytes → List Property → Parsed Member
unfolding validate_member
new_member key value props =
    let m : Member = record { key = key; value = value; properties = props; has_data = true } in
    elim (validate_member m) [ some e ↦ failed e | none ↦ parsed m ]

-- The loop over the properties of a member.
unfoldable pub parse_properties : List Bytes → Parsed (List Property)
unfolding parse_property
parse_properties [] = parsed []
parse_properties (s ∷ ss) =
    let rest = parse_properties ss in parse_property s >>= λ p. rest >>= λ ps. parsed (p ∷ ps)

-- The case of `parseMember` for the key and the value, the last part on what `QueryUnescape` returns.
unfoldable pub member_from : Bytes → Option Bytes → List Property → Parsed Member
member_from key none props = failed err_escape
member_from key (some value) props =
    if not (matches_key key)
    then failed err_invalid_key
    else if not (matches_value value)
    then failed err_invalid_value
    else parsed (record { key = key; value = value; properties = props; has_data = true })

unfoldable pub parse_key_value : Option (Bytes × Bytes) → List Property → Parsed Member
unfolding member_from
parse_key_value none props = failed err_invalid_member
parse_key_value (some (k, v)) props =
    member_from (trim_space k) (query_unescape (trim_space v)) props

-- The `switch` of `parseMember`, on the parts that `SplitN` returns.
unfoldable pub parse_parts : Bytes → Option (Bytes × Bytes) → Parsed Member
unfolding parse_properties parse_key_value
parse_parts member none = parse_key_value (cut b'=' member) []
parse_parts member (some (first, second)) =
    parse_properties (split b';' second) >>= λ props. parse_key_value (cut b'=' first) props

-- `parseMember`
unfoldable pub parse_member : Bytes → Parsed Member
unfolding parse_parts
parse_member member =
    if ltb max_bytes_per_members (length member)
    then failed err_member_bytes
    else parse_parts member (cut b';' member)

-- `Member.String`
unfoldable pub member_string : Member → Bytes
unfolding property_string
member_string m =
    let s = m.key ++ (b'=' ∷ query_escape m.value) in
    if length m.properties == 0 then s else s ++ (b';' ∷ properties_string m.properties)
