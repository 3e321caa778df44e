-- ===== src/Baggage/Map.antt =====
-- baggage/baggage.go and internal/baggage: the list of members, and `Baggage` with its operations.
use opentelemetry_go.Prelude.{
  ℕ, Bool, false, not, List, [], ◌∷◌, Option, none, some, map, ltb, ◌==◌, if◌then◌else◌, Bytes,
  eq_bytes, length,
}
use opentelemetry_go.Text.{split, join}
use opentelemetry_go.Baggage.{
  BaggageError, err_invalid_member, err_member_number, err_baggage_bytes, Parsed, failed, parsed,
  ◌>>=◌, max_members, max_bytes_per_baggage_string, Property, Member, new_invalid_member,
  parse_member, member_string,
}

-- `baggage.Property` and `baggage.Item` of the internal package
pub record ItemProperty : Type 0 where
  pub key : Bytes
  pub value : Bytes
  pub has_value : Bool

pub record Item : Type 0 where
  pub value : Bytes
  pub properties : List ItemProperty

-- `fromInternalProperties` and `asInternal`
abbrev from_internal : ItemProperty → Property
from_internal p = record { key = p.key; value = p.value; has_value = p.has_value; has_data = false }

abbrev pub from_internal_properties : List ItemProperty → List Property
from_internal_properties ps = map from_internal ps

abbrev to_internal : Property → ItemProperty
to_internal p = record { key = p.key; value = p.value; has_value = p.has_value }

abbrev pub as_internal : List Property → List ItemProperty
as_internal ps = map to_internal ps

-- `baggage.List`: reading, writing and deleting a key
abbrev pub Items : Type 0
Items = List (Bytes × Item)

unfoldable pub lookup : Items → Bytes → Option Item
lookup [] key = none
lookup ((k, v) ∷ l) key = let rest = lookup l key in if eq_bytes k key then some v else rest

unfoldable pub put : Items → Bytes → Item → Items
put [] key item = (key, item) ∷ []
put ((k, v) ∷ l) key item =
    let rest = put l key item in if eq_bytes k key then (key, item) ∷ l else (k, v) ∷ rest

unfoldable pub remove : Items → Bytes → Items
remove [] key = []
remove ((k, v) ∷ l) key = let rest = remove l key in if eq_bytes k key then rest else (k, v) ∷ rest

pub record Baggage : Type 0 where
  pub list : Items

abbrev pub empty_baggage : Baggage
empty_baggage = record { list = [] }

-- The member of an entry, as `Member`, `Members` and `String` make it.
abbrev pub member_of : Bytes × Item → Member
member_of e = record {
  key = e.0;
  value = (e.1).value;
  properties = from_internal_properties (e.1).properties;
  has_data = false;
}

-- `Baggage.Member`, `Baggage.Members` and `Baggage.Len`
abbrev pub member : Baggage → Bytes → Member
member b key = elim (lookup b.list key) [ none ↦ new_invalid_member | some v ↦ member_of (key, v) ]

abbrev pub members : Baggage → List Member
members b = map member_of b.list

abbrev pub baggage_length : Baggage → ℕ
baggage_length b = length b.list

-- `Baggage.String`
unfoldable pub baggage_string : Baggage → Bytes
baggage_string b = join b',' (map (λ e. member_string (member_of e)) b.list)

-- `b[m.key] = baggage.Item{...}`
abbrev pub put_member : Items → Member → Items
put_member l m = put l m.key (record { value = m.value; properties = as_internal m.properties })

-- The loop of `New`.
unfoldable pub add_members : Items → List Member → Parsed Items
unfolding put
add_members l [] = parsed l
add_members l (m ∷ ms) =
    let rest = add_members (put_member l m) ms in
    if not m.has_data then failed err_invalid_member else rest

-- The checks of `New` behind the loop.
unfoldable pub check_limits : Items → Parsed Baggage
unfolding baggage_string
check_limits l =
    if ltb max_members (length l)
    then failed err_member_number
    else if ltb max_bytes_per_baggage_string (length (baggage_string (record { list = l })))
    then failed err_baggage_bytes
    else parsed (record { list = l })

-- `New`
unfoldable pub new_baggage : List Member → Parsed Baggage
unfolding add_members check_limits
new_baggage ms = if length ms == 0 then parsed empty_baggage else add_members [] ms >>= check_limits

-- The loop of `Parse`.
unfoldable pub parse_members : Items → List Bytes → Parsed Items
unfolding put
parse_members l [] = parsed l
parse_members l (s ∷ ss) = parse_member s >>= λ m. parse_members (put_member l m) ss

-- The check of `Parse` behind the loop.
abbrev pub check_number : Items → Parsed Baggage
check_number l =
    if ltb max_members (length l) then failed err_member_number else parsed (record { list = l })

-- `Parse`
unfoldable pub parse : Bytes → Parsed Baggage
unfolding parse_members
parse s =
    if length s == 0
    then parsed empty_baggage
    else if ltb max_bytes_per_baggage_string (length s)
    then failed err_baggage_bytes
    else parse_members [] (split b',' s) >>= check_number

-- `Baggage.SetMember`: the baggage and the error
unfoldable pub set_member : Baggage → Member → Baggage × Option BaggageError
unfolding put remove
set_member b m =
    if not m.has_data
    then (b, some err_invalid_member)
    else (record { list = put_member (remove b.list m.key) m }, none)

-- `Baggage.DeleteMember`
unfoldable pub delete_member : Baggage → Bytes → Baggage
unfolding remove
delete_member b key = record { list = remove b.list key }
