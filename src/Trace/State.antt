-- ===== src/Trace/State.antt =====
-- trace/tracestate.go: the list of vendor members of a trace context. Strings are byte lists, and
-- the regular expressions are matchers by recursion: no class of theirs holds a character outside
-- of ASCII. The `@` of a key, the `=` of a member and the white space round it are in no other
-- class, so a match can split the string in one way only.
pub mod Members
pub mod WellFormed
pub mod RoundTrip
pub mod Edit
use opentelemetry_go.Prelude.{
  ℕ, ◌+◌, ◌-◌, Bool, true, false, not, ◌&&◌, ◌||◌, List, [], ◌∷◌, ◌++◌, Option, none, some, map,
  ltb, leb, ◌==◌, if◌then◌else◌, Bytes, eq_bytes, length, take, drop, all,
}
use opentelemetry_go.Text.{split, join, cut, trim_left, trim_right, copy}
use opentelemetry_go.Text.Trim.{ends_with}
use opentelemetry_go.Trace.Errors.{
  TraceError, err_invalid_key, err_invalid_value, err_invalid_member, err_member_number,
  err_duplicate, Result, ok, err, ◌>>=◌,
}

pub record Member : Type 0 where
  pub key : Bytes
  pub value : Bytes

pub record TraceState : Type 0 where
  pub list : List Member

abbrev pub empty : TraceState
empty = record { list = [] }

-- `maxListMembers`, and the byte of `listDelimiter`
abbrev pub max_list_members : ℕ
max_list_members = 32

abbrev pub list_delimiter : ℕ
list_delimiter = b','

abbrev within : ℕ → ℕ → ℕ → Bool
within lo hi c = leb lo c && leb c hi

-- `[a-z]`
abbrev is_letter : ℕ → Bool
is_letter c = within b'a' b'z' c

-- `[a-z0-9]`
abbrev is_alphanumeric : ℕ → Bool
is_alphanumeric c = is_letter c || within b'0' b'9' c

-- `[_0-9a-z\-\*\/]`
unfoldable pub is_key_char : ℕ → Bool
is_key_char c =
    c == b'_' || within b'0' b'9' c || is_letter c || c == b'-' || c == b'*' || c == b'/'

-- `[a-z][_0-9a-z\-\*\/]{0,n}`, and the same with another class for the first character
starts : (ℕ → Bool) → ℕ → Bytes → Bool
starts first n [] = false
starts first n (c ∷ cs) = first c && all is_key_char cs && leb (length cs) n

-- `noTenantKeyFormat`
unfoldable pub no_tenant_key : Bytes → Bool
unfolding starts
no_tenant_key = starts is_letter 255

-- The parts round the `@`.
tenant_parts : Option (Bytes × Bytes) → Bool
unfolding starts
tenant_parts none = false
tenant_parts (some (tenant, system)) =
    starts is_alphanumeric 240 tenant && starts is_letter 13 system

-- `withTenantKeyFormat`
unfoldable pub with_tenant_key : Bytes → Bool
unfolding tenant_parts
with_tenant_key key = tenant_parts (cut b'@' key)

-- `keyRe.MatchString`
unfoldable pub is_key : Bytes → Bool
unfolding no_tenant_key with_tenant_key
is_key key = no_tenant_key key || with_tenant_key key

-- `[\x21-\x2b\x2d-\x3c\x3e-\x7e]`: printable, but for the space, `,` and `=`
unfoldable pub is_nblk_char : ℕ → Bool
is_nblk_char c = within 0x21 0x2b c || within 0x2d 0x3c c || within 0x3e 0x7e c

-- `[\x20-\x2b\x2d-\x3c\x3e-\x7e]`
unfoldable pub is_value_char : ℕ → Bool
unfolding is_nblk_char
is_value_char c = c == 0x20 || is_nblk_char c

-- `valueRe.MatchString`: up to 255 characters, and a last one that is no space
unfoldable pub is_value : Bytes → Bool
unfolding is_value_char is_nblk_char ends_with
is_value value = all is_value_char value && leb (length value) 256 && ends_with is_nblk_char value

-- `newMember`
unfoldable pub new_member : Bytes → Bytes → Result Member
new_member key value =
    if not (is_key key)
    then err err_invalid_key
    else if not (is_value value)
    then err err_invalid_value
    else ok (record { key = key; value = value })

-- The parts round the `=`; white space may follow the value.
member_parts : Option (Bytes × Bytes) → Option (Bytes × Bytes)
member_parts none = none
member_parts (some (key, rest)) =
    let value = trim_right rest in if is_key key && is_value value then some (key, value) else none

-- `memberRe.FindStringSubmatch`: the groups of the key and of the value
unfoldable pub match_member : Bytes → Option (Bytes × Bytes)
unfolding member_parts
match_member m = member_parts (cut b'=' (trim_left m))

-- `parseMember`
unfoldable pub parse_member : Bytes → Result Member
unfolding match_member
parse_member m = elim (match_member m) [
  | none ↦ err err_invalid_member
  | some (key, value) ↦ ok (record { key = key; value = value })
]

-- `member.String`
unfoldable pub member_string : Member → Bytes
member_string m = m.key ++ (b'=' ∷ m.value)

-- `_, ok := found[k]`, for the keys that the map `found` holds
unfoldable pub is_found : Bytes → List Bytes → Bool
is_found k [] = false
is_found k (j ∷ js) = eq_bytes k j || is_found k js

-- The variables of the loop of `ParseTraceState`.
pub record Progress : Type 0 where
  pub members : List Member
  pub found : List Bytes

-- The rest of the loop's body, once the member is parsed.
add_member : Member → Progress → Result Progress
add_member m p =
    if is_found m.key p.found
    then err err_duplicate
    else let members = p.members ++ (m ∷ []) in
      if ltb max_list_members (length members)
      then err err_member_number
      else ok (record { members = members; found = m.key ∷ p.found })

-- The body of the loop of `ParseTraceState`.
parse_step : Bytes → Progress → Result Progress
unfolding add_member
parse_step member_str p =
    if length member_str == 0 then ok p else do m ← parse_member member_str; add_member m p

-- The loop.
parse_members : List Bytes → Progress → Result Progress
parse_members [] p = ok p
parse_members (s ∷ ss) p = do q ← parse_step s p; parse_members ss q

-- `ParseTraceState`
unfoldable pub parse_trace_state : Bytes → Result TraceState
unfolding parse_members parse_step
parse_trace_state tracestate = if eq_bytes tracestate [] then ok empty else do
  p ← parse_members (split list_delimiter tracestate) (record { members = []; found = [] })
  ok (record { list = p.members })

-- `TraceState.String`
unfoldable pub to_string : TraceState → Bytes
unfolding member_string
to_string ts = join list_delimiter (map member_string ts.list)

get_from : Bytes → List Member → Bytes
get_from key [] = []
get_from key (m ∷ ms) = if eq_bytes m.key key then m.value else get_from key ms

-- `TraceState.Get`
unfoldable pub get : TraceState → Bytes → Bytes
unfolding get_from
get ts key = get_from key ts.list

delete_from : Bytes → List Member → List Member
delete_from key [] = []
delete_from key (m ∷ ms) = if eq_bytes m.key key then ms else m ∷ delete_from key ms

-- `TraceState.Delete`: the copy less the first member with the key
unfoldable pub delete : TraceState → Bytes → TraceState
unfolding delete_from
delete ts key = record { list = delete_from key ts.list }

-- `TraceState.Len`
abbrev pub len : TraceState → ℕ
len ts = length ts.list

-- `cTS.list[0] = m`
set_first : Member → List Member → List Member
set_first m [] = []
set_first m (x ∷ xs) = m ∷ xs

-- `copy(cTS.list[1:], cTS.list)`, which moves the members one place to the right, and the write
-- at the front.
move_right : Member → List Member → List Member
unfolding set_first
move_right m list = set_first m (take 1 list ++ copy (drop 1 list) list)

-- `cTS.list` behind the test for room
make_room : List Member → List Member
make_room list =
    if leb (length list + 1) max_list_members
    then list ++ (record { key = []; value = [] } ∷ [])
    else list

-- What follows the call of `newMember`.
insert_member : TraceState → Bytes → Result Member → TraceState × Option TraceError
unfolding move_right make_room
insert_member ts key (err e) = (ts, some e)
insert_member ts key (ok m) =
    (record { list = move_right m (make_room (delete ts key).list) }, none)

-- `TraceState.Insert`
unfoldable pub insert : TraceState → Bytes → Bytes → TraceState × Option TraceError
unfolding insert_member
insert ts key value = insert_member ts key (new_member key value)
