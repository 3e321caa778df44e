-- ===== src/Baggage/Limits.antt =====
-- What `New` gives for members that were validated.
use mathlib.Core.Path.{subst}
use opentelemetry_go.Prelude.{
  ◌≤◌, ◌<◌, ◌≡◌, ◌⊎◌, refl, sym, ap, ◌∙◌, true, false, inl, inr, Bool-cases, List, [], ◌∷◌, Option,
  none, some, arith, ltb, ◌==◌, if◌then◌else◌, Bytes, eq_bytes, eq_bytes_iff, length, All,
}
use opentelemetry_go.Text.{join}
use opentelemetry_go.Baggage.{
  BaggageError, err_member_number, err_baggage_bytes, Parsed, failed, parsed, ◌>>=◌, max_members,
  max_bytes_per_baggage_string, matches_value, Property, Member, validate_property,
  validate_properties, validate_member,
}
use opentelemetry_go.Baggage.Map.{
  Item, Items, Baggage, empty_baggage, as_internal, lookup, put, put_member, baggage_string,
  add_members, check_limits, new_baggage,
}
use opentelemetry_go.Baggage.RoundTrip.{KeysDiffer}
use opentelemetry_go.Baggage.RoundTrip.Property.{IsValidProperty}
use opentelemetry_go.Baggage.RoundTrip.Member.{IsValidEntry}

-- What the last member with a key says, else what was there.
abbrev pub last_item : Bytes → List Member → Option Item → Option Item
last_item k [] before = before
last_item k (m ∷ ms) before = last_item k ms (
    if eq_bytes m.key k
    then some (record { value = m.value; properties = as_internal m.properties })
    else before)

-- The list has, for each key, the last of the members, and valid entries of different keys.
pub record Collects (ms : List Member) (l : Items) : Type 0 where
  pub last : (k : Bytes) → lookup l k ≡ last_item k ms none
  pub valid : All IsValidEntry l
  pub differ : KeysDiffer l

-- What `New` promises.
abbrev pub IsNew : List Member → Parsed Baggage → Type 0
IsNew ms (parsed b) =
    Collects ms b.list
    × (length b.list ≤ max_members)
    × (length (baggage_string b) ≤ max_bytes_per_baggage_string)
IsNew ms (failed e) =
    (l : Items) × Collects ms l
    × ((e ≡ err_member_number) × (max_members < length l)
        ⊎ (e ≡ err_baggage_bytes)
          × (max_bytes_per_baggage_string < length (baggage_string (record { list = l }))))

pub lookup-put :
    (l : Items) (k : Bytes) (v : Item) (j : Bytes)
    → lookup (put l k v) j ≡ (if eq_bytes k j then some v else lookup l j)
unfolding lookup put
lookup-put [] k v j = refl
lookup-put ((i, w) ∷ l) k v j =
    ground (arith, lookup-put l k v j, eq_bytes_iff i k, eq_bytes_iff i j, eq_bytes_iff k j)

flipped : (i k : Bytes) → eq_bytes i k ≡ false → eq_bytes k i ≡ false
flipped i k h = ground (arith, h, eq_bytes_iff i k, eq_bytes_iff k i)

put-KeysDiffer : (l : Items) (k : Bytes) (v : Item) → KeysDiffer l → KeysDiffer (put l k v)
unfolding put lookup
put-KeysDiffer [] k v h = (refl, tt)
put-KeysDiffer ((i, w) ∷ l) k v (h, hs) = elim (Bool-cases (eq_bytes i k)) [
  | inl same ↦ rw same (ap (lookup l) (sym ((eq_bytes_iff i k).0 same)) ∙ h, hs)
  | inr other ↦ rw other (lookup-put l k v i ∙ rw (flipped i k other) h, put-KeysDiffer l k v hs)
]

put-All :
    (P : Bytes × Item → Type 0) (l : Items) (k : Bytes) (v : Item)
    → P (k, v)
    → All P l
    → All P (put l k v)
unfolding put
put-All P [] k v p q = (p, tt)
put-All P ((i, w) ∷ l) k v p (q, qs) = elim (Bool-cases (eq_bytes i k)) [
  | inl same ↦ rw same (p, qs)
  | inr other ↦ rw other (q, put-All P l k v p qs)
]

no_bytes : (s : Bytes) → (length s == 0) ≡ true → s ≡ []
no_bytes [] h = refl
no_bytes (c ∷ s) h = ground (arith, h)

validate_property-none :
    (p : Property)
    → validate_property p ≡ none
    → IsValidProperty (record { key = p.key; value = p.value; has_value = p.has_value })
unfolding validate_property
validate_property-none p h = elim (Bool-cases p.has_value) [
  | inl with_value ↦ record {
    key_ok = ground (arith, h);
    value_ok = ground (arith, h, with_value);
    no_value = λ without. absurd (cc (with_value, without));
  }
  | inr without ↦
      let nothing : p.value ≡ [] = no_bytes p.value (ground (arith, h, without)) in
      record {
        key_ok = ground (arith, h);
        value_ok = ap matches_value nothing;
        no_value = λ e. nothing;
      }
]

Option-error :
    (o rest : Option BaggageError)
    → (elim o [ some e ↦ some e | none ↦ rest ]) ≡ none
    → (o ≡ none) × (rest ≡ none)
Option-error none rest h = (refl, h)
Option-error (some e) rest h = cc

validate_properties-none :
    (ps : List Property) → validate_properties ps ≡ none → All IsValidProperty (as_internal ps)
unfolding validate_properties
validate_properties-none [] h = tt
validate_properties-none (p ∷ ps) h =
    let (first, later) = Option-error (validate_property p) (validate_properties ps) h in
    (validate_property-none p first, validate_properties-none ps later)

-- The entry of a member.
abbrev item_of : Member → Item
item_of m = record { value = m.value; properties = as_internal m.properties }

validate_member-none :
    (m : Member) → validate_member m ≡ none → (m.has_data ≡ true) × IsValidEntry (m.key, item_of m)
unfolding validate_member
validate_member-none m h = (
  ground (arith, h),
  record {
    key_ok = ground (arith, h);
    value_ok = ground (arith, h);
    properties_ok = validate_properties-none m.properties (ground (arith, h));
  },
)

-- The loop, from a list of valid entries.
record Added (l : Items) (ms : List Member) (r : Parsed Items) : Type 0 where
  list : Items
  result_is : r ≡ parsed list
  last : (k : Bytes) → lookup list k ≡ last_item k ms (lookup l k)
  valid : All IsValidEntry list
  differ : KeysDiffer list

add_members-Added :
    (ms : List Member) (l : Items)
    → All (λ m. validate_member m ≡ none) ms
    → All IsValidEntry l
    → KeysDiffer l
    → Added l ms (add_members l ms)
unfolding add_members
add_members-Added [] l h v d = record {
  list = l;
  result_is = refl;
  last = λ k. refl;
  valid = v;
  differ = d;
}
add_members-Added (m ∷ ms) l (h, hs) v d =
    let (has_data, entry) = validate_member-none m h in
    let ih =
      add_members-Added ms (put_member l m) hs (put-All IsValidEntry l m.key (item_of m) entry v)
        (put-KeysDiffer l m.key (item_of m) d) in
    record {
      list = ih.list;
      result_is = rw has_data ih.result_is;
      last = λ k. ih.last k ∙ ap (last_item k ms) (lookup-put l m.key (item_of m) k);
      valid = ih.valid;
      differ = ih.differ;
    }

check_limits-IsNew : (ms : List Member) (l : Items) → Collects ms l → IsNew ms (check_limits l)
unfolding check_limits
check_limits-IsNew ms l c = elim (Bool-cases (ltb max_members (length l))) [
  | inl many ↦ rw many (l, c, inl (refl, ground (arith, many)))
  | inr few ↦
      elim (Bool-cases
        (ltb max_bytes_per_baggage_string (length (baggage_string (record { list = l }))))) [
          | inl long ↦ rw (few, long) (l, c, inr (refl, ground (arith, long)))
          | inr fits ↦ rw (few, fits) (c, ground (arith, few), ground (arith, fits))
        ]
]

-- For members that pass their validation, `New` returns a baggage in which each key has the last of the
-- members with that key, all entries valid and the keys different, no more than 180 of them and with a
-- string of no more than 8,192 bytes; or an error, where there would be more than 180 entries or the
-- string would be longer.
pub new_baggage-IsNew :
    (ms : List Member) → All (λ m. validate_member m ≡ none) ms → IsNew ms (new_baggage ms)
unfolding new_baggage lookup baggage_string join
new_baggage-IsNew [] h =
    (record { last = λ k. refl; valid = tt; differ = tt }, omega arith, omega (arith, joined))
  where
    joined : length (baggage_string empty_baggage) ≡ 0
    joined = refl
new_baggage-IsNew (m ∷ ms) h =
    let added = add_members-Added (m ∷ ms) [] h tt tt in
    let full : (length (m ∷ ms) == 0) ≡ false = ground arith in
    let collects : Collects (m ∷ ms) added.list = record {
      last = added.last;
      valid = added.valid;
      differ = added.differ;
    } in
    rw full (
      subst (IsNew (m ∷ ms)) (sym (ap (λ r. r >>= check_limits) added.result_is))
        (check_limits-IsNew (m ∷ ms) added.list collects))
