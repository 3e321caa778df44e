-- ===== src/Baggage/RoundTrip.antt =====
-- `Parse` undoes `Baggage.String`.
pub mod Property
pub mod Member
use mathlib.Core.Path.{subst}
use opentelemetry_go.Prelude.{
  ℕ, ◌≤◌, ◌≡◌, refl, sym, ap, ◌∙◌, Bool, true, false, not, inl, inr, Bool-cases, List, [], ◌∷◌,
  ◌++◌, append_assoc, append-nil, Option, none, some, map, arith, ltb, ◌==◌, if◌then◌else◌, Bytes,
  eq_bytes, eq_bytes_refl, eq_bytes_iff, length, All,
}
use opentelemetry_go.Text.{split, join, cut}
use opentelemetry_go.Text.Split.{Lacks, split-join}
use opentelemetry_go.Baggage.{
  Parsed, failed, parsed, ◌>>=◌, err_invalid_member, max_members, max_bytes_per_members,
  max_bytes_per_baggage_string, parse_key_value, parse_parts, parse_member, member_string,
}
use opentelemetry_go.Baggage.Map.{
  ItemProperty, Item, Items, Baggage, empty_baggage, as_internal, lookup, put, put_member,
  member_of, baggage_string, parse_members, check_number, parse,
}
use opentelemetry_go.Baggage.RoundTrip.Property.{marked}
use opentelemetry_go.Baggage.RoundTrip.Member.{
  IsValidEntry, parsed_member, parse_member-member_string, member_string-Lacks,
}

-- The keys of the entries differ.
abbrev pub KeysDiffer : Items → Type 0
KeysDiffer [] = Unit
KeysDiffer (e ∷ l) = (lookup l e.0 ≡ none) × KeysDiffer l

-- What `Parse` accepts.
pub record IsWellFormed (b : Baggage) : Type 0 where
  pub valid : All IsValidEntry b.list
  pub differ : KeysDiffer b.list
  pub short : All (λ e. length (member_string (member_of e)) ≤ max_bytes_per_members) b.list
  pub few : length b.list ≤ max_members
  pub fits : length (baggage_string b) ≤ max_bytes_per_baggage_string

pub put-new :
    (l : Items) (k : Bytes) (item : Item) → lookup l k ≡ none → put l k item ≡ l ++ ((k, item) ∷ [])
unfolding put lookup
put-new [] k item h = refl
put-new ((j, w) ∷ l) k item h = elim (Bool-cases (eq_bytes j k)) [
  | inl same ↦ absurd (cc (rw same at h))
  | inr other ↦ rw other (ap (◌∷◌ (j, w)) (put-new l k item (rw other at h)))
]

-- A key that the list does not have is not that of an entry.
absent_key :
    (l : Items) (k : Bytes) (v : Item) (m : Items) (j : Bytes)
    → lookup (l ++ ((k, v) ∷ m)) j ≡ none
    → eq_bytes j k ≡ false
unfolding lookup
absent_key [] k v m j h = ground (arith, h, eq_bytes_iff j k, eq_bytes_iff k j)
absent_key ((i, w) ∷ l) k v m j h = elim (Bool-cases (eq_bytes i j)) [
  | inl same ↦ absurd (cc (rw same at h))
  | inr other ↦ absent_key l k v m j (rw other at h)
]

new_key :
    (l : Items) (k : Bytes) (v : Item) (m : Items)
    → KeysDiffer (l ++ ((k, v) ∷ m))
    → lookup l k ≡ none
unfolding lookup
new_key [] k v m h = refl
new_key ((j, w) ∷ l) k v m (h, hs) = rw (absent_key l k v m j h) (new_key l k v m hs)

as_internal-marked : (ps : List ItemProperty) → as_internal (map marked ps) ≡ ps
as_internal-marked [] = refl
as_internal-marked (p ∷ ps) = ap (◌∷◌ p) (as_internal-marked ps)

put_member-parsed :
    (l : Items) (e : Bytes × Item) (m : Items)
    → KeysDiffer (l ++ (e ∷ m))
    → put_member l (parsed_member e) ≡ l ++ (e ∷ [])
put_member-parsed l e m h =
    ap {A = List ItemProperty} {B = Items}
      (λ ps. put l e.0 (record { value = (e.1).value; properties = ps }))
      (as_internal-marked (e.1).properties)
    ∙ put-new l e.0 e.1 (new_key l e.0 e.1 m h)

entry_string : Bytes × Item → Bytes
entry_string e = member_string (member_of e)

parse_members-strings :
    (l m : Items)
    → All IsValidEntry m
    → All (λ e. length (member_string (member_of e)) ≤ max_bytes_per_members) m
    → KeysDiffer (l ++ m)
    → parse_members l (map entry_string m) ≡ parsed (l ++ m)
unfolding parse_members entry_string
parse_members-strings l [] v s d = ap parsed (sym (append-nil l))
parse_members-strings l (e ∷ m) (v, vs) (s, ss) d =
    ap (λ r. r >>= λ t. parse_members (put_member l t) (map entry_string m))
      (parse_member-member_string e v s)
    ∙ ap (λ n. parse_members n (map entry_string m)) (put_member-parsed l e m d)
    ∙ parse_members-strings (l ++ (e ∷ [])) m vs ss
        (subst KeysDiffer (sym (append_assoc l (e ∷ []) m)) d)
    ∙ ap parsed (append_assoc l (e ∷ []) m)

strings-Lacks : (m : Items) → All IsValidEntry m → All (Lacks b',') (map entry_string m)
unfolding entry_string
strings-Lacks [] v = tt
strings-Lacks (e ∷ m) (v, vs) =
    (member_string-Lacks e.0 (e.1).value (e.1).properties v, strings-Lacks m vs)

empty_join : (w : Bytes) (ws : List Bytes) → (length (join b',' (w ∷ ws)) == 0) ≡ true → w ≡ []
unfolding join
empty_join [] ws h = refl
empty_join (c ∷ w) [] h = ground (arith, h)
empty_join (c ∷ w) (v ∷ ws) h = ground (arith, h)

parse_member-nil : parse_member [] ≡ failed err_invalid_member
unfolding parse_member parse_parts parse_key_value cut
parse_member-nil = refl

-- The string of a baggage that has a valid entry is not empty.
nonempty :
    (e : Bytes × Item) (ws : List Bytes)
    → IsValidEntry e
    → length (member_string (member_of e)) ≤ max_bytes_per_members
    → (length (join b',' (entry_string e ∷ ws)) == 0) ≡ false
unfolding entry_string
nonempty e ws v s = elim (Bool-cases (length (join b',' (entry_string e ∷ ws)) == 0)) [
  | inl nothing ↦ absurd (
      cc (
        sym (ap parse_member (empty_join (entry_string e) ws nothing) ∙ parse_member-nil)
        ∙ parse_member-member_string e v s))
  | inr something ↦ something
]

-- For a well-formed baggage: its members, in whatever order the map gives them, are valid, of different
-- keys, and no more than 180; no member's string is longer than 4,096 bytes, nor the whole string longer
-- than 8,192. `Parse` of what `String` writes gives back the same members in that order.
pub parse-baggage_string : (b : Baggage) → IsWellFormed b → parse (baggage_string b) ≡ parsed b
unfolding parse baggage_string entry_string join
parse-baggage_string b h = entries b.list h
  where
    entries :
        (l : Items)
        → IsWellFormed (record { list = l })
        → parse (baggage_string (record { list = l })) ≡ parsed (record { list = l })
    entries [] h = refl
    entries (e ∷ l) h =
        let strings = map entry_string (e ∷ l) in
        let long_enough = nonempty e (map entry_string l) h.valid.0 h.short.0 in
        let fits : ltb max_bytes_per_baggage_string (length (join b',' strings)) ≡ false =
          ground (arith, h.fits) in
        let few : ltb max_members (length (e ∷ l)) ≡ false = ground (arith, h.few) in
        rw (long_enough, fits)
          (ap (λ ss. parse_members [] ss >>= check_number)
              (split-join b',' (entry_string e) (map entry_string l)
                (strings-Lacks (e ∷ l) h.valid))
            ∙ ap (λ r. r >>= check_number)
                (parse_members-strings [] (e ∷ l) h.valid h.short h.differ)
            ∙ rw few refl)
