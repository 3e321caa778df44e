-- ===== src/Tests/Attributes.antt =====
-- Attribute sets, iterators and resources.
use opentelemetry_go.Prelude.{
  ℕ, inl, lt→ltb, ◌<◌, All, arith, suc, ◌+◌, ◌≡◌, ◌↔◌, refl, Bool, true, false, not, List, [], ◌∷◌,
  none, Option, some, Bytes, codes, eq_bytes,
}
use mathlib.Core.List.{Perm}
use opentelemetry_go.Attribute.{Value, invalid, int64, string, KeyValue, is_valid_attr}
use opentelemetry_go.Attribute.Lookup.{first_value, last_value, or_else}
use opentelemetry_go.Attribute.Set.{
  Set, set_length, new_set, new_set_filtered, value, has_value, equals,
}
use opentelemetry_go.Attribute.Set.Last.{IsAscending}
use opentelemetry_go.Attribute.Set.Search.{value-new_set}
use opentelemetry_go.Attribute.Set.Equal.{equals-new_set}
use opentelemetry_go.Attribute.Set.Filtered.{chosen, passed, new_set_filtered-values}
use opentelemetry_go.Attribute.Iterator.{new_merge_iterator, drain_merge}
use opentelemetry_go.Attribute.Encoder.{copy_and_escape, encoded}
use opentelemetry_go.Attribute.Encoder.Unique.{IsTextual, encoded_unique}
use opentelemetry_go.Text.Utf8.{IsUtf8}
use opentelemetry_go.Prelude.Int.{pos}
use opentelemetry_go.Attribute.Iterator.Merge.{drain_merge-new}
use opentelemetry_go.Resource.{
  Resource, Pointer, empty_resource, Result, new_with_attributes, set_of, schema_url_of, merge,
  detect,
}
use opentelemetry_go.Resource.Merge.{IsMerged, UrlRule, new_with_attributes-IsMade, merge-IsMerged}

abbrev attr : Bytes → Bytes → KeyValue
attr k v = record { key = k; value = string v }

abbrev given : List KeyValue
given =
    attr (codes "b") (codes "1")
    ∷ attr (codes "a") (codes "2")
    ∷ attr (codes "b") (codes "3")
    ∷ attr (codes "c") (codes "4")
    ∷ []

new_set_sorts :
    (new_set given).equivalent
    ≡ attr (codes "a") (codes "2")
      ∷ attr (codes "b") (codes "3")
      ∷ attr (codes "c") (codes "4")
      ∷ []
unfolding new_set new_set_filtered opentelemetry_go.Attribute.Set.distinct_step eq_bytes
    opentelemetry_go.Attribute.Set.stable_sort opentelemetry_go.Attribute.Order.ltb_bytes
new_set_sorts = refl

-- The caller's slice: the value that was replaced stands first.
new_set_moves :
    (new_set_filtered given none).kvs
    ≡ attr (codes "b") (codes "1")
      ∷ attr (codes "a") (codes "2")
      ∷ attr (codes "b") (codes "3")
      ∷ attr (codes "c") (codes "4")
      ∷ []
unfolding new_set_filtered opentelemetry_go.Attribute.Set.distinct_step eq_bytes
    opentelemetry_go.Attribute.Set.stable_sort opentelemetry_go.Attribute.Order.ltb_bytes
new_set_moves = refl

value_finds : value (new_set given) (codes "b") ≡ some (string (codes "3"))
unfolding value new_set new_set_filtered opentelemetry_go.Attribute.Set.distinct_step eq_bytes
    opentelemetry_go.Attribute.Set.stable_sort opentelemetry_go.Attribute.Order.ltb_bytes
value_finds = refl

value_misses : value (new_set given) (codes "bb") ≡ none
unfolding value new_set new_set_filtered opentelemetry_go.Attribute.Set.distinct_step eq_bytes
    opentelemetry_go.Attribute.Set.stable_sort opentelemetry_go.Attribute.Order.ltb_bytes
value_misses = refl

value-new_set_example : value (new_set given) (codes "b") ≡ last_value (codes "b") given
value-new_set_example = value-new_set given (codes "b")

abbrev one_slice : Value → Value → Bool
one_slice v w = false

equals-new_set_example :
    equals one_slice (new_set given) (new_set (new_set given).equivalent) ≡ true
    ↔ ((k : Bytes) → last_value k given ≡ last_value k (new_set given).equivalent)
equals-new_set_example =
    equals-new_set one_slice given (new_set given).equivalent (refl, (refl, (refl, (refl, tt))))

abbrev not_b : KeyValue → Bool
not_b a = not (eq_bytes a.key (codes "b"))

new_set_filters :
    (new_set_filtered given (some not_b)).set.equivalent
    ≡ attr (codes "a") (codes "2") ∷ attr (codes "c") (codes "4") ∷ []
unfolding new_set_filtered opentelemetry_go.Attribute.Set.filter_set
    opentelemetry_go.Attribute.Set.filter_loop opentelemetry_go.Attribute.Set.distinct_step eq_bytes
    opentelemetry_go.Attribute.Set.stable_sort opentelemetry_go.Attribute.Order.ltb_bytes
    opentelemetry_go.Attribute.Set.filter_step
new_set_filters = refl

new_set_filtered-values_example :
    IsAscending (new_set_filtered given (some not_b)).set.equivalent
    × ((k : Bytes)
        → first_value k (new_set_filtered given (some not_b)).set.equivalent
          ≡ passed not_b k (last_value k given))
    × Perm
        (new_set_filtered given (some not_b)).excluded
        (chosen (λ a. not (not_b a)) (new_set given).equivalent)
new_set_filtered-values_example = new_set_filtered-values not_b given

-- An invalid value hides the valid one before it, and is dropped.
hidden :
    (new_set_filtered
      (attr (codes "a") (codes "1") ∷ record { key = codes "a"; value = invalid } ∷ [])
      (some is_valid_attr)).set.equivalent
    ≡ []
unfolding new_set_filtered opentelemetry_go.Attribute.Set.filter_set
    opentelemetry_go.Attribute.Set.filter_loop opentelemetry_go.Attribute.Set.distinct_step eq_bytes
    opentelemetry_go.Attribute.Set.stable_sort opentelemetry_go.Attribute.Order.ltb_bytes
    opentelemetry_go.Attribute.Set.filter_step is_valid_attr
hidden = refl

abbrev first_set : Set
first_set = record { equivalent = attr (codes "a") (codes "1") ∷ attr (codes "c") (codes "1") ∷ [] }

abbrev second_set : Set
second_set = record {
  equivalent =
      attr (codes "b") (codes "2")
      ∷ attr (codes "c") (codes "2")
      ∷ attr (codes "d") (codes "2")
      ∷ [];
}

merged_in_order :
    drain_merge 6 (new_merge_iterator first_set second_set)
    ≡ some (
        attr (codes "a") (codes "1")
        ∷ attr (codes "b") (codes "2")
        ∷ attr (codes "c") (codes "1")
        ∷ attr (codes "d") (codes "2")
        ∷ [])
unfolding drain_merge eq_bytes opentelemetry_go.Attribute.Set.get
    opentelemetry_go.Attribute.Order.ltb_bytes
merged_in_order = refl

drain_merge-new_example :
    (merged : List KeyValue) × (drain_merge
        (suc (set_length first_set + set_length second_set))
        (new_merge_iterator first_set second_set)
      ≡ some merged)
    × IsAscending merged
    × ((k : Bytes)
        → first_value k merged
          ≡ or_else (first_value k first_set.equivalent) (first_value k second_set.equivalent))
unfolding opentelemetry_go.Attribute.Order.ltb_bytes
drain_merge-new_example =
    drain_merge-new first_set second_set ((refl, tt), (tt, tt))
      ((refl, (refl, tt)), ((refl, tt), (tt, tt)))

abbrev blank : Resource
blank = record { attrs = record { equivalent = [] }; schema_url = [] }

-- A resource without valid attributes is the shared empty one, which takes its schema URL.
shared_url :
    (let m = new_with_attributes blank (codes "u") [] in schema_url_of m.empty empty_resource)
    ≡ codes "u"
unfolding new_with_attributes
shared_url = refl

-- The two resources of the merge, and what was there before.
abbrev host : Result Pointer
host =
    new_with_attributes blank (codes "u")
      (attr (codes "host") (codes "h") ∷ attr (codes "name") (codes "1") ∷ [])

abbrev service : Result Pointer
service = new_with_attributes blank [] (attr (codes "name") (codes "2") ∷ [])

merge_overwrites :
    (let m = merge blank host.value service.value in (set_of m.empty m.value.resource).equivalent)
    ≡ attr (codes "host") (codes "h") ∷ attr (codes "name") (codes "2") ∷ []
unfolding merge new_with_attributes new_set_filtered opentelemetry_go.Attribute.Set.filter_set
    opentelemetry_go.Attribute.Set.filter_loop opentelemetry_go.Attribute.Set.distinct_step eq_bytes
    opentelemetry_go.Attribute.Set.stable_sort opentelemetry_go.Attribute.Order.ltb_bytes
    opentelemetry_go.Attribute.Set.filter_step is_valid_attr opentelemetry_go.Resource.combine
    opentelemetry_go.Attribute.Set.get
merge_overwrites = refl

merge_keeps_url :
    (let m = merge blank host.value service.value in schema_url_of m.empty m.value.resource)
    ≡ codes "u"
unfolding merge new_with_attributes new_set_filtered opentelemetry_go.Attribute.Set.filter_set
    opentelemetry_go.Attribute.Set.filter_loop opentelemetry_go.Attribute.Set.distinct_step eq_bytes
    opentelemetry_go.Attribute.Set.stable_sort opentelemetry_go.Attribute.Order.ltb_bytes
    opentelemetry_go.Attribute.Set.filter_step is_valid_attr opentelemetry_go.Resource.combine
    opentelemetry_go.Attribute.Set.get
merge_keeps_url = refl

merge-IsMerged_example :
    (o : Option Bytes) × UrlRule
      (schema_url_of blank host.value)
      (schema_url_of blank service.value)
      o
    × IsMerged blank host.value service.value (merge blank host.value service.value) o
unfolding new_with_attributes new_set_filtered opentelemetry_go.Attribute.Set.filter_set
    opentelemetry_go.Attribute.Set.filter_loop opentelemetry_go.Attribute.Set.distinct_step eq_bytes
    opentelemetry_go.Attribute.Set.stable_sort opentelemetry_go.Attribute.Order.ltb_bytes
    opentelemetry_go.Attribute.Set.filter_step is_valid_attr
merge-IsMerged_example =
    merge-IsMerged blank refl host.value service.value refl
      (new_with_attributes-IsMade blank (codes "u")
        (attr (codes "host") (codes "h") ∷ attr (codes "name") (codes "1") ∷ []) refl).good
      (new_with_attributes-IsMade blank [] (attr (codes "name") (codes "2") ∷ []) refl).good

-- A detector that fails gives nothing; one that fails in part is merged.
detect_merges :
    (let d =
        detect
          (λ partial. partial)
          blank
          (some (λ e. record {
            value = record { resource = host.value; error = some false };
            empty = e;
          })
            ∷ none
            ∷ some (λ e. record {
              value = record { resource = service.value; error = some true };
              empty = e;
            })
            ∷ []) in
      (set_of d.empty d.value.resource).equivalent)
    ≡ attr (codes "name") (codes "2") ∷ []
unfolding detect new_with_attributes new_set_filtered opentelemetry_go.Attribute.Set.filter_set
    opentelemetry_go.Attribute.Set.filter_loop opentelemetry_go.Attribute.Set.stable_sort
    opentelemetry_go.Attribute.Set.filter_step is_valid_attr
detect_merges = refl

-- All numbers print as 1.
abbrev one : Value → Bytes
one v = codes "1"

encoded_escapes :
    encoded one
      (record { equivalent = attr (codes "a=") (codes "x,y") ∷ attr (codes "b") (codes "\\") ∷ [] })
    ≡ codes "a\\==x\\,y,b=\\\\"
unfolding opentelemetry_go.Attribute.Encoder.default_encode
    opentelemetry_go.Attribute.Encoder.copy_and_escape opentelemetry_go.Attribute.Set.get
    opentelemetry_go.Text.Utf8.rune_size
encoded_escapes = refl

-- A number and a string can have one text.
encoded_alike :
    encoded one (record { equivalent = record { key = codes "a"; value = int64 (pos 1) } ∷ [] })
    ≡ encoded one (record { equivalent = attr (codes "a") (codes "1") ∷ [] })
unfolding opentelemetry_go.Attribute.Encoder.default_encode opentelemetry_go.Attribute.Set.get
    opentelemetry_go.Attribute.Encoder.copy_and_escape opentelemetry_go.Text.Utf8.rune_size
encoded_alike = refl

abbrev swapped : List KeyValue
swapped = attr (codes "c") (codes "1") ∷ attr (codes "a") (codes "1") ∷ []

-- A bad byte is written as U+FFFD, so two strings that are not UTF-8 have one text.
bad_bytes_alike :
    encoded one (record { equivalent = attr (codes "a") (0xff ∷ []) ∷ [] })
    ≡ encoded one (record { equivalent = attr (codes "a") (0xfe ∷ []) ∷ [] })
unfolding opentelemetry_go.Attribute.Encoder.default_encode opentelemetry_go.Attribute.Set.get
    copy_and_escape opentelemetry_go.Text.Utf8.rune_size
bad_bytes_alike = refl

-- The characters of two, three and four bytes.
encoded_copies :
    copy_and_escape (0xc3 ∷ 0xa9 ∷ 0xe2 ∷ 0x82 ∷ 0xac ∷ 0xf0 ∷ 0x9f ∷ 0x98 ∷ 0x80 ∷ 0x3d ∷ [])
    ≡ 0xc3 ∷ 0xa9 ∷ 0xe2 ∷ 0x82 ∷ 0xac ∷ 0xf0 ∷ 0x9f ∷ 0x98 ∷ 0x80 ∷ 0x5c ∷ 0x3d ∷ []
unfolding copy_and_escape opentelemetry_go.Text.Utf8.rune_size
encoded_copies = refl

-- One key and one value of one byte each.
attr-IsTextual : (k v : ℕ) → k < 128 → v < 128 → IsTextual (attr (k ∷ []) (v ∷ []))
attr-IsTextual k v h g = (byte k h, byte v g)
  where
    byte : (c : ℕ) → c < 128 → IsUtf8 (c ∷ [])
    byte c l =
        rw (lt→ltb c 128 l) at
          (IsUtf8.character c (omega (arith, l)) (inl (omega (arith, l))) IsUtf8.nothing)

first_set-IsTextual : All IsTextual first_set.equivalent
first_set-IsTextual = (
  attr-IsTextual (b'a') (b'1') (omega arith) (omega arith),
  (attr-IsTextual (b'c') (b'1') (omega arith) (omega arith), tt),
)

encoded_unique_example : (new_set swapped).equivalent ≡ first_set.equivalent
unfolding new_set new_set_filtered opentelemetry_go.Attribute.Set.distinct_step eq_bytes
    opentelemetry_go.Attribute.Set.stable_sort opentelemetry_go.Attribute.Order.ltb_bytes
encoded_unique_example =
    encoded_unique one (new_set swapped) first_set first_set-IsTextual first_set-IsTextual refl
