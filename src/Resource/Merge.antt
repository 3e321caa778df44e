-- ===== src/Resource/Merge.antt =====
-- What `Merge` gives.
use mathlib.Core.Path.{subst}
use opentelemetry_go.Prelude.{
  ◌≡◌, ◌≢◌, ◌⊎◌, refl, sym, ap, ◌∙◌, Bool, true, false, ◌&&◌, inl, inr, Bool-cases, ◌==◌, List, [],
  ◌∷◌, Option, none, some, arith, Bytes, eq_bytes, eq_bytes_iff, length,
}
use opentelemetry_go.Attribute.{Value, KeyValue, is_valid_attr}
use opentelemetry_go.Attribute.Lookup.{first_value, last_value, or_else, or_else-none}
use opentelemetry_go.Attribute.Set.{Set, set_length, new_set_filtered}
use opentelemetry_go.Attribute.Set.Last.{IsAscending, absent}
use opentelemetry_go.Attribute.Set.Filtered.{passed, new_set_filtered-values}
use opentelemetry_go.Attribute.Iterator.Merge.{drain_merge-new}
use opentelemetry_go.Resource.{
  Resource, Pointer, nil, empty_resource, allocated, Result, new_schemaless, set_schema_url,
  new_with_attributes, set_of, schema_url_of, merged_url, combine, Merged, merge_at, merge,
}

-- The value of a key in the resource.
abbrev pub value_of : Resource → Pointer → Bytes → Option Value
value_of e r k = first_value k (set_of e r).equivalent

-- The attributes are valid, and in the order of their keys, each key once.
pub record IsGood (s : Set) : Type 0 where
  pub ascending : IsAscending s.equivalent
  pub valid :
      (k : Bytes) → passed is_valid_attr k (first_value k s.equivalent) ≡ first_value k s.equivalent

ascending-last_value :
    (l : List KeyValue) (k : Bytes) → IsAscending l → last_value k l ≡ first_value k l
ascending-last_value [] k s = refl
ascending-last_value (a ∷ l) k (g, s) = elim (Bool-cases (eq_bytes a.key k)) [
  | inl here ↦
      let at_a : a.key ≡ k = (eq_bytes_iff a.key k).0 here in
      let none_later : last_value k l ≡ none =
        ascending-last_value l k s ∙ ap (λ x. first_value x l) (sym at_a) ∙ absent a.key l g in
      rw (here, none_later) refl
  | inr other ↦ rw other (or_else-none (last_value k l) ∙ ascending-last_value l k s)
]

-- The values that a filter leaves, filtered again.
passed_twice :
    (f : KeyValue → Bool) (k : Bytes) (o : Option Value) → passed f k (passed f k o) ≡ passed f k o
passed_twice f k none = refl
passed_twice f k (some v) = elim (Bool-cases (f (record { key = k; value = v }))) [
  | inl keep ↦ rw (keep, keep) refl
  | inr refuse ↦ rw refuse refl
]

passed-or_else :
    (f : KeyValue → Bool) (k : Bytes) (o o' : Option Value)
    → passed f k o ≡ o
    → passed f k o' ≡ o'
    → passed f k (or_else o o') ≡ or_else o o'
passed-or_else f k none o' h h' = h'
passed-or_else f k (some v) o' h h' = h

-- What a constructor call leaves: the resource that it returns, seen after the call.
pub record IsMade (e : Resource) (url : Bytes) (values : Bytes → Option Value) (m : Result Pointer)
    : Type 0 where
  pub good : IsGood (set_of m.empty m.value)
  pub values_are : (k : Bytes) → value_of m.empty m.value k ≡ values k
  pub url_is : schema_url_of m.empty m.value ≡ url
  pub empty_is : m.empty.attrs ≡ e.attrs

no_attributes : (l : List KeyValue) → (length l == 0) ≡ true → l ≡ []
no_attributes [] h = refl
no_attributes (a ∷ l) h = ground (arith, h)

empty-IsMade :
    (e : Resource) (url : Bytes) (values : Bytes → Option Value)
    → e.attrs.equivalent ≡ []
    → ((k : Bytes) → values k ≡ none)
    → IsMade e url values (set_schema_url e url empty_resource)
empty-IsMade e url values h v = record {
  good = record {
    ascending = subst IsAscending (sym h) tt;
    valid = λ k. ap (λ l. passed is_valid_attr k (first_value k l)) h ∙ sym (ap (first_value k) h);
  };
  values_are = λ k. ap (first_value k) h ∙ sym (v k);
  url_is = refl;
  empty_is = refl;
}

pub new_with_attributes-IsMade :
    (e : Resource) (url : Bytes) (attrs : List KeyValue)
    → e.attrs.equivalent ≡ []
    → IsMade e url
        (λ k. passed is_valid_attr k (last_value k attrs))
        (new_with_attributes e url attrs)
unfolding new_with_attributes new_schemaless
new_with_attributes-IsMade e url attrs h =
    let (ascending, values, excluded) = new_set_filtered-values is_valid_attr attrs in
    let s = (new_set_filtered attrs (some is_valid_attr)).set in
    elim (Bool-cases (length attrs == 0)) [
      | inl nothing ↦ rw nothing (
          empty-IsMade e url (λ k. passed is_valid_attr k (last_value k attrs)) h
            (λ k. ap (λ l. passed is_valid_attr k (last_value k l)) (no_attributes attrs nothing)))
      | inr something ↦ elim (Bool-cases (set_length s == 0)) [
        | inl all_refused ↦
            rw (something, all_refused)
              (empty-IsMade e url (λ k. passed is_valid_attr k (last_value k attrs)) h
                (λ k. sym (values k) ∙ ap (first_value k) (no_attributes s.equivalent all_refused)))
        | inr kept ↦
            rw (something, kept)
              (record {
                good = record {
                  ascending = ascending;
                  valid = λ k.
                      ap (passed is_valid_attr k) (values k)
                      ∙ passed_twice is_valid_attr k (last_value k attrs)
                      ∙ sym (values k);
                };
                values_are = values;
                url_is = refl;
                empty_is = refl;
              })
      ]
    ]

combine-values :
    (b a : Set)
    → IsAscending b.equivalent
    → IsAscending a.equivalent
    → (k : Bytes)
    → last_value k (combine b a) ≡ or_else (first_value k b.equivalent) (first_value k a.equivalent)
unfolding combine
combine-values b a sb sa k =
    let (merged, drained, ascending, values) = drain_merge-new b a sb sa in
    let combined : combine b a ≡ merged = ap (λ r. elim r [ none ↦ [] | some l ↦ l ]) drained in
    ap (last_value k) combined ∙ ascending-last_value merged k ascending ∙ values k

-- What `Merge` promises, for the schema URL that the rules give.
abbrev pub IsMerged : Resource → Pointer → Pointer → Result Merged → Option Bytes → Type 0
IsMerged e a b m none =
    m ≡ record { value = record { resource = empty_resource; conflict = true }; empty = e }
IsMerged e a b m (some url) =
    (m.value.conflict ≡ false)
    × IsMade e url (λ k. or_else (value_of e b k) (value_of e a k))
        (record { value = m.value.resource; empty = m.empty })

-- The rules for the schema URL of a merge, which has none where the two are in conflict.
abbrev pub UrlRule : Bytes → Bytes → Option Bytes → Type 0
UrlRule a b none = (a ≢ []) × (b ≢ []) × (a ≢ b)
UrlRule a b (some url) = (a ≡ []) × (url ≡ b) ⊎ (b ≡ []) × (url ≡ a) ⊎ (a ≡ b) × (url ≡ a)

unequal : (a b : Bytes) → eq_bytes a b ≡ false → a ≢ b
unequal a b h e = cc (h, (eq_bytes_iff a b).1 e)

merged_url-UrlRule : (a b : Bytes) → UrlRule a b (merged_url a b)
merged_url-UrlRule a b = elim (Bool-cases (eq_bytes a [])) [
  | inl first ↦ rw first (inl ((eq_bytes_iff a []).0 first, refl))
  | inr h ↦ elim (Bool-cases (eq_bytes b [])) [
    | inl second ↦ rw (h, second) (inr (inl ((eq_bytes_iff b []).0 second, refl)))
    | inr k ↦ elim (Bool-cases (eq_bytes a b)) [
      | inl same ↦ rw (h, k, same) (inr (inr ((eq_bytes_iff a b).0 same, refl)))
      | inr differ ↦ rw (h, k, differ) (unequal a [] h, unequal b [] k, unequal a b differ)
    ]
  ]
]

abbrev pub is_nil : Pointer → Bool
is_nil nil = true
is_nil _ = false

module _ (e : Resource) (blank : e.attrs.equivalent ≡ []) where
  merge_at-IsMerged :
      (a b : Pointer) (o : Option Bytes)
      → IsGood (set_of e a)
      → IsGood (set_of e b)
      → IsMerged e a b (merge_at e a b o) o
  unfolding merge_at
  merge_at-IsMerged a b none ga gb = refl
  merge_at-IsMerged a b (some url) ga gb =
      let made = new_with_attributes-IsMade e url (combine (set_of e b) (set_of e a)) blank in
      (
        refl,
        record {
          good = made.good;
          values_are = λ k.
              made.values_are k
              ∙ ap (passed is_valid_attr k)
                  (combine-values (set_of e b) (set_of e a) gb.ascending ga.ascending k)
              ∙ passed-or_else is_valid_attr k (value_of e b k) (value_of e a k) (gb.valid k)
                  (ga.valid k);
          url_is = made.url_is;
          empty_is = made.empty_is;
        },
      )

  -- One of the two is nil: the other is returned as it is.
  alone :
      (r : Pointer) (values : Bytes → Option Value) (url : Bytes)
      → IsGood (set_of e r)
      → ((k : Bytes) → values k ≡ value_of e r k)
      → schema_url_of e r ≡ url
      → IsMade e url values (record { value = r; empty = e })
  alone r values url g h u = record {
    good = g;
    values_are = λ k. sym (h k);
    url_is = u;
    empty_is = refl;
  }

  url_alone : (u : Bytes) → merged_url u [] ≡ some u
  unfolding eq_bytes
  url_alone u = elim (Bool-cases (eq_bytes u [])) [
    | inl none_given ↦ rw none_given (ap some (sym ((eq_bytes_iff u []).0 none_given)))
    | inr given ↦ rw given refl
  ]

  merge-nil_left :
      (b : Pointer)
      → IsGood (set_of e b)
      → IsMerged e nil b
          (record { value = record { resource = b; conflict = false }; empty = e })
          (merged_url [] (schema_url_of e b))
  unfolding eq_bytes
  merge-nil_left b g = (
    refl,
    alone b (λ k. or_else (value_of e b k) (value_of e nil k)) (schema_url_of e b) g
        (λ k.
          ap (λ l. or_else (value_of e b k) (first_value k l)) blank
          ∙ or_else-none (value_of e b k))
        refl,
  )

  merge-nil_right :
      (a : Pointer)
      → IsGood (set_of e a)
      → IsMerged e a nil
          (record { value = record { resource = a; conflict = false }; empty = e })
          (merged_url (schema_url_of e a) [])
  merge-nil_right a g =
      subst
        (IsMerged e a nil (record { value = record { resource = a; conflict = false }; empty = e }))
        (sym (url_alone (schema_url_of e a)))
        (
          refl,
          alone a (λ k. or_else (value_of e nil k) (value_of e a k)) (schema_url_of e a) g
              (λ k. ap (λ l. or_else (first_value k l) (value_of e a k)) blank) refl,
        )

  merge_rule :
      (a b : Pointer)
      → (is_nil a && is_nil b) ≡ false
      → IsGood (set_of e a)
      → IsGood (set_of e b)
      → IsMerged e a b (merge e a b) (merged_url (schema_url_of e a) (schema_url_of e b))
  unfolding merge
  merge_rule nil nil h ga gb = absurd (cc h)
  merge_rule nil empty_resource h ga gb = merge-nil_left empty_resource gb
  merge_rule nil (allocated r) h ga gb = merge-nil_left (allocated r) gb
  merge_rule empty_resource nil h ga gb = merge-nil_right empty_resource ga
  merge_rule (allocated r) nil h ga gb = merge-nil_right (allocated r) ga
  merge_rule empty_resource empty_resource h ga gb =
      let url = merged_url (schema_url_of e empty_resource) (schema_url_of e empty_resource) in
      merge_at-IsMerged empty_resource empty_resource url ga gb
  merge_rule empty_resource (allocated r) h ga gb =
      let url = merged_url (schema_url_of e empty_resource) (schema_url_of e (allocated r)) in
      merge_at-IsMerged empty_resource (allocated r) url ga gb
  merge_rule (allocated r) empty_resource h ga gb =
      let url = merged_url (schema_url_of e (allocated r)) (schema_url_of e empty_resource) in
      merge_at-IsMerged (allocated r) empty_resource url ga gb
  merge_rule (allocated r) (allocated s) h ga gb =
      let url = merged_url (schema_url_of e (allocated r)) (schema_url_of e (allocated s)) in
      merge_at-IsMerged (allocated r) (allocated s) url ga gb

  -- Where the empty resource has no attributes, the attributes of `a` and `b` are valid, in the order of
  -- their keys, and not both are nil: `Merge` of two resources whose schema URLs differ, neither the empty
  -- string, returns the empty resource and an error, and changes nothing. Else it returns no error; the
  -- value of a key in the resource returned is that of `b`, or that of `a` where `b` does not have the
  -- key; its attributes are valid and in order again, its schema URL is the one that is not empty, or
  -- that of both, and the empty resource still has no attributes.
  pub merge-IsMerged :
      (a b : Pointer)
      → (is_nil a && is_nil b) ≡ false
      → IsGood (set_of e a)
      → IsGood (set_of e b)
      → (o : Option Bytes) × UrlRule (schema_url_of e a) (schema_url_of e b) o
        × IsMerged e a b (merge e a b) o
  merge-IsMerged a b h ga gb =
      let url = merged_url (schema_url_of e a) (schema_url_of e b) in
      (url, merged_url-UrlRule (schema_url_of e a) (schema_url_of e b), merge_rule a b h ga gb)
