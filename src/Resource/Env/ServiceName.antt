-- ===== src/Resource/Env/ServiceName.antt =====
-- The service name of its own variable takes precedence.
use mathlib.Core.Path.{subst}
use opentelemetry_go.Prelude.{
  ◌≡◌, refl, sym, ◌∙◌, Bool, true, false, ◌&&◌, ◌==◌, inl, inr, Bool-cases, List, [], ◌∷◌, Option,
  none, some, arith, if◌then◌else◌, Bytes, codes, eq_bytes, length,
}
use opentelemetry_go.Text.{split}
use opentelemetry_go.Text.Space.{trim_space}
use opentelemetry_go.Attribute.{Value, string, KeyValue, is_valid_attr}
use opentelemetry_go.Attribute.Lookup.{or_else}
use opentelemetry_go.Attribute.Set.{
  new_set_filtered, stable_sort, filter_set, filter_loop, filter_step,
}
use opentelemetry_go.Resource.{
  Resource, Pointer, nil, empty_resource, allocated, Result, new_schemaless, set_schema_url,
  new_with_attributes, set_of, schema_url_of, merge, Merged,
}
use opentelemetry_go.Resource.Merge.{
  IsGood, UrlRule, IsMerged, value_of, is_nil, new_with_attributes-IsMade, merge-IsMerged,
}
use opentelemetry_go.Resource.Env.{
  read_pairs, construct_ot_resources, service_name, detect_from_env,
}

abbrev service_attr : Bytes → KeyValue
service_attr s = record { key = codes "service.name"; value = string s }

new_schemaless-service :
    (s : Bytes)
    → new_schemaless (service_attr s ∷ [])
      ≡ allocated (record { attrs = record { equivalent = service_attr s ∷ [] }; schema_url = [] })
unfolding new_schemaless new_set_filtered filter_set filter_loop filter_step stable_sort
    is_valid_attr
new_schemaless-service s = refl

or_else-if :
    (b : Bool) (v : Value) (o : Option Value)
    → or_else (if b then some v else none) o ≡ (if b then some v else o)
or_else-if true v o = refl
or_else-if false v o = refl

same_set :
    (e : Resource) (url : Bytes) (r : Pointer)
    → (let m = set_schema_url e url r in set_of m.empty m.value) ≡ set_of e r
same_set e url nil = refl
same_set e url empty_resource = refl
same_set e url (allocated r) = refl

module _ (e : Resource) (blank : e.attrs.equivalent ≡ []) where
  new_schemaless-IsGood : (attrs : List KeyValue) → IsGood (set_of e (new_schemaless attrs))
  unfolding new_with_attributes
  new_schemaless-IsGood attrs =
      subst IsGood (same_set e [] (new_schemaless attrs))
        (new_with_attributes-IsMade e [] attrs blank).good

  empty-IsGood : IsGood e.attrs
  unfolding new_with_attributes new_schemaless
  empty-IsGood = (new_with_attributes-IsMade e [] [] blank).good

  construct-IsGood : (s : Bytes) → IsGood (set_of e (construct_ot_resources s).0)
  unfolding construct_ot_resources
  construct-IsGood s = elim (Bool-cases (length s == 0)) [
    | inl nothing ↦ rw nothing empty-IsGood
    | inr something ↦ rw something (new_schemaless-IsGood (read_pairs (split b',' s)).attrs)
  ]

  -- The resource that has the service name only.
  abbrev named : Bytes → Resource
  named s = record { attrs = record { equivalent = service_attr s ∷ [] }; schema_url = [] }

  named-IsGood : (s : Bytes) → IsGood (named s).attrs
  named-IsGood s =
      subst (λ r. IsGood (set_of e r)) (new_schemaless-service s)
        (new_schemaless-IsGood (service_attr s ∷ []))

  -- What a merge with it promises.
  abbrev Takes : Bytes → Pointer → Result Merged → Type 0
  Takes s a m =
      (m.value.conflict ≡ false)
      × ((k : Bytes)
          → value_of m.empty m.value.resource k
            ≡ (if eq_bytes (codes "service.name") k then some (string s) else value_of e a k))

  merge-named :
      (s : Bytes) (a : Pointer) → IsGood (set_of e a) → Takes s a (merge e a (allocated (named s)))
  merge-named s a g =
      let some_there : (is_nil a && false) ≡ false = ground arith in
      let (o, rule, merged) =
        merge-IsMerged e blank a (allocated (named s)) some_there g (named-IsGood s) in
      takes o rule merged
    where
      takes :
          (o : Option Bytes)
          → UrlRule (schema_url_of e a) [] o
          → IsMerged e a (allocated (named s)) (merge e a (allocated (named s))) o
          → Takes s a (merge e a (allocated (named s)))
      takes none (first, second, differ) merged = absurd (second refl)
      takes (some url) rule (fine, made) = (fine, λ k. made.values_are k ∙ chosen k)
        where
          chosen :
              (k : Bytes)
              → or_else (value_of e (allocated (named s)) k) (value_of e a k)
                ≡ (if eq_bytes (codes "service.name") k then some (string s) else value_of e a k)
          chosen k = or_else-if (eq_bytes (codes "service.name") k) (string s) (value_of e a k)

  -- Where OTEL_SERVICE_NAME has a name, besides white space, and the empty resource has no attributes:
  -- the merge gives no conflict, the value of `service.name` is that name, and every other key has the
  -- value that OTEL_RESOURCE_ATTRIBUTES gives it.
  pub detect_from_env-service_name :
      (attributes service : Bytes)
      → (length (trim_space service) == 0) ≡ false
      → (let m = detect_from_env e attributes service in
          (m.value.conflict ≡ false)
          × ((k : Bytes)
              → value_of m.empty m.value.resource k ≡ (
                  if eq_bytes (codes "service.name") k
                  then some (string (trim_space service))
                  else value_of e (construct_ot_resources (trim_space attributes)).0 k)))
  unfolding detect_from_env
  detect_from_env-service_name attributes service h =
      let s = trim_space service in
      let r2 = (construct_ot_resources (trim_space attributes)).0 in
      let b_is : service_name s ≡ allocated (named s) = rw h (new_schemaless-service s) in
      let test : ((length (trim_space attributes) == 0) && (length s == 0)) ≡ false =
        ground (arith, h) in
      rw test (
        subst (λ b. Takes s r2 (merge e r2 b)) (sym b_is)
          (merge-named s r2 (construct-IsGood (trim_space attributes))))
