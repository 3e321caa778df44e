-- ===== src/Resource/Env.antt =====
-- `New` of sdk/resource/resource.go, and sdk/resource/env.go: the resource of the variables
-- OTEL_RESOURCE_ATTRIBUTES and OTEL_SERVICE_NAME, whose texts are arguments.
pub mod ServiceName
use opentelemetry_go.Prelude.{
  Bool, false, ◌&&◌, ◌==◌, List, [], ◌∷◌, ◌++◌, Option, none, some, if◌then◌else◌, Bytes, codes,
  length,
}
use opentelemetry_go.Text.{split, cut}
use opentelemetry_go.Text.Space.{trim_space}
use opentelemetry_go.Attribute.{string, KeyValue}
use opentelemetry_go.Resource.{
  Resource, Pointer, nil, empty_resource, allocated, Result, new_schemaless, merge, Detection,
  schema_url_conflict, Detected, detect,
}

-- `New`, for the detectors and the schema URL that its options give
module _ {E : Type 0} (is_partial : E → Bool) where
  unfoldable pub new_resource :
      Resource
      → List (Option (Resource → Result (Detection E)))
      → Bytes
      → Result (Detected is_partial)
  unfolding detect merge
  new_resource e detectors schema_url =
      let d = detect is_partial e detectors in
      let m =
        merge d.empty d.value.resource
          (allocated (record { attrs = record { equivalent = [] }; schema_url = schema_url })) in
      record {
        value = record {
          resource = m.value.resource;
          errors =
              if m.value.conflict
              then d.value.errors ++ (schema_url_conflict ∷ [])
              else d.value.errors;
        };
        empty = m.empty;
      }

-- The loop of `constructOTResources`: the attributes, and the pairs without `=`
pub record Pairs : Type 0 where
  pub attrs : List KeyValue
  pub invalid : List Bytes

abbrev add_pair : Bytes → Option (Bytes × Bytes) → Pairs → Pairs
add_pair p none rest = record { attrs = rest.attrs; invalid = p ∷ rest.invalid }
add_pair p (some (k, v)) rest = record {
  attrs = record { key = trim_space k; value = string (trim_space v) } ∷ rest.attrs;
  invalid = rest.invalid;
}

unfoldable pub read_pairs : List Bytes → Pairs
read_pairs [] = record { attrs = []; invalid = [] }
read_pairs (p ∷ ps) = let rest = read_pairs ps in add_pair p (cut b'=' p) rest

-- `constructOTResources`: the resource, and the pairs of an error, which is an `ErrPartialResource`
unfoldable pub construct_ot_resources : Bytes → Pointer × List Bytes
unfolding read_pairs new_schemaless
construct_ot_resources s =
    let pairs = read_pairs (split b',' s) in
    if length s == 0 then (empty_resource, []) else (new_schemaless pairs.attrs, pairs.invalid)

-- What `fromEnv.Detect` returns: the pairs of the one error, and whether the merge fails
pub record FromEnv : Type 0 where
  pub resource : Pointer
  pub invalid : List Bytes
  pub conflict : Bool

abbrev service_name : Bytes → Pointer
service_name svc_name =
    if length svc_name == 0
    then nil
    else new_schemaless (record { key = codes "service.name"; value = string svc_name } ∷ [])

-- `fromEnv.Detect`, for the values of the two variables
unfoldable pub detect_from_env : Resource → Bytes → Bytes → Result FromEnv
unfolding construct_ot_resources merge
detect_from_env e resource_attributes service =
    let attrs = trim_space resource_attributes in
    let svc_name = trim_space service in
    let (r2, invalid) = construct_ot_resources attrs in
    let m = merge e r2 (service_name svc_name) in
    if length attrs == 0 && length svc_name == 0
    then record {
      value = record { resource = empty_resource; invalid = []; conflict = false };
      empty = e;
    }
    else record {
      value = record {
        resource = m.value.resource;
        invalid = invalid;
        conflict = m.value.conflict;
      };
      empty = m.empty;
    }
