-- ===== src/Resource.antt =====
-- sdk/resource/resource.go and sdk/resource/auto.go: resources, how they merge, and detection. A
-- `*Resource` is nil, the address of the variable `emptyResource`, or that of a resource of its own; the
-- variable is the state, since `NewWithAttributes` writes through the pointer that `NewSchemaless`
-- returns.
pub mod Merge
pub mod Env
use opentelemetry_go.Prelude.{
  ℕ, suc, ◌+◌, Bool, true, false, ◌==◌, List, [], ◌∷◌, ◌++◌, Option, none, some, if◌then◌else◌,
  Bytes, eq_bytes, length,
}
use opentelemetry_go.Attribute.{KeyValue, is_valid_attr}
use opentelemetry_go.Attribute.Set.{Set, set_length, new_set_filtered}
use opentelemetry_go.Attribute.Iterator.{new_merge_iterator, drain_merge}

pub record Resource : Type 0 where
  pub attrs : Set
  pub schema_url : Bytes

-- `*Resource`
pub data Pointer : Type 0 where
  nil : Pointer
  empty_resource : Pointer
  allocated : Resource → Pointer

-- What a call returns, and `emptyResource` after it.
pub record Result (A : Type 0) : Type 0 where
  pub value : A
  pub empty : Resource

-- `NewSchemaless`
unfoldable pub new_schemaless : List KeyValue → Pointer
new_schemaless attrs =
    if length attrs == 0
    then empty_resource
    else let s = (new_set_filtered attrs (some is_valid_attr)).set in
      if set_length s == 0
      then empty_resource
      else allocated (record { attrs = s; schema_url = [] })

-- `resource.schemaURL = schemaURL`; through a nil pointer it panics, which does not occur
abbrev pub set_schema_url : Resource → Bytes → Pointer → Result Pointer
set_schema_url e url nil = record { value = nil; empty = e }
set_schema_url e url empty_resource = record {
  value = empty_resource;
  empty = record { attrs = e.attrs; schema_url = url };
}
set_schema_url e url (allocated r) = record {
  value = allocated (record { attrs = r.attrs; schema_url = url });
  empty = e;
}

-- `NewWithAttributes`
unfoldable pub new_with_attributes : Resource → Bytes → List KeyValue → Result Pointer
unfolding new_schemaless
new_with_attributes e url attrs = set_schema_url e url (new_schemaless attrs)

-- `Resource.Set` and `Resource.SchemaURL`
abbrev pub set_of : Resource → Pointer → Set
set_of e nil = e.attrs
set_of e empty_resource = e.attrs
set_of e (allocated r) = r.attrs

abbrev pub schema_url_of : Resource → Pointer → Bytes
schema_url_of e nil = []
schema_url_of e empty_resource = e.schema_url
schema_url_of e (allocated r) = r.schema_url

-- The schema URL of a merge, `none` where the two are in conflict.
abbrev pub merged_url : Bytes → Bytes → Option Bytes
merged_url a b =
    if eq_bytes a []
    then some b
    else if eq_bytes b []
    then some a
    else if eq_bytes a b
    then some a
    else none

-- `for mi.Next() { combine = append(combine, mi.Attribute()) }`
unfoldable pub combine : Set → Set → List KeyValue
unfolding drain_merge
combine b a = elim (drain_merge (suc (set_length b + set_length a)) (new_merge_iterator b a)) [
  | none ↦ []
  | some l ↦ l
]

-- `nil`, or `errMergeConflictSchemaURL`
pub record Merged : Type 0 where
  pub resource : Pointer
  pub conflict : Bool

merge_at : Resource → Pointer → Pointer → Option Bytes → Result Merged
merge_at e a b none = record {
  value = record { resource = empty_resource; conflict = true };
  empty = e;
}
merge_at e a b (some url) =
    let m = new_with_attributes e url (combine (set_of e b) (set_of e a)) in
    record { value = record { resource = m.value; conflict = false }; empty = m.empty }

-- `Merge`
unfoldable pub merge : Resource → Pointer → Pointer → Result Merged
unfolding merge_at
merge e nil nil = record {
  value = record { resource = empty_resource; conflict = false };
  empty = e;
}
merge e nil b = record { value = record { resource = b; conflict = false }; empty = e }
merge e a nil = record { value = record { resource = a; conflict = false }; empty = e }
merge e a b = merge_at e a b (merged_url (schema_url_of e a) (schema_url_of e b))

-- A detector: what `Detect` returns, which may have changed `emptyResource`. Its error, of a type of its
-- own, may be an `ErrPartialResource`. A nil detector is `none`.
pub record Detection (E : Type 0) : Type 0 where
  pub resource : Pointer
  pub error : Option E

module _ {E : Type 0} (is_partial : E → Bool) where
  -- The errors that `Detect` puts into one
  pub data DetectError : Type 0 where
    failed : E → DetectError
    schema_url_conflict : DetectError

  pub record Detected : Type 0 where
    pub resource : Pointer
    pub errors : List DetectError

  abbrev pub detector_errors : Option E → List DetectError
  detector_errors none = []
  detector_errors (some err) = failed err ∷ []

  -- The detector's result is not merged: its error is none, or partial.
  abbrev pub is_dropped : Option E → Bool
  is_dropped none = false
  is_dropped (some err) = if is_partial err then false else true

  -- The body of the loop, behind the call of the detector.
  unfoldable pub detect_step : Resource → Detected → Detection E → Result Detected
  unfolding merge
  detect_step e d res =
      let errors = d.errors ++ detector_errors res.error in
      let m = merge e d.resource res.resource in
      if is_dropped res.error
      then record { value = record { resource = d.resource; errors = errors }; empty = e }
      else record {
        value = record {
          resource = m.value.resource;
          errors = if m.value.conflict then errors ++ (schema_url_conflict ∷ []) else errors;
        };
        empty = m.empty;
      }

  -- The loop of `Detect`.
  unfoldable pub detect_loop :
      Resource → Detected → List (Option (Resource → Result (Detection E))) → Result Detected
  unfolding detect_step
  detect_loop e d [] = record { value = d; empty = e }
  detect_loop e d (none ∷ detectors) = detect_loop e d detectors
  detect_loop e d (some detector ∷ detectors) =
      let res = detector e in
      let next = detect_step res.empty d res.value in detect_loop next.empty next.value detectors

  -- `Detect`; the error is nil where the list is empty
  unfoldable pub detect :
      Resource → List (Option (Resource → Result (Detection E))) → Result Detected
  unfolding detect_loop
  detect e detectors = detect_loop e (record { resource = nil; errors = [] }) detectors
