-- ===== src/SdkTrace/Span/Attrs.antt =====
-- The attributes of a recording span: `SetAttributes` and the functions that it calls, and
-- `dedupeAttrs`. In the source `dedupeAttrsFromRecord` writes into the slice that it reads, never
-- before the place that it has read.
pub mod Dedupe
pub mod Limit
pub mod Room
pub mod AtLimit
pub mod Frame
use opentelemetry_go.Prelude.{
  ℕ, ◌+◌, ◌-◌, Bool, true, false, not, ◌&&◌, List, [], ◌∷◌, ◌++◌, Option, none, some, map, ltb, leb,
  if◌then◌else◌, Bytes, eq_bytes, length, set, take,
}
use opentelemetry_go.Prelude.Int.{ℤ, pos, negsuc, is_zero, is_positive, exceeds}
use opentelemetry_go.Attribute.{Value, string, string_slice, KeyValue, is_valid_attr}
use opentelemetry_go.SdkTrace.Span.{RecordingSpan, is_recording}

-- `v[:limit]` of a longer string
abbrev pub cut_string : ℕ → Bytes → Bytes
cut_string limit v = if ltb limit (length v) then take limit v else v

unfoldable cut_value : ℕ → Value → Value
cut_value limit (string v) = string (cut_string limit v)
cut_value limit (string_slice vs) = string_slice (map (cut_string limit) vs)
cut_value limit v = v

-- `truncateAttr`
unfoldable pub truncate_attr : ℤ → KeyValue → KeyValue
unfolding cut_value
truncate_attr (negsuc n) attr = attr
truncate_attr (pos limit) attr = record attr { value = cut_value limit attr.value }

-- A Go map from keys to indices; an entry in front hides one behind it.
abbrev pub Indices : Type 0
Indices = List (Bytes × ℕ)

-- `idx, ok := exists[key]`
unfoldable pub index_of : Bytes → Indices → Option ℕ
index_of key [] = none
index_of key ((k, i) ∷ m) = if eq_bytes k key then some i else index_of key m

-- The variables of the loop of `dedupeAttrsFromRecord`.
pub record Unique : Type 0 where
  pub unique : List KeyValue
  pub exists : Indices

dedupe_at : Unique → KeyValue → Option ℕ → Unique
dedupe_at u a (some idx) = record u { unique = set u.unique idx a }
dedupe_at u a none = record {
  unique = u.unique ++ (a ∷ []);
  exists = (a.key, length u.unique) ∷ u.exists;
}

-- The body of the loop.
unfoldable pub dedupe_step : Unique → KeyValue → Unique
unfolding dedupe_at
dedupe_step u a = dedupe_at u a (index_of a.key u.exists)

unfoldable pub dedupe_loop : Unique → List KeyValue → Unique
dedupe_loop u [] = u
dedupe_loop u (a ∷ attrs) = dedupe_loop (dedupe_step u a) attrs

-- `dedupeAttrsFromRecord`, with an empty record: the attributes and the record
unfoldable pub dedupe_attrs_from_record : List KeyValue → Unique
unfolding dedupe_loop
dedupe_attrs_from_record attrs = dedupe_loop (record { unique = []; exists = [] }) attrs

-- `dedupeAttrs`
unfoldable pub dedupe_attrs : List KeyValue → List KeyValue
dedupe_attrs attrs = (dedupe_attrs_from_record attrs).unique

-- The variables of the loop of `addOverCapAttrs`.
pub record OverCap : Type 0 where
  pub attributes : List KeyValue
  pub dropped : ℕ
  pub exists : Indices

over_cap_at : ℕ → ℤ → OverCap → KeyValue → Option ℕ → OverCap
over_cap_at limit value_limit o a (some idx) = record o { attributes = set o.attributes idx a }
over_cap_at limit value_limit o a none =
    if leb limit (length o.attributes) then record o { dropped = o.dropped + 1 } else record o {
      attributes = o.attributes ++ (truncate_attr value_limit a ∷ []);
      exists = (a.key, length o.attributes) ∷ o.exists;
    }

-- The body of the loop.
unfoldable pub over_cap_step : ℕ → ℤ → OverCap → KeyValue → OverCap
unfolding over_cap_at
over_cap_step limit value_limit o a =
    if not (is_valid_attr a)
    then record o { dropped = o.dropped + 1 }
    else over_cap_at limit value_limit o a (index_of a.key o.exists)

unfoldable pub over_cap_loop : ℕ → ℤ → OverCap → List KeyValue → OverCap
over_cap_loop limit value_limit o [] = o
over_cap_loop limit value_limit o (a ∷ attrs) =
    over_cap_loop limit value_limit (over_cap_step limit value_limit o a) attrs

-- `addOverCapAttrs`, for a positive limit
unfoldable pub add_over_cap_attrs : RecordingSpan → ℕ → List KeyValue → RecordingSpan
unfolding over_cap_loop
add_over_cap_attrs s limit attrs =
    let u = dedupe_attrs_from_record s.attributes in
    let o =
      over_cap_loop limit s.limits.attribute_value_length_limit
        (record { attributes = u.unique; dropped = s.dropped_attributes; exists = u.exists })
        attrs in
    record s { attributes = o.attributes; dropped_attributes = o.dropped }

-- The body of the loop of `SetAttributes`.
unfoldable pub append_attr : RecordingSpan → KeyValue → RecordingSpan
append_attr s a =
    if not (is_valid_attr a)
    then record s { dropped_attributes = s.dropped_attributes + 1 }
    else record s {
      attributes = s.attributes ++ (truncate_attr s.limits.attribute_value_length_limit a ∷ []);
    }

unfoldable pub append_attrs : RecordingSpan → List KeyValue → RecordingSpan
append_attrs s [] = s
append_attrs s (a ∷ attrs) = append_attrs (append_attr s a) attrs

-- What follows the test for a limit of 0: a negative limit is none.
set_limited : ℤ → RecordingSpan → List KeyValue → RecordingSpan
set_limited (negsuc n) s attrs = append_attrs s attrs
set_limited (pos limit) s attrs =
    if ltb 0 limit && ltb limit (length s.attributes + length attrs)
    then add_over_cap_attrs s limit attrs
    else append_attrs s attrs

-- `SetAttributes`
unfoldable pub set_attributes : RecordingSpan → List KeyValue → RecordingSpan
unfolding set_limited
set_attributes s attrs =
    if not (is_recording s)
    then s
    else let limit = s.limits.attribute_count_limit in
      if is_zero limit
      then record s { dropped_attributes = s.dropped_attributes + length attrs }
      else set_limited limit s attrs
