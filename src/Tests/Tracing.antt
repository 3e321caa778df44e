-- ===== src/Tests/Tracing.antt =====
-- Trace identifiers, trace states and span contexts.
use opentelemetry_go.Prelude.{
  ◌≡◌, refl, ◌↔◌, true, false, not, [], ◌∷◌, none, some, if◌then◌else◌, Bytes, codes, eq_bytes,
}
use opentelemetry_go.Trace.Errors.{ok, err_nil_trace_id, err_invalid_key, err_invalid_value}
use opentelemetry_go.Trace.Id.{
  IsId, trace_id_is_valid, span_id_is_valid, id_string, trace_id_from_hex, span_id_from_hex,
}
use opentelemetry_go.Trace.Id.Parse.{
  trace_id_from_hex_iff, RefusedTraceId, trace_id_from_hex_refused,
}
use opentelemetry_go.Trace.State.{
  TraceState, is_key, is_value, parse_trace_state, to_string, get, delete, insert,
}
use opentelemetry_go.Trace.State.WellFormed.{IsWellFormed, parse_trace_state-IsWellFormed}
use opentelemetry_go.Trace.State.RoundTrip.{parse_trace_state-to_string}
use opentelemetry_go.Trace.State.Edit.{inserted, insert_lem, insert-IsWellFormed}
use opentelemetry_go.Trace.SpanContext.{SpanContext, equal}
use opentelemetry_go.Trace.SpanContext.Equality.{equal_iff}

abbrev trace_id : Bytes
trace_id = 1 ∷ 0 ∷ 0 ∷ 0 ∷ 0 ∷ 0 ∷ 0 ∷ 0 ∷ 0 ∷ 0 ∷ 0 ∷ 0 ∷ 0 ∷ 0 ∷ 0 ∷ 255 ∷ []

abbrev span_id : Bytes
span_id = 0 ∷ 0 ∷ 0 ∷ 0 ∷ 0 ∷ 0 ∷ 0 ∷ 171 ∷ []

trace_id_from_hex_iff_example :
    (trace_id_from_hex (codes "010000000000000000000000000000ff") ≡ ok trace_id) ↔ (
      IsId 16 trace_id
      × (trace_id_is_valid trace_id ≡ true)
      × (id_string trace_id ≡ codes "010000000000000000000000000000ff"))
trace_id_from_hex_iff_example =
    trace_id_from_hex_iff (codes "010000000000000000000000000000ff") trace_id

trace_id_from_hex_refused_example :
    RefusedTraceId (codes "00000000000000000000000000000000") err_nil_trace_id
unfolding opentelemetry_go.Trace.Id.decode_hex opentelemetry_go.Hex.is_lower_hex
    opentelemetry_go.Hex.decode_string eq_bytes opentelemetry_go.Text.copy
trace_id_from_hex_refused_example =
    trace_id_from_hex_refused (codes "00000000000000000000000000000000") err_nil_trace_id
      (unfold trace_id_from_hex in refl)

abbrev two_members : TraceState
two_members = record {
  list =
      record { key = codes "a"; value = codes "1" }
      ∷ record { key = codes "b@c"; value = codes "x y" }
      ∷ [];
}

two_members_parsed : parse_trace_state (codes "a=1 , b@c=x y,") ≡ ok two_members
unfolding parse_trace_state eq_bytes opentelemetry_go.Text.split
    opentelemetry_go.Trace.State.parse_member opentelemetry_go.Text.cut
    opentelemetry_go.Text.trim_left is_key is_value opentelemetry_go.Text.trim_right
    opentelemetry_go.Trace.State.is_found opentelemetry_go.Trace.State.is_key_char
two_members_parsed = refl

parse_trace_state-IsWellFormed_example : IsWellFormed two_members
parse_trace_state-IsWellFormed_example =
    parse_trace_state-IsWellFormed (codes "a=1 , b@c=x y,") two_members two_members_parsed

two_members_ok : IsWellFormed two_members
unfolding eq_bytes opentelemetry_go.Text.split opentelemetry_go.Trace.State.parse_member
    opentelemetry_go.Text.cut opentelemetry_go.Text.trim_left is_key is_value
    opentelemetry_go.Text.trim_right opentelemetry_go.Trace.State.is_found
    opentelemetry_go.Trace.State.is_key_char
two_members_ok =
    parse_trace_state-IsWellFormed (codes "a=1,b@c=x y") two_members
      (unfold parse_trace_state in refl)

parse_trace_state-to_string_example : parse_trace_state (to_string two_members) ≡ ok two_members
parse_trace_state-to_string_example = parse_trace_state-to_string two_members two_members_ok

insert_lem_example : insert two_members (codes "b@c") (codes "2") ≡ (
    if not (is_key (codes "b@c"))
    then (two_members, some err_invalid_key)
    else if not (is_value (codes "2"))
    then (two_members, some err_invalid_value)
    else (inserted two_members (record { key = codes "b@c"; value = codes "2" }), none))
insert_lem_example = insert_lem two_members (codes "b@c") (codes "2") two_members_ok

insert-IsWellFormed_example : IsWellFormed (insert two_members (codes "B") (codes "2")).0
insert-IsWellFormed_example = insert-IsWellFormed two_members (codes "B") (codes "2") two_members_ok

abbrev example_context : SpanContext
example_context = record {
  trace_id = trace_id;
  span_id = span_id;
  trace_flags = 3;
  trace_state = two_members;
  remote = false;
}

equal_iff_example :
    (equal example_context (record example_context { remote = true }) ≡ true)
    ↔ (example_context ≡ record example_context { remote = true })
equal_iff_example =
    equal_iff example_context (record example_context { remote = true }) two_members_ok
      two_members_ok
