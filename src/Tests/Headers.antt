-- ===== src/Tests/Headers.antt =====
-- The headers of the W3C propagator.
use opentelemetry_go.Prelude.{
  ℕ, ◌≡◌, refl, inl, true, false, [], ◌∷◌, none, some, arith, Bytes, codes,
}
use opentelemetry_go.Trace.Errors.{value_or}
use opentelemetry_go.Trace.Id.{IsId}
use opentelemetry_go.Trace.State.{TraceState, empty, parse_trace_state}
use opentelemetry_go.Trace.State.WellFormed.{IsWellFormed, parse_trace_state-IsWellFormed}
use opentelemetry_go.Trace.SpanContext.{SpanContext, zero_span_context, is_valid, IsSpanContext}
use opentelemetry_go.Trace.Context.{Context, span_context_from_context}
use opentelemetry_go.Propagation.Carrier.{map_carrier}
use opentelemetry_go.Propagation.TraceContext.{extract_headers, inject, extract}
use opentelemetry_go.Propagation.TraceContext.Grammar.{header, IsTail}
use opentelemetry_go.Propagation.TraceContext.RoundTrip.{
  written, arrived, extract-inject, extract_headers-tail,
}
use opentelemetry_go.Propagation.TraceContext.Accepted.{Outcome, extract_headers-Outcome}

abbrev one_member : TraceState
one_member = record { list = record { key = codes "k"; value = codes "v" } ∷ [] }

one_member_ok : IsWellFormed one_member
unfolding opentelemetry_go.Prelude.eq_bytes opentelemetry_go.Text.split
    opentelemetry_go.Trace.State.parse_member opentelemetry_go.Text.cut
    opentelemetry_go.Text.trim_left opentelemetry_go.Trace.State.is_key
    opentelemetry_go.Trace.State.is_value opentelemetry_go.Text.trim_right
    opentelemetry_go.Trace.State.is_found
one_member_ok =
    parse_trace_state-IsWellFormed (codes "k=v") one_member (unfold parse_trace_state in refl)

abbrev local_span : SpanContext
local_span = record {
  trace_id = 1 ∷ 0 ∷ 0 ∷ 0 ∷ 0 ∷ 0 ∷ 0 ∷ 0 ∷ 0 ∷ 0 ∷ 0 ∷ 0 ∷ 0 ∷ 0 ∷ 0 ∷ 255 ∷ [];
  span_id = 0 ∷ 0 ∷ 0 ∷ 0 ∷ 0 ∷ 0 ∷ 0 ∷ 171 ∷ [];
  trace_flags = 3;
  trace_state = one_member;
  remote = false;
}

local_span_ok : IsSpanContext local_span
local_span_ok = record {
  trace_id_ok = record { long = refl; bytes = omega arith };
  span_id_ok = record { long = refl; bytes = omega arith };
  flags_ok = omega arith;
  state_ok = one_member_ok;
}

abbrev with_local_span : Context
with_local_span = record { current_span = some local_span }

extract-inject_example :
    extract map_carrier (record { current_span = none }) (inject map_carrier with_local_span [])
    ≡ record { current_span = some (arrived local_span) }
unfolding span_context_from_context opentelemetry_go.Trace.Id.trace_id_is_valid
    opentelemetry_go.Prelude.eq_bytes opentelemetry_go.Trace.Id.span_id_is_valid
extract-inject_example =
    extract-inject map_carrier with_local_span (record { current_span = none }) [] local_span_ok
      (unfold is_valid in refl) (inl (unfold opentelemetry_go.Propagation.Carrier.map_get in refl))

-- Version 00 with the flags 02 and more behind them.
extract_headers-tail_example :
    extract_headers (header (written 0 2 local_span) (codes "-more")) (codes "k=v")
    ≡ record local_span {
      trace_flags = 0;
      trace_state = value_or empty (parse_trace_state (codes "k=v"));
      remote = true;
    }
unfolding opentelemetry_go.Trace.Id.trace_id_is_valid opentelemetry_go.Prelude.eq_bytes
    opentelemetry_go.Trace.Id.span_id_is_valid
extract_headers-tail_example =
    extract_headers-tail local_span local_span_ok (unfold is_valid in refl) 0 2 (codes "-more")
      (codes "k=v") (omega arith) (omega arith) (λ z. omega arith)
      (IsTail.behind_dash (codes "more") (ground arith))

-- With a newline it is refused.
newline_refused :
    extract_headers
      (codes "00-010000000000000000000000000000ff-00000000000000ab-01-a\nb")
      (codes "")
    ≡ zero_span_context
unfolding extract_headers opentelemetry_go.Prelude.eq_bytes
    opentelemetry_go.Propagation.TraceContext.match_traceparent
    opentelemetry_go.Propagation.TraceContext.hex_field_dash
    opentelemetry_go.Propagation.TraceContext.hex_field opentelemetry_go.Hex.is_lower_hex
    opentelemetry_go.Propagation.TraceContext.dash opentelemetry_go.Propagation.TraceContext.is_tail
newline_refused = refl

extract_headers-Outcome_example :
    Outcome (codes "00-010000000000000000000000000000ff-00000000000000ab-01") (codes "k=v") (
      extract_headers
        (codes "00-010000000000000000000000000000ff-00000000000000ab-01")
        (codes "k=v"))
extract_headers-Outcome_example =
    extract_headers-Outcome (codes "00-010000000000000000000000000000ff-00000000000000ab-01")
      (codes "k=v")
