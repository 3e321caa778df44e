-- ===== src/Trace/SpanContext.antt =====
-- `SpanContextConfig` and `SpanContext` of trace/trace.go. The fields of a `SpanContext` are not
-- exported: its accessors are the fields of the record here.
pub mod Equality
use opentelemetry_go.Prelude.{ℕ, Bool, true, false, ◌&&◌, ◌==◌, Bytes, eq_bytes, ◌<◌}
use opentelemetry_go.Trace.Id.{
  nil_trace_id, nil_span_id, IsId, trace_id_is_valid, span_id_is_valid, is_sampled,
}
use opentelemetry_go.Trace.State.{TraceState, empty, to_string}
use opentelemetry_go.Trace.State.WellFormed.{IsWellFormed}

pub record SpanContextConfig : Type 0 where
  pub trace_id : Bytes
  pub span_id : Bytes
  pub trace_flags : ℕ
  pub trace_state : TraceState
  pub remote : Bool

pub record SpanContext : Type 0 where
  pub trace_id : Bytes
  pub span_id : Bytes
  pub trace_flags : ℕ
  pub trace_state : TraceState
  pub remote : Bool

-- `SpanContext{}`
abbrev pub zero_span_context : SpanContext
zero_span_context = record {
  trace_id = nil_trace_id;
  span_id = nil_span_id;
  trace_flags = 0;
  trace_state = empty;
  remote = false;
}

-- `NewSpanContext`
abbrev pub new_span_context : SpanContextConfig → SpanContext
new_span_context config = record {
  trace_id = config.trace_id;
  span_id = config.span_id;
  trace_flags = config.trace_flags;
  trace_state = config.trace_state;
  remote = config.remote;
}

-- `SpanContext.HasTraceID`
abbrev pub has_trace_id : SpanContext → Bool
has_trace_id sc = trace_id_is_valid sc.trace_id

-- `SpanContext.HasSpanID`
abbrev pub has_span_id : SpanContext → Bool
has_span_id sc = span_id_is_valid sc.span_id

-- `SpanContext.IsValid`
unfoldable pub is_valid : SpanContext → Bool
is_valid sc = has_trace_id sc && has_span_id sc

-- `SpanContext.IsSampled`
abbrev pub is_sampled_context : SpanContext → Bool
is_sampled_context sc = is_sampled sc.trace_flags

-- `SpanContext.WithRemote`
abbrev pub with_remote : SpanContext → Bool → SpanContext
with_remote sc remote = record sc { remote = remote }

-- `SpanContext.WithTraceID`
abbrev pub with_trace_id : SpanContext → Bytes → SpanContext
with_trace_id sc trace_id = record sc { trace_id = trace_id }

-- `SpanContext.WithSpanID`
abbrev pub with_span_id : SpanContext → Bytes → SpanContext
with_span_id sc span_id = record sc { span_id = span_id }

-- `SpanContext.WithTraceFlags`
abbrev pub with_trace_flags : SpanContext → ℕ → SpanContext
with_trace_flags sc flags = record sc { trace_flags = flags }

-- `SpanContext.WithTraceState`
abbrev pub with_trace_state : SpanContext → TraceState → SpanContext
with_trace_state sc state = record sc { trace_state = state }

eq_bool : Bool → Bool → Bool
eq_bool true b = b
eq_bool false true = false
eq_bool false false = true

-- `SpanContext.Equal`
unfoldable pub equal : SpanContext → SpanContext → Bool
unfolding eq_bool
equal sc other =
    eq_bytes sc.trace_id other.trace_id
    && eq_bytes sc.span_id other.span_id
    && sc.trace_flags == other.trace_flags
    && eq_bytes (to_string sc.trace_state) (to_string other.trace_state)
    && eq_bool sc.remote other.remote

-- What the Go types guarantee of a span context, and the parser or `Insert` of its trace state.
pub record IsSpanContext (sc : SpanContext) : Type 0 where
  pub trace_id_ok : IsId 16 sc.trace_id
  pub span_id_ok : IsId 8 sc.span_id
  pub flags_ok : sc.trace_flags < 256
  pub state_ok : IsWellFormed sc.trace_state
