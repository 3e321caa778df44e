-- ===== src/SdkTrace/Span.antt =====
-- sdk/trace/span.go, sdk/trace/span_limits.go, event.go, link.go and snapshot.go: the data of a
-- recording span. The children hold its methods. Each runs as one step, though the source takes
-- the span's lock for `IsRecording` and again for the change. A `time.Time` is a number, 0 the zero
-- time. The limits of the provider stand in the span; its
-- tracer, resource and runtime trace task are left out, and so are nil spans.
pub mod Attrs
pub mod Methods
use opentelemetry_go.Prelude.{ℕ, Bool, List, ◌==◌, Bytes}
use opentelemetry_go.Prelude.Int.{ℤ}
use opentelemetry_go.Attribute.{KeyValue}
use opentelemetry_go.Trace.SpanContext.{SpanContext}
use opentelemetry_go.SdkTrace.EvictedQueue.{EvictedQueue}

pub record SpanLimits : Type 0 where
  pub attribute_value_length_limit : ℤ
  pub attribute_count_limit : ℤ
  pub event_count_limit : ℤ
  pub link_count_limit : ℤ
  pub attribute_per_event_count_limit : ℤ
  pub attribute_per_link_count_limit : ℤ

pub record Event : Type 0 where
  pub name : Bytes
  pub attributes : List KeyValue
  pub dropped_attribute_count : ℕ
  pub time : ℕ

pub record Link : Type 0 where
  pub span_context : SpanContext
  pub attributes : List KeyValue
  pub dropped_attribute_count : ℕ

-- `Status`; the code is the number of `codes.Code`
pub record Status : Type 0 where
  pub code : ℕ
  pub description : Bytes

pub record RecordingSpan : Type 0 where
  pub parent : SpanContext
  pub span_kind : ℕ
  pub name : Bytes
  pub start_time : ℕ
  pub end_time : ℕ
  pub status : Status
  pub child_span_count : ℕ
  pub span_context : SpanContext
  pub attributes : List KeyValue
  pub dropped_attributes : ℕ
  pub events : EvictedQueue Event
  pub links : EvictedQueue Link
  -- `s.tracer.provider.spanLimits`
  pub limits : SpanLimits

-- The read-only copy that the processors are given.
pub record Snapshot : Type 0 where
  pub name : Bytes
  pub span_context : SpanContext
  pub parent : SpanContext
  pub span_kind : ℕ
  pub start_time : ℕ
  pub end_time : ℕ
  pub attributes : List KeyValue
  pub events : List Event
  pub links : List Link
  pub status : Status
  pub child_span_count : ℕ
  pub dropped_attribute_count : ℕ
  pub dropped_event_count : ℕ
  pub dropped_link_count : ℕ

-- `IsRecording`: `s.endTime.IsZero()`
unfoldable pub is_recording : RecordingSpan → Bool
is_recording s = s.end_time == 0
