-- ===== src/SdkTrace/Span/Methods.antt =====
-- The methods of a recording span, but for `SetAttributes`, and its snapshot.
pub mod Ended
pub mod Counts
use opentelemetry_go.Prelude.{
  ℕ, ◌+◌, ◌-◌, Bool, true, false, not, ◌&&◌, ◌||◌, List, [], ◌∷◌, ◌++◌, Option, none, some, ltb,
  ◌==◌, if◌then◌else◌, Bytes, codes, length, take,
}
use opentelemetry_go.Prelude.Int.{ℤ, pos, negsuc}
use opentelemetry_go.Attribute.{string, KeyValue}
use opentelemetry_go.Trace.SpanContext.{SpanContext, is_valid}
use opentelemetry_go.SdkTrace.EvictedQueue.{EvictedQueue, add}
use opentelemetry_go.SdkTrace.Span.{Event, Link, Status, RecordingSpan, Snapshot, is_recording}
use opentelemetry_go.SdkTrace.Span.Attrs.{dedupe_attrs}

-- `codes.Error`
abbrev pub error_code : ℕ
error_code = 1

-- `SetStatus`
unfoldable pub set_status : RecordingSpan → ℕ → Bytes → RecordingSpan
set_status s code description = if not (is_recording s) then s else record s {
  status = record { code = code; description = if code == error_code then description else [] };
}

-- `SetName`
unfoldable pub set_name : RecordingSpan → Bytes → RecordingSpan
set_name s name = if not (is_recording s) then s else record s { name = name }

-- `addChild`
unfoldable pub add_child : RecordingSpan → RecordingSpan
add_child s =
    if not (is_recording s) then s else record s { child_span_count = s.child_span_count + 1 }

-- The attributes within the limit of an event or link, and how many are dropped.
unfoldable pub limit_attributes : ℤ → List KeyValue → List KeyValue × ℕ
limit_attributes (negsuc n) attrs = (attrs, 0)
limit_attributes (pos limit) attrs =
    if limit == 0
    then ([], length attrs)
    else if ltb 0 limit && ltb limit (length attrs)
    then (take limit attrs, length attrs - limit)
    else (attrs, 0)

-- `trace.NewEventConfig` of the options: the attributes, the time (now by default), and whether a
-- stack trace is asked for
pub record EventConfig : Type 0 where
  pub attributes : List KeyValue
  pub timestamp : ℕ
  pub stack_trace : Bool

-- `addEvent`
unfoldable pub add_event_unchecked : RecordingSpan → Bytes → EventConfig → RecordingSpan
add_event_unchecked s name c =
    let (kept, dropped) = limit_attributes s.limits.attribute_per_event_count_limit c.attributes in
    record s {
      events = add s.events (record {
        name = name;
        attributes = kept;
        dropped_attribute_count = dropped;
        time = c.timestamp;
      });
    }

-- `AddEvent`
unfoldable pub add_event : RecordingSpan → Bytes → EventConfig → RecordingSpan
add_event s name c = if not (is_recording s) then s else add_event_unchecked s name c

-- An error or a recovered value: `typeStr` of it, its text, and the text of the stack.
pub record Failure : Type 0 where
  pub type_str : Bytes
  pub message : Bytes
  pub stack : Bytes

-- The options that `RecordError` and `End` add to those given.
unfoldable pub with_failure : EventConfig → Failure → EventConfig
with_failure c e = record c {
  attributes =
      c.attributes
      ++ (record { key = codes "exception.type"; value = string e.type_str }
          ∷ record { key = codes "exception.message"; value = string e.message }
          ∷ (if c.stack_trace
              then record { key = codes "exception.stacktrace"; value = string e.stack } ∷ []
              else []));
}

-- `RecordError`; `none` is a nil error
unfoldable pub record_error : RecordingSpan → Option Failure → EventConfig → RecordingSpan
record_error s none c = s
record_error s (some e) c =
    if not (is_recording s) then s else add_event_unchecked s (codes "exception") (with_failure c e)

-- `addLink`; the link's own drop count is not set yet
unfoldable pub add_link : RecordingSpan → SpanContext → List KeyValue → RecordingSpan
add_link s span_context attributes =
    if not (is_recording s) || not (is_valid span_context)
    then s
    else let (kept, dropped) =
        limit_attributes s.limits.attribute_per_link_count_limit attributes in
      record s {
        links = add s.links (record {
          span_context = span_context;
          attributes = kept;
          dropped_attribute_count = dropped;
        });
      }

-- `Attributes`: the attributes without duplicates, which the span keeps, whether it has ended or not
unfoldable pub span_attributes : RecordingSpan → RecordingSpan × List KeyValue
span_attributes s =
    let attributes = dedupe_attrs s.attributes in (record s { attributes = attributes }, attributes)

-- `snapshot`, of a span whose attributes are deduplicated: the counts of dropped events and links
-- are copied only where there are events, or links
snapshot_of : RecordingSpan → Snapshot
snapshot_of s = record {
  name = s.name;
  span_context = s.span_context;
  parent = s.parent;
  span_kind = s.span_kind;
  start_time = s.start_time;
  end_time = s.end_time;
  attributes = s.attributes;
  events = s.events.queue;
  links = s.links.queue;
  status = s.status;
  child_span_count = s.child_span_count;
  dropped_attribute_count = s.dropped_attributes;
  dropped_event_count = if ltb 0 (length s.events.queue) then s.events.dropped_count else 0;
  dropped_link_count = if ltb 0 (length s.links.queue) then s.links.dropped_count else 0;
}

-- `snapshot`: the span with its attributes deduplicated, and the copy
unfoldable pub snapshot : RecordingSpan → RecordingSpan × Snapshot
unfolding snapshot_of
snapshot s =
    let s' =
      if ltb 0 (length s.attributes)
      then record s { attributes = dedupe_attrs s.attributes }
      else s in
    (s', snapshot_of s')

record_panic : RecordingSpan → ℕ → Bool → Option Failure → RecordingSpan
record_panic s now stack_trace none = s
record_panic s now stack_trace (some recovered) = add_event_unchecked s (codes "exception") (
    with_failure (record { attributes = []; timestamp = now; stack_trace = stack_trace }) recovered)

-- The arguments of `End`: `MonotonicEndTime`, the time at which a panic is recorded, and of the
-- options the timestamp, 0 for none, and whether a stack trace is asked for.
pub record EndConfig : Type 0 where
  pub et : ℕ
  pub now : ℕ
  pub timestamp : ℕ
  pub stack_trace : Bool

-- `End`. The second argument is what `recover` returns. The copy is what each of the processors is
-- given; there is none where the provider has no processor.
unfoldable pub end_span :
    RecordingSpan → EndConfig → Option Failure → Bool → RecordingSpan × Option Snapshot
unfolding record_panic
end_span s c recovered has_processors =
    if not (is_recording s)
    then (s, none)
    else let told = record_panic s c.now c.stack_trace recovered in
      let ended = record told { end_time = if c.timestamp == 0 then c.et else c.timestamp } in
      if not has_processors
      then (ended, none)
      else let (s', snap) = snapshot ended in (s', some snap)
