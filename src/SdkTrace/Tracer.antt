-- ===== src/SdkTrace/Tracer.antt =====
-- sdk/trace/tracer.go: the span that `Start` creates, and `ValidateSpanKind` of trace/trace.go. The
-- identifiers come from the provider's generator, a parameter; `now` is the time at the start. The
-- calls of `OnStart` and the runtime trace are left out.
pub mod Frame
pub mod Child
pub mod Limits
use mathlib.Core.Option
use opentelemetry_go.Prelude.{
  ℕ, Bool, true, false, not, ◌&&◌, List, [], ◌∷◌, Option, ◌==◌, leb, if◌then◌else◌, Bytes,
}
use opentelemetry_go.Attribute.{KeyValue}
use opentelemetry_go.Trace.Id.{trace_id_is_valid, with_sampled}
use opentelemetry_go.Trace.SpanContext.{SpanContext, zero_span_context, new_span_context}
use opentelemetry_go.Trace.Context.{Context, context_with_span_context, span_context_from_context}
use opentelemetry_go.SdkTrace.EvictedQueue.{new_evicted_queue}
use opentelemetry_go.SdkTrace.Sampling.{
  SamplingDecision, drop, record_only, record_and_sample, SamplingResult, Sampler, should_sample,
}
use opentelemetry_go.SdkTrace.Span.{SpanLimits, RecordingSpan}
use opentelemetry_go.SdkTrace.Span.Attrs.{set_attributes}
use opentelemetry_go.SdkTrace.Span.Methods.{add_child, add_link}

-- `trace.SpanConfig`; a link is its span context and attributes
pub record SpanConfig : Type 0 where
  pub attributes : List KeyValue
  pub timestamp : ℕ
  pub links : List (SpanContext × List KeyValue)
  pub new_root : Bool
  pub span_kind : ℕ

-- `IDGenerator`
pub record IdGenerator : Type 0 where
  pub new_ids : Context → Bytes × Bytes
  pub new_span_id : Context → Bytes → Bytes

-- What the tracer uses of its provider.
pub record Provider : Type 0 where
  pub sampler : Sampler
  pub id_generator : IdGenerator
  pub span_limits : SpanLimits

-- `nonRecordingSpan` or `recordingSpan`
pub data Span : Type 0 where
  non_recording_span : SpanContext → Span
  recording_span : RecordingSpan → Span

-- `isRecording`
unfoldable pub is_recording_decision : SamplingDecision → Bool
is_recording_decision drop = false
is_recording_decision record_only = true
is_recording_decision record_and_sample = true

-- `isSampled`
unfoldable pub is_sampled_decision : SamplingDecision → Bool
is_sampled_decision drop = false
is_sampled_decision record_only = false
is_sampled_decision record_and_sample = true

-- `ValidateSpanKind`; the kinds from 1 to 5 are valid
unfoldable pub validate_span_kind : ℕ → ℕ
validate_span_kind kind = if leb 1 kind && leb kind 5 then kind else 1

unfoldable pub add_links : RecordingSpan → List (SpanContext × List KeyValue) → RecordingSpan
add_links s [] = s
add_links s ((span_context, attributes) ∷ links) =
    add_links (add_link s span_context attributes) links

-- `newRecordingSpan`
unfoldable pub new_recording_span :
    SpanLimits → ℕ → SpanContext → SpanContext → Bytes → SamplingResult → SpanConfig → RecordingSpan
new_recording_span limits now psc sc name sr config =
    let s : RecordingSpan = record {
      parent = psc;
      span_kind = validate_span_kind config.span_kind;
      name = name;
      start_time = if config.timestamp == 0 then now else config.timestamp;
      end_time = 0;
      status = record { code = 0; description = [] };
      child_span_count = 0;
      span_context = sc;
      attributes = [];
      dropped_attributes = 0;
      events = new_evicted_queue limits.event_count_limit;
      links = new_evicted_queue limits.link_count_limit;
      limits = limits;
    } in
    set_attributes (set_attributes (add_links s config.links) sr.attributes) config.attributes

-- The identifiers of the new span.
unfoldable pub choose_ids : IdGenerator → Context → SpanContext → Bytes × Bytes
choose_ids g ctx psc =
    if not (trace_id_is_valid psc.trace_id)
    then g.new_ids ctx
    else (psc.trace_id, g.new_span_id ctx psc.trace_id)

-- The span for a sampling result.
unfoldable pub sampled_span :
    SpanLimits → ℕ → SpanContext → Bytes × Bytes → Bytes → SpanConfig → SamplingResult → Span
sampled_span limits now psc ids name config sr =
    let sc = new_span_context (record {
      trace_id = ids.0;
      span_id = ids.1;
      trace_flags = with_sampled psc.trace_flags (is_sampled_decision sr.decision);
      trace_state = sr.tracestate;
      remote = false;
    }) in
    if not (is_recording_decision sr.decision)
    then non_recording_span sc
    else recording_span (new_recording_span limits now psc sc name sr config)

-- `newSpan`, behind the choice of the context
unfoldable pub new_child_span : Provider → ℕ → Context → SpanContext → Bytes → SpanConfig → Span
unfolding choose_ids sampled_span
new_child_span p now ctx psc name config =
    let ids = choose_ids p.id_generator ctx psc in
    sampled_span p.span_limits now psc ids name config (
      should_sample p.sampler (record {
        parent_context = ctx;
        trace_id = ids.0;
        name = name;
        kind = config.span_kind;
        attributes = config.attributes;
        links = config.links;
      }))

-- `newSpan`
unfoldable pub new_span : Provider → ℕ → Context → Bytes → SpanConfig → Span
unfolding new_child_span
new_span p now ctx name config =
    if config.new_root
    then new_child_span p now (context_with_span_context ctx zero_span_context) zero_span_context
        name config
    else new_child_span p now ctx (span_context_from_context ctx) name config

-- `SpanContext` of the span
unfoldable pub context_of : Span → SpanContext
context_of (non_recording_span sc) = sc
context_of (recording_span s) = s.span_context

-- `Start`, where the current span of the context is `parent`, if that is a recording span of this
-- package: the parent with its child counted, the context of the new span, and the span
unfoldable pub start :
    Provider
    → ℕ
    → Option RecordingSpan
    → Context
    → Bytes
    → SpanConfig
    → Option RecordingSpan × Context × Span
start p now parent ctx name config =
    let s = new_span p now ctx name config in
    (Option.map add_child parent, context_with_span_context ctx (context_of s), s)
