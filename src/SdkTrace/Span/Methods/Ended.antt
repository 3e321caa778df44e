-- ===== src/SdkTrace/Span/Methods/Ended.antt =====
-- The methods of a span that has ended change nothing, and `End` ends a span once.
use opentelemetry_go.Prelude.{
  ℕ, ◌≡◌, refl, ap, ◌∙◌, Bool, true, false, List, [], ◌∷◌, Option, none, some, ◌==◌, if◌then◌else◌,
  arith, Bytes,
}
use opentelemetry_go.Attribute.{KeyValue}
use opentelemetry_go.Trace.SpanContext.{SpanContext}
use opentelemetry_go.SdkTrace.Span.{RecordingSpan, Snapshot, is_recording}
use opentelemetry_go.SdkTrace.Span.Attrs.{set_attributes}
use opentelemetry_go.SdkTrace.Span.Methods.{
  set_status, set_name, add_child, EventConfig, add_event, Failure, record_error, add_link,
  snapshot, EndConfig, record_panic, end_span,
}

-- The calls that a program makes on a span, and the tracer's `addChild`.
pub data Call : Type 0 where
  call_set_status : ℕ → Bytes → Call
  call_set_name : Bytes → Call
  call_add_child : Call
  call_set_attributes : List KeyValue → Call
  call_add_event : Bytes → EventConfig → Call
  call_record_error : Option Failure → EventConfig → Call
  call_add_link : SpanContext → List KeyValue → Call
  call_end : EndConfig → Option Failure → Bool → Call

unfoldable pub run : RecordingSpan → Call → RecordingSpan
run s (call_set_status code description) = set_status s code description
run s (call_set_name name) = set_name s name
run s call_add_child = add_child s
run s (call_set_attributes attrs) = set_attributes s attrs
run s (call_add_event name c) = add_event s name c
run s (call_record_error e c) = record_error s e c
run s (call_add_link span_context attributes) = add_link s span_context attributes
run s (call_end c recovered has_processors) = (end_span s c recovered has_processors).0

unfoldable pub run_all : RecordingSpan → List Call → RecordingSpan
run_all s [] = s
run_all s (c ∷ cs) = run_all (run s c) cs

-- The end time that `End` is told: the timestamp of the options, or the monotonic end time.
abbrev pub snapshot_end_time : Option Snapshot → Option ℕ
snapshot_end_time none = none
snapshot_end_time (some snap) = some snap.end_time

abbrev pub chosen_time : EndConfig → ℕ
chosen_time c = if c.timestamp == 0 then c.et else c.timestamp

end_time-snapshot :
    (s : RecordingSpan)
    → ((snapshot s).0.end_time ≡ s.end_time) × ((snapshot s).1.end_time ≡ s.end_time)
unfolding snapshot
end_time-snapshot s = ground (arith)

stopped : (t : ℕ) → ¬ (t ≡ 0) → (t == 0) ≡ false
stopped t p = ground arith

-- `End` of a recording span at a time other than the zero time ends it: it has that end time, it
-- records no more, and what the processors are given, if there are any, has that end time too.
pub end_span-recording :
    (s : RecordingSpan) (c : EndConfig) (recovered : Option Failure) (has_processors : Bool)
    → is_recording s ≡ true
    → ¬ (chosen_time c ≡ 0)
    → let result = end_span s c recovered has_processors in
      (result.0.end_time ≡ chosen_time c)
      × (is_recording result.0 ≡ false)
      × (snapshot_end_time result.1 ≡ (if has_processors then some (chosen_time c) else none))
unfolding end_span is_recording
end_span-recording s c recovered false r p = rw r (refl, stopped (chosen_time c) p, refl)
end_span-recording s c recovered true r p = rw r (
    let (ended, copied) =
      end_time-snapshot
        (record (record_panic s c.now c.stack_trace recovered) { end_time = chosen_time c }) in
    (ended, (ap (λ t. t == 0) ended ∙ stopped (chosen_time c) p), ap some copied))
