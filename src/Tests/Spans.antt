-- ===== src/Tests/Spans.antt =====
-- Queues, samplers and recording spans.
use opentelemetry_go.Prelude.{
  ℕ, Bool, ltb, ◌*◌, ◌+◌, ◌-◌, ◌^◌, ◌≤◌, ◌<◌, ◌≡◌, refl, true, false, List, [], ◌∷◌, ◌++◌, none,
  some, map, arith, leb, ◌==◌, if◌then◌else◌, Bytes, codes, length, take,
}
use opentelemetry_go.Prelude
use opentelemetry_go.Prelude.Int.{ℤ, pos, negsuc}
use opentelemetry_go.Attribute.{string, KeyValue}
use opentelemetry_go.Trace.State.{empty}
use opentelemetry_go.Trace.SpanContext.{
  SpanContext, zero_span_context, is_valid, is_sampled_context,
}
use opentelemetry_go.SdkTrace.EvictedQueue.{new_evicted_queue, add_all}
use opentelemetry_go.SdkTrace.EvictedQueue.Last.{Evicted, add_all-Evicted}
use opentelemetry_go.SdkTrace.Sampling
use opentelemetry_go.SdkTrace.Sampling.{
  SamplingParameters, drop, record_and_sample, Sampler, always_on, always_off, parent_based, custom,
  decide, parent, should_sample, new_parent_based, Fractions, trace_id_ratio_based,
}
use opentelemetry_go.SdkTrace.Sampling.Parent.{parent_based-default, should_sample-tracestate}
use opentelemetry_go.SdkTrace.Sampling.Ratio.{Ordered, trace_id_ratio_based_mono}
use opentelemetry_go.SdkTrace.Span.{SpanLimits, Event, RecordingSpan, is_recording}
use opentelemetry_go.SdkTrace.Span.Attrs.{dedupe_attrs, set_attributes}
use opentelemetry_go.Attribute.Lookup.{DistinctKeys, first_value, last_value, or_else}
use opentelemetry_go.SdkTrace.Span.Attrs.Dedupe.{dedupe_attrs-last_value}
use opentelemetry_go.SdkTrace.Span.Attrs.Limit.{valid_attrs, set_attributes-within}
use opentelemetry_go.SdkTrace.Span.Attrs.Room.{kept, set_attributes-room}
use opentelemetry_go.SdkTrace.Span.Attrs.AtLimit.{set_attributes-update}
use opentelemetry_go.SdkTrace.Span.Methods.{
  EventConfig, add_event_unchecked, snapshot, EndConfig, end_span,
}
use opentelemetry_go.SdkTrace.Span.Methods.Ended.{
  Call, call_set_name, call_end, call_add_child, chosen_time, snapshot_end_time, end_span-recording,
}
use opentelemetry_go.SdkTrace.Span.Methods.Counts.{snapshot-events}

add_all-Evicted_example :
    Evicted {A = ℕ} (pos 2) (1 ∷ 2 ∷ 3 ∷ []) (add_all (new_evicted_queue (pos 2)) (1 ∷ 2 ∷ 3 ∷ []))
add_all-Evicted_example = add_all-Evicted (pos 2) (1 ∷ 2 ∷ 3 ∷ [])

abbrev sampled_parent : SpanContext
sampled_parent = record {
  trace_id = 1 ∷ 0 ∷ 0 ∷ 0 ∷ 0 ∷ 0 ∷ 0 ∷ 0 ∷ 0 ∷ 0 ∷ 0 ∷ 0 ∷ 0 ∷ 0 ∷ 0 ∷ 255 ∷ [];
  span_id = 0 ∷ 0 ∷ 0 ∷ 0 ∷ 0 ∷ 0 ∷ 0 ∷ 171 ∷ [];
  trace_flags = 1;
  trace_state = empty;
  remote = true;
}

abbrev parameters : SamplingParameters
parameters = record {
  parent_context = record { current_span = some sampled_parent };
  trace_id = sampled_parent.trace_id;
  name = codes "request";
  kind = 1;
  attributes = [];
  links = [];
}

parent_based-default_example :
    (should_sample (new_parent_based always_off []) parameters).decision
    ≡ (if is_sampled_context (parent parameters) then record_and_sample else Sampling.drop)
unfolding opentelemetry_go.Trace.Id.trace_id_is_valid Prelude.eq_bytes
    opentelemetry_go.Trace.Id.span_id_is_valid
parent_based-default_example =
    parent_based-default always_off parameters
      (unfold is_valid opentelemetry_go.Trace.Context.span_context_from_context in refl)

abbrev nested : Sampler
nested =
    parent_based always_on (custom (decide record_and_sample) (codes "mine")) always_off always_on
      always_off

should_sample-tracestate_example :
    (should_sample nested parameters).tracestate ≡ (parent parameters).trace_state
should_sample-tracestate_example =
    should_sample-tracestate nested parameters (tt, (λ p. refl), tt, tt, tt)

abbrev at_least : ℤ → Bool
at_least (pos n) = leb 1024 n
at_least (negsuc n) = false

abbrev at_most : ℤ → Bool
at_most (pos n) = n == 0
at_most (negsuc n) = true

abbrev convert : ℤ → ℕ
convert (pos n) = if ltb n 1024 then n * 2 ^ 53 else 7
convert (negsuc n) = 2 ^ 63 + n

-- Fractions of 1024. The conversion is of no use below 0 and from 1 on.
abbrev parts : Fractions
parts = record {
  Fraction = ℤ;
  ge_one = at_least;
  le_zero = at_most;
  zero = pos 0;
  scaled = convert;
  shown = λ n. codes "TraceIDRatioBased";
}

abbrev LeInt : ℤ → ℤ → Type 0
LeInt (pos m) (pos n) = m ≤ n
LeInt (pos m) (negsuc n) = ⊥
LeInt (negsuc m) (pos n) = Unit
LeInt (negsuc m) (negsuc n) = n ≤ m

parts_Ordered : Ordered parts
parts_Ordered = record {
  Le = LeInt;
  ge_one_up = up;
  le_zero_down = down;
  apart = apart;
  scaled_mono = mono;
  scaled_zero = refl;
}
  where
    up : (f g : ℤ) → LeInt f g → parts.ge_one f ≡ true → parts.ge_one g ≡ true
    up (pos m) (pos n) le h = ground arith
    up (pos m) (negsuc n) le h = absurd le
    up (negsuc m) g le h = absurd cc

    down : (f g : ℤ) → LeInt f g → parts.le_zero g ≡ true → parts.le_zero f ≡ true
    down (pos m) (pos n) le h = ground arith
    down (pos m) (negsuc n) le h = absurd le
    down (negsuc m) g le h = refl

    apart : (f : ℤ) → parts.le_zero f ≡ true → parts.ge_one f ≡ false
    apart (pos n) h = ground arith
    apart (negsuc n) h = refl

    mono :
        (f g : ℤ)
        → LeInt f g
        → parts.le_zero f ≡ false
        → parts.ge_one g ≡ false
        → parts.scaled f ≤ parts.scaled g
    mono (pos m) (pos n) le p h = ground arith
    mono (pos m) (negsuc n) le p h = absurd le
    mono (negsuc m) g le p h = absurd cc

trace_id_ratio_based_mono_example :
    (parts.le_zero (pos 512) ≡ false)
    × ((should_sample (trace_id_ratio_based parts (pos 2000)) parameters).decision
        ≡ record_and_sample)
unfolding parts_Ordered
trace_id_ratio_based_mono_example =
    trace_id_ratio_based_mono parts parts_Ordered (pos 512) (pos 2000) parameters (omega arith)
      (unfold should_sample trace_id_ratio_based Sampling.ratio_input in refl)

-- Below 0 nothing is sampled, whatever the conversion gives.
below_zero : (should_sample (trace_id_ratio_based parts (negsuc 4)) parameters).decision ≡ drop
unfolding should_sample trace_id_ratio_based Sampling.ratio_input
below_zero = refl

abbrev attr : Bytes → Bytes → KeyValue
attr k v = record { key = k; value = string v }

abbrev given : List KeyValue
given =
    attr (codes "a") (codes "1")
    ∷ attr (codes "b") (codes "2")
    ∷ attr (codes "a") (codes "345")
    ∷ []

dedupe_attrs-last_value_example :
    DistinctKeys (dedupe_attrs given)
    × ((k : Bytes) → first_value k (dedupe_attrs given) ≡ last_value k given)
dedupe_attrs-last_value_example = dedupe_attrs-last_value given

-- At most `n` attributes, whose values are cut to two bytes.
abbrev limited : ℕ → SpanLimits
limited n = record {
  attribute_value_length_limit = pos 2;
  attribute_count_limit = pos n;
  event_count_limit = pos 1;
  link_count_limit = pos 1;
  attribute_per_event_count_limit = pos 1;
  attribute_per_link_count_limit = pos 1;
}

abbrev started : ℕ → RecordingSpan
started n = record {
  parent = zero_span_context;
  span_kind = 1;
  name = codes "request";
  start_time = 5;
  end_time = 0;
  status = record { code = 0; description = [] };
  child_span_count = 0;
  span_context = sampled_parent;
  attributes = attr (codes "a") (codes "0") ∷ [];
  dropped_attributes = 0;
  events = new_evicted_queue (pos 1);
  links = new_evicted_queue (pos 1);
  limits = limited n;
}

started-is_recording : (n : ℕ) → is_recording (started n) ≡ true
unfolding is_recording
started-is_recording n = refl

-- One more attribute, that has no key.
abbrev with_bad : List KeyValue
with_bad = given ++ (attr [] (codes "1") ∷ [])

set_attributes-room_example :
    ((set_attributes (started 5) with_bad).attributes
      ≡ (started 5).attributes ++ kept (pos 2) with_bad)
    × ((set_attributes (started 5) with_bad).dropped_attributes + length (kept (pos 2) with_bad)
        ≡ 0 + length with_bad)
set_attributes-room_example =
    set_attributes-room (started 5) 4 with_bad (started-is_recording 5) refl (omega arith)

kept_cuts :
    kept (pos 2) with_bad
    ≡ attr (codes "a") (codes "1")
      ∷ attr (codes "b") (codes "2")
      ∷ attr (codes "a") (codes "34")
      ∷ []
kept_cuts = refl

set_attributes-within_example : length (set_attributes (started 1) given).attributes ≤ 1
set_attributes-within_example = set_attributes-within (started 1) 1 given refl (omega arith)

set_attributes-update_example :
    first_value (codes "a") (set_attributes (started 1) given).attributes
    ≡ or_else (last_value (codes "a") (valid_attrs given)) (some (string (codes "0")))
unfolding Prelude.eq_bytes
set_attributes-update_example =
    set_attributes-update (started 1) 0 given (codes "a") (string (codes "0"))
      (started-is_recording 1) refl (omega arith) refl

abbrev ended : RecordingSpan
ended = record (started 1) { end_time = 9 }

abbrev at_nine : EndConfig
at_nine = record { et = 9; now = 8; timestamp = 0; stack_trace = false }

abbrev calls : List Call
calls = call_set_name (codes "late") ∷ call_end at_nine none true ∷ call_add_child ∷ []

end_span-recording_example :
    ((end_span (started 1) at_nine none true).0.end_time ≡ chosen_time at_nine)
    × (is_recording (end_span (started 1) at_nine none true).0 ≡ false)
    × (snapshot_end_time (end_span (started 1) at_nine none true).1
        ≡ (if true then some (chosen_time at_nine) else none))
end_span-recording_example =
    end_span-recording (started 1) at_nine none true (started-is_recording 1) (omega arith)

abbrev event : Bytes → Event
event name = record { name = name; attributes = []; dropped_attribute_count = 0; time = 7 }

abbrev two_events : List Event
two_events = event (codes "e") ∷ event (codes "f") ∷ []

abbrev busy : ℕ → RecordingSpan
busy n = record (started 1) { events = add_all (new_evicted_queue (pos n)) two_events }

snapshot-events_example :
    ((snapshot (busy 0)).1.events ≡ Prelude.drop (length two_events - 0) two_events)
    × ((snapshot (busy 0)).1.dropped_event_count ≡ (if 0 == 0 then 0 else length two_events - 0))
snapshot-events_example = snapshot-events (busy 0) 0 two_events refl
