-- ===== src/Tests/Processing.antt =====
-- New spans, and the batch span processor.
use opentelemetry_go.Prelude.{
  ℕ, ◌≤◌, ◌≡◌, refl, true, false, [], ◌∷◌, List, none, some, arith, codes, length,
}
use opentelemetry_go.Prelude.Int.{pos}
use opentelemetry_go.Attribute.{string}
use opentelemetry_go.Trace.State.{empty}
use opentelemetry_go.Trace.SpanContext.{SpanContext, is_valid, is_sampled_context}
use opentelemetry_go.Trace.Context.{Context, span_context_from_context}
use opentelemetry_go.SdkTrace.Sampling.{
  SamplingResult, record_and_sample, always_off, new_parent_based,
}
use opentelemetry_go.SdkTrace.Span.{SpanLimits, Snapshot}
use opentelemetry_go.SdkTrace.Tracer.{SpanConfig, Provider, new_span, context_of}
use opentelemetry_go.SdkTrace.Tracer.Child.{records, new_span-child}
use opentelemetry_go.SdkTrace.Batch.{
  BatchOptions, Item, ended_span, force_flush_span, item_is_sampled, Batcher, new_batcher, draining,
  finished,
}
use opentelemetry_go.SdkTrace.Batch.Steps.{
  on_end, stop, receive, export_full, begin_drain, close_queue, drained, export_last, Reachable,
  started, stepped,
}
use opentelemetry_go.SdkTrace.Batch.Keeps.{spans, flatten, BatchInv}
use opentelemetry_go.SdkTrace.Batch.Conserved.{Reachable-BatchInv, finished-exported}
use opentelemetry_go.SdkTrace.Batch.Drain.{Drains, Drains-finished}

abbrev remote_parent : SpanContext
remote_parent = record {
  trace_id = 1 ∷ 0 ∷ 0 ∷ 0 ∷ 0 ∷ 0 ∷ 0 ∷ 0 ∷ 0 ∷ 0 ∷ 0 ∷ 0 ∷ 0 ∷ 0 ∷ 0 ∷ 255 ∷ [];
  span_id = 0 ∷ 0 ∷ 0 ∷ 0 ∷ 0 ∷ 0 ∷ 0 ∷ 171 ∷ [];
  trace_flags = 1;
  trace_state = empty;
  remote = true;
}

abbrev request : Context
request = record { current_span = some remote_parent }

abbrev small_limits : SpanLimits
small_limits = record {
  attribute_value_length_limit = pos 8;
  attribute_count_limit = pos 1;
  event_count_limit = pos 1;
  link_count_limit = pos 1;
  attribute_per_event_count_limit = pos 1;
  attribute_per_link_count_limit = pos 1;
}

abbrev provider : Provider
provider = record {
  sampler = new_parent_based always_off [];
  id_generator = record {
    new_ids = λ ctx. (remote_parent.trace_id, 9 ∷ 0 ∷ 0 ∷ 0 ∷ 0 ∷ 0 ∷ 0 ∷ 0 ∷ []);
    new_span_id = λ ctx t. 9 ∷ 0 ∷ 0 ∷ 0 ∷ 0 ∷ 0 ∷ 0 ∷ 0 ∷ [];
  };
  span_limits = small_limits;
}

abbrev two_given : SpanConfig
two_given = record {
  attributes =
      record { key = codes "a"; value = string (codes "1") }
      ∷ record { key = codes "b"; value = string (codes "2") }
      ∷ [];
  timestamp = 0;
  links = (remote_parent, []) ∷ [];
  new_root = false;
  span_kind = 7;
}

new_span-child_example :
    (context_of (new_span provider 5 request (codes "handle") two_given)
      ≡ record remote_parent { span_id = 9 ∷ 0 ∷ 0 ∷ 0 ∷ 0 ∷ 0 ∷ 0 ∷ 0 ∷ []; remote = false })
    × (records (new_span provider 5 request (codes "handle") two_given)
        ≡ is_sampled_context remote_parent)
unfolding opentelemetry_go.Trace.Id.trace_id_is_valid opentelemetry_go.Prelude.eq_bytes
    opentelemetry_go.Trace.Id.span_id_is_valid span_context_from_context
new_span-child_example =
    new_span-child provider always_off 5 request (codes "handle") two_given refl refl
      (unfold is_valid span_context_from_context in refl)

abbrev kept_result : SamplingResult
kept_result = record {
  decision = record_and_sample;
  attributes = two_given.attributes;
  tracestate = empty;
}

-- Batches of one span and a queue of two.
abbrev small : BatchOptions
small = record {
  max_queue_size = 2;
  max_export_batch_size = 1;
  block_on_queue_full = false;
  has_exporter = true;
}

abbrev ended_request : Snapshot
ended_request = record {
  name = codes "request";
  span_context = remote_parent;
  parent = remote_parent;
  span_kind = 1;
  start_time = 5;
  end_time = 6;
  attributes = [];
  events = [];
  links = [];
  status = record { code = 0; description = [] };
  child_span_count = 0;
  dropped_attribute_count = 0;
  dropped_event_count = 0;
  dropped_link_count = 0;
}

abbrev queued : Batcher
queued = record new_batcher {
  queue = ended_span ended_request ∷ [];
  sent = ended_span ended_request ∷ [];
}

queued_is_reachable : Reachable small queued
unfolding opentelemetry_go.Trace.Id.is_sampled opentelemetry_go.SdkTrace.Batch.send_or_drop
queued_is_reachable =
    stepped started (on_end ended_request refl refl (unfold item_is_sampled in refl))

Reachable-BatchInv_example : BatchInv small queued
Reachable-BatchInv_example = Reachable-BatchInv small queued (omega arith) queued_is_reachable

abbrev over : Batcher
over = record new_batcher {
  sent = ended_span ended_request ∷ [];
  exported = (ended_span ended_request ∷ []) ∷ [];
  is_open = false;
  stopped = true;
  phase = finished;
}

over_is_reachable : Reachable small over
unfolding opentelemetry_go.SdkTrace.Batch.process_item opentelemetry_go.SdkTrace.Batch.export_spans
over_is_reachable =
    stepped
      (stepped
        (stepped
          (stepped
            (stepped
              (stepped
                (stepped queued_is_reachable (receive (ended_span ended_request) [] refl refl))
                (export_full refl))
              stop)
            (begin_drain refl refl))
          (close_queue refl refl refl))
        (drained refl refl refl))
      (export_last refl)

finished-exported_example : spans (flatten over.exported) ≡ spans over.sent
finished-exported_example = finished-exported small over (omega arith) over_is_reachable refl

abbrev flush_requested : Batcher
flush_requested = record queued {
  queue = ended_span ended_request ∷ force_flush_span 0 ∷ [];
  phase = draining;
}

Drains-finished_example : Drains small flush_requested
Drains-finished_example = Drains-finished small flush_requested refl
