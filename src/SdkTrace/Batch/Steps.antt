-- ===== src/SdkTrace/Batch/Steps.antt =====
-- The steps of the worker and of the callers of a batch span processor.
use opentelemetry_go.Prelude.{ℕ, ◌≡◌, ◌<◌, true, false, [], ◌∷◌, length}
use opentelemetry_go.SdkTrace.Span.{Snapshot}
use opentelemetry_go.SdkTrace.Batch.{
  BatchOptions, Item, ended_span, force_flush_span, item_is_sampled, processing, export_due,
  draining, drain_export_due, final_export, finished, Batcher, new_batcher, export_spans,
  process_item, drain_item, send_or_drop, send_blocking, shutdown,
}

-- A caller that has passed the test of `stopCh` may send later, after `Shutdown` too, so the sends
-- do not ask for an open `stopCh`; a caller that fails the test changes nothing.
pub data Step (o : BatchOptions) (b : Batcher) : Batcher → Type 0 where
  -- `OnEnd`, without and with `BlockOnQueueFull`
  on_end :
      (s : Snapshot)
      → o.has_exporter ≡ true
      → o.block_on_queue_full ≡ false
      → item_is_sampled (ended_span s) ≡ true
      → Step o b (send_or_drop o b (ended_span s))
  on_end_blocking :
      (s : Snapshot)
      → o.has_exporter ≡ true
      → o.block_on_queue_full ≡ true
      → item_is_sampled (ended_span s) ≡ true
      → b.is_open ≡ true
      → length b.queue < o.max_queue_size
      → Step o b (send_blocking b (ended_span s))
  -- `ForceFlush`: its request, and its call of `exportSpans`
  request_flush :
      (ch : ℕ)
      → o.has_exporter ≡ true
      → b.is_open ≡ true
      → length b.queue < o.max_queue_size
      → Step o b (send_blocking b (force_flush_span ch))
  flush : o.has_exporter ≡ true → Step o b (export_spans b)
  stop : Step o b (shutdown b)
  -- `processQueue`
  tick : b.phase ≡ processing → Step o b (export_spans b)
  receive :
      (sd : Item) (queue : _)
      → b.phase ≡ processing
      → b.queue ≡ sd ∷ queue
      → Step o b (process_item o b sd queue)
  export_full : b.phase ≡ export_due → Step o b (record (export_spans b) { phase = processing })
  begin_drain : b.phase ≡ processing → b.stopped ≡ true → Step o b (record b { phase = draining })
  -- `drainQueue`
  drain :
      (sd : Item) (queue : _)
      → b.phase ≡ draining
      → b.queue ≡ sd ∷ queue
      → Step o b (drain_item o b sd queue)
  drain_full : b.phase ≡ drain_export_due → Step o b (record (export_spans b) { phase = draining })
  close_queue :
      b.phase ≡ draining → b.queue ≡ [] → b.is_open ≡ true → Step o b (record b { is_open = false })
  drained :
      b.phase ≡ draining
      → b.queue ≡ []
      → b.is_open ≡ false
      → Step o b (record b { phase = final_export })
  export_last : b.phase ≡ final_export → Step o b (record (export_spans b) { phase = finished })

-- The states that a new processor can be in.
pub data Reachable (o : BatchOptions) : Batcher → Type 0 where
  started : Reachable o new_batcher
  stepped : {b b' : Batcher} → Reachable o b → Step o b b' → Reachable o b'
