-- ===== src/SdkTrace/Batch.antt =====
-- sdk/trace/batch_span_processor.go: the batch span processor as a state machine. Its one worker runs
-- `processQueue` and then `drainQueue`; any number of callers run `OnEnd`, `ForceFlush` and
-- `Shutdown`. A step of the machine is what one of them does between two points at which another
-- may run. Timers fire at any time. The exporter is a log of the batches that it was given, since
-- its result changes nothing. The queue has room for one span at least: for a
-- `MaxQueueSize` of 0 the channel is not buffered, and is not modelled.
pub mod Steps
pub mod Keeps
pub mod Conserved
pub mod Drain
use opentelemetry_go.Prelude.{
  ℕ, ◌+◌, ◌%◌, ◌^◌, Bool, true, false, not, ◌||◌, List, [], ◌∷◌, ◌++◌, ltb, leb, ◌==◌,
  if◌then◌else◌, length,
}
use opentelemetry_go.Trace.SpanContext.{is_sampled_context}
use opentelemetry_go.SdkTrace.Span.{Snapshot}

-- The `BatchSpanProcessorOptions` that matter here, and whether the exporter is not nil.
pub record BatchOptions : Type 0 where
  pub max_queue_size : ℕ
  pub max_export_batch_size : ℕ
  pub block_on_queue_full : Bool
  pub has_exporter : Bool

-- What the queue holds: an ended span, or a `forceFlushSpan` with the name of its channel.
pub data Item : Type 0 where
  ended_span : Snapshot → Item
  force_flush_span : ℕ → Item

-- `sd.SpanContext().IsSampled()`
unfoldable pub item_is_sampled : Item → Bool
item_is_sampled (ended_span s) = is_sampled_context s.span_context
item_is_sampled (force_flush_span ch) = true

-- Where the worker is: at a `select`, or before a call of `exportSpans`.
pub data Phase : Type 0 where
  processing export_due : Phase
  draining drain_export_due final_export : Phase
  finished : Phase

pub record Batcher : Type 0 where
  -- the channel `queue`, and whether it is open
  pub queue : List Item
  pub is_open : Bool
  -- a `uint32`, that wraps around
  pub dropped : ℕ
  pub batch : List Item
  -- whether `stopCh` is closed
  pub stopped : Bool
  pub phase : Phase
  -- the batches that the exporter was given, the flush channels closed, and the sends that
  -- succeeded, each in order
  pub exported : List (List Item)
  pub flushed : List ℕ
  pub sent : List Item

-- `NewBatchSpanProcessor`
abbrev pub new_batcher : Batcher
new_batcher = record {
  queue = [];
  is_open = true;
  dropped = 0;
  batch = [];
  stopped = false;
  phase = processing;
  exported = [];
  flushed = [];
  sent = [];
}

-- `exportSpans`
unfoldable pub export_spans : Batcher → Batcher
export_spans b =
    if ltb 0 (length b.batch)
    then record b { exported = b.exported ++ (b.batch ∷ []); batch = [] }
    else b

-- `processQueue` at a value from the queue, whose rest is `queue`
unfoldable pub process_item : BatchOptions → Batcher → Item → List Item → Batcher
process_item o b (force_flush_span ch) queue = record b {
  queue = queue;
  flushed = b.flushed ++ (ch ∷ []);
}
process_item o b (ended_span s) queue =
    let batch = b.batch ++ (ended_span s ∷ []) in
    record b {
      queue = queue;
      batch = batch;
      phase = if leb o.max_export_batch_size (length batch) then export_due else processing;
    }

-- `drainQueue` at a value from the queue
unfoldable pub drain_item : BatchOptions → Batcher → Item → List Item → Batcher
drain_item o b sd queue =
    let batch = b.batch ++ (sd ∷ []) in
    record b {
      queue = queue;
      batch = batch;
      phase = if length batch == o.max_export_batch_size then drain_export_due else draining;
    }

-- The send of `enqueueDrop`, behind its test of `stopCh`. A send on the closed channel panics, and
-- `recoverSendOnClosedChan` goes on.
unfoldable pub send_or_drop : BatchOptions → Batcher → Item → Batcher
send_or_drop o b sd =
    if not b.is_open
    then b
    else if ltb (length b.queue) o.max_queue_size
    then record b { queue = b.queue ++ (sd ∷ []); sent = b.sent ++ (sd ∷ []) }
    else record b { dropped = (b.dropped + 1) % 2 ^ 32 }

-- `enqueueDrop`, where nothing runs between its test and its send
unfoldable pub enqueue_drop : BatchOptions → Batcher → Item → Batcher
enqueue_drop o b sd = if not (item_is_sampled sd) || b.stopped then b else send_or_drop o b sd

-- The send of `enqueueBlockOnQueueFull` to an open queue with room.
unfoldable pub send_blocking : Batcher → Item → Batcher
send_blocking b sd = record b { queue = b.queue ++ (sd ∷ []); sent = b.sent ++ (sd ∷ []) }

-- `Shutdown` closes `stopCh`; the rest of it waits for the worker.
abbrev pub shutdown : Batcher → Batcher
shutdown b = record b { stopped = true }
