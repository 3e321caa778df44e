-- ===== src/SdkTrace/Batch/Conserved.antt =====
-- A batch span processor exports each span that it has queued, once and in order.
use mathlib.Core.Path.{subst}
use opentelemetry_go.Prelude.{
  ◌%◌, ◌^◌, ℕ, ◌+◌, ◌≤◌, ◌<◌, ◌≡◌, refl, sym, ap, ◌∙◌, true, false, inl, inr, Bool-cases, List, [],
  ◌∷◌, ◌++◌, arith, ltb, leb, ◌==◌, length, length-append, append-nil,
}
use opentelemetry_go.SdkTrace.Batch.{
  BatchOptions, Item, ended_span, force_flush_span, Phase, processing, draining, final_export,
  finished, Batcher, export_spans, process_item, drain_item, send_or_drop, send_blocking,
}
use opentelemetry_go.SdkTrace.Batch.Steps.{
  Step, on_end, on_end_blocking, request_flush, flush, stop, tick, receive, export_full,
  begin_drain, drain, drain_full, close_queue, drained, export_last, Reachable, started, stepped,
}
use opentelemetry_go.SdkTrace.Batch.Keeps.{
  spans, flatten, Placed, BatchInv, held-batch, conserved-send, Core, core, export_spans-Core,
  export_spans-lem, batch_fits, Placed-emptied, Placed-sent, Placed-same,
}

-- The three facts, and what the place of the worker tells.
complete :
    (o : BatchOptions) (b : Batcher)
    → Core o b
    → Placed o.max_export_batch_size b.phase b
    → BatchInv o b
complete o b c p = record {
  conserved = c.conserved;
  queue_fits = c.queue_fits;
  batches_fit = c.batches_fit;
  placed = p;
}

-- The facts do not tell of the place.
moved : (o : BatchOptions) (b : Batcher) (p : Phase) → Core o b → Core o (record b { phase = p })
moved o b p c = record {
  conserved = c.conserved;
  queue_fits = c.queue_fits;
  batches_fit = c.batches_fit;
}

send_blocking-BatchInv :
    (o : BatchOptions) (b : Batcher) (sd : Item)
    → b.is_open ≡ true
    → length b.queue < o.max_queue_size
    → BatchInv o b
    → BatchInv o (send_blocking b sd)
unfolding send_blocking
send_blocking-BatchInv o b sd op room i = record {
  conserved = conserved-send b sd i.conserved;
  queue_fits = omega (arith, length-append b.queue (sd ∷ []), room);
  batches_fit = i.batches_fit;
  placed = Placed-sent o.max_export_batch_size b.phase b _ _ op i.placed;
}

module _ (o : BatchOptions) (b : Batcher) (sd : Item) where
  send_or_drop-closed : b.is_open ≡ false → send_or_drop o b sd ≡ b
  unfolding send_or_drop
  send_or_drop-closed e = simp e

  send_or_drop-room :
      b.is_open ≡ true
      → ltb (length b.queue) o.max_queue_size ≡ true
      → send_or_drop o b sd ≡ send_blocking b sd
  unfolding send_or_drop send_blocking
  send_or_drop-room e room = simp (e, room)

  send_or_drop-full :
      b.is_open ≡ true
      → ltb (length b.queue) o.max_queue_size ≡ false
      → send_or_drop o b sd ≡ record b { dropped = (b.dropped + 1) % 2 ^ 32 }
  unfolding send_or_drop
  send_or_drop-full e full = simp (e, full)

  send_or_drop-BatchInv : BatchInv o b → BatchInv o (send_or_drop o b sd)
  send_or_drop-BatchInv i = elim (Bool-cases b.is_open) [
    | inr closed ↦ subst (BatchInv o) (sym (send_or_drop-closed closed)) i
    | inl op ↦ elim (Bool-cases (ltb (length b.queue) o.max_queue_size)) [
      | inl room ↦
          subst (BatchInv o) (sym (send_or_drop-room op room))
            (send_blocking-BatchInv o b sd op (ground arith) i)
      | inr full ↦
          let counted = record b { dropped = (b.dropped + 1) % 2 ^ 32 } in
          subst (BatchInv o) (sym (send_or_drop-full op full)) (record {
            conserved = i.conserved;
            queue_fits = i.queue_fits;
            batches_fit = i.batches_fit;
            placed = Placed-same o.max_export_batch_size b.phase b counted refl refl refl i.placed;
          })
    ]
  ]

-- An export that does not move the worker.
export_spans-BatchInv :
    (o : BatchOptions) (b : Batcher) → BatchInv o b → BatchInv o (export_spans b)
export_spans-BatchInv o b i =
    let n = o.max_export_batch_size in
    let (emptied, queued, opened, place) = export_spans-lem b in
    let c = export_spans-Core o b (core o b i) (batch_fits n b.phase b i.placed) in
    complete o (export_spans b) c (
      subst (λ p. Placed n p (export_spans b)) (sym place)
        (Placed-emptied n b.phase b (export_spans b) emptied queued opened i.placed))

-- The rest of a queue that fits.
rest_fits :
    (b : Batcher) (sd : Item) (queue : List Item) (m : ℕ)
    → b.queue ≡ sd ∷ queue
    → length b.queue ≤ m
    → length queue ≤ m
rest_fits b sd queue m e fits =
    let longer = subst (λ q. length q ≤ m) e fits in omega (arith, longer)

process_item-BatchInv :
    (o : BatchOptions) (b : Batcher) (sd : Item) (queue : List Item)
    → b.phase ≡ processing
    → b.queue ≡ sd ∷ queue
    → BatchInv o b
    → BatchInv o (process_item o b sd queue)
unfolding process_item
process_item-BatchInv o b (force_flush_span ch) queue at e i =
    let n = o.max_export_batch_size in
    record {
      conserved =
          i.conserved ∙ ap (λ q. spans (flatten b.exported) ++ (spans b.batch ++ spans q)) e;
      queue_fits = rest_fits b _ queue o.max_queue_size e i.queue_fits;
      batches_fit = i.batches_fit;
      placed =
          subst (λ p. Placed n p (record b { queue = queue; flushed = b.flushed ++ (ch ∷ []) }))
            (sym at) (subst (λ p. Placed n p b) at i.placed);
    }
process_item-BatchInv o b (ended_span s) queue at e i = record {
  conserved = i.conserved ∙ held-batch b (ended_span s) queue e;
  queue_fits = rest_fits b _ queue o.max_queue_size e i.queue_fits;
  batches_fit = i.batches_fit;
  placed = placed_at (subst (λ p. Placed o.max_export_batch_size p b) at i.placed);
}
  where
    placed_at :
        (length b.batch < o.max_export_batch_size) × (b.is_open ≡ true)
        → Placed o.max_export_batch_size
            (process_item o b (ended_span s) queue).phase
            (process_item o b (ended_span s) queue)
    placed_at (l, op) =
        unfold process_item in
        elim (Bool-cases (leb o.max_export_batch_size (length (b.batch ++ (ended_span s ∷ []))))) [
          | inl full ↦ rw full (omega (arith, l, length-append b.batch (ended_span s ∷ [])), op)
          | inr room ↦ rw room (ground arith, op)
        ]

drain_item-BatchInv :
    (o : BatchOptions) (b : Batcher) (sd : Item) (queue : List Item)
    → b.phase ≡ draining
    → b.queue ≡ sd ∷ queue
    → BatchInv o b
    → BatchInv o (drain_item o b sd queue)
unfolding drain_item
drain_item-BatchInv o b sd queue at e i = record {
  conserved = i.conserved ∙ held-batch b sd queue e;
  queue_fits = rest_fits b _ queue o.max_queue_size e i.queue_fits;
  batches_fit = i.batches_fit;
  placed = placed_at (subst (λ p. Placed o.max_export_batch_size p b) at i.placed);
}
  where
    placed_at :
        length b.batch < o.max_export_batch_size
        → Placed o.max_export_batch_size (drain_item o b sd queue).phase (drain_item o b sd queue)
    placed_at l =
        unfold drain_item in
        elim (Bool-cases (length (b.batch ++ (sd ∷ [])) == o.max_export_batch_size)) [
          | inl full ↦ rw full (omega (arith, l, length-append b.batch (sd ∷ [])))
          | inr room ↦ rw room (ground (arith, l, length-append b.batch (sd ∷ [])))
        ]

-- An export after which the worker goes on at `p`, where an empty batch is in its place.
export_then-BatchInv :
    (o : BatchOptions) (b : Batcher) (p : Phase)
    → BatchInv o b
    → Placed o.max_export_batch_size p (record (export_spans b) { phase = p })
    → BatchInv o (record (export_spans b) { phase = p })
export_then-BatchInv o b p i place =
    complete o _
      (moved o _ p (export_spans-Core o b (core o b i) (batch_fits _ b.phase b i.placed))) place

-- Every step keeps the invariant, where batches have room for a span.
Step-BatchInv :
    (o : BatchOptions) (b b' : Batcher)
    → 0 < o.max_export_batch_size
    → Step o b b'
    → BatchInv o b
    → BatchInv o b'
Step-BatchInv o b b' pos (on_end s e n sampled) i = send_or_drop-BatchInv o b (ended_span s) i
Step-BatchInv o b b' pos (on_end_blocking s e n sampled op room) i =
    send_blocking-BatchInv o b (ended_span s) op room i
Step-BatchInv o b b' pos (request_flush ch e op room) i =
    send_blocking-BatchInv o b (force_flush_span ch) op room i
Step-BatchInv o b b' pos (flush e) i = export_spans-BatchInv o b i
Step-BatchInv o b b' pos stop i = record {
  conserved = i.conserved;
  queue_fits = i.queue_fits;
  batches_fit = i.batches_fit;
  placed =
      Placed-same o.max_export_batch_size b.phase b (record b { stopped = true }) refl refl refl
        i.placed;
}
Step-BatchInv o b b' pos (tick at) i = export_spans-BatchInv o b i
Step-BatchInv o b b' pos (receive sd queue at e) i = process_item-BatchInv o b sd queue at e i
Step-BatchInv o b b' pos (drain sd queue at e) i = drain_item-BatchInv o b sd queue at e i
Step-BatchInv o b b' pos (export_full at) i =
    let (emptied, queued, opened, place) = export_spans-lem b in
    let here = subst (λ p. Placed o.max_export_batch_size p b) at i.placed in
    export_then-BatchInv o b processing i (rw emptied (omega (arith, pos)), opened ∙ here.1)
Step-BatchInv o b b' pos (begin_drain at st) i =
    complete o _ (moved o b draining (core o b i))
      (subst (λ p. Placed o.max_export_batch_size p b) at i.placed).0
Step-BatchInv o b b' pos (drain_full at) i =
    let (emptied, queued, opened, place) = export_spans-lem b in
    export_then-BatchInv o b draining i (rw emptied (omega (arith, pos)))
Step-BatchInv o b b' pos (close_queue at none_queued op) i = record {
  conserved = i.conserved;
  queue_fits = i.queue_fits;
  batches_fit = i.batches_fit;
  placed =
      subst (λ p. Placed o.max_export_batch_size p (record b { is_open = false })) (sym at)
        (subst (λ p. Placed o.max_export_batch_size p b) at i.placed);
}
Step-BatchInv o b b' pos (drained at none_queued closed) i =
    complete o _ (moved o b final_export (core o b i))
      (subst (λ p. Placed o.max_export_batch_size p b) at i.placed, none_queued, closed)
Step-BatchInv o b b' pos (export_last at) i =
    let (emptied, queued, opened, place) = export_spans-lem b in
    let here = subst (λ p. Placed o.max_export_batch_size p b) at i.placed in
    export_then-BatchInv o b finished i (emptied, queued ∙ here.1, opened ∙ here.2)

-- In every reachable state of a batch span processor whose batches have room for a span: the spans
-- exported, batched and queued are, in this order, the spans that were queued, none lost or twice;
-- the queue and every batch exported keep to their sizes.
pub Reachable-BatchInv :
    (o : BatchOptions) (b : Batcher) → 0 < o.max_export_batch_size → Reachable o b → BatchInv o b
Reachable-BatchInv o b pos started = record {
  conserved = refl;
  queue_fits = omega arith;
  batches_fit = tt;
  placed = (omega (arith, pos), refl);
}
Reachable-BatchInv o b pos (stepped r s) = Step-BatchInv o _ b pos s (Reachable-BatchInv o _ pos r)

-- Once the worker has finished, the exporter has been given every span that was queued, in order.
pub finished-exported :
    (o : BatchOptions) (b : Batcher)
    → 0 < o.max_export_batch_size
    → Reachable o b
    → b.phase ≡ finished
    → spans (flatten b.exported) ≡ spans b.sent
finished-exported o b pos r at =
    let i = Reachable-BatchInv o b pos r in
    let (no_batch, none_queued, closed) =
      subst (λ p. Placed o.max_export_batch_size p b) at i.placed in
    sym (
      i.conserved
      ∙ ap (λ t. spans (flatten b.exported) ++ (spans t ++ spans b.queue)) no_batch
      ∙ ap (λ t. spans (flatten b.exported) ++ spans t) none_queued
      ∙ append-nil (spans (flatten b.exported)))
