-- ===== src/SdkTrace/Batch/Drain.antt =====
-- `drainQueue` comes to its end, and what it exports.
use opentelemetry_go.Prelude.{
  ◌≡◌, refl, sym, ap, ◌∙◌, true, false, inl, inr, Bool-cases, List, [], ◌∷◌, ◌++◌, ltb, ◌==◌,
  length, append_assoc, append-nil,
}
use opentelemetry_go.SdkTrace.Batch.{
  BatchOptions, Item, draining, drain_export_due, final_export, finished, Batcher, export_spans,
  drain_item,
}
use opentelemetry_go.SdkTrace.Batch.Steps.{
  Step, drain, drain_full, close_queue, drained, export_last,
}
use opentelemetry_go.SdkTrace.Batch.Keeps.{flatten, flatten-snoc, export_spans-lem, no_items}

-- Any number of steps.
pub data Steps (o : BatchOptions) : Batcher → Batcher → Type 0 where
  here : {b : Batcher} → Steps o b b
  next : {b c d : Batcher} → Step o b c → Steps o c d → Steps o b d

-- All items that are exported, batched or queued, flush requests included.
abbrev pub everything : Batcher → List Item
everything b = flatten b.exported ++ (b.batch ++ b.queue)

-- From `b` the worker comes to its end, with everything exported.
pub record Drains (o : BatchOptions) (b : Batcher) : Type 0 where
  pub last : Batcher
  pub steps : Steps o b last
  pub at_end : last.phase ≡ finished
  pub all_exported : flatten last.exported ≡ everything b

exported-export_spans :
    (b : Batcher) → flatten (export_spans b).exported ≡ flatten b.exported ++ b.batch
unfolding export_spans
exported-export_spans b = elim (Bool-cases (ltb 0 (length b.batch))) [
  | inl some_batched ↦ rw some_batched (flatten-snoc b.exported b.batch)
  | inr none_batched ↦ rw none_batched (
      sym (append-nil (flatten b.exported))
      ∙ ap (λ t. flatten b.exported ++ t) (sym (no_items b.batch none_batched)))
]

everything-export_spans : (b : Batcher) → everything (export_spans b) ≡ everything b
everything-export_spans b =
    let (emptied, queued, opened, place) = export_spans-lem b in
    ap (λ t. t ++ ((export_spans b).batch ++ (export_spans b).queue)) (exported-export_spans b)
    ∙ ap (λ t. (flatten b.exported ++ b.batch) ++ (t ++ (export_spans b).queue)) emptied
    ∙ ap (λ t. (flatten b.exported ++ b.batch) ++ t) queued
    ∙ append_assoc (flatten b.exported) b.batch b.queue

everything-drain_item :
    (o : BatchOptions) (b : Batcher) (sd : Item) (queue : List Item)
    → b.queue ≡ sd ∷ queue
    → everything (drain_item o b sd queue) ≡ everything b
unfolding drain_item
everything-drain_item o b sd queue e =
    ap (λ t. flatten b.exported ++ t)
      (append_assoc b.batch (sd ∷ []) queue ∙ ap (λ q. b.batch ++ q) (sym e))

-- A step that keeps everything leads to the end if what follows it does.
before :
    (o : BatchOptions) (b c : Batcher)
    → Step o b c
    → everything c ≡ everything b
    → Drains o c
    → Drains o b
before o b c s e d = record {
  last = d.last;
  steps = next s d.steps;
  at_end = d.at_end;
  all_exported = d.all_exported ∙ e;
}

-- The closed queue is empty: the last export.
Drains-closed :
    (o : BatchOptions) (b : Batcher)
    → b.phase ≡ draining
    → b.queue ≡ []
    → b.is_open ≡ false
    → Drains o b
Drains-closed o b at none_queued closed =
    let b' = record b { phase = final_export } in
    record {
      last = record (export_spans b') { phase = finished };
      steps = next (drained at none_queued closed) (next (export_last refl) here);
      at_end = refl;
      all_exported =
          exported-export_spans b'
          ∙ ap (λ t. flatten b.exported ++ t)
              (sym (append-nil b.batch) ∙ ap (λ q. b.batch ++ q) (sym none_queued));
    }

Drains-empty : (o : BatchOptions) (b : Batcher) → b.phase ≡ draining → b.queue ≡ [] → Drains o b
Drains-empty o b at none_queued = elim (Bool-cases b.is_open) [
  | inr closed ↦ Drains-closed o b at none_queued closed
  | inl op ↦
      before o b (record b { is_open = false }) (close_queue at none_queued op) refl
        (Drains-closed o (record b { is_open = false }) at none_queued refl)
]

module _ (o : BatchOptions) (b : Batcher) (sd : Item) (queue : List Item) where
  drain_item-room :
      (length (b.batch ++ (sd ∷ [])) == o.max_export_batch_size) ≡ false
      → (drain_item o b sd queue).phase ≡ draining
  unfolding drain_item
  drain_item-room e = rw e refl

  drain_item-full :
      (length (b.batch ++ (sd ∷ [])) == o.max_export_batch_size) ≡ true
      → (drain_item o b sd queue).phase ≡ drain_export_due
  unfolding drain_item
  drain_item-full e = rw e refl

queue-drain_item :
    (o : BatchOptions) (b : Batcher) (sd : Item) (queue : List Item)
    → (drain_item o b sd queue).queue ≡ queue
unfolding drain_item
queue-drain_item o b sd queue = refl

Drains-queue :
    (queue : List Item) (o : BatchOptions) (b : Batcher)
    → b.phase ≡ draining
    → b.queue ≡ queue
    → Drains o b
Drains-queue [] o b at e = Drains-empty o b at e
Drains-queue (sd ∷ queue) o b at e =
    let b' = drain_item o b sd queue in
    let b'' = record (export_spans b') { phase = draining } in
    let (emptied, queued, opened, place) = export_spans-lem b' in
    before o b b' (drain sd queue at e) (everything-drain_item o b sd queue e)
      (elim (Bool-cases (length (b.batch ++ (sd ∷ [])) == o.max_export_batch_size)) [
        | inr room ↦
            Drains-queue queue o b' (drain_item-room o b sd queue room)
              (queue-drain_item o b sd queue)
        | inl full ↦
            before o b' b'' (drain_full (drain_item-full o b sd queue full))
              (everything-export_spans b')
              (Drains-queue queue o b'' refl (queued ∙ queue-drain_item o b sd queue))
      ])

-- From any state in which the worker drains, it can go to its end; and then the exporter has been
-- given everything that was exported, batched or queued, the flush requests in the queue as well.
pub Drains-finished : (o : BatchOptions) (b : Batcher) → b.phase ≡ draining → Drains o b
Drains-finished o b at = Drains-queue b.queue o b at refl
