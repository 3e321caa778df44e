-- ===== src/SdkTrace/Batch/Keeps.antt =====
-- What holds in every reachable state of a batch span processor.
use opentelemetry_go.Prelude.{
  ℕ, ◌≤◌, ◌<◌, ◌≡◌, refl, sym, ap, ◌∙◌, true, false, inl, inr, Bool-cases, List, [], ◌∷◌, ◌++◌,
  arith, ltb, length, append_assoc, append-nil, All,
}
use opentelemetry_go.SdkTrace.Span.{Snapshot}
use opentelemetry_go.SdkTrace.Batch.{
  BatchOptions, Item, ended_span, force_flush_span, Phase, processing, export_due, draining,
  drain_export_due, final_export, finished, Batcher, export_spans,
}

-- The spans among the items.
abbrev pub spans : List Item → List Snapshot
spans [] = []
spans (ended_span s ∷ l) = s ∷ spans l
spans (force_flush_span ch ∷ l) = spans l

abbrev pub flatten : List (List Item) → List Item
flatten [] = []
flatten (l ∷ ls) = l ++ flatten ls

pub spans-append : (l m : List Item) → spans (l ++ m) ≡ spans l ++ spans m
spans-append [] m = refl
spans-append (ended_span s ∷ l) m = ap (◌∷◌ s) (spans-append l m)
spans-append (force_flush_span ch ∷ l) m = spans-append l m

pub flatten-snoc :
    (ls : List (List Item)) (l : List Item) → flatten (ls ++ (l ∷ [])) ≡ flatten ls ++ l
flatten-snoc [] l = append-nil l
flatten-snoc (x ∷ ls) l = ap (λ t. x ++ t) (flatten-snoc ls l) ∙ sym (append_assoc x (flatten ls) l)

-- The spans that are exported, batched or queued, in the order of their way through the processor.
abbrev pub held : Batcher → List Snapshot
held b = spans (flatten b.exported) ++ (spans b.batch ++ spans b.queue)

-- What each place of the worker tells.
abbrev pub Placed : ℕ → Phase → Batcher → Type 0
Placed n processing b = (length b.batch < n) × (b.is_open ≡ true)
Placed n export_due b = (length b.batch ≤ n) × (b.is_open ≡ true)
Placed n draining b = length b.batch < n
Placed n drain_export_due b = length b.batch ≤ n
Placed n final_export b = (length b.batch < n) × (b.queue ≡ []) × (b.is_open ≡ false)
Placed n finished b = (b.batch ≡ []) × (b.queue ≡ []) × (b.is_open ≡ false)

pub record BatchInv (o : BatchOptions) (b : Batcher) : Type 0 where
  pub conserved : spans b.sent ≡ held b
  pub queue_fits : length b.queue ≤ o.max_queue_size
  pub batches_fit : All (λ l. length l ≤ o.max_export_batch_size) b.exported
  pub placed : Placed o.max_export_batch_size b.phase b

-- The move of one item from a queue to the batch, and of the batch to the exporter.
pub held-batch :
    (b : Batcher) (sd : Item) (queue : List Item)
    → b.queue ≡ sd ∷ queue
    → held b ≡ spans (flatten b.exported) ++ (spans (b.batch ++ (sd ∷ [])) ++ spans queue)
held-batch b sd queue e =
    ap (λ t. spans (flatten b.exported) ++ t)
      (ap (λ q. spans b.batch ++ spans q) e
        ∙ ap (λ t. spans b.batch ++ t) (spans-append (sd ∷ []) queue)
        ∙ sym (append_assoc (spans b.batch) (spans (sd ∷ [])) (spans queue))
        ∙ ap (λ t. t ++ spans queue) (sym (spans-append b.batch (sd ∷ []))))

held-export :
    (b : Batcher) → held b ≡ spans (flatten (b.exported ++ (b.batch ∷ []))) ++ ([] ++ spans b.queue)
held-export b =
    sym (append_assoc (spans (flatten b.exported)) (spans b.batch) (spans b.queue))
    ∙ ap (λ t. t ++ spans b.queue) (sym (spans-append (flatten b.exported) b.batch))
    ∙ ap (λ t. spans t ++ spans b.queue) (sym (flatten-snoc b.exported b.batch))

pub conserved-send :
    (b : Batcher) (sd : Item)
    → spans b.sent ≡ held b
    → spans (b.sent ++ (sd ∷ []))
      ≡ spans (flatten b.exported) ++ (spans b.batch ++ spans (b.queue ++ (sd ∷ [])))
conserved-send b sd e =
    spans-append b.sent (sd ∷ [])
    ∙ ap (λ t. t ++ spans (sd ∷ [])) e
    ∙ append_assoc (spans (flatten b.exported)) (spans b.batch ++ spans b.queue) (spans (sd ∷ []))
    ∙ ap (λ t. spans (flatten b.exported) ++ t)
        (append_assoc (spans b.batch) (spans b.queue) (spans (sd ∷ []))
          ∙ ap (λ t. spans b.batch ++ t) (sym (spans-append b.queue (sd ∷ []))))

All-snoc :
    (P : List Item → Type 0) (ls : List (List Item)) (l : List Item)
    → All P ls
    → P l
    → All P (ls ++ (l ∷ []))
All-snoc P [] l a p = (p, tt)
All-snoc P (x ∷ ls) l (q, a) p = (q, All-snoc P ls l a p)

-- The three facts that hold wherever the worker is.
pub record Core (o : BatchOptions) (b : Batcher) : Type 0 where
  pub conserved : spans b.sent ≡ held b
  pub queue_fits : length b.queue ≤ o.max_queue_size
  pub batches_fit : All (λ l. length l ≤ o.max_export_batch_size) b.exported

pub core : (o : BatchOptions) (b : Batcher) → BatchInv o b → Core o b
core o b i = record {
  conserved = i.conserved;
  queue_fits = i.queue_fits;
  batches_fit = i.batches_fit;
}

pub export_spans-Core :
    (o : BatchOptions) (b : Batcher)
    → Core o b
    → length b.batch ≤ o.max_export_batch_size
    → Core o (export_spans b)
unfolding export_spans
export_spans-Core o b i fits = elim (Bool-cases (ltb 0 (length b.batch))) [
  | inr none_batched ↦ rw none_batched i
  | inl some_batched ↦ rw some_batched (record {
    conserved = i.conserved ∙ held-export b;
    queue_fits = i.queue_fits;
    batches_fit =
        All-snoc (λ l. length l ≤ o.max_export_batch_size) b.exported b.batch i.batches_fit fits;
  })
]

pub no_items : (l : List Item) → ltb 0 (length l) ≡ false → l ≡ []
no_items [] h = refl
no_items (x ∷ l) h = absurd (ground arith)

-- `exportSpans` empties the batch and leaves the queue.
pub export_spans-lem :
    (b : Batcher)
    → ((export_spans b).batch ≡ [])
      × ((export_spans b).queue ≡ b.queue)
      × ((export_spans b).is_open ≡ b.is_open)
      × ((export_spans b).phase ≡ b.phase)
unfolding export_spans
export_spans-lem b = elim (Bool-cases (ltb 0 (length b.batch))) [
  | inl some_batched ↦ rw some_batched (refl, refl, refl, refl)
  | inr none_batched ↦ rw none_batched (no_items b.batch none_batched, refl, refl, refl)
]

pub batch_fits : (n : ℕ) (p : Phase) (b : Batcher) → Placed n p b → length b.batch ≤ n
batch_fits n processing b (l, op) = omega arith
batch_fits n export_due b (l, op) = l
batch_fits n draining b l = omega arith
batch_fits n drain_export_due b l = l
batch_fits n final_export b (l, q, op) = omega arith
batch_fits n finished b (e, q, op) = rw e (omega arith)

-- A smaller batch, with the queue and its state unchanged, is as good.
pub Placed-emptied :
    (n : ℕ) (p : Phase) (b c : Batcher)
    → c.batch ≡ []
    → c.queue ≡ b.queue
    → c.is_open ≡ b.is_open
    → Placed n p b
    → Placed n p c
Placed-emptied n processing b c e q op (l, h) = (rw e (omega arith), op ∙ h)
Placed-emptied n export_due b c e q op (l, h) = (rw e (omega arith), op ∙ h)
Placed-emptied n draining b c e q op l = rw e (omega arith)
Placed-emptied n drain_export_due b c e q op l = rw e (omega arith)
Placed-emptied n final_export b c e q op (l, none_queued, h) =
    (rw e (omega arith), q ∙ none_queued, op ∙ h)
Placed-emptied n finished b c e q op (l, none_queued, h) = (e, q ∙ none_queued, op ∙ h)

-- An open queue may grow: no place of the worker where the queue is open tells of it.
pub Placed-sent :
    (n : ℕ) (p : Phase) (b : Batcher) (queue sent : List Item)
    → b.is_open ≡ true
    → Placed n p b
    → Placed n p (record b { queue = queue; sent = sent })
Placed-sent n processing b queue sent op h = h
Placed-sent n export_due b queue sent op h = h
Placed-sent n draining b queue sent op h = h
Placed-sent n drain_export_due b queue sent op h = h
Placed-sent n final_export b queue sent op (l, q, closed) = absurd (ground arith)
Placed-sent n finished b queue sent op (l, q, closed) = absurd (ground arith)

-- What a place tells, it tells of the batch and the queue.
pub Placed-same :
    (n : ℕ) (p : Phase) (b c : Batcher)
    → c.batch ≡ b.batch
    → c.queue ≡ b.queue
    → c.is_open ≡ b.is_open
    → Placed n p b
    → Placed n p c
Placed-same n processing b c e q op (l, h) = (rw e l, op ∙ h)
Placed-same n export_due b c e q op (l, h) = (rw e l, op ∙ h)
Placed-same n draining b c e q op l = rw e l
Placed-same n drain_export_due b c e q op l = rw e l
Placed-same n final_export b c e q op (l, none_queued, h) = (rw e l, q ∙ none_queued, op ∙ h)
Placed-same n finished b c e q op (l, none_queued, h) = (e ∙ l, q ∙ none_queued, op ∙ h)
