-- ===== src/SdkTrace/Span/Methods/Counts.antt =====
-- What the spans keep of the attributes of an event or link, and what the copy of a span counts.
use mathlib.Core.Path.{subst}
use opentelemetry_go.Prelude.{
  take-short, ℕ, zero, suc, ◌-◌, sym, ap, inl, inr, Bool-cases, Bytes, ◌≡◌, refl, true, false, List,
  [], if◌then◌else◌, arith, length, length-drop, drop, ◌∙◌, ltb, ◌==◌, take,
}
use opentelemetry_go.Prelude.Int.{pos}
use opentelemetry_go.Attribute.{KeyValue}
use opentelemetry_go.SdkTrace.EvictedQueue.{EvictedQueue, new_evicted_queue, add, add_all}
use opentelemetry_go.SdkTrace.EvictedQueue.Last.{IsLast, add_all-Evicted}
use opentelemetry_go.SdkTrace.Span.{Event, RecordingSpan}
use opentelemetry_go.SdkTrace.Span.Methods.{
  limit_attributes, EventConfig, add_event_unchecked, snapshot_of, snapshot,
}

suc-==-zero : (n : ℕ) → (suc n == 0) ≡ false
suc-==-zero n = ground arith

zero-ltb-suc : (n : ℕ) → ltb 0 (suc n) ≡ true
zero-ltb-suc n = ground arith

limit_attributes-take :
    (n : ℕ) (attrs : List KeyValue)
    → limit_attributes (pos n) attrs ≡ (take n attrs, length attrs - n)
unfolding limit_attributes
limit_attributes-take zero attrs = ap (λ dropped. ([], dropped)) (omega arith)
limit_attributes-take (suc n) attrs = elim (Bool-cases (ltb (suc n) (length attrs))) [
  | inl over ↦ rw (suc-==-zero n, zero-ltb-suc n, over) refl
  | inr fits ↦
      rw (suc-==-zero n, zero-ltb-suc n, fits)
        (rw (take-short (suc n) attrs (ground arith))
          (ap (λ dropped. (attrs, dropped)) (ground arith)))
]

-- The event that `addEvent` adds to the queue keeps, under a limit of `n` attributes for each event,
-- the first `n` of those given, all if there are fewer, and counts the others as dropped. It does
-- so for a limit of 0 as well.
pub add_event_unchecked-lem :
    (s : RecordingSpan) (name : Bytes) (c : EventConfig) (n : ℕ)
    → s.limits.attribute_per_event_count_limit ≡ pos n
    → (add_event_unchecked s name c).events
      ≡ add s.events (record {
        name = name;
        attributes = take n c.attributes;
        dropped_attribute_count = length c.attributes - n;
        time = c.timestamp;
      })
unfolding add_event_unchecked
add_event_unchecked-lem s name c n e = rw (e, limit_attributes-take n c.attributes) refl

-- The events of the copy are those of the span, and the count is copied where there are any.
snapshot-copied :
    (s : RecordingSpan)
    → ((snapshot s).1.events ≡ s.events.queue)
      × ((snapshot s).1.dropped_event_count
          ≡ (if ltb 0 (length s.events.queue) then s.events.dropped_count else 0))
unfolding snapshot snapshot_of
snapshot-copied s = ground arith

counted :
    (n : ℕ) (events : List Event) (q : EvictedQueue Event)
    → IsLast n events 0 q
    → (if ltb 0 (length q.queue) then q.dropped_count else 0)
      ≡ (if n == 0 then 0 else length events - n)
counted n events q (e, d) = ground (arith, e, d, length-drop (length events - n) events)

-- The copy of a span whose queue, of capacity `n`, was given the events of a list has the last `n`
-- of them, in order, and the number of the others; but for a capacity of 0 that number is 0, though
-- all are dropped.
pub snapshot-events :
    (s : RecordingSpan) (n : ℕ) (events : List Event)
    → s.events ≡ add_all (new_evicted_queue (pos n)) events
    → ((snapshot s).1.events ≡ drop (length events - n) events)
      × ((snapshot s).1.dropped_event_count ≡ (if n == 0 then 0 else length events - n))
snapshot-events s n events e =
    let given = subst (IsLast n events 0) (sym e) (add_all-Evicted (pos n) events) in
    let (copied, count) = snapshot-copied s in
    (copied ∙ given.0, count ∙ counted n events s.events given)
