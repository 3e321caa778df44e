-- ===== src/SdkTrace/EvictedQueue.antt =====
-- sdk/trace/evictedqueue.go: the queue of the events, and of the links, of a span. A negative
-- capacity sets no limit.
pub mod Last
use opentelemetry_go.Prelude.{
  ℕ, ◌+◌, ◌-◌, ◌&&◌, List, [], ◌∷◌, ◌++◌, if◌then◌else◌, length, take, drop,
}
use opentelemetry_go.Prelude.Int.{ℤ, is_zero, is_positive, equals}
use opentelemetry_go.Text.{copy}

pub record EvictedQueue {ℓ} (A : Type ℓ) : Type ℓ where
  pub queue : List A
  pub capacity : ℤ
  pub dropped_count : ℕ

module _ {ℓ} {A : Type ℓ} where
  -- `newEvictedQueue`
  unfoldable pub new_evicted_queue : ℤ → EvictedQueue A
  new_evicted_queue capacity = record { queue = []; capacity = capacity; dropped_count = 0 }

  -- `copy(eq.queue[:eq.capacity-1], eq.queue[1:])` and the slice of it, on a full queue
  drop_first : List A → List A
  drop_first queue =
      let last = length queue - 1 in
      take last (copy (take last queue) (drop 1 queue) ++ drop last queue)

  -- `evictedQueue.add`
  unfoldable pub add : EvictedQueue A → A → EvictedQueue A
  unfolding drop_first
  add eq value =
      if is_zero eq.capacity
      then record eq { dropped_count = eq.dropped_count + 1 }
      else if is_positive eq.capacity && equals (length eq.queue) eq.capacity
      then record eq {
        queue = drop_first eq.queue ++ (value ∷ []);
        dropped_count = eq.dropped_count + 1;
      }
      else record eq { queue = eq.queue ++ (value ∷ []) }

  -- The calls of `add` for the values of a list, in order.
  unfoldable pub add_all : EvictedQueue A → List A → EvictedQueue A
  add_all eq [] = eq
  add_all eq (x ∷ xs) = add_all (add eq x) xs
