-- ===== src/Analytics/Queue.antt =====
-- src/analytics/bounded_click_event_queue.cpp: the bounded queue between request threads and the
-- worker. Each call holds the mutex throughout, so calls of several threads are a sequence of
-- calls. The event type is left open.
pub mod Interleavings
use url_shortener.Prelude.{
  ℕ, ◌+◌, ◌%◌, ◌^◌, Bool, true, false, Option, none, some, List, [], ◌∷◌, ◌++◌, leb, ◌==◌,
  if◌then◌else◌, length,
}

pub data EnqueueResult : Type 0 where
  enqueued dropped_full : EnqueueResult

-- The counters are `uint64_t`.
pub record Queue (E : Type 0) : Type 0 where
  pub capacity : ℕ
  pub queue : List E
  pub enqueued_total : ℕ
  pub dropped_total : ℕ
  pub stop : Bool

pub record QueueStats : Type 0 where
  pub depth : ℕ
  pub enqueued_total : ℕ
  pub dropped_total : ℕ

module _ {E : Type 0} where
  -- The constructor throws for a capacity of 0.
  unfoldable pub new_queue : ℕ → Option (Queue E)
  new_queue capacity =
      if capacity == 0
      then none
      else some (record {
        capacity = capacity;
        queue = [];
        enqueued_total = 0;
        dropped_total = 0;
        stop = false;
      })

  -- The branch for a failed allocation of `push_back` is left out.
  unfoldable pub try_enqueue : E → Queue E → EnqueueResult × Queue E
  try_enqueue event q =
      if leb q.capacity (length q.queue)
      then (dropped_full, record q { dropped_total = (q.dropped_total + 1) % 2 ^ 64 })
      else (
        enqueued,
        record q {
          queue = q.queue ++ event ∷ [];
          enqueued_total = (q.enqueued_total + 1) % 2 ^ 64;
        },
      )

  unfoldable pub pop_front : List E → Queue E → Option E × Queue E
  pop_front [] q = (none, q)
  pop_front (event ∷ rest) q = (some event, record q { queue = rest })

  unfoldable pub try_dequeue : Queue E → Option E × Queue E
  try_dequeue q = pop_front q.queue q

  -- `WaitDequeue` at the moment that its wait is over: by a new event, by the stop, or by the
  -- timeout, when the queue is empty.
  unfoldable pub wait_dequeue : Queue E → Option E × Queue E
  wait_dequeue q = pop_front q.queue q

  unfoldable pub get_stats : Queue E → QueueStats
  get_stats q = record {
    depth = length q.queue;
    enqueued_total = q.enqueued_total;
    dropped_total = q.dropped_total;
  }

  unfoldable pub notify_stop : Queue E → Queue E
  notify_stop q = record q { stop = true }
