-- ===== src/Analytics/Worker.antt =====
-- src/analytics/analytics_worker.cpp: the thread that takes batches of events from the bounded
-- queue to the click repository. The repository is any implementation of `InsertBatch` over a state
-- of its own; the metrics are the sequence of calls they get.
pub mod Batches
pub mod Flush
pub mod Drain
use url_shortener.Prelude.{
  ℕ, zero, suc, Bool, true, false, ◌&&◌, not, Option, none, some, List, [], ◌∷◌, ◌++◌,
  if◌then◌else◌, length, is_empty,
}
use url_shortener.Analytics.Queue.{Queue, try_enqueue, wait_dequeue}

pub data AnalyticsWorkerState : Type 0 where
  stopped running stopping : AnalyticsWorkerState

-- The calls on `IAnalyticsMetrics`.
pub data MetricsCall : Type 0 where
  on_persisted : ℕ → MetricsCall
  on_worker_failure : MetricsCall
  set_queue_depth : ℕ → MetricsCall

pub record WorkerConfig : Type 0 where
  pub enabled : Bool
  pub batch_size : ℕ
  pub max_retry_attempts : ℕ

-- Start: whether a thread is started, and the state.
unfoldable pub start : WorkerConfig → AnalyticsWorkerState → Bool × AnalyticsWorkerState
start config running = (false, running)
start config state = if not config.enabled then (false, state) else (true, running)

-- The state that Stop sets before it waits for the thread, and the one behind that.
unfoldable pub stop : AnalyticsWorkerState → Option AnalyticsWorkerState × AnalyticsWorkerState
stop running = (some stopping, stopped)
stop state = (none, state)

pub record Worker (E R : Type 0) : Type 0 where
  pub queue : Queue E
  pub repo : R
  pub metrics : List MetricsCall

module _ {E : Type 0} where
  -- What other threads put into the queue between two steps of the worker.
  unfoldable pub enqueue_all : List E → Queue E → Queue E
  enqueue_all [] q = q
  enqueue_all (event ∷ events) q = enqueue_all events (try_enqueue event q).1

  -- The loop that fills a batch of at most `n` events; `arrivals i` come in before its step `i`. It
  -- ends early when a wait ends without an event.
  unfoldable pub collect : ℕ → (ℕ → List E) → Queue E → List E × Queue E
  collect zero arrivals q = ([], q)
  collect (suc n) arrivals q =
      let (event, q1) = wait_dequeue (enqueue_all (arrivals 0) q) in
      let (batch, q2) = collect n (λ i. arrivals (suc i)) q1 in
      elim event [ none ↦ ([], q1) | some e ↦ (e ∷ batch, q2) ]

module _ {E R : Type 0} (insert : List E → R → Bool × R) where
  -- The loop of `PersistWithRetry`, with `n` retries left behind this attempt.
  unfoldable pub persist_with_retry : ℕ → List E → R → Bool × R
  persist_with_retry zero batch repo = insert batch repo
  persist_with_retry (suc n) batch repo =
      let (ok, after) = insert batch repo in
      let rest = persist_with_retry n batch after in if ok then (true, after) else rest

  -- What `FlushOnce` does with the batch.
  unfoldable pub flush_batch : WorkerConfig → List E → Queue E → Worker E R → Worker E R
  flush_batch config [] q w = record w { queue = q }
  flush_batch config (e ∷ batch) q w =
      let (ok, repo) = persist_with_retry config.max_retry_attempts (e ∷ batch) w.repo in
      record {
        queue = q;
        repo = repo;
        metrics =
            w.metrics
            ++ (if ok then on_persisted (length (e ∷ batch)) else on_worker_failure)
              ∷ set_queue_depth (length q.queue)
              ∷ [];
      }

  unfoldable pub flush_once : WorkerConfig → (ℕ → List E) → Worker E R → Worker E R
  flush_once config arrivals w =
      let (batch, q) = collect config.batch_size arrivals w.queue in flush_batch config batch q w

  -- The loop of `Run`, for at most `fuel` rounds; `none` if it would go on. `is_stopping i` tells
  -- whether `Stop` was called by the end of round `i`, and `arrivals i` what comes in during it.
  unfoldable pub run :
      ℕ → WorkerConfig → (ℕ → Bool) → (ℕ → ℕ → List E) → Worker E R → Option (Worker E R)
  run zero config is_stopping arrivals w = none
  run (suc fuel) config is_stopping arrivals w =
      let after = flush_once config (arrivals 0) w in
      let rest = run fuel config (λ i. is_stopping (suc i)) (λ i. arrivals (suc i)) after in
      if is_stopping 0 && is_empty after.queue.queue then some after else rest
