-- ===== src/Analytics/Worker/Flush.antt =====
-- One flush of the worker (src/analytics/analytics_worker.cpp: FlushOnce, PersistWithRetry).
use url_shortener.Prelude.{
  ℕ, zero, suc, ◌≤◌, ◌≡◌, refl, sym, ◌⊎◌, inl, Bool, true, List, [], ◌∷◌, ◌++◌, append-nil, arith,
  if◌then◌else◌, length, false,
}
use url_shortener.Analytics.Queue.{Queue}
use url_shortener.Analytics.Worker.{
  MetricsCall, on_persisted, on_worker_failure, set_queue_depth, WorkerConfig, Worker, collect,
  persist_with_retry, flush_batch, flush_once,
}
use url_shortener.Analytics.Worker.Batches.{collect-length, collect-order, collect-full, arrived}

-- What `InsertBatch` does to the stored events: all of the batch, or, on failure, nothing.
module _ {E R : Type 0} (insert : List E → R → Bool × R) (stored : R → List E) where
  abbrev pub IsAtomic : Type 0
  IsAtomic =
      (batch : List E) (repo : R)
      → stored (insert batch repo).1
        ≡ (if (insert batch repo).0 then stored repo ++ batch else stored repo)

  pub persist_with_retry-stored :
      IsAtomic
      → (n : ℕ) (batch : List E) (repo : R)
      → stored (persist_with_retry insert n batch repo).1
        ≡ (if (persist_with_retry insert n batch repo).0 then stored repo ++ batch else stored repo)
  unfolding persist_with_retry
  persist_with_retry-stored atomic zero batch repo = atomic batch repo
  persist_with_retry-stored atomic (suc n) batch repo =
      ground
        (arith, atomic batch repo, persist_with_retry-stored atomic n batch (insert batch repo).1)

  -- A batch that the repository takes at once is stored.
  persist_with_retry-taken :
      (n : ℕ) (batch : List E) (repo : R)
      → ((persist_with_retry insert n batch repo).0 ≡ true) ⊎ ((insert batch repo).0 ≡ false)
  unfolding persist_with_retry
  persist_with_retry-taken zero batch repo = ground arith
  persist_with_retry-taken (suc n) batch repo = ground arith

  -- What the two metrics calls of a flush say of a batch.
  abbrev pub reports : Bool → List E → Queue E → List MetricsCall
  reports ok [] q = []
  reports ok (e ∷ batch) q =
      (if ok then on_persisted (length (e ∷ batch)) else on_worker_failure)
      ∷ set_queue_depth (length q.queue)
      ∷ []

  pub flush_batch_lem :
      IsAtomic
      → (config : WorkerConfig) (batch : List E) (q : Queue E) (w : Worker E R)
      → (ok : Bool) × (stored (flush_batch insert config batch q w).repo
          ≡ stored w.repo ++ (if ok then batch else []))
        × ((flush_batch insert config batch q w).metrics ≡ w.metrics ++ reports ok batch q)
        × ((flush_batch insert config batch q w).queue ≡ q)
        × ((ok ≡ true) ⊎ ((insert batch w.repo).0 ≡ false))
  unfolding flush_batch
  flush_batch_lem atomic config [] q w =
      (true, sym (append-nil (stored w.repo)), sym (append-nil w.metrics), refl, inl refl)
  flush_batch_lem atomic config (e ∷ batch) q w = (
    (persist_with_retry insert config.max_retry_attempts (e ∷ batch) w.repo).0,
    ground (
      arith,
      persist_with_retry-stored atomic config.max_retry_attempts (e ∷ batch) w.repo,
      append-nil (stored w.repo),
    ),
    refl,
    refl,
    persist_with_retry-taken config.max_retry_attempts (e ∷ batch) w.repo,
  )

  -- A flush over a repository that stores a batch wholly or not at all: a batch leaves the queue
  -- from its front, and with what stays in it, it is what was queued and behind it what came in
  -- meanwhile as far as there was room, in order. The batch is as large as configured, or smaller
  -- with nothing left in the queue. It is stored once, or not at all, and then the repository
  -- refused it at first; the metrics are told which.
  pub flush_once_lem :
      IsAtomic
      → (config : WorkerConfig) (arrivals : ℕ → List E) (w : Worker E R)
      → (let after = flush_once insert config arrivals w in
          (batch : List E) × (ok : Bool) × (length batch ≤ config.batch_size)
          × ((length batch ≡ config.batch_size) ⊎ (after.queue.queue ≡ []))
          × (batch ++ after.queue.queue
              ≡ w.queue.queue ++ arrived w.queue.capacity config.batch_size arrivals w.queue.queue)
          × ((ok ≡ true) ⊎ ((insert batch w.repo).0 ≡ false))
          × (stored after.repo ≡ stored w.repo ++ (if ok then batch else []))
          × (after.metrics ≡ w.metrics ++ reports ok batch after.queue))
  unfolding flush_once
  flush_once_lem atomic config arrivals w =
      let (ok, s, m, k, t) =
        flush_batch_lem atomic config (collect config.batch_size arrivals w.queue).0
          (collect config.batch_size arrivals w.queue).1 w in
      (
        (collect config.batch_size arrivals w.queue).0,
        ok,
        collect-length config.batch_size arrivals w.queue,
        rw k (collect-full config.batch_size arrivals w.queue),
        rw k (collect-order config.batch_size arrivals w.queue),
        t,
        s,
        rw k m,
      )
