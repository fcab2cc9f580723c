-- ===== src/Analytics/Worker/Drain.antt =====
-- The end of the worker (src/analytics/analytics_worker.cpp: Run behind Stop).
use url_shortener.Prelude.{
  ℕ, zero, suc, ◌-◌, ◌<◌, ◌≡◌, refl, sym, ap, ◌∙◌, inl, inr, Bool, true, false, some, List, [], ◌∷◌,
  ◌++◌, append-nil, append_assoc, arith, Bool-cases, length, take, drop, is_empty, take-append-drop,
}
use url_shortener.Analytics.Queue.{Queue}
use url_shortener.Analytics.Worker.{
  WorkerConfig, enqueue_all, Worker, collect, persist_with_retry, flush_batch, flush_once, run,
}
use url_shortener.Analytics.Worker.Batches.{wait-order, collect_none, collect_end, collect_more}
use url_shortener.Analytics.Worker.Flush.{IsAtomic, persist_with_retry-stored}

module _ {E : Type 0} where
  abbrev pub IsQuiet : (ℕ → List E) → Type 0
  IsQuiet arrivals = (i : ℕ) → arrivals i ≡ []

  enqueue_none :
      (arrivals : ℕ → List E) → IsQuiet arrivals → (q : Queue E) → enqueue_all (arrivals 0) q ≡ q
  unfolding enqueue_all
  enqueue_none arrivals quiet q = rw (quiet 0)

  -- When nothing comes in, a batch is the front of the queue.
  collect-quiet :
      (n : ℕ) (arrivals : ℕ → List E) (q : Queue E)
      → IsQuiet arrivals
      → ((collect n arrivals q).0 ≡ take n q.queue)
        × ((collect n arrivals q).1.queue ≡ drop n q.queue)
  collect-quiet zero arrivals q quiet = rw (collect_none arrivals q) (refl, refl)
  collect-quiet (suc n) arrivals q quiet = elim (wait-order q) [
    | inl (e, nil) ↦
        rw (collect_end n arrivals q q (rw (enqueue_none arrivals quiet q) e), nil) (refl, refl)
    | inr (event, left, e, d) ↦
        let next : Queue E = record q { queue = left } in
        let (batch, rest) = collect-quiet n (λ i. arrivals (suc i)) next (λ i. quiet (suc i)) in
        rw (collect_more n arrivals q next event (rw (enqueue_none arrivals quiet q) d), e)
          (ap (λ xs. event ∷ xs) batch, rest)
  ]

  length-drop : (n : ℕ) (xs : List E) → length (drop n xs) ≡ length xs - n
  length-drop zero xs = omega arith
  length-drop (suc n) [] = omega arith
  length-drop (suc n) (x ∷ xs) = omega (arith, length-drop n xs)

module _ {E R : Type 0} (insert : List E → R → Bool × R) (stored : R → List E) where
  abbrev pub IsReliable : Type 0
  IsReliable = (batch : List E) (repo : R) → (insert batch repo).0 ≡ true

  batch-queue :
      (config : WorkerConfig) (batch : List E) (q : Queue E) (w : Worker E R)
      → (flush_batch insert config batch q w).queue ≡ q
  unfolding flush_batch
  batch-queue config [] q w = refl
  batch-queue config (e ∷ batch) q w = refl

  flush-queue :
      (config : WorkerConfig) (arrivals : ℕ → List E) (w : Worker E R)
      → IsQuiet arrivals
      → (flush_once insert config arrivals w).queue.queue ≡ drop config.batch_size w.queue.queue
  unfolding flush_once
  flush-queue config arrivals w quiet =
      rw
        (batch-queue config (collect config.batch_size arrivals w.queue).0
          (collect config.batch_size arrivals w.queue).1 w)
        (collect-quiet config.batch_size arrivals w.queue quiet).1

  persist-reliable :
      IsReliable
      → (n : ℕ) (batch : List E) (repo : R) → (persist_with_retry insert n batch repo).0 ≡ true
  unfolding persist_with_retry
  persist-reliable reliable zero batch repo = reliable batch repo
  persist-reliable reliable (suc n) batch repo = rw (reliable batch repo) refl

  batch-stored :
      IsAtomic insert stored
      → IsReliable
      → (config : WorkerConfig) (batch : List E) (q : Queue E) (w : Worker E R)
      → stored (flush_batch insert config batch q w).repo ≡ stored w.repo ++ batch
  unfolding flush_batch
  batch-stored atomic reliable config [] q w = sym (append-nil (stored w.repo))
  batch-stored atomic reliable config (e ∷ batch) q w = ground (
    arith,
    persist_with_retry-stored insert stored atomic config.max_retry_attempts (e ∷ batch) w.repo,
    persist-reliable reliable config.max_retry_attempts (e ∷ batch) w.repo,
  )

  flush-stored :
      IsAtomic insert stored
      → IsReliable
      → (config : WorkerConfig) (arrivals : ℕ → List E) (w : Worker E R) → IsQuiet arrivals
      → stored (flush_once insert config arrivals w).repo
        ≡ stored w.repo ++ take config.batch_size w.queue.queue
  unfolding flush_once
  flush-stored atomic reliable config arrivals w quiet =
      batch-stored atomic reliable config (collect config.batch_size arrivals w.queue).0
        (collect config.batch_size arrivals w.queue).1 w
      ∙ ap (λ batch. stored w.repo ++ batch)
          (collect-quiet config.batch_size arrivals w.queue quiet).0

  run_more :
      (fuel : ℕ) (config : WorkerConfig) (is_stopping : ℕ → Bool) (arrivals : ℕ → ℕ → List E)
      (w : Worker E R)
      → is_empty (flush_once insert config (arrivals 0) w).queue.queue ≡ false
      → run insert (suc fuel) config is_stopping arrivals w
        ≡ run insert fuel config
            (λ i. is_stopping (suc i))
            (λ i. arrivals (suc i))
            (flush_once insert config (arrivals 0) w)
  unfolding run
  run_more fuel config is_stopping arrivals w h = ground (arith, h)

  run_end :
      (fuel : ℕ) (config : WorkerConfig) (is_stopping : ℕ → Bool) (arrivals : ℕ → ℕ → List E)
      (w : Worker E R)
      → is_empty (flush_once insert config (arrivals 0) w).queue.queue ≡ true
      → is_stopping 0 ≡ true
      → run insert (suc fuel) config is_stopping arrivals w
        ≡ some (flush_once insert config (arrivals 0) w)
  unfolding run
  run_end fuel config is_stopping arrivals w h k = ground (arith, h, k)

  shorter :
      (config : WorkerConfig) (arrivals : ℕ → List E) (w : Worker E R) (fuel : ℕ)
      → IsQuiet arrivals
      → 0 < config.batch_size
      → length w.queue.queue < suc fuel
      → is_empty (flush_once insert config arrivals w).queue.queue ≡ false
      → length (flush_once insert config arrivals w).queue.queue < fuel
  shorter config arrivals w fuel quiet h few e =
      let q : (flush_once insert config arrivals w).queue.queue
          ≡ drop config.batch_size w.queue.queue =
        flush-queue config arrivals w quiet in
      ground (
        arith,
        q,
        length-drop config.batch_size w.queue.queue,
        length_zero (drop config.batch_size w.queue.queue),
      )
    where
      length_zero : (xs : List E) → is_empty xs ≡ false → 0 < length xs
      length_zero xs h = ground arith

  -- Once the worker is told to stop and nothing comes in any more, with a batch size above 0 its
  -- loop ends after at most one round more than there are events, and leaves the queue empty.
  pub run-returns :
      (fuel : ℕ) (config : WorkerConfig) (is_stopping : ℕ → Bool) (arrivals : ℕ → ℕ → List E)
      (w : Worker E R)
      → 0 < config.batch_size
      → ((i : ℕ) → is_stopping i ≡ true)
      → ((i : ℕ) → IsQuiet (arrivals i))
      → length w.queue.queue < fuel
      → (after : Worker E R) × (run insert fuel config is_stopping arrivals w ≡ some after)
        × (after.queue.queue ≡ [])
  run-returns zero config is_stopping arrivals w h k quiet few = absurd (omega (arith, few))
  run-returns (suc fuel) config is_stopping arrivals w h k quiet few =
      let next = flush_once insert config (arrivals 0) w in
      elim (Bool-cases (is_empty (flush_once insert config (arrivals 0) w).queue.queue)) [
        | inl e ↦ (next, run_end fuel config is_stopping arrivals w e (k 0), ground (arith, e))
        | inr e ↦
            let (after, p, q) =
              run-returns fuel config (λ i. is_stopping (suc i)) (λ i. arrivals (suc i)) next h
                (λ i. k (suc i)) (λ i. quiet (suc i))
                (shorter config (arrivals 0) w fuel (quiet 0) h few e) in
            (after, run_more fuel config is_stopping arrivals w e ∙ p, q)
      ]

  flush-all :
      IsAtomic insert stored
      → IsReliable
      → (config : WorkerConfig) (arrivals : ℕ → List E) (w : Worker E R) → IsQuiet arrivals
      → stored (flush_once insert config arrivals w).repo
          ++ (flush_once insert config arrivals w).queue.queue
        ≡ stored w.repo ++ w.queue.queue
  flush-all atomic reliable config arrivals w quiet =
      rw (flush-stored atomic reliable config arrivals w quiet, flush-queue config arrivals w quiet)
        (append_assoc (stored w.repo) (take config.batch_size w.queue.queue)
            (drop config.batch_size w.queue.queue)
          ∙ ap (λ xs. stored w.repo ++ xs) (take-append-drop config.batch_size w.queue.queue))

  -- What is stored, followed by what is queued, stays the same.
  run-kept :
      IsAtomic insert stored
      → IsReliable
      → (fuel : ℕ) (config : WorkerConfig) (is_stopping : ℕ → Bool) (arrivals : ℕ → ℕ → List E)
        (w after : Worker E R)
      → ((i : ℕ) → IsQuiet (arrivals i))
      → run insert fuel config is_stopping arrivals w ≡ some after
      → stored after.repo ++ after.queue.queue ≡ stored w.repo ++ w.queue.queue
  unfolding run
  run-kept atomic reliable zero config is_stopping arrivals w after quiet e =
      absurd (ground (arith, e))
  run-kept atomic reliable (suc fuel) config is_stopping arrivals w after quiet e = ground (
    arith,
    flush-all atomic reliable config (arrivals 0) w (quiet 0),
    run-kept atomic reliable fuel config (λ i. is_stopping (suc i)) (λ i. arrivals (suc i))
        (flush_once insert config (arrivals 0) w) after (λ i. quiet (suc i)),
  )

  run-empty :
      (fuel : ℕ) (config : WorkerConfig) (is_stopping : ℕ → Bool) (arrivals : ℕ → ℕ → List E)
      (w after : Worker E R)
      → run insert fuel config is_stopping arrivals w ≡ some after
      → after.queue.queue ≡ []
  unfolding run
  run-empty zero config is_stopping arrivals w after e = absurd (ground (arith, e))
  run-empty (suc fuel) config is_stopping arrivals w after e = ground (
    arith,
    run-empty fuel config (λ i. is_stopping (suc i)) (λ i. arrivals (suc i))
        (flush_once insert config (arrivals 0) w) after,
  )

  -- If nothing comes in and the repository stores every batch, then when the loop ends the queue is
  -- empty and all the events that were queued are stored, in the order of the queue.
  pub run-stored :
      IsAtomic insert stored
      → IsReliable
      → (fuel : ℕ) (config : WorkerConfig) (is_stopping : ℕ → Bool) (arrivals : ℕ → ℕ → List E)
        (w after : Worker E R)
      → ((i : ℕ) → IsQuiet (arrivals i))
      → run insert fuel config is_stopping arrivals w ≡ some after
      → (after.queue.queue ≡ []) × (stored after.repo ≡ stored w.repo ++ w.queue.queue)
  run-stored atomic reliable fuel config is_stopping arrivals w after quiet e =
      let empty = run-empty fuel config is_stopping arrivals w after e in
      (
        empty,
        sym (append-nil (stored after.repo))
            ∙ ap (λ xs. stored after.repo ++ xs) (sym empty)
            ∙ run-kept atomic reliable fuel config is_stopping arrivals w after quiet e,
      )
