-- ===== src/Tests/Analytics.antt =====
-- The theorems on src/analytics at concrete inputs.
use url_shortener.Prelude.{
  ℕ, ◌≤◌, ◌≡◌, refl, ◌⊎◌, Bool, true, false, some, List, [], ◌∷◌, ◌++◌, arith, if◌then◌else◌,
  length, Bytes, bytes, pos,
}
use url_shortener.Analytics.Queue.{
  try_enqueue, try_dequeue, pop_front, Queue, new_queue, wait_dequeue,
}
use url_shortener.Analytics.Worker.{
  on_persisted, set_queue_depth, WorkerConfig, Worker, flush_once, run, flush_batch, collect,
  enqueue_all, persist_with_retry,
}
use url_shortener.Analytics.Queue.Interleavings.{
  History, Step, enqueue, dequeue, here, next, fresh, IsSound, new_queue-IsSound,
}
use url_shortener.Analytics.Worker.Batches.{arrived}
use url_shortener.Analytics.Worker.Flush.{IsAtomic, reports, flush_once_lem}
use url_shortener.Analytics.Worker.Drain.{run-returns, run-stored}
use url_shortener.Analytics.Sanitizer.{validate_limits}
use url_shortener.Analytics.Recording.{
  AnalyticsConfig, RedirectEventContext, Recorder, record_redirect_attempt, validate_config,
}
use url_shortener.Analytics.Recording.Attempts.{
  is_recordable, IsEventOf, IsOffered, record_redirect_attempt_lem,
}
use url_shortener.Analytics.Events.{ClickEvent}

abbrev two_queue : Queue ℕ
two_queue = record { capacity = 2; queue = []; enqueued_total = 0; dropped_total = 0; stop = false }

abbrev h0 : History ℕ
h0 = fresh two_queue

abbrev h1 : History ℕ
h1 = record {
  now = record two_queue { queue = 7 ∷ []; enqueued_total = 1 };
  accepted = 7 ∷ [];
  delivered = [];
  refused = 0;
}

abbrev h2 : History ℕ
h2 = record {
  now = record two_queue { enqueued_total = 1 };
  accepted = 7 ∷ [];
  delivered = 7 ∷ [];
  refused = 0;
}

first_step : Step h0 h1
unfolding try_enqueue
first_step = enqueue h0 7

second_step : Step h1 h2
unfolding try_dequeue pop_front
second_step = dequeue h1

new_queue-IsSound_example : IsSound 2 h2
unfolding new_queue
new_queue-IsSound_example =
    new_queue-IsSound 2 two_queue h2 refl (next (next here first_step) second_step)

abbrev config : WorkerConfig
config = record { enabled = true; batch_size = 2; max_retry_attempts = 1 }

-- A repository that keeps the events in a list.
abbrev insert : List ℕ → List ℕ → Bool × List ℕ
insert batch repo = (true, repo ++ batch)

abbrev stored : List ℕ → List ℕ
stored repo = repo

insert-IsAtomic : IsAtomic insert stored
insert-IsAtomic batch repo = refl

abbrev worker : Worker ℕ (List ℕ)
worker = record {
  queue = record two_queue { queue = 7 ∷ 8 ∷ 9 ∷ []; capacity = 5 };
  repo = [];
  metrics = [];
}

flush_once_lem_example :
    (let after = flush_once insert config (λ i. i ∷ []) worker in
      (batch : List ℕ) × (ok : Bool) × (length batch ≤ 2)
      × ((length batch ≡ 2) ⊎ (after.queue.queue ≡ []))
      × (batch ++ after.queue.queue
          ≡ (7 ∷ 8 ∷ 9 ∷ []) ++ arrived 5 2 (λ i. i ∷ []) (7 ∷ 8 ∷ 9 ∷ []))
      × ((ok ≡ true) ⊎ ((insert batch []).0 ≡ false))
      × (after.repo ≡ [] ++ (if ok then batch else []))
      × (after.metrics ≡ [] ++ reports insert stored ok batch after.queue))
flush_once_lem_example = flush_once_lem insert stored insert-IsAtomic config (λ i. i ∷ []) worker

run-returns_example :
    (after : Worker ℕ (List ℕ)) × (run insert 4 config (λ i. true) (λ i j. []) worker ≡ some after)
    × (after.queue.queue ≡ [])
run-returns_example =
    run-returns insert stored 4 config (λ i. true) (λ i j. []) worker (omega arith) (λ i. refl)
      (λ i j. refl) (omega arith)

abbrev drained : Worker ℕ (List ℕ)
drained = record {
  queue = record two_queue { capacity = 5 };
  repo = 7 ∷ 8 ∷ 9 ∷ [];
  metrics = on_persisted 2 ∷ set_queue_depth 1 ∷ on_persisted 1 ∷ set_queue_depth 0 ∷ [];
}

run-stored_example : (drained.queue.queue ≡ []) × (drained.repo ≡ worker.repo ++ worker.queue.queue)
unfolding run flush_once flush_batch collect wait_dequeue pop_front enqueue_all persist_with_retry
run-stored_example =
    run-stored insert stored insert-IsAtomic (λ batch repo. refl) 4 config (λ i. true) (λ i j. [])
      worker drained (λ i j. refl) refl

abbrev analytics_config : AnalyticsConfig
analytics_config = record {
  enabled = true;
  production_mode = false;
  queue_capacity = 4;
  batch_size = 2;
  flush_interval = pos 1000;
  max_retry_attempts = 3;
  retry_backoff = pos 100;
  retention_days = 30;
  sanitization = record {
    max_referrer_bytes = 16;
    max_user_agent_bytes = 16;
    max_domain_bytes = 16;
  };
  client_hash_salt = bytes "salt";
}

abbrev context : RedirectEventContext
context = record {
  slug = bytes "docs";
  link_id = bytes "id1";
  domain = bytes "example.com";
  final_status_code = 302;
  referrer = [];
  user_agent = [];
  client_network_identifier = bytes "10.0.0.1";
  occurred_at = 5;
}

abbrev recorder : Recorder
recorder = record {
  queue = record { capacity = 4; queue = []; enqueued_total = 0; dropped_total = 0; stop = false };
  metrics = [];
}

-- It stands in for the hash.
abbrev join : Bytes → Bytes → Bytes
join identifier salt = identifier ++ salt

record_redirect_attempt_lem_example :
    ((is_recordable analytics_config (bytes "e1") context ≡ false)
      × (record_redirect_attempt join analytics_config (bytes "e1") 7 context recorder ≡ recorder))
    ⊎ ((is_recordable analytics_config (bytes "e1") context ≡ true)
        × ((e : ClickEvent) × IsEventOf join analytics_config.sanitization context e
            × IsOffered join 7 e recorder
                (record_redirect_attempt join analytics_config (bytes "e1") 7 context recorder)))
unfolding validate_config validate_limits
record_redirect_attempt_lem_example =
    record_redirect_attempt_lem join analytics_config (bytes "e1") 7 context recorder refl
