-- ===== src/Analytics/LegacyQueue.antt =====
-- src/analytics/click_event_queue.cpp: the queue of the running server, whose capacity follows the
-- configuration. Each call holds the mutex throughout, so it is one step.
use url_shortener.Prelude.{
  ℕ, suc, ◌+◌, ◌%◌, ◌^◌, ◌≤◌, ◌≡◌, refl, ap, inl, inr, Bool, true, false, List, [], ◌∷◌, ◌++◌,
  arith, ltb, leb, ◌==◌, if◌then◌else◌, Bool-cases, length, length-append,
}
use Prim.Native.Nat.{min}
use url_shortener.Core.Link.{ClickEvent}

-- The counters are `uint64_t`.
pub record Queue : Type 0 where
  pub capacity : ℕ
  pub events : List ClickEvent
  pub enqueued_total : ℕ
  pub dropped_total : ℕ

-- The loop of `resetCapacity`: the oldest events go first.
unfoldable pub shrink : List ClickEvent → ℕ → ℕ → List ClickEvent × ℕ
shrink [] capacity dropped = ([], dropped)
shrink (e ∷ events) capacity dropped =
    let rest = shrink events capacity ((dropped + 1) % 2 ^ 64) in
    if ltb capacity (suc (length events)) then rest else (e ∷ events, dropped)

unfoldable pub reset_capacity : ℕ → Queue → Queue
reset_capacity capacity queue =
    let (events, dropped) = shrink queue.events capacity queue.dropped_total in
    record queue { capacity = capacity; events = events; dropped_total = dropped }

unfoldable pub try_enqueue : ClickEvent → Queue → Bool × Queue
try_enqueue event queue =
    if leb queue.capacity (length queue.events)
    then (false, record queue { dropped_total = (queue.dropped_total + 1) % 2 ^ 64 })
    else (
      true,
      record queue {
        events = queue.events ++ event ∷ [];
        enqueued_total = (queue.enqueued_total + 1) % 2 ^ 64;
      },
    )

-- `analyticsQueue(config)`: the queue, after a change of the configured capacity since the last
-- call, whose capacity `last_capacity` keeps.
unfoldable pub analytics_queue : ℕ → ℕ → Queue → ℕ × Queue
analytics_queue configured last_capacity queue =
    if last_capacity == configured
    then (last_capacity, queue)
    else (configured, reset_capacity configured queue)

pub shrink-fits :
    (events : List ClickEvent) (capacity dropped : ℕ)
    → length (shrink events capacity dropped).0 ≡ min capacity (length events)
unfolding shrink
shrink-fits [] capacity dropped = omega arith
shrink-fits (e ∷ events) capacity dropped =
    ground (arith, shrink-fits events capacity ((dropped + 1) % 2 ^ 64))

-- Shrinking keeps the newest events: what is left is the end of the queue.
pub shrink-suffix :
    (events : List ClickEvent) (capacity dropped : ℕ)
    → (old : List ClickEvent) × (events ≡ old ++ (shrink events capacity dropped).0)
unfolding shrink
shrink-suffix [] capacity dropped = ([], refl)
shrink-suffix (e ∷ events) capacity dropped =
    elim (Bool-cases (ltb capacity (suc (length events)))) [
      | inl h ↦
          let (old, p) = shrink-suffix events capacity ((dropped + 1) % 2 ^ 64) in
          (e ∷ old, rw h (ap (λ l. e ∷ l) p))
      | inr h ↦ ([], rw h)
    ]

abbrev pub IsBounded : Queue → Type 0
IsBounded q = length q.events ≤ q.capacity

-- Neither an event nor a new capacity lets the queue outgrow its capacity.
pub legacy_queue-IsBounded :
    (q : Queue) (event : ClickEvent) (capacity : ℕ)
    → IsBounded q
    → IsBounded (try_enqueue event q).1 × IsBounded (reset_capacity capacity q)
unfolding try_enqueue reset_capacity
legacy_queue-IsBounded q event capacity h = (
  ground (arith, length-append q.events (event ∷ [])),
  omega (arith, shrink-fits q.events capacity q.dropped_total),
)
