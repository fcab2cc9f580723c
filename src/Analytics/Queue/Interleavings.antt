-- ===== src/Analytics/Queue/Interleavings.antt =====
-- Any interleaving of the calls of the bounded queue (src/analytics/bounded_click_event_queue.cpp)
-- by any number of threads.
use url_shortener.Prelude.{
  ℕ, ◌+◌, ◌%◌, ◌^◌, ◌≤◌, ◌≡◌, refl, sym, ap, ◌∙◌, inl, inr, Option, none, some, List, [], ◌∷◌, ◌++◌,
  append_assoc, arith, leb, Bool-cases, length, length-append,
}
use url_shortener.Analytics.Queue.{
  EnqueueResult, enqueued, dropped_full, Queue, new_queue, try_enqueue, try_dequeue, pop_front,
  notify_stop,
}

-- The queue with what went in, what came out and how many events were refused.
pub record History (E : Type 0) : Type 0 where
  pub now : Queue E
  pub accepted : List E
  pub delivered : List E
  pub refused : ℕ

module _ {E : Type 0} where
  -- What a call of `TryEnqueue` adds to the history.
  abbrev pub after_enqueue : E → History E → EnqueueResult × Queue E → History E
  after_enqueue event h (enqueued, q) = record h { now = q; accepted = h.accepted ++ event ∷ [] }
  after_enqueue event h (dropped_full, q) = record h { now = q; refused = h.refused + 1 }

  -- What a dequeuing call adds.
  abbrev pub after_dequeue : History E → Option E × Queue E → History E
  after_dequeue h (none, q) = record h { now = q }
  after_dequeue h (some event, q) = record h { now = q; delivered = h.delivered ++ event ∷ [] }

  pub data Step : History E → History E → Type 0 where
    enqueue : (h : History E) (event : E) → Step h (after_enqueue event h (try_enqueue event h.now))
    dequeue : (h : History E) → Step h (after_dequeue h (try_dequeue h.now))
    stop : (h : History E) → Step h (record h { now = notify_stop h.now })

  pub data Reach (start : History E) : History E → Type 0 where
    here : Reach start start
    next : {h k : History E} → Reach start h → Step h k → Reach start k

  -- The queue holds what was accepted and not delivered yet, in order; it is within its capacity;
  -- the counters count.
  pub record IsSound (capacity : ℕ) (h : History E) : Type 0 where
    pub same_capacity : h.now.capacity ≡ capacity
    pub fits : length h.now.queue ≤ capacity
    pub in_order : h.accepted ≡ h.delivered ++ h.now.queue
    pub counted : h.now.enqueued_total ≡ length h.accepted % 2 ^ 64
    pub dropped : h.now.dropped_total ≡ h.refused % 2 ^ 64

  -- The history that begins with a new queue.
  abbrev pub fresh : Queue E → History E
  fresh q = record { now = q; accepted = []; delivered = []; refused = 0 }

  try_enqueue-IsSound :
      (capacity : ℕ) (h : History E) (event : E)
      → IsSound capacity h
      → IsSound capacity (after_enqueue event h (try_enqueue event h.now))
  unfolding try_enqueue
  try_enqueue-IsSound capacity h event s =
      elim (Bool-cases (leb h.now.capacity (length h.now.queue))) [
        | inl full ↦ rw full (record {
          same_capacity = s.same_capacity;
          fits = s.fits;
          in_order = s.in_order;
          counted = s.counted;
          dropped = omega (arith, s.dropped);
        })
        | inr room ↦ rw room (record {
          same_capacity = s.same_capacity;
          fits = ground (arith, s.same_capacity, length-append h.now.queue (event ∷ []));
          in_order = rw s.in_order (append_assoc h.delivered h.now.queue (event ∷ []));
          counted = omega (arith, s.counted, length-append {0} h.accepted (event ∷ []));
          dropped = s.dropped;
        })
      ]

  pop_front-IsSound :
      (capacity : ℕ) (h : History E) (events : List E)
      → h.now.queue ≡ events
      → IsSound capacity h
      → IsSound capacity (after_dequeue h (pop_front events h.now))
  unfolding pop_front
  pop_front-IsSound capacity h [] e s = s
  pop_front-IsSound capacity h (event ∷ rest) e s = record {
    same_capacity = s.same_capacity;
    fits = omega (arith, s.fits, ap length e);
    in_order = s.in_order ∙ rw e (sym (append_assoc h.delivered (event ∷ []) rest));
    counted = s.counted;
    dropped = s.dropped;
  }

  Step-IsSound :
      (capacity : ℕ) {h k : History E} → Step h k → IsSound capacity h → IsSound capacity k
  unfolding try_dequeue notify_stop
  Step-IsSound capacity (enqueue h event) s = try_enqueue-IsSound capacity h event s
  Step-IsSound capacity (dequeue h) s = pop_front-IsSound capacity h h.now.queue refl s
  Step-IsSound capacity (stop h) s = record {
    same_capacity = s.same_capacity;
    fits = s.fits;
    in_order = s.in_order;
    counted = s.counted;
    dropped = s.dropped;
  }

  Reach-IsSound :
      (capacity : ℕ) {start h : History E}
      → IsSound capacity start
      → Reach start h
      → IsSound capacity h
  Reach-IsSound capacity s here = s
  Reach-IsSound capacity s (next r st) = Step-IsSound capacity st (Reach-IsSound capacity s r)

  -- However the calls of producers, the worker and the stop are interleaved after the queue was
  -- made: what was accepted is what was delivered, in order, followed by what is queued; no more
  -- events are queued than the capacity; and the two counters count the accepted and the refused
  -- events modulo 2^64.
  pub new_queue-IsSound :
      (capacity : ℕ) (q : Queue E) (h : History E)
      → new_queue capacity ≡ some q
      → Reach (fresh q) h
      → IsSound capacity h
  unfolding new_queue
  new_queue-IsSound capacity q h made r =
      Reach-IsSound capacity
        (record {
          same_capacity = ground arith;
          fits = ground arith;
          in_order = ground arith;
          counted = ground arith;
          dropped = ground arith;
        })
        r
