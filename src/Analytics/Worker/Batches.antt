-- ===== src/Analytics/Worker/Batches.antt =====
-- How the worker fills a batch from the queue while events come in
-- (src/analytics/analytics_worker.cpp: FlushOnce).
use url_shortener.Prelude.{
  ℕ, zero, suc, ◌≤◌, ◌≡◌, refl, sym, ap, ◌∙◌, ◌⊎◌, inl, inr, true, Option, none, some, List, [],
  ◌∷◌, ◌++◌, append-nil, append_assoc, arith, leb, Bool-cases, Option-cases, length, take,
  length-append, ◌-◌, false,
}
use url_shortener.Analytics.Queue.{Queue, try_enqueue, wait_dequeue, pop_front}
use url_shortener.Analytics.Worker.{enqueue_all, collect}

module _ {E : Type 0} where
  pub collect-length :
      (n : ℕ) (arrivals : ℕ → List E) (q : Queue E) → length (collect n arrivals q).0 ≤ n
  unfolding collect
  collect-length zero arrivals q = omega arith
  collect-length (suc n) arrivals q =
      elim (Option-cases (wait_dequeue (enqueue_all (arrivals 0) q)).0) [
        | inl e ↦ ground (arith, e)
        | inr (x, e) ↦ ground (
          arith,
          e,
          collect-length n (λ i. arrivals (suc i)) (wait_dequeue (enqueue_all (arrivals 0) q)).1,
        )
      ]

  try_enqueue-full :
      (event : E) (q : Queue E)
      → leb q.capacity (length q.queue) ≡ true
      → ((try_enqueue event q).1.queue ≡ q.queue) × ((try_enqueue event q).1.capacity ≡ q.capacity)
  unfolding try_enqueue
  try_enqueue-full event q full = rw full (refl, refl)

  try_enqueue-room :
      (event : E) (q : Queue E)
      → leb q.capacity (length q.queue) ≡ false
      → ((try_enqueue event q).1.queue ≡ q.queue ++ event ∷ [])
        × ((try_enqueue event q).1.capacity ≡ q.capacity)
  unfolding try_enqueue
  try_enqueue-room event q room = rw room (refl, refl)

  take-all_dropped : (n : ℕ) (events : List E) → n ≡ 0 → take n events ≡ []
  take-all_dropped n events e = rw e refl

  -- Of what is offered, the queue takes as many as it has room for, from the front.
  pub enqueue_all-order :
      (events : List E) (q : Queue E)
      → ((enqueue_all events q).queue ≡ q.queue ++ take (q.capacity - length q.queue) events)
        × ((enqueue_all events q).capacity ≡ q.capacity)
  unfolding enqueue_all
  enqueue_all-order [] q = (
    elim (q.capacity - length q.queue) as (λ n. q.queue ≡ q.queue ++ take n []) [
      | zero ↦ sym (append-nil q.queue)
      | suc n ↦ sym (append-nil q.queue)
    ],
    refl,
  )
  enqueue_all-order (event ∷ events) q =
      let (rest, same) = enqueue_all-order events (try_enqueue event q).1 in
      elim (Bool-cases (leb q.capacity (length q.queue))) [
        | inl full ↦
            let (kept, cap) = try_enqueue-full event q full in
            let none_left : q.capacity - length q.queue ≡ 0 = ground arith in
            (
              rest
                  ∙ rw
                      (
                        kept,
                        cap,
                        take-all_dropped (q.capacity - length q.queue) events none_left,
                        take-all_dropped (q.capacity - length q.queue) (event ∷ events) none_left,
                      )
                      refl,
              same ∙ cap,
            )
        | inr room ↦
            let (grown, cap) = try_enqueue-room event q room in
            let one_less : q.capacity - length q.queue
                ≡ suc (q.capacity - length (q.queue ++ event ∷ [])) =
              ground (arith, length-append q.queue (event ∷ [])) in
            (
              rest
                  ∙ rw (grown, cap, one_less)
                      (append_assoc q.queue (event ∷ [])
                        (take (q.capacity - length (q.queue ++ event ∷ [])) events)),
              same ∙ cap,
            )
      ]

  pop-order :
      (events : List E) (q : Queue E)
      → q.queue ≡ events
      → ((pop_front events q ≡ (none, q)) × (q.queue ≡ []))
        ⊎ ((event : E) × (rest : List E) × (q.queue ≡ event ∷ rest)
            × (pop_front events q ≡ (some event, record q { queue = rest })))
  unfolding pop_front
  pop-order [] q h = inl (refl, h)
  pop-order (event ∷ rest) q h = inr (event, rest, h, refl)

  pub wait-order :
      (q : Queue E)
      → (((wait_dequeue q) ≡ (none, q)) × (q.queue ≡ []))
        ⊎ ((event : E) × (rest : List E) × (q.queue ≡ event ∷ rest)
            × (wait_dequeue q ≡ (some event, record q { queue = rest })))
  unfolding wait_dequeue
  wait-order q = pop-order q.queue q refl

  pub collect_none : (arrivals : ℕ → List E) (q : Queue E) → collect zero arrivals q ≡ ([], q)
  unfolding collect
  collect_none arrivals q = refl

  pub collect_end :
      (n : ℕ) (arrivals : ℕ → List E) (q left : Queue E)
      → wait_dequeue (enqueue_all (arrivals 0) q) ≡ (none, left)
      → collect (suc n) arrivals q ≡ ([], left)
  unfolding collect
  collect_end n arrivals q left h = rw (h, collect) (ap (λ (r : Option E × Queue E). ([], r.1)) h)

  pub collect_more :
      (n : ℕ) (arrivals : ℕ → List E) (q left : Queue E) (event : E)
      → wait_dequeue (enqueue_all (arrivals 0) q) ≡ (some event, left)
      → collect (suc n) arrivals q ≡ (
        event ∷ (collect n (λ i. arrivals (suc i)) left).0,
        (collect n (λ i. arrivals (suc i)) left).1,
      )
  unfolding collect
  collect_more n arrivals q left event h =
      rw (h, collect)
        (ap
          (λ (r : Option E × Queue E). (
            event ∷ (collect n (λ i. arrivals (suc i)) r.1).0,
            (collect n (λ i. arrivals (suc i)) r.1).1,
          ))
          h)

  -- What comes into a queue with this capacity and these events while a batch of at most `n` is
  -- filled from it: before each step the front of what is offered, as far as there is room, until
  -- the batch is full or a step finds nothing.
  pub arrived : ℕ → ℕ → (ℕ → List E) → List E → List E
  arrived capacity zero arrivals events = []
  arrived capacity (suc n) arrivals events =
      let came = take (capacity - length events) (arrivals 0) in
      came ++ elim (events ++ came) [
        | [] ↦ []
        | _ ∷ rest ↦ arrived capacity n (λ i. arrivals (suc i)) rest
      ]

  arrived_end :
      (capacity n : ℕ) (arrivals : ℕ → List E) (events : List E)
      → events ++ take (capacity - length events) (arrivals 0) ≡ []
      → arrived capacity (suc n) arrivals events ≡ take (capacity - length events) (arrivals 0)
  unfolding arrived
  arrived_end capacity n arrivals events h =
      rw h (append-nil (take (capacity - length events) (arrivals 0)))

  arrived_more :
      (capacity n : ℕ) (arrivals : ℕ → List E) (events rest : List E) (event : E)
      → events ++ take (capacity - length events) (arrivals 0) ≡ event ∷ rest
      → arrived capacity (suc n) arrivals events
        ≡ take (capacity - length events) (arrivals 0)
          ++ arrived capacity n (λ i. arrivals (suc i)) rest
  unfolding arrived
  arrived_more capacity n arrivals events rest event h = rw h refl

  arrived_nothing :
      (capacity : ℕ) (arrivals : ℕ → List E) (events : List E)
      → arrived capacity zero arrivals events ≡ []
  unfolding arrived
  arrived_nothing capacity arrivals events = refl

  pub collect-order :
      (n : ℕ) (arrivals : ℕ → List E) (q : Queue E)
      → (collect n arrivals q).0 ++ (collect n arrivals q).1.queue
        ≡ q.queue ++ arrived q.capacity n arrivals q.queue
  collect-order zero arrivals q =
      rw (collect_none arrivals q, arrived_nothing q.capacity arrivals q.queue)
        (sym (append-nil q.queue))
  collect-order (suc n) arrivals q =
      let came = take (q.capacity - length q.queue) (arrivals 0) in
      let (p, cap) = enqueue_all-order (arrivals 0) q in
      elim (wait-order (enqueue_all (arrivals 0) q)) [
        | inl (e, nil) ↦
            rw
              (
                collect_end n arrivals q (enqueue_all (arrivals 0) q) e,
                arrived_end q.capacity n arrivals q.queue (sym p ∙ nil),
              )
              p
        | inr (event, left, e, d) ↦
            let next : Queue E = record (enqueue_all (arrivals 0) q) { queue = left } in
            let r = collect-order n (λ i. arrivals (suc i)) next in
            let later = arrived q.capacity n (λ i. arrivals (suc i)) left in
            let here : next.capacity ≡ q.capacity = cap in
            rw
              (
                collect_more n arrivals q next event d,
                arrived_more q.capacity n arrivals q.queue left event (sym p ∙ e),
              )
              (ap (λ xs. event ∷ xs)
                  (r ∙ ap (λ c. left ++ arrived c n (λ i. arrivals (suc i)) left) here)
                ∙ ap (λ xs. xs ++ later) (sym e ∙ p)
                ∙ append_assoc q.queue came later)
      ]

  -- A batch ends when it is full, or with nothing left in the queue.
  pub collect-full :
      (n : ℕ) (arrivals : ℕ → List E) (q : Queue E)
      → (length (collect n arrivals q).0 ≡ n) ⊎ ((collect n arrivals q).1.queue ≡ [])
  collect-full zero arrivals q = inl (rw (collect_none arrivals q) refl)
  collect-full (suc n) arrivals q = elim (wait-order (enqueue_all (arrivals 0) q)) [
    | inl (e, nil) ↦ inr (rw (collect_end n arrivals q (enqueue_all (arrivals 0) q) e) nil)
    | inr (event, left, e, d) ↦
        let next : Queue E = record (enqueue_all (arrivals 0) q) { queue = left } in
        rw (collect_more n arrivals q next event d)
          (ground (arith, collect-full n (λ i. arrivals (suc i)) next))
  ]
