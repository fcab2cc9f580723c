-- ===== src/Storage/ClickEvents/Aggregates.antt =====
-- The counters of the click repository (src/storage/memory/in_memory_click_event_repository.cpp:
-- GetAggregateStats) and the numbers of events.
use url_shortener.Prelude.{
  ℕ, ◌+◌, ◌^◌, ◌≤◌, ◌<◌, ◌≡◌, refl, ap, ◌∙◌, ◌↔◌, Bool, true, ◌&&◌, some, List, [], ◌∷◌, map, arith,
  ltb, leb, ◌==◌, if◌then◌else◌, ==_iff, length, filter, count_if, Bytes, ◌=ᵇ◌, bytes_eq_iff, ℤ,
  pos, leb_ℤ,
}
use url_shortener.Analytics.Events.{ClickEvent}
use url_shortener.Storage.ClickEvents.{
  AggregateBucket, AggregateQuery, bucket_start, is_counted, increment, AggregateStats, count_event,
  count_events, insert_bucket, sort_buckets, get_aggregate_stats, delete_older_than, zero_stats,
}

module _ {K : Type 0} where
  -- What a map of counters has for a key, and what all of its counters add up to.
  abbrev pub count_at : (K → Bool) → List (K × ℕ) → ℕ
  count_at p [] = 0
  count_at p ((j, n) ∷ m) = (if p j then n else 0) + count_at p m

  -- How many counters a map has for a key.
  abbrev pub entries_at : (K → Bool) → List (K × ℕ) → ℕ
  entries_at p [] = 0
  entries_at p ((j, n) ∷ m) = (if p j then 1 else 0) + entries_at p m

  total : List (K × ℕ) → ℕ
  total [] = 0
  total ((j, n) ∷ m) = n + total m

  -- Counting a list of keys, one after the other.
  tally : (K → K → Bool) → List K → List (K × ℕ) → List (K × ℕ)
  tally same [] m = m
  tally same (k ∷ ks) m = tally same ks (increment same k m)

module _ {K : Type 0} (same : K → K → Bool)
    (same_iff : (a b : K) → (same a b ≡ true) ↔ (a ≡ b)) where
  total-increment :
      (k : K) (m : List (K × ℕ)) → total m + 1 < 2 ^ 64 → total (increment same k m) ≡ total m + 1
  unfolding total increment
  total-increment k [] h = omega arith
  total-increment k ((j, n) ∷ m) h = ground (arith, total-increment k m)

  count_at-increment :
      (p : K → Bool) (k : K) (m : List (K × ℕ))
      → total m + 1 < 2 ^ 64
      → count_at p (increment same k m) ≡ count_at p m + (if p k then 1 else 0)
  unfolding total increment
  count_at-increment p k [] h = ground arith
  count_at-increment p k ((j, n) ∷ m) h = ground (arith, count_at-increment p k m, same_iff j k)

  count_at-tally :
      (p : K → Bool) (ks : List K) (m : List (K × ℕ))
      → total m + length ks < 2 ^ 64
      → count_at p (tally same ks m) ≡ count_at p m + count_if p ks
  unfolding tally
  count_at-tally p [] m h = omega arith
  count_at-tally p (k ∷ ks) m h = ground (
    arith,
    count_at-tally p ks (increment same k m),
    count_at-increment p k m,
    total-increment k m,
  )

  entries_at-increment :
      (x k : K) (m : List (K × ℕ))
      → entries_at (λ j. same j x) (increment same k m) ≡ (
          if same k x && (entries_at (λ j. same j x) m == 0)
          then 1
          else entries_at (λ j. same j x) m)
  unfolding increment
  entries_at-increment x k [] = ground arith
  entries_at-increment x k ((j, n) ∷ m) =
      ground (arith, entries_at-increment x k m, same_iff j k, same_iff k x, same_iff j x)

  entries_at-tally :
      (x : K) (ks : List K) (m : List (K × ℕ))
      → entries_at (λ j. same j x) (tally same ks m) ≡ (
          if entries_at (λ j. same j x) m == 0
          then (if count_if (λ k. same k x) ks == 0 then 0 else 1)
          else entries_at (λ j. same j x) m)
  unfolding tally
  entries_at-tally x [] m = ground arith
  entries_at-tally x (k ∷ ks) m =
      ground (arith, entries_at-tally x ks (increment same k m), entries_at-increment x k m)

count_if-map :
    {A B : Type 0} (f : A → B) (p : B → Bool) (xs : List A)
    → count_if p (map f xs) ≡ count_if (λ x. p (f x)) xs
count_if-map f p [] = refl
count_if-map f p (x ∷ xs) = omega (arith, count_if-map f p xs)

length-map : {A B : Type 0} (f : A → B) (xs : List A) → length (map f xs) ≡ length xs
length-map f [] = refl
length-map f (x ∷ xs) = omega (arith, length-map f xs)

length-filter : {A : Type 0} (p : A → Bool) (xs : List A) → length (filter p xs) ≤ length xs
length-filter p [] = omega arith
length-filter p (x ∷ xs) = ground (arith, length-filter p xs)

count_at-insert_bucket :
    (p : ℕ → Bool) (b : ℕ × ℕ) (bs : List (ℕ × ℕ))
    → count_at p (insert_bucket b bs) ≡ (if p b.0 then b.1 else 0) + count_at p bs
unfolding insert_bucket
count_at-insert_bucket p b [] = refl
count_at-insert_bucket p b (x ∷ bs) = ground (arith, count_at-insert_bucket p b bs)

count_at-sort_buckets :
    (p : ℕ → Bool) (bs : List (ℕ × ℕ)) → count_at p (sort_buckets bs) ≡ count_at p bs
unfolding sort_buckets
count_at-sort_buckets p [] = refl
count_at-sort_buckets p (b ∷ bs) =
    omega (arith, count_at-insert_bucket p b (sort_buckets bs), count_at-sort_buckets p bs)

abbrev pub is_redirect : ClickEvent → Bool
is_redirect e = leb 300 e.status_code && ltb e.status_code 400

module _ (query : AggregateQuery) where
  abbrev pub counted : List ClickEvent → List ClickEvent
  counted events = filter (is_counted query) events

  -- The loop fills each map of counters by itself.
  status-tally :
      (events : List ClickEvent) (stats : AggregateStats)
      → (count_events query events stats).status_code_counts
        ≡ tally (λ a b. a == b) (map (λ e. e.status_code) (counted events)) stats.status_code_counts
  unfolding count_events count_event tally
  status-tally [] stats = refl
  status-tally (e ∷ events) stats =
      ground (arith, status-tally events (count_event query e stats), status-tally events stats)

  domain-tally :
      (events : List ClickEvent) (stats : AggregateStats)
      → (count_events query events stats).domain_counts
        ≡ tally (λ a b. a =ᵇ b) (map (λ e. e.domain) (counted events)) stats.domain_counts
  unfolding count_events count_event tally
  domain-tally [] stats = refl
  domain-tally (e ∷ events) stats =
      ground (arith, domain-tally events (count_event query e stats), domain-tally events stats)

  bucket-tally :
      (bucket : AggregateBucket)
      → query.bucket ≡ some bucket
      → (events : List ClickEvent) (stats : AggregateStats)
      → (count_events query events stats).time_buckets
        ≡ tally
            (λ a b. a == b)
            (map (λ e. bucket_start e.occurred_at bucket) (counted events))
            stats.time_buckets
  unfolding count_events count_event tally
  bucket-tally bucket h [] stats = refl
  bucket-tally bucket h (e ∷ events) stats = ground (
    arith,
    h,
    bucket-tally bucket h events (count_event query e stats),
    bucket-tally bucket h events stats,
  )

  total-count :
      (events : List ClickEvent) (stats : AggregateStats)
      → stats.total_attempts + length events < 2 ^ 64
      → (count_events query events stats).total_attempts
        ≡ stats.total_attempts + length (counted events)
  unfolding count_events count_event
  total-count [] stats h = omega arith
  total-count (e ∷ events) stats h =
      ground (arith, total-count events (count_event query e stats), total-count events stats)

  redirect-count :
      (events : List ClickEvent) (stats : AggregateStats)
      → stats.successful_redirects + length events < 2 ^ 64
      → (count_events query events stats).successful_redirects
        ≡ stats.successful_redirects + count_if is_redirect (counted events)
  unfolding count_events count_event
  redirect-count [] stats h = omega arith
  redirect-count (e ∷ events) stats h =
      ground (arith, redirect-count events (count_event query e stats), redirect-count events stats)

  older-count :
      (cutoff : ℤ) (events : List ClickEvent) (stats : AggregateStats)
      → leb_ℤ cutoff (pos query.from) ≡ true
      → count_events query (delete_older_than cutoff events) stats ≡ count_events query events stats
  unfolding count_events is_counted delete_older_than
  older-count cutoff [] stats h = refl
  older-count cutoff (e ∷ events) stats h = ground (
    arith,
    older-count cutoff events (count_event query e stats),
    older-count cutoff events stats,
  )

  count_at-tally_keys :
      {K : Type 0} (same : K → K → Bool)
      → ((a b : K) → (same a b ≡ true) ↔ (a ≡ b))
      → (key : ClickEvent → K) (p : K → Bool) (events : List ClickEvent) → length events < 2 ^ 64
      → count_at p (tally same (map key (counted events)) [])
        ≡ count_if (λ e. p (key e)) (counted events)
  unfolding total
  count_at-tally_keys {K = K} same same_iff key p events h =
      let few : total {K = K} [] + length (map key (counted events)) < 2 ^ 64 =
        omega
          (arith, length-map key (counted events), length-filter (is_counted query) events, h) in
      let counts = count_at-tally same same_iff p (map key (counted events)) [] few in
      omega (arith, counts, count_if-map key p (counted events))

  entries_at-tally_keys :
      {K : Type 0} (same : K → K → Bool)
      → ((a b : K) → (same a b ≡ true) ↔ (a ≡ b))
      → (key : ClickEvent → K) (x : K) (events : List ClickEvent)
      → entries_at (λ j. same j x) (tally same (map key (counted events)) [])
        ≡ (if count_if (λ e. same (key e) x) (counted events) == 0 then 0 else 1)
  entries_at-tally_keys same same_iff key x events =
      entries_at-tally same same_iff x (map key (counted events)) []
      ∙ ap (λ (n : ℕ). if n == 0 then 0 else 1) (count_if-map key (λ k. same k x) (counted events))

  -- For fewer than 2^64 stored events, every counter is a number of selected events: the total, the
  -- redirects among them, those of each status code, and those of each domain; and there is exactly
  -- one counter for each status code and each domain that occurs among them, and none for another.
  pub get_aggregate_stats_lem :
      (events : List ClickEvent)
      → length events < 2 ^ 64
      → ((get_aggregate_stats query events).total_attempts ≡ length (counted events))
        × ((get_aggregate_stats query events).successful_redirects
            ≡ count_if is_redirect (counted events))
        × ((code : ℕ)
            → count_at (λ k. k == code) (get_aggregate_stats query events).status_code_counts
              ≡ count_if (λ e. e.status_code == code) (counted events))
        × ((domain : Bytes)
            → count_at (λ k. k =ᵇ domain) (get_aggregate_stats query events).domain_counts
              ≡ count_if (λ e. e.domain =ᵇ domain) (counted events))
        × ((code : ℕ)
            → entries_at (λ k. k == code) (get_aggregate_stats query events).status_code_counts
              ≡ (if count_if (λ e. e.status_code == code) (counted events) == 0 then 0 else 1))
        × ((domain : Bytes)
            → entries_at (λ k. k =ᵇ domain) (get_aggregate_stats query events).domain_counts
              ≡ (if count_if (λ e. e.domain =ᵇ domain) (counted events) == 0 then 0 else 1))
  unfolding get_aggregate_stats total
  get_aggregate_stats_lem events h = (
    omega (arith, total-count events zero_stats, h),
    omega (arith, redirect-count events zero_stats, h),
    λ code.
        ap (count_at (λ k. k == code)) (status-tally events zero_stats)
        ∙ count_at-tally_keys (λ a b. a == b) ==_iff (λ e. e.status_code) (λ k. k == code) events h,
    λ domain.
        ap (count_at (λ k. k =ᵇ domain)) (domain-tally events zero_stats)
        ∙ count_at-tally_keys (λ a b. a =ᵇ b) bytes_eq_iff (λ e. e.domain) (λ k. k =ᵇ domain) events
            h,
    λ code.
        ap (entries_at (λ k. k == code)) (status-tally events zero_stats)
        ∙ entries_at-tally_keys (λ a b. a == b) ==_iff (λ e. e.status_code) code events,
    λ domain.
        ap (entries_at (λ k. k =ᵇ domain)) (domain-tally events zero_stats)
        ∙ entries_at-tally_keys (λ a b. a =ᵇ b) bytes_eq_iff (λ e. e.domain) domain events,
  )

  -- For a query with a bucket width, and fewer than 2^64 stored events, the counter at a start time
  -- is the number of selected events in the bucket that starts then.
  pub time_buckets-count :
      (bucket : AggregateBucket) (start : ℕ) (events : List ClickEvent)
      → query.bucket ≡ some bucket
      → length events < 2 ^ 64
      → count_at (λ k. k == start) (get_aggregate_stats query events).time_buckets
        ≡ count_if (λ e. bucket_start e.occurred_at bucket == start) (counted events)
  unfolding get_aggregate_stats
  time_buckets-count bucket start events b h =
      count_at-sort_buckets (λ k. k == start) (count_events query events zero_stats).time_buckets
      ∙ ap (count_at (λ k. k == start)) (bucket-tally bucket b events zero_stats)
      ∙ count_at-tally_keys (λ a b. a == b) ==_iff (λ e. bucket_start e.occurred_at bucket)
          (λ k. k == start) events h

  -- Dropping the events before a time changes no statistics of a period that starts then or later.
  pub get_aggregate_stats-delete_older_than :
      (cutoff : ℤ) (events : List ClickEvent)
      → leb_ℤ cutoff (pos query.from) ≡ true
      → get_aggregate_stats query (delete_older_than cutoff events)
        ≡ get_aggregate_stats query events
  unfolding get_aggregate_stats
  get_aggregate_stats-delete_older_than cutoff events h =
      ap
        (λ (stats : AggregateStats). record stats {
          time_buckets = sort_buckets stats.time_buckets;
        })
        (older-count cutoff events zero_stats h)
