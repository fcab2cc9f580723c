-- ===== src/Storage/ClickEvents.antt =====
-- src/storage/memory/in_memory_click_event_repository.cpp: the click events and what is counted of
-- them. A time point is a number of clock ticks from the epoch.
pub mod Aggregates
use url_shortener.Prelude.{
  ℕ, ◌+◌, ◌*◌, ◌/◌, ◌%◌, ◌^◌, Bool, true, ◌&&◌, not, Option, none, some, List, [], ◌∷◌, ◌++◌, ltb,
  leb, ◌==◌, if◌then◌else◌, filter, Bytes, ◌=ᵇ◌, ℤ, pos, ltb_ℤ,
}
use url_shortener.Analytics.Events.{ClickEvent}
use url_shortener.Storage.Models.{ticks_per_second}

pub data AggregateBucket : Type 0 where
  hour day week : AggregateBucket

pub record AggregateQuery : Type 0 where
  pub slug : Option Bytes
  pub link_id : Option Bytes
  pub from : ℕ
  pub to : ℕ
  pub bucket : Option AggregateBucket

unfoldable pub width : AggregateBucket → ℕ
width hour = 3600
width day = 86400
width week = 604800

-- In seconds.
unfoldable pub bucket_start : ℕ → AggregateBucket → ℕ
unfolding width
bucket_start tp b = tp / ticks_per_second / width b * width b

unfoldable pub insert_batch : List ClickEvent → List ClickEvent → List ClickEvent
insert_batch events stored = stored ++ events

unfoldable pub matches : Option Bytes → Bytes → Bool
matches none s = true
matches (some wanted) s = s =ᵇ wanted

-- The tests at the head of the loop of `GetAggregateStats`.
unfoldable pub is_counted : AggregateQuery → ClickEvent → Bool
unfolding matches
is_counted query e =
    matches query.slug e.slug
    && matches query.link_id e.link_id
    && leb query.from e.occurred_at
    && ltb e.occurred_at query.to

module _ {K : Type 0} (same : K → K → Bool) where
  -- `m[k]++`
  unfoldable pub increment : K → List (K × ℕ) → List (K × ℕ)
  increment k [] = (k, 1) ∷ []
  increment k ((j, n) ∷ m) = if same j k then (j, (n + 1) % 2 ^ 64) ∷ m else (j, n) ∷ increment k m

pub record AggregateStats : Type 0 where
  pub total_attempts : ℕ
  pub successful_redirects : ℕ
  pub status_code_counts : List (ℕ × ℕ)
  pub domain_counts : List (Bytes × ℕ)
  pub time_buckets : List (ℕ × ℕ)

-- `*stats = {}`
abbrev pub zero_stats : AggregateStats
zero_stats = record {
  total_attempts = 0;
  successful_redirects = 0;
  status_code_counts = [];
  domain_counts = [];
  time_buckets = [];
}

-- One counted event.
unfoldable pub count_event : AggregateQuery → ClickEvent → AggregateStats → AggregateStats
count_event query e stats = record {
  total_attempts = (stats.total_attempts + 1) % 2 ^ 64;
  successful_redirects =
      if leb 300 e.status_code && ltb e.status_code 400
      then (stats.successful_redirects + 1) % 2 ^ 64
      else stats.successful_redirects;
  status_code_counts = increment (λ a b. a == b) e.status_code stats.status_code_counts;
  domain_counts = increment (λ a b. a =ᵇ b) e.domain stats.domain_counts;
  time_buckets = elim query.bucket [
    | none ↦ stats.time_buckets
    | some bucket ↦ increment (λ a b. a == b) (bucket_start e.occurred_at bucket) stats.time_buckets
  ];
}

unfoldable pub count_events : AggregateQuery → List ClickEvent → AggregateStats → AggregateStats
count_events query [] stats = stats
count_events query (e ∷ events) stats =
    count_events query events (if is_counted query e then count_event query e stats else stats)

-- `std::sort` of the buckets by their start; the starts are the keys of a map, hence all different.
unfoldable pub insert_bucket : ℕ × ℕ → List (ℕ × ℕ) → List (ℕ × ℕ)
insert_bucket b [] = b ∷ []
insert_bucket b (x ∷ xs) = if ltb b.0 x.0 then b ∷ x ∷ xs else x ∷ insert_bucket b xs

unfoldable pub sort_buckets : List (ℕ × ℕ) → List (ℕ × ℕ)
sort_buckets [] = []
sort_buckets (b ∷ bs) = insert_bucket b (sort_buckets bs)

unfoldable pub get_aggregate_stats : AggregateQuery → List ClickEvent → AggregateStats
get_aggregate_stats query events =
    let stats = count_events query events zero_stats in
    record stats { time_buckets = sort_buckets stats.time_buckets }

-- The cutoff may be before the epoch.
unfoldable pub delete_older_than : ℤ → List ClickEvent → List ClickEvent
delete_older_than cutoff events = filter (λ e. not (ltb_ℤ (pos e.occurred_at) cutoff)) events
