-- ===== src/Analytics/Retention.antt =====
-- Old events: src/analytics/retention_cleanup_job.cpp, over the in-memory click repository, and the
-- checks of a statistics query (src/analytics/aggregate_query.cpp). Times are ticks from the epoch.
use url_shortener.Prelude.{
  ℕ, ◌+◌, ◌-◌, ◌*◌, ◌^◌, ◌≤◌, ◌≡◌, Bool, true, false, ◌||◌, Option, none, some, List, arith, ltb,
  leb, ◌==◌, if◌then◌else◌, value_or, ◌<◌, ◌%◌, ℤ, sub_ℕ,
}
use url_shortener.Analytics.Events.{ClickEvent}
use url_shortener.Storage.Models.{ticks_per_second, as_time_point, as_time_point-sub}
use url_shortener.Storage.ClickEvents.{day, AggregateQuery, get_aggregate_stats, delete_older_than}
use url_shortener.Storage.ClickEvents.Aggregates.{get_aggregate_stats-delete_older_than}

-- The count of deleted events is always 0, and the in-memory repository reports no error.
pub record RetentionCleanupResult : Type 0 where
  pub enabled : Bool
  pub cutoff : Option ℤ

abbrev pub ticks_per_day : ℕ
ticks_per_day = 86400 * ticks_per_second

-- `now_() - hours(24 * retention_days)` in the 64 bits of a `time_point`, which wrap around for more
-- than 106751 days.
unfoldable pub cutoff_of : ℕ → ℕ → ℤ
unfolding as_time_point
cutoff_of now retention_days =
    as_time_point (now + (2 ^ 64 - retention_days * ticks_per_day % 2 ^ 64))

cutoff_of_lem :
    (now retention_days : ℕ)
    → retention_days * ticks_per_day < 2 ^ 63
    → now < 2 ^ 63
    → cutoff_of now retention_days ≡ sub_ℕ now (retention_days * ticks_per_day)
unfolding cutoff_of
cutoff_of_lem now retention_days h k = as_time_point-sub now (retention_days * ticks_per_day) k h

-- RetentionCleanupJob::Run; the in-memory repository refuses no deletion. A number of days from 2^63
-- on is negative as a `long long`.
unfoldable pub run_cleanup : ℕ → ℕ → List ClickEvent → RetentionCleanupResult × List ClickEvent
unfolding cutoff_of
run_cleanup retention_days now events =
    if (retention_days == 0) || leb (2 ^ 63) retention_days
    then (record { enabled = false; cutoff = none }, events)
    else (
      record { enabled = true; cutoff = some (cutoff_of now retention_days) },
      delete_older_than (cutoff_of now retention_days) events,
    )

-- AggregateQueryValidator::Validate: the query with its default bucket, or `none` for a refusal.
unfoldable pub validate_query : AggregateQuery → Option AggregateQuery
validate_query query =
    let completed = record query { bucket = some (value_or query.bucket day) } in
    if ltb query.to query.from
    then none
    else if ltb (366 * ticks_per_day) (query.to - query.from)
    then none
    else some completed

-- A cleanup that keeps some number of days, at most 106751, changes no statistics of a period that
-- begins in them. The clock reads a time that its 64 bits hold.
pub get_aggregate_stats-run_cleanup :
    (retention_days now : ℕ) (query : AggregateQuery) (events : List ClickEvent)
    → retention_days ≤ 106751
    → now < 2 ^ 63
    → now ≤ query.from + retention_days * ticks_per_day
    → get_aggregate_stats query (run_cleanup retention_days now events).1
      ≡ get_aggregate_stats query events
unfolding run_cleanup
get_aggregate_stats-run_cleanup retention_days now query events few in_range h = ground (
  arith,
  get_aggregate_stats-delete_older_than query (cutoff_of now retention_days) events,
  cutoff_of_lem now retention_days (omega arith) in_range,
)
