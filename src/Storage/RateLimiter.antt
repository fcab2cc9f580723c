-- ===== src/Storage/RateLimiter.antt =====
-- src/storage/inmemory/in_memory_rate_limiter.cpp: a fixed window for each key.
pub mod Window
use url_shortener.Prelude.{
  ℕ, ◌+◌, ◌-◌, ◌*◌, true, false, ◌||◌, Option, leb, ◌==◌, if◌then◌else◌, value_or, is_empty, Bytes,
  Map, lookup, insert, ℤ, pos, leb_ℤ, pos_part,
}
use url_shortener.Storage.Models.{
  RateLimitDecision, RateLimitError, no_error, invalid_key, invalid_policy, ticks_per_second,
  as_time_point,
}

pub record Bucket : Type 0 where
  pub count : ℕ
  pub reset_at : ℤ

abbrev pub new_bucket : Bucket
new_bucket = record { count = 0; reset_at = pos 0 }

-- `buckets_[key]` after the window was started anew if it is over or has no call yet. The end of the
-- window is a number of 64 bits: for a window of some 292 years from the epoch it wraps around.
unfoldable pub current_bucket : ℕ → ℕ → Option Bucket → Bucket
current_bucket now window found =
    let bucket = value_or found new_bucket in
    if (bucket.count == 0) || leb_ℤ bucket.reset_at (pos now)
    then record { count = 0; reset_at = as_time_point (now + window * ticks_per_second) }
    else bucket

-- One call: the decision, the error and the buckets. `window` is in seconds; the counter is a
-- `uint64_t` that stays below the limit, so it does not wrap.
unfoldable pub allow :
    ℕ → Bytes → ℕ → ℤ → Map Bucket → (RateLimitDecision × RateLimitError) × Map Bucket
allow now key limit window buckets =
    let denied : RateLimitDecision = record {
      allowed = false;
      remaining = 0;
      reset_at = pos now;
    } in
    let bucket = current_bucket now (pos_part window) (lookup key buckets) in
    if is_empty key
    then ((denied, invalid_key), buckets)
    else if leb_ℤ window (pos 0)
    then ((denied, invalid_policy), buckets)
    else if (limit == 0) || leb limit bucket.count
    then (
      (record { allowed = false; remaining = 0; reset_at = bucket.reset_at }, no_error),
      insert key bucket buckets,
    )
    else (
      (
        record {
          allowed = true;
          remaining = limit - (bucket.count + 1);
          reset_at = bucket.reset_at;
        },
        no_error,
      ),
      insert key (record bucket { count = bucket.count + 1 }) buckets,
    )
