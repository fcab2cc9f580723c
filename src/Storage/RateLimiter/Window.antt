-- ===== src/Storage/RateLimiter/Window.antt =====
-- How many calls the rate limiter (src/storage/inmemory/in_memory_rate_limiter.cpp) lets through.
use url_shortener.Prelude.{
  ℕ, suc, ◌^◌, ◌+◌, ◌-◌, ◌*◌, ◌≤◌, ◌<◌, ◌≡◌, ◌⊎◌, true, false, none, some, List, [], ◌∷◌, arith,
  ltb, if◌then◌else◌, length, All, Bytes, ◌=ᵇ◌, bytes_eq_refl, Map, lookup, lookup-insert, ℤ, pos,
  leb_ℤ, pos_part,
}
use Prim.Native.Nat.{min}
use url_shortener.Storage.Models.{ticks_per_second, as_time_point_lem}
use url_shortener.Storage.RateLimiter.{Bucket, current_bucket, allow}

-- The number of calls that are allowed of those made at the given times, one after another.
pub grants : Bytes → ℕ → ℤ → List ℕ → Map Bucket → ℕ
grants key limit window [] buckets = 0
grants key limit window (t ∷ ts) buckets =
    (if (allow t key limit window buckets).0.0.allowed then 1 else 0)
    + grants key limit window ts (allow t key limit window buckets).1

-- A call for one key leaves the bucket of every other key alone.
pub allow-other_key :
    (now : ℕ) (key other : Bytes) (limit : ℕ) (window : ℤ) (buckets : Map Bucket)
    → (key =ᵇ other) ≡ false
    → lookup other (allow now key limit window buckets).1 ≡ lookup other buckets
unfolding allow
allow-other_key now key other limit window buckets h =
    let bucket = current_bucket now (pos_part window) (lookup key buckets) in
    ground (
      arith,
      lookup-insert key other bucket buckets,
      lookup-insert key other (record bucket { count = bucket.count + 1 }) buckets,
    )

module _ (k : ℕ) (ks : Bytes) (limit w : ℕ) where
  abbrev key : Bytes
  key = k ∷ ks

  -- A window of `w + 1` seconds.
  abbrev window : ℤ
  window = pos (suc w)

  -- A call in a window that has been started and is not over.
  allow-open :
      (t : ℕ) (buckets : Map Bucket) (b : Bucket)
      → lookup key buckets ≡ some b
      → 0 < b.count
      → leb_ℤ b.reset_at (pos t) ≡ false
      → ((allow t key limit window buckets).0.0.allowed ≡ ltb b.count limit)
        × (lookup key (allow t key limit window buckets).1
            ≡ some (record b { count = if ltb b.count limit then b.count + 1 else b.count }))
  unfolding allow current_bucket
  allow-open t buckets b e c h = (
    ground (arith, e),
    ground (
      arith,
      e,
      bytes_eq_refl key,
      lookup-insert key key b buckets,
      lookup-insert key key (record b { count = b.count + 1 }) buckets,
    ),
  )

  grants-open :
      (ts : List ℕ) (buckets : Map Bucket) (b : Bucket)
      → lookup key buckets ≡ some b
      → 0 < b.count
      → b.count ≤ limit
      → All (λ t. leb_ℤ b.reset_at (pos t) ≡ false) ts
      → grants key limit window ts buckets ≡ min (limit - b.count) (length ts)
  unfolding grants
  grants-open [] buckets b e c l h = omega arith
  grants-open (t ∷ ts) buckets b e c l (h, hs) =
      let (a, f) = allow-open t buckets b e c h in
      let n : ℕ = if ltb b.count limit then b.count + 1 else b.count in
      let ih =
        grants-open ts (allow t key limit window buckets).1 (record b { count = n }) f
          (ground arith) (ground arith) hs in
      ground (arith, a, ih)

  -- A call that starts a window.
  allow-fresh :
      (t : ℕ) (buckets : Map Bucket)
      → ((b : Bucket) × (lookup key buckets ≡ some b) × (leb_ℤ b.reset_at (pos t) ≡ true))
        ⊎ (lookup key buckets ≡ none)
      → 0 < limit
      → t + suc w * ticks_per_second < 2 ^ 63
      → ((allow t key limit window buckets).0.0.allowed ≡ true)
        × (lookup key (allow t key limit window buckets).1
            ≡ some (record { count = 1; reset_at = pos (t + suc w * ticks_per_second) }))
  unfolding allow current_bucket
  allow-fresh t buckets fresh l fits =
      let b : Bucket = record { count = 0; reset_at = pos (t + suc w * ticks_per_second) } in
      let e : current_bucket t (suc w) (lookup key buckets) ≡ b =
        ground (arith, as_time_point_lem (t + suc w * ticks_per_second) fits) in
      (
        ground (arith, e),
        ground
            (arith, e, bytes_eq_refl key, lookup-insert key key (record b { count = 1 }) buckets),
      )

  All-before :
      (end : ℕ) (ts : List ℕ)
      → All (λ u. u < end) ts
      → All (λ u. leb_ℤ (pos end) (pos u) ≡ false) ts
  All-before end [] h = tt
  All-before end (u ∷ ts) (h, hs) = (ground arith, All-before end ts hs)

  -- Of the calls for a key, not empty, that fall in one window, begun by the first of them when no
  -- earlier window is open, exactly the first `limit`, which is not 0, are allowed, or all if they
  -- are fewer. The window ends before 2^63 ticks from the epoch, where the clock's 64 bits do.
  pub grants-eq-limit :
      (t : ℕ) (ts : List ℕ) (buckets : Map Bucket)
      → ((b : Bucket) × (lookup key buckets ≡ some b) × (leb_ℤ b.reset_at (pos t) ≡ true))
        ⊎ (lookup key buckets ≡ none)
      → All (λ u. u < t + suc w * ticks_per_second) ts
      → 0 < limit
      → t + suc w * ticks_per_second < 2 ^ 63
      → grants key limit window (t ∷ ts) buckets ≡ min limit (length (t ∷ ts))
  unfolding grants
  grants-eq-limit t ts buckets fresh h l fits =
      let (a, f) = allow-fresh t buckets fresh l fits in
      let b : Bucket = record { count = 1; reset_at = pos (t + suc w * ticks_per_second) } in
      ground (
        arith,
        a,
        grants-open ts (allow t key limit window buckets).1 b f (omega arith) (omega arith)
            (All-before (t + suc w * ticks_per_second) ts h),
      )

-- A limit of 0, an empty key or a window of no length lets no call through.
pub allow-denied :
    (now : ℕ) (key : Bytes) (limit : ℕ) (window : ℤ) (buckets : Map Bucket)
    → ((key ≡ []) ⊎ (leb_ℤ window (pos 0) ≡ true) ⊎ (limit ≡ 0))
    → (allow now key limit window buckets).0.0.allowed ≡ false
unfolding allow
allow-denied now key limit window buckets h = ground arith
