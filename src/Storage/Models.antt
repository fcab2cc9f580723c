-- ===== src/Storage/Models.antt =====
-- include/url_shortener/storage/models and errors: the records of the newer storage interfaces.
-- A time point is a number of clock ticks, one second being `ticks_per_second` of them.
use url_shortener.Prelude.{
  ℕ, ◌-◌, ◌%◌, ◌^◌, ◌<◌, ◌≡◌, refl, arith, ltb, if◌then◌else◌, ℤ, pos, negsuc, sub_ℕ, inl, inr,
  Bool-cases, ◌+◌, Bool, true, false, ◌&&◌, ◌||◌, not, Option, none, some, leb, ◌==◌, length,
  is_empty, all, Bytes, is_alnum, Map,
}

-- The clock counts nanoseconds from the epoch; it does not read a time before that.
abbrev pub ticks_per_second : ℕ
ticks_per_second = 1000000000

-- A number of ticks as the 64 bits of a `time_point` hold it.
unfoldable pub as_time_point : ℕ → ℤ
as_time_point n =
    if ltb (n % 2 ^ 64) (2 ^ 63) then pos (n % 2 ^ 64) else negsuc (2 ^ 64 - 1 - n % 2 ^ 64)

pub as_time_point_lem : (n : ℕ) → n < 2 ^ 63 → as_time_point n ≡ pos n
unfolding as_time_point
as_time_point_lem n h =
    let small : n % 2 ^ 64 ≡ n = omega arith in
    let below : ltb n (2 ^ 63) ≡ true = ground arith in rw (small, below) refl

pub as_time_point-sub :
    (n p : ℕ) → n < 2 ^ 63 → p < 2 ^ 63 → as_time_point (n + (2 ^ 64 - p % 2 ^ 64)) ≡ sub_ℕ n p
unfolding as_time_point
as_time_point-sub n p h k =
    let small : p % 2 ^ 64 ≡ p = omega arith in
    elim (Bool-cases (leb p n)) [
      | inl q ↦
          let m : (n + (2 ^ 64 - p)) % 2 ^ 64 ≡ n - p = ground arith in
          let below : ltb (n - p) (2 ^ 63) ≡ true = ground arith in rw (small, m, below, q) refl
      | inr q ↦
          let m : (n + (2 ^ 64 - p)) % 2 ^ 64 ≡ n + (2 ^ 64 - p) = ground arith in
          let above : ltb (n + (2 ^ 64 - p)) (2 ^ 63) ≡ false = ground arith in
          let same : 2 ^ 64 - 1 - (n + (2 ^ 64 - p)) ≡ p - n - 1 = ground arith in
          rw (small, m, above, q, same) refl
    ]

pub data CacheError : Type 0 where
  none_error unavailable invalid_argument permanent_failure : CacheError

pub data RepoError : Type 0 where
  not_found already_exists invalid_argument transient_failure permanent_failure : RepoError

pub data RateLimitError : Type 0 where
  no_error invalid_key invalid_policy unavailable : RateLimitError

pub record CacheValue : Type 0 where
  pub target_url : Bytes
  pub expires_at : Option ℕ
  pub is_active : Bool
  pub version : Option ℕ

pub record CreateLinkRequest : Type 0 where
  pub short_code : Bytes
  pub target_url : Bytes
  pub expires_at : Option ℕ
  pub owner : Option Bytes
  pub attributes : Map Bytes
  pub is_active : Bool

-- The regular expression ^[A-Za-z0-9_-]{3,64}$, and a target.
unfoldable pub is_code_char : ℕ → Bool
is_code_char c = is_alnum c || (c == b'_') || (c == b'-')

unfoldable pub is_valid_request : CreateLinkRequest → Bool
unfolding is_code_char
is_valid_request r =
    not (is_empty r.target_url)
    && all is_code_char r.short_code
    && leb 3 (length r.short_code)
    && leb (length r.short_code) 64

pub record LinkRecord : Type 0 where
  pub id : Bytes
  pub short_code : Bytes
  pub target_url : Bytes
  pub created_at : ℕ
  pub updated_at : ℕ
  pub expires_at : Option ℕ
  pub deleted_at : Option ℕ
  pub owner : Option Bytes
  pub attributes : Map Bytes
  pub is_active : Bool
  pub version : ℕ

pub record ListLinksQuery : Type 0 where
  pub owner : Option Bytes
  pub include_inactive : Bool
  pub include_deleted : Bool
  pub offset : ℕ
  pub limit : ℕ

pub record RateLimitDecision : Type 0 where
  pub allowed : Bool
  pub remaining : ℕ
  pub reset_at : ℤ

pub record LinkAccessEvent : Type 0 where
  pub short_code : Bytes
  pub occurred_at : ℕ
  pub status_code : ℕ
  pub cache_hit : Bool

-- Whether an optional time has come.
unfoldable pub has_come : Option ℕ → ℕ → Bool
has_come none now = false
has_come (some t) now = leb t now
