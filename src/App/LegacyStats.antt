-- ===== src/App/LegacyStats.antt =====
-- src/app/legacy_adapters.cpp: `LegacyLinkStatsReader` over the click events of the server, and
-- its JSON text (src/app/link_command_service.cpp).
use url_shortener.Prelude.{
  ℕ, ◌*◌, ◌^◌, Bool, true, false, ◌||◌, not, Option, none, some, List, [], ◌∷◌, ◌++◌, ltb, leb,
  ◌==◌, if◌then◌else◌, is_empty, all, Bytes, bytes, ◌=ᵇ◌, is_digit, is_space, ℤ, pos, leb_ℤ, sub_ℕ,
  pos_part,
}
use url_shortener.Core.Text.{drop_while, to_decimal}
use url_shortener.Core.Json.{json_string}
use url_shortener.Security.Passwords.{digits_value}
use url_shortener.Analytics.Events.{ClickEvent}
use url_shortener.Storage.Models.{ticks_per_second}
use url_shortener.Storage.ClickEvents.{
  AggregateBucket, hour, day, week, AggregateQuery, AggregateStats, get_aggregate_stats,
}
use url_shortener.App.Types.{Outcome, ok, err, error, not_found, invalid_field, GetLinkStatsQuery}
use url_shortener.App.Serialize.{key, comma_list, joined}

-- `std::stoll` of a text of which nothing may be left over.
unfoldable pub stoll_digits : Bool → Bytes → Option ℤ
unfolding digits_value
stoll_digits negative s =
    let n = digits_value 0 s in
    if is_empty s || not (all is_digit s)
    then none
    else if negative
    then (if leb n (2 ^ 63) then some (sub_ℕ 0 n) else none)
    else if ltb n (2 ^ 63)
    then some (pos n)
    else none

unfoldable pub stoll_signed : Bytes → Option ℤ
unfolding stoll_digits
stoll_signed [] = none
stoll_signed (c ∷ s) =
    if c == b'-'
    then stoll_digits true s
    else if c == b'+'
    then stoll_digits false s
    else stoll_digits false (c ∷ s)

-- Seconds since the epoch.
unfoldable pub parse_epoch : Bytes → Option ℤ
unfolding stoll_signed drop_while
parse_epoch value = stoll_signed (drop_while is_space value)

pub record LinkStatsView : Type 0 where
  pub slug : Bytes
  pub total_attempts : ℕ
  pub successful_redirects : ℕ
  pub status_code_counts : List (ℕ × ℕ)
  pub domain_counts : List (Bytes × ℕ)
  pub time_buckets : List (ℕ × ℕ)
  pub from : Bytes
  pub to : Bytes
  pub bucket : Bytes

unfoldable pub parse_bucket : Bytes → Option AggregateBucket
parse_bucket value =
    if value =ᵇ bytes "hour"
    then some hour
    else if value =ᵇ bytes "day"
    then some day
    else if value =ᵇ bytes "week"
    then some week
    else none

unfoldable pub window_of : Option ℤ → Option ℤ → Option (ℤ × ℤ)
window_of none to = none
window_of (some from) none = none
window_of (some from) (some to) = if leb_ℤ to from then none else some (from, to)

-- No event lies before the epoch, so a bound before it counts as the epoch.
unfoldable pub query_of : Bytes → ℤ × ℤ → AggregateBucket → AggregateQuery
query_of slug (from, to) bucket = record {
  slug = some slug;
  link_id = none;
  from = pos_part from * ticks_per_second;
  to = pos_part to * ticks_per_second;
  bucket = some bucket;
}

unfoldable pub view_of : GetLinkStatsQuery → AggregateStats → LinkStatsView
view_of query stats = record {
  slug = query.slug;
  total_attempts = stats.total_attempts;
  successful_redirects = stats.successful_redirects;
  status_code_counts = stats.status_code_counts;
  domain_counts = stats.domain_counts;
  time_buckets = stats.time_buckets;
  from = query.from;
  to = query.to;
  bucket = query.bucket;
}

unfoldable pub read : GetLinkStatsQuery → List ClickEvent → Outcome LinkStatsView
unfolding parse_epoch window_of parse_bucket query_of view_of
read query events =
    if is_empty query.slug
    then err (error not_found (bytes "Link not found"))
    else elim (window_of (parse_epoch query.from) (parse_epoch query.to)) [
      | none ↦ err (error invalid_field (bytes "invalid_timestamp"))
      | some window ↦ elim (parse_bucket query.bucket) [
        | none ↦ err (error invalid_field (bytes "invalid_bucket"))
        | some bucket ↦
            ok (view_of query (get_aggregate_stats (query_of query.slug window bucket) events))
      ]
    ]

unfoldable pub status_items : List (ℕ × ℕ) → List Bytes
status_items [] = []
status_items ((code, n) ∷ rest) = (key (to_decimal code) ++ to_decimal n) ∷ status_items rest

unfoldable pub domain_items : List (Bytes × ℕ) → List Bytes
domain_items [] = []
domain_items ((domain, n) ∷ rest) = (json_string domain ++ b':' ∷ to_decimal n) ∷ domain_items rest

unfoldable pub bucket_items : List (ℕ × ℕ) → List Bytes
bucket_items [] = []
bucket_items ((start, n) ∷ rest) =
    joined (
      bytes "{"
      ∷ key (bytes "bucket_start")
      ∷ to_decimal start
      ∷ bytes ","
      ∷ key (bytes "count")
      ∷ to_decimal n
      ∷ bytes "}"
      ∷ [])
    ∷ bucket_items rest

unfoldable pub link_stats_pieces : LinkStatsView → List Bytes
unfolding status_items domain_items bucket_items
link_stats_pieces stats =
    bytes "{"
    ∷ key (bytes "slug")
    ∷ json_string stats.slug
    ∷ bytes ","
    ∷ key (bytes "total_attempts")
    ∷ to_decimal stats.total_attempts
    ∷ bytes ","
    ∷ key (bytes "successful_redirects")
    ∷ to_decimal stats.successful_redirects
    ∷ bytes ","
    ∷ key (bytes "attempts_by_status_code")
    ∷ bytes "{"
    ∷ comma_list (status_items stats.status_code_counts)
    ∷ bytes "},"
    ∷ key (bytes "attempts_by_domain")
    ∷ bytes "{"
    ∷ comma_list (domain_items stats.domain_counts)
    ∷ bytes "},"
    ∷ key (bytes "time_buckets")
    ∷ bytes "["
    ∷ comma_list (bucket_items stats.time_buckets)
    ∷ bytes "],"
    ∷ key (bytes "from")
    ∷ stats.from
    ∷ bytes ","
    ∷ key (bytes "to")
    ∷ stats.to
    ∷ bytes ","
    ∷ key (bytes "bucket")
    ∷ json_string stats.bucket
    ∷ bytes "}"
    ∷ []

unfoldable pub serialize_link_stats_json : LinkStatsView → Bytes
unfolding link_stats_pieces
serialize_link_stats_json stats = joined (link_stats_pieces stats)
