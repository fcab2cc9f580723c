-- ===== src/App/LinkService.antt =====
-- src/core/link_service.cpp: the resolution of a short code through the cache of the newer storage
-- interfaces, over their in-memory back ends (src/storage/inmemory). The events go to a sink that
-- keeps them. Each call of the clock has a reading of its own.
pub mod Coherence
pub mod Resolution
use url_shortener.Prelude.{
  ℕ, ◌-◌, ◌/◌, Bool, true, false, ◌&&◌, not, Option, none, some, List, [], ◌∷◌, ◌++◌, ltb,
  if◌then◌else◌, Bytes, Map, ℤ, pos,
}
use url_shortener.Storage.Models.{
  RepoError, CacheValue, LinkRecord, LinkAccessEvent, ticks_per_second, has_come,
}
use url_shortener.Storage.CacheStore.{Entry, get, set}
use url_shortener.Storage.MetadataRepository.{get_by_short_code, update_link, delete_link}
use url_shortener.Storage.CacheStore

pub data ResolveStatus : Type 0 where
  redirect not_found inactive expired : ResolveStatus

pub record ResolveResult : Type 0 where
  pub status : ResolveStatus
  pub target_url : Option Bytes
  pub cache_hit : Bool

pub record Ports : Type 0 where
  pub records : Map LinkRecord
  pub cache : Map Entry
  pub emitted : List LinkAccessEvent

-- The readings of the clock in `Resolve`, in the order of the calls: in the cache's `Get`, for the
-- cached value, for the record, for the time that is left, in the cache's `Set`, and for the event.
pub record Readings : Type 0 where
  pub now_for_get : ℕ
  pub now_for_cached : ℕ
  pub now_for_record : ℕ
  pub now_for_ttl : ℕ
  pub now_for_set : ℕ
  pub now_for_event : ℕ

unfoldable pub status_code : ResolveStatus → ℕ
status_code redirect = 302
status_code not_found = 404
status_code inactive = 410
status_code expired = 410

-- EmitAnalytics, and the result that is returned behind it.
unfoldable pub emit_analytics : ℕ → Bytes → ResolveResult → Ports → ResolveResult × Ports
emit_analytics now short_code result ports = (
  result,
  record ports {
    emitted =
        ports.emitted
        ++ record {
          short_code = short_code;
          occurred_at = now;
          status_code = status_code result.status;
          cache_hit = result.cache_hit;
        }
          ∷ [];
  },
)

-- The seconds that are left of a record's time, rounded down.
unfoldable pub ttl_of : ℕ → Option ℕ → Option ℤ
ttl_of now none = none
ttl_of now (some expires_at) =
    if ltb now expires_at then some (pos ((expires_at - now) / ticks_per_second)) else none

unfoldable pub cache_value : LinkRecord → CacheValue
cache_value r = record {
  target_url = r.target_url;
  expires_at = r.expires_at;
  is_active = r.is_active;
  version = some r.version;
}

abbrev pub failure : ResolveStatus → ResolveResult
failure status = record { status = status; target_url = none; cache_hit = false }

abbrev pub success : Bytes → Bool → ResolveResult
success target_url cache_hit = record {
  status = redirect;
  target_url = some target_url;
  cache_hit = cache_hit;
}

-- The part behind the cache.
unfoldable pub resolve_record : Readings → Bytes → Option LinkRecord → Ports → ResolveResult × Ports
resolve_record clock short_code none ports =
    emit_analytics clock.now_for_event short_code (failure not_found) ports
resolve_record clock short_code (some r) ports =
    if not r.is_active
    then emit_analytics clock.now_for_event short_code (failure inactive) ports
    else if has_come r.expires_at clock.now_for_record
    then emit_analytics clock.now_for_event short_code (failure expired) ports
    else emit_analytics clock.now_for_event short_code (success r.target_url false) (record ports {
      cache =
          set clock.now_for_set short_code (cache_value r) (ttl_of clock.now_for_ttl r.expires_at)
            ports.cache;
    })

-- What is done with the cached value.
unfoldable pub resolve_cached : Readings → Bytes → Option CacheValue → Ports → ResolveResult × Ports
resolve_cached clock short_code none ports =
    resolve_record clock short_code (get_by_short_code short_code ports.records) ports
resolve_cached clock short_code (some cached) ports =
    if cached.is_active && not (has_come cached.expires_at clock.now_for_cached)
    then emit_analytics clock.now_for_event short_code (success cached.target_url true) ports
    else resolve_record clock short_code (get_by_short_code short_code ports.records)
        (record ports { cache = CacheStore.delete short_code ports.cache })

unfoldable pub resolve : Readings → Bytes → Ports → ResolveResult × Ports
resolve clock short_code ports =
    let (cached, cache) = get clock.now_for_get short_code ports.cache in
    resolve_cached clock short_code cached (record ports { cache = cache })

unfoldable pub update : LinkRecord → Ports → Option RepoError × Ports
update r ports =
    let (error, records) = update_link r ports.records in
    (error, record ports { records = records; cache = CacheStore.delete r.short_code ports.cache })

unfoldable pub delete : Bytes → Ports → Option RepoError × Ports
delete short_code ports =
    let (error, records) = delete_link short_code ports.records in
    (error, record ports { records = records; cache = CacheStore.delete short_code ports.cache })
