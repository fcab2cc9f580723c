-- ===== src/Storage/CacheStore/Laws.antt =====
-- What a client of the in-memory cache (src/storage/inmemory/in_memory_cache_store.cpp) sees.
use url_shortener.Prelude.{
  ℕ, ◌+◌, ◌*◌, ◌≤◌, ◌≡◌, Option, none, some, [], ◌∷◌, arith, if◌then◌else◌, Bytes, ◌=ᵇ◌,
  bytes_eq_iff, starts_with, Map, lookup, lookup-insert, lookup-erase, ℤ, pos_part,
}
use url_shortener.Storage.Models.{CacheValue, ticks_per_second, has_come}
use url_shortener.Storage.CacheStore.{Entry, get, set, clear_by_prefix}

-- The value that a `get` returns: it is there while its time has not come.
abbrev pub live : ℕ → Option Entry → Option CacheValue
live now none = none
live now (some entry) = if has_come entry.expires_at now then none else some entry.value

pub get_value :
    (now : ℕ) (key : Bytes) (entries : Map Entry)
    → (get now key entries).0 ≡ live now (lookup key entries)
unfolding get
get_value now key entries = ground arith

-- The time at which a value set now is dropped.
abbrev pub deadline : ℕ → Option ℤ → Option ℕ
deadline now none = none
deadline now (some seconds) = some (now + pos_part seconds * ticks_per_second)

module _ (now later : ℕ) (key other : Bytes) (value : CacheValue) (ttl : Option ℤ)
    (entries : Map Entry) where
  -- While the clock does not go back: under the key that was set, a later `get` returns the value
  -- until its seconds have passed, and for ever if no time was given; nothing if the time was not
  -- positive. Under other keys it returns what it would have returned.
  pub get-set :
      now ≤ later
      → (get later other (set now key value ttl entries)).0 ≡ (
          if key =ᵇ other
          then (if has_come (deadline now ttl) later then none else some value)
          else (get later other entries).0)
  unfolding set has_come
  get-set h = ground (
    arith,
    get_value later other (set now key value ttl entries),
    get_value later other entries,
    lookup-erase key other entries,
    lookup-insert key other (record { value = value; expires_at = deadline now ttl }) entries,
  )

module _ (now later : ℕ) (key other : Bytes) (entries : Map Entry) where
  -- While the clock does not go back, the entries that a `get` drops are not missed: every later
  -- `get` returns what it would have returned.
  pub get-get :
      now ≤ later → (get later other (get now key entries).1).0 ≡ (get later other entries).0
  unfolding get has_come
  get-get h = ground (arith, lookup-erase key other entries, bytes_eq_iff key other)

pub lookup-clear_by_prefix :
    (prefix key : Bytes) (entries : Map Entry)
    → lookup key (clear_by_prefix prefix entries)
      ≡ (if starts_with key prefix then none else lookup key entries)
unfolding lookup clear_by_prefix
lookup-clear_by_prefix prefix key [] = ground arith
lookup-clear_by_prefix prefix key ((k, e) ∷ entries) =
    ground (arith, lookup-clear_by_prefix prefix key entries, bytes_eq_iff k key)
