-- ===== src/Storage/CacheStore.antt =====
-- src/storage/inmemory/in_memory_cache_store.cpp: a cache whose entries expire. `now` is the
-- clock's reading in the call; the error is `none` on every path, so it is left out.
pub mod Laws
use url_shortener.Prelude.{
  ℕ, ◌+◌, ◌*◌, Option, none, some, [], ◌∷◌, if◌then◌else◌, Bytes, starts_with, Map, lookup, insert,
  erase, ℤ, pos, leb_ℤ, pos_part,
}
use url_shortener.Storage.Models.{CacheValue, ticks_per_second, has_come}

pub record Entry : Type 0 where
  pub value : CacheValue
  pub expires_at : Option ℕ

unfoldable pub get : ℕ → Bytes → Map Entry → Option CacheValue × Map Entry
get now key entries = elim (lookup key entries) [
  | none ↦ (none, entries)
  | some entry ↦
      if has_come entry.expires_at now
      then (none, erase key entries)
      else (some entry.value, entries)
]

-- `ttl` is a number of seconds; one that is not positive drops the entry.
unfoldable pub set : ℕ → Bytes → CacheValue → Option ℤ → Map Entry → Map Entry
set now key value ttl entries = elim ttl [
  | none ↦ insert key (record { value = value; expires_at = none }) entries
  | some seconds ↦
      if leb_ℤ seconds (pos 0)
      then erase key entries
      else insert key
          (record { value = value; expires_at = some (now + pos_part seconds * ticks_per_second) })
          entries
]

unfoldable pub delete : Bytes → Map Entry → Map Entry
delete key entries = erase key entries

unfoldable pub clear_by_prefix : Bytes → Map Entry → Map Entry
clear_by_prefix prefix [] = []
clear_by_prefix prefix ((key, entry) ∷ entries) =
    let rest = clear_by_prefix prefix entries in
    if starts_with key prefix then rest else (key, entry) ∷ rest
