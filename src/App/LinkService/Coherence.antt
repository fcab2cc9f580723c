-- ===== src/App/LinkService/Coherence.antt =====
-- The cache of `LinkService` (src/core/link_service.cpp) and the answers.
use url_shortener.Prelude.{
  ℕ, ◌+◌, ◌*◌, ◌≡◌, sym, ap, ◌∙◌, inl, inr, false, Option, none, some, arith, Bool-cases, Bytes,
  ◌=ᵇ◌, bytes_eq_iff, Map, lookup, erase, lookup-insert, lookup-erase, ℤ, pos_part,
}
use url_shortener.Storage.Models.{CacheValue, LinkRecord, ticks_per_second}
use url_shortener.Storage.CacheStore.{Entry, get, set}
use url_shortener.Storage.MetadataRepository.{update_link, delete_link}
use url_shortener.App.LinkService.{Ports, cache_value, update, delete}
use url_shortener.Storage.CacheStore

-- What a cached value says of a record is what the record says.
abbrev pub IsCoherent : Ports → Type 0
IsCoherent ports =
    (code : Bytes) (entry : Entry)
    → lookup code ports.cache ≡ some entry
    → (r : LinkRecord) × (lookup code ports.records ≡ some r) × (entry.value ≡ cache_value r)

pub erase-IsCoherent :
    (code : Bytes) (ports : Ports)
    → IsCoherent ports
    → IsCoherent (record ports { cache = erase code ports.cache })
erase-IsCoherent code ports ok j entry h =
    ok j entry (ground (arith, lookup-erase code j ports.cache))

module _ (now : ℕ) (code : Bytes) (value : CacheValue) (cache : Map Entry) where
  lookup-set_same :
      (ttl : Option ℤ) (entry : Entry)
      → lookup code (set now code value ttl cache) ≡ some entry
      → entry.value ≡ value
  unfolding set
  lookup-set_same none entry h = ground (
    arith,
    h,
    lookup-insert code code (record { value = value; expires_at = none }) cache,
    bytes_eq_iff code code,
  )
  lookup-set_same (some seconds) entry h = ground (
    arith,
    h,
    lookup-erase code code cache,
    lookup-insert code code
        (record { value = value; expires_at = some (now + pos_part seconds * ticks_per_second) })
        cache,
    bytes_eq_iff code code,
  )

  lookup-set_other :
      (ttl : Option ℤ) (j : Bytes)
      → (code =ᵇ j) ≡ false
      → lookup j (set now code value ttl cache) ≡ lookup j cache
  unfolding set
  lookup-set_other none j h =
      ground (arith, h, lookup-insert code j (record { value = value; expires_at = none }) cache)
  lookup-set_other (some seconds) j h = ground (
    arith,
    h,
    lookup-erase code j cache,
    lookup-insert code j
        (record { value = value; expires_at = some (now + pos_part seconds * ticks_per_second) })
        cache,
  )

pub set-IsCoherent :
    (now : ℕ) (code : Bytes) (r : LinkRecord) (ttl : Option ℤ) (ports : Ports)
    → IsCoherent ports
    → lookup code ports.records ≡ some r
    → IsCoherent (record ports { cache = set now code (cache_value r) ttl ports.cache })
set-IsCoherent now code r ttl ports ok e j entry h = elim (Bool-cases (code =ᵇ j)) [
  | inl same ↦ (
    r,
    ap (λ k. lookup k ports.records) (sym ((bytes_eq_iff code j).0 same)) ∙ e,
    lookup-set_same now code (cache_value r) ports.cache ttl entry (
        ap (λ k. lookup k (set now code (cache_value r) ttl ports.cache))
          ((bytes_eq_iff code j).0 same)
        ∙ h),
  )
  | inr other ↦
      ok j entry (sym (lookup-set_other now code (cache_value r) ports.cache ttl j other) ∙ h)
]

pub get-IsCoherent :
    (now : ℕ) (code : Bytes) (ports : Ports)
    → IsCoherent ports
    → IsCoherent (record ports { cache = (get now code ports.cache).1 })
unfolding get
get-IsCoherent now code ports ok j entry h =
    ok j entry (ground (arith, lookup-erase code j ports.cache))

-- An update or a deletion, successful or not, drops the cached value, so the cache stays coherent.
pub changes-IsCoherent :
    (ports : Ports)
    → IsCoherent ports
    → ((r : LinkRecord) → IsCoherent (update r ports).1)
      × ((code : Bytes) → IsCoherent (delete code ports).1)
unfolding update delete update_link delete_link CacheStore.delete
changes-IsCoherent ports ok = (
  λ r j entry h. ground (
    arith,
    lookup-erase r.short_code j ports.cache,
    ok j entry,
    lookup-insert r.short_code j r ports.records,
  ),
  λ code j entry h.
      ground
        (arith, lookup-erase code j ports.cache, ok j entry, lookup-erase code j ports.records),
)
