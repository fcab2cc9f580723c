-- ===== src/App/LinkService/Resolution.antt =====
-- The answers of `LinkService::Resolve` (src/core/link_service.cpp), with and without its cache.
use url_shortener.Prelude.{
  ℕ, ◌≡◌, refl, sym, ap, ◌∙◌, ◌⊎◌, inl, inr, Bool, true, false, not, Option, none, some, [], ◌∷◌,
  ◌++◌, arith, if◌then◌else◌, Option-cases, Bytes, Map, lookup, erase,
}
use url_shortener.Storage.Models.{CacheValue, LinkRecord, LinkAccessEvent, has_come}
use url_shortener.Storage.CacheStore.{Entry, get, set}
use url_shortener.Storage.MetadataRepository.{get_by_short_code}
use url_shortener.App.LinkService.{
  ResolveStatus, redirect, not_found, inactive, expired, ResolveResult, Ports, Readings,
  status_code, emit_analytics, ttl_of, cache_value, failure, success, resolve_record,
  resolve_cached, resolve,
}
use url_shortener.App.LinkService.Coherence.{
  IsCoherent, erase-IsCoherent, set-IsCoherent, get-IsCoherent,
}
use url_shortener.Storage.CacheStore

-- The answer that a record, or none, calls for at a time.
abbrev pub answer_of : ℕ → Option LinkRecord → ResolveStatus × Option Bytes
answer_of now none = (not_found, none)
answer_of now (some r) =
    if not r.is_active
    then (inactive, none)
    else if has_come r.expires_at now
    then (expired, none)
    else (redirect, some r.target_url)

-- The reading that decides on the expiry.
abbrev reading_for : Readings → Bool → ℕ
reading_for clock true = clock.now_for_cached
reading_for clock false = clock.now_for_record

-- The answer is that of a record, or of none; the records are left alone, and one event tells the
-- answer.
abbrev pub IsAnswer : Readings → Bytes → Option LinkRecord → Ports → ResolveResult × Ports → Type 0
IsAnswer clock code found ports (result, after) =
    ((result.status, result.target_url) ≡ answer_of (reading_for clock result.cache_hit) found)
    × (after.records ≡ ports.records)
    × IsCoherent after
    × ((e : LinkAccessEvent) × (after.emitted ≡ ports.emitted ++ e ∷ [])
        × (e.short_code ≡ code)
        × (e.status_code ≡ status_code result.status)
        × (e.cache_hit ≡ result.cache_hit)
        × (e.occurred_at ≡ clock.now_for_event))

module _ (clock : Readings) (code : Bytes) where
  emit-IsAnswer :
      (found : Option LinkRecord) (result : ResolveResult) (ports : Ports)
      → IsCoherent ports
      → (result.status, result.target_url) ≡ answer_of (reading_for clock result.cache_hit) found
      → IsAnswer clock code found ports (emit_analytics clock.now_for_event code result ports)
  unfolding emit_analytics
  emit-IsAnswer found result ports ok h = (
    h,
    refl,
    ok,
    (
      record {
        short_code = code;
        occurred_at = clock.now_for_event;
        status_code = status_code result.status;
        cache_hit = result.cache_hit;
      },
      refl,
      refl,
      refl,
      refl,
      refl,
    ),
  )

  fresh : LinkRecord → Ports → Ports
  fresh r ports = record ports {
    cache =
        set clock.now_for_set code (cache_value r) (ttl_of clock.now_for_ttl r.expires_at)
          ports.cache;
  }

  record_cases :
      (r : LinkRecord) (ports : Ports)
      → ((answer_of clock.now_for_record (some r) ≡ (inactive, none))
          × (resolve_record clock code (some r) ports
              ≡ emit_analytics clock.now_for_event code (failure inactive) ports))
        ⊎ ((answer_of clock.now_for_record (some r) ≡ (expired, none))
            × (resolve_record clock code (some r) ports
                ≡ emit_analytics clock.now_for_event code (failure expired) ports))
        ⊎ ((answer_of clock.now_for_record (some r) ≡ (redirect, some r.target_url))
            × (resolve_record clock code (some r) ports
                ≡ emit_analytics clock.now_for_event code
                    (success r.target_url false)
                    (fresh r ports)))
  unfolding resolve_record fresh
  record_cases r ports = ground arith

  record-IsAnswer :
      (found : Option LinkRecord) (ports : Ports)
      → IsCoherent ports
      → lookup code ports.records ≡ found
      → IsAnswer clock code found ports (resolve_record clock code found ports)
  unfolding resolve_record fresh
  record-IsAnswer none ports ok e = emit-IsAnswer none (failure not_found) ports ok refl
  record-IsAnswer (some r) ports ok e = elim (record_cases r ports) [
    | inl (a, p) ↦ rw p (emit-IsAnswer (some r) (failure inactive) ports ok (sym a))
    | inr (inl (a, p)) ↦ rw p (emit-IsAnswer (some r) (failure expired) ports ok (sym a))
    | inr (inr (a, p)) ↦ rw p (
        emit-IsAnswer (some r) (success r.target_url false) (fresh r ports)
          (set-IsCoherent clock.now_for_set code r (ttl_of clock.now_for_ttl r.expires_at) ports ok
            e)
          (sym a))
  ]

  -- What the cache has for the code is what the record says.
  Agrees : Option CacheValue → Option LinkRecord → Type 0
  Agrees cached found =
      (v : CacheValue) → cached ≡ some v → (r : LinkRecord) × (found ≡ some r) × (v ≡ cache_value r)

  cached_cases :
      (v : CacheValue) (r : LinkRecord) (ports : Ports)
      → v ≡ cache_value r
      → ((answer_of clock.now_for_cached (some r) ≡ (redirect, some v.target_url))
          × (resolve_cached clock code (some v) ports
              ≡ emit_analytics clock.now_for_event code (success v.target_url true) ports))
        ⊎ (resolve_cached clock code (some v) ports
            ≡ resolve_record clock code
                (get_by_short_code code ports.records)
                (record ports { cache = erase code ports.cache }))
  unfolding resolve_cached CacheStore.delete cache_value
  cached_cases v r ports h = ground arith

  cached-IsAnswer :
      (cached : Option CacheValue) (ports : Ports)
      → IsCoherent ports
      → Agrees cached (lookup code ports.records)
      → IsAnswer clock code
          (lookup code ports.records)
          ports
          (resolve_cached clock code cached ports)
  unfolding resolve_cached Agrees get_by_short_code
  cached-IsAnswer none ports ok h = record-IsAnswer (lookup code ports.records) ports ok refl
  cached-IsAnswer (some v) ports ok h =
      let (r, e, p) = h v refl in
      elim (cached_cases v r ports p) [
        | inl (a, q) ↦ rw q (
            emit-IsAnswer (lookup code ports.records) (success v.target_url true) ports ok
              (sym (ap (answer_of clock.now_for_cached) e ∙ a)))
        | inr q ↦ rw q (
            record-IsAnswer (lookup code ports.records)
              (record ports { cache = erase code ports.cache }) (erase-IsCoherent code ports ok)
              refl)
      ]

  get-eq_some :
      (cache : Map Entry) (v : CacheValue)
      → (get clock.now_for_get code cache).0 ≡ some v
      → (entry : Entry) × (lookup code cache ≡ some entry) × (v ≡ entry.value)
  unfolding get
  get-eq_some cache v h = elim (Option-cases (lookup code cache)) [
    | inl e ↦ absurd (ground (arith, e, h))
    | inr (entry, e) ↦ (entry, e, ground (arith, e, h))
  ]

  get-Agrees :
      (ports : Ports)
      → IsCoherent ports
      → Agrees (get clock.now_for_get code ports.cache).0 (lookup code ports.records)
  unfolding Agrees
  get-Agrees ports ok v h =
      let (entry, e, p) = get-eq_some ports.cache v h in
      let (r, f, q) = ok code entry e in (r, f, p ∙ q)

  -- With a coherent cache, a short code is resolved as the record under it calls for, at the reading
  -- of the clock that is made for the cached value when the cache gives the answer, and else at the
  -- one for the record: the cache changes no answer but by the time of the test. The records are left alone, the cache stays coherent, and exactly one event
  -- tells the code, the answer's status, whether the cache had it and when the answer was given.
  pub resolve-IsAnswer :
      (ports : Ports)
      → IsCoherent ports
      → IsAnswer clock code (get_by_short_code code ports.records) ports (resolve clock code ports)
  unfolding resolve get_by_short_code
  resolve-IsAnswer ports ok =
      cached-IsAnswer (get clock.now_for_get code ports.cache).0
        (record ports { cache = (get clock.now_for_get code ports.cache).1 })
        (get-IsCoherent clock.now_for_get code ports ok) (get-Agrees ports ok)
