-- ===== src/Storage/LinkRepository/Coherence.antt =====
-- The cache in front of the repository (src/storage/link_repository.cpp: getLinkForRead,
-- updateLinkAndInvalidateCache).
use url_shortener.Prelude.{
  ◌≡◌, refl, sym, ◌⊎◌, inl, inr, true, false, ◌&&◌, none, some, [], arith, if◌then◌else◌,
  Bool-cases, Option-cases, is_some, Bytes, ◌=ᵇ◌, bytes_eq_iff, lookup, insert, erase,
  lookup-insert, lookup-erase,
}
use url_shortener.Core.Link.{Link}
use url_shortener.Storage.LinkRepository.{
  Store, get_by_slug, update, get_link_for_read, update_link_and_invalidate_cache,
}
use url_shortener.Storage.LinkRepository.Index.{
  IsConsistent, KeepsSlug, update-IsConsistent, empty_repo, empty_repo-IsConsistent,
}
use url_shortener.Storage.LinkRepository.Lookups.{get_by_slug-update}

-- The indexes are in step, and each cached link is what the repository has under that slug.
pub record IsCoherent (s : Store) : Type 0 where
  pub consistent : IsConsistent s.repo
  pub cached :
      (slug : Bytes) (l : Link) → lookup slug s.cache ≡ some l → get_by_slug slug s.repo ≡ some l

abbrev pub empty_store : Store
empty_store = record { repo = empty_repo; cache = [] }

pub empty_store-IsCoherent : IsCoherent empty_store
unfolding lookup
empty_store-IsCoherent = record {
  consistent = empty_repo-IsConsistent;
  cached = λ slug l e. absurd (ground arith);
}

-- The three ways of a read: from the cache, from the repository into the cache, and not found.
read_cases :
    (slug : Bytes) (s : Store)
    → ((l : Link) × (lookup slug s.cache ≡ some l) × (get_link_for_read slug s ≡ (some l, s)))
      ⊎ ((get_by_slug slug s.repo ≡ none) × (get_link_for_read slug s ≡ (none, s)))
      ⊎ ((l : Link) × (get_by_slug slug s.repo ≡ some l)
          × (get_link_for_read slug s ≡ (some l, record s { cache = insert slug l s.cache })))
unfolding get_link_for_read
read_cases slug s = elim (Option-cases (lookup slug s.cache)) [
  | inr (l, e) ↦ inl (l, e, rw (e, get_link_for_read))
  | inl e ↦ elim (Option-cases (get_by_slug slug s.repo)) [
    | inl n ↦ inr (inl (n, rw (e, n, get_link_for_read)))
    | inr (l, f) ↦ inr (inr (l, f, rw (e, f, get_link_for_read)))
  ]
]

-- With a coherent cache, reading through it returns what the repository has, leaves the repository
-- alone, and keeps the cache coherent.
pub get_link_for_read_lem :
    (slug : Bytes) (s : Store)
    → IsCoherent s
    → ((get_link_for_read slug s).0 ≡ get_by_slug slug s.repo)
      × ((get_link_for_read slug s).1.repo ≡ s.repo)
      × IsCoherent (get_link_for_read slug s).1
get_link_for_read_lem slug s ok = elim (read_cases slug s) [
  | inl (l, e, p) ↦ rw p (sym (ok.cached slug l e), refl, ok)
  | inr (inl (e, p)) ↦ rw p (sym e, refl, ok)
  | inr (inr (l, e, p)) ↦ rw p (
    sym e,
    refl,
    record {
      consistent = ok.consistent;
      cached = λ j k h.
          ground (arith, lookup-insert slug j l s.cache, bytes_eq_iff slug j, ok.cached j k, e);
    },
  )
]

update_ok :
    (link : Link) (s : Store)
    → is_some (update link s.repo).0 ≡ false
    → update_link_and_invalidate_cache link s
      ≡ (true, record { repo = (update link s.repo).1; cache = erase link.slug s.cache })
unfolding update_link_and_invalidate_cache
update_ok link s h = rw h

update_failed :
    (link : Link) (s : Store)
    → is_some (update link s.repo).0 ≡ true
    → update_link_and_invalidate_cache link s ≡ (false, record s { repo = (update link s.repo).1 })
unfolding update_link_and_invalidate_cache
update_failed link s h = rw h

module _ (link : Link) (s : Store) (ok : IsCoherent s) (same : KeepsSlug link s.repo) where
  -- With a coherent cache, a write that keeps the slug of its link, successful or not, keeps the
  -- cache coherent, and on success that slug then leads to the link written, while every other slug
  -- leads where it did.
  pub update_link_and_invalidate_cache_lem :
      IsCoherent (update_link_and_invalidate_cache link s).1
      × ((slug : Bytes)
          → get_by_slug slug (update_link_and_invalidate_cache link s).1.repo ≡ (
              if (update_link_and_invalidate_cache link s).0 && (link.slug =ᵇ slug)
              then some link
              else get_by_slug slug s.repo))
  update_link_and_invalidate_cache_lem = elim (Bool-cases (is_some (update link s.repo).0)) [
    | inl e ↦
        let view = λ (j : Bytes). get_by_slug-update link s.repo ok.consistent j same in
        rw (update_failed link s e) (
          record {
            consistent = update-IsConsistent link s.repo ok.consistent same;
            cached = λ j k h. ground (arith, view j, e, ok.cached j k);
          },
          λ j. ground (arith, view j, e),
        )
    | inr e ↦
        let view = λ (j : Bytes). get_by_slug-update link s.repo ok.consistent j same in
        rw (update_ok link s e) (
          record {
            consistent = update-IsConsistent link s.repo ok.consistent same;
            cached =
                λ j k h. ground (arith, view j, e, ok.cached j k, lookup-erase link.slug j s.cache);
          },
          λ j. ground (arith, view j, e),
        )
  ]
