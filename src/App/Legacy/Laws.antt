-- ===== src/App/Legacy/Laws.antt =====
-- `LegacyLinkStore` (src/app/legacy_adapters.cpp) and the contract of the store interface.
use url_shortener.Prelude.{
  ◌≡◌, refl, ap, ◌↔◌, inl, inr, true, ◌&&◌, not, none, some, arith, if◌then◌else◌, Bool-cases,
  Option-cases, is_some, Bytes, ◌=ᵇ◌, bytes_eq_iff, lookup-erase,
}
use url_shortener.Core.Link.{Link}
use url_shortener.Storage.LinkRepository.{
  Store, Repo, get_by_slug, get_by_id, slug_exists, get_link_for_read,
  update_link_and_invalidate_cache,
}
use url_shortener.Storage.LinkRepository.Index.{KeepsSlug, create-IsConsistent}
use url_shortener.Storage.LinkRepository.Lookups.{
  get_by_slug-create, slug_exists_lem, get_by_slug-eq_some,
}
use url_shortener.Storage.LinkRepository.Coherence.{
  IsCoherent, get_link_for_read_lem, update_link_and_invalidate_cache_lem,
}
use url_shortener.App.Types.{is_done}
use url_shortener.App.StoreLaws.{LinkStoreLaws}
use url_shortener.App.Legacy.{
  create, find_by_slug, slug_exists_in, invalidate_cache, update, legacy_link_store,
}
use url_shortener.Storage.LinkRepository

create_parts :
    (l : Link) (s : Store)
    → (is_done (create l s).0 ≡ not (is_some (LinkRepository.create l s.repo).0))
      × ((create l s).1 ≡ record s { repo = (LinkRepository.create l s.repo).1 })
unfolding create
create_parts l s = elim (Option-cases (LinkRepository.create l s.repo).0) [
  | inl e ↦ rw (e, create) (refl, refl)
  | inr (x, e) ↦ rw (e, create) (refl, refl)
]

pub create_at :
    (l : Link) (j : Bytes) (s : Store)
    → IsCoherent s
    → get_by_slug j (create l s).1.repo
      ≡ (if is_done (create l s).0 && (l.slug =ᵇ j) then some l else get_by_slug j s.repo)
create_at l j s ok =
    let (d, e) = create_parts l s in
    rw (d, e) (ground (arith, get_by_slug-create l s.repo ok.consistent j))

pub create_free :
    (l : Link) (s : Store)
    → IsCoherent s
    → is_done (create l s).0 ≡ true
    → get_by_slug l.slug s.repo ≡ none
unfolding LinkRepository.create get_by_slug
create_free l s ok h = ground (arith, (create_parts l s).0)

pub create_valid : (l : Link) (s : Store) → IsCoherent s → IsCoherent (create l s).1
create_valid l s ok =
    let (d, e) = create_parts l s in
    record {
      consistent = rw e (create-IsConsistent l s.repo ok.consistent);
      cached = λ j k h. ground (
        arith,
        create_at l j s ok,
        create_free l s ok,
        bytes_eq_iff l.slug j,
        ok.cached j k (rw e at h),
      );
    }

-- The link under the slug of a changed copy is the one that the write replaces.
old-KeepsSlug :
    (l old : Link) (s : Store)
    → IsCoherent s
    → get_by_slug l.slug s.repo ≡ some old
    → old.id ≡ l.id
    → KeepsSlug l s.repo
unfolding get_by_id
old-KeepsSlug l old s ok h e other found =
    let (slug, by_id) = get_by_slug-eq_some l.slug s.repo old ok.consistent h in
    ground (arith, slug, by_id, found, e)

update_parts :
    (l : Link) (s : Store)
    → (is_done (update l s).0 ≡ (update_link_and_invalidate_cache l s).0)
      × ((update l s).1 ≡ (update_link_and_invalidate_cache l s).1)
unfolding update
update_parts l s = elim (Bool-cases (update_link_and_invalidate_cache l s).0) [
  | inl e ↦ rw (e, update) (refl, refl)
  | inr e ↦ rw (e, update) (refl, refl)
]

pub update_lem :
    (l old : Link) (s : Store)
    → IsCoherent s
    → get_by_slug l.slug s.repo ≡ some old
    → old.id ≡ l.id
    → IsCoherent (update l s).1
      × ((j : Bytes)
          → get_by_slug j (update l s).1.repo
            ≡ (if is_done (update l s).0 && (l.slug =ᵇ j) then some l else get_by_slug j s.repo))
update_lem l old s ok h e =
    let (d, p) = update_parts l s in
    rw (d, p) (update_link_and_invalidate_cache_lem l s ok (old-KeepsSlug l old s ok h e))

pub invalidate_valid : (j : Bytes) (s : Store) → IsCoherent s → IsCoherent (invalidate_cache j s)
unfolding invalidate_cache
invalidate_valid j s ok = record {
  consistent = ok.consistent;
  cached = λ i l h. ground (arith, lookup-erase j i s.cache, ok.cached i l);
}

-- The contract, for `IsCoherent` and the repository's lookup.
unfoldable pub legacy_contract : LinkStoreLaws legacy_link_store
unfolding find_by_slug slug_exists_in invalidate_cache
legacy_contract = record {
  IsValid = IsCoherent;
  at = λ j s. get_by_slug j s.repo;
  at_slug = λ j s l ok h. (get_by_slug-eq_some j s.repo l ok.consistent h).0;
  slug_exists_at = λ j s ok. slug_exists_lem j s.repo ok.consistent;
  find_by_slug_at = λ j s ok. (get_link_for_read_lem j s ok).0;
  find_by_slug_valid = λ j s ok. (get_link_for_read_lem j s ok).2;
  find_by_slug_keeps =
      λ i j s ok. ap (λ (r : Repo). get_by_slug j r) (get_link_for_read_lem i s ok).1;
  create_valid = create_valid;
  create_at = create_at;
  create_free = create_free;
  invalidate_valid = invalidate_valid;
  invalidate_keeps = λ i j s ok. refl;
  update_valid = λ l old s ok h e. (update_lem l old s ok h e).0;
  update_at = λ l old j s ok h e. (update_lem l old s ok h e).1 j;
}

-- The adapter keeps the store contract: it is a map from slugs to links, and it is the map that the
-- repository's lookup makes, whatever is cached; every coherent store is valid.
pub legacy_laws :
    (laws : LinkStoreLaws legacy_link_store) × ((s : Store) → laws.IsValid s ↔ IsCoherent s)
    × ((j : Bytes) (s : Store) → laws.at j s ≡ get_by_slug j s.repo)
unfolding legacy_contract
legacy_laws = (legacy_contract, λ s. (λ h. h, λ h. h), λ j s. refl)
