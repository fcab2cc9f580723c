-- ===== src/Storage/LinkRepository.antt =====
-- src/storage/link_repository.cpp: the in-memory link repository with its two indexes, the link
-- cache, and the two functions that keep them together. Each operation of the two objects holds its
-- mutex throughout, so it is one step. `getLinkForRead` and `updateLinkAndInvalidateCache` make
-- several such steps and are modelled as run without another thread between them. The process-wide
-- repository and cache are one `Store`.
pub mod Index
pub mod Lookups
pub mod Coherence
use url_shortener.Prelude.{
  Bool, true, false, ◌||◌, Option, none, some, if◌then◌else◌, is_some, Bytes, Map, lookup, insert,
  erase,
}
use url_shortener.Core.Link.{Link}

pub data RepoError : Type 0 where
  not_found already_exists transient_failure permanent_failure : RepoError

pub record Repo : Type 0 where
  pub by_id : Map Link
  pub slug_to_id : Map Bytes

-- The result of a write: `none` is the return value `true`, an error is `false` with the error
-- stored through the pointer.
unfoldable pub create : Link → Repo → Option RepoError × Repo
create link repo =
    if is_some (lookup link.slug repo.slug_to_id) || is_some (lookup link.id repo.by_id)
    then (some already_exists, repo)
    else (
      none,
      record repo {
        by_id = insert link.id link repo.by_id;
        slug_to_id = insert link.slug link.id repo.slug_to_id;
      },
    )

unfoldable pub get_by_slug : Bytes → Repo → Option Link
get_by_slug slug repo = elim (lookup slug repo.slug_to_id) [
  | none ↦ none
  | some id ↦ lookup id repo.by_id
]

unfoldable pub get_by_id : Bytes → Repo → Option Link
get_by_id id repo = lookup id repo.by_id

unfoldable pub slug_exists : Bytes → Repo → Bool
slug_exists slug repo = is_some (lookup slug repo.slug_to_id)

unfoldable pub update : Link → Repo → Option RepoError × Repo
update link repo =
    if is_some (lookup link.id repo.by_id)
    then (none, record repo { by_id = insert link.id link repo.by_id })
    else (some not_found, repo)

-- linkRepository() and linkCache()
pub record Store : Type 0 where
  pub repo : Repo
  pub cache : Map Link

unfoldable pub get_link_for_read : Bytes → Store → Option Link × Store
get_link_for_read slug store = elim (lookup slug store.cache) [
  | some link ↦ (some link, store)
  | none ↦ elim (get_by_slug slug store.repo) [
    | none ↦ (none, store)
    | some link ↦ (some link, record store { cache = insert slug link store.cache })
  ]
]

unfoldable pub update_link_and_invalidate_cache : Link → Store → Bool × Store
update_link_and_invalidate_cache link store =
    let (error, repo) = update link store.repo in
    if is_some error
    then (false, record store { repo = repo })
    else (true, record { repo = repo; cache = erase link.slug store.cache })
