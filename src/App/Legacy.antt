-- ===== src/App/Legacy.antt =====
-- src/app/legacy_adapters.cpp: `LegacyLinkStore`, the store of the running server, over the link
-- repository and its cache.
pub mod Laws
use url_shortener.Prelude.{Bool, Option, none, some, if◌then◌else◌, Bytes, bytes, erase}
use url_shortener.Core.Link.{Link}
use url_shortener.Storage.LinkRepository.{
  RepoError, already_exists, Store, get_by_id, slug_exists, get_link_for_read,
  update_link_and_invalidate_cache,
}
use url_shortener.App.Types.{
  AppError, slug_conflict, storage_failure, error, StoreReply, done, refused, LinkStore,
}
use url_shortener.Storage.LinkRepository

unfoldable pub create_error : RepoError → AppError
create_error e = elim e [
  | already_exists ↦ error slug_conflict (bytes "slug already in use")
  | _ ↦ error storage_failure (bytes "repository failure")
]

unfoldable pub create : Link → Store → StoreReply × Store
create link store =
    let (failed, repo) = LinkRepository.create link store.repo in
    elim failed [
      | none ↦ (done, record store { repo = repo })
      | some e ↦ (refused (create_error e), record store { repo = repo })
    ]

unfoldable pub find_by_slug : Bytes → Store → Option Link × Store
find_by_slug slug store = get_link_for_read slug store

unfoldable pub find_by_id : Bytes → Store → Option Link
find_by_id id store = get_by_id id store.repo

unfoldable pub slug_exists_in : Bytes → Store → Bool
slug_exists_in slug store = slug_exists slug store.repo

unfoldable pub invalidate_cache : Bytes → Store → Store
invalidate_cache slug store = record store { cache = erase slug store.cache }

unfoldable pub update : Link → Store → StoreReply × Store
update link store =
    let (written, store') = update_link_and_invalidate_cache link store in
    if written
    then (done, store')
    else (refused (error storage_failure (bytes "repository failure")), store')

abbrev pub legacy_link_store : LinkStore Store
legacy_link_store = record {
  create = create;
  find_by_slug = find_by_slug;
  find_by_id = find_by_id;
  slug_exists = slug_exists_in;
  invalidate_cache = invalidate_cache;
  update = update;
}
