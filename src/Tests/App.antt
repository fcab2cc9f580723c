-- ===== src/Tests/App.antt =====
-- The theorems on src/app and src/core/link_service.cpp at concrete inputs.
use url_shortener.Prelude.{
  ◌≡◌, refl, false, ◌&&◌, none, some, [], arith, if◌then◌else◌, Bytes, bytes, ◌=ᵇ◌, lookup, insert,
  erase, pos,
}
use url_shortener.Core.Config.{default_config}
use url_shortener.Core.Link.{Link, resolve_link_status}
use url_shortener.Core.Link.Time.{format_timestamp}
use url_shortener.Storage.LinkRepository.{
  Store, get_by_slug, get_link_for_read, update_link_and_invalidate_cache,
}
use url_shortener.Storage.LinkRepository.Coherence.{IsCoherent}
use url_shortener.App.Types.{
  Env, not_found, error, Outcome, ok, CreateLinkCommand, UpdateLinkCommand,
}
use url_shortener.App.Service.{create_link, to_view, change_link, persist, new_link}
use url_shortener.App.Service.Commands.{
  patch_link, update_link, delete_link, patch_enabled, patch_expires_at, patch_tags, patch_metadata,
  patch_campaign, mark_deleted, restore_link, mark_restored,
}
use url_shortener.App.Service.Create.{Created, create_link-Created}
use url_shortener.App.Service.Lifecycle.{KeepsIdentity, Changed, change_link-Changed}
use url_shortener.App.Service.Patch.{IsPatched, is_ok}
use url_shortener.App.Service.Effects.{
  LinkCommand, delete, restore, run, failed_command-changes_nothing, update_link-IsPatched,
  restore_link-delete_link,
}
use url_shortener.App.Legacy.{legacy_link_store}
use url_shortener.App.Legacy.Laws.{legacy_contract}
use url_shortener.Tests.{demo_link, demo_store, demo_store-valid, demo_env}
use url_shortener.Core.Validation.{validate_tags, normalize_tags}
use url_shortener.App.Service.Accepts.{passes, is_taken, create_link_accepts}
use url_shortener.Storage.LinkRepository
use url_shortener.App.Legacy

abbrev blog_command : CreateLinkCommand
blog_command = record {
  target_url = bytes "https://example.com/blog";
  slug = some (bytes "blog");
  redirect_type = none;
  expires_at = none;
  enabled = none;
  tags = [];
  metadata = [];
  campaign = none;
}

create_link-Created_example :
    IsCoherent (create_link legacy_link_store default_config demo_env blog_command demo_store).1
    × Created legacy_link_store legacy_contract default_config demo_env blog_command demo_store
        (create_link legacy_link_store default_config demo_env blog_command demo_store)
unfolding legacy_contract
create_link-Created_example =
    create_link-Created legacy_link_store legacy_contract default_config demo_env blog_command
      demo_store demo_store-valid

abbrev disable : Link → Outcome Link
disable l = ok (record l { enabled = false })

disable-KeepsIdentity : KeepsIdentity disable
disable-KeepsIdentity = record { same = λ l k h. ground arith }

change_link-Changed_example :
    IsCoherent
      (change_link legacy_link_store default_config demo_env (bytes "docs") disable demo_store).1
    × Changed legacy_link_store legacy_contract default_config demo_env
        (bytes "docs")
        disable
        demo_store
        (change_link legacy_link_store default_config demo_env (bytes "docs") disable demo_store)
unfolding legacy_contract
change_link-Changed_example =
    change_link-Changed legacy_link_store legacy_contract default_config demo_env (bytes "docs")
      disable demo_store disable-KeepsIdentity demo_store-valid

abbrev clear_tags : UpdateLinkCommand
clear_tags = record {
  slug = bytes "docs";
  enabled = some false;
  expires_at = none;
  tags = some [];
  metadata = none;
  campaign = none;
}

abbrev cleared : Link
cleared = record demo_link { enabled = false; tags = []; updated_at = bytes "2024-02-01T00:00:00Z" }

abbrev after_clear : Store
after_clear = (update_link legacy_link_store default_config demo_env clear_tags demo_store).1

update_link-IsPatched_example :
    (old new : Link) × (get_by_slug (bytes "docs") demo_store.repo ≡ some old)
    × (get_by_slug (bytes "docs") after_clear.repo ≡ some new)
    × IsPatched (pos 1706745600) clear_tags old new
    × (to_view default_config (pos 1706745600) cleared
        ≡ to_view default_config (pos 1706745600) new)
    × ((j : Bytes)
        → (if bytes "docs" =ᵇ j
            then get_by_slug j demo_store.repo
            else get_by_slug j after_clear.repo)
          ≡ get_by_slug j demo_store.repo)
unfolding update_link patch_link patch_enabled patch_expires_at patch_tags patch_metadata
    patch_campaign validate_tags normalize_tags legacy_contract change_link get_link_for_read lookup
    get_by_slug LinkRepository.create insert ◌=ᵇ◌ persist Legacy.update
    update_link_and_invalidate_cache LinkRepository.update format_timestamp to_view
    resolve_link_status Legacy.find_by_slug erase
update_link-IsPatched_example =
    update_link-IsPatched legacy_link_store legacy_contract default_config demo_env clear_tags
      demo_store {v = to_view default_config (pos 1706745600) cleared} demo_store-valid refl

failed_command-changes_nothing_example :
    IsCoherent
      (run legacy_link_store default_config demo_env
        (delete (record { slug = bytes "blog" }))
        demo_store).1
    × ((j : Bytes)
        → get_by_slug j
            (run legacy_link_store default_config demo_env
              (delete (record { slug = bytes "blog" }))
              demo_store).1.repo
          ≡ get_by_slug j demo_store.repo)
unfolding legacy_contract delete_link change_link get_link_for_read lookup get_by_slug
    LinkRepository.create insert ◌=ᵇ◌
failed_command-changes_nothing_example =
    failed_command-changes_nothing legacy_link_store legacy_contract default_config demo_env
      (delete (record { slug = bytes "blog" })) demo_store
      {e = error not_found (bytes "Link not found")} demo_store-valid refl

abbrev gone : Link
gone = record demo_link {
  deleted_at = some (bytes "2024-02-01T00:00:00Z");
  updated_at = bytes "2024-02-01T00:00:00Z";
}

abbrev delete_docs : LinkCommand
delete_docs = delete (record { slug = bytes "docs" })

abbrev restore_docs : LinkCommand
restore_docs = restore (record { slug = bytes "docs" })

abbrev after_delete : Store
after_delete = (run legacy_link_store default_config demo_env delete_docs demo_store).1

abbrev restored : Link
restored = record demo_link { updated_at = bytes "2024-02-01T00:01:00Z" }

-- A minute later.
abbrev later_env : Env
later_env = record demo_env { now_for_write = pos 1706745660; now_for_view = pos 1706745660 }

restore_link-delete_link_example :
    (old : Link) × (get_by_slug (bytes "docs") demo_store.repo ≡ some old)
    × (get_by_slug
          (bytes "docs")
          (run legacy_link_store default_config later_env restore_docs after_delete).1.repo
        ≡ some (record old { deleted_at = none; updated_at = format_timestamp (pos 1706745660) }))
unfolding delete_link mark_deleted restore_link mark_restored legacy_contract change_link
    get_link_for_read lookup get_by_slug LinkRepository.create insert ◌=ᵇ◌ persist Legacy.update
    update_link_and_invalidate_cache LinkRepository.update format_timestamp to_view
    resolve_link_status Legacy.find_by_slug erase
restore_link-delete_link_example =
    restore_link-delete_link legacy_link_store legacy_contract default_config demo_env later_env
      (bytes "docs") demo_store {v = to_view default_config (pos 1706745600) gone}
      {w = to_view default_config (pos 1706745660) restored} demo_store-valid refl refl

create_link_accepts_example :
    is_ok (create_link legacy_link_store default_config demo_env blog_command demo_store).0 ≡ (
      passes legacy_link_store default_config demo_env blog_command demo_store
      && is_taken legacy_link_store default_config demo_env
          (new_link legacy_link_store default_config demo_env blog_command demo_store)
          demo_store)
create_link_accepts_example =
    create_link_accepts legacy_link_store default_config demo_env blog_command demo_store
