-- ===== src/App/Service/Commands.antt =====
-- src/app/link_command_service.cpp: UpdateLink, DeleteLink, SetLinkEnabled, RestoreLink.
use url_shortener.Prelude.{Bool, none, some, if◌then◌else◌, is_some, bytes, ℤ}
use url_shortener.Core.Config.{ServerConfig}
use url_shortener.Core.Link.{Link}
use url_shortener.Core.Link.Time.{parse_rfc3339_zulu, format_timestamp}
use url_shortener.Core.Validation.{validate_tags, validate_metadata, validate_campaign}
use url_shortener.App.Types.{
  invalid_field, Outcome, ok, err, error, ◌>>=◌, UpdateLinkCommand, DeleteLinkCommand,
  SetLinkEnabledCommand, RestoreLinkCommand, LinkView, LinkStore, Env,
}
use url_shortener.App.Service.{change_link}

-- The steps of `UpdateLink`, one for each field of the command, in the source's order.
unfoldable pub patch_enabled : UpdateLinkCommand → Link → Outcome Link
patch_enabled command link = elim command.enabled [
  | none ↦ ok link
  | some enabled ↦ ok (record link { enabled = enabled })
]

unfoldable pub patch_expires_at : UpdateLinkCommand → Link → Outcome Link
patch_expires_at command link = elim command.expires_at [
  | none ↦ ok link
  | some none ↦ ok (record link { expires_at = none })
  | some (some value) ↦
      if is_some (parse_rfc3339_zulu value)
      then ok (record link { expires_at = some value })
      else err (error invalid_field (bytes "expires_at must be RFC3339 UTC or null"))
]

unfoldable pub patch_tags : UpdateLinkCommand → Link → Outcome Link
patch_tags command link = elim command.tags [
  | none ↦ ok link
  | some tags ↦ elim (validate_tags tags) [
    | none ↦ err (error invalid_field (bytes "tags violate constraints"))
    | some normalized ↦ ok (record link { tags = normalized })
  ]
]

unfoldable pub patch_metadata : UpdateLinkCommand → Link → Outcome Link
patch_metadata command link = elim command.metadata [
  | none ↦ ok link
  | some metadata ↦
      if validate_metadata metadata
      then ok (record link { metadata = metadata })
      else err (error invalid_field (bytes "metadata must be flat object with string values"))
]

unfoldable pub patch_campaign : UpdateLinkCommand → Link → Outcome Link
patch_campaign command link = elim command.campaign [
  | none ↦ ok link
  | some none ↦ ok (record link { campaign = none })
  | some (some value) ↦
      if validate_campaign (some value)
      then ok (record link { campaign = some value })
      else err (error invalid_field (bytes "campaign fields exceed limits"))
]

unfoldable pub patch_link : ℤ → UpdateLinkCommand → Link → Outcome Link
unfolding patch_enabled patch_expires_at patch_tags patch_metadata patch_campaign
patch_link now command link = do
  l1 ← patch_enabled command link
  l2 ← patch_expires_at command l1
  l3 ← patch_tags command l2
  l4 ← patch_metadata command l3
  l5 ← patch_campaign command l4
  ok (record l5 { updated_at = format_timestamp now })

unfoldable pub mark_deleted : ℤ → Link → Link
mark_deleted now link = record link {
  deleted_at = some (format_timestamp now);
  updated_at = format_timestamp now;
}

unfoldable pub mark_enabled : Bool → ℤ → Link → Link
mark_enabled enabled now link = record link { enabled = enabled; updated_at = format_timestamp now }

unfoldable pub mark_restored : ℤ → Link → Link
mark_restored now link = record link { deleted_at = none; updated_at = format_timestamp now }

module _ {S : Type 0} (store : LinkStore S) (config : ServerConfig) (env : Env) where
  unfoldable pub update_link : UpdateLinkCommand → S → Outcome LinkView × S
  update_link command s =
      change_link store config env command.slug (patch_link env.now_for_write command) s

  unfoldable pub delete_link : DeleteLinkCommand → S → Outcome LinkView × S
  delete_link command s =
      change_link store config env command.slug (λ link. ok (mark_deleted env.now_for_write link)) s

  unfoldable pub set_link_enabled : SetLinkEnabledCommand → S → Outcome LinkView × S
  set_link_enabled command s =
      change_link store config env command.slug
        (λ link. ok (mark_enabled command.enabled env.now_for_write link)) s

  unfoldable pub restore_link : RestoreLinkCommand → S → Outcome LinkView × S
  restore_link command s =
      change_link store config env command.slug (λ link. ok (mark_restored env.now_for_write link))
        s
