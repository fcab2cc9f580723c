-- ===== src/App/Service/Patch.antt =====
-- What `UpdateLink` (src/app/link_command_service.cpp) makes of the fields of a link, and the three
-- commands of the life cycle.
use url_shortener.Prelude.{
  ◌≡◌, Bool, true, false, ◌&&◌, Option, none, some, List, arith, is_some, value_or, Bytes, Map, ℤ,
}
use url_shortener.Core.Link.{Campaign, Link}
use url_shortener.Core.Link.Time.{parse_rfc3339_zulu, format_timestamp}
use url_shortener.Core.Validation.{validate_tags, validate_metadata, validate_campaign}
use url_shortener.App.Types.{Outcome, ok, err, UpdateLinkCommand}
use url_shortener.App.Service.Commands.{patch_link}

-- The tags after a patch: the old ones, or the validated new ones.
abbrev pub TagsPatched : Option (List Bytes) → List Bytes → List Bytes → Type 0
TagsPatched none old new = new ≡ old
TagsPatched (some tags) old new = validate_tags tags ≡ some new

-- A patched link: each field that the command names has the command's value (a null clears it),
-- the others are as they were, and the time of the update is the clock's.
pub record IsPatched (now : ℤ) (c : UpdateLinkCommand) (old new : Link) : Type 0 where
  pub enabled : new.enabled ≡ value_or c.enabled old.enabled
  pub expires_at : new.expires_at ≡ value_or c.expires_at old.expires_at
  pub tags : TagsPatched c.tags old.tags new.tags
  pub metadata : new.metadata ≡ value_or c.metadata old.metadata
  pub campaign : new.campaign ≡ value_or c.campaign old.campaign
  pub updated_at : new.updated_at ≡ format_timestamp now
  pub id : new.id ≡ old.id
  pub slug : new.slug ≡ old.slug
  pub target_url : new.target_url ≡ old.target_url
  pub created_at : new.created_at ≡ old.created_at
  pub deleted_at : new.deleted_at ≡ old.deleted_at
  pub stats : new.stats ≡ old.stats
  pub redirect_type : new.redirect_type ≡ old.redirect_type

abbrev pub is_ok {ℓ} : {A : Type ℓ} → Outcome A → Bool
is_ok (ok a) = true
is_ok (err e) = false

-- The fields of a command that are refused.
abbrev expiry_passes : Option (Option Bytes) → Bool
expiry_passes (some (some value)) = is_some (parse_rfc3339_zulu value)
expiry_passes _ = true

abbrev tags_pass : Option (List Bytes) → Bool
tags_pass none = true
tags_pass (some tags) = is_some (validate_tags tags)

abbrev metadata_passes : Option (Map Bytes) → Bool
metadata_passes none = true
metadata_passes (some metadata) = validate_metadata metadata

abbrev campaign_passes : Option (Option Campaign) → Bool
campaign_passes (some (some value)) = validate_campaign (some value)
campaign_passes _ = true

-- `UpdateLink` accepts a command exactly when every field that it sets passes its check, whatever
-- the link.
pub patch_link_accepts :
    (now : ℤ) (c : UpdateLinkCommand) (l : Link)
    → is_ok (patch_link now c l) ≡ (
        expiry_passes c.expires_at
        && tags_pass c.tags
        && metadata_passes c.metadata
        && campaign_passes c.campaign)
unfolding patch_link
patch_link_accepts now c l = ground arith

-- A successful patch changes exactly the fields that the command names, and the time of the update.
pub patch_link-IsPatched :
    (now : ℤ) (c : UpdateLinkCommand) (l k : Link) → patch_link now c l ≡ ok k → IsPatched now c l k
unfolding patch_link
patch_link-IsPatched now c l k h = ground arith
