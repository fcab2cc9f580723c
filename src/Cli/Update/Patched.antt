-- ===== src/Cli/Update/Patched.antt =====
-- `link update` from its flags to the link (`parseUpdateArgs` of src/cli/link_command_args.cpp and
-- `UpdateLink` of src/app/link_command_service.cpp).
use url_shortener.Prelude.{
  ◌≡◌, sym, ◌⊎◌, inl, inr, Bool, true, ◌||◌, Option, none, some, List, is_some, value_or, Bytes,
  bytes, ℤ,
}
use url_shortener.Core.Link.{Link}
use url_shortener.App.Types.{UpdateLinkCommand, ok}
use url_shortener.App.Service.Commands.{patch_link}
use url_shortener.App.Service.Patch.{TagsPatched, patch_link-IsPatched}
use url_shortener.Cli.Options.{is_given, parsed, Variables}
use url_shortener.Cli.LinkArgs.{has_campaign_field}
use url_shortener.Cli.Update.{update_command}
use url_shortener.Cli.Update.Fields.{update_command-FromFlags}

-- What a patch may have done to a link, when the flags say which fields it changes.
pub record ChangesOnlyGiven (vm : Variables) (old new : Link) : Type 0 where
  id_kept : new.id ≡ old.id
  slug_kept : new.slug ≡ old.slug
  target_url_kept : new.target_url ≡ old.target_url
  created_at_kept : new.created_at ≡ old.created_at
  deleted_at_kept : new.deleted_at ≡ old.deleted_at
  redirect_type_kept : new.redirect_type ≡ old.redirect_type
  stats_kept : new.stats ≡ old.stats
  enabled_by_flag : (is_given vm (bytes "enabled") ≡ true) ⊎ (new.enabled ≡ old.enabled)
  expires_at_by_flag : (is_given vm (bytes "expires-at") ≡ true) ⊎ (new.expires_at ≡ old.expires_at)
  tags_by_flag : (is_given vm (bytes "tags") ≡ true) ⊎ (new.tags ≡ old.tags)
  metadata_by_flag : (is_given vm (bytes "metadata") ≡ true) ⊎ (new.metadata ≡ old.metadata)
  campaign_by_flag :
      ((has_campaign_field vm || vm.is_on (bytes "clear-campaign")) ≡ true)
      ⊎ (new.campaign ≡ old.campaign)

value_by_flag :
    {A : Type 0} (field : Option A) (given : Bool) (old new : A)
    → is_some field ≡ given
    → new ≡ value_or field old
    → (given ≡ true) ⊎ (new ≡ old)
value_by_flag none given old new g e = inr e
value_by_flag (some value) given old new g e = inl (sym g)

tags_by_flag :
    (field : Option (List Bytes)) (given : Bool) (old new : List Bytes)
    → is_some field ≡ given
    → TagsPatched field old new
    → (given ≡ true) ⊎ (new ≡ old)
tags_by_flag none given old new g e = inr e
tags_by_flag (some tags) given old new g e = inl (sym g)

-- When the flags of `link update` make a command, and the patch of a link with that command is
-- accepted, the new link has the identity, slug, target, time of creation and of deletion,
-- redirect type and statistics of the old one, and each other field but the time of the update is
-- the old one unless its own flag was given.
pub update_command-ChangesOnlyGiven :
    (now : ℤ) (vm : Variables) (c : UpdateLinkCommand) (old new : Link)
    → update_command vm ≡ parsed c
    → patch_link now c old ≡ ok new
    → ChangesOnlyGiven vm old new
update_command-ChangesOnlyGiven now vm c old new made accepted =
    let flags = update_command-FromFlags vm c made in
    let patched = patch_link-IsPatched now c old new accepted in
    record {
      id_kept = patched.id;
      slug_kept = patched.slug;
      target_url_kept = patched.target_url;
      created_at_kept = patched.created_at;
      deleted_at_kept = patched.deleted_at;
      redirect_type_kept = patched.redirect_type;
      stats_kept = patched.stats;
      enabled_by_flag = value_by_flag c.enabled _ _ _ flags.enabled_given patched.enabled;
      expires_at_by_flag =
          value_by_flag c.expires_at _ _ _ flags.expires_at_given patched.expires_at;
      tags_by_flag = tags_by_flag c.tags _ _ _ flags.tags_given patched.tags;
      metadata_by_flag = value_by_flag c.metadata _ _ _ flags.metadata_given patched.metadata;
      campaign_by_flag = value_by_flag c.campaign _ _ _ flags.campaign_given patched.campaign;
    }
