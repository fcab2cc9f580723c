-- ===== src/Cli/Update.antt =====
-- src/cli/link_command_args.cpp: `parseUpdateArgs`.
pub mod Fields
pub mod Patched
use url_shortener.Prelude.{
  ◌&&◌, Option, none, some, List, [], ◌∷◌, ◌++◌, if◌then◌else◌, Bytes, bytes, ◌=ᵇ◌,
}
use url_shortener.Core.Link.{Campaign}
use url_shortener.App.Types.{UpdateLinkCommand}
use url_shortener.Cli.Options.{
  Parsed, parsed, rejected, ◌>>=◌, Description, Variables, OptionsParser, switch, single_values,
}
use url_shortener.Cli.LinkArgs.{
  parse_bool_flag, split_comma_list, parse_metadata_list, has_campaign_field, campaign_of,
  campaign_names, require_slug,
}
use url_shortener.Cli.Create.{optional_flag, nonempty_value}

abbrev pub update_description : Description
update_description =
    single_values (
      bytes "slug"
      ∷ bytes "enabled"
      ∷ bytes "expires-at"
      ∷ bytes "tags"
      ∷ bytes "metadata"
      ∷ campaign_names)
    ++ (bytes "clear-campaign", switch) ∷ []

-- `clear` is an explicit null.
unfoldable pub expires_at_value : Bytes → Parsed (Option Bytes)
expires_at_value value =
    if value =ᵇ bytes "clear"
    then parsed none
    else nonempty_value (bytes "--expires-at") value >>= (λ (v : Bytes). parsed (some v))

unfoldable pub campaign_change : Variables → Parsed (Option (Option Campaign))
campaign_change vm =
    if has_campaign_field vm && vm.is_on (bytes "clear-campaign")
    then rejected
        (bytes "link update accepts only one of the --campaign-* flags or --clear-campaign.")
    else if has_campaign_field vm
    then parsed (some (some (campaign_of vm)))
    else if vm.is_on (bytes "clear-campaign")
    then parsed (some none)
    else parsed none

unfoldable pub update_command : Variables → Parsed UpdateLinkCommand
unfolding expires_at_value campaign_change
update_command vm = do
  slug ← require_slug (bytes "link update") vm
  enabled ← optional_flag (parse_bool_flag (bytes "--enabled")) (vm.value (bytes "enabled"))
  expires_at ← optional_flag expires_at_value (vm.value (bytes "expires-at"))
  metadata ← optional_flag parse_metadata_list (vm.value (bytes "metadata"))
  campaign ← campaign_change vm
  parsed (record {
    slug = slug;
    enabled = enabled;
    expires_at = expires_at;
    tags = elim (vm.value (bytes "tags")) [
      | none ↦ none
      | some tags ↦ some (split_comma_list tags)
    ];
    metadata = metadata;
    campaign = campaign;
  })

unfoldable pub parse_update_args : OptionsParser → List Bytes → Parsed UpdateLinkCommand
unfolding update_command
parse_update_args run args = run update_description args >>= update_command
