-- ===== src/Cli/Create.antt =====
-- src/cli/link_command_args.cpp: `parseCreateArgs`, which also overrides two values of the
-- configuration.
use url_shortener.Prelude.{
  Bool, true, Option, none, some, List, [], ◌∷◌, ◌++◌, if◌then◌else◌, value_or, is_empty, Bytes,
  bytes, Map, insert,
}
use url_shortener.Core.Config.{ServerConfig}
use url_shortener.Core.Link.{RedirectType, parse_redirect_type}
use url_shortener.App.Types.{CreateLinkCommand}
use url_shortener.Cli.Options.{
  Parsed, parsed, rejected, ◌>>=◌, Description, Variables, OptionsParser, composing, switch,
  single_values,
}
use url_shortener.Cli.LinkArgs.{
  parse_bool_flag, require_nonempty, split_equals, has_campaign_field, campaign_of, campaign_names,
}

abbrev pub create_description : Description
create_description =
    single_values (
      bytes "url"
      ∷ bytes "slug"
      ∷ bytes "redirect-type"
      ∷ bytes "expires-at"
      ∷ bytes "enabled"
      ∷ bytes "base-domain"
      ∷ campaign_names)
    ++ ((bytes "tag", composing)
        ∷ (bytes "metadata", composing)
        ∷ (bytes "allow-private-targets", switch)
        ∷ [])

-- A flag that may be absent, with the check of its value.
unfoldable pub optional_flag : {A : Type 0} → (Bytes → Parsed A) → Option Bytes → Parsed (Option A)
optional_flag check none = parsed none
optional_flag check (some value) = check value >>= (λ x. parsed (some x))

unfoldable pub nonempty_value : Bytes → Bytes → Parsed Bytes
unfolding require_nonempty
nonempty_value flag value = require_nonempty flag value >>= (λ (u : Unit). parsed value)

unfoldable pub redirect_type_value : Bytes → Parsed RedirectType
redirect_type_value value = elim (parse_redirect_type value) [
  | none ↦
      rejected
        (bytes "Invalid --redirect-type: '" ++ (value ++ bytes "'. Use temporary or permanent."))
  | some t ↦ parsed t
]

unfoldable pub bad_entry : Bytes → Parsed (Map Bytes)
bad_entry entry = rejected (
    bytes "Invalid --metadata entry: '"
    ++ (entry ++ bytes "'. Expected KEY=VALUE with a non-empty KEY."))

unfoldable pub add_entry : Bytes → Map Bytes → Parsed (Map Bytes)
unfolding bad_entry split_equals
add_entry entry m = elim (split_equals entry) [
  | none ↦ bad_entry entry
  | some (key, value) ↦ if is_empty key then bad_entry entry else parsed (insert key value m)
]

unfoldable pub add_entries : List Bytes → Map Bytes → Parsed (Map Bytes)
unfolding add_entry
add_entries [] m = parsed m
add_entries (entry ∷ entries) m = do added ← add_entry entry m; add_entries entries added

unfoldable pub required_url : Option Bytes → Parsed Bytes
unfolding nonempty_value
required_url none = rejected (bytes "link create requires --url <URL>.")
required_url (some url) = nonempty_value (bytes "--url") url

unfoldable pub override_config : Option Bytes → Bool → ServerConfig → ServerConfig
override_config base_domain allow_private config = record config {
  shortener_base_domain = value_or base_domain config.shortener_base_domain;
  shortener_allow_private_targets =
      if allow_private then true else config.shortener_allow_private_targets;
}

unfoldable pub create_command : ServerConfig → Variables → Parsed (CreateLinkCommand × ServerConfig)
unfolding optional_flag nonempty_value redirect_type_value required_url add_entries override_config
create_command config vm = do
  url ← required_url (vm.value (bytes "url"))
  slug ← optional_flag (nonempty_value (bytes "--slug")) (vm.value (bytes "slug"))
  redirect_type ← optional_flag redirect_type_value (vm.value (bytes "redirect-type"))
  expires_at ← optional_flag (nonempty_value (bytes "--expires-at")) (vm.value (bytes "expires-at"))
  enabled ← optional_flag (parse_bool_flag (bytes "--enabled")) (vm.value (bytes "enabled"))
  metadata ← add_entries (vm.values (bytes "metadata")) []
  base_domain ←
      optional_flag (nonempty_value (bytes "--base-domain")) (vm.value (bytes "base-domain"))
  parsed (
    record {
      target_url = url;
      slug = slug;
      redirect_type = redirect_type;
      expires_at = expires_at;
      enabled = enabled;
      tags = vm.values (bytes "tag");
      metadata = metadata;
      campaign = if has_campaign_field vm then some (campaign_of vm) else none;
    },
    override_config base_domain (vm.is_on (bytes "allow-private-targets")) config,
  )

unfoldable pub parse_create_args :
    OptionsParser → List Bytes → ServerConfig → Parsed (CreateLinkCommand × ServerConfig)
unfolding create_command
parse_create_args run args config = run create_description args >>= create_command config
