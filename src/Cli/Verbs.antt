-- ===== src/Cli/Verbs.antt =====
-- src/cli_parser.cpp: the verbs of `link`, its help, and `parseLinkCommand`.
pub mod Words
use url_shortener.Prelude.{
  Bool, true, false, ◌||◌, List, [], ◌∷◌, ◌++◌, if◌then◌else◌, is_empty, Bytes, bytes, ◌=ᵇ◌,
}
use url_shortener.Core.Config.{ServerConfig}
use url_shortener.App.Types.{
  CreateLinkCommand, GetLinkQuery, UpdateLinkCommand, DeleteLinkCommand, SetLinkEnabledCommand,
  RestoreLinkCommand, GetLinkStatsQuery,
}
use url_shortener.Cli.Options.{Parsed, parsed, rejected, ◌>>=◌, OptionsParser}
use url_shortener.Cli.LinkArgs.{
  parse_get_args, parse_preview_args, parse_delete_args, parse_set_enabled_args, parse_restore_args,
  parse_stats_args,
}
use url_shortener.Cli.Create.{parse_create_args}
use url_shortener.Cli.Update.{parse_update_args}
use url_shortener.Cli.HelpTexts.{
  LinkCliVerb, create, get, update, del, enable, disable, restore, preview, stats,
  build_link_help_text, build_link_verb_help_text,
}

unfoldable pub parse_link_verb : Bytes → Parsed LinkCliVerb
parse_link_verb token =
    if token =ᵇ bytes "create"
    then parsed create
    else if token =ᵇ bytes "get"
    then parsed get
    else if token =ᵇ bytes "update"
    then parsed update
    else if token =ᵇ bytes "delete"
    then parsed del
    else if token =ᵇ bytes "enable"
    then parsed enable
    else if token =ᵇ bytes "disable"
    then parsed disable
    else if token =ᵇ bytes "restore"
    then parsed restore
    else if token =ᵇ bytes "preview"
    then parsed preview
    else if token =ᵇ bytes "stats"
    then parsed stats
    else rejected (
        bytes "Unknown link command: '"
        ++ (token
            ++ bytes
                "'. Valid commands: create, get, update, delete, enable, disable, restore, preview, stats."))

unfoldable pub is_help : Bytes → Bool
is_help token = (token =ᵇ bytes "--help") || (token =ᵇ bytes "-h")

unfoldable pub link_help_requested : List Bytes → Bool
unfolding is_help
link_help_requested [] = false
link_help_requested (token ∷ tokens) = is_help token || link_help_requested tokens

-- `LinkCliCommand`: the verb and its payload.
pub data LinkCliCommand : Type 0 where
  creating : CreateLinkCommand → LinkCliCommand
  getting previewing : GetLinkQuery → LinkCliCommand
  updating : UpdateLinkCommand → LinkCliCommand
  deleting : DeleteLinkCommand → LinkCliCommand
  enabling disabling : SetLinkEnabledCommand → LinkCliCommand
  restoring : RestoreLinkCommand → LinkCliCommand
  reporting : GetLinkStatsQuery → LinkCliCommand

unfoldable pub verb_of : LinkCliCommand → LinkCliVerb
verb_of (creating c) = create
verb_of (getting q) = get
verb_of (previewing q) = preview
verb_of (updating c) = update
verb_of (deleting c) = del
verb_of (enabling c) = enable
verb_of (disabling c) = disable
verb_of (restoring c) = restore
verb_of (reporting q) = stats

unfoldable pub with_config : ServerConfig → LinkCliCommand → Parsed (LinkCliCommand × ServerConfig)
with_config config command = parsed (command, config)

module _ (run : OptionsParser) where
  -- The switch on the verb; only `create` changes the configuration.
  unfoldable pub parse_verb_args :
      LinkCliVerb → List Bytes → ServerConfig → Parsed (LinkCliCommand × ServerConfig)
  unfolding with_config
  parse_verb_args create args config =
      parse_create_args run args config
      >>= (λ (r : CreateLinkCommand × ServerConfig). parsed (creating r.0, r.1))
  parse_verb_args get args config =
      parse_get_args run args >>= (λ (q : GetLinkQuery). with_config config (getting q))
  parse_verb_args update args config =
      parse_update_args run args >>= (λ (c : UpdateLinkCommand). with_config config (updating c))
  parse_verb_args del args config =
      parse_delete_args run args >>= (λ (c : DeleteLinkCommand). with_config config (deleting c))
  parse_verb_args enable args config =
      parse_set_enabled_args run args true
      >>= (λ (c : SetLinkEnabledCommand). with_config config (enabling c))
  parse_verb_args disable args config =
      parse_set_enabled_args run args false
      >>= (λ (c : SetLinkEnabledCommand). with_config config (disabling c))
  parse_verb_args restore args config =
      parse_restore_args run args >>= (λ (c : RestoreLinkCommand). with_config config (restoring c))
  parse_verb_args preview args config =
      parse_preview_args run args >>= (λ (q : GetLinkQuery). with_config config (previewing q))
  parse_verb_args stats args config =
      parse_stats_args run args >>= (λ (q : GetLinkStatsQuery). with_config config (reporting q))

  -- The tokens behind `link`.
  unfoldable pub parse_link_command :
      List Bytes → ServerConfig → Parsed (LinkCliCommand × ServerConfig)
  unfolding parse_verb_args
  parse_link_command [] config =
      rejected (bytes "Missing link subcommand. Expected: link <verb> [options].")
  parse_link_command (token ∷ args) config =
      parse_link_verb token >>= (λ (verb : LinkCliVerb). parse_verb_args verb args config)

-- The help text of `link --help` and `link <verb> --help`.
unfoldable pub link_help : List Bytes → Parsed Bytes
unfolding is_help parse_link_verb
link_help [] = parsed build_link_help_text
link_help (first ∷ rest) =
    if is_empty first || is_help first
    then parsed build_link_help_text
    else (parse_link_verb first
        >>= (λ (verb : LinkCliVerb). parsed (build_link_verb_help_text verb)))
