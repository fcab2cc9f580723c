-- ===== src/Cli/Server/Ports/Whole.antt =====
-- The ports of the configuration that `CliParser::parse` of src/cli_parser.cpp leaves, by way of the
-- environment, the options of the server and the `link` commands.
use url_shortener.Prelude.{
  ◌≡◌, true, false, Option, none, some, List, [], ◌∷◌, arith, Bytes, bytes, ◌=ᵇ◌,
}
use url_shortener.Core.Config.{ServerConfig, default_config}
use url_shortener.Cli.Options.{Parsed, parsed, ◌>>=◌, Variables, OptionsParser}
use url_shortener.Cli.Options.Returns.{
  Returns, Returns-parsed, Returns-rejected, Returns-bind, Returns-any, Returns-if,
}
use url_shortener.Cli.Create.{
  override_config, create_command, parse_create_args, required_url, create_description,
  optional_flag, nonempty_value, redirect_type_value, add_entries,
}
use url_shortener.Cli.Update.{parse_update_args}
use url_shortener.Cli.LinkArgs.{
  parse_bool_flag, parse_get_args, parse_delete_args, parse_set_enabled_args, parse_restore_args,
  parse_preview_args, parse_stats_args,
}
use url_shortener.Cli.HelpTexts.{
  LinkCliVerb, stats, create, get, update, del, enable, disable, restore, preview,
}
use url_shortener.Cli.Verbs.{
  LinkCliCommand, getting, updating, deleting, enabling, disabling, restoring, previewing,
  reporting, with_config, link_help, link_help_requested, parse_verb_args, parse_link_command,
  parse_link_verb,
}
use url_shortener.Cli.Server.{
  server_config, server_description, ParseResult, parse_server, parse_link, parse_args, parse,
}
use url_shortener.Cli.Server.Environment.{
  load_environment, env_expiry, env_slug_length, env_allow_private,
}
use url_shortener.Cli.Server.Ports.{HasPorts, Returns-server_config}

KeepsPorts : {A : Type 0} → A × ServerConfig → Type 0
KeepsPorts r = HasPorts r.1

AnswersPorts : ParseResult → Type 0
AnswersPorts r = HasPorts r.config

Returns-create_command :
    (config : ServerConfig) (vm : Variables)
    → HasPorts config
    → Returns KeepsPorts (create_command config vm)
unfolding create_command override_config KeepsPorts
Returns-create_command config vm h =
    Returns-bind (λ _. Unit) KeepsPorts (required_url (vm.value (bytes "url"))) _ (Returns-any _)
      (λ x1 _.
        Returns-bind (λ _. Unit) KeepsPorts
          (optional_flag (nonempty_value (bytes "--slug")) (vm.value (bytes "slug"))) _
          (Returns-any _)
          (λ x2 _.
            Returns-bind (λ _. Unit) KeepsPorts
              (optional_flag redirect_type_value (vm.value (bytes "redirect-type"))) _
              (Returns-any _)
              (λ x3 _.
                Returns-bind (λ _. Unit) KeepsPorts
                  (optional_flag (nonempty_value (bytes "--expires-at"))
                    (vm.value (bytes "expires-at")))
                  _ (Returns-any _)
                  (λ x4 _.
                    Returns-bind (λ _. Unit) KeepsPorts
                      (optional_flag (parse_bool_flag (bytes "--enabled"))
                        (vm.value (bytes "enabled")))
                      _ (Returns-any _)
                      (λ x5 _.
                        Returns-bind (λ _. Unit) KeepsPorts
                          (add_entries (vm.values (bytes "metadata")) []) _ (Returns-any _)
                          (λ x6 _.
                            Returns-bind (λ _. Unit) KeepsPorts
                              (optional_flag (nonempty_value (bytes "--base-domain"))
                                (vm.value (bytes "base-domain")))
                              _ (Returns-any _) (λ x7 _. Returns-parsed KeepsPorts _ h)))))))

Returns-with_config :
    {A : Type 0} (config : ServerConfig) (r : Parsed A) (make : A → LinkCliCommand)
    → HasPorts config
    → Returns KeepsPorts (r >>= (λ (x : A). with_config config (make x)))
unfolding with_config KeepsPorts
Returns-with_config config r make h =
    Returns-bind (λ _. Unit) KeepsPorts r _ (Returns-any r) (λ x _. Returns-parsed KeepsPorts _ h)

Returns-parse_verb_args :
    (run : OptionsParser) (verb : LinkCliVerb) (args : List Bytes) (config : ServerConfig)
    → HasPorts config
    → Returns KeepsPorts (parse_verb_args run verb args config)
unfolding parse_verb_args parse_create_args KeepsPorts
Returns-parse_verb_args run create args config h =
    Returns-bind KeepsPorts KeepsPorts (run create_description args >>= create_command config) _
      (Returns-bind (λ _. Unit) KeepsPorts (run create_description args) _ (Returns-any _)
        (λ vm _. Returns-create_command config vm h))
      (λ r kept. Returns-parsed KeepsPorts _ kept)
Returns-parse_verb_args run get args config h =
    Returns-with_config config (parse_get_args run args) getting h
Returns-parse_verb_args run update args config h =
    Returns-with_config config (parse_update_args run args) updating h
Returns-parse_verb_args run del args config h =
    Returns-with_config config (parse_delete_args run args) deleting h
Returns-parse_verb_args run enable args config h =
    Returns-with_config config (parse_set_enabled_args run args true) enabling h
Returns-parse_verb_args run disable args config h =
    Returns-with_config config (parse_set_enabled_args run args false) disabling h
Returns-parse_verb_args run restore args config h =
    Returns-with_config config (parse_restore_args run args) restoring h
Returns-parse_verb_args run preview args config h =
    Returns-with_config config (parse_preview_args run args) previewing h
Returns-parse_verb_args run stats args config h =
    Returns-with_config config (parse_stats_args run args) reporting h

Returns-parse_link_command :
    (run : OptionsParser) (args : List Bytes) (config : ServerConfig)
    → HasPorts config
    → Returns KeepsPorts (parse_link_command run args config)
unfolding parse_link_command KeepsPorts
Returns-parse_link_command run [] config h = Returns-rejected KeepsPorts _
Returns-parse_link_command run (token ∷ args) config h =
    Returns-bind (λ _. Unit) KeepsPorts (parse_link_verb token) _ (Returns-any _)
      (λ verb _. Returns-parse_verb_args run verb args config h)

Returns-parse_server :
    (run : OptionsParser) (visible : Bytes) (args : List Bytes) (config : ServerConfig)
    → HasPorts config
    → Returns AnswersPorts (parse_server run visible args config)
unfolding parse_server AnswersPorts
Returns-parse_server run visible args config h =
    Returns-bind (λ _. Unit) AnswersPorts (run server_description args) _ (Returns-any _)
      (λ vm _.
        Returns-if AnswersPorts (vm.is_on (bytes "help")) _ _ (Returns-parsed AnswersPorts _ h) (
          Returns-bind HasPorts AnswersPorts (server_config config vm) _
            (Returns-server_config config vm h)
            (λ served good. Returns-parsed AnswersPorts _ good)))

Returns-parse_link :
    (run : OptionsParser) (args : List Bytes) (config : ServerConfig)
    → HasPorts config
    → Returns AnswersPorts (parse_link run args config)
unfolding parse_link AnswersPorts KeepsPorts
Returns-parse_link run args config h =
    Returns-if AnswersPorts (link_help_requested args) _ _
      (Returns-bind (λ _. Unit) AnswersPorts (link_help args) _ (Returns-any _)
        (λ text _. Returns-parsed AnswersPorts _ h))
      (Returns-bind KeepsPorts AnswersPorts (parse_link_command run args config) _
        (Returns-parse_link_command run args config h)
        (λ r kept. Returns-parsed AnswersPorts _ kept))

Returns-parse_args :
    (run : OptionsParser) (visible : Bytes) (args : List Bytes) (config : ServerConfig)
    → HasPorts config
    → Returns AnswersPorts (parse_args run visible args config)
unfolding parse_args
Returns-parse_args run visible [] config h = Returns-parse_server run visible [] config h
Returns-parse_args run visible (first ∷ rest) config h =
    Returns-if AnswersPorts (first =ᵇ bytes "link") _ _ (Returns-parse_link run rest config h)
      (Returns-parse_server run visible (first ∷ rest) config h)

Returns-setting :
    {A : Type 0} (o : Option Bytes) (config : ServerConfig) (read : Bytes → Parsed A)
    (put : A → ServerConfig)
    → HasPorts config
    → ((a : A) → HasPorts (put a))
    → Returns HasPorts (elim o as (λ _. Parsed ServerConfig) [
      | none ↦ parsed config
      | some value ↦ read value >>= (λ (a : A). parsed (put a))
    ])
Returns-setting none config read put h k = Returns-parsed HasPorts config h
Returns-setting {A = A} (some value) config read put h k =
    Returns-bind (λ _. Unit) HasPorts (read value) _ (Returns-any _)
      (λ (a : A) _. Returns-parsed HasPorts (put a) (k a))

Returns-load_environment :
    (getenv : Bytes → Option Bytes) (config : ServerConfig)
    → HasPorts config
    → Returns HasPorts (load_environment getenv config)
unfolding load_environment env_expiry env_slug_length env_allow_private
Returns-load_environment getenv config h =
    Returns-bind HasPorts HasPorts (env_expiry getenv _) _
      (Returns-setting (getenv (bytes "SHORTENER_DEFAULT_EXPIRY_SECONDS")) _ _ _ h (λ n. h))
      (λ c1 h1.
        Returns-bind HasPorts HasPorts (env_slug_length getenv c1) _
          (Returns-setting (getenv (bytes "SHORTENER_GENERATED_SLUG_LENGTH")) _ _ _ h1 (λ n. h1))
          (λ c2 h2.
            Returns-setting (getenv (bytes "SHORTENER_ALLOW_PRIVATE_TARGETS")) _ _ _ h2 (λ b. h2)))

-- Whatever the environment, the arguments and the way they are read, a configuration that the
-- command line leaves has an HTTP port and a TLS port between 1 and 65535.
pub parse-HasPorts :
    (run : OptionsParser) (visible : Bytes) (getenv : Bytes → Option Bytes) (args : List Bytes)
    (r : ParseResult)
    → parse run visible getenv args ≡ parsed r
    → HasPorts r.config
unfolding parse Returns AnswersPorts
parse-HasPorts run visible getenv args r e =
    Returns-bind HasPorts AnswersPorts (load_environment getenv default_config) _
      (Returns-load_environment getenv default_config
        ((omega arith, omega arith), (omega arith, omega arith)))
      (λ config h. Returns-parse_args run visible args config h) r e
