-- ===== src/Cli/Server.antt =====
-- src/cli_parser.cpp: `CliParser::parse`, from the environment and the arguments to the
-- configuration of the server or to a `link` command.
pub mod Environment
pub mod Ports
use url_shortener.Prelude.{
  ℕ, Bool, ◌||◌, Option, none, some, List, [], ◌∷◌, ◌++◌, ltb, ◌==◌, if◌then◌else◌, value_or,
  is_empty, Bytes, bytes, ◌=ᵇ◌,
}
use url_shortener.Core.Text.{to_decimal}
use url_shortener.Core.Config.{
  ClientAuthMode, off, optional, required, TlsConfig, ServerConfig, default_config,
}
use url_shortener.Cli.Options.{
  Parsed, parsed, rejected, ◌>>=◌, Description, Variables, OptionsParser, Kind, single, number,
  switch, single_values, is_given, text_of,
}
use url_shortener.Cli.LinkArgs.{is_one_of, true_words, false_words}
use url_shortener.Cli.Verbs.{LinkCliCommand, parse_link_command, link_help_requested, link_help}
use url_shortener.Cli.Server.Environment.{parse_bool, load_environment}

unfoldable pub parse_port : ℕ → Parsed ℕ
parse_port value =
    if value == 0 || ltb 65535 value
    then rejected
        (bytes "Port number " ++ (to_decimal value ++ bytes " is out of valid range [1, 65535]."))
    else parsed value

unfoldable pub parse_client_auth_mode : Bytes → ClientAuthMode
parse_client_auth_mode value =
    if value =ᵇ bytes "optional"
    then optional
    else if value =ᵇ bytes "required"
    then required
    else off

abbrev pub numbers : List Bytes → Description
numbers [] = []
numbers (n ∷ ns) = (n, number) ∷ numbers ns

abbrev pub server_description : Description
server_description =
    (bytes "help", switch)
    ∷ (numbers (
          bytes "http-port"
          ∷ bytes "hsts-max-age"
          ∷ bytes "https-port"
          ∷ bytes "shortener-default-expiry-seconds"
          ∷ bytes "shortener-generated-slug-length"
          ∷ bytes "analytics-queue-capacity"
          ∷ bytes "request-id-max-length"
          ∷ bytes "max-request-body-bytes"
          ∷ bytes "max-request-target-length"
          ∷ bytes "positional-port"
          ∷ [])
        ++ single_values (
            bytes "http-enabled"
            ∷ bytes "http-redirect-to-https"
            ∷ bytes "tls-enabled"
            ∷ bytes "tls-cert"
            ∷ bytes "tls-key"
            ∷ bytes "tls-key-passphrase"
            ∷ bytes "tls-ca-file"
            ∷ bytes "tls-ca-path"
            ∷ bytes "tls-min-version"
            ∷ bytes "tls-cipher-suites"
            ∷ bytes "tls-ciphers"
            ∷ bytes "tls-curves"
            ∷ bytes "tls-alpn"
            ∷ bytes "tls-session-tickets"
            ∷ bytes "tls-session-cache"
            ∷ bytes "tls-client-auth"
            ∷ bytes "shortener-base-domain"
            ∷ bytes "shortener-default-redirect-type"
            ∷ bytes "shortener-allow-private-targets"
            ∷ bytes "analytics-enabled"
            ∷ bytes "analytics-client-hash-salt"
            ∷ []))

-- A Boolean flag; an empty value counts as none.
unfoldable pub bool_flag : Option Bytes → Bool → Parsed Bool
unfolding parse_bool
bool_flag none current = parsed current
bool_flag (some value) current = if is_empty value then parsed current else parse_bool value

-- A port that the options gave, or the one there is.
unfoldable pub port_flag : Option ℕ → ℕ → Parsed ℕ
unfolding parse_port
port_flag none current = parsed current
port_flag (some value) current = parse_port value

abbrev pub or_else {ℓ} : {A : Type ℓ} → Option A → Option A → Option A
or_else none o = o
or_else (some a) o = some a

unfoldable pub client_auth_flag : Option Bytes → ClientAuthMode → ClientAuthMode
unfolding parse_client_auth_mode
client_auth_flag none current = current
client_auth_flag (some value) current =
    if is_empty value then current else parse_client_auth_mode value

unfoldable pub server_tls : Variables → TlsConfig → Parsed TlsConfig
unfolding bool_flag port_flag client_auth_flag
server_tls vm tls = do
  enabled ← bool_flag (vm.value (bytes "tls-enabled")) tls.enabled
  port ← port_flag (vm.number_of (bytes "https-port")) tls.port
  tickets ← bool_flag (vm.value (bytes "tls-session-tickets")) tls.session_tickets
  cache ← bool_flag (vm.value (bytes "tls-session-cache")) tls.session_cache
  parsed (record tls {
    enabled = enabled;
    port = port;
    certificate_chain_file = value_or (vm.value (bytes "tls-cert")) tls.certificate_chain_file;
    private_key_file = value_or (vm.value (bytes "tls-key")) tls.private_key_file;
    private_key_passphrase =
        or_else (vm.value (bytes "tls-key-passphrase")) tls.private_key_passphrase;
    ca_file = or_else (vm.value (bytes "tls-ca-file")) tls.ca_file;
    ca_path = or_else (vm.value (bytes "tls-ca-path")) tls.ca_path;
    min_version = value_or (vm.value (bytes "tls-min-version")) tls.min_version;
    cipher_suites = value_or (vm.value (bytes "tls-cipher-suites")) tls.cipher_suites;
    ciphers = value_or (vm.value (bytes "tls-ciphers")) tls.ciphers;
    curves = value_or (vm.value (bytes "tls-curves")) tls.curves;
    alpn = value_or (vm.value (bytes "tls-alpn")) tls.alpn;
    session_tickets = tickets;
    session_cache = cache;
    client_auth_mode = client_auth_flag (vm.value (bytes "tls-client-auth")) tls.client_auth_mode;
  })

-- `http-port` and the positional port share a variable, which `notify` sets in the order of the
-- names.
unfoldable pub server_config : ServerConfig → Variables → Parsed ServerConfig
unfolding bool_flag port_flag server_tls
server_config config vm = do
  http_port ←
      port_flag
        (or_else (vm.number_of (bytes "positional-port")) (vm.number_of (bytes "http-port")))
        config.http_port
  http_enabled ← bool_flag (vm.value (bytes "http-enabled")) config.http_enabled
  redirect ← bool_flag (vm.value (bytes "http-redirect-to-https")) config.http_redirect_to_https
  tls ← server_tls vm config.tls
  allow_private ←
      bool_flag (vm.value (bytes "shortener-allow-private-targets"))
        config.shortener_allow_private_targets
  analytics ← bool_flag (vm.value (bytes "analytics-enabled")) config.analytics_enabled
  parsed (record config {
    http_port = http_port;
    http_enabled = http_enabled;
    http_redirect_to_https = redirect;
    hsts_max_age = or_else (vm.number_of (bytes "hsts-max-age")) config.hsts_max_age;
    tls = tls;
    shortener_base_domain =
        value_or (vm.value (bytes "shortener-base-domain")) config.shortener_base_domain;
    shortener_default_redirect_type =
        value_or (vm.value (bytes "shortener-default-redirect-type"))
          config.shortener_default_redirect_type;
    shortener_default_expiry_seconds =
        or_else (vm.number_of (bytes "shortener-default-expiry-seconds"))
          config.shortener_default_expiry_seconds;
    shortener_generated_slug_length =
        value_or (vm.number_of (bytes "shortener-generated-slug-length"))
          config.shortener_generated_slug_length;
    shortener_allow_private_targets = allow_private;
    analytics_enabled = analytics;
    analytics_queue_capacity =
        value_or (vm.number_of (bytes "analytics-queue-capacity")) config.analytics_queue_capacity;
    analytics_client_hash_salt =
        value_or (vm.value (bytes "analytics-client-hash-salt")) config.analytics_client_hash_salt;
    request_id_max_length =
        value_or (vm.number_of (bytes "request-id-max-length")) config.request_id_max_length;
    max_request_body_bytes =
        value_or (vm.number_of (bytes "max-request-body-bytes")) config.max_request_body_bytes;
    max_request_target_length =
        value_or (vm.number_of (bytes "max-request-target-length"))
          config.max_request_target_length;
  })

-- `ParseResult`: the help text, if help was asked for, and the `link` command, if there is one.
pub record ParseResult : Type 0 where
  pub config : ServerConfig
  pub help_text : Option Bytes
  pub command : Option LinkCliCommand

-- `visible` is the text of the option groups.
unfoldable pub parse_server : OptionsParser → Bytes → List Bytes → ServerConfig → Parsed ParseResult
unfolding server_config
parse_server run visible args config = do
  vm ← run server_description args
  if vm.is_on (bytes "help")
      then parsed (record {
        config = config;
        help_text = some (bytes "Usage: simple-http [OPTIONS] [PORT]" ++ 10 ∷ 10 ∷ visible);
        command = none;
      })
      else do
        served ← server_config config vm
        parsed (record { config = served; help_text = none; command = none })

unfoldable pub parse_link : OptionsParser → List Bytes → ServerConfig → Parsed ParseResult
unfolding link_help_requested link_help parse_link_command
parse_link run args config =
    if link_help_requested args
    then (link_help args >>= (λ (text : Bytes).
        parsed (record { config = config; help_text = some text; command = none })))
    else (parse_link_command run args config >>= (λ (r : LinkCliCommand × ServerConfig).
        parsed (record { config = r.1; help_text = none; command = some r.0 })))

-- The arguments behind the name of the program.
unfoldable pub parse_args : OptionsParser → Bytes → List Bytes → ServerConfig → Parsed ParseResult
unfolding parse_server parse_link
parse_args run visible [] config = parse_server run visible [] config
parse_args run visible (first ∷ rest) config =
    if first =ᵇ bytes "link"
    then parse_link run rest config
    else parse_server run visible (first ∷ rest) config

unfoldable pub parse :
    OptionsParser → Bytes → (Bytes → Option Bytes) → List Bytes → Parsed ParseResult
unfolding parse_args load_environment
parse run visible getenv args =
    load_environment getenv default_config >>= parse_args run visible args
