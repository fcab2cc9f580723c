-- ===== src/Cli/Server/Ports.antt =====
-- The ports of a configuration that the options of the server set (`parsePort` and the reading of the
-- options in `CliParser::parse` of src/cli_parser.cpp).
pub mod Whole
use url_shortener.Prelude.{ℕ, ◌≤◌, Option, none, some, arith, bytes}
use url_shortener.Core.Config.{ServerConfig, TlsConfig}
use url_shortener.Cli.Options.{Variables}
use url_shortener.Cli.Options.Returns.{Returns, Returns-parsed, Returns-bind, Returns-any}
use url_shortener.Cli.Server.{parse_port, port_flag, bool_flag, or_else, server_tls, server_config}

abbrev pub IsPort : ℕ → Type 0
IsPort n = (1 ≤ n) × (n ≤ 65535)

-- Both ports are numbers that TCP has, but for 0.
abbrev pub HasPorts : ServerConfig → Type 0
HasPorts config = IsPort config.http_port × IsPort config.tls.port

Returns-parse_port : (n : ℕ) → Returns IsPort (parse_port n)
unfolding Returns parse_port
Returns-parse_port n x e = ground arith

Returns-port_flag : (o : Option ℕ) (n : ℕ) → IsPort n → Returns IsPort (port_flag o n)
unfolding port_flag
Returns-port_flag none n h = Returns-parsed IsPort n h
Returns-port_flag (some v) n h = Returns-parse_port v

abbrev IsTlsPort : TlsConfig → Type 0
IsTlsPort tls = IsPort tls.port

Returns-server_tls :
    (vm : Variables) (tls : TlsConfig) → IsTlsPort tls → Returns IsTlsPort (server_tls vm tls)
unfolding server_tls
Returns-server_tls vm tls h =
    Returns-bind (λ _. Unit) IsTlsPort (bool_flag (vm.value (bytes "tls-enabled")) tls.enabled) _
      (Returns-any _)
      (λ b1 _.
        Returns-bind IsPort IsTlsPort (port_flag (vm.number_of (bytes "https-port")) tls.port) _
          (Returns-port_flag (vm.number_of (bytes "https-port")) tls.port h)
          (λ port good.
            Returns-bind (λ _. Unit) IsTlsPort
              (bool_flag (vm.value (bytes "tls-session-tickets")) tls.session_tickets) _
              (Returns-any _)
              (λ b2 _.
                Returns-bind (λ _. Unit) IsTlsPort
                  (bool_flag (vm.value (bytes "tls-session-cache")) tls.session_cache) _
                  (Returns-any _) (λ b3 _. Returns-parsed IsTlsPort _ good))))

pub Returns-server_config :
    (config : ServerConfig) (vm : Variables)
    → HasPorts config
    → Returns HasPorts (server_config config vm)
unfolding server_config
Returns-server_config config vm h =
    Returns-bind IsPort HasPorts
      (port_flag
        (or_else (vm.number_of (bytes "positional-port")) (vm.number_of (bytes "http-port")))
        config.http_port)
      _
      (Returns-port_flag
        (or_else (vm.number_of (bytes "positional-port")) (vm.number_of (bytes "http-port")))
        config.http_port h.0)
      (λ http_port good.
        Returns-bind (λ _. Unit) HasPorts
          (bool_flag (vm.value (bytes "http-enabled")) config.http_enabled) _ (Returns-any _)
          (λ b1 _.
            Returns-bind (λ _. Unit) HasPorts
              (bool_flag (vm.value (bytes "http-redirect-to-https")) config.http_redirect_to_https)
              _ (Returns-any _)
              (λ b2 _.
                Returns-bind IsTlsPort HasPorts (server_tls vm config.tls) _
                  (Returns-server_tls vm config.tls h.1)
                  (λ tls fine.
                    Returns-bind (λ _. Unit) HasPorts
                      (bool_flag (vm.value (bytes "shortener-allow-private-targets"))
                        config.shortener_allow_private_targets)
                      _ (Returns-any _)
                      (λ b3 _.
                        Returns-bind (λ _. Unit) HasPorts
                          (bool_flag (vm.value (bytes "analytics-enabled"))
                            config.analytics_enabled)
                          _ (Returns-any _) (λ b4 _. Returns-parsed HasPorts _ (good, fine)))))))
