-- ===== src/Core/Config.antt =====
-- include/url_shortener/core/config.hpp: the configuration of the server.
use url_shortener.Prelude.{ℕ, Bool, true, false, Option, none, Bytes, bytes}

-- `TlsConfig::ClientAuthMode`; `off` is its `none`.
pub data ClientAuthMode : Type 0 where
  off optional required : ClientAuthMode

pub record TlsConfig : Type 0 where
  pub enabled : Bool
  pub port : ℕ
  pub certificate_chain_file : Bytes
  pub private_key_file : Bytes
  pub private_key_passphrase : Option Bytes
  pub ca_file : Option Bytes
  pub ca_path : Option Bytes
  pub min_version : Bytes
  pub cipher_suites : Bytes
  pub ciphers : Bytes
  pub curves : Bytes
  pub alpn : Bytes
  pub session_tickets : Bool
  pub session_cache : Bool
  pub ocsp_stapling : Bool
  pub client_auth_mode : ClientAuthMode

pub record ServerConfig : Type 0 where
  pub http_port : ℕ
  pub http_enabled : Bool
  pub http_redirect_to_https : Bool
  pub hsts_max_age : Option ℕ
  pub fail_fast_on_invalid_tls_config : Bool
  pub tls : TlsConfig
  pub shortener_base_domain : Bytes
  pub shortener_default_redirect_type : Bytes
  pub shortener_default_expiry_seconds : Option ℕ
  pub shortener_generated_slug_length : ℕ
  pub shortener_allow_private_targets : Bool
  pub analytics_enabled : Bool
  pub analytics_queue_capacity : ℕ
  pub analytics_client_hash_salt : Bytes
  pub request_id_max_length : ℕ
  pub max_request_body_bytes : ℕ
  pub max_request_target_length : ℕ

-- The values that the declarations give.
abbrev pub default_tls : TlsConfig
default_tls = record {
  enabled = false;
  port = 443;
  certificate_chain_file = bytes "";
  private_key_file = bytes "";
  private_key_passphrase = none;
  ca_file = none;
  ca_path = none;
  min_version = bytes "TLS1.2";
  cipher_suites =
      bytes "TLS_AES_256_GCM_SHA384:TLS_AES_128_GCM_SHA256:TLS_CHACHA20_POLY1305_SHA256";
  ciphers =
      bytes
        "ECDHE-ECDSA-AES256-GCM-SHA384:ECDHE-RSA-AES256-GCM-SHA384:ECDHE-ECDSA-CHACHA20-POLY1305:ECDHE-RSA-CHACHA20-POLY1305:ECDHE-ECDSA-AES128-GCM-SHA256:ECDHE-RSA-AES128-GCM-SHA256";
  curves = bytes "X25519:P-256";
  alpn = bytes "http/1.1";
  session_tickets = false;
  session_cache = true;
  ocsp_stapling = false;
  client_auth_mode = off;
}

abbrev pub default_config : ServerConfig
default_config = record {
  http_port = 8000;
  http_enabled = true;
  http_redirect_to_https = false;
  hsts_max_age = none;
  fail_fast_on_invalid_tls_config = true;
  tls = default_tls;
  shortener_base_domain = bytes "http://localhost:8000";
  shortener_default_redirect_type = bytes "temporary";
  shortener_default_expiry_seconds = none;
  shortener_generated_slug_length = 7;
  shortener_allow_private_targets = false;
  analytics_enabled = true;
  analytics_queue_capacity = 1024;
  analytics_client_hash_salt = bytes "dev-analytics-salt";
  request_id_max_length = 64;
  max_request_body_bytes = 65536;
  max_request_target_length = 2048;
}
