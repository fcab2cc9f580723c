-- ===== src/Analytics/Recording.antt =====
-- How a redirect becomes a queued event: src/http/redirect_analytics_hook.cpp,
-- src/analytics/analytics_service.cpp, click_event_builder.cpp, client_id_hasher.cpp, and the
-- configuration that they read (analytics_config.cpp). `hmac` stands for OpenSSL's HMAC-SHA256 of an
-- identifier under a salt; the identifier of the event, which Boost draws, is an argument.
pub mod Attempts
use url_shortener.Prelude.{
  ℕ, Bool, ◌&&◌, ◌||◌, not, Option, none, some, List, [], ◌∷◌, ◌++◌, ltb, ◌==◌, if◌then◌else◌,
  value_or, length, take, is_empty, Bytes, ℤ, pos, leb_ℤ,
}
use url_shortener.Core.Text.{hex_encode, last_is}
use url_shortener.Analytics.Events.{ClickEvent, validate}
use url_shortener.Analytics.Sanitizer.{
  SanitizationLimits, validate_limits, sanitize_referrer, sanitize_user_agent, sanitize_domain,
}
use url_shortener.Analytics.Queue.{EnqueueResult, enqueued, dropped_full, Queue, try_enqueue}

pub record AnalyticsConfig : Type 0 where
  pub enabled : Bool
  pub production_mode : Bool
  pub queue_capacity : ℕ
  pub batch_size : ℕ
  pub flush_interval : ℤ
  pub max_retry_attempts : ℕ
  pub retry_backoff : ℤ
  pub retention_days : ℕ
  pub sanitization : SanitizationLimits
  pub client_hash_salt : Bytes

-- AnalyticsConfig::Validate
unfoldable pub validate_config : AnalyticsConfig → Bool
validate_config config = not (
    (config.queue_capacity == 0)
    || (config.batch_size == 0)
    || ltb config.queue_capacity config.batch_size
    || leb_ℤ config.flush_interval (pos 0)
    || leb_ℤ config.retry_backoff (pos 0)
    || (config.retention_days == 0)
    || not (validate_limits config.sanitization)
    || (config.enabled && is_empty config.client_hash_salt))

pub record ClientIdHashConfig : Type 0 where
  pub salt : Bytes
  pub allow_missing_identifier : Bool
  pub output_length : ℕ

pub record RedirectEventContext : Type 0 where
  pub slug : Bytes
  pub link_id : Bytes
  pub domain : Bytes
  pub final_status_code : ℕ
  pub referrer : Bytes
  pub user_agent : Bytes
  pub client_network_identifier : Bytes
  pub occurred_at : ℕ

pub record RedirectAnalyticsInput : Type 0 where
  pub slug : Bytes
  pub link_id : Bytes
  pub host : Bytes
  pub referrer : Bytes
  pub user_agent : Bytes
  pub client_network_identifier : Bytes
  pub status_code : ℕ

-- The text before the last byte `b`.
unfoldable pub before_last : ℕ → Bytes → Option Bytes
before_last b [] = none
before_last b (c ∷ s) = elim (before_last b s) [
  | some r ↦ some (c ∷ r)
  | none ↦ if c == b then some [] else none
]

-- The host without its port.
unfoldable pub domain_of : Bytes → Bytes
unfolding before_last
domain_of host =
    if not (is_empty host) && not (last_is b']' host)
    then value_or (before_last b':' host) host
    else host

unfoldable pub context_of : RedirectAnalyticsInput → ℕ → RedirectEventContext
unfolding domain_of
context_of input now = record {
  slug = input.slug;
  link_id = input.link_id;
  domain = domain_of input.host;
  final_status_code = input.status_code;
  referrer = input.referrer;
  user_agent = input.user_agent;
  client_network_identifier = input.client_network_identifier;
  occurred_at = now;
}

-- The calls on `IAnalyticsMetrics`.
pub data RecordingCall : Type 0 where
  on_enqueued on_dropped : RecordingCall
  set_queue_depth : ℕ → RecordingCall
  observe_enqueue_latency_us : ℕ → RecordingCall

pub record Recorder : Type 0 where
  pub queue : Queue ClickEvent
  pub metrics : List RecordingCall

abbrev pub call_for : EnqueueResult → RecordingCall
call_for enqueued = on_enqueued
call_for dropped_full = on_dropped

module _ (hmac : Bytes → Bytes → Bytes) where
  -- ClientIdHasher::Hash: `none` is an error, an empty text a missing identifier that is allowed.
  unfoldable pub hash : Bytes → ClientIdHashConfig → Option Bytes
  hash normalized_identifier config =
      let out = hex_encode (hmac normalized_identifier config.salt) in
      if is_empty config.salt
      then none
      else if is_empty normalized_identifier
      then (if config.allow_missing_identifier then some [] else none)
      else if ltb 0 config.output_length && ltb config.output_length (length out)
      then some (take config.output_length out)
      else some out

  unfoldable pub draft : Bytes → RedirectEventContext → SanitizationLimits → Bytes → ClickEvent
  draft event_id context limits client_id_hash = record {
    event_id = event_id;
    occurred_at = context.occurred_at;
    slug = context.slug;
    link_id = context.link_id;
    domain = sanitize_domain context.domain limits;
    status_code = context.final_status_code;
    referrer = sanitize_referrer context.referrer limits;
    user_agent = sanitize_user_agent context.user_agent limits;
    client_id_hash = client_id_hash;
  }

  -- ClickEventBuilder::Build
  unfoldable pub build :
      Bytes → RedirectEventContext → SanitizationLimits → ClientIdHashConfig → Option ClickEvent
  build event_id context limits hash_config =
      if not (validate_limits limits)
      then none
      else elim (hash context.client_network_identifier hash_config) [
        | none ↦ none
        | some client_id_hash ↦
            let e = draft event_id context limits client_id_hash in
            if not (validate e) then none else some e
      ]

  abbrev pub hash_config_of : AnalyticsConfig → ClientIdHashConfig
  hash_config_of config = record {
    salt = config.client_hash_salt;
    allow_missing_identifier = not config.production_mode;
    output_length = 64;
  }

  -- The part of `RecordRedirectAttempt` behind the building; `us` is the time that it took.
  unfoldable pub record_event : ℕ → ClickEvent → Recorder → Recorder
  record_event us event recorder =
      let (result, queue) = try_enqueue event recorder.queue in
      record {
        queue = queue;
        metrics =
            recorder.metrics
            ++ call_for result
              ∷ set_queue_depth (length queue.queue)
              ∷ observe_enqueue_latency_us us
              ∷ [];
      }

  unfoldable pub record_redirect_attempt :
      AnalyticsConfig → Bytes → ℕ → RedirectEventContext → Recorder → Recorder
  record_redirect_attempt config event_id us context recorder =
      if not config.enabled
      then recorder
      else elim (build event_id context config.sanitization (hash_config_of config)) [
        | none ↦ recorder
        | some event ↦ record_event us event recorder
      ]

  -- RedirectAnalyticsHook::OnRedirectOutcome
  unfoldable pub on_redirect_outcome :
      AnalyticsConfig → Bytes → ℕ → ℕ → RedirectAnalyticsInput → Recorder → Recorder
  on_redirect_outcome config event_id now us input recorder =
      record_redirect_attempt config event_id us (context_of input now) recorder
