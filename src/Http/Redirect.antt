-- ===== src/Http/Redirect.antt =====
-- src/http/handlers/redirect_handlers.cpp: the public redirect of a short link, with its statistics
-- and its click event. The state is the process-wide stores that the handlers reach. `hash_client`
-- stands for OpenSSL's HMAC of a text under a salt, in hexadecimal (hashClientIdentifier).
pub mod Answers
pub mod Clicks
use url_shortener.Prelude.{
  ℕ, ◌+◌, ◌%◌, ◌^◌, not, Option, none, some, List, [], ◌∷◌, ◌==◌, if◌then◌else◌, value_or, is_empty,
  Bytes, bytes, ℤ,
}
use url_shortener.Core.Config.{ServerConfig}
use url_shortener.Core.Text.{clamp_string, take_while}
use url_shortener.Core.Slug.{generate_slug, is_valid_slug}
use url_shortener.Core.Link.{
  Link, ClickEvent, active, disabled, expired, deleted, resolve_link_status, redirect_status_for,
}
use url_shortener.Core.Link.Time.{format_timestamp}
use url_shortener.Storage.LinkRepository.{
  Store, get_link_for_read, update_link_and_invalidate_cache,
}
use url_shortener.Analytics.LegacyQueue.{Queue, try_enqueue, analytics_queue}
use url_shortener.Http.Types.{get, same_verb, Request, RouteContext, path_param}
use url_shortener.Storage.ClickEvents.{insert_batch}
use url_shortener.Analytics.Events

-- What a handler answers. `application` is the hand-over to `handleApplicationRequest`; the headers
-- that every answer of a kind has are left out.
pub data Response : Type 0 where
  redirect : ℕ → Bytes → Response
  api_error : ℕ → Bytes → Bytes → Response
  application : Response

-- linkRepository() with linkCache(), analyticsClickRepository(), and analyticsQueue(config) with
-- the capacity that it saw last.
pub record Server : Type 0 where
  pub store : Store
  pub clicks : List Events.ClickEvent
  pub queue : Queue
  pub last_capacity : ℕ

-- The readings of the clock that one request makes, in seconds and for the event also in ticks, and
-- the random draws of the event's identifier.
pub record RequestEnv : Type 0 where
  pub now_for_status : ℤ
  pub now_for_error : ℤ
  pub now_for_stats : ℤ
  pub now_for_event : ℤ
  pub ticks_for_event : ℕ
  pub id_draws : ℕ → ℕ

unfoldable pub path_value : RouteContext → Bytes → Bytes
path_value context name = value_or (path_param context name) []

-- headerString, for a header that the request has or has not
unfoldable pub header_string : Option Bytes → ℕ → Option Bytes
header_string none max_len = none
header_string (some value) max_len = some (clamp_string value max_len)

unfoldable pub client_source : Bytes → Bytes
client_source forwarded_for =
    if is_empty forwarded_for then bytes "unknown" else clamp_string forwarded_for 128

-- The link with one redirect more; the counters are `uint64_t`.
unfoldable pub counted : RequestEnv → Link → Link
counted env link = record link {
  stats = record {
    total_redirects = (link.stats.total_redirects + 1) % 2 ^ 64;
    redirects_24h = (link.stats.redirects_24h + 1) % 2 ^ 64;
    redirects_7d = (link.stats.redirects_7d + 1) % 2 ^ 64;
    last_accessed_at = some (format_timestamp env.now_for_stats);
  };
}

unfoldable pub increment_redirect_stats : RequestEnv → Link → Server → Server
increment_redirect_stats env link server = record server {
  store = (update_link_and_invalidate_cache (counted env link) server.store).1;
}

module _ (hash_client : Bytes → Bytes → Bytes) (config : ServerConfig) (env : RequestEnv)
    (req : Request) where
  unfoldable pub click_event : Bytes → Option Link → ℕ → ClickEvent
  unfolding header_string client_source
  click_event slug link status_code = record {
    event_id = generate_slug 20 env.id_draws;
    occurred_at = format_timestamp env.now_for_event;
    slug = slug;
    link_id = elim link [ none ↦ none | some l ↦ some l.id ];
    domain = clamp_string (take_while (λ c. not (c == b':')) (value_or req.host [])) 255;
    status_code = status_code;
    referrer = header_string req.referrer 512;
    user_agent = header_string req.user_agent 512;
    client_id_hash =
        hash_client (client_source (value_or req.forwarded_for []))
          config.analytics_client_hash_salt;
  }

  -- The event of the click repository, copied from the event of the queue.
  unfoldable pub analytics_event : ClickEvent → Events.ClickEvent
  analytics_event event = record {
    event_id = event.event_id;
    occurred_at = env.ticks_for_event;
    slug = event.slug;
    link_id = value_or event.link_id [];
    domain = event.domain;
    status_code = event.status_code;
    referrer = value_or event.referrer [];
    user_agent = value_or event.user_agent [];
    client_id_hash = event.client_id_hash;
  }

  unfoldable pub emit_click_event : Bytes → Option Link → ℕ → Server → Server
  emit_click_event slug link status_code server =
      let event = click_event slug link status_code in
      let (last_capacity, queue) =
        analytics_queue config.analytics_queue_capacity server.last_capacity server.queue in
      if not config.analytics_enabled then server else record server {
        clicks = insert_batch (analytics_event event ∷ []) server.clicks;
        queue = (try_enqueue event queue).1;
        last_capacity = last_capacity;
      }

  unfoldable pub answer_error : Bytes → Option Link → ℕ → Bytes → Bytes → Server → Response × Server
  answer_error slug link status code message server =
      (api_error status code message, emit_click_event slug link status server)

  unfoldable pub link_state_error : Bytes → Option Link → Server → Response × Server
  link_state_error slug none server =
      answer_error slug none 404 (bytes "not_found") (bytes "Link not found") server
  link_state_error slug (some link) server = elim (resolve_link_status env.now_for_error link) [
    | deleted ↦
        answer_error slug (some link) 404 (bytes "link_deleted") (bytes "Link not found") server
    | disabled ↦
        answer_error slug (some link) 410 (bytes "link_disabled") (bytes "Link is disabled") server
    | expired ↦
        answer_error slug (some link) 410 (bytes "link_expired") (bytes "Link has expired") server
    | active ↦ answer_error slug (some link) 404 (bytes "not_found") (bytes "Link not found") server
  ]

  -- The end of both handlers. The policy hooks `passwordGuardCheck` and `rateLimitGuardAllow` are
  -- constant `true`, so the answer 429 is never given.
  unfoldable pub redirect_to : Bytes → Link → Server → Response × Server
  redirect_to slug link server = (
    redirect (redirect_status_for link) link.target_url,
    emit_click_event slug (some link) (redirect_status_for link)
        (increment_redirect_stats env link server),
  )

  -- What both handlers do with the link that is read for the slug.
  unfoldable pub answer_link : Bytes → Option Link → Server → Response × Server
  answer_link slug none server = link_state_error slug none server
  answer_link slug (some link) server = elim (resolve_link_status env.now_for_status link) [
    | active ↦ redirect_to slug link server
    | _ ↦ link_state_error slug (some link) server
  ]

  unfoldable pub redirect_slug : Bytes → Server → Response × Server
  redirect_slug slug server =
      let (link, store) = get_link_for_read slug server.store in
      answer_link slug link (record server { store = store })

  unfoldable pub handle_prefixed_redirect : RouteContext → Server → Response × Server
  handle_prefixed_redirect context server =
      let slug = path_value context (bytes "slug") in
      if not (is_valid_slug slug)
      then answer_error slug none 404 (bytes "not_found") (bytes "Short code not found") server
      else redirect_slug slug server

  unfoldable pub handle_root_redirect : RouteContext → Server → Response × Server
  handle_root_redirect context server =
      let slug = path_value context (bytes "slug") in
      if not (same_verb req.method get)
      then (application, server)
      else if not (is_empty context.query_string)
      then (application, server)
      else if not (is_valid_slug slug)
      then (application, server)
      else redirect_slug slug server
