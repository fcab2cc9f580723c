-- ===== src/Http/Redirect/Answers.antt =====
-- What a client gets from the redirect handlers (src/http/handlers/redirect_handlers.cpp) and what
-- a redirect does to the link, in terms of the link repository alone.
use url_shortener.Prelude.{
  ◌+◌, ◌%◌, ◌^◌, ◌≡◌, ◌&&◌, Option, none, some, arith, if◌then◌else◌, is_empty, Bytes, bytes, ℤ,
}
use url_shortener.Core.Config.{ServerConfig}
use url_shortener.Core.Slug.{is_valid_slug}
use url_shortener.Core.Link.{
  Link, active, disabled, expired, deleted, resolve_link_status, redirect_status_for,
}
use url_shortener.Core.Link.Time.{format_timestamp}
use url_shortener.Storage.LinkRepository.{Repo, get_link_for_read}
use url_shortener.Http.Types.{get, same_verb, Request, RouteContext}
use url_shortener.Http.Redirect.{
  Response, redirect, api_error, application, Server, RequestEnv, path_value,
  handle_prefixed_redirect, handle_root_redirect,
}
use url_shortener.Storage.LinkRepository

-- The answer that a link, or none, calls for at a time.
abbrev pub answer_of : ℤ → Option Link → Response
answer_of now none = api_error 404 (bytes "not_found") (bytes "Link not found")
answer_of now (some link) = elim (resolve_link_status now link) [
  | active ↦ redirect (redirect_status_for link) link.target_url
  | deleted ↦ api_error 404 (bytes "link_deleted") (bytes "Link not found")
  | disabled ↦ api_error 410 (bytes "link_disabled") (bytes "Link is disabled")
  | expired ↦ api_error 410 (bytes "link_expired") (bytes "Link has expired")
]

module _ (hash_client : Bytes → Bytes → Bytes) (config : ServerConfig) (env : RequestEnv)
    (req : Request) where
  -- The server once the link is read for a slug.
  after_read : Bytes → Server → Server
  after_read slug s = record s { store = (get_link_for_read slug s.store).1 }

-- The link with one redirect more in each of its three counters, which are 64 bits wide, and the
-- time of the request as that of its last access.
abbrev pub with_one_more : RequestEnv → Link → Link
with_one_more env l = record l {
  stats = record {
    total_redirects = (l.stats.total_redirects + 1) % 2 ^ 64;
    redirects_24h = (l.stats.redirects_24h + 1) % 2 ^ 64;
    redirects_7d = (l.stats.redirects_7d + 1) % 2 ^ 64;
    last_accessed_at = some (format_timestamp env.now_for_stats);
  };
}

-- The link after a request for it: with one redirect more, when it is active.
abbrev pub recorded : RequestEnv → Option Link → Option Link
recorded env none = none
recorded env (some l) = elim (resolve_link_status env.now_for_status l) [
  | active ↦ some (with_one_more env l)
  | _ ↦ some l
]

module _ (hash_client : Bytes → Bytes → Bytes) (config : ServerConfig) (env : RequestEnv)
    (req : Request) where
  -- At the root, a GET without a query for a slug of the right form is answered as behind the
  -- prefix; everything else goes to the application and leaves the server as it is.
  pub handle_root_redirect_lem :
      (context : RouteContext) (s : Server)
      → handle_root_redirect hash_client config env req context s ≡ (
          if same_verb req.method get
            && is_empty context.query_string
            && is_valid_slug (path_value context (bytes "slug"))
          then handle_prefixed_redirect hash_client config env req context s
          else (application, s))
  unfolding handle_root_redirect handle_prefixed_redirect
  handle_root_redirect_lem context s = ground arith
