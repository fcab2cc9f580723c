-- ===== src/Tests/Http.antt =====
-- The theorems on src/http, and on the resolution of src/core/link_service.cpp, at concrete inputs.
use url_shortener.Prelude.{
  ℕ, ◌≡◌, refl, true, false, none, some, [], ◌∷◌, ◌++◌, arith, is_some, Bytes, bytes, ◌=ᵇ◌, lookup,
  pos,
}
use url_shortener.Core.Config.{default_config}
use url_shortener.Storage.LinkRepository.{get_link_for_read}
use url_shortener.Storage.LinkRepository.Coherence.{IsCoherent}
use url_shortener.Storage.Models.{LinkRecord}
use url_shortener.Storage.MetadataRepository.{get_by_short_code}
use url_shortener.Http.Types.{get, post, Request, RouteContext, path_param, same_verb}
use url_shortener.Http.Router.{
  split_path, match_path, Router, dispatch, path_of, segments_of, drop_only_empty,
  is_capture_segment, match_segments, path_specificity, match_whole_path,
}
use url_shortener.Http.Router.Paths.{match_path_accepts}
use url_shortener.Http.Router.Dispatch.{dispatch_lem}
use url_shortener.Http.Redirect.{Server, RequestEnv, path_value, handle_prefixed_redirect}
use url_shortener.Http.Redirect.Clicks.{IsRecorded, handle_prefixed_redirect-IsRecorded}
use url_shortener.App.LinkService.{Readings, Ports, resolve}
use url_shortener.Tests.{demo_store}
use url_shortener.Core.Text.{take_while, drop_while, last_is, drop_last}
use url_shortener.App.LinkService.Resolution.{IsAnswer, resolve-IsAnswer}
use url_shortener.Storage.LinkRepository
use url_shortener.App.LinkService.Coherence

abbrev request : Request
request = record {
  method = get;
  target = bytes "/r/docs?a=1";
  host = some (bytes "localhost:8000");
  referrer = none;
  user_agent = none;
  forwarded_for = none;
}

abbrev context : RouteContext
context = record {
  path_params = (bytes "slug", bytes "docs") ∷ [];
  query_string = [];
  route_label = bytes "/r/{slug}";
}

abbrev server : Server
server = record {
  store = demo_store;
  clicks = [];
  queue = record { capacity = 1024; events = []; enqueued_total = 0; dropped_total = 0 };
  last_capacity = 1024;
}

abbrev env : RequestEnv
env = record {
  now_for_status = pos 5;
  now_for_error = pos 5;
  now_for_stats = pos 5;
  now_for_event = pos 5;
  ticks_for_event = 5;
  id_draws = λ i. i;
}

-- It stands in for the hash.
abbrev join : Bytes → Bytes → Bytes
join source salt = source ++ salt

handle_prefixed_redirect-IsRecorded_example :
    (let after = handle_prefixed_redirect join default_config env request context server in
      IsRecorded (bytes "docs") [] (after.0, after.1.clicks))
unfolding path_value path_param lookup ◌=ᵇ◌
handle_prefixed_redirect-IsRecorded_example =
    handle_prefixed_redirect-IsRecorded join default_config env request refl context server

-- Handlers that return a number, and an error handler that returns the status.
abbrev router : Router ℕ
router = record {
  routes =
      record {
        method = get;
        path_pattern = bytes "/{slug}";
        route_label = bytes "/{slug}";
        handler = λ req config is_tls context. 1;
      }
      ∷ record {
        method = get;
        path_pattern = bytes "/health";
        route_label = bytes "/health";
        handler = λ req config is_tls context. 2;
      }
      ∷ record {
        method = post;
        path_pattern = bytes "/r/{slug}";
        route_label = bytes "/r/{slug}";
        handler = λ req config is_tls context. 3;
      }
      ∷ [];
  error_handler = λ req config is_tls status code message. status;
}

dispatch_lem_example :
    dispatch router (record request { target = bytes "/health" }) default_config false ≡ 2
unfolding match_path split_path drop_only_empty segments_of drop_while path_of take_while
    match_segments is_capture_segment last_is drop_last path_specificity ◌=ᵇ◌ match_whole_path
    same_verb
dispatch_lem_example =
    dispatch_lem router (record request { target = bytes "/health" }) default_config false
      (
        (λ e. absurd (ground arith)),
        ((λ e. absurd (ground arith)), ((λ e. absurd (ground arith)), tt)),
      )

match_path_accepts_example : is_some (match_path (bytes "/r/{slug}") (bytes "/r/docs?a=1")) ≡ true
unfolding path_of take_while split_path drop_while segments_of drop_only_empty is_capture_segment
    ◌=ᵇ◌ last_is drop_last
match_path_accepts_example = match_path_accepts (bytes "/r/{slug}") (bytes "/r/docs?a=1") refl

abbrev matched : RouteContext
matched = record {
  path_params = (bytes "slug", bytes "docs") ∷ [];
  query_string = bytes "a=1";
  route_label = [];
}

abbrev demo_record : LinkRecord
demo_record = record {
  id = bytes "id1";
  short_code = bytes "docs";
  target_url = bytes "https://example.com";
  created_at = 5;
  updated_at = 5;
  expires_at = none;
  deleted_at = none;
  owner = none;
  attributes = [];
  is_active = true;
  version = 1;
}

abbrev ports : Ports
ports = record { records = (bytes "docs", demo_record) ∷ []; cache = []; emitted = [] }

ports-IsCoherent : Coherence.IsCoherent ports
unfolding lookup
ports-IsCoherent code entry h = absurd (ground arith)

abbrev clock : Readings
clock = record {
  now_for_get = 9;
  now_for_cached = 10;
  now_for_record = 11;
  now_for_ttl = 12;
  now_for_set = 13;
  now_for_event = 14;
}

resolve-IsAnswer_example :
    IsAnswer clock (bytes "docs") (some demo_record) ports (resolve clock (bytes "docs") ports)
unfolding get_by_short_code lookup ◌=ᵇ◌
resolve-IsAnswer_example = resolve-IsAnswer clock (bytes "docs") ports ports-IsCoherent
