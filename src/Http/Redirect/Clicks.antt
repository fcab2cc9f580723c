-- ===== src/Http/Redirect/Clicks.antt =====
-- The click events of the redirect handlers (src/http/handlers/redirect_handlers.cpp:
-- emitClickEvent and its calls).
use url_shortener.Prelude.{
  ℕ, ◌≡◌, refl, inl, inr, true, Option, none, some, List, [], ◌∷◌, ◌++◌, arith, Bool-cases, Bytes,
  bytes,
}
use url_shortener.Core.Config.{ServerConfig}
use url_shortener.Core.Slug.{is_valid_slug}
use url_shortener.Core.Link.{Link, resolve_link_status, redirect_status_for}
use url_shortener.Storage.LinkRepository.{get_link_for_read}
use url_shortener.Storage.ClickEvents.{insert_batch}
use url_shortener.Analytics.Events.{ClickEvent, is_recorded_status}
use url_shortener.Http.Types.{Request, RouteContext}
use url_shortener.Http.Redirect.{
  Response, redirect, api_error, application, Server, RequestEnv, path_value, click_event,
  analytics_event, emit_click_event, increment_redirect_stats, answer_error, link_state_error,
  redirect_to, answer_link, redirect_slug, handle_prefixed_redirect,
}
use url_shortener.Core.Link.Laws.{LinkStatus-cases}

-- The status code of an answer; the application's own is not known here.
abbrev pub status_of : Response → Option ℕ
status_of (redirect status location) = some status
status_of (api_error status code message) = some status
status_of application = none

-- One click on a slug is recorded, with the status of the answer.
abbrev pub IsRecorded : Bytes → List ClickEvent → Response × List ClickEvent → Type 0
IsRecorded slug clicks (response, after) =
    (e : ClickEvent) × (after ≡ clicks ++ e ∷ [])
    × (e.slug ≡ slug)
    × (status_of response ≡ some e.status_code)
    × (is_recorded_status e.status_code ≡ true)

module _ (hash_client : Bytes → Bytes → Bytes) (config : ServerConfig) (env : RequestEnv)
    (req : Request) (enabled : config.analytics_enabled ≡ true) where
  emit-clicks :
      (slug : Bytes) (link : Option Link) (code : ℕ) (s : Server)
      → (emit_click_event hash_client config env req slug link code s).clicks
        ≡ s.clicks
          ++ analytics_event hash_client config env req
              (click_event hash_client config env req slug link code)
            ∷ []
  unfolding emit_click_event insert_batch
  emit-clicks slug link code s = ground (arith, enabled)

  emitted :
      (slug : Bytes) (link : Option Link) (code : ℕ) (s : Server) (response : Response)
      → status_of response ≡ some code
      → is_recorded_status code ≡ true
      → IsRecorded slug s.clicks
          (response, (emit_click_event hash_client config env req slug link code s).clicks)
  unfolding analytics_event click_event
  emitted slug link code s response h k = (
    analytics_event hash_client config env req
        (click_event hash_client config env req slug link code),
    emit-clicks slug link code s,
    refl,
    h,
    k,
  )

  error-IsRecorded :
      (slug : Bytes) (link : Option Link) (code : ℕ) (name message : Bytes) (s : Server)
      → is_recorded_status code ≡ true
      → (let after = answer_error hash_client config env req slug link code name message s in
          IsRecorded slug s.clicks (after.0, after.1.clicks))
  unfolding answer_error
  error-IsRecorded slug link code name message s h =
      emitted slug link code s (api_error code name message) refl h

  state-IsRecorded :
      (slug : Bytes) (link : Option Link) (s : Server)
      → (let after = link_state_error hash_client config env req slug link s in
          IsRecorded slug s.clicks (after.0, after.1.clicks))
  unfolding link_state_error is_recorded_status
  state-IsRecorded slug none s =
      error-IsRecorded slug none 404 (bytes "not_found") (bytes "Link not found") s refl
  state-IsRecorded slug (some l) s =
      elim (LinkStatus-cases (resolve_link_status env.now_for_error l)) [
        | inl h ↦
            rw (h, link_state_error)
              (error-IsRecorded slug (some l) 404 (bytes "not_found") (bytes "Link not found") s
                refl)
        | inr (inl h) ↦
            rw (h, link_state_error)
              (error-IsRecorded slug (some l) 410 (bytes "link_disabled") (bytes "Link is disabled")
                s refl)
        | inr (inr (inl h)) ↦
            rw (h, link_state_error)
              (error-IsRecorded slug (some l) 410 (bytes "link_expired") (bytes "Link has expired")
                s refl)
        | inr (inr (inr h)) ↦
            rw (h, link_state_error)
              (error-IsRecorded slug (some l) 404 (bytes "link_deleted") (bytes "Link not found") s
                refl)
      ]

  redirect_status-recorded : (l : Link) → is_recorded_status (redirect_status_for l) ≡ true
  unfolding is_recorded_status redirect_status_for
  redirect_status-recorded l = ground arith

  link-IsRecorded :
      (slug : Bytes) (link : Option Link) (s : Server)
      → (let after = answer_link hash_client config env req slug link s in
          IsRecorded slug s.clicks (after.0, after.1.clicks))
  unfolding answer_link redirect_to increment_redirect_stats
  link-IsRecorded slug none s = state-IsRecorded slug none s
  link-IsRecorded slug (some l) s =
      elim (LinkStatus-cases (resolve_link_status env.now_for_status l)) [
        | inl h ↦
            rw (h, answer_link)
              (emitted slug (some l) (redirect_status_for l) (increment_redirect_stats env l s)
                (redirect (redirect_status_for l) l.target_url) refl (redirect_status-recorded l))
        | inr (inl h) ↦ rw (h, answer_link) (state-IsRecorded slug (some l) s)
        | inr (inr (inl h)) ↦ rw (h, answer_link) (state-IsRecorded slug (some l) s)
        | inr (inr (inr h)) ↦ rw (h, answer_link) (state-IsRecorded slug (some l) s)
      ]

  -- With analytics enabled, a request behind the prefix records exactly one click: on the slug that
  -- it asked for, with the status code of the answer, and that is a code the click repository takes.
  pub handle_prefixed_redirect-IsRecorded :
      (context : RouteContext) (s : Server)
      → (let after = handle_prefixed_redirect hash_client config env req context s in
          IsRecorded (path_value context (bytes "slug")) s.clicks (after.0, after.1.clicks))
  unfolding handle_prefixed_redirect is_recorded_status redirect_slug
  handle_prefixed_redirect-IsRecorded context s =
      elim (Bool-cases (is_valid_slug (path_value context (bytes "slug")))) [
        | inl v ↦ rw v (
            link-IsRecorded (path_value context (bytes "slug"))
              (get_link_for_read (path_value context (bytes "slug")) s.store).0
              (record s {
                store = (get_link_for_read (path_value context (bytes "slug")) s.store).1;
              }))
        | inr v ↦ rw v (
            error-IsRecorded (path_value context (bytes "slug")) none 404 (bytes "not_found")
              (bytes "Short code not found") s refl)
      ]
