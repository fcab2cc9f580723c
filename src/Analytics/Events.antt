-- ===== src/Analytics/Events.antt =====
-- include/url_shortener/analytics/click_event.hpp and src/analytics/click_event.cpp.
use url_shortener.Prelude.{ℕ, Bool, ◌&&◌, ◌||◌, not, leb, ◌==◌, is_empty, Bytes}

-- A time is a number of clock ticks from the epoch.
pub record ClickEvent : Type 0 where
  pub event_id : Bytes
  pub occurred_at : ℕ
  pub slug : Bytes
  pub link_id : Bytes
  pub domain : Bytes
  pub status_code : ℕ
  pub referrer : Bytes
  pub user_agent : Bytes
  pub client_id_hash : Bytes

unfoldable pub is_recorded_status : ℕ → Bool
is_recorded_status code = (leb 300 code && leb code 399) || (code == 404) || (code == 410)

-- ClickEvent::Validate
unfoldable pub validate : ClickEvent → Bool
unfolding is_recorded_status
validate e = not (
    is_empty e.event_id
    || (e.occurred_at == 0)
    || is_empty e.slug
    || is_empty e.domain
    || not (is_recorded_status e.status_code))
