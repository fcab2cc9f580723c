-- ===== src/Core/Link.antt =====
-- include/url_shortener/core/types.hpp, the enumerations' texts, and the status of a link
-- (src/core/utils.cpp: parseRedirectType, redirectTypeToString, linkStatusToString,
-- resolveLinkStatus, redirectStatusFor). Times are in Core/Link/Time.
pub mod Time
pub mod Laws
use url_shortener.Prelude.{
  ℕ, Bool, not, Option, none, some, List, if◌then◌else◌, is_some, Bytes, bytes, ◌=ᵇ◌, Map, ℤ,
}
use Time.{is_expired}

pub data RedirectType : Type 0 where
  temporary permanent : RedirectType

pub data LinkStatus : Type 0 where
  active disabled expired deleted : LinkStatus

pub record Campaign : Type 0 where
  pub name : Option Bytes
  pub source : Option Bytes
  pub medium : Option Bytes
  pub term : Option Bytes
  pub content : Option Bytes
  pub id : Option Bytes

-- The counters are `uint64_t`.
pub record Stats : Type 0 where
  pub total_redirects : ℕ
  pub redirects_24h : ℕ
  pub redirects_7d : ℕ
  pub last_accessed_at : Option Bytes

pub record Link : Type 0 where
  pub id : Bytes
  pub slug : Bytes
  pub target_url : Bytes
  pub created_at : Bytes
  pub updated_at : Bytes
  pub expires_at : Option Bytes
  pub deleted_at : Option Bytes
  pub enabled : Bool
  pub tags : List Bytes
  pub metadata : Map Bytes
  pub campaign : Option Campaign
  pub stats : Stats
  pub redirect_type : RedirectType

-- The event of the legacy click queue.
pub record ClickEvent : Type 0 where
  pub event_id : Bytes
  pub occurred_at : Bytes
  pub slug : Bytes
  pub link_id : Option Bytes
  pub domain : Bytes
  pub status_code : ℕ
  pub referrer : Option Bytes
  pub user_agent : Option Bytes
  pub client_id_hash : Bytes

unfoldable pub parse_redirect_type : Bytes → Option RedirectType
unfolding ◌=ᵇ◌
parse_redirect_type value =
    if value =ᵇ bytes "temporary"
    then some temporary
    else if value =ᵇ bytes "permanent"
    then some permanent
    else none

unfoldable pub redirect_type_to_string : RedirectType → Bytes
redirect_type_to_string permanent = bytes "permanent"
redirect_type_to_string temporary = bytes "temporary"

unfoldable pub link_status_to_string : LinkStatus → Bytes
link_status_to_string deleted = bytes "deleted"
link_status_to_string disabled = bytes "disabled"
link_status_to_string expired = bytes "expired"
link_status_to_string active = bytes "active"

-- `now` is the reading of the system clock.
unfoldable pub resolve_link_status : ℤ → Link → LinkStatus
resolve_link_status now link =
    if is_some link.deleted_at
    then deleted
    else if not link.enabled
    then disabled
    else if is_expired now link.expires_at
    then expired
    else active

unfoldable pub redirect_status_for : Link → ℕ
redirect_status_for link = elim link.redirect_type [ permanent ↦ 301 | temporary ↦ 302 ]
