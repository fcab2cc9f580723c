-- ===== src/App/Types.antt =====
-- include/url_shortener/app/app_error.hpp and link_command_service.hpp: errors, commands, the view
-- of a link, and the store interface `ILinkStore`.
use url_shortener.Prelude.{ℕ, Bool, true, false, Option, List, Bytes, Map, ℤ}
use url_shortener.Core.Link.{Campaign, Stats, Link, RedirectType, LinkStatus}

pub data AppErrorCode : Type 0 where
  success : AppErrorCode
  invalid_url invalid_slug reserved_slug slug_conflict invalid_field : AppErrorCode
  not_found storage_failure internal : AppErrorCode

pub record AppError : Type 0 where
  pub code : AppErrorCode
  pub detail : Bytes

-- `Result<T>`: a value, or no value and an error whose code is not `none`.
pub data Outcome {ℓ} (A : Type ℓ) : Type ℓ where
  ok : A → Outcome A
  err : AppError → Outcome A

abbrev pub error : AppErrorCode → Bytes → AppError
error code detail = record { code = code; detail = detail }

infixl 5 ◌>>=◌
abbrev pub ◌>>=◌ {ℓ κ} : {A : Type ℓ} {B : Type κ} → Outcome A → (A → Outcome B) → Outcome B
ok a >>= f = f a
err e >>= f = err e

pub record CreateLinkCommand : Type 0 where
  pub target_url : Bytes
  pub slug : Option Bytes
  pub redirect_type : Option RedirectType
  pub expires_at : Option Bytes
  pub enabled : Option Bool
  pub tags : List Bytes
  pub metadata : Map Bytes
  pub campaign : Option Campaign

pub data GetLinkBy : Type 0 where
  slug id : GetLinkBy

pub record GetLinkQuery : Type 0 where
  pub by : GetLinkBy
  pub value : Bytes

-- An outer `none` leaves a field untouched; an inner `none` clears it.
pub record UpdateLinkCommand : Type 0 where
  pub slug : Bytes
  pub enabled : Option Bool
  pub expires_at : Option (Option Bytes)
  pub tags : Option (List Bytes)
  pub metadata : Option (Map Bytes)
  pub campaign : Option (Option Campaign)

pub record DeleteLinkCommand : Type 0 where
  pub slug : Bytes

pub record SetLinkEnabledCommand : Type 0 where
  pub slug : Bytes
  pub enabled : Bool

pub record RestoreLinkCommand : Type 0 where
  pub slug : Bytes

pub record GetLinkStatsQuery : Type 0 where
  pub slug : Bytes
  pub from : Bytes
  pub to : Bytes
  pub bucket : Bytes

pub record LinkView : Type 0 where
  pub id : Bytes
  pub slug : Bytes
  pub target_url : Bytes
  pub short_url : Bytes
  pub created_at : Bytes
  pub updated_at : Bytes
  pub expires_at : Option Bytes
  pub deleted_at : Option Bytes
  pub enabled : Bool
  pub tags : List Bytes
  pub metadata : Map Bytes
  pub campaign : Option Campaign
  pub stats : Stats
  pub redirect_type : RedirectType
  pub status : LinkStatus

-- What a write returns: `true`, or `false` with the error it stored, whose code stays `none` if it
-- stored none.
pub data StoreReply : Type 0 where
  done : StoreReply
  refused : AppError → StoreReply

abbrev pub is_done : StoreReply → Bool
is_done done = true
is_done (refused e) = false

-- `ILinkStore` over a state that its methods read and change.
pub record LinkStore (S : Type 0) : Type 0 where
  pub create : Link → S → StoreReply × S
  pub find_by_slug : Bytes → S → Option Link × S
  pub find_by_id : Bytes → S → Option Link
  pub slug_exists : Bytes → S → Bool
  pub invalidate_cache : Bytes → S → S
  pub update : Link → S → StoreReply × S

-- The readings of the system clock that one command makes, in their order, and its random draws.
pub record Env : Type 0 where
  pub now_for_expiry : ℤ
  pub now_for_write : ℤ
  pub now_for_view : ℤ
  pub slug_draws : ℕ → ℕ → ℕ
  pub id_draws : ℕ → ℕ
