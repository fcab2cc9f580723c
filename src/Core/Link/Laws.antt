-- ===== src/Core/Link/Laws.antt =====
-- The status of a link (src/core/utils.cpp: resolveLinkStatus, isExpired).
use url_shortener.Prelude.{
  ◌≡◌, refl, ◌≢◌, ◌⊎◌, inl, inr, true, Option, none, some, arith, Option-cases, Bytes, ℤ, leb_ℤ,
}
use url_shortener.Core.Link.{
  Link, LinkStatus, active, disabled, expired, deleted, resolve_link_status,
}
use url_shortener.Core.Link.Time.{is_expired, parse_rfc3339_zulu}

pub LinkStatus-cases :
    (x : LinkStatus) → (x ≡ active) ⊎ (x ≡ disabled) ⊎ (x ≡ expired) ⊎ (x ≡ deleted)
LinkStatus-cases active = inl refl
LinkStatus-cases disabled = inr (inl refl)
LinkStatus-cases expired = inr (inr (inl refl))
LinkStatus-cases deleted = inr (inr (inr refl))

pub active_or_not : (x : LinkStatus) → (x ≡ active) ⊎ (x ≢ active)
active_or_not x = ground arith

is_expired-later :
    (now later : ℤ) (t : Option Bytes)
    → leb_ℤ now later ≡ true
    → is_expired now t ≡ true
    → is_expired later t ≡ true
unfolding is_expired
is_expired-later now later none h k = k
is_expired-later now later (some value) h k = elim (Option-cases (parse_rfc3339_zulu value)) [
  | inl e ↦ absurd (ground (arith, e))
  | inr (ts, e) ↦ ground (arith, e)
]

-- A link that is not active at one time has the same status later.
pub resolve_link_status-later :
    (now later : ℤ) (link : Link)
    → leb_ℤ now later ≡ true
    → resolve_link_status now link ≢ active
    → resolve_link_status later link ≡ resolve_link_status now link
unfolding resolve_link_status
resolve_link_status-later now later link h k =
    ground (arith, is_expired-later now later link.expires_at)
