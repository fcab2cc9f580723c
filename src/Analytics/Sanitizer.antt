-- ===== src/Analytics/Sanitizer.antt =====
-- src/analytics/click_event_sanitizer.cpp: header values without control characters, trimmed and
-- cut to a number of bytes.
pub mod Laws
use url_shortener.Prelude.{
  ℕ, Bool, ◌&&◌, not, [], ◌∷◌, ltb, leb, ◌==◌, if◌then◌else◌, length, take, is_empty, filter, Bytes,
  is_space,
}

pub record SanitizationLimits : Type 0 where
  pub max_referrer_bytes : ℕ
  pub max_user_agent_bytes : ℕ
  pub max_domain_bytes : ℕ

unfoldable pub validate_limits : SanitizationLimits → Bool
validate_limits limits =
    ltb 0 limits.max_referrer_bytes
    && ltb 0 limits.max_user_agent_bytes
    && ltb 0 limits.max_domain_bytes

unfoldable pub is_printable : ℕ → Bool
is_printable c = leb 0x20 c && not (c == 0x7F)

-- The text from the first byte that is no space (`find_if_not` from the front).
unfoldable pub skip_space : Bytes → Bytes
skip_space [] = []
skip_space (c ∷ s) = if is_space c then skip_space s else c ∷ s

-- The text up to the last such byte (`find_if_not` from the back).
unfoldable pub cut_space : Bytes → Bytes
cut_space [] = []
cut_space (c ∷ s) = let r = cut_space s in if is_empty r && is_space c then [] else c ∷ r

unfoldable pub sanitize_common : Bytes → ℕ → Bytes
sanitize_common input max_bytes =
    let trimmed = cut_space (skip_space (filter is_printable input)) in
    if ltb max_bytes (length trimmed) then take max_bytes trimmed else trimmed

unfoldable pub sanitize_referrer : Bytes → SanitizationLimits → Bytes
sanitize_referrer input limits = sanitize_common input limits.max_referrer_bytes

unfoldable pub sanitize_user_agent : Bytes → SanitizationLimits → Bytes
sanitize_user_agent input limits = sanitize_common input limits.max_user_agent_bytes

unfoldable pub sanitize_domain : Bytes → SanitizationLimits → Bytes
sanitize_domain input limits = sanitize_common input limits.max_domain_bytes
