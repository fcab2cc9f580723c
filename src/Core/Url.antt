-- ===== src/Core/Url.antt =====
-- URLs (src/core/utils.cpp: isValidHttpUrl, splitUrl, isPrivateHost, normalizeTargetUrl,
-- normalizeAndValidateBaseDomain).
pub mod Target
pub mod Normalized
pub mod Accepted
use url_shortener.Prelude.{
  ℕ, Bool, false, ◌&&◌, ◌||◌, not, Option, none, some, List, [], ◌∷◌, ◌++◌, map, ◌==◌,
  if◌then◌else◌, is_some, drop, is_empty, all, Bytes, bytes, ◌=ᵇ◌, starts_with, is_alpha, is_alnum,
  to_lower,
}
use url_shortener.Core.Text.{
  trim, find, find_behind, drop_last, last_is, take_while, drop_while, has_byte,
}

unfoldable pub is_valid_http_url : Bytes → Bool
is_valid_http_url url = starts_with url (bytes "http://") || starts_with url (bytes "https://")

-- [A-Za-z0-9+.-]
unfoldable pub is_scheme_char : ℕ → Bool
is_scheme_char c = is_alnum c || (c == b'+') || (c == b'.') || (c == b'-')

-- [^/?#]
unfoldable pub is_authority_char : ℕ → Bool
is_authority_char c = not ((c == b'/') || (c == b'?') || (c == b'#'))

-- `.` of a regular expression: no line terminator
unfoldable pub is_regex_any : ℕ → Bool
is_regex_any c = not ((c == 10) || (c == 13))

-- The groups 2 and 3 of the expression, behind "://": a non-empty authority, and the rest of the
-- line. Matched greedily, as a shorter authority only makes the rest longer.
unfoldable pub split_rest : Bytes → Option Bytes
split_rest s =
    if not (is_empty (take_while is_authority_char s))
      && all is_regex_any (drop_while is_authority_char s)
    then some (take_while is_authority_char s ++ drop_while is_authority_char s)
    else none

-- ^([A-Za-z][A-Za-z0-9+.-]*)://([^/?#]+)(.*)$
unfoldable pub split_url : Bytes → Option (Bytes × Bytes)
split_url [] = none
split_url (c ∷ s) =
    let scheme = c ∷ take_while is_scheme_char s in
    let behind = drop_while is_scheme_char s in
    if is_alpha c && starts_with behind (bytes "://")
    then elim (split_rest (drop 3 behind)) [ none ↦ none | some rest ↦ some (scheme, rest) ]
    else none

unfoldable pub loopback_names : List Bytes
loopback_names =
    bytes "localhost"
    ∷ bytes "::1"
    ∷ bytes "::"
    ∷ bytes "0.0.0.0"
    ∷ bytes "[::1]"
    ∷ bytes "[::]"
    ∷ []

unfoldable pub private_prefixes : List Bytes
private_prefixes =
    bytes "127."
    ∷ bytes "10."
    ∷ bytes "192.168."
    ∷ bytes "169.254."
    ∷ bytes "172.16."
    ∷ bytes "172.17."
    ∷ bytes "172.18."
    ∷ bytes "172.19."
    ∷ bytes "172.20."
    ∷ bytes "172.21."
    ∷ bytes "172.22."
    ∷ bytes "172.23."
    ∷ bytes "172.24."
    ∷ bytes "172.25."
    ∷ bytes "172.26."
    ∷ bytes "172.27."
    ∷ bytes "172.28."
    ∷ bytes "172.29."
    ∷ bytes "172.30."
    ∷ bytes "172.31."
    ∷ bytes "fc"
    ∷ bytes "fd"
    ∷ bytes "fe80:"
    ∷ []

unfoldable pub equals_any : List Bytes → Bytes → Bool
equals_any [] s = false
equals_any (x ∷ xs) s = (s =ᵇ x) || equals_any xs s

unfoldable pub has_prefix_of : List Bytes → Bytes → Bool
has_prefix_of [] s = false
has_prefix_of (x ∷ xs) s = starts_with s x || has_prefix_of xs s

-- The host without its surrounding brackets.
unfoldable pub strip_brackets : Bytes → Bytes
strip_brackets [] = []
strip_brackets (c ∷ s) = if (c == b'[') && last_is b']' (c ∷ s) then drop_last s else c ∷ s

unfoldable pub is_private_host : Bytes → Bool
is_private_host host =
    let lower_host = map to_lower host in
    let effective_host = strip_brackets lower_host in
    equals_any loopback_names lower_host
    || ((lower_host =ᵇ bytes "internal")
        || (lower_host =ᵇ bytes "localhost.localdomain")
        || is_some (find (bytes ".internal") lower_host)
        || is_some (find (bytes ".local") lower_host))
    || (effective_host =ᵇ bytes "localhost")
    || (effective_host =ᵇ bytes "::1")
    || has_prefix_of private_prefixes effective_host

-- The authority's port, behind its first colon.
unfoldable pub port_of : Bytes → Option Bytes
port_of authority = find_behind b':' authority

-- The port that is written: not the scheme's own, and not an empty one.
unfoldable pub written_port : Bytes → Option Bytes → Bytes
written_port scheme none = []
written_port scheme (some port) =
    if ((scheme =ᵇ bytes "http") && (port =ᵇ bytes "80"))
      || ((scheme =ᵇ bytes "https") && (port =ᵇ bytes "443"))
    then []
    else if is_empty port
    then []
    else b':' ∷ port

-- The URL that is returned for a scheme and what follows "://", or the refusal.
unfoldable pub normalize_split : Bool → Bytes → Bytes → Option Bytes
normalize_split allow_private scheme rest =
    let authority = take_while is_authority_char rest in
    let suffix = drop_while is_authority_char rest in
    let host = map to_lower (take_while (λ c. not (c == b':')) authority) in
    if not (scheme =ᵇ bytes "http") && not (scheme =ᵇ bytes "https")
    then none
    else if has_byte b'@' authority
    then none
    else if is_empty host
    then none
    else if not allow_private && is_private_host host
    then none
    else some (scheme ++ bytes "://" ++ host ++ written_port scheme (port_of authority) ++ suffix)

-- `allow_private` is the configuration's `shortener_allow_private_targets`.
unfoldable pub normalize_target_url : Bool → Bytes → Option Bytes
normalize_target_url allow_private input_url = elim (split_url (trim input_url)) [
  | none ↦ none
  | some (scheme, rest) ↦ normalize_split allow_private (map to_lower scheme) rest
]

-- What a function that may throw returns: a value, or the exception's message.
pub data Checked : Type 0 where
  ok : Bytes → Checked
  throws : Bytes → Checked

-- The tests on the authority and what follows it.
unfoldable pub base_domain_of : Bytes → Bytes → Checked
base_domain_of scheme authority_and_rest =
    let path = drop_while (λ c. not (c == b'/')) authority_and_rest in
    let authority = take_while (λ c. not (c == b'/')) authority_and_rest in
    if not (scheme =ᵇ bytes "http") && not (scheme =ᵇ bytes "https")
    then throws (bytes "SHORTENER_BASE_DOMAIN scheme must be http or https")
    else if has_byte b'@' authority_and_rest
    then throws (bytes "SHORTENER_BASE_DOMAIN must not include userinfo")
    else if has_byte b'?' authority_and_rest || has_byte b'#' authority_and_rest
    then throws (bytes "SHORTENER_BASE_DOMAIN must not include path, query, or fragment")
    else if not (all (λ c. c == b'/') path)
    then throws (bytes "SHORTENER_BASE_DOMAIN must not include path, query, or fragment")
    else if is_empty authority
    then throws (bytes "SHORTENER_BASE_DOMAIN host is required")
    else ok (scheme ++ bytes "://" ++ authority)

unfoldable pub normalize_and_validate_base_domain : Bytes → Checked
normalize_and_validate_base_domain raw_domain =
    if is_empty (trim raw_domain)
    then throws (bytes "SHORTENER_BASE_DOMAIN must not be empty")
    else elim (split_url (trim raw_domain)) [
      | none ↦ throws (bytes "SHORTENER_BASE_DOMAIN must include http:// or https:// and a host")
      | some (scheme, rest) ↦ base_domain_of (map to_lower scheme) rest
    ]
