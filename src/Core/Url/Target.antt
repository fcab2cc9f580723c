-- ===== src/Core/Url/Target.antt =====
-- The target URLs that a link may have (src/core/utils.cpp: normalizeTargetUrl).
use url_shortener.Prelude.{
  ℕ, ◌≡◌, refl, ◌↔◌, ◌⊎◌, inl, inr, Bool, true, false, ◌&&◌, not, some, [], ◌∷◌, ◌++◌, map, arith,
  ◌==◌, Option-cases, is_some, is_empty, all, Bytes, bytes, ◌=ᵇ◌, bytes_eq_iff, bytes_eq_refl,
  to_lower,
}
use url_shortener.Core.Text.{trim, take_while, drop_while, has_byte, find, last_is}
use url_shortener.Core.Url.{
  is_authority_char, split_url, is_private_host, port_of, written_port, normalize_split,
  normalize_target_url, equals_any, loopback_names, strip_brackets, has_prefix_of, private_prefixes,
}

pub all-take_while : (p : ℕ → Bool) (s : Bytes) → all p (take_while p s) ≡ true
unfolding take_while
all-take_while p [] = refl
all-take_while p (c ∷ s) = ground (arith, all-take_while p s)

-- The host of an authority, in lower case.
abbrev pub host_of : Bytes → Bytes
host_of rest = map to_lower (take_while (λ c. not (c == b':')) (take_while is_authority_char rest))

-- The authority has no userinfo and the host is not empty, is in lower case, and is not private
-- unless that is allowed.
pub record IsAccepted (allow_private : Bool) (scheme rest : Bytes) : Type 0 where
  pub http : (scheme ≡ bytes "http") ⊎ (scheme ≡ bytes "https")
  pub no_userinfo : has_byte b'@' (take_while is_authority_char rest) ≡ false
  pub has_host : is_empty (host_of rest) ≡ false
  pub public : (not allow_private && is_private_host (host_of rest)) ≡ false

-- What is returned for an accepted URL.
abbrev pub written : Bytes → Bytes → Bytes
written scheme rest =
    scheme
    ++ bytes "://"
    ++ host_of rest
    ++ written_port scheme (port_of (take_while is_authority_char rest))
    ++ drop_while is_authority_char rest

module _ (allow_private : Bool) where
  normalize_split_accepts :
      (scheme rest url : Bytes)
      → normalize_split allow_private scheme rest ≡ some url
      → IsAccepted allow_private scheme rest × (url ≡ written scheme rest)
  unfolding normalize_split
  normalize_split_accepts scheme rest url h = (
    record {
      http =
          ground
            (arith, h, bytes_eq_iff scheme (bytes "http"), bytes_eq_iff scheme (bytes "https"));
      no_userinfo = ground (arith, h);
      has_host = ground (arith, h);
      public = ground (arith, h);
    },
    ground (arith, h),
  )

  accepted-normalize_split :
      (scheme rest : Bytes)
      → IsAccepted allow_private scheme rest
      → normalize_split allow_private scheme rest ≡ some (written scheme rest)
  unfolding normalize_split
  accepted-normalize_split scheme rest ok = ground (
    arith,
    ok.http,
    ok.no_userinfo,
    ok.has_host,
    ok.public,
    bytes_eq_iff scheme (bytes "http"),
    bytes_eq_iff scheme (bytes "https"),
  )

  -- A URL is accepted exactly if it is split into a scheme, http or https in any case, and an
  -- authority without userinfo; what stands before the authority's first colon is not empty and,
  -- unless that is allowed, not private. What is returned is put together from these parts.
  pub normalize_target_url_iff :
      (input url : Bytes)
      → (normalize_target_url allow_private input ≡ some url) ↔ (
          (scheme : Bytes) × (rest : Bytes) × (split_url (trim input) ≡ some (scheme, rest))
          × IsAccepted allow_private (map to_lower scheme) rest
          × (url ≡ written (map to_lower scheme) rest))
  unfolding normalize_target_url
  normalize_target_url_iff input url = (
    λ h. elim (Option-cases (split_url (trim input))) [
      | inl e ↦ absurd (ground (arith, e, h))
      | inr ((scheme, rest), e) ↦
          let (ok, p) =
            normalize_split_accepts (map to_lower scheme) rest url (ground (arith, e, h)) in
          (scheme, rest, e, ok, p)
    ],
    λ (scheme, rest, e, ok, p).
        ground (arith, e, p, accepted-normalize_split (map to_lower scheme) rest ok),
  )

loopback : is_private_host (bytes "[::1]") ≡ true
unfolding is_private_host ◌=ᵇ◌ equals_any loopback_names
loopback = refl

bracket_public : is_private_host (b'[' ∷ []) ≡ false
unfolding is_private_host ◌=ᵇ◌ equals_any loopback_names find strip_brackets last_is has_prefix_of
    private_prefixes
bracket_public = refl

has_bracket :
    (s : Bytes)
    → has_byte b'@' (take_while is_authority_char (b'[' ∷ b':' ∷ s))
      ≡ has_byte b'@' (take_while is_authority_char s)
unfolding has_byte take_while is_authority_char
has_bracket s = refl

host_bracket : (s : Bytes) → host_of (b'[' ∷ b':' ∷ s) ≡ b'[' ∷ []
unfolding take_while is_authority_char
host_bracket s = refl

-- The host that is tested is cut at the first colon of the authority, so of an IPv6 address in
-- brackets that begins with a colon only the bracket is left: where private targets are not
-- allowed, an http URL for any such address without userinfo is accepted, the loopback address
-- [::1] among them.
pub normalize_split-bracket :
    (address : Bytes)
    → has_byte b'@' (take_while is_authority_char address) ≡ false
    → (is_private_host (bytes "[::1]") ≡ true)
      × (is_some (normalize_split false (bytes "http") (b'[' ∷ b':' ∷ address)) ≡ true)
unfolding normalize_split
normalize_split-bracket address h = (
  loopback,
  ground (
    arith,
    h,
    has_bracket address,
    host_bracket address,
    bracket_public,
    bytes_eq_refl (bytes "http"),
  ),
)
