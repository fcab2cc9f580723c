-- ===== src/Core/Url/Normalized.antt =====
-- The parts of a target URL and what is returned for them (src/core/utils.cpp: splitUrl,
-- normalizeTargetUrl), by the text of the URL itself.
use url_shortener.Prelude.{
  ℕ, ◌≡◌, refl, sym, ap, ◌∙◌, ◌⊎◌, inl, inr, Bool, true, false, ◌&&◌, ◌||◌, not, Option, none, some,
  [], ◌∷◌, ◌++◌, map, append_assoc, arith, ◌==◌, if◌then◌else◌, Bool-cases, is_empty, length, drop,
  all, Bytes, bytes, ◌=ᵇ◌, starts_with, to_lower,
}
use url_shortener.Core.Text.{trim, take_while, drop_while, has_byte, find_behind}
use url_shortener.Core.Url.{
  is_regex_any, is_authority_char, is_scheme_char, split_rest, split_url, is_private_host, port_of,
  written_port, normalize_target_url,
}
use url_shortener.Core.Url.Target.{all-take_while, normalize_target_url_iff}

-- A port as it stands behind a host.
abbrev pub port_text : Option Bytes → Bytes
port_text none = []
port_text (some port) = b':' ∷ port

-- The port that is kept: neither an empty one nor the one that the scheme has anyway.
abbrev pub kept_port : Bytes → Option Bytes → Option Bytes
kept_port scheme none = none
kept_port scheme (some port) =
    if is_empty port
      || ((scheme =ᵇ bytes "http") && (port =ᵇ bytes "80"))
      || ((scheme =ᵇ bytes "https") && (port =ᵇ bytes "443"))
    then none
    else some port

-- A URL that is accepted, by its parts, and what is returned for it.
pub record IsNormalized (allow_private : Bool) (input url : Bytes) : Type 0 where
  pub scheme : Bytes
  pub host : Bytes
  pub port : Option Bytes
  pub suffix : Bytes
  pub parts : trim input ≡ scheme ++ bytes "://" ++ host ++ port_text port ++ suffix
  pub http : (map to_lower scheme ≡ bytes "http") ⊎ (map to_lower scheme ≡ bytes "https")
  pub host_given : is_empty (map to_lower host) ≡ false
  pub no_colon : all (λ c. not (c == b':')) host ≡ true
  pub no_userinfo : has_byte b'@' (host ++ port_text port) ≡ false
  pub authority_whole :
      all (λ c. not ((c == b'/') || (c == b'?') || (c == b'#'))) (host ++ port_text port) ≡ true
  pub suffix_begins :
      (suffix ≡ [])
      ⊎ ((c : ℕ) × (s : Bytes) × (suffix ≡ c ∷ s)
          × (((c == b'/') || (c == b'?') || (c == b'#')) ≡ true))
  pub one_line : all (λ c. not ((c == 10) || (c == 13))) suffix ≡ true
  pub public : (not allow_private && is_private_host (map to_lower host)) ≡ false
  pub returned :
      url
      ≡ map to_lower scheme
        ++ bytes "://"
        ++ map to_lower host
        ++ port_text (kept_port (map to_lower scheme) port)
        ++ suffix

take-drop_while : (p : ℕ → Bool) (s : Bytes) → take_while p s ++ drop_while p s ≡ s
unfolding take_while drop_while
take-drop_while p [] = refl
take-drop_while p (c ∷ s) = ground (arith, take-drop_while p s)

drop_while-head :
    (p : ℕ → Bool) (s : Bytes)
    → (drop_while p s ≡ []) ⊎ ((c : ℕ) × (t : Bytes) × (drop_while p s ≡ c ∷ t) × (p c ≡ false))
unfolding drop_while
drop_while-head p [] = inl refl
drop_while-head p (c ∷ s) = elim (Bool-cases (p c)) [
  | inl q ↦ rw q (drop_while-head p s)
  | inr q ↦ rw q (inr (c, s, refl, q))
]

suffix_head :
    (rest : Bytes)
    → (drop_while is_authority_char rest ≡ [])
      ⊎ ((c : ℕ) × (s : Bytes) × (drop_while is_authority_char rest ≡ c ∷ s)
          × (((c == b'/') || (c == b'?') || (c == b'#')) ≡ true))
unfolding is_authority_char
suffix_head rest = elim (drop_while-head is_authority_char rest) [
  | inl e ↦ inl e
  | inr (c, s, e, f) ↦ inr (c, s, e, ground arith)
]

split_colon :
    (s : Bytes) → s ≡ take_while (λ c. not (c == b':')) s ++ port_text (find_behind b':' s)
unfolding take_while find_behind
split_colon [] = refl
split_colon (c ∷ s) = ground (arith, split_colon s)

behind_prefix : (p s : Bytes) → starts_with s p ≡ true → s ≡ p ++ drop (length p) s
unfolding starts_with
behind_prefix [] s h = refl
behind_prefix (p ∷ ps) [] h = absurd (ground arith)
behind_prefix (p ∷ ps) (c ∷ s) h = ground (arith, behind_prefix ps s)

split_rest-same : (s rest : Bytes) → split_rest s ≡ some rest → rest ≡ s
unfolding split_rest
split_rest-same s rest h = ground (arith, h, take-drop_while is_authority_char s)

split_url-parts :
    (s scheme rest : Bytes) → split_url s ≡ some (scheme, rest) → s ≡ scheme ++ bytes "://" ++ rest
unfolding split_url
split_url-parts [] scheme rest h = cc
split_url-parts (c ∷ s) scheme rest h =
    let behind = drop_while is_scheme_char s in
    let slashes : starts_with behind (bytes "://") ≡ true = ground arith in
    let first : scheme ≡ c ∷ take_while is_scheme_char s = ground arith in
    let last : split_rest (drop 3 behind) ≡ some rest = ground arith in
    ap (λ xs. c ∷ xs) (sym (take-drop_while is_scheme_char s))
    ∙ rw first (
        ap (λ xs. (c ∷ take_while is_scheme_char s) ++ xs)
          (behind_prefix (bytes "://") behind slashes
            ∙ ap (λ xs. bytes "://" ++ xs) (sym (split_rest-same (drop 3 behind) rest last)))
        ∙ sym (append_assoc (c ∷ take_while is_scheme_char s) (bytes "://") rest))

split_url-one_line :
    (s scheme rest : Bytes)
    → split_url s ≡ some (scheme, rest)
    → all (λ c. not ((c == 10) || (c == 13))) (drop_while is_authority_char rest) ≡ true
unfolding split_url split_rest is_regex_any
split_url-one_line [] scheme rest h = absurd (ground (arith, h))
split_url-one_line (c ∷ s) scheme rest h =
    let behind = drop 3 (drop_while is_scheme_char s) in
    let last : split_rest behind ≡ some rest = ground arith in
    let same : rest ≡ behind = split_rest-same behind rest last in ground arith

pub written_port-kept :
    (scheme : Bytes) (port : Option Bytes)
    → written_port scheme port ≡ port_text (kept_port scheme port)
unfolding written_port
written_port-kept scheme none = refl
written_port-kept scheme (some port) = ground arith

-- The parts of an accepted URL.
pub normalize_target_url_parts :
    (allow_private : Bool) (input url : Bytes)
    → normalize_target_url allow_private input ≡ some url
    → IsNormalized allow_private input url
unfolding is_authority_char port_of
normalize_target_url_parts allow_private input url h =
    let (scheme, rest, split, ok, result) =
      (normalize_target_url_iff allow_private input url).0 h in
    let authority = take_while is_authority_char rest in
    let host = take_while (λ c. not (c == b':')) authority in
    let port = port_of authority in
    let suffix = drop_while is_authority_char rest in
    let halves : authority ≡ host ++ port_text port = split_colon authority in
    record {
      scheme = scheme;
      host = host;
      port = port;
      suffix = suffix;
      parts =
          split_url-parts (trim input) scheme rest split
          ∙ ap (λ (a : Bytes). scheme ++ bytes "://" ++ a)
              (sym (take-drop_while is_authority_char rest)
                ∙ ap (λ (a : Bytes). a ++ suffix) halves)
          ∙ sym (append_assoc (scheme ++ bytes "://") (host ++ port_text port) suffix)
          ∙ ap (λ (a : Bytes). a ++ suffix)
              (sym (append_assoc (scheme ++ bytes "://") host (port_text port)));
      http = ok.http;
      host_given = ok.has_host;
      no_colon = all-take_while (λ c. not (c == b':')) authority;
      no_userinfo = ap (has_byte b'@') (sym halves) ∙ ok.no_userinfo;
      authority_whole =
          ap (all is_authority_char) (sym halves) ∙ all-take_while is_authority_char rest;
      suffix_begins = suffix_head rest;
      one_line = split_url-one_line (trim input) scheme rest split;
      public = ok.public;
      returned =
          result
          ∙ ap
              (λ (w : Bytes).
                map to_lower scheme ++ bytes "://" ++ map to_lower host ++ w ++ suffix)
              (written_port-kept (map to_lower scheme) port);
    }
