-- ===== src/Core/Url/Accepted.antt =====
-- The URLs that are accepted (src/core/utils.cpp: splitUrl, normalizeTargetUrl), from their parts.
use url_shortener.Prelude.{
  ℕ, ◌≡◌, ◌↔◌, refl, sym, ap, ◌∙◌, ◌⊎◌, inl, inr, Bool, true, false, ◌&&◌, ◌||◌, not, Option, none,
  some, [], ◌∷◌, ◌++◌, map, append_assoc, arith, ◌==◌, is_empty, all, Bytes, bytes, starts_with,
  is_alpha, to_lower, and-true_left, and-true_right,
}
use url_shortener.Core.Text.{trim, take_while, drop_while, has_byte, find_behind}
use url_shortener.Core.Url.{
  is_private_host, normalize_target_url, is_authority_char, is_scheme_char, is_regex_any,
  split_rest, split_url, port_of, written_port,
}
use url_shortener.Core.Url.Target.{host_of, normalize_target_url_iff}
use url_shortener.Core.Url.Normalized.{
  port_text, IsNormalized, written_port-kept, normalize_target_url_parts,
}

abbrev Stops : (ℕ → Bool) → Bytes → Type 0
Stops p s = (s ≡ []) ⊎ ((c : ℕ) × (t : Bytes) × (s ≡ c ∷ t) × (p c ≡ false))

take_while-append :
    (p : ℕ → Bool) (s t : Bytes)
    → all p s ≡ true
    → Stops p t
    → (take_while p (s ++ t) ≡ s) × (drop_while p (s ++ t) ≡ t)
unfolding take_while drop_while
take_while-append p [] t h (inl e) = rw e (refl, refl)
take_while-append p [] t h (inr (c, u, e, f)) = rw e (rw f (refl, refl))
take_while-append p (c ∷ s) t h stops =
    let (a, b) = take_while-append p s t (ground (arith, h)) stops in
    (ground (arith, h, a), ground (arith, h, b))

all_alpha : (s : Bytes) → all is_alpha (map to_lower s) ≡ true → all is_alpha s ≡ true
all_alpha [] h = refl
all_alpha (c ∷ s) h = ground (arith, h, all_alpha s)

scheme_chars : (s : Bytes) → all is_alpha s ≡ true → all is_scheme_char s ≡ true
unfolding is_scheme_char
scheme_chars [] h = refl
scheme_chars (c ∷ s) h = ground (arith, h, scheme_chars s)

http-all_alpha :
    (s : Bytes)
    → (map to_lower s ≡ bytes "http") ⊎ (map to_lower s ≡ bytes "https")
    → all is_alpha (map to_lower s) ≡ true
http-all_alpha s (inl e) = rw e refl
http-all_alpha s (inr e) = rw e refl

colon : is_scheme_char b':' ≡ false
unfolding is_scheme_char
colon = refl

split_url-cons :
    (c : ℕ) (s t rest : Bytes)
    → is_alpha c ≡ true
    → take_while is_scheme_char t ≡ s
    → drop_while is_scheme_char t ≡ bytes "://" ++ rest
    → split_rest rest ≡ some rest
    → split_url (c ∷ t) ≡ some (c ∷ s, rest)
unfolding split_url starts_with
split_url-cons c s t rest h a b r = rw h (rw b (rw r (rw a refl)))

split_url-put :
    (scheme rest : Bytes)
    → all is_alpha scheme ≡ true
    → is_empty scheme ≡ false
    → split_rest rest ≡ some rest
    → split_url (scheme ++ (bytes "://" ++ rest)) ≡ some (scheme, rest)
split_url-put [] rest h g r = absurd (ground (arith, g))
split_url-put (c ∷ s) rest h g r =
    let (a, b) =
      take_while-append is_scheme_char s (bytes "://" ++ rest)
        (scheme_chars s (and-true_right (is_alpha c) (all is_alpha s) h))
        (inr (b':', bytes "//" ++ rest, refl, colon)) in
    split_url-cons c s (s ++ (bytes "://" ++ rest)) rest
      (and-true_left (is_alpha c) (all is_alpha s) h) a b r

port_text-Stops : (port : Option Bytes) → Stops (λ c. not (c == b':')) (port_text port)
port_text-Stops none = inl refl
port_text-Stops (some port) = inr (b':', port, refl, refl)

find_behind-host :
    (host : Bytes) (port : Option Bytes)
    → all (λ c. not (c == b':')) host ≡ true
    → find_behind b':' (host ++ port_text port) ≡ port
unfolding find_behind
find_behind-host [] none h = refl
find_behind-host [] (some port) h = refl
find_behind-host (c ∷ s) port h = ground (arith, h, find_behind-host s port)

split_rest-put :
    (authority suffix : Bytes)
    → take_while is_authority_char (authority ++ suffix) ≡ authority
    → drop_while is_authority_char (authority ++ suffix) ≡ suffix
    → is_empty authority ≡ false
    → all (λ c. not ((c == 10) || (c == 13))) suffix ≡ true
    → split_rest (authority ++ suffix) ≡ some (authority ++ suffix)
unfolding split_rest is_regex_any
split_rest-put authority suffix a b g h = rw (a, b) (ground (arith, g, h))

not_empty-append : (s t : Bytes) → is_empty (map to_lower s) ≡ false → is_empty (s ++ t) ≡ false
not_empty-append [] t h = absurd (ground (arith, h))
not_empty-append (c ∷ s) t h = refl

http-not_empty :
    (s : Bytes)
    → (map to_lower s ≡ bytes "http") ⊎ (map to_lower s ≡ bytes "https")
    → is_empty s ≡ false
http-not_empty [] (inl e) = absurd (ground (arith, e))
http-not_empty [] (inr e) = absurd (ground (arith, e))
http-not_empty (c ∷ s) h = refl

suffix-Stops :
    (suffix : Bytes)
    → (suffix ≡ [])
      ⊎ ((c : ℕ) × (s : Bytes) × (suffix ≡ c ∷ s)
          × (((c == b'/') || (c == b'?') || (c == b'#')) ≡ true))
    → Stops is_authority_char suffix
unfolding is_authority_char
suffix-Stops suffix (inl e) = inl e
suffix-Stops suffix (inr (c, s, e, f)) = inr (c, s, e, rw f refl)

abbrev written_with : Bytes → Bytes → Option Bytes → Bytes → Bytes
written_with scheme rest port suffix =
    scheme ++ bytes "://" ++ host_of rest ++ written_port scheme port ++ suffix

normalize_target_url_accepts :
    (allow_private : Bool) (input url : Bytes)
    → IsNormalized allow_private input url
    → normalize_target_url allow_private input ≡ some url
unfolding is_authority_char port_of
normalize_target_url_accepts allow_private input url n =
    let authority = n.host ++ port_text n.port in
    let rest = authority ++ n.suffix in
    let (a, b) =
      take_while-append is_authority_char authority n.suffix n.authority_whole
        (suffix-Stops n.suffix n.suffix_begins) in
    let (host, _) =
      take_while-append (λ c. not (c == b':')) n.host (port_text n.port) n.no_colon
        (port_text-Stops n.port) in
    let whole : split_rest rest ≡ some rest =
      split_rest-put authority n.suffix a b
        (not_empty-append n.host (port_text n.port) n.host_given) n.one_line in
    let alpha = all_alpha n.scheme (http-all_alpha n.scheme n.http) in
    let same : trim input ≡ n.scheme ++ (bytes "://" ++ rest) =
      n.parts
      ∙ ap (λ (x : Bytes). x ++ n.suffix)
          (append_assoc (n.scheme ++ bytes "://") n.host (port_text n.port))
      ∙ append_assoc (n.scheme ++ bytes "://") authority n.suffix
      ∙ append_assoc n.scheme (bytes "://") rest in
    let host_same : take_while (λ c. not (c == b':')) (take_while is_authority_char rest) ≡ n.host =
      ap (take_while (λ c. not (c == b':'))) a ∙ host in
    let port_same : port_of (take_while is_authority_char rest) ≡ n.port =
      ap (find_behind b':') a ∙ find_behind-host n.host n.port n.no_colon in
    (normalize_target_url_iff allow_private input url).1 (
      n.scheme,
      rest,
      ap split_url same ∙ split_url-put n.scheme rest alpha (http-not_empty n.scheme n.http) whole,
      record {
        http = n.http;
        no_userinfo = ap (has_byte b'@') a ∙ n.no_userinfo;
        has_host = ap (λ (h : Bytes). is_empty (map to_lower h)) host_same ∙ n.host_given;
        public =
            ap (λ (h : Bytes). not allow_private && is_private_host (map to_lower h)) host_same
            ∙ n.public;
      },
      n.returned
          ∙ ap
              (λ (w : Bytes).
                map to_lower n.scheme ++ bytes "://" ++ map to_lower n.host ++ w ++ n.suffix)
              (sym (written_port-kept (map to_lower n.scheme) n.port))
          ∙ ap
              (λ (h : Bytes).
                map to_lower n.scheme
                ++ bytes "://"
                ++ map to_lower h
                ++ written_port (map to_lower n.scheme) n.port
                ++ n.suffix)
              (sym host_same)
          ∙ ap (λ (p : Option Bytes). written_with (map to_lower n.scheme) rest p n.suffix)
              (sym port_same)
          ∙ ap
              (λ (t : Bytes).
                written_with (map to_lower n.scheme) rest
                  (port_of (take_while is_authority_char rest)) t)
              (sym b),
    )

-- A URL is accepted, and `url` is returned for it, exactly if, trimmed, it is a scheme, http or
-- https in any case, "://", a host, a port or none, and a suffix without a line break that is empty
-- or begins with one of "/?#"; host and port hold none of these and no "@", the host is not empty
-- and holds no colon, and unless private targets are allowed it is not one of those that
-- `isPrivateHost` knows (so of an address in brackets the host is what stands before its first
-- colon); and `url` has scheme and host in lower case, the suffix as it was, and the port unless it
-- is empty, 80 for http, or 443 for https.
pub normalize_target_url-IsNormalized :
    (allow_private : Bool) (input url : Bytes)
    → (normalize_target_url allow_private input ≡ some url) ↔ IsNormalized allow_private input url
normalize_target_url-IsNormalized allow_private input url = (
  normalize_target_url_parts allow_private input url,
  normalize_target_url_accepts allow_private input url,
)
