-- ===== src/Core/Slug.antt =====
-- src/core/utils.cpp: generateSlug, isValidSlug, isReservedSlug.
pub mod Laws
use url_shortener.Prelude.{
  ℕ, zero, suc, ◌+◌, ◌%◌, Bool, false, ◌&&◌, ◌||◌, List, [], ◌∷◌, map, ltb, leb, ◌==◌,
  if◌then◌else◌, length, all, Bytes, bytes, ◌=ᵇ◌, is_alnum, to_lower,
}

-- [A-Za-z0-9_-]
unfoldable pub is_slug_char : ℕ → Bool
is_slug_char c = is_alnum c || (c == b'_') || (c == b'-')

-- The regular expression ^[A-Za-z0-9][A-Za-z0-9_-]{2,63}$.
unfoldable pub is_valid_slug : Bytes → Bool
unfolding is_slug_char
is_valid_slug [] = false
is_valid_slug (c ∷ s) = is_alnum c && all is_slug_char s && leb 2 (length s) && leb (length s) 63

unfoldable pub reserved_slugs : List Bytes
reserved_slugs =
    bytes "api"
    ∷ bytes "health"
    ∷ bytes "metrics"
    ∷ bytes "admin"
    ∷ bytes "login"
    ∷ bytes "logout"
    ∷ bytes "r"
    ∷ bytes "preview"
    ∷ bytes "stats"
    ∷ []

unfoldable pub contains : List Bytes → Bytes → Bool
contains [] s = false
contains (x ∷ xs) s = (x =ᵇ s) || contains xs s

unfoldable pub is_reserved_slug : Bytes → Bool
unfolding reserved_slugs contains ◌=ᵇ◌
is_reserved_slug slug = contains reserved_slugs (map to_lower slug)

-- The character of the alphabet "0-9A-Za-z" at an index below 62.
unfoldable pub slug_char : ℕ → ℕ
slug_char i = if ltb i 10 then i + 48 else if ltb i 36 then i + 55 else i + 61

-- The loop of `generateSlug`; `draws` are the indices that the distribution returns, one each round.
unfoldable pub generate_slug : ℕ → (ℕ → ℕ) → Bytes
unfolding slug_char
generate_slug zero draws = []
generate_slug (suc n) draws = slug_char (draws 0 % 62) ∷ generate_slug n (λ i. draws (suc i))
