-- ===== src/Core/Slug/Laws.antt =====
-- The slug checks of src/core/utils.cpp, and the slugs that `generateSlug` makes.
use url_shortener.Prelude.{
  ℕ, zero, suc, ◌%◌, ◌≤◌, ◌<◌, ◌≡◌, refl, ap, ◌↔◌, true, false, ◌&&◌, [], ◌∷◌, map, arith, leb,
  length, all, Bytes, is_alnum, to_lower, to_lower_idem,
}
use url_shortener.Core.Slug.{
  is_slug_char, is_valid_slug, is_reserved_slug, slug_char, generate_slug,
}

slug_char-is_alnum : (i : ℕ) → i < 62 → is_alnum (slug_char i) ≡ true
unfolding slug_char
slug_char-is_alnum i h = ground arith

is_slug_char-of_alnum : (c : ℕ) → is_alnum c ≡ true → is_slug_char c ≡ true
unfolding is_slug_char
is_slug_char-of_alnum c h = rw h

pub length-generate_slug : (n : ℕ) (draws : ℕ → ℕ) → length (generate_slug n draws) ≡ n
unfolding generate_slug
length-generate_slug zero draws = refl
length-generate_slug (suc n) draws = ap suc (length-generate_slug n (λ i. draws (suc i)))

generate_slug-slug_chars : (n : ℕ) (draws : ℕ → ℕ) → all is_slug_char (generate_slug n draws) ≡ true
unfolding generate_slug
generate_slug-slug_chars zero draws = refl
generate_slug-slug_chars (suc n) draws =
    rw
      (is_slug_char-of_alnum (slug_char (draws 0 % 62))
        (slug_char-is_alnum (draws 0 % 62) (omega arith)))
      (generate_slug-slug_chars n (λ i. draws (suc i)))

-- Whatever indices are drawn, a generated slug has the length asked for, and it passes
-- `isValidSlug` exactly when that length is from 3 to 64.
pub generate_slug-is_valid_slug :
    (n : ℕ) (draws : ℕ → ℕ)
    → (length (generate_slug n draws) ≡ n)
      × (is_valid_slug (generate_slug n draws) ≡ (leb 3 n && leb n 64))
unfolding generate_slug is_valid_slug
generate_slug-is_valid_slug zero draws = (refl, refl)
generate_slug-is_valid_slug (suc n) draws =
    let rest : ℕ → ℕ = λ i. draws (suc i) in
    (
      length-generate_slug (suc n) draws,
      rw
          (
            slug_char-is_alnum (draws 0 % 62) (omega arith),
            generate_slug-slug_chars n rest,
            length-generate_slug n rest,
          )
          (ground arith),
    )

map-to_lower_idem : (s : Bytes) → map to_lower (map to_lower s) ≡ map to_lower s
map-to_lower_idem [] = refl
map-to_lower_idem (c ∷ s) = rw (to_lower_idem c, map-to_lower_idem s)

-- `isReservedSlug` does not see case.
pub is_reserved_slug-map-to_lower :
    (s : Bytes) → is_reserved_slug (map to_lower s) ≡ is_reserved_slug s
unfolding is_reserved_slug
is_reserved_slug-map-to_lower s = rw (map-to_lower_idem s)

-- What `isValidSlug` accepts: a letter or digit first, then 2 to 63 letters, digits, `_` or `-`.
pub is_valid_slug_iff :
    (c : ℕ) (s : Bytes)
    → (is_valid_slug (c ∷ s) ≡ true)
      ↔ ((is_alnum c ≡ true) × (all is_slug_char s ≡ true) × (2 ≤ length s) × (length s ≤ 63))
unfolding is_valid_slug
is_valid_slug_iff c s = ground arith

slash_not_slug_char : is_slug_char b'/' ≡ false
unfolding is_slug_char
slash_not_slug_char = refl
