-- ===== src/Analytics/Sanitizer/Laws.antt =====
-- What a sanitized header value (src/analytics/click_event_sanitizer.cpp) can hold.
use url_shortener.Prelude.{
  ℕ, zero, suc, ◌≤◌, ◌≡◌, refl, inl, inr, Bool, true, false, ◌&&◌, [], ◌∷◌, arith, ltb,
  if◌then◌else◌, Bool-cases, length, take, is_empty, all, filter, length-take, Bytes, is_space,
}
use url_shortener.Analytics.Sanitizer.{is_printable, skip_space, cut_space, sanitize_common}

all-filter : (p : ℕ → Bool) (s : Bytes) → all p (filter p s) ≡ true
all-filter p [] = refl
all-filter p (c ∷ s) = ground (arith, all-filter p s)

all-skip_space : (p : ℕ → Bool) (s : Bytes) → all p s ≡ true → all p (skip_space s) ≡ true
unfolding skip_space
all-skip_space p [] h = refl
all-skip_space p (c ∷ s) h = ground (arith, all-skip_space p s)

all-cut_space : (p : ℕ → Bool) (s : Bytes) → all p s ≡ true → all p (cut_space s) ≡ true
unfolding cut_space
all-cut_space p [] h = refl
all-cut_space p (c ∷ s) h = ground (arith, all-cut_space p s)

all-take : (p : ℕ → Bool) (n : ℕ) (s : Bytes) → all p s ≡ true → all p (take n s) ≡ true
all-take p zero s h = refl
all-take p (suc n) [] h = refl
all-take p (suc n) (c ∷ s) h = ground (arith, all-take p n s)

-- The first byte, if there is one, is no space.
abbrev pub StartsSolid : Bytes → Type 0
StartsSolid [] = Unit
StartsSolid (c ∷ s) = is_space c ≡ false

skip_space-StartsSolid : (s : Bytes) → StartsSolid (skip_space s)
unfolding skip_space
skip_space-StartsSolid [] = tt
skip_space-StartsSolid (c ∷ s) = elim (Bool-cases (is_space c)) [
  | inl b ↦ rw b (skip_space-StartsSolid s)
  | inr b ↦ rw b b
]

cut_space-StartsSolid : (s : Bytes) → StartsSolid s → StartsSolid (cut_space s)
unfolding cut_space
cut_space-StartsSolid [] h = tt
cut_space-StartsSolid (c ∷ s) h = step (cut_space s)
  where
    step : (r : Bytes) → StartsSolid (if is_empty r && is_space c then [] else c ∷ r)
    step [] = rw h h
    step (d ∷ r) = h

take-StartsSolid : (n : ℕ) (s : Bytes) → StartsSolid s → StartsSolid (take n s)
take-StartsSolid zero s h = tt
take-StartsSolid (suc n) [] h = tt
take-StartsSolid (suc n) (c ∷ s) h = h

-- A sanitized value has at most the given number of bytes, no control character and no space in
-- front.
pub sanitize_common_lem :
    (input : Bytes) (max_bytes : ℕ)
    → (length (sanitize_common input max_bytes) ≤ max_bytes)
      × (all is_printable (sanitize_common input max_bytes) ≡ true)
      × StartsSolid (sanitize_common input max_bytes)
unfolding sanitize_common
sanitize_common_lem input max_bytes =
    let s = skip_space (filter is_printable input) in
    let t = cut_space s in
    let clean : all is_printable t ≡ true =
      all-cut_space is_printable s
        (all-skip_space is_printable (filter is_printable input) (all-filter is_printable input)) in
    let solid = cut_space-StartsSolid s (skip_space-StartsSolid (filter is_printable input)) in
    elim (Bool-cases (ltb max_bytes (length t))) [
      | inl h ↦ rw h (
        omega (arith, length-take max_bytes t),
        all-take is_printable max_bytes t clean,
        take-StartsSolid max_bytes t solid,
      )
      | inr h ↦ rw h (ground arith, clean, solid)
    ]
