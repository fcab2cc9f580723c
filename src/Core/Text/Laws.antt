-- ===== src/Core/Text/Laws.antt =====
-- What `trim` and `clampString` keep of their input (src/core/utils.cpp).
use Prim.Native.Nat.{min}
use url_shortener.Prelude.{
  ℕ, ◌≡◌, refl, sym, ap, ◌∙◌, inl, inr, true, false, ◌&&◌, [], ◌∷◌, ◌++◌, append-nil, append_assoc,
  arith, leb, if◌then◌else◌, leb→le, Bool-cases, length, drop, is_empty, all, take-append-drop,
  length-take, Bytes,
}
use url_shortener.Core.Text.{is_blank, strip_left, strip_right, trim, clamp_string}

-- No blank at the front.
abbrev pub HeadIsSolid : Bytes → Type 0
HeadIsSolid [] = Unit
HeadIsSolid (c ∷ s) = is_blank c ≡ false

-- No blank at the back.
abbrev pub LastIsSolid : Bytes → Type 0
LastIsSolid [] = Unit
LastIsSolid (c ∷ []) = is_blank c ≡ false
LastIsSolid (c ∷ d ∷ s) = LastIsSolid (d ∷ s)

abbrev pub IsTrimmed : Bytes → Type 0
IsTrimmed s = HeadIsSolid s × LastIsSolid s

strip_left-HeadIsSolid : (s : Bytes) → HeadIsSolid (strip_left s)
unfolding strip_left
strip_left-HeadIsSolid [] = tt
strip_left-HeadIsSolid (c ∷ s) = elim (Bool-cases (is_blank c)) [
  | inl b ↦ rw b (strip_left-HeadIsSolid s)
  | inr b ↦ rw b b
]

strip_right-LastIsSolid : (s : Bytes) → LastIsSolid (strip_right s)
unfolding strip_right
strip_right-LastIsSolid [] = tt
strip_right-LastIsSolid (c ∷ s) = step c (strip_right s) (strip_right-LastIsSolid s)
  where
    step :
        (c : ℕ) (r : Bytes)
        → LastIsSolid r
        → LastIsSolid (if is_empty r && is_blank c then [] else c ∷ r)
    step c [] h = elim (Bool-cases (is_blank c)) [ inl b ↦ rw b tt | inr b ↦ rw b b ]
    step c (d ∷ r) h = h

strip_right-HeadIsSolid : (s : Bytes) → HeadIsSolid s → HeadIsSolid (strip_right s)
unfolding strip_right
strip_right-HeadIsSolid [] h = tt
strip_right-HeadIsSolid (c ∷ s) h = step (strip_right s)
  where
    step : (r : Bytes) → HeadIsSolid (if is_empty r && is_blank c then [] else c ∷ r)
    step [] = rw h h
    step (d ∷ r) = h

pub trim-IsTrimmed : (s : Bytes) → IsTrimmed (trim s)
unfolding trim
trim-IsTrimmed s = (
  strip_right-HeadIsSolid (strip_left s) (strip_left-HeadIsSolid s),
  strip_right-LastIsSolid (strip_left s),
)

strip_left-of_solid : (s : Bytes) → HeadIsSolid s → strip_left s ≡ s
unfolding strip_left
strip_left-of_solid [] h = refl
strip_left-of_solid (c ∷ s) h = rw h

strip_right-of_solid : (s : Bytes) → LastIsSolid s → strip_right s ≡ s
unfolding strip_right
strip_right-of_solid [] h = refl
strip_right-of_solid (c ∷ []) h = rw h
strip_right-of_solid (c ∷ d ∷ s) h = rw (strip_right-of_solid (d ∷ s) h)

pub trim-of_IsTrimmed : (s : Bytes) → IsTrimmed s → trim s ≡ s
unfolding trim
trim-of_IsTrimmed s (h, l) = rw (strip_left-of_solid s h) (strip_right-of_solid s l)

strip_left-suffix :
    (s : Bytes) → (pre : Bytes) × (all is_blank pre ≡ true) × (s ≡ pre ++ strip_left s)
unfolding strip_left
strip_left-suffix [] = ([], refl, refl)
strip_left-suffix (c ∷ s) = elim (Bool-cases (is_blank c)) [
  | inl b ↦ let ih = strip_left-suffix s in (c ∷ ih.0, rw b ih.1, rw b (ap (λ t. c ∷ t) ih.2))
  | inr b ↦ ([], refl, rw b)
]

strip_right-prefix :
    (s : Bytes) → (post : Bytes) × (all is_blank post ≡ true) × (s ≡ strip_right s ++ post)
unfolding strip_right
strip_right-prefix [] = ([], refl, refl)
strip_right-prefix (c ∷ s) = step (strip_right s) (strip_right-prefix s)
  where
    step :
        (r : Bytes)
        → (post : Bytes) × (all is_blank post ≡ true) × (s ≡ r ++ post)
        → (post : Bytes) × (all is_blank post ≡ true)
          × (c ∷ s ≡ (if is_empty r && is_blank c then [] else c ∷ r) ++ post)
    step [] (post, b, e) = elim (Bool-cases (is_blank c)) [
      | inl k ↦ (c ∷ post, rw k b, rw k (ap (λ t. c ∷ t) e))
      | inr k ↦ (post, b, rw k (ap (λ t. c ∷ t) e))
    ]
    step (d ∷ r) (post, b, e) = (post, b, ap (λ t. c ∷ t) e)

-- `trim` cuts a run of blanks at each end and nothing else: the input is blanks, the result,
-- blanks; the result begins and ends with no blank; and trimming it again changes nothing.
pub trim_lem :
    (s : Bytes)
    → (pre : Bytes) × (post : Bytes) × (s ≡ pre ++ trim s ++ post)
      × (all is_blank pre ≡ true)
      × (all is_blank post ≡ true)
      × IsTrimmed (trim s)
      × (trim (trim s) ≡ trim s)
unfolding trim
trim_lem s =
    let l = strip_left-suffix s in
    let r = strip_right-prefix (strip_left s) in
    (
      l.0,
      r.0,
      l.2 ∙ ap (λ t. l.0 ++ t) r.2 ∙ sym (append_assoc l.0 (trim s) r.0),
      l.1,
      r.1,
      trim-IsTrimmed s,
      trim-of_IsTrimmed (trim s) (trim-IsTrimmed s),
    )

pub length-clamp_string : (s : Bytes) (n : ℕ) → length (clamp_string s n) ≡ min n (length s)
unfolding clamp_string
length-clamp_string s n = elim (Bool-cases (leb (length s) n)) [
  | inl h ↦ rw h (omega (arith, leb→le (length s) n h))
  | inr h ↦ rw h (length-take n s)
]

-- `clampString` returns a prefix of its input, of the smaller of the two lengths.
pub clamp_string-prefix :
    (s : Bytes) (n : ℕ)
    → (rest : Bytes) × (clamp_string s n ++ rest ≡ s)
      × (length (clamp_string s n) ≡ min n (length s))
unfolding clamp_string
clamp_string-prefix s n = elim (Bool-cases (leb (length s) n)) [
  | inl h ↦ ([], rw h (append-nil s), length-clamp_string s n)
  | inr h ↦ (drop n s, rw h (take-append-drop n s), length-clamp_string s n)
]
