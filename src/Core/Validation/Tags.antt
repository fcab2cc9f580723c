-- ===== src/Core/Validation/Tags.antt =====
-- What `validateTags` (src/core/utils.cpp) accepts, and what it makes of the list.
use url_shortener.Prelude.{
  ◌≤◌, ◌≡◌, refl, ap, inl, inr, true, false, ◌&&◌, ◌||◌, some, List, [], ◌∷◌, map, arith, leb,
  Bool-cases, Option-cases, is_some, length, all, All, Bytes, ◌=ᵇ◌, bytes_eq_iff,
}
use url_shortener.Core.Text.{trim}
use url_shortener.Core.Text.Laws.{IsTrimmed, trim-of_IsTrimmed, trim-IsTrimmed}
use url_shortener.Core.Slug.{contains}
use url_shortener.Core.Validation.{is_tag, normalize_tags, validate_tags}

-- No tag stands twice.
abbrev pub IsDistinct : List Bytes → Type 0
IsDistinct [] = Unit
IsDistinct (t ∷ ts) = (contains ts t ≡ false) × IsDistinct ts

-- No tag of the list is among the others.
abbrev Avoids : List Bytes → List Bytes → Type 0
Avoids seen [] = Unit
Avoids seen (t ∷ ts) = (contains seen t ≡ false) × Avoids seen ts

Avoids-tail : (x : Bytes) (seen ts : List Bytes) → Avoids (x ∷ seen) ts → Avoids seen ts
unfolding contains
Avoids-tail x seen [] h = tt
Avoids-tail x seen (t ∷ ts) (h, k) = (ground arith, Avoids-tail x seen ts k)

Avoids-head : (x : Bytes) (seen ts : List Bytes) → Avoids (x ∷ seen) ts → contains ts x ≡ false
unfolding contains
Avoids-head x seen [] h = refl
Avoids-head x seen (t ∷ ts) (h, k) =
    ground (arith, Avoids-head x seen ts k, bytes_eq_iff x t, bytes_eq_iff t x)

-- The result of the loop: tags that pass the tests, distinct, none of them seen before.
record IsNormal (seen ts : List Bytes) : Type 0 where
  good : All (λ t. (is_tag t ≡ true) × IsTrimmed t) ts
  distinct : IsDistinct ts
  fresh : Avoids seen ts

IsNormal-cons :
    (seen : List Bytes) (tag : Bytes) {ts : List Bytes}
    → is_tag tag ≡ true
    → IsTrimmed tag
    → contains seen tag ≡ false
    → IsNormal (tag ∷ seen) ts
    → IsNormal seen (tag ∷ ts)
IsNormal-cons seen tag {ts} g t c n = record {
  good = ((g, t), n.good);
  distinct = (Avoids-head tag seen ts n.fresh, n.distinct);
  fresh = (c, Avoids-tail tag seen ts n.fresh);
}

-- What one round of the loop says of a list that it returns.
data Round (seen : List Bytes) (tag : Bytes) (raw ts : List Bytes) : Type 0 where
  again : contains seen tag ≡ true → normalize_tags seen raw ≡ some ts → Round seen tag raw ts
  kept :
      (us : List Bytes)
      → contains seen tag ≡ false
      → normalize_tags (tag ∷ seen) raw ≡ some us
      → ts ≡ tag ∷ us
      → Round seen tag raw ts

round :
    (seen : List Bytes) (r : Bytes) (raw ts : List Bytes)
    → normalize_tags seen (r ∷ raw) ≡ some ts
    → (is_tag (trim r) ≡ true) × Round seen (trim r) raw ts
unfolding normalize_tags
round seen r raw ts h = elim (Bool-cases (is_tag (trim r))) [
  | inr g ↦ absurd (ground arith)
  | inl g ↦ (
    g,
    elim (Bool-cases (contains seen (trim r))) [
      | inl rep ↦ again rep (ground arith)
      | inr new ↦ elim (Option-cases (normalize_tags (trim r ∷ seen) raw)) [
        | inl e ↦ absurd (ground arith)
        | inr (us, e) ↦ kept us new e (ground arith)
      ]
    ],
  )
]

normalize_tags-nil : (seen ts : List Bytes) → normalize_tags seen [] ≡ some ts → ts ≡ []
unfolding normalize_tags
normalize_tags-nil seen ts h = ground arith

normalize_tags-IsNormal :
    (raw seen ts : List Bytes) → normalize_tags seen raw ≡ some ts → IsNormal seen ts
normalize_tags-IsNormal [] seen ts h =
    rw (normalize_tags-nil seen ts h) (record { good = tt; distinct = tt; fresh = tt })
normalize_tags-IsNormal (r ∷ raw) seen ts h =
    let (g, step) = round seen r raw ts h in
    elim step [
      | again rep e ↦ normalize_tags-IsNormal raw seen ts e
      | kept us new e p ↦ rw p (
          IsNormal-cons seen (trim r) g (trim-IsTrimmed r) new
            (normalize_tags-IsNormal raw (trim r ∷ seen) us e))
    ]

length-normalize_tags :
    (raw seen ts : List Bytes) → normalize_tags seen raw ≡ some ts → length ts ≤ length raw
length-normalize_tags [] seen ts h = omega (arith, ap length (normalize_tags-nil seen ts h))
length-normalize_tags (r ∷ raw) seen ts h = elim (round seen r raw ts h).1 [
  | again rep e ↦ omega (arith, length-normalize_tags raw seen ts e)
  | kept us new e p ↦ omega (arith, ap length p, length-normalize_tags raw (trim r ∷ seen) us e)
]

contains-of_eq : (xs : List Bytes) (s t : Bytes) → (s =ᵇ t) ≡ true → contains xs s ≡ contains xs t
contains-of_eq xs s t h = ap (contains xs) ((bytes_eq_iff s t).0 h)

-- The tags seen and returned are the tags seen and read.
contains-normalize_tags :
    (raw seen ts : List Bytes) (x : Bytes)
    → normalize_tags seen raw ≡ some ts
    → (contains seen x || contains ts x) ≡ (contains seen x || contains (map trim raw) x)
unfolding contains
contains-normalize_tags [] seen ts x h = rw (normalize_tags-nil seen ts h)
contains-normalize_tags (r ∷ raw) seen ts x h = elim (round seen r raw ts h).1 [
  | again rep e ↦
      ground (arith, contains-normalize_tags raw seen ts x e, contains-of_eq seen (trim r) x)
  | kept us new e p ↦ rw p (ground (arith, contains-normalize_tags raw (trim r ∷ seen) us x e))
]

Avoids-cons :
    (x : Bytes) (seen ts : List Bytes)
    → contains ts x ≡ false
    → Avoids seen ts
    → Avoids (x ∷ seen) ts
unfolding contains
Avoids-cons x seen [] c h = tt
Avoids-cons x seen (t ∷ ts) c (h, k) =
    (ground (arith, bytes_eq_iff x t, bytes_eq_iff t x), Avoids-cons x seen ts (ground arith) k)

-- The loop returns a normal list as it is.
normalize_tags-of_normal :
    (seen ts : List Bytes)
    → All (λ t. (is_tag t ≡ true) × IsTrimmed t) ts
    → IsDistinct ts
    → Avoids seen ts
    → normalize_tags seen ts ≡ some ts
unfolding normalize_tags
normalize_tags-of_normal seen [] g d f = refl
normalize_tags-of_normal seen (t ∷ ts) ((g, i), gs) (d, ds) (f, fs) = simp (
  trim-of_IsTrimmed t i,
  g,
  f,
  normalize_tags-of_normal (t ∷ seen) ts gs ds (Avoids-cons t seen ts d fs),
)

Avoids-nil : (ts : List Bytes) → Avoids [] ts
unfolding contains
Avoids-nil [] = tt
Avoids-nil (t ∷ ts) = (refl, Avoids-nil ts)

is_some-normalize_tags :
    (raw seen : List Bytes) → is_some (normalize_tags seen raw) ≡ all (λ r. is_tag (trim r)) raw
unfolding normalize_tags
is_some-normalize_tags [] seen = refl
is_some-normalize_tags (r ∷ raw) seen =
    ground (arith, is_some-normalize_tags raw seen, is_some-normalize_tags raw (trim r ∷ seen))

-- `validateTags` succeeds exactly on lists of at most 20 tags each of which, trimmed, is not
-- empty, has at most 32 bytes, and holds letters, digits, `:`, `-` and `_` only.
pub validate_tags_accepts :
    (raw : List Bytes)
    → is_some (validate_tags raw) ≡ (leb (length raw) 20 && all (λ r. is_tag (trim r)) raw)
unfolding validate_tags
validate_tags_accepts raw = ground (arith, is_some-normalize_tags raw [])

-- A list that `validateTags` returns has at most 20 tags, each within the limits and trimmed, no
-- tag twice, and the tags of the input up to trimming; validating it again changes nothing.
pub validate_tags_lem :
    (raw ts : List Bytes)
    → validate_tags raw ≡ some ts
    → (length ts ≤ 20)
      × All (λ t. (is_tag t ≡ true) × IsTrimmed t) ts
      × IsDistinct ts
      × ((x : Bytes) → contains ts x ≡ contains (map trim raw) x)
      × (validate_tags ts ≡ some ts)
unfolding validate_tags contains
validate_tags_lem raw ts h =
    let e : normalize_tags [] raw ≡ some ts = ground arith in
    let short : length ts ≤ 20 = ground (arith, length-normalize_tags raw [] ts e) in
    let n = normalize_tags-IsNormal raw [] ts e in
    (
      short,
      n.good,
      n.distinct,
      (λ x. contains-normalize_tags raw [] ts x e),
      ground (arith, normalize_tags-of_normal [] ts n.good n.distinct (Avoids-nil ts)),
    )
