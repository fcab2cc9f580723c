-- ===== src/Storage/LinkRepository/Lookups.antt =====
-- What slugs lead to in the link repository (src/storage/link_repository.cpp).
use url_shortener.Prelude.{
  ◌≡◌, inl, inr, none, some, arith, if◌then◌else◌, Option-cases, is_some, Bytes, ◌=ᵇ◌, bytes_eq_iff,
  bytes_eq_refl, lookup, lookup-insert,
}
use url_shortener.Storage.LinkRepository.Index.{
  IsConsistent, KeepsSlug, added, replaced, create_cases, update_cases,
}
use url_shortener.Core.Link.{Link}
use url_shortener.Storage.LinkRepository.{Repo, create, get_by_slug, get_by_id, slug_exists, update}

module _ (link : Link) (r : Repo) (ok : IsConsistent r) where
  by_slug_added :
      (slug : Bytes)
      → lookup link.slug r.slug_to_id ≡ none
      → lookup link.id r.by_id ≡ none
      → get_by_slug slug (added link r)
        ≡ (if link.slug =ᵇ slug then some link else get_by_slug slug r)
  unfolding get_by_slug
  by_slug_added slug s i = elim (Option-cases (lookup slug r.slug_to_id)) [
    | inl e ↦ ground (
      arith,
      e,
      lookup-insert link.slug slug link.id r.slug_to_id,
      lookup-insert link.id link.id link r.by_id,
      bytes_eq_refl link.id,
    )
    | inr (id, e) ↦
        let (l, f, _) = ok.indexed slug id e in
        ground (
          arith,
          e,
          f,
          i,
          lookup-insert link.slug slug link.id r.slug_to_id,
          lookup-insert link.id link.id link r.by_id,
          bytes_eq_refl link.id,
          lookup-insert link.id id link r.by_id,
          bytes_eq_iff link.id id,
        )
  ]

  by_slug_replaced :
      (slug : Bytes) (old : Link)
      → lookup link.id r.by_id ≡ some old
      → KeepsSlug link r
      → get_by_slug slug (replaced link r)
        ≡ (if link.slug =ᵇ slug then some link else get_by_slug slug r)
  unfolding get_by_slug
  by_slug_replaced slug old found same = elim (Option-cases (lookup slug r.slug_to_id)) [
    | inl e ↦ ground (arith, e, ok.keyed link.id old, same old, bytes_eq_iff link.slug slug)
    | inr (id, e) ↦
        let (l, f, t) = ok.indexed slug id e in
        ground (
          arith,
          e,
          f,
          t,
          ok.keyed link.id old,
          same old,
          bytes_eq_iff link.slug slug,
          lookup-insert link.id id link r.by_id,
          bytes_eq_iff link.id id,
        )
  ]

  -- A created link is what its slug then leads to, and the other slugs lead where they did.
  pub get_by_slug-create :
      (slug : Bytes)
      → get_by_slug slug (create link r).1 ≡ (
          if is_some (create link r).0
          then get_by_slug slug r
          else if link.slug =ᵇ slug
          then some link
          else get_by_slug slug r)
  get_by_slug-create slug = elim (create_cases link r) [
    | inl e ↦ rw e
    | inr (s, i, e) ↦ rw e (by_slug_added slug s i)
  ]

  -- After an update that keeps the slug, that slug leads to the new link, and the others lead where
  -- they did.
  pub get_by_slug-update :
      (slug : Bytes)
      → KeepsSlug link r
      → get_by_slug slug (update link r).1 ≡ (
          if is_some (update link r).0
          then get_by_slug slug r
          else if link.slug =ᵇ slug
          then some link
          else get_by_slug slug r)
  get_by_slug-update slug same = elim (update_cases link r) [
    | inl e ↦ rw e
    | inr (old, found, e) ↦ rw e (by_slug_replaced slug old found same)
  ]

-- A slug is taken exactly when it leads to a link.
pub slug_exists_lem :
    (slug : Bytes) (r : Repo) → IsConsistent r → slug_exists slug r ≡ is_some (get_by_slug slug r)
unfolding slug_exists get_by_slug
slug_exists_lem slug r ok = elim (Option-cases (lookup slug r.slug_to_id)) [
  | inl e ↦ ground (arith, e)
  | inr (id, e) ↦ let (l, f, _) = ok.indexed slug id e in ground (arith, e, f)
]

-- What a slug leads to has that slug, and is found under its own id too.
pub get_by_slug-eq_some :
    (slug : Bytes) (r : Repo) (l : Link)
    → IsConsistent r
    → get_by_slug slug r ≡ some l
    → (l.slug ≡ slug) × (get_by_id l.id r ≡ some l)
unfolding get_by_slug get_by_id
get_by_slug-eq_some slug r l ok h = elim (Option-cases (lookup slug r.slug_to_id)) [
  | inl e ↦ absurd (ground arith)
  | inr (id, e) ↦ let (k, f, t) = ok.indexed slug id e in ground (arith, e, f, t, ok.keyed id k)
]
