-- ===== src/Storage/LinkRepository/Index.antt =====
-- The two indexes of the link repository (src/storage/link_repository.cpp).
use url_shortener.Prelude.{
  ◌≡◌, sym, ◌∙◌, ◌⊎◌, inl, inr, none, some, [], arith, Bool-cases, Option-cases, Bytes, ◌=ᵇ◌,
  bytes_eq_iff, lookup, insert, lookup-insert,
}
use url_shortener.Core.Link.{Link}
use url_shortener.Storage.LinkRepository.{Repo, already_exists, not_found, create, update}

-- A slug leads to a link with that slug, and a link is found under its own id and slug.
pub record IsConsistent (r : Repo) : Type 0 where
  pub indexed :
      (slug id : Bytes)
      → lookup slug r.slug_to_id ≡ some id
      → (l : Link) × (lookup id r.by_id ≡ some l) × (l.slug ≡ slug)
  pub keyed :
      (id : Bytes) (l : Link)
      → lookup id r.by_id ≡ some l
      → (l.id ≡ id) × (lookup l.slug r.slug_to_id ≡ some id)

abbrev pub empty_repo : Repo
empty_repo = record { by_id = []; slug_to_id = [] }

pub empty_repo-IsConsistent : IsConsistent empty_repo
unfolding lookup
empty_repo-IsConsistent = record {
  indexed = λ slug id e. absurd (ground arith);
  keyed = λ id l e. (ground arith, ground arith);
}

-- A link of the repository keeps its slug in an update.
abbrev pub KeepsSlug : Link → Repo → Type 0
KeepsSlug link r = (old : Link) → lookup link.id r.by_id ≡ some old → old.slug ≡ link.slug

module _ (link : Link) (r : Repo) where
  -- The two indexes after a link is put in.
  abbrev pub added : Repo
  added = record r {
    by_id = insert link.id link r.by_id;
    slug_to_id = insert link.slug link.id r.slug_to_id;
  }

  abbrev pub replaced : Repo
  replaced = record r { by_id = insert link.id link r.by_id }

  -- The two ways that `create` and `update` go.
  pub create_cases :
      (create link r ≡ (some already_exists, r))
      ⊎ ((lookup link.slug r.slug_to_id ≡ none)
          × (lookup link.id r.by_id ≡ none)
          × (create link r ≡ (none, added)))
  unfolding create
  create_cases = ground arith

  pub update_cases :
      (update link r ≡ (some not_found, r))
      ⊎ ((old : Link) × (lookup link.id r.by_id ≡ some old) × (update link r ≡ (none, replaced)))
  unfolding update
  update_cases = elim (Option-cases (lookup link.id r.by_id)) [
    | inl e ↦ inl (rw e)
    | inr (old, e) ↦ inr (old, e, rw e)
  ]

module _ (link : Link) (r : Repo) (ok : IsConsistent r) where
  added-indexed :
      lookup link.id r.by_id ≡ none
      → (slug id : Bytes) → lookup slug (added link r).slug_to_id ≡ some id
      → (l : Link) × (lookup id (added link r).by_id ≡ some l) × (l.slug ≡ slug)
  added-indexed free slug id h = elim (Bool-cases (link.slug =ᵇ slug)) [
    | inl same ↦ (
      link,
      ground (
        arith,
        lookup-insert link.slug slug link.id r.slug_to_id,
        lookup-insert link.id id link r.by_id,
        bytes_eq_iff link.id id,
      ),
      (bytes_eq_iff link.slug slug).0 same,
    )
    | inr other ↦
        let (l, e, s) =
          ok.indexed slug id (ground (arith, lookup-insert link.slug slug link.id r.slug_to_id)) in
        (
          l,
          ground (arith, e, free, lookup-insert link.id id link r.by_id, bytes_eq_iff link.id id),
          s,
        )
  ]

  added-keyed :
      lookup link.slug r.slug_to_id ≡ none
      → (id : Bytes) (l : Link) → lookup id (added link r).by_id ≡ some l
      → (l.id ≡ id) × (lookup l.slug (added link r).slug_to_id ≡ some id)
  added-keyed free id l h = ground (
    arith,
    lookup-insert link.id id link r.by_id,
    bytes_eq_iff link.id id,
    ok.keyed id l,
    free,
    lookup-insert link.slug l.slug link.id r.slug_to_id,
    bytes_eq_iff link.slug l.slug,
  )

  -- In a repository whose two indexes are in step, `create` keeps them in step, also when it
  -- refuses.
  pub create-IsConsistent : IsConsistent (create link r).1
  create-IsConsistent = elim (create_cases link r) [
    | inl e ↦ rw e ok
    | inr (s, i, e) ↦ rw e (record { indexed = added-indexed i; keyed = added-keyed s })
  ]

  replaced-indexed :
      KeepsSlug link r
      → (slug id : Bytes) → lookup slug r.slug_to_id ≡ some id
      → (l : Link) × (lookup id (replaced link r).by_id ≡ some l) × (l.slug ≡ slug)
  replaced-indexed same slug id h =
      let (l, e, s) = ok.indexed slug id h in
      elim (Bool-cases (link.id =ᵇ id)) [
        | inl q ↦ (
          link,
          ground (arith, lookup-insert link.id id link r.by_id),
          sym (same l (rw ((bytes_eq_iff link.id id).0 q) e)) ∙ s,
        )
        | inr q ↦ (l, ground (arith, e, lookup-insert link.id id link r.by_id), s)
      ]

  replaced-keyed :
      (old : Link)
      → lookup link.id r.by_id ≡ some old
      → KeepsSlug link r
      → (id : Bytes) (l : Link) → lookup id (replaced link r).by_id ≡ some l
      → (l.id ≡ id) × (lookup l.slug r.slug_to_id ≡ some id)
  replaced-keyed old e same id l h = ground (
    arith,
    lookup-insert link.id id link r.by_id,
    bytes_eq_iff link.id id,
    ok.keyed id l,
    ok.keyed link.id old,
    same old,
  )

  -- `update` keeps them in step when it leaves the slug of the link as it is.
  pub update-IsConsistent : KeepsSlug link r → IsConsistent (update link r).1
  update-IsConsistent same = elim (update_cases link r) [
    | inl e ↦ rw e ok
    | inr (old, found, e) ↦
        rw e (record { indexed = replaced-indexed same; keyed = replaced-keyed old found same })
  ]
