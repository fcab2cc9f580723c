-- ===== src/App/Service/Create.antt =====
-- `CreateLink` (src/app/link_command_service.cpp) over a store that keeps its contract.
use url_shortener.Prelude.{
  ℕ, zero, suc, ◌+◌, ◌≡◌, refl, ◌∙◌, inl, inr, true, false, ◌&&◌, not, Option, none, some, arith,
  if◌then◌else◌, Bool-cases, value_or, Bytes, bytes, ◌=ᵇ◌, is_some, ℤ, pos, ◌+ℤ◌,
}
use url_shortener.Core.Config.{ServerConfig}
use url_shortener.Core.Slug.{generate_slug, is_valid_slug, is_reserved_slug}
use url_shortener.Core.Url.{normalize_target_url}
use url_shortener.Core.Link.{Link}
use url_shortener.Core.Link.Time.{parse_rfc3339_zulu, format_timestamp}
use url_shortener.Core.Validation.{validate_tags, validate_metadata, validate_campaign}
use url_shortener.App.Types.{
  AppError, Outcome, ok, err, CreateLinkCommand, LinkView, LinkStore, StoreReply, done, refused,
  Env, error, slug_conflict,
}
use url_shortener.App.StoreLaws.{LinkStoreLaws}
use url_shortener.App.Service.{
  to_view, error_or, generate_unique, choose_slug, choose_expiry, new_link, create_link,
}

-- Where the slug of a new link comes from: the command, checked; or the generator.
abbrev SlugChosen : ServerConfig → Option Bytes → Bytes → Type 0
SlugChosen config (some given) slug = (slug ≡ given) × (is_valid_slug slug ≡ true)
SlugChosen config none slug =
    (draws : ℕ → ℕ) × (slug ≡ generate_slug config.shortener_generated_slug_length draws)

-- When a new link expires: at the time of the command, which is read as one; or so many seconds from
-- now, as configured; or never.
abbrev ExpiryChosen : ServerConfig → ℤ → Option Bytes → Option Bytes → Type 0
ExpiryChosen config now (some given) expires_at =
    (expires_at ≡ some given) × (is_some (parse_rfc3339_zulu given) ≡ true)
ExpiryChosen config now none expires_at =
    expires_at ≡ (elim config.shortener_default_expiry_seconds [
      | none ↦ none
      | some seconds ↦ some (format_timestamp (now +ℤ pos seconds))
    ])

choose_expiry-ok :
    {S : Type 0} (store : LinkStore S) (config : ServerConfig) (env : Env) (c : CreateLinkCommand)
    (expires_at : Option Bytes)
    → choose_expiry store config env c ≡ ok expires_at
    → ExpiryChosen config env.now_for_expiry c.expires_at expires_at
unfolding choose_expiry
choose_expiry-ok store config env c expires_at h = by_flag c.expires_at refl
  where
    by_flag :
        (given : Option Bytes)
        → c.expires_at ≡ given
        → ExpiryChosen config env.now_for_expiry given expires_at
    by_flag (some given) e = ground arith
    by_flag none e = ground arith

module _ {S : Type 0} (store : LinkStore S) (config : ServerConfig) (env : Env) where
  generate_unique-ok :
      (left attempt : ℕ) (s : S) (slug : Bytes)
      → generate_unique store config env left attempt s ≡ ok slug
      → (store.slug_exists slug s ≡ false)
        × (is_reserved_slug slug ≡ false)
        × SlugChosen config none slug
  unfolding generate_unique
  generate_unique-ok zero attempt s slug h = absurd (cc)
  generate_unique-ok (suc left) attempt s slug h =
      let draws = env.slug_draws attempt in
      let tried = generate_slug config.shortener_generated_slug_length draws in
      elim (Bool-cases (not (store.slug_exists tried s) && not (is_reserved_slug tried))) [
        | inl q ↦
            let e : tried ≡ slug = ground arith in
            rw (← e) (ground arith, ground arith, (draws, refl))
        | inr q ↦ generate_unique-ok left (attempt + 1) s slug (ground arith)
      ]

  -- The slug that is chosen is not taken and not reserved.
  choose_slug-ok :
      (c : CreateLinkCommand) (s : S) (slug : Bytes)
      → choose_slug store config env c s ≡ ok slug
      → (store.slug_exists slug s ≡ false)
        × (is_reserved_slug slug ≡ false)
        × SlugChosen config c.slug slug
  unfolding choose_slug
  choose_slug-ok c s slug h = by_slug c.slug refl
    where
      by_slug :
          (given : Option Bytes)
          → c.slug ≡ given
          → (store.slug_exists slug s ≡ false)
            × (is_reserved_slug slug ≡ false)
            × SlugChosen config given slug
      by_slug (some given) e = ground arith
      by_slug none e = generate_unique-ok 10 0 s slug (ground arith)

  -- What a new link is made of.
  pub record IsNewLink (c : CreateLinkCommand) (s : S) (l : Link) : Type 0 where
    pub target_url :
        normalize_target_url config.shortener_allow_private_targets c.target_url ≡ some l.target_url
    pub slug_free : store.slug_exists l.slug s ≡ false
    pub not_reserved : is_reserved_slug l.slug ≡ false
    pub slug_chosen : SlugChosen config c.slug l.slug
    pub expiry_chosen : ExpiryChosen config env.now_for_expiry c.expires_at l.expires_at
    pub tags : validate_tags c.tags ≡ some l.tags
    pub metadata_valid : validate_metadata l.metadata ≡ true
    pub metadata : l.metadata ≡ c.metadata
    pub campaign_valid : validate_campaign l.campaign ≡ true
    pub campaign : l.campaign ≡ c.campaign
    pub enabled : l.enabled ≡ value_or c.enabled true
    pub deleted_at : l.deleted_at ≡ none
    pub no_clicks : l.stats.total_redirects ≡ 0
    pub created_at : l.created_at ≡ format_timestamp env.now_for_write
    pub updated_at : l.updated_at ≡ format_timestamp env.now_for_write

  new_link-slug :
      (c : CreateLinkCommand) (s : S) (l : Link)
      → new_link store config env c s ≡ ok l
      → choose_slug store config env c s ≡ ok l.slug
  unfolding new_link
  new_link-slug c s l h = ground arith

  new_link-expiry :
      (c : CreateLinkCommand) (s : S) (l : Link)
      → new_link store config env c s ≡ ok l
      → choose_expiry store config env c ≡ ok l.expires_at
  unfolding new_link
  new_link-expiry c s l h = ground arith

  new_link-IsNewLink :
      (c : CreateLinkCommand) (s : S) (l : Link)
      → new_link store config env c s ≡ ok l
      → IsNewLink c s l
  unfolding new_link
  new_link-IsNewLink c s l h =
      let (free, plain, chosen) = choose_slug-ok c s l.slug (new_link-slug c s l h) in
      record {
        target_url = ground arith;
        slug_free = free;
        not_reserved = plain;
        slug_chosen = chosen;
        expiry_chosen = choose_expiry-ok store config env c l.expires_at (new_link-expiry c s l h);
        tags = ground arith;
        metadata_valid = ground arith;
        metadata = ground arith;
        campaign_valid = ground arith;
        campaign = ground arith;
        enabled = ground arith;
        deleted_at = ground arith;
        no_clicks = ground arith;
        created_at = ground arith;
        updated_at = ground arith;
      }

  create_refused :
      (c : CreateLinkCommand) (s : S) (e : AppError)
      → new_link store config env c s ≡ err e
      → create_link store config env c s ≡ (err e, s)
  unfolding create_link
  create_refused c s e h = rw (h, create_link)

  create_not_stored :
      (c : CreateLinkCommand) (s : S) (l : Link) (e : AppError)
      → new_link store config env c s ≡ ok l
      → (store.create l s).0 ≡ refused e
      → create_link store config env c s ≡ (
        err (error_or e (error slug_conflict (bytes "slug already in use"))),
        (store.create l s).1,
      )
  unfolding create_link
  create_not_stored c s l e h k = rw (h, create_link, k)

  create_stored :
      (c : CreateLinkCommand) (s : S) (l : Link)
      → new_link store config env c s ≡ ok l
      → (store.create l s).0 ≡ done
      → create_link store config env c s ≡ (
        ok (to_view config env.now_for_view l),
        store.invalidate_cache l.slug (store.create l s).1,
      )
  unfolding create_link
  create_stored c s l h k = rw (h, create_link, k)

module _ {S : Type 0} (store : LinkStore S) (laws : LinkStoreLaws store) (config : ServerConfig)
    (env : Env) where
  open laws use {IsValid, at}

  -- A create command succeeds with a new link that its checks allow, under a slug that led nowhere,
  -- and changes no other slug; or it fails, and every slug leads where it did.
  pub data Created (c : CreateLinkCommand) (s : S) : Outcome LinkView × S → Type 0 where
    stored :
        {t : S} (new : Link)
        → IsNewLink store config env c s new
        → at new.slug s ≡ none
        → ((j : Bytes) → at j t ≡ (if new.slug =ᵇ j then some new else at j s))
        → Created c s (ok (to_view config env.now_for_view new), t)
    refused_unchanged :
        {t : S} {e : AppError} → ((j : Bytes) → at j t ≡ at j s) → Created c s (err e, t)

  module _ (c : CreateLinkCommand) (s : S) (valid : IsValid s) where
    by_reply :
        (l : Link) (reply : StoreReply)
        → new_link store config env c s ≡ ok l
        → (store.create l s).0 ≡ reply
        → IsValid (create_link store config env c s).1
          × Created c s (create_link store config env c s)
    by_reply l (refused e) h k =
        rw (create_not_stored store config env c s l e h k)
          (laws.create_valid l s valid, refused_unchanged (λ j. laws.create_at l j s valid ∙ rw k))
    by_reply l done h k =
        let t = (store.create l s).1 in
        let t_valid = laws.create_valid l s valid in
        rw (create_stored store config env c s l h k) (
          laws.invalidate_valid l.slug t t_valid,
          stored l (new_link-IsNewLink store config env c s l h) (laws.create_free l s valid (rw k))
              (λ j. laws.invalidate_keeps l.slug j t t_valid ∙ laws.create_at l j s valid ∙ rw k),
        )

    by_new_link :
        (result : Outcome Link)
        → new_link store config env c s ≡ result
        → IsValid (create_link store config env c s).1
          × Created c s (create_link store config env c s)
    by_new_link (err e) h =
        rw (create_refused store config env c s e h) (valid, refused_unchanged (λ j. refl))
    by_new_link (ok l) h = by_reply l (store.create l s).0 h refl

    -- On a store that keeps its contract, in a valid state: `CreateLink` stores a link
    -- whose URL, slug, expiry, tags, metadata and campaign satisfy their checks, under a slug that
    -- was free and is not reserved, and touches no other slug; or it fails and changes no slug. The store stays valid on every path.
    pub create_link-Created :
        IsValid (create_link store config env c s).1
        × Created c s (create_link store config env c s)
    create_link-Created = by_new_link (new_link store config env c s) refl
