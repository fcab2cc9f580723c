-- ===== src/App/Service/Accepts.antt =====
-- When `CreateLink` (src/app/link_command_service.cpp) succeeds.
use url_shortener.Prelude.{
  ℕ, zero, suc, ◌+◌, ◌≡◌, refl, ◌∙◌, Bool, true, false, ◌&&◌, ◌||◌, not, Option, none, some, arith,
  is_some, Bytes,
}
use url_shortener.Core.Config.{ServerConfig}
use url_shortener.Core.Slug.{generate_slug, is_valid_slug, is_reserved_slug}
use url_shortener.Core.Url.{normalize_target_url}
use url_shortener.Core.Link.{Link}
use url_shortener.Core.Link.Time.{parse_rfc3339_zulu}
use url_shortener.Core.Validation.{validate_tags, validate_metadata, validate_campaign}
use url_shortener.App.Types.{
  Outcome, ok, err, CreateLinkCommand, LinkStore, is_done, Env, ◌>>=◌, AppError,
}
use url_shortener.App.Service.{generate_unique, choose_slug, choose_expiry, new_link, create_link}
use url_shortener.App.Service.Patch.{is_ok}

-- A chain succeeds when its head and its rest do, if the rest succeeds or not whatever the head is.
is_ok_bind :
    {A B : Type 0} (o : Outcome A) (f : A → Outcome B) (b : Bool)
    → ((a : A) → is_ok (f a) ≡ b)
    → is_ok (o >>= f) ≡ (is_ok o && b)
is_ok_bind (ok a) f b h = h a
is_ok_bind (err e) f b h = refl

is_ok_given :
    {A B : Type 0} (o : Option A) (e : AppError) (f : A → Outcome B) (b : Bool)
    → ((a : A) → is_ok (f a) ≡ b)
    → is_ok ((elim o [ none ↦ err e | some a ↦ ok a ]) >>= f) ≡ (is_some o && b)
is_ok_given none e f b h = refl
is_ok_given (some a) e f b h = h a

regroup : (a b c d e f : Bool) → (a && (b && (c && (d && (e && f))))) ≡ (a && b && c && d && e && f)
regroup a b c d e f = ground arith

module _ {S : Type 0} (store : LinkStore S) (config : ServerConfig) (env : Env) where
  -- A slug that no link has and that is not reserved.
  abbrev pub is_available : Bytes → S → Bool
  is_available slug s = not (store.slug_exists slug s) && not (is_reserved_slug slug)

  -- Some of `left` draws, from one on, gives an available slug.
  abbrev pub some_available : ℕ → ℕ → S → Bool
  some_available zero attempt s = false
  some_available (suc left) attempt s =
      is_available (generate_slug config.shortener_generated_slug_length (env.slug_draws attempt)) s
      || some_available left (attempt + 1) s

  abbrev pub slug_passes : Option Bytes → S → Bool
  slug_passes (some slug) s = is_valid_slug slug && is_available slug s
  slug_passes none s = some_available 10 0 s

  abbrev pub expiry_passes : Option Bytes → Bool
  expiry_passes none = true
  expiry_passes (some value) = is_some (parse_rfc3339_zulu value)

  -- What a command must satisfy.
  abbrev pub passes : CreateLinkCommand → S → Bool
  passes c s =
      is_some (normalize_target_url config.shortener_allow_private_targets c.target_url)
      && slug_passes c.slug s
      && expiry_passes c.expires_at
      && is_some (validate_tags c.tags)
      && validate_metadata c.metadata
      && validate_campaign c.campaign

  generate_unique_accepts :
      (left attempt : ℕ) (s : S)
      → is_ok (generate_unique store config env left attempt s) ≡ some_available left attempt s
  unfolding generate_unique
  generate_unique_accepts zero attempt s = refl
  generate_unique_accepts (suc left) attempt s =
      ground (arith, generate_unique_accepts left (attempt + 1) s)

  choose_slug_accepts :
      (c : CreateLinkCommand) (s : S)
      → is_ok (choose_slug store config env c s) ≡ slug_passes c.slug s
  unfolding choose_slug
  choose_slug_accepts c s = ground (arith, generate_unique_accepts 10 0 s)

  choose_expiry_accepts :
      (c : CreateLinkCommand)
      → is_ok (choose_expiry store config env c) ≡ expiry_passes c.expires_at
  unfolding choose_expiry
  choose_expiry_accepts c = ground arith

  new_link_accepts :
      (c : CreateLinkCommand) (s : S) → is_ok (new_link store config env c s) ≡ passes c s
  unfolding new_link
  new_link_accepts c s =
      let last = validate_metadata c.metadata && validate_campaign c.campaign in
      let b1 = is_some (validate_tags c.tags) && last in
      let b2 = is_ok (choose_expiry store config env c) && b1 in
      let b3 = is_ok (choose_slug store config env c s) && b2 in
      is_ok_given (normalize_target_url config.shortener_allow_private_targets c.target_url) _ _ b3
        (λ url. is_ok_bind _ _ b2 (λ slug.
          is_ok_bind _ _ b1
            (λ expires_at. is_ok_given (validate_tags c.tags) _ _ last (λ tags. ground arith))))
      ∙ rw (choose_slug_accepts c s, choose_expiry_accepts c)
          (regroup
            (is_some (normalize_target_url config.shortener_allow_private_targets c.target_url))
            (slug_passes c.slug s) (expiry_passes c.expires_at) (is_some (validate_tags c.tags))
            (validate_metadata c.metadata) (validate_campaign c.campaign))

  -- Whether the store takes a new link.
  abbrev pub is_taken : Outcome Link → S → Bool
  is_taken (ok l) s = is_done (store.create l s).0
  is_taken (err e) s = true

  -- `CreateLink` succeeds exactly when the URL, the slug, the expiry, the tags, the metadata and the
  -- campaign of the command pass their checks and the store takes the link. A slug that is given
  -- must have the right form, be free and not be reserved; for one that is generated, one of ten
  -- draws must be free and not reserved.
  pub create_link_accepts :
      (c : CreateLinkCommand) (s : S)
      → is_ok (create_link store config env c s).0
        ≡ (passes c s && is_taken (new_link store config env c s) s)
  unfolding create_link
  create_link_accepts c s = by_link (new_link store config env c s) refl
    where
      by_link :
          (o : Outcome Link)
          → new_link store config env c s ≡ o
          → is_ok (create_link store config env c s).0 ≡ (passes c s && is_taken o s)
      by_link (err e) h = rw (h, create_link) (ground (arith, new_link_accepts c s, h))
      by_link (ok l) h = rw (h, create_link) (ground (arith, new_link_accepts c s, h))
