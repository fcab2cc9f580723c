-- ===== src/App/Service.antt =====
-- src/app/link_command_service.cpp: the commands and queries of `LinkCommandService`, over any
-- store. Each returns the store's new state too.
pub mod Commands
pub mod Lifecycle
pub mod Create
pub mod Accepts
pub mod Patch
pub mod Effects
pub mod Failures
use url_shortener.Prelude.{
  ℕ, zero, suc, ◌+◌, true, ◌&&◌, not, Option, none, some, [], ◌∷◌, ◌++◌, ◌==◌, if◌then◌else◌,
  is_some, value_or, is_empty, Bytes, bytes, ℤ, pos, ◌+ℤ◌,
}
use url_shortener.Core.Config.{ServerConfig}
use url_shortener.Core.Slug.{generate_slug, is_valid_slug, is_reserved_slug}
use url_shortener.Core.Url.{normalize_target_url}
use url_shortener.Core.Link.{
  Link, RedirectType, temporary, parse_redirect_type, resolve_link_status,
}
use url_shortener.Core.Link.Time.{parse_rfc3339_zulu, format_timestamp}
use url_shortener.Core.Validation.{validate_tags, validate_metadata, validate_campaign}
use url_shortener.App.Types.{
  AppError, success, invalid_url, invalid_slug, reserved_slug, slug_conflict, invalid_field,
  not_found, storage_failure, internal, Outcome, ok, err, error, ◌>>=◌, CreateLinkCommand,
  GetLinkBy, GetLinkQuery, LinkView, done, refused, LinkStore, Env,
}

-- The base without its trailing slashes.
unfoldable pub strip_slashes : Bytes → Bytes
strip_slashes [] = []
strip_slashes (c ∷ s) = let r = strip_slashes s in if is_empty r && (c == b'/') then [] else c ∷ r

unfoldable pub short_url_for : ServerConfig → Bytes → Bytes
unfolding strip_slashes
short_url_for config slug = strip_slashes config.shortener_base_domain ++ b'/' ∷ slug

unfoldable pub to_view : ServerConfig → ℤ → Link → LinkView
to_view config now link = record {
  id = link.id;
  slug = link.slug;
  target_url = link.target_url;
  short_url = short_url_for config link.slug;
  created_at = link.created_at;
  updated_at = link.updated_at;
  expires_at = link.expires_at;
  deleted_at = link.deleted_at;
  enabled = link.enabled;
  tags = link.tags;
  metadata = link.metadata;
  campaign = link.campaign;
  stats = link.stats;
  redirect_type = link.redirect_type;
  status = resolve_link_status now link;
}

-- The error of a failed write, or a default if the store gave none.
unfoldable pub error_or : AppError → AppError → AppError
error_or given fallback = elim given.code [ success ↦ fallback | _ ↦ given ]

module _ {S : Type 0} (store : LinkStore S) (config : ServerConfig) (env : Env) where
  -- The ten attempts at a generated slug; `attempt` counts up to the number left.
  unfoldable pub generate_unique : ℕ → ℕ → S → Outcome Bytes
  generate_unique zero attempt s = err (error internal (bytes "unable to generate a unique slug"))
  generate_unique (suc left) attempt s =
      let slug = generate_slug config.shortener_generated_slug_length (env.slug_draws attempt) in
      let rest = generate_unique left (attempt + 1) s in
      if not (store.slug_exists slug s) && not (is_reserved_slug slug) then ok slug else rest

  unfoldable pub choose_slug : CreateLinkCommand → S → Outcome Bytes
  choose_slug command s = elim command.slug [
    | some slug ↦
        if not (is_valid_slug slug)
        then err (error invalid_slug (bytes "slug format is invalid"))
        else if is_reserved_slug slug
        then err (error reserved_slug (bytes "slug is reserved"))
        else if store.slug_exists slug s
        then err (error slug_conflict (bytes "slug already in use"))
        else ok slug
    | none ↦ generate_unique 10 0 s
  ]

  unfoldable pub choose_redirect_type : CreateLinkCommand → RedirectType
  choose_redirect_type command = elim command.redirect_type [
    | some given ↦ given
    | none ↦ value_or (parse_redirect_type config.shortener_default_redirect_type) temporary
  ]

  unfoldable pub choose_expiry : CreateLinkCommand → Outcome (Option Bytes)
  choose_expiry command = elim command.expires_at [
    | some value ↦
        if is_some (parse_rfc3339_zulu value)
        then ok (some value)
        else err (error invalid_field (bytes "expires_at must be RFC3339 UTC"))
    | none ↦ elim config.shortener_default_expiry_seconds [
      | none ↦ ok none
      | some seconds ↦ ok (some (format_timestamp (env.now_for_expiry +ℤ pos seconds)))
    ]
  ]

  -- The link that a create command describes, once every check has passed.
  unfoldable pub new_link : CreateLinkCommand → S → Outcome Link
  new_link command s = do
    target_url ←
        elim (normalize_target_url config.shortener_allow_private_targets command.target_url) [
          | none ↦ err (error invalid_url (bytes "url must be an absolute http/https URL"))
          | some url ↦ ok url
        ]
    slug ← choose_slug command s
    expires_at ← choose_expiry command
    tags ← elim (validate_tags command.tags) [
      | none ↦ err (error invalid_field (bytes "tags violate constraints"))
      | some tags ↦ ok tags
    ]
    if not (validate_metadata command.metadata)
        then err (error invalid_field (bytes "metadata must be flat object with limits"))
        else if not (validate_campaign command.campaign)
        then err (error invalid_field (bytes "campaign must be valid object"))
        else ok (record {
          id = generate_slug 20 env.id_draws;
          slug = slug;
          target_url = target_url;
          created_at = format_timestamp env.now_for_write;
          updated_at = format_timestamp env.now_for_write;
          expires_at = expires_at;
          deleted_at = none;
          enabled = value_or command.enabled true;
          tags = tags;
          metadata = command.metadata;
          campaign = command.campaign;
          stats = record {
            total_redirects = 0;
            redirects_24h = 0;
            redirects_7d = 0;
            last_accessed_at = none;
          };
          redirect_type = choose_redirect_type command;
        })

  unfoldable pub create_link : CreateLinkCommand → S → Outcome LinkView × S
  create_link command s = elim (new_link command s) [
    | err e ↦ (err e, s)
    | ok link ↦
        let (reply, s1) = store.create link s in
        elim reply [
          | refused e ↦ (err (error_or e (error slug_conflict (bytes "slug already in use"))), s1)
          | done ↦ (ok (to_view config env.now_for_view link), store.invalidate_cache link.slug s1)
        ]
  ]

  -- GetLink and PreviewLink have the same body.
  unfoldable pub get_link : GetLinkQuery → S → Outcome LinkView × S
  get_link query s =
      let (found, s1) : Option Link × S = elim query.by [
        | GetLinkBy.id ↦ (store.find_by_id query.value s, s)
        | GetLinkBy.slug ↦ store.find_by_slug query.value s
      ] in
      elim found [
        | none ↦ (err (error not_found (bytes "Link not found")), s1)
        | some link ↦ (ok (to_view config env.now_for_view link), s1)
      ]

  -- The end of every command that changes a link: the write, its error, the view.
  unfoldable pub persist : Link → S → Outcome LinkView × S
  persist link s =
      let (reply, s1) = store.update link s in
      elim reply [
        | refused e ↦
            (err (error_or e (error storage_failure (bytes "failed to persist link update"))), s1)
        | done ↦ (ok (to_view config env.now_for_view link), s1)
      ]

  -- The start of every such command: the link under the slug, or `not_found`.
  unfoldable pub change_link : Bytes → (Link → Outcome Link) → S → Outcome LinkView × S
  change_link slug change s =
      let (found, s1) = store.find_by_slug slug s in
      elim found [
        | none ↦ (err (error not_found (bytes "Link not found")), s1)
        | some link ↦ elim (change link) [ err e ↦ (err e, s1) | ok changed ↦ persist changed s1 ]
      ]
