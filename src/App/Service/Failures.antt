-- ===== src/App/Service/Failures.antt =====
-- The errors of `LinkCommandService` (src/app/link_command_service.cpp) have codes of errors.
use url_shortener.Prelude.{
  ℕ, zero, suc, ◌+◌, ◌≡◌, refl, inl, inr, Option-cases, Bool, true, false, none, some, arith, Bytes,
  ℤ,
}
use url_shortener.Core.Config.{ServerConfig}
use url_shortener.Core.Link.{Link}
use url_shortener.Core.Url.{normalize_target_url}
use url_shortener.App.Types.{
  AppErrorCode, AppError, success, Outcome, ok, err, ◌>>=◌, CreateLinkCommand, UpdateLinkCommand,
  DeleteLinkCommand, SetLinkEnabledCommand, RestoreLinkCommand, GetLinkQuery, LinkView, LinkStore,
  Env,
}
use url_shortener.App.Service.{
  error_or, generate_unique, choose_slug, choose_expiry, new_link, create_link, get_link, persist,
  change_link,
}
use url_shortener.App.Service.Commands.{
  patch_link, update_link, delete_link, set_link_enabled, restore_link,
}

abbrev pub is_error_code : AppErrorCode → Bool
is_error_code success = false
is_error_code code = true

-- A value, or an error that does not say `success`.
abbrev pub is_proper {ℓ} : {A : Type ℓ} → Outcome A → Bool
is_proper (ok a) = true
is_proper (err e) = is_error_code e.code

is_proper-bind :
    {A B : Type 0} (r : Outcome A) (f : A → Outcome B)
    → is_proper r ≡ true
    → ((a : A) → is_proper (f a) ≡ true)
    → is_proper (r >>= f) ≡ true
is_proper-bind (ok a) f h k = k a
is_proper-bind (err e) f h k = h

is_error_code-error_or :
    (given fallback : AppError)
    → is_error_code fallback.code ≡ true
    → is_error_code (error_or given fallback).code ≡ true
unfolding error_or
is_error_code-error_or given fallback h = ground arith

module _ {S : Type 0} (store : LinkStore S) (config : ServerConfig) (env : Env) where
  is_proper-generate_unique :
      (left attempt : ℕ) (s : S)
      → is_proper (generate_unique store config env left attempt s) ≡ true
  unfolding generate_unique
  is_proper-generate_unique zero attempt s = refl
  is_proper-generate_unique (suc left) attempt s =
      ground (arith, is_proper-generate_unique left (attempt + 1) s)

  is_proper-choose_slug :
      (c : CreateLinkCommand) (s : S) → is_proper (choose_slug store config env c s) ≡ true
  unfolding choose_slug
  is_proper-choose_slug c s = ground (arith, is_proper-generate_unique 10 0 s)

  is_proper-choose_expiry :
      (c : CreateLinkCommand) → is_proper (choose_expiry store config env c) ≡ true
  unfolding choose_expiry
  is_proper-choose_expiry c = ground arith

  is_proper-new_link :
      (c : CreateLinkCommand) (s : S) → is_proper (new_link store config env c s) ≡ true
  unfolding new_link
  is_proper-new_link c s =
      is_proper-bind
        (elim (normalize_target_url config.shortener_allow_private_targets c.target_url) [
          | none ↦ err _
          | some url ↦ ok url
        ])
        _ (ground arith)
        (λ url.
          is_proper-bind (choose_slug store config env c s) _ (is_proper-choose_slug c s) (λ slug.
            is_proper-bind (choose_expiry store config env c) _ (is_proper-choose_expiry c)
              (λ expires_at. ground arith)))

  pub is_proper-create_link :
      (c : CreateLinkCommand) (s : S) → is_proper (create_link store config env c s).0 ≡ true
  unfolding create_link error_or
  is_proper-create_link c s = ground (arith, is_proper-new_link c s)

  pub is_proper-get_link :
      (q : GetLinkQuery) (s : S) → is_proper (get_link store config env q s).0 ≡ true
  unfolding get_link
  is_proper-get_link q s = ground arith

  is_proper-persist : (l : Link) (s : S) → is_proper (persist store config env l s).0 ≡ true
  unfolding persist error_or
  is_proper-persist l s = ground arith

  is_proper-change_link :
      (slug : Bytes) (change : Link → Outcome Link) (s : S)
      → ((l : Link) → is_proper (change l) ≡ true)
      → is_proper (change_link store config env slug change s).0 ≡ true
  unfolding change_link
  is_proper-change_link slug change s h = elim (Option-cases (store.find_by_slug slug s).0) [
    | inl e ↦ rw (e, change_link) refl
    | inr (l, e) ↦ rw (e, change_link) (by_change (change l) (store.find_by_slug slug s).1 (h l))
  ]
    where
      by_change :
          (r : Outcome Link) (t : S)
          → is_proper r ≡ true
          → is_proper
              (elim r as (λ _. Outcome LinkView × S) [
                | err e ↦ (err e, t)
                | ok changed ↦ persist store config env changed t
              ]).0
            ≡ true
      by_change (err e) t k = k
      by_change (ok changed) t k = is_proper-persist changed t

  is_proper-patch_link :
      (now : ℤ) (c : UpdateLinkCommand) (l : Link) → is_proper (patch_link now c l) ≡ true
  unfolding patch_link
  is_proper-patch_link now c l = ground arith

  pub is_proper-update_link :
      (c : UpdateLinkCommand) (s : S) → is_proper (update_link store config env c s).0 ≡ true
  unfolding update_link
  is_proper-update_link c s =
      is_proper-change_link c.slug _ s (is_proper-patch_link env.now_for_write c)

  pub is_proper-delete_link :
      (c : DeleteLinkCommand) (s : S) → is_proper (delete_link store config env c s).0 ≡ true
  unfolding delete_link
  is_proper-delete_link c s = is_proper-change_link c.slug _ s (λ l. refl)

  pub is_proper-set_link_enabled :
      (c : SetLinkEnabledCommand) (s : S)
      → is_proper (set_link_enabled store config env c s).0 ≡ true
  unfolding set_link_enabled
  is_proper-set_link_enabled c s = is_proper-change_link c.slug _ s (λ l. refl)

  pub is_proper-restore_link :
      (c : RestoreLinkCommand) (s : S) → is_proper (restore_link store config env c s).0 ≡ true
  unfolding restore_link
  is_proper-restore_link c s = is_proper-change_link c.slug _ s (λ l. refl)
