-- ===== src/App/Service/Lifecycle.antt =====
-- Every command that changes a link (src/app/link_command_service.cpp), over a store that keeps
-- its contract: what slugs lead to afterwards.
use url_shortener.Prelude.{
  ◌≡◌, refl, sym, ◌∙◌, ◌&&◌, Option, none, some, if◌then◌else◌, Bytes, bytes, ◌=ᵇ◌,
}
use url_shortener.Core.Config.{ServerConfig}
use url_shortener.Core.Link.{Link}
use url_shortener.App.Types.{
  AppError, not_found, storage_failure, error, Outcome, ok, err, LinkView, LinkStore, StoreReply,
  done, refused, is_done, Env,
}
use url_shortener.App.StoreLaws.{LinkStoreLaws}
use url_shortener.App.Service.{to_view, error_or, persist, change_link}

-- A change that leaves a link's identity alone.
pub record KeepsIdentity (change : Link → Outcome Link) : Type 0 where
  pub same : (l k : Link) → change l ≡ ok k → (k.id ≡ l.id) × (k.slug ≡ l.slug)

module _ {S : Type 0} (store : LinkStore S) (laws : LinkStoreLaws store) (config : ServerConfig)
    (env : Env) where
  open laws use {IsValid, at}

  -- What a changing command makes of the slug's link: it is written as the command makes it; or
  -- there is none, or the command or the store refuses, and every slug leads where it did.
  pub data Changed (slug : Bytes) (change : Link → Outcome Link) (s : S)
      : Outcome LinkView × S → Type 0 where
    written :
        {t : S} (old new : Link)
        → at slug s ≡ some old
        → change old ≡ ok new
        → ((j : Bytes) → at j t ≡ (if slug =ᵇ j then some new else at j s))
        → Changed slug change s (ok (to_view config env.now_for_view new), t)
    missing :
        {t : S}
        → at slug s ≡ none
        → ((j : Bytes) → at j t ≡ at j s)
        → Changed slug change s (err (error not_found (bytes "Link not found")), t)
    rejected :
        {t : S} {e : AppError} (old : Link)
        → at slug s ≡ some old
        → change old ≡ err e
        → ((j : Bytes) → at j t ≡ at j s)
        → Changed slug change s (err e, t)
    not_stored :
        {t : S} (e : AppError) (old new : Link)
        → at slug s ≡ some old
        → change old ≡ ok new
        → ((j : Bytes) → at j t ≡ at j s)
        → Changed slug change s
            (err (error_or e (error storage_failure (bytes "failed to persist link update"))), t)

  module _ (slug : Bytes) (change : Link → Outcome Link) (s : S) where
    change_missing :
        (store.find_by_slug slug s).0 ≡ none
        → change_link store config env slug change s
          ≡ (err (error not_found (bytes "Link not found")), (store.find_by_slug slug s).1)
    unfolding change_link
    change_missing e = rw (e, change_link)

    change_rejected :
        {e : AppError} (old : Link)
        → (store.find_by_slug slug s).0 ≡ some old
        → change old ≡ err e
        → change_link store config env slug change s ≡ (err e, (store.find_by_slug slug s).1)
    unfolding change_link
    change_rejected old e c = rw (e, change_link, c)

    change_persisted :
        (old new : Link)
        → (store.find_by_slug slug s).0 ≡ some old
        → change old ≡ ok new
        → change_link store config env slug change s
          ≡ persist store config env new (store.find_by_slug slug s).1
    unfolding change_link
    change_persisted old new e c = rw (e, change_link, c)

  persist_done :
      (link : Link) (s : S)
      → (store.update link s).0 ≡ done
      → persist store config env link s
        ≡ (ok (to_view config env.now_for_view link), (store.update link s).1)
  unfolding persist
  persist_done link s e = rw (e, persist)

  persist_refused :
      (link : Link) (s : S) (e : AppError)
      → (store.update link s).0 ≡ refused e
      → persist store config env link s ≡ (
        err (error_or e (error storage_failure (bytes "failed to persist link update"))),
        (store.update link s).1,
      )
  unfolding persist
  persist_refused link s e p = rw (p, persist)

  module _ (slug : Bytes) (change : Link → Outcome Link) (s : S) (keeps : KeepsIdentity change)
      (valid : IsValid s) where
    found_state : S
    found_state = (store.find_by_slug slug s).1

    at-found_state : (j : Bytes) → at j found_state ≡ at j s
    unfolding found_state
    at-found_state j = laws.find_by_slug_keeps slug j s valid

    found_state-IsValid : IsValid found_state
    unfolding found_state
    found_state-IsValid = laws.find_by_slug_valid slug s valid

    -- The link found, and its changed copy, stand under the slug.
    module _ (old new : Link) (found : at slug s ≡ some old) (changed : change old ≡ ok new) where
      new_slug : new.slug ≡ slug
      new_slug = (keeps.same old new changed).1 ∙ laws.at_slug slug s old valid found

      at-new_slug : at new.slug found_state ≡ some old
      at-new_slug = rw new_slug (at-found_state slug ∙ found)

      old_id : old.id ≡ new.id
      old_id = sym (keeps.same old new changed).0

      stored_at :
          (j : Bytes)
          → at j (store.update new found_state).1
            ≡ (if is_done (store.update new found_state).0 && (slug =ᵇ j) then some new else at j s)
      stored_at j =
          simp (new_slug, at-found_state j) at
            (laws.update_at new old j found_state found_state-IsValid at-new_slug old_id)

      stored_valid : IsValid (store.update new found_state).1
      stored_valid = laws.update_valid new old found_state found_state-IsValid at-new_slug old_id

    persist-Changed :
        (old new : Link)
        → at slug s ≡ some old
        → change old ≡ ok new
        → IsValid (persist store config env new found_state).1
          × Changed slug change s (persist store config env new found_state)
    persist-Changed old new found changed =
        by_reply (store.update new found_state).0 refl (stored_at old new found changed)
          (stored_valid old new found changed)
      where
        by_reply :
            (reply : StoreReply)
            → (store.update new found_state).0 ≡ reply
            → ((j : Bytes)
                → at j (store.update new found_state).1 ≡ (
                    if is_done (store.update new found_state).0 && (slug =ᵇ j)
                    then some new
                    else at j s))
            → IsValid (store.update new found_state).1
            → IsValid (persist store config env new found_state).1
              × Changed slug change s (persist store config env new found_state)
        by_reply done e law ok_state =
            rw (persist_done new found_state e)
              (ok_state, written old new found changed (λ j. rw e at (law j)))
        by_reply (refused why) e law ok_state =
            rw (persist_refused new found_state why e)
              (ok_state, not_stored why old new found changed (λ j. rw e at (law j)))

    -- On a store that keeps its contract, in a valid state, a command that changes a link but
    -- neither its id nor its slug does just that: it writes its copy of the link under the slug and
    -- leaves every other slug's link alone, or it fails and every slug leads where it did. The
    -- store stays valid on every path.
    pub change_link-Changed :
        IsValid (change_link store config env slug change s).1
        × Changed slug change s (change_link store config env slug change s)
    unfolding found_state
    change_link-Changed = by_found (at slug s) refl
      where
        read : (store.find_by_slug slug s).0 ≡ at slug s
        read = laws.find_by_slug_at slug s valid

        by_change :
            (old : Link) (result : Outcome Link)
            → at slug s ≡ some old
            → change old ≡ result
            → IsValid (change_link store config env slug change s).1
              × Changed slug change s (change_link store config env slug change s)
        by_change old (ok new) e c =
            rw (change_persisted slug change s old new (read ∙ e) c) (persist-Changed old new e c)
        by_change old (err why) e c =
            rw (change_rejected slug change s old (read ∙ e) c)
              (found_state-IsValid, rejected old e c at-found_state)

        by_found :
            (found : Option Link)
            → at slug s ≡ found
            → IsValid (change_link store config env slug change s).1
              × Changed slug change s (change_link store config env slug change s)
        by_found none e =
            rw (change_missing slug change s (read ∙ e))
              (found_state-IsValid, missing e at-found_state)
        by_found (some old) e = by_change old (change old) e refl
