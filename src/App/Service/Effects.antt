-- ===== src/App/Service/Effects.antt =====
-- The effects of the changing commands (src/app/link_command_service.cpp) on a store that keeps
-- its contract: updates, deletion, restoring, enabling and disabling, and failures.
use url_shortener.Prelude.{
  ◌≡◌, ◌∙◌, inl, inr, Bool, false, not, none, some, arith, if◌then◌else◌, Bool-cases, is_some,
  Bytes, ◌=ᵇ◌, bytes_eq_refl, ℤ,
}
use url_shortener.Core.Config.{ServerConfig}
use url_shortener.Core.Link.{Link, active, deleted, disabled, resolve_link_status, expired}
use url_shortener.Core.Link.Time.{format_timestamp, is_expired}
use url_shortener.App.Types.{
  AppError, Outcome, ok, err, UpdateLinkCommand, DeleteLinkCommand, SetLinkEnabledCommand,
  RestoreLinkCommand, LinkView, LinkStore, Env,
}
use url_shortener.App.StoreLaws.{LinkStoreLaws}
use url_shortener.App.Service.{to_view}
use url_shortener.App.Service.Commands.{
  patch_link, mark_deleted, mark_enabled, mark_restored, update_link, delete_link, set_link_enabled,
  restore_link,
}
use url_shortener.App.Service.Patch.{IsPatched, patch_link-IsPatched}
use url_shortener.App.Service.Lifecycle.{
  KeepsIdentity, Changed, written, missing, rejected, not_stored, change_link-Changed,
}

patch_link-KeepsIdentity : (now : ℤ) (c : UpdateLinkCommand) → KeepsIdentity (patch_link now c)
patch_link-KeepsIdentity now c = record {
  same = λ l k h. let p = patch_link-IsPatched now c l k h in (p.id, p.slug);
}

mark_deleted-KeepsIdentity : (now : ℤ) → KeepsIdentity (λ l. ok (mark_deleted now l))
unfolding mark_deleted
mark_deleted-KeepsIdentity now = record { same = λ l k h. ground arith }

mark_enabled-KeepsIdentity : (b : Bool) (now : ℤ) → KeepsIdentity (λ l. ok (mark_enabled b now l))
unfolding mark_enabled
mark_enabled-KeepsIdentity b now = record { same = λ l k h. ground arith }

mark_restored-KeepsIdentity : (now : ℤ) → KeepsIdentity (λ l. ok (mark_restored now l))
unfolding mark_restored
mark_restored-KeepsIdentity now = record { same = λ l k h. ground arith }

-- The four commands that change a link.
pub data LinkCommand : Type 0 where
  update : UpdateLinkCommand → LinkCommand
  delete : DeleteLinkCommand → LinkCommand
  set_enabled : SetLinkEnabledCommand → LinkCommand
  restore : RestoreLinkCommand → LinkCommand

abbrev pub run :
    {S : Type 0} → LinkStore S → ServerConfig → Env → LinkCommand → S → Outcome LinkView × S
run store config env (update c) s = update_link store config env c s
run store config env (delete c) s = delete_link store config env c s
run store config env (set_enabled c) s = set_link_enabled store config env c s
run store config env (restore c) s = restore_link store config env c s

module _ {S : Type 0} (store : LinkStore S) (laws : LinkStoreLaws store) (config : ServerConfig)
    (env : Env) where
  open laws use {IsValid, at}

  -- A command that returned an error has changed no slug's link.
  Changed-err :
      {slug : Bytes} {change : Link → Outcome Link} {s : S} {p : Outcome LinkView × S}
      {e : AppError}
      → Changed store laws config env slug change s p
      → p.0 ≡ err e
      → (j : Bytes) → at j p.1 ≡ at j s
  Changed-err (written old new f c law) h j = absurd (cc)
  Changed-err (missing f law) h j = law j
  Changed-err (rejected old f c law) h j = law j
  Changed-err (not_stored why old new f c law) h j = law j

  -- What a successful command returned and left.
  record Effect (slug : Bytes) (change : Link → Outcome Link) (s t : S) (v : LinkView)
      : Type 0 where
    old : Link
    new : Link
    before : at slug s ≡ some old
    made : change old ≡ ok new
    after : at slug t ≡ some new
    shown : v ≡ to_view config env.now_for_view new
    others : (j : Bytes) → (slug =ᵇ j) ≡ false → at j t ≡ at j s

  Changed-ok :
      {slug : Bytes} {change : Link → Outcome Link} {s : S} {p : Outcome LinkView × S}
      {v : LinkView}
      → Changed store laws config env slug change s p
      → p.0 ≡ ok v
      → Effect slug change s p.1 v
  Changed-ok {slug} (written old new f c law) h = record {
    old = old;
    new = new;
    before = f;
    made = c;
    after = law slug ∙ rw (bytes_eq_refl slug);
    shown = cc;
    others = λ j d. law j ∙ rw d;
  }
  Changed-ok (missing f law) h = absurd (cc)
  Changed-ok (rejected old f c law) h = absurd (cc)
  Changed-ok (not_stored why old new f c law) h = absurd (cc)

  abbrev target : LinkCommand → Bytes
  target (update c) = c.slug
  target (delete c) = c.slug
  target (set_enabled c) = c.slug
  target (restore c) = c.slug

  -- What a command does to its link.
  abbrev change_of : LinkCommand → Link → Outcome Link
  change_of (update c) = patch_link env.now_for_write c
  change_of (delete c) = λ l. ok (mark_deleted env.now_for_write l)
  change_of (set_enabled c) = λ l. ok (mark_enabled c.enabled env.now_for_write l)
  change_of (restore c) = λ l. ok (mark_restored env.now_for_write l)

  run-Changed :
      (c : LinkCommand) (s : S)
      → IsValid s
      → IsValid (run store config env c s).1
        × Changed store laws config env (target c) (change_of c) s (run store config env c s)
  unfolding update_link delete_link set_link_enabled restore_link
  run-Changed (update c) s v =
      change_link-Changed store laws config env c.slug (change_of (update c)) s
        (patch_link-KeepsIdentity env.now_for_write c) v
  run-Changed (delete c) s v =
      change_link-Changed store laws config env c.slug (change_of (delete c)) s
        (mark_deleted-KeepsIdentity env.now_for_write) v
  run-Changed (set_enabled c) s v =
      change_link-Changed store laws config env c.slug (change_of (set_enabled c)) s
        (mark_enabled-KeepsIdentity c.enabled env.now_for_write) v
  run-Changed (restore c) s v =
      change_link-Changed store laws config env c.slug (change_of (restore c)) s
        (mark_restored-KeepsIdentity env.now_for_write) v

  run-Effect :
      (c : LinkCommand) (s : S) {v : LinkView}
      → IsValid s
      → (run store config env c s).0 ≡ ok v
      → Effect (target c) (change_of c) s (run store config env c s).1 v
  run-Effect c s ok_state h = Changed-ok (run-Changed c s ok_state).1 h

  -- On a store that keeps its contract, in a valid state, an update, deletion, enabling, disabling
  -- or restoring that returns an error leaves every slug leading to the link that it led to before,
  -- and the store valid.
  pub failed_command-changes_nothing :
      (c : LinkCommand) (s : S) {e : AppError}
      → IsValid s
      → (run store config env c s).0 ≡ err e
      → IsValid (run store config env c s).1
        × ((j : Bytes) → at j (run store config env c s).1 ≡ at j s)
  failed_command-changes_nothing c s ok_state h =
      let (valid, changed) = run-Changed c s ok_state in (valid, Changed-err changed h)

  -- On a store that keeps its contract, in a valid state, a successful update shows and stores the
  -- old link with exactly the command's fields changed and a new time of update, and no other
  -- slug's link changes.
  pub update_link-IsPatched :
      (c : UpdateLinkCommand) (s : S) {v : LinkView}
      → IsValid s
      → (update_link store config env c s).0 ≡ ok v
      → (old new : Link) × (at c.slug s ≡ some old)
        × (at c.slug (update_link store config env c s).1 ≡ some new)
        × IsPatched env.now_for_write c old new
        × (v ≡ to_view config env.now_for_view new)
        × ((j : Bytes)
            → (if c.slug =ᵇ j then at j s else at j (update_link store config env c s).1) ≡ at j s)
  update_link-IsPatched c s ok_state h =
      let f = run-Effect (update c) s ok_state h in
      (
        f.old,
        f.new,
        f.before,
        f.after,
        patch_link-IsPatched env.now_for_write c f.old f.new f.made,
        f.shown,
        λ j. elim (Bool-cases (c.slug =ᵇ j)) [ inl q ↦ rw q | inr q ↦ rw q (f.others j q) ],
      )

  -- On a store that keeps its contract, in a valid state: after a successful deletion the slug
  -- leads to a link whose status is `deleted` at every time, and nothing but its two time stamps
  -- has changed.
  pub delete_link-deleted :
      (c : DeleteLinkCommand) (s : S) {v : LinkView}
      → IsValid s
      → (delete_link store config env c s).0 ≡ ok v
      → (old new : Link) × (at c.slug s ≡ some old)
        × (at c.slug (delete_link store config env c s).1 ≡ some new)
        × ((now : ℤ) → resolve_link_status now new ≡ deleted)
        × (v.status ≡ deleted)
        × (new ≡ record old { deleted_at = new.deleted_at; updated_at = new.updated_at })
  unfolding resolve_link_status mark_deleted to_view
  delete_link-deleted c s ok_state h =
      let f = run-Effect (delete c) s ok_state h in
      (
        f.old,
        f.new,
        f.before,
        f.after,
        (λ now. ground (arith, f.made)),
        ground (arith, f.shown, f.made),
        ground (arith, f.made),
      )

  -- On a store that keeps its contract, in a valid state: after a link was successfully enabled or
  -- disabled its status, at every time, is the one that its deletion, the flag of the command and
  -- its expiry give, in this order.
  pub set_link_enabled-status :
      (c : SetLinkEnabledCommand) (s : S) {v : LinkView}
      → IsValid s
      → (set_link_enabled store config env c s).0 ≡ ok v
      → (old new : Link) × (at c.slug s ≡ some old)
        × (at c.slug (set_link_enabled store config env c s).1 ≡ some new)
        × ((now : ℤ)
            → resolve_link_status now new ≡ (
                if is_some old.deleted_at
                then deleted
                else if not c.enabled
                then disabled
                else if is_expired now old.expires_at
                then expired
                else active))
  unfolding resolve_link_status mark_enabled
  set_link_enabled-status c s ok_state h =
      let f = run-Effect (set_enabled c) s ok_state h in
      (f.old, f.new, f.before, f.after, λ now. ground (arith, f.made))

module _ {S : Type 0} (store : LinkStore S) (laws : LinkStoreLaws store)
    (config : ServerConfig) where
  open laws use {IsValid, at}

  -- On a store that keeps its contract, in a valid state: a successful restoring behind a
  -- successful deletion, each with its own readings of the clock, gives back the link as it was, not
  -- deleted, with the time of the restoring as its time of update.
  pub restore_link-delete_link :
      (deleting restoring : Env) (slug : Bytes) (s : S) {v w : LinkView}
      → IsValid s
      → (run store config deleting (delete (record { slug = slug })) s).0 ≡ ok v
      → (run store config restoring
          (restore (record { slug = slug }))
          (run store config deleting (delete (record { slug = slug })) s).1).0
        ≡ ok w
      → (old : Link) × (at slug s ≡ some old)
        × (at slug
              (run store config restoring
                (restore (record { slug = slug }))
                (run store config deleting (delete (record { slug = slug })) s).1).1
            ≡ some (record old {
              deleted_at = none;
              updated_at = format_timestamp restoring.now_for_write;
            }))
  unfolding mark_deleted mark_restored
  restore_link-delete_link deleting restoring slug s ok_state h k =
      let d : LinkCommand = delete (record { slug = slug }) in
      let r : LinkCommand = restore (record { slug = slug }) in
      let t = (run store config deleting d s).1 in
      let f = run-Effect store laws config deleting d s ok_state h in
      let g =
        run-Effect store laws config restoring r t
          (run-Changed store laws config deleting d s ok_state).0 k in
      (f.old, f.before, ground (arith, f.made, g.made, f.after, g.before, g.after))
