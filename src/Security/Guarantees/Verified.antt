-- ===== src/Security/Guarantees/Verified.antt =====
-- What follows when `verifyPassword` succeeds (src/security/auth_broker_service.cpp).
use url_shortener.Prelude.{
  ◌≡◌, refl, sym, ap, ◌∙◌, inl, inr, Bool, true, false, not, Option, none, some, if◌then◌else◌,
  Option-cases, is_some, Bytes,
}
use url_shortener.Security.Effects.{
  Platform, UserCredentials, AuthState, Reply, returned, after, ◌>>=◌, pure, now, to_epoch,
}
use url_shortener.Security.Passwords.{verify_password}
use url_shortener.Security.Users.{
  build_user_row, active_with_name, active_with_id, find_by_username, update_users, touch_rows,
  touch_last_login,
}
use url_shortener.Security.Broker.{
  lift, refuse_password, accept_password, check_password, verify_user,
}
use url_shortener.Security.AuditLog.{password_verify, success}
use url_shortener.Security.Guarantees.Accounts.{refuse_password-result}
use url_shortener.Security.Guarantees.Returned.{
  returned_inj, append_leaves, active_with_name-id, touch_rows-active_with_id, bind-returned,
}

touch_last_login_lem :
    (p : Platform) (id : Bytes) (s : AuthState)
    → (touch_last_login p id s).1.app_users
      ≡ touch_rows (to_epoch (p.clock s.readings)) id s.app_users
unfolding touch_last_login now update_users ◌>>=◌ after
touch_last_login_lem p id s = refl

-- A user that was verified is found by id in the state left.
accept_password-returned :
    (p : Platform) (name : Bytes) (user u : UserCredentials) (s t : AuthState)
    → is_some (active_with_id user.id s.app_users) ≡ true
    → accept_password p name user s ≡ (returned (some u), t)
    → is_some (active_with_id u.id t.app_users) ≡ true
unfolding accept_password pure
accept_password-returned p name user u s t h e =
    let (v, s1, touched, e1) = bind-returned _ _ e in
    let (w, s2, logged, last) = bind-returned _ _ e1 in
    let kept : s2.app_users ≡ s1.app_users =
      ap (λ (r : Reply Unit × AuthState). r.1.app_users) (sym logged)
      ∙ (append_leaves p password_verify success (some name) (some user.id) none s1).0 in
    let there : s1.app_users ≡ touch_rows (to_epoch (p.clock s.readings)) user.id s.app_users =
      ap (λ (r : Reply Unit × AuthState). r.1.app_users) (sym touched)
      ∙ touch_last_login_lem p user.id s in
    let (result, end) = returned_inj _ _ s2 t last in
    let same : user ≡ u = cc in
    rw (← same, ← end, kept, there) (touch_rows-active_with_id user.id _ user.id s.app_users ∙ h)

checked-returned :
    (p : Platform) (name : Bytes) (user u : UserCredentials) (s t : AuthState) (same : Bool)
    → is_some (active_with_id user.id s.app_users) ≡ true
    → (if not same then refuse_password p name else accept_password p name user) s
      ≡ (returned (some u), t)
    → is_some (active_with_id u.id t.app_users) ≡ true
checked-returned p name user u s t true h e = accept_password-returned p name user u s t h e
checked-returned p name user u s t false h e = absurd (
    refuse_password-result p name s u
      (ap (λ (r : Reply (Option UserCredentials) × AuthState). r.0) e))

active_check-returned :
    (p : Platform) (name password : Bytes) (user u : UserCredentials) (s t : AuthState) (b : Bool)
    → is_some (active_with_id user.id s.app_users) ≡ true
    → (if not b
          then refuse_password p name
          else lift (verify_password p password user.password_hash) >>= (λ (same : Bool).
            if not same then refuse_password p name else accept_password p name user))
        s
      ≡ (returned (some u), t)
    → is_some (active_with_id u.id t.app_users) ≡ true
unfolding lift
active_check-returned p name password user u s t false h e = absurd (
    refuse_password-result p name s u
      (ap (λ (r : Reply (Option UserCredentials) × AuthState). r.0) e))
active_check-returned p name password user u s t true h e =
    let (same, s1, made, last) = bind-returned _ _ e in
    let kept : s ≡ s1 = ap (λ (r : Reply Bool × AuthState). r.1) made in
    checked-returned p name user u s1 t same (rw (← kept) h) last

check_password-returned :
    (p : Platform) (name password : Bytes) (user u : UserCredentials) (s t : AuthState)
    → is_some (active_with_id user.id s.app_users) ≡ true
    → check_password p name password (some user) s ≡ (returned (some u), t)
    → is_some (active_with_id u.id t.app_users) ≡ true
unfolding check_password
check_password-returned p name password user u s t h e =
    active_check-returned p name password user u s t user.is_active h e

check_password-none :
    (p : Platform) (name password : Bytes) (u : UserCredentials) (s t : AuthState)
    → check_password p name password none s ≡ (returned (some u), t)
    → is_some (active_with_id u.id t.app_users) ≡ true
unfolding check_password
check_password-none p name password u s t e = absurd (
    refuse_password-result p name s u
      (ap (λ (r : Reply (Option UserCredentials) × AuthState). r.0) e))

pub build_user_row-id : (u : UserCredentials) → (build_user_row u).id ≡ u.id
unfolding build_user_row
build_user_row-id u = refl

pub verify_user-returned :
    (p : Platform) (name password : Bytes) (u : UserCredentials) (s t : AuthState)
    → verify_user p name password s ≡ (returned (some u), t)
    → is_some (active_with_id u.id t.app_users) ≡ true
unfolding verify_user find_by_username ◌>>=◌ after
verify_user-returned p name password u s t e =
    elim (Option-cases (active_with_name name s.app_users)) [
      | inl n ↦
          let e1 : check_password p name password none s ≡ (returned (some u), t) = rw n at e in
          check_password-none p name password u s t e1
      | inr (row, n) ↦
          let e1 : check_password p name password (some (build_user_row row)) s
              ≡ (returned (some u), t) =
            rw n at e in
          check_password-returned p name password (build_user_row row) u s t
            (rw (build_user_row-id row) (active_with_name-id name row s.app_users n)) e1
    ]
