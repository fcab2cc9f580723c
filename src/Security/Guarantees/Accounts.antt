-- ===== src/Security/Guarantees/Accounts.antt =====
-- Deactivated users (src/security/user_management_service.cpp, auth_broker_service.cpp).
use url_shortener.Prelude.{
  ℕ, suc, ◌≡◌, refl, ◌≢◌, inl, inr, true, Option, none, some, List, Bool-cases, Bytes,
}
use url_shortener.Security.ControlSet.{admin, require_user_management, denied, can_manage_users}
use url_shortener.Security.Effects.{
  Platform, UserCredentials, AuthSession, AuthState, Reply, returned, thrown, after, ◌>>=◌, pure,
  now,
}
use url_shortener.Security.Users.{
  active_with_name, active_with_id, find_by_username, update_users, deactivate_user,
}
use url_shortener.Security.Users.Locked.{
  username, id, has_key, is_locked, is_locked-insert, is_locked-deactivate_rows,
  is_locked-touch_rows, deactivate_rows-is_locked, is_locked-active_with_name,
  is_locked-active_with_id, Column,
}
use url_shortener.Security.Sessions.{build_session, session_is_active, session_with_hash}
use url_shortener.Security.Broker.{
  IntrospectResult, CreateSessionResult, hash_token, refuse_password, check_password, verify_user,
  session_for, create_session, introspect_user, introspect_token, introspect_at, introspect_session,
}
use url_shortener.Security.Broker.Outcomes.{
  used, read_twice, build_session-ids, introspect_at-inactive, introspect_at-active,
  find_by_token_hash-inactive, find_by_token_hash-active,
}
use url_shortener.Security.AuditLog.{
  append, password_verify, session_create, user_deactivate, success, failure,
}
use url_shortener.Security.Management.{require, deactivate_managed_user}
use url_shortener.Security.History.{Operation, left, perform_all}
use url_shortener.Security.History.Keeping.{Stable, append-Keeps}
use url_shortener.Security.History.Services.{perform_all-Keeps}
use url_shortener.Security.Guarantees.Tokens.{after-none, introspect_failure-result}

abbrev Locked : Column → Bytes → AuthState → Type 0
Locked c k s = is_locked c k s.app_users ≡ true

Locked-Stable : (c : Column) (k : Bytes) (p : Platform) → Stable (Locked c k) p
Locked-Stable c k p = record {
  after_reading = λ s h. h;
  after_draw = λ s h. h;
  after_insert_user = λ u s e h. is_locked-insert c k u s.app_users h e;
  after_deactivate = λ n name s h. is_locked-deactivate_rows c k n name s.app_users h;
  after_touch = λ n user_id s h. is_locked-touch_rows c k n user_id s.app_users h;
  after_insert_session = λ x s e h. h;
  after_use = λ n user_id s h. h;
  after_revoke = λ n hash s h. h;
  after_revoke_all = λ n user_id s h. h;
  after_insert_entry = λ x s e h. h;
}

deactivate_managed_user-Locked :
    (p : Platform) (name : Bytes) (s : AuthState)
    → has_key username name s.app_users ≡ true
    → Locked username name (left (deactivate_managed_user p admin name) s)
unfolding left deactivate_managed_user require require_user_management denied can_manage_users
    deactivate_user update_users now ◌>>=◌ after pure
deactivate_managed_user-Locked p name s h =
    append-Keeps (Locked username name) p (Locked-Stable username name p) user_deactivate success
      (some name) none none _ (deactivate_rows-is_locked _ name s.app_users h)

-- A name with no active row is refused, and so is the session asked for under it.
verify_user-unknown :
    (p : Platform) (name password : Bytes) (s : AuthState)
    → active_with_name name s.app_users ≡ none
    → verify_user p name password s ≡ refuse_password p name s
unfolding verify_user find_by_username check_password ◌>>=◌ after
verify_user-unknown p name password s e = rw e refl

session_for-refused :
    (p : Platform) (lifetime : ℕ) (name : Bytes) (client_id : Option Bytes)
    (r : Reply Unit × AuthState) (x : CreateSessionResult)
    → (after
        (after r (λ (u : Unit). pure {A = Option UserCredentials} none))
        (session_for p lifetime name client_id)).0
      ≢ returned (some x)
unfolding after pure session_for ◌>>=◌
session_for-refused p lifetime name client_id (returned u, s) x h =
    after-none (append p session_create failure (some name) none client_id s) x h
session_for-refused p lifetime name client_id (thrown e, s) x h = cc

pub refuse_password-result :
    (p : Platform) (name : Bytes) (s : AuthState) (u : UserCredentials)
    → (refuse_password p name s).0 ≢ returned (some u)
unfolding refuse_password ◌>>=◌
refuse_password-result p name s u =
    after-none (append p password_verify failure (some name) none none s) u

create_session-refused :
    (p : Platform) (lifetime : ℕ) (name password : Bytes) (client_id : Option Bytes) (s : AuthState)
    (x : CreateSessionResult)
    → verify_user p name password s ≡ refuse_password p name s
    → (create_session p lifetime name password client_id s).0 ≢ returned (some x)
unfolding create_session refuse_password ◌>>=◌
create_session-refused p lifetime name password client_id s x e = rw e (
    session_for-refused p lifetime name client_id
      (append p password_verify failure (some name) none none s) x)

-- After an admin has deactivated an existing user, and after any further calls, no password signs
-- this user in: neither `verifyPassword` nor `createSession` succeeds under the name.
pub sign_in-deactivated :
    (p : Platform) (lifetime : ℕ) (name password : Bytes) (client_id : Option Bytes) (s : AuthState)
    (os : List Operation) (u : UserCredentials) (x : CreateSessionResult)
    → has_key username name s.app_users ≡ true
    → let later : AuthState =
        perform_all p lifetime os (left (deactivate_managed_user p admin name) s) in
      ((verify_user p name password later).0 ≢ returned (some u))
      × ((create_session p lifetime name password client_id later).0 ≢ returned (some x))
sign_in-deactivated p lifetime name password client_id s os u x h =
    let later : AuthState =
      perform_all p lifetime os (left (deactivate_managed_user p admin name) s) in
    let locked : Locked username name later =
      perform_all-Keeps (Locked username name) p (Locked-Stable username name p) lifetime os _
        (deactivate_managed_user-Locked p name s h) in
    let refused : verify_user p name password later ≡ refuse_password p name later =
      verify_user-unknown p name password later
        (is_locked-active_with_name name later.app_users locked) in
    (
      rw refused (refuse_password-result p name later u),
      create_session-refused p lifetime name password client_id later x refused,
    )

introspect_user-gone :
    (p : Platform) (y : AuthSession) (time : ℕ) (s : AuthState) (r : IntrospectResult)
    → active_with_id y.user_id s.app_users ≡ none
    → (introspect_at p y time s).0 ≢ returned (some r)
unfolding introspect_user
introspect_user-gone p y time s r e = elim (Bool-cases (session_is_active time y)) [
  | inl h ↦ rw (introspect_at-active p y time s h) (rw e (introspect_failure-result p s r))
  | inr h ↦ rw (introspect_at-inactive p y time s h) (introspect_failure-result p s r)
]

introspect_token-gone :
    (p : Platform) (token : Bytes) (s : AuthState) (x : AuthSession) (r : IntrospectResult)
    → session_with_hash (hash_token p token) s.auth_sessions ≡ some x
    → active_with_id (build_session x).user_id s.app_users ≡ none
    → (introspect_token p token s).0 ≢ returned (some r)
unfolding introspect_token introspect_session now ◌>>=◌ after
introspect_token-gone p token s x r e n =
    elim (Bool-cases (session_is_active (p.clock s.readings) (build_session x))) [
      | inl h ↦ rw (find_by_token_hash-active p (hash_token p token) s x e h) (
          introspect_user-gone p
            (record (build_session x) { last_used_at = some (p.clock s.readings) })
            (p.clock (suc s.readings)) (used p token s x) r n)
      | inr h ↦
          rw (find_by_token_hash-inactive p (hash_token p token) s x e h)
            (introspect_user-gone p (build_session x) (p.clock (suc s.readings)) (read_twice s) r n)
    ]

-- A token whose session belongs to a user with no row that is switched on is introspected as
-- inactive, in the state itself and after any further calls, whether or not the session was
-- revoked or has expired.
pub introspect_token-deactivated :
    (p : Platform) (lifetime : ℕ) (user_id token : Bytes) (s : AuthState) (os : List Operation)
    (x : AuthSession) (r : IntrospectResult)
    → is_locked id user_id s.app_users ≡ true
    → session_with_hash (hash_token p token) (perform_all p lifetime os s).auth_sessions ≡ some x
    → x.user_id ≡ user_id
    → (introspect_token p token (perform_all p lifetime os s)).0 ≢ returned (some r)
introspect_token-deactivated p lifetime user_id token s os x r h e m =
    let later : AuthState = perform_all p lifetime os s in
    let locked : Locked id user_id later =
      perform_all-Keeps (Locked id user_id) p (Locked-Stable id user_id p) lifetime os s h in
    let gone : active_with_id (build_session x).user_id later.app_users ≡ none =
      rw ((build_session-ids x).1, m) (is_locked-active_with_id user_id later.app_users locked) in
    introspect_token-gone p token later x r e gone
