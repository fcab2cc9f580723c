-- ===== src/Security/Broker.antt =====
-- src/security/auth_broker_service.cpp and token_generator.cpp: passwords are verified, sessions
-- opened, and tokens introspected and revoked; every call is written to the audit log.
pub mod Outcomes
use url_shortener.Prelude.{ℕ, ◌+◌, ◌*◌, Bool, not, Option, none, some, if◌then◌else◌, Bytes}
use url_shortener.Core.Text.{hex_encode}
use url_shortener.Security.ControlSet.{ControlSet}
use url_shortener.Security.Effects.{
  Platform, UserCredentials, AuthSession, runtime_error, Reply, returned, thrown, Exec, ◌>>=◌, pure,
  now, draw, ticks,
}
use url_shortener.Security.Passwords.{verify_password}
use url_shortener.Security.Users.{find_by_username, find_by_id, touch_last_login}
use url_shortener.Security.Sessions.{
  session_is_active, create_session_row, find_by_token_hash, revoke_by_token_hash,
}
use url_shortener.Security.AuditLog.{
  password_verify, session_create, token_introspect, token_revoke, success, failure, append,
}

pub record CreateSessionResult : Type 0 where
  pub raw_token : Bytes
  pub session : AuthSession
  pub user : UserCredentials

pub record IntrospectResult : Type 0 where
  pub user : UserCredentials
  pub session : AuthSession

unfoldable pub lift : {A : Type 0} → Reply A → Exec A
lift r s = (r, s)

unfoldable pub guard_for : UserCredentials → ControlSet
guard_for user = user.control_set

module _ (platform : Platform) where
  unfoldable pub token_drawn : Bool × Bytes → Exec Bytes
  token_drawn (drawn, b) s =
      if not drawn then (thrown runtime_error, s) else (returned (hex_encode b), s)

  unfoldable pub generate_token : ℕ → Exec Bytes
  generate_token byte_length = draw platform byte_length >>= token_drawn

  unfoldable pub hash_token : Bytes → Bytes
  hash_token raw_token = hex_encode (platform.sha256 raw_token)

  -- The results with `ok` or `active` false have no other field set: they are `none`.
  unfoldable pub refuse_password : Bytes → Exec (Option UserCredentials)
  refuse_password username =
      append platform password_verify failure (some username) none none
      >>= (λ (u : Unit). pure none)

  unfoldable pub accept_password : Bytes → UserCredentials → Exec (Option UserCredentials)
  accept_password username user = touch_last_login platform user.id >>= (λ (u : Unit).
      append platform password_verify success (some username) (some user.id) none
      >>= (λ (v : Unit). pure (some user)))

  unfoldable pub check_password :
      Bytes → Bytes → Option UserCredentials → Exec (Option UserCredentials)
  check_password username plain_password none = refuse_password username
  check_password username plain_password (some user) =
      if not user.is_active
      then refuse_password username
      else lift (verify_password platform plain_password user.password_hash) >>= (λ (same : Bool).
        if not same then refuse_password username else accept_password username user)

  unfoldable pub verify_user : Bytes → Bytes → Exec (Option UserCredentials)
  verify_user username plain_password =
      find_by_username username >>= check_password username plain_password

  unfoldable pub open_session :
      ℕ → Bytes → Option Bytes → UserCredentials → Exec (Option CreateSessionResult)
  open_session session_lifetime username client_id user =
      generate_token 32 >>= (λ (raw_token : Bytes). now platform >>= (λ (time : ℕ).
        create_session_row platform user.id (hash_token raw_token) (time + session_lifetime * ticks)
          client_id
        >>= (λ (session : AuthSession).
            append platform session_create success (some username) (some user.id) client_id
            >>= (λ (u : Unit).
                pure (some (record { raw_token = raw_token; session = session; user = user }))))))

  unfoldable pub session_for :
      ℕ → Bytes → Option Bytes → Option UserCredentials → Exec (Option CreateSessionResult)
  session_for session_lifetime username client_id none =
      append platform session_create failure (some username) none client_id
      >>= (λ (u : Unit). pure none)
  session_for session_lifetime username client_id (some user) =
      open_session session_lifetime username client_id user

  unfoldable pub create_session :
      ℕ → Bytes → Bytes → Option Bytes → Exec (Option CreateSessionResult)
  create_session session_lifetime username plain_password client_id =
      verify_user username plain_password >>= session_for session_lifetime username client_id

  unfoldable pub introspect_failure : Exec (Option IntrospectResult)
  introspect_failure =
      append platform token_introspect failure none none none >>= (λ (u : Unit). pure none)

  unfoldable pub introspect_user :
      AuthSession → Option UserCredentials → Exec (Option IntrospectResult)
  introspect_user session none = introspect_failure
  introspect_user session (some user) =
      append platform token_introspect success (some user.username) (some user.id) none
      >>= (λ (u : Unit). pure (some (record { user = user; session = session })))

  unfoldable pub introspect_at : AuthSession → ℕ → Exec (Option IntrospectResult)
  introspect_at session time =
      if not (session_is_active time session)
      then introspect_failure
      else find_by_id session.user_id >>= introspect_user session

  unfoldable pub introspect_session : Option AuthSession → Exec (Option IntrospectResult)
  introspect_session none = introspect_failure
  introspect_session (some session) = now platform >>= introspect_at session

  unfoldable pub introspect_token : Bytes → Exec (Option IntrospectResult)
  introspect_token raw_token =
      find_by_token_hash platform (hash_token raw_token) >>= introspect_session

  unfoldable pub revoke_token : Bytes → Exec Unit
  revoke_token raw_token =
      revoke_by_token_hash platform (hash_token raw_token)
      >>= (λ (u : Unit). append platform token_revoke success none none none)
