-- ===== src/Security/History/Services.antt =====
-- Every call of the security services keeps what the changes of the tables keep.
use url_shortener.Prelude.{ℕ, Bool, true, false, Option, none, some, List, [], ◌∷◌, Bytes}
use url_shortener.Security.ControlSet.{ControlSet}
use url_shortener.Security.Effects.{
  Platform, UserCredentials, AuthSession, AuthState, access_denied,
}
use url_shortener.Security.Users.{active_admin_exists, list_users}
use url_shortener.Security.Sessions.{revoke_by_token_hash, revoke_all_for_user}
use url_shortener.Security.AuditLog.{AuditAction}
use url_shortener.Security.Broker.{
  token_drawn, generate_token, refuse_password, accept_password, check_password, verify_user,
  open_session, session_for, create_session, introspect_failure, introspect_user, introspect_at,
  introspect_session, introspect_token, revoke_token,
}
use url_shortener.Security.Management.{
  require, list_all_users, add_user, create_managed_user, deactivate_managed_user, bootstrap,
  create_first_admin,
}
use url_shortener.Security.History.{Operation, left, perform, perform_all}
use url_shortener.Security.History.Keeping.{
  Keeps, Stable, keeping, pure-Keeps, throw-Keeps, append-Keeps, hash_password-Keeps,
  create_user-Keeps, touch_last_login-Keeps, deactivate_user-Keeps, create_session_row-Keeps,
  find_by_token_hash-Keeps, find_by_username-Keeps, find_by_id-Keeps, now-Keeps, draw-Keeps,
  revoke_rows-Keeps, revoke_rows_of_user-Keeps,
}

module _ (I : AuthState → Type 0) (p : Platform) (stable : Stable I p) where
  refuse_password-Keeps : (username : Bytes) → Keeps I (refuse_password p username)
  unfolding refuse_password
  refuse_password-Keeps username = search (keeping, append-Keeps I p stable)

  accept_password-Keeps :
      (username : Bytes) (u : UserCredentials) → Keeps I (accept_password p username u)
  unfolding accept_password
  accept_password-Keeps username u =
      search (keeping, touch_last_login-Keeps I p stable, append-Keeps I p stable)

  check_password-Keeps :
      (username password : Bytes) (o : Option UserCredentials)
      → Keeps I (check_password p username password o)
  unfolding check_password
  check_password-Keeps username password none = refuse_password-Keeps username
  check_password-Keeps username password (some u) =
      search (keeping, refuse_password-Keeps, accept_password-Keeps)

  verify_user-Keeps : (username password : Bytes) → Keeps I (verify_user p username password)
  unfolding verify_user
  verify_user-Keeps username password =
      search (keeping, find_by_username-Keeps I p stable, check_password-Keeps)

  generate_token-Keeps : (n : ℕ) → Keeps I (generate_token p n)
  unfolding generate_token token_drawn
  generate_token-Keeps n = search (keeping, draw-Keeps I p stable, token_drawn-Keeps)
    where
      token_drawn-Keeps : (b : Bool × Bytes) → Keeps I (token_drawn p b)
      token_drawn-Keeps (true, b) s i = i
      token_drawn-Keeps (false, b) s i = i

  open_session-Keeps :
      (life : ℕ) (username : Bytes) (client_id : Option Bytes) (u : UserCredentials)
      → Keeps I (open_session p life username client_id u)
  unfolding open_session
  open_session-Keeps life username client_id u = search (
    keeping,
    generate_token-Keeps,
    now-Keeps I p stable,
    create_session_row-Keeps I p stable,
    append-Keeps I p stable,
  )

  session_for-Keeps :
      (life : ℕ) (username : Bytes) (client_id : Option Bytes) (o : Option UserCredentials)
      → Keeps I (session_for p life username client_id o)
  unfolding session_for
  session_for-Keeps life username client_id none = search (keeping, append-Keeps I p stable)
  session_for-Keeps life username client_id (some u) = open_session-Keeps life username client_id u

  create_session-Keeps :
      (life : ℕ) (username password : Bytes) (client_id : Option Bytes)
      → Keeps I (create_session p life username password client_id)
  unfolding create_session
  create_session-Keeps life username password client_id =
      search (keeping, verify_user-Keeps, session_for-Keeps)

  introspect_failure-Keeps : Keeps I (introspect_failure p)
  unfolding introspect_failure
  introspect_failure-Keeps = search (keeping, append-Keeps I p stable)

  introspect_user-Keeps :
      (x : AuthSession) (o : Option UserCredentials) → Keeps I (introspect_user p x o)
  unfolding introspect_user
  introspect_user-Keeps x none = introspect_failure-Keeps
  introspect_user-Keeps x (some u) = search (keeping, append-Keeps I p stable)

  introspect_at-Keeps : (x : AuthSession) (time : ℕ) → Keeps I (introspect_at p x time)
  unfolding introspect_at
  introspect_at-Keeps x time =
      search (keeping, introspect_failure-Keeps, find_by_id-Keeps I p stable, introspect_user-Keeps)

  introspect_session-Keeps : (o : Option AuthSession) → Keeps I (introspect_session p o)
  unfolding introspect_session
  introspect_session-Keeps none = introspect_failure-Keeps
  introspect_session-Keeps (some x) = search (keeping, now-Keeps I p stable, introspect_at-Keeps)

  introspect_token-Keeps : (token : Bytes) → Keeps I (introspect_token p token)
  unfolding introspect_token
  introspect_token-Keeps token =
      search (keeping, find_by_token_hash-Keeps I p stable, introspect_session-Keeps)

  revoke_by_token_hash-Keeps : (hash : Bytes) → Keeps I (revoke_by_token_hash p hash)
  unfolding revoke_by_token_hash
  revoke_by_token_hash-Keeps hash =
      search (keeping, now-Keeps I p stable, revoke_rows-Keeps I p stable)

  revoke_all_for_user-Keeps : (id : Bytes) → Keeps I (revoke_all_for_user p id)
  unfolding revoke_all_for_user
  revoke_all_for_user-Keeps id =
      search (keeping, now-Keeps I p stable, revoke_rows_of_user-Keeps I p stable)

  revoke_token-Keeps : (token : Bytes) → Keeps I (revoke_token p token)
  unfolding revoke_token
  revoke_token-Keeps token = search (keeping, revoke_by_token_hash-Keeps, append-Keeps I p stable)

  require-Keeps : (o : Option Bytes) → Keeps I (require o)
  unfolding require
  require-Keeps none = pure-Keeps I tt
  require-Keeps (some message) = throw-Keeps I Unit (access_denied message)

  list_users-Keeps : Keeps I list_users
  unfolding list_users
  list_users-Keeps s i = i

  list_all_users-Keeps : (guard : ControlSet) → Keeps I (list_all_users guard)
  unfolding list_all_users
  list_all_users-Keeps guard = search (keeping, require-Keeps, list_users-Keeps)

  add_user-Keeps :
      (a : AuditAction) (username password : Bytes) (c : ControlSet)
      → Keeps I (add_user p a username password c)
  unfolding add_user
  add_user-Keeps a username password c = search (
    keeping,
    hash_password-Keeps I p stable,
    create_user-Keeps I p stable,
    append-Keeps I p stable,
  )

  create_managed_user-Keeps :
      (guard : ControlSet) (username password : Bytes) (c : ControlSet)
      → Keeps I (create_managed_user p guard username password c)
  unfolding create_managed_user
  create_managed_user-Keeps guard username password c =
      search (keeping, require-Keeps, add_user-Keeps)

  deactivate_managed_user-Keeps :
      (guard : ControlSet) (username : Bytes) → Keeps I (deactivate_managed_user p guard username)
  unfolding deactivate_managed_user
  deactivate_managed_user-Keeps guard username =
      search (keeping, require-Keeps, deactivate_user-Keeps I p stable, append-Keeps I p stable)

  bootstrap-Keeps :
      (username password : Bytes) (exists : Bool) → Keeps I (bootstrap p username password exists)
  unfolding bootstrap
  bootstrap-Keeps username password exists =
      search (keeping, append-Keeps I p stable, add_user-Keeps)

  active_admin_exists-Keeps : Keeps I active_admin_exists
  unfolding active_admin_exists
  active_admin_exists-Keeps s i = i

  create_first_admin-Keeps :
      (username password : Bytes) → Keeps I (create_first_admin p username password)
  unfolding create_first_admin
  create_first_admin-Keeps username password =
      search (keeping, active_admin_exists-Keeps, bootstrap-Keeps)

  perform-Keeps : (life : ℕ) (o : Operation) (s : AuthState) → I s → I (perform p life o s)
  unfolding perform left
  perform-Keeps life (Operation.verify_password u w) = verify_user-Keeps u w
  perform-Keeps life (Operation.create_session u w c) = create_session-Keeps life u w c
  perform-Keeps life (Operation.introspect_token t) = introspect_token-Keeps t
  perform-Keeps life (Operation.revoke_token t) = revoke_token-Keeps t
  perform-Keeps life (Operation.revoke_all_for_user id) = revoke_all_for_user-Keeps id
  perform-Keeps life (Operation.create_user g u w c) = create_managed_user-Keeps g u w c
  perform-Keeps life (Operation.list_users g) = list_all_users-Keeps g
  perform-Keeps life (Operation.deactivate_user g u) = deactivate_managed_user-Keeps g u
  perform-Keeps life (Operation.create_first_admin u w) = create_first_admin-Keeps u w

  pub perform_all-Keeps :
      (life : ℕ) (os : List Operation) (s : AuthState) → I s → I (perform_all p life os s)
  unfolding perform_all
  perform_all-Keeps life [] s i = i
  perform_all-Keeps life (o ∷ os) s i =
      perform_all-Keeps life os (perform p life o s) (perform-Keeps life o s i)
