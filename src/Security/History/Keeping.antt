-- ===== src/Security/History/Keeping.antt =====
-- A predicate that the changes of the tables keep is kept by every call.
use url_shortener.Prelude.{
  ℕ, suc, ◌≡◌, inl, inr, Bool, true, false, Option, none, some, [], ◌∷◌, ◌++◌, if◌then◌else◌,
  Bool-cases, Bytes,
}
use url_shortener.Security.ControlSet.{ControlSet}
use url_shortener.Security.Effects.{
  Platform, UserCredentials, AuthSession, AuthAuditEntry, AuthState, Thrown, Reply, returned,
  thrown, Exec, after, ◌>>=◌, pure, throw, now, draw, generate_id,
}
use url_shortener.Security.Passwords.{hash_drawn, hash_password}
use url_shortener.Security.Users.{
  insert_user, update_users, deactivate_rows, touch_rows, find_by_username, find_by_id, create_user,
  deactivate_user, touch_last_login, user_conflict,
}
use url_shortener.Security.Sessions.{
  insert_session, update_sessions, use_rows, revoke_rows, revoke_rows_of_user, select_session,
  create_session_row, mark_used, use_found, find_by_token_hash, session_conflict,
}
use url_shortener.Security.AuditLog.{AuditAction, AuditResult, insert_entry, append, has_entry}
use url_shortener.Security.Broker.{lift}

module _ (I : AuthState → Type 0) where
  abbrev pub Keeps : {A : Type 0} → Exec A → Type 0
  Keeps m = (s : AuthState) → I s → I (m s).1

  -- The predicate survives each change of the state.
  pub record Stable (p : Platform) : Type 0 where
    pub after_reading : (s : AuthState) → I s → I (record s { readings = suc s.readings })
    pub after_draw : (s : AuthState) → I s → I (record s { draws = suc s.draws })
    pub after_insert_user :
        (u : UserCredentials) (s : AuthState)
        → user_conflict u s.app_users ≡ false
        → I s
        → I (record s { app_users = s.app_users ++ u ∷ [] })
    pub after_deactivate :
        (n : ℕ) (username : Bytes) (s : AuthState)
        → I s
        → I (record s { app_users = deactivate_rows n username s.app_users })
    pub after_touch :
        (n : ℕ) (id : Bytes) (s : AuthState)
        → I s
        → I (record s { app_users = touch_rows n id s.app_users })
    pub after_insert_session :
        (x : AuthSession) (s : AuthState)
        → session_conflict x s.auth_sessions ≡ false
        → I s
        → I (record s { auth_sessions = s.auth_sessions ++ x ∷ [] })
    pub after_use :
        (n : ℕ) (id : Bytes) (s : AuthState)
        → I s
        → I (record s { auth_sessions = use_rows n id s.auth_sessions })
    pub after_revoke :
        (n : ℕ) (hash : Bytes) (s : AuthState)
        → I s
        → I (record s { auth_sessions = revoke_rows n hash s.auth_sessions })
    pub after_revoke_all :
        (n : ℕ) (id : Bytes) (s : AuthState)
        → I s
        → I (record s { auth_sessions = revoke_rows_of_user n id s.auth_sessions })
    pub after_insert_entry :
        (x : AuthAuditEntry) (s : AuthState)
        → has_entry x.id s.auth_audit_log ≡ false
        → I s
        → I (record s { auth_audit_log = s.auth_audit_log ++ x ∷ [] })

  pub after-Keeps :
      {A B : Type 0} (r : Reply A × AuthState) (f : A → Exec B)
      → I r.1
      → ((x : A) → Keeps (f x))
      → I (after r f).1
  unfolding after
  after-Keeps (returned x, s) f h k = k x s h
  after-Keeps (thrown e, s) f h k = h

  pub bind-Keeps :
      {A B : Type 0} (m : Exec A) (f : A → Exec B)
      → Keeps m
      → ((x : A) → Keeps (f x))
      → Keeps (m >>= f)
  unfolding ◌>>=◌
  bind-Keeps m f h k s i = after-Keeps (m s) f (h s i) k

  pub if-Keeps :
      {A : Type 0} (b : Bool) (m n : Exec A) → Keeps m → Keeps n → Keeps (if b then m else n)
  if-Keeps true m n h k = h
  if-Keeps false m n h k = k

  pub pure-Keeps : {A : Type 0} (x : A) → Keeps (pure x)
  unfolding pure
  pure-Keeps x s i = i

  pub throw-Keeps : (A : Type 0) (e : Thrown) → Keeps (throw {A = A} e)
  unfolding throw
  throw-Keeps A e s i = i

  pub lift-Keeps : {A : Type 0} (r : Reply A) → Keeps (lift r)
  unfolding lift
  lift-Keeps r s i = i

pub ruleset keeping = (bind-Keeps, if-Keeps, pure-Keeps, throw-Keeps, lift-Keeps)

module _ (I : AuthState → Type 0) (p : Platform) (stable : Stable I p) where
  pub now-Keeps : Keeps I (now p)
  unfolding now
  now-Keeps = stable.after_reading

  pub draw-Keeps : (n : ℕ) → Keeps I (draw p n)
  unfolding draw
  draw-Keeps n = stable.after_draw

  insert_user-Keeps : (u : UserCredentials) → Keeps I (insert_user u)
  unfolding insert_user
  insert_user-Keeps u s i = elim (Bool-cases (user_conflict u s.app_users)) [
    | inl e ↦ rw e i
    | inr e ↦ rw e (stable.after_insert_user u s e i)
  ]

  insert_session-Keeps : (x : AuthSession) → Keeps I (insert_session x)
  unfolding insert_session
  insert_session-Keeps x s i = elim (Bool-cases (session_conflict x s.auth_sessions)) [
    | inl e ↦ rw e i
    | inr e ↦ rw e (stable.after_insert_session x s e i)
  ]

  insert_entry-Keeps : (x : AuthAuditEntry) → Keeps I (insert_entry x)
  unfolding insert_entry
  insert_entry-Keeps x s i = elim (Bool-cases (has_entry x.id s.auth_audit_log)) [
    | inl e ↦ rw e i
    | inr e ↦ rw e (stable.after_insert_entry x s e i)
  ]

  deactivate_rows-Keeps :
      (n : ℕ) (username : Bytes) → Keeps I (update_users (deactivate_rows n username))
  unfolding update_users
  deactivate_rows-Keeps = stable.after_deactivate

  touch_rows-Keeps : (n : ℕ) (id : Bytes) → Keeps I (update_users (touch_rows n id))
  unfolding update_users
  touch_rows-Keeps = stable.after_touch

  use_rows-Keeps : (n : ℕ) (id : Bytes) → Keeps I (update_sessions (use_rows n id))
  unfolding update_sessions
  use_rows-Keeps = stable.after_use

  pub revoke_rows-Keeps : (n : ℕ) (hash : Bytes) → Keeps I (update_sessions (revoke_rows n hash))
  unfolding update_sessions
  revoke_rows-Keeps = stable.after_revoke

  pub revoke_rows_of_user-Keeps :
      (n : ℕ) (id : Bytes) → Keeps I (update_sessions (revoke_rows_of_user n id))
  unfolding update_sessions
  revoke_rows_of_user-Keeps = stable.after_revoke_all

  pub generate_id-Keeps : Keeps I (generate_id p)
  unfolding generate_id
  generate_id-Keeps = search (keeping, draw-Keeps)

  pub append-Keeps :
      (a : AuditAction) (r : AuditResult) (username user_id client_id : Option Bytes)
      → Keeps I (append p a r username user_id client_id)
  unfolding append
  append-Keeps a r username user_id client_id =
      search (keeping, generate_id-Keeps, now-Keeps, insert_entry-Keeps)

  pub hash_password-Keeps : (password : Bytes) → Keeps I (hash_password p password)
  unfolding hash_password hash_drawn
  hash_password-Keeps password = search (keeping, draw-Keeps, hash_drawn-Keeps password)
    where
      hash_drawn-Keeps : (w : Bytes) (b : Bool × Bytes) → Keeps I (hash_drawn p w b)
      hash_drawn-Keeps w (true, salt) s i = i
      hash_drawn-Keeps w (false, salt) s i = i

  pub create_user-Keeps :
      (username password_hash : Bytes) (c : ControlSet)
      → Keeps I (create_user p username password_hash c)
  unfolding create_user
  create_user-Keeps username password_hash c =
      search (keeping, generate_id-Keeps, now-Keeps, insert_user-Keeps)

  pub touch_last_login-Keeps : (id : Bytes) → Keeps I (touch_last_login p id)
  unfolding touch_last_login
  touch_last_login-Keeps id = search (keeping, now-Keeps, touch_rows-Keeps)

  pub deactivate_user-Keeps : (username : Bytes) → Keeps I (deactivate_user p username)
  unfolding deactivate_user
  deactivate_user-Keeps username = search (keeping, now-Keeps, deactivate_rows-Keeps)

  pub create_session_row-Keeps :
      (user_id hash : Bytes) (expires_at : ℕ) (client_id : Option Bytes)
      → Keeps I (create_session_row p user_id hash expires_at client_id)
  unfolding create_session_row
  create_session_row-Keeps user_id hash expires_at client_id =
      search (keeping, generate_id-Keeps, now-Keeps, insert_session-Keeps)

  pub mark_used-Keeps : (x : AuthSession) (time : ℕ) → Keeps I (mark_used p x time)
  unfolding mark_used
  mark_used-Keeps x time = search (keeping, use_rows-Keeps)

  pub use_found-Keeps : (o : Option AuthSession) → Keeps I (use_found p o)
  unfolding use_found
  use_found-Keeps none = search keeping
  use_found-Keeps (some x) = search (keeping, now-Keeps, mark_used-Keeps)

  pub select_session-Keeps : (hash : Bytes) → Keeps I (select_session hash)
  unfolding select_session
  select_session-Keeps hash s i = i

  pub find_by_token_hash-Keeps : (hash : Bytes) → Keeps I (find_by_token_hash p hash)
  unfolding find_by_token_hash
  find_by_token_hash-Keeps hash = search (keeping, select_session-Keeps, use_found-Keeps)

  pub find_by_username-Keeps : (username : Bytes) → Keeps I (find_by_username username)
  unfolding find_by_username
  find_by_username-Keeps username s i = i

  pub find_by_id-Keeps : (id : Bytes) → Keeps I (find_by_id id)
  unfolding find_by_id
  find_by_id-Keeps id s i = i
