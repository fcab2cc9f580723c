-- ===== src/Security/Guarantees/Rows.antt =====
-- The rows of the auth tables (src/storage/sql/migrations/005_auth_tables.sql) under every call of
-- the security services: what is never changed or removed, and the keys.
use url_shortener.Prelude.{
  ℕ, ◌≡◌, refl, sym, ◌∙◌, Option, List, [], ◌∷◌, ◌++◌, map, append-nil, append_assoc, arith, Bytes,
}
use mathlib.Core.List.{map-append}
use url_shortener.Security.ControlSet.{ControlSet}
use url_shortener.Security.Effects.{Platform, UserCredentials, AuthSession, AuthState}
use url_shortener.Security.Users.{deactivate_rows, touch_rows}
use url_shortener.Security.Sessions.{use_rows, revoke_rows, revoke_rows_of_user}
use url_shortener.Security.History.{Operation, perform_all}
use url_shortener.Security.History.Keeping.{Stable}
use url_shortener.Security.History.Services.{perform_all-Keeps}

-- The columns that no statement updates, as the row's name, and those behind it.
abbrev pub user_identity : UserCredentials → (Bytes × Bytes) × Bytes × ControlSet × ℕ
user_identity u = ((u.id, u.username), u.password_hash, u.control_set, u.created_at)

abbrev pub session_identity : AuthSession → (Bytes × Bytes) × Bytes × Option Bytes × ℕ × ℕ
session_identity x = ((x.id, x.token_hash), x.user_id, x.client_id, x.created_at, x.expires_at)

pub deactivate_rows-identity :
    (n : ℕ) (name : Bytes) (xs : List UserCredentials)
    → map user_identity (deactivate_rows n name xs) ≡ map user_identity xs
unfolding deactivate_rows
deactivate_rows-identity n name [] = refl
deactivate_rows-identity n name (x ∷ xs) = ground (arith, deactivate_rows-identity n name xs)

pub touch_rows-identity :
    (n : ℕ) (id : Bytes) (xs : List UserCredentials)
    → map user_identity (touch_rows n id xs) ≡ map user_identity xs
unfolding touch_rows
touch_rows-identity n id [] = refl
touch_rows-identity n id (x ∷ xs) = ground (arith, touch_rows-identity n id xs)

pub use_rows-identity :
    (n : ℕ) (id : Bytes) (xs : List AuthSession)
    → map session_identity (use_rows n id xs) ≡ map session_identity xs
unfolding use_rows
use_rows-identity n id [] = refl
use_rows-identity n id (x ∷ xs) = ground (arith, use_rows-identity n id xs)

pub revoke_rows-identity :
    (n : ℕ) (hash : Bytes) (xs : List AuthSession)
    → map session_identity (revoke_rows n hash xs) ≡ map session_identity xs
unfolding revoke_rows
revoke_rows-identity n hash [] = refl
revoke_rows-identity n hash (x ∷ xs) = ground (arith, revoke_rows-identity n hash xs)

pub revoke_rows_of_user-identity :
    (n : ℕ) (id : Bytes) (xs : List AuthSession)
    → map session_identity (revoke_rows_of_user n id xs) ≡ map session_identity xs
unfolding revoke_rows_of_user
revoke_rows_of_user-identity n id [] = refl
revoke_rows_of_user-identity n id (x ∷ xs) = ground (arith, revoke_rows_of_user-identity n id xs)

-- The second list is the first with more behind it.
abbrev pub Extends {ℓ} : {A : Type ℓ} → List A → List A → Type ℓ
Extends {A = A} xs ys = (new : List A) × (ys ≡ xs ++ new)

Extends-push :
    {A B : Type 0} (f : A → B) (base : List B) (xs : List A) (x : A)
    → Extends base (map f xs)
    → Extends base (map f (xs ++ x ∷ []))
Extends-push f base xs x (new, e) =
    (new ++ f x ∷ [], map-append f xs (x ∷ []) ∙ (rw e (append_assoc base new (f x ∷ []))))

Extends-push_row :
    {A : Type 0} (base xs : List A) (x : A) → Extends base xs → Extends base (xs ++ x ∷ [])
Extends-push_row base xs x (new, e) = (new ++ x ∷ [], rw e (append_assoc base new (x ∷ [])))

pub record Grown (s t : AuthState) : Type 0 where
  pub users_grow : Extends (map user_identity s.app_users) (map user_identity t.app_users)
  pub sessions_grow :
      Extends (map session_identity s.auth_sessions) (map session_identity t.auth_sessions)
  pub log_grows : Extends s.auth_audit_log t.auth_audit_log

Grown-Stable : (s : AuthState) (p : Platform) → Stable (Grown s) p
Grown-Stable s p = record {
  after_reading = λ t g. record {
    users_grow = g.users_grow;
    sessions_grow = g.sessions_grow;
    log_grows = g.log_grows;
  };
  after_draw = λ t g. record {
    users_grow = g.users_grow;
    sessions_grow = g.sessions_grow;
    log_grows = g.log_grows;
  };
  after_insert_user = λ u t e g. record {
    users_grow = Extends-push user_identity _ t.app_users u g.users_grow;
    sessions_grow = g.sessions_grow;
    log_grows = g.log_grows;
  };
  after_deactivate = λ n name t g. record {
    users_grow = rw (deactivate_rows-identity n name t.app_users) g.users_grow;
    sessions_grow = g.sessions_grow;
    log_grows = g.log_grows;
  };
  after_touch = λ n id t g. record {
    users_grow = rw (touch_rows-identity n id t.app_users) g.users_grow;
    sessions_grow = g.sessions_grow;
    log_grows = g.log_grows;
  };
  after_insert_session = λ x t e g. record {
    users_grow = g.users_grow;
    sessions_grow = Extends-push session_identity _ t.auth_sessions x g.sessions_grow;
    log_grows = g.log_grows;
  };
  after_use = λ n id t g. record {
    users_grow = g.users_grow;
    sessions_grow = rw (use_rows-identity n id t.auth_sessions) g.sessions_grow;
    log_grows = g.log_grows;
  };
  after_revoke = λ n hash t g. record {
    users_grow = g.users_grow;
    sessions_grow = rw (revoke_rows-identity n hash t.auth_sessions) g.sessions_grow;
    log_grows = g.log_grows;
  };
  after_revoke_all = λ n id t g. record {
    users_grow = g.users_grow;
    sessions_grow = rw (revoke_rows_of_user-identity n id t.auth_sessions) g.sessions_grow;
    log_grows = g.log_grows;
  };
  after_insert_entry = λ x t e g. record {
    users_grow = g.users_grow;
    sessions_grow = g.sessions_grow;
    log_grows = Extends-push_row s.auth_audit_log t.auth_audit_log x g.log_grows;
  };
}

-- Whatever is called, no row of the three auth tables is removed or moved, and a user keeps id,
-- name, password hash, control set and time of creation, a session its id, token hash, user,
-- client, creation and expiry, and an entry of the audit log everything: each table, in these
-- columns, is what it was with new rows behind.
pub perform_all-Grown :
    (p : Platform) (lifetime : ℕ) (os : List Operation) (s : AuthState)
    → Grown s (perform_all p lifetime os s)
perform_all-Grown p lifetime os s =
    perform_all-Keeps (Grown s) p (Grown-Stable s p) lifetime os s (record {
      users_grow = ([], sym (append-nil _));
      sessions_grow = ([], sym (append-nil _));
      log_grows = ([], sym (append-nil _));
    })
