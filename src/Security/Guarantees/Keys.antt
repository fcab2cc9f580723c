-- ===== src/Security/Guarantees/Keys.antt =====
-- The PRIMARY KEY and UNIQUE constraints of src/storage/sql/migrations/005_auth_tables.sql.
use url_shortener.Prelude.{
  ℕ, ◌≡◌, refl, ◌∙◌, Bool, true, false, ◌&&◌, ◌||◌, not, List, [], ◌∷◌, ◌++◌, map, arith, Bytes,
  ◌=ᵇ◌, bytes_eq_iff,
}
use mathlib.Core.List.{map-append}
use url_shortener.Security.Effects.{
  Platform, UserCredentials, AuthSession, AuthAuditEntry, AuthState,
}
use url_shortener.Security.Users.{user_conflict, deactivate_rows, touch_rows}
use url_shortener.Security.Sessions.{session_conflict, use_rows, revoke_rows, revoke_rows_of_user}
use url_shortener.Security.AuditLog.{has_entry}
use url_shortener.Security.History.{Operation, perform_all}
use url_shortener.Security.History.Keeping.{Stable}
use url_shortener.Security.History.Services.{perform_all-Keeps}

-- The keys of a row; an entry of the audit log has one.
abbrev pub Keys : Type 0
Keys = Bytes × Bytes

unfoldable pub clash : Keys → Keys → Bool
clash (a, b) (c, d) = (a =ᵇ c) || (b =ᵇ d)

unfoldable pub has_clash : Keys → List Keys → Bool
unfolding clash
has_clash k [] = false
has_clash k (x ∷ xs) = clash x k || has_clash k xs

unfoldable pub distinct : List Keys → Bool
unfolding has_clash
distinct [] = true
distinct (k ∷ ks) = not (has_clash k ks) && distinct ks

abbrev pub user_keys : UserCredentials → Keys
user_keys u = (u.id, u.username)

abbrev pub session_keys : AuthSession → Keys
session_keys x = (x.id, x.token_hash)

abbrev pub entry_keys : AuthAuditEntry → Keys
entry_keys x = (x.id, x.id)

clash_sym : (j k : Keys) → clash j k ≡ clash k j
unfolding clash
clash_sym (a, b) (c, d) =
    ground (arith, bytes_eq_iff a c, bytes_eq_iff c a, bytes_eq_iff b d, bytes_eq_iff d b)

has_clash-push :
    (k j : Keys) (ks : List Keys) → has_clash k (ks ++ j ∷ []) ≡ (has_clash k ks || clash j k)
unfolding has_clash
has_clash-push k j [] = ground arith
has_clash-push k j (x ∷ xs) = ground (arith, has_clash-push k j xs)

distinct-push :
    (k : Keys) (ks : List Keys)
    → distinct ks ≡ true
    → has_clash k ks ≡ false
    → distinct (ks ++ k ∷ []) ≡ true
unfolding distinct has_clash
distinct-push k [] h e = refl
distinct-push k (x ∷ xs) h e =
    ground (arith, distinct-push k xs, has_clash-push x k xs, clash_sym x k)

distinct-push_row :
    {A : Type 0} (keys : A → Keys) (xs : List A) (x : A)
    → distinct (map keys xs) ≡ true
    → has_clash (keys x) (map keys xs) ≡ false
    → distinct (map keys (xs ++ x ∷ [])) ≡ true
distinct-push_row keys xs x h e =
    rw (map-append keys xs (x ∷ [])) (distinct-push (keys x) (map keys xs) h e)

-- The databases' checks are those of the keys.
user_conflict-has_clash :
    (u : UserCredentials) (xs : List UserCredentials)
    → has_clash (user_keys u) (map user_keys xs) ≡ user_conflict u xs
unfolding user_conflict has_clash clash
user_conflict-has_clash u [] = refl
user_conflict-has_clash u (x ∷ xs) = ground (arith, user_conflict-has_clash u xs)

session_conflict-has_clash :
    (x : AuthSession) (xs : List AuthSession)
    → has_clash (session_keys x) (map session_keys xs) ≡ session_conflict x xs
unfolding session_conflict has_clash clash
session_conflict-has_clash x [] = refl
session_conflict-has_clash x (y ∷ ys) = ground (arith, session_conflict-has_clash x ys)

has_entry-has_clash :
    (x : AuthAuditEntry) (xs : List AuthAuditEntry)
    → has_clash (entry_keys x) (map entry_keys xs) ≡ has_entry x.id xs
unfolding has_entry has_clash clash
has_entry-has_clash x [] = refl
has_entry-has_clash x (y ∷ ys) = ground (arith, has_entry-has_clash x ys)

deactivate_rows-user_keys :
    (n : ℕ) (name : Bytes) (xs : List UserCredentials)
    → map user_keys (deactivate_rows n name xs) ≡ map user_keys xs
unfolding deactivate_rows
deactivate_rows-user_keys n name [] = refl
deactivate_rows-user_keys n name (x ∷ xs) = ground (arith, deactivate_rows-user_keys n name xs)

touch_rows-user_keys :
    (n : ℕ) (id : Bytes) (xs : List UserCredentials)
    → map user_keys (touch_rows n id xs) ≡ map user_keys xs
unfolding touch_rows
touch_rows-user_keys n id [] = refl
touch_rows-user_keys n id (x ∷ xs) = ground (arith, touch_rows-user_keys n id xs)

use_rows-session_keys :
    (n : ℕ) (id : Bytes) (xs : List AuthSession)
    → map session_keys (use_rows n id xs) ≡ map session_keys xs
unfolding use_rows
use_rows-session_keys n id [] = refl
use_rows-session_keys n id (x ∷ xs) = ground (arith, use_rows-session_keys n id xs)

revoke_rows-session_keys :
    (n : ℕ) (hash : Bytes) (xs : List AuthSession)
    → map session_keys (revoke_rows n hash xs) ≡ map session_keys xs
unfolding revoke_rows
revoke_rows-session_keys n hash [] = refl
revoke_rows-session_keys n hash (x ∷ xs) = ground (arith, revoke_rows-session_keys n hash xs)

revoke_rows_of_user-session_keys :
    (n : ℕ) (id : Bytes) (xs : List AuthSession)
    → map session_keys (revoke_rows_of_user n id xs) ≡ map session_keys xs
unfolding revoke_rows_of_user
revoke_rows_of_user-session_keys n id [] = refl
revoke_rows_of_user-session_keys n id (x ∷ xs) =
    ground (arith, revoke_rows_of_user-session_keys n id xs)

pub record WellKeyed (s : AuthState) : Type 0 where
  pub users_distinct : distinct (map user_keys s.app_users) ≡ true
  pub sessions_distinct : distinct (map session_keys s.auth_sessions) ≡ true
  pub entries_distinct : distinct (map entry_keys s.auth_audit_log) ≡ true

abbrev well_keyed :
    (s : AuthState)
    → distinct (map user_keys s.app_users) ≡ true
    → distinct (map session_keys s.auth_sessions) ≡ true
    → distinct (map entry_keys s.auth_audit_log) ≡ true
    → WellKeyed s
well_keyed s u x e = record { users_distinct = u; sessions_distinct = x; entries_distinct = e }

WellKeyed-Stable : (p : Platform) → Stable WellKeyed p
WellKeyed-Stable p = record {
  after_reading = λ s k. well_keyed _ k.users_distinct k.sessions_distinct k.entries_distinct;
  after_draw = λ s k. well_keyed _ k.users_distinct k.sessions_distinct k.entries_distinct;
  after_insert_user = λ u s e k.
      well_keyed _
        (distinct-push_row user_keys s.app_users u k.users_distinct
          (user_conflict-has_clash u s.app_users ∙ e))
        k.sessions_distinct k.entries_distinct;
  after_deactivate = λ n name s k.
      well_keyed _ (rw (deactivate_rows-user_keys n name s.app_users) k.users_distinct)
        k.sessions_distinct k.entries_distinct;
  after_touch = λ n id s k.
      well_keyed _ (rw (touch_rows-user_keys n id s.app_users) k.users_distinct) k.sessions_distinct
        k.entries_distinct;
  after_insert_session = λ x s e k.
      well_keyed _ k.users_distinct
        (distinct-push_row session_keys s.auth_sessions x k.sessions_distinct
          (session_conflict-has_clash x s.auth_sessions ∙ e))
        k.entries_distinct;
  after_use = λ n id s k.
      well_keyed _ k.users_distinct
        (rw (use_rows-session_keys n id s.auth_sessions) k.sessions_distinct) k.entries_distinct;
  after_revoke = λ n hash s k.
      well_keyed _ k.users_distinct
        (rw (revoke_rows-session_keys n hash s.auth_sessions) k.sessions_distinct)
        k.entries_distinct;
  after_revoke_all = λ n id s k.
      well_keyed _ k.users_distinct
        (rw (revoke_rows_of_user-session_keys n id s.auth_sessions) k.sessions_distinct)
        k.entries_distinct;
  after_insert_entry = λ x s e k. well_keyed _ k.users_distinct k.sessions_distinct (
      distinct-push_row entry_keys s.auth_audit_log x k.entries_distinct
        (has_entry-has_clash x s.auth_audit_log ∙ e));
}

-- From tables whose keys do not repeat, as from empty ones, every sequence of calls of the
-- security services leads to tables in which no user id, user name, session id, token hash or
-- audit id stands twice.
pub perform_all-WellKeyed :
    (p : Platform) (lifetime : ℕ) (os : List Operation) (s : AuthState)
    → WellKeyed s
    → WellKeyed (perform_all p lifetime os s)
perform_all-WellKeyed p = perform_all-Keeps WellKeyed p (WellKeyed-Stable p)
