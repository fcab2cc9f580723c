-- ===== src/Security/Guarantees/Uniform.antt =====
-- Refused sign-ins (`verifyPassword` of src/security/auth_broker_service.cpp).
use url_shortener.Prelude.{
  ◌≡◌, refl, ap, ◌∙◌, ◌≢◌, inl, inr, Bool, true, false, Option, none, some, List, [], ◌∷◌, arith,
  Option-cases, Bytes,
}
use url_shortener.Security.Effects.{
  Platform, UserCredentials, AuthState, Reply, returned, thrown, after, ◌>>=◌, pure,
}
use url_shortener.Security.Passwords.{verify_password}
use url_shortener.Security.Users.{build_user_row, active_with_name, find_by_username}
use url_shortener.Security.Broker.{lift, refuse_password, check_password, verify_user}
use url_shortener.Security.AuditLog.{append, password_verify, failure}
use url_shortener.Security.Guarantees.Returned.{append_leaves}
use url_shortener.Security.Guarantees.Accounts.{refuse_password-result}

active_with_name-active :
    (name : Bytes) (row : UserCredentials) (xs : List UserCredentials)
    → active_with_name name xs ≡ some row
    → row.is_active ≡ true
unfolding active_with_name
active_with_name-active name row [] e = cc
active_with_name-active name row (x ∷ xs) e = ground (arith, active_with_name-active name row xs)

-- Whether a password is that of the row found under a name; there may be none.
unfoldable pub verdict : Platform → Bytes → Option UserCredentials → Reply Bool
verdict p password none = returned false
verdict p password (some row) = verify_password p password row.password_hash

after-pure_leaves :
    {A B : Type 0} (r : Reply A × AuthState) (y : B) → (after r (λ (u : A). pure y)).1 ≡ r.1
unfolding after pure
after-pure_leaves (returned x, s) y = refl
after-pure_leaves (thrown e, s) y = refl

refuse_password_leaves :
    (p : Platform) (name : Bytes) (s : AuthState)
    → ((refuse_password p name s).1.app_users ≡ s.app_users)
      × ((refuse_password p name s).1.auth_sessions ≡ s.auth_sessions)
unfolding refuse_password ◌>>=◌
refuse_password_leaves p name s =
    let r : Reply Unit × AuthState = append p password_verify failure (some name) none none s in
    let (users, sessions) = append_leaves p password_verify failure (some name) none none s in
    let state : (refuse_password p name s).1 ≡ r.1 =
      after-pure_leaves {B = Option UserCredentials} r none in
    (
      ap (λ (t : AuthState). t.app_users) state ∙ users,
      ap (λ (t : AuthState). t.auth_sessions) state ∙ sessions,
    )

wrong_password :
    (p : Platform) (name password : Bytes) (s : AuthState) (row : UserCredentials)
    → row.is_active ≡ true
    → verify_password p password row.password_hash ≡ returned false
    → check_password p name password (some (build_user_row row)) s ≡ refuse_password p name s
unfolding check_password build_user_row lift ◌>>=◌ after
wrong_password p name password s row a v = rw (a, v) refl

-- Signing in does not tell an unknown or deactivated name from a wrong password: where there is
-- no active row under the name, or its hash does not verify, `verifyPassword` does what one
-- procedure of the name alone does. This gives out no user and leaves users and sessions as they
-- are.
pub verify_user-uniform :
    (p : Platform) (name password : Bytes) (s : AuthState) (u : UserCredentials)
    → verdict p password (active_with_name name s.app_users) ≡ returned false
    → (verify_user p name password s ≡ refuse_password p name s)
      × ((refuse_password p name s).0 ≢ returned (some u))
      × ((refuse_password p name s).1.app_users ≡ s.app_users)
      × ((refuse_password p name s).1.auth_sessions ≡ s.auth_sessions)
unfolding verify_user find_by_username check_password ◌>>=◌ after verdict
verify_user-uniform p name password s u h =
    let (users, sessions) = refuse_password_leaves p name s in
    let refused = refuse_password-result p name s u in
    elim (Option-cases (active_with_name name s.app_users)) [
      | inl e ↦ (rw e refl, refused, users, sessions)
      | inr (row, e) ↦
          let wrong : verify_password p password row.password_hash ≡ returned false = rw e at h in
          (
            rw e (
                wrong_password p name password s row
                  (active_with_name-active name row s.app_users e) wrong),
            refused,
            users,
            sessions,
          )
    ]
