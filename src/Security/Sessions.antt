-- ===== src/Security/Sessions.antt =====
-- src/security/auth_session.cpp and auth_session_repository.cpp over the rows of `auth_sessions`,
-- whose `id` is a PRIMARY KEY and whose `token_hash` is UNIQUE.
pub mod Revoked
use url_shortener.Prelude.{
  ℕ, Bool, true, false, ◌&&◌, ◌||◌, not, Option, none, some, List, [], ◌∷◌, ◌++◌, leb,
  if◌then◌else◌, is_some, Bytes, ◌=ᵇ◌,
}
use url_shortener.Security.Effects.{
  Platform, AuthSession, constraint_violated, returned, thrown, Exec, ◌>>=◌, pure, now, generate_id,
  to_epoch, from_epoch,
}
use mathlib.Core.Option.{map as map_option}

unfoldable pub session_is_active : ℕ → AuthSession → Bool
session_is_active time x =
    if is_some x.revoked_at then false else if leb x.expires_at time then false else true

unfoldable pub session_conflict : AuthSession → List AuthSession → Bool
session_conflict row [] = false
session_conflict row (x ∷ xs) =
    (x.id =ᵇ row.id) || (x.token_hash =ᵇ row.token_hash) || session_conflict row xs

unfoldable pub insert_session : AuthSession → Exec Unit
unfolding session_conflict
insert_session row s =
    if session_conflict row s.auth_sessions
    then (thrown constraint_violated, s)
    else (returned tt, record s { auth_sessions = s.auth_sessions ++ row ∷ [] })

unfoldable pub session_with_hash : Bytes → List AuthSession → Option AuthSession
session_with_hash token_hash [] = none
session_with_hash token_hash (x ∷ xs) =
    if x.token_hash =ᵇ token_hash then some x else session_with_hash token_hash xs

unfoldable pub build_session : AuthSession → AuthSession
unfolding from_epoch
build_session x = record x {
  created_at = from_epoch x.created_at;
  expires_at = from_epoch x.expires_at;
  revoked_at = map_option from_epoch x.revoked_at;
  last_used_at = map_option from_epoch x.last_used_at;
}

-- The three `UPDATE`s of `auth_sessions`.
unfoldable pub use_rows : ℕ → Bytes → List AuthSession → List AuthSession
use_rows seconds id [] = []
use_rows seconds id (x ∷ xs) =
    (if x.id =ᵇ id then record x { last_used_at = some seconds } else x) ∷ use_rows seconds id xs

unfoldable pub revoke_rows : ℕ → Bytes → List AuthSession → List AuthSession
revoke_rows seconds token_hash [] = []
revoke_rows seconds token_hash (x ∷ xs) =
    (if x.token_hash =ᵇ token_hash then record x { revoked_at = some seconds } else x)
    ∷ revoke_rows seconds token_hash xs

unfoldable pub revoke_rows_of_user : ℕ → Bytes → List AuthSession → List AuthSession
revoke_rows_of_user seconds user_id [] = []
revoke_rows_of_user seconds user_id (x ∷ xs) =
    (if (x.user_id =ᵇ user_id) && not (is_some x.revoked_at)
      then record x { revoked_at = some seconds }
      else x)
    ∷ revoke_rows_of_user seconds user_id xs

unfoldable pub update_sessions : (List AuthSession → List AuthSession) → Exec Unit
update_sessions f s = (returned tt, record s { auth_sessions = f s.auth_sessions })

unfoldable pub select_session : Bytes → Exec (Option AuthSession)
select_session token_hash s =
    (returned (map_option build_session (session_with_hash token_hash s.auth_sessions)), s)

module _ (platform : Platform) where
  unfoldable pub create_session_row : Bytes → Bytes → ℕ → Option Bytes → Exec AuthSession
  create_session_row user_id token_hash expires_at client_id =
      generate_id platform >>= (λ (id : Bytes). now platform >>= (λ (time : ℕ).
        let x : AuthSession = record {
          id = id;
          user_id = user_id;
          client_id = client_id;
          token_hash = token_hash;
          created_at = time;
          expires_at = expires_at;
          revoked_at = none;
          last_used_at = none;
        } in
        insert_session (record x { created_at = to_epoch time; expires_at = to_epoch expires_at })
        >>= (λ (u : Unit). pure x)))

  -- A session that is active is marked as used.
  unfoldable pub mark_used : AuthSession → ℕ → Exec (Option AuthSession)
  mark_used x time =
      if session_is_active time x
      then update_sessions (use_rows (to_epoch time) x.id)
        >>= (λ (u : Unit). pure (some (record x { last_used_at = some time })))
      else pure (some x)

  unfoldable pub use_found : Option AuthSession → Exec (Option AuthSession)
  unfolding mark_used
  use_found none = pure none
  use_found (some x) = now platform >>= mark_used x

  unfoldable pub find_by_token_hash : Bytes → Exec (Option AuthSession)
  find_by_token_hash token_hash = select_session token_hash >>= use_found

  unfoldable pub revoke_by_token_hash : Bytes → Exec Unit
  revoke_by_token_hash token_hash =
      now platform >>= (λ (time : ℕ). update_sessions (revoke_rows (to_epoch time) token_hash))

  unfoldable pub revoke_all_for_user : Bytes → Exec Unit
  revoke_all_for_user user_id =
      now platform >>= (λ (time : ℕ). update_sessions (revoke_rows_of_user (to_epoch time) user_id))
