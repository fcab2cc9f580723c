-- ===== src/Security/Broker/Outcomes.antt =====
-- The branches of `introspectToken` and `verifyPassword` (src/security/auth_broker_service.cpp).
use url_shortener.Prelude.{ℕ, suc, ◌≡◌, refl, ◌∙◌, true, false, Option, none, some, Bytes}
use mathlib.Core.Option.{map as map_option}
use url_shortener.Security.Effects.{
  Platform, AuthSession, AuthState, returned, after, ◌>>=◌, pure, now, to_epoch,
}
use url_shortener.Security.Users.{build_user_row, active_with_id, find_by_id}
use url_shortener.Security.Sessions.{
  session_is_active, update_sessions, use_rows, build_session, session_with_hash, select_session,
  mark_used, use_found, find_by_token_hash,
}
use url_shortener.Security.Broker.{
  hash_token, introspect_failure, introspect_user, introspect_at, introspect_session,
  introspect_token,
}

-- The clock has been read once, or twice, more.
abbrev pub read_once : AuthState → AuthState
read_once s = record s { readings = suc s.readings }

abbrev pub read_twice : AuthState → AuthState
read_twice s = record s { readings = suc (suc s.readings) }

session_is_active-last_used :
    (time : ℕ) (x : AuthSession) (o : Option ℕ)
    → session_is_active time (record x { last_used_at = o }) ≡ session_is_active time x
unfolding session_is_active
session_is_active-last_used time x o = refl

pub build_session-ids :
    (x : AuthSession) → ((build_session x).id ≡ x.id) × ((build_session x).user_id ≡ x.user_id)
unfolding build_session
build_session-ids x = (refl, refl)

module _ (p : Platform) where
  pub introspect_at-inactive :
      (x : AuthSession) (time : ℕ) (s : AuthState)
      → session_is_active time x ≡ false
      → introspect_at p x time s ≡ introspect_failure p s
  unfolding introspect_at
  introspect_at-inactive x time s h = rw h refl

  pub introspect_at-active :
      (x : AuthSession) (time : ℕ) (s : AuthState)
      → session_is_active time x ≡ true
      → introspect_at p x time s
        ≡ introspect_user p x (map_option build_user_row (active_with_id x.user_id s.app_users)) s
  unfolding introspect_at find_by_id ◌>>=◌ after
  introspect_at-active x time s h = rw h refl

  module _ (hash : Bytes) (s : AuthState) where
    find_by_token_hash-unknown :
        session_with_hash hash s.auth_sessions ≡ none
        → find_by_token_hash p hash s ≡ (returned none, s)
    unfolding find_by_token_hash select_session use_found ◌>>=◌ after pure
    find_by_token_hash-unknown e = rw e refl

    pub find_by_token_hash-inactive :
        (x : AuthSession)
        → session_with_hash hash s.auth_sessions ≡ some x
        → session_is_active (p.clock s.readings) (build_session x) ≡ false
        → find_by_token_hash p hash s ≡ (returned (some (build_session x)), read_once s)
    unfolding find_by_token_hash select_session use_found mark_used now ◌>>=◌ after pure
    find_by_token_hash-inactive x e h = rw (e, h) refl

    pub find_by_token_hash-active :
        (x : AuthSession)
        → session_with_hash hash s.auth_sessions ≡ some x
        → session_is_active (p.clock s.readings) (build_session x) ≡ true
        → find_by_token_hash p hash s ≡ (
          returned (some (record (build_session x) { last_used_at = some (p.clock s.readings) })),
          record s {
            auth_sessions =
                use_rows (to_epoch (p.clock s.readings)) (build_session x).id s.auth_sessions;
            readings = suc s.readings;
          },
        )
    unfolding find_by_token_hash select_session use_found mark_used update_sessions now ◌>>=◌ after
        pure
    find_by_token_hash-active x e h = rw (e, h) refl

module _ (p : Platform) (token : Bytes) (s : AuthState) where
  pub introspect_token-unknown :
      session_with_hash (hash_token p token) s.auth_sessions ≡ none
      → introspect_token p token s ≡ introspect_failure p s
  unfolding introspect_token introspect_session ◌>>=◌ after
  introspect_token-unknown e = rw (find_by_token_hash-unknown p (hash_token p token) s e) refl

  pub introspect_token-inactive :
      (x : AuthSession)
      → session_with_hash (hash_token p token) s.auth_sessions ≡ some x
      → session_is_active (p.clock s.readings) (build_session x) ≡ false
      → session_is_active (p.clock (suc s.readings)) (build_session x) ≡ false
      → introspect_token p token s ≡ introspect_failure p (read_twice s)
  unfolding introspect_token introspect_session now ◌>>=◌ after
  introspect_token-inactive x e h k =
      rw (find_by_token_hash-inactive p (hash_token p token) s x e h)
        (introspect_at-inactive p (build_session x) (p.clock (suc s.readings)) (read_twice s) k)

  -- The state in which the user of an active session is looked up.
  abbrev pub used : AuthSession → AuthState
  used x = record s {
    auth_sessions = use_rows (to_epoch (p.clock s.readings)) (build_session x).id s.auth_sessions;
    readings = suc (suc s.readings);
  }

  pub introspect_token-active :
      (x : AuthSession)
      → session_with_hash (hash_token p token) s.auth_sessions ≡ some x
      → session_is_active (p.clock s.readings) (build_session x) ≡ true
      → session_is_active (p.clock (suc s.readings)) (build_session x) ≡ true
      → introspect_token p token s
        ≡ introspect_user p
            (record (build_session x) { last_used_at = some (p.clock s.readings) })
            (map_option build_user_row (active_with_id (build_session x).user_id s.app_users))
            (used x)
  unfolding introspect_token introspect_session now ◌>>=◌ after
  introspect_token-active x e h k =
      let y : AuthSession = record (build_session x) { last_used_at = some (p.clock s.readings) } in
      let last : session_is_active (p.clock (suc s.readings)) y ≡ true =
        session_is_active-last_used (p.clock (suc s.readings)) (build_session x)
          (some (p.clock s.readings))
        ∙ k in
      rw (find_by_token_hash-active p (hash_token p token) s x e h)
        (introspect_at-active p y (p.clock (suc s.readings)) (used x) last)
