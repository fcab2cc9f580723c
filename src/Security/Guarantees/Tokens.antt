-- ===== src/Security/Guarantees/Tokens.antt =====
-- Revoked tokens (`revokeToken` and `introspectToken` of src/security/auth_broker_service.cpp).
use url_shortener.Prelude.{
  ℕ, ◌≡◌, ◌≢◌, inl, inr, true, Option, none, some, List, Option-cases, Bytes,
}
use url_shortener.Security.Effects.{
  Platform, AuthState, Reply, returned, thrown, after, ◌>>=◌, pure, now,
}
use url_shortener.Security.Sessions.{update_sessions, session_with_hash, revoke_by_token_hash}
use url_shortener.Security.Sessions.Revoked.{
  has_hash, is_dead, is_dead-insert, is_dead-use_rows, is_dead-revoke_rows,
  is_dead-revoke_rows_of_user, revoke_rows-is_dead, session_with_hash-revoked,
}
use url_shortener.Security.Broker.{
  IntrospectResult, hash_token, introspect_failure, introspect_token, revoke_token,
}
use url_shortener.Security.Broker.Outcomes.{
  read_twice, introspect_token-unknown, introspect_token-inactive,
}
use url_shortener.Security.AuditLog.{append, token_revoke, token_introspect, success, failure}
use url_shortener.Security.History.{Operation, left, perform_all}
use url_shortener.Security.History.Keeping.{Stable, append-Keeps}
use url_shortener.Security.History.Services.{perform_all-Keeps}

abbrev Dead : Bytes → AuthState → Type 0
Dead hash s = is_dead hash s.auth_sessions ≡ true

Dead-Stable : (hash : Bytes) (p : Platform) → Stable (Dead hash) p
Dead-Stable hash p = record {
  after_reading = λ s h. h;
  after_draw = λ s h. h;
  after_insert_user = λ u s e h. h;
  after_deactivate = λ n username s h. h;
  after_touch = λ n id s h. h;
  after_insert_session = λ x s e h. is_dead-insert hash x s.auth_sessions h e;
  after_use = λ n id s h. is_dead-use_rows hash n id s.auth_sessions h;
  after_revoke = λ n other s h. is_dead-revoke_rows hash n other s.auth_sessions h;
  after_revoke_all = λ n id s h. is_dead-revoke_rows_of_user hash n id s.auth_sessions h;
  after_insert_entry = λ x s e h. h;
}

-- The state of a revocation, also where its audit entry is refused.
revoke_token-Dead :
    (p : Platform) (token : Bytes) (s : AuthState)
    → has_hash (hash_token p token) s.auth_sessions ≡ true
    → Dead (hash_token p token) (left (revoke_token p token) s)
unfolding left revoke_token revoke_by_token_hash update_sessions now ◌>>=◌ after
revoke_token-Dead p token s h =
    append-Keeps (Dead (hash_token p token)) p (Dead-Stable (hash_token p token) p) token_revoke
      success none none none _ (revoke_rows-is_dead (hash_token p token) _ s.auth_sessions h)

pub after-none :
    {A B : Type 0} (r : Reply A × AuthState) (x : B)
    → (after r (λ (u : A). pure {A = Option B} none)).0 ≢ returned (some x)
unfolding after pure
after-none (returned u, s) x e = cc
after-none (thrown e, s) x h = cc

pub introspect_failure-result :
    (p : Platform) (s : AuthState) (r : IntrospectResult)
    → (introspect_failure p s).0 ≢ returned (some r)
unfolding introspect_failure ◌>>=◌
introspect_failure-result p s r = after-none (append p token_introspect failure none none none s) r

-- A token whose hash is dead is not introspected as active.
introspect_token-Dead :
    (p : Platform) (token : Bytes) (s : AuthState) (r : IntrospectResult)
    → Dead (hash_token p token) s
    → (introspect_token p token s).0 ≢ returned (some r)
introspect_token-Dead p token s r h =
    elim (Option-cases (session_with_hash (hash_token p token) s.auth_sessions)) [
      | inl e ↦ rw (introspect_token-unknown p token s e) (introspect_failure-result p s r)
      | inr (x, e) ↦
          rw
            (introspect_token-inactive p token s x e
              (session_with_hash-revoked _ x s.auth_sessions _ h e)
              (session_with_hash-revoked _ x s.auth_sessions _ h e))
            (introspect_failure-result p (read_twice s) r)
    ]

-- A token of a session that exists, once `revokeToken` was called with it, is never again
-- introspected as active: not after any sequence of further calls, whoever makes them and
-- whatever the clock, the random source and OpenSSL give.
pub introspect_token-revoked :
    (p : Platform) (lifetime : ℕ) (token : Bytes) (s : AuthState) (os : List Operation)
    (r : IntrospectResult)
    → has_hash (hash_token p token) s.auth_sessions ≡ true
    → (introspect_token p token (perform_all p lifetime os (left (revoke_token p token) s))).0
      ≢ returned (some r)
introspect_token-revoked p lifetime token s os r h = introspect_token-Dead p token _ r (
    perform_all-Keeps (Dead (hash_token p token)) p (Dead-Stable (hash_token p token) p) lifetime os
      _ (revoke_token-Dead p token s h))
