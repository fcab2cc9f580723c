-- ===== src/Security/Guarantees/SignIn.antt =====
-- `createSession` followed by `introspectToken` (src/security/auth_broker_service.cpp).
use url_shortener.Prelude.{
  ℕ, suc, ◌+◌, ◌*◌, ◌<◌, ◌≡◌, refl, sym, ap, ◌∙◌, inl, inr, true, false, Option, none, some, arith,
  Option-cases, is_some, Bytes,
}
use url_shortener.Core.Text.{hex_encode}
use url_shortener.Security.Effects.{
  Platform, UserCredentials, AuthSession, AuthState, Reply, returned, thrown, after, ◌>>=◌, pure,
  to_epoch, from_epoch, ticks,
}
use url_shortener.Security.Users.{build_user_row, active_with_id}
use url_shortener.Security.Sessions.{build_session, session_is_active, session_with_hash}
use url_shortener.Security.Broker.{
  IntrospectResult, CreateSessionResult, hash_token, verify_user, open_session, session_for,
  create_session, introspect_user, introspect_token,
}
use url_shortener.Security.Broker.Outcomes.{used, build_session-ids, introspect_token-active}
use url_shortener.Security.AuditLog.{
  append, has_entry, session_create, token_introspect, success, failure,
}
use url_shortener.Security.Guarantees.Tokens.{after-none}
use url_shortener.Security.Guarantees.Returned.{
  returned_inj, append_leaves, append-fresh, stored, Opened, create_session_row-returned,
  active_with_id-id, bind-returned, left_state, now_leaves, generate_token_leaves,
}
use url_shortener.Security.Guarantees.Verified.{verify_user-returned, build_user_row-id}

-- What a call that returned leaves: the row of its session, under the hash of its token, and the
-- users.
record SignedIn (lifetime : ℕ) (p : Platform) (u : UserCredentials) (s t : AuthState)
    (c : CreateSessionResult) : Type 0 where
  users_kept : t.app_users ≡ s.app_users
  row : session_with_hash (hash_token p c.raw_token) t.auth_sessions ≡ some (stored c.session)
  of_user : c.session.user_id ≡ u.id
  user_given : c.user ≡ u
  unrevoked : c.session.revoked_at ≡ none

open_session-returned :
    (p : Platform) (lifetime : ℕ) (name : Bytes) (client_id : Option Bytes) (u : UserCredentials)
    (s t : AuthState) (c : CreateSessionResult)
    → open_session p lifetime name client_id u s ≡ (returned (some c), t)
    → SignedIn lifetime p u s t c
unfolding open_session pure
open_session-returned p lifetime name client_id u s t c e =
    let (raw_token, s1, drawn, e1) = bind-returned _ _ e in
    let (time, s2, read, e2) = bind-returned _ _ e1 in
    let (session, s3, made, e3) = bind-returned _ _ e2 in
    let (v, s4, logged, last) = bind-returned _ _ e3 in
    let one : s1.app_users ≡ s.app_users =
      ap (λ (r : AuthState). r.app_users) (sym (left_state drawn) ∙ generate_token_leaves p 32 s) in
    let two : s2.app_users ≡ s1.app_users =
      ap (λ (r : AuthState). r.app_users) (sym (left_state read) ∙ now_leaves p s1) in
    let opened : Opened u.id (hash_token p raw_token) (time + lifetime * ticks) s2 s3 session =
      create_session_row-returned p u.id (hash_token p raw_token) (time + lifetime * ticks)
        client_id s2 s3 session made in
    let four = append_leaves p session_create success (some name) (some u.id) client_id s3 in
    let users : s4.app_users ≡ s.app_users =
      ap (λ (r : AuthState). r.app_users) (sym (left_state logged))
      ∙ four.0
      ∙ opened.same_users
      ∙ two
      ∙ one in
    let sessions : s4.auth_sessions ≡ s3.auth_sessions =
      ap (λ (r : AuthState). r.auth_sessions) (sym (left_state logged)) ∙ four.1 in
    let (result, end) = returned_inj _ _ s4 t last in
    let same : record { raw_token = raw_token; session = session; user = u } ≡ c = cc in
    rw (← same, ← end)
      (record {
        users_kept = users;
        row = ap (session_with_hash (hash_token p raw_token)) sessions ∙ opened.found;
        of_user = opened.of_user;
        user_given = refl;
        unrevoked = opened.unrevoked;
      })

session_for-returned :
    (p : Platform) (lifetime : ℕ) (name password : Bytes) (client_id : Option Bytes)
    (o : Option UserCredentials) (s r t : AuthState) (c : CreateSessionResult)
    → verify_user p name password s ≡ (returned o, r)
    → session_for p lifetime name client_id o r ≡ (returned (some c), t)
    → (u : UserCredentials) × (r : AuthState) × SignedIn lifetime p u r t c
      × (is_some (active_with_id u.id r.app_users) ≡ true)
unfolding session_for ◌>>=◌
session_for-returned p lifetime name password client_id none s r t c v e = absurd (
    after-none (append p session_create failure (some name) none client_id r) c
      (ap (λ (x : Reply (Option CreateSessionResult) × AuthState). x.0) e))
session_for-returned p lifetime name password client_id (some u) s r t c v e = (
  u,
  r,
  open_session-returned p lifetime name client_id u r t c e,
  verify_user-returned p name password u s r v,
)

create_session-returned :
    (p : Platform) (lifetime : ℕ) (name password : Bytes) (client_id : Option Bytes)
    (s t : AuthState) (c : CreateSessionResult)
    → create_session p lifetime name password client_id s ≡ (returned (some c), t)
    → (u : UserCredentials) × (r : AuthState) × SignedIn lifetime p u r t c
      × (is_some (active_with_id u.id r.app_users) ≡ true)
unfolding create_session
create_session-returned p lifetime name password client_id s t c e =
    let (o, r, verified, e1) = bind-returned _ _ e in
    session_for-returned p lifetime name password client_id o s r t c verified e1

session_is_active-stored :
    (x : AuthSession) (time : ℕ)
    → x.revoked_at ≡ none
    → time < from_epoch (to_epoch x.expires_at)
    → session_is_active time (build_session (stored x)) ≡ true
unfolding session_is_active build_session
session_is_active-stored x time e h = rw e (ground arith)

after-unit :
    {B : Type 0} (r : Reply Unit × AuthState) (y : B)
    → r.0 ≡ returned tt
    → (after r (λ (u : Unit). pure y)).0 ≡ returned y
unfolding after pure
after-unit (returned u, s) y e = refl
after-unit (thrown x, s) y e = cc

introspect_user-fresh :
    (p : Platform) (y : AuthSession) (user : UserCredentials) (s : AuthState)
    → has_entry (hex_encode (p.rand_bytes s.draws 16).1) s.auth_audit_log ≡ false
    → (introspect_user p y (some user) s).0 ≡ returned (some (record { user = user; session = y }))
unfolding introspect_user ◌>>=◌
introspect_user-fresh p y user s e =
    after-unit (append p token_introspect success (some user.username) (some user.id) none s)
      (some (record { user = user; session = y }))
      (append-fresh p token_introspect success (some user.username) (some user.id) none s e)

-- The session's row leads to a user that is switched on.
introspect_token-SignedIn :
    (p : Platform) (lifetime : ℕ) (s t : AuthState) (c : CreateSessionResult)
    (u row : UserCredentials)
    → SignedIn lifetime p u s t c
    → active_with_id u.id s.app_users ≡ some row
    → session_is_active (p.clock t.readings) (build_session (stored c.session)) ≡ true
    → session_is_active (p.clock (suc t.readings)) (build_session (stored c.session)) ≡ true
    → has_entry (hex_encode (p.rand_bytes t.draws 16).1) t.auth_audit_log ≡ false
    → (introspect_token p c.raw_token t).0
      ≡ returned (
          some (record {
            user = build_user_row row;
            session = record (build_session (stored c.session)) {
              last_used_at = some (p.clock t.readings);
            };
          }))
introspect_token-SignedIn p lifetime s t c u row signed f h k fresh =
    let x : AuthSession = stored c.session in
    let y : AuthSession = record (build_session x) { last_used_at = some (p.clock t.readings) } in
    let owner : active_with_id (build_session x).user_id t.app_users ≡ some row =
      rw ((build_session-ids x).1, signed.of_user, signed.users_kept) f in
    let branch = introspect_token-active p c.raw_token t x signed.row h k in
    let known : introspect_token p c.raw_token t
        ≡ introspect_user p y (some (build_user_row row)) (used p c.raw_token t x) =
      rw owner at branch in
    rw known (introspect_user-fresh p y (build_user_row row) (used p c.raw_token t x) fresh)

-- The token that `createSession` gave out is introspected as active, as of the user who signed in
-- and of the session made, as long as both readings of the clock stand before the expiry cut to
-- whole seconds and the id drawn for the audit entry is new.
pub introspect_token-create_session :
    (p : Platform) (lifetime : ℕ) (name password : Bytes) (client_id : Option Bytes)
    (s t : AuthState) (c : CreateSessionResult)
    → create_session p lifetime name password client_id s ≡ (returned (some c), t)
    → p.clock t.readings < from_epoch (to_epoch c.session.expires_at)
    → p.clock (suc t.readings) < from_epoch (to_epoch c.session.expires_at)
    → has_entry (hex_encode (p.rand_bytes t.draws 16).1) t.auth_audit_log ≡ false
    → (r : IntrospectResult) × ((introspect_token p c.raw_token t).0 ≡ returned (some r))
      × (r.user.id ≡ c.user.id)
      × (r.session.id ≡ c.session.id)
introspect_token-create_session p lifetime name password client_id s t c e h k fresh =
    let (u, r, signed, there) =
      create_session-returned p lifetime name password client_id s t c e in
    let active1 = session_is_active-stored c.session (p.clock t.readings) signed.unrevoked h in
    let active2 =
      session_is_active-stored c.session (p.clock (suc t.readings)) signed.unrevoked k in
    elim (Option-cases (active_with_id u.id r.app_users)) [
      | inl n ↦ let none_there : is_some (active_with_id u.id r.app_users) ≡ false = rw n refl in cc
      | inr (row, f) ↦ (
        record {
          user = build_user_row row;
          session = record (build_session (stored c.session)) {
            last_used_at = some (p.clock t.readings);
          };
        },
        introspect_token-SignedIn p lifetime r t c u row signed f active1 active2 fresh,
        rw (build_user_row-id row, signed.user_given) (active_with_id-id u.id row r.app_users f),
        (build_session-ids (stored c.session)).0,
      )
    ]
