-- ===== src/Security/Guarantees/Returned.antt =====
-- What follows when the steps of `createSession` return (src/security/auth_broker_service.cpp).
use url_shortener.Prelude.{
  ℕ, suc, ◌≡◌, refl, sym, ap, ◌∙◌, inl, inr, Bool, true, false, Option, none, some, List, [], ◌∷◌,
  ◌++◌, arith, Bool-cases, is_some, Bytes, bytes_eq_iff, bytes_eq_refl,
}
use url_shortener.Core.Text.{hex_encode}
use url_shortener.Security.Effects.{
  Platform, UserCredentials, AuthSession, AuthState, Reply, returned, thrown, Exec, after, ◌>>=◌,
  pure, now, draw, generate_id, to_epoch, constraint_violated,
}
use url_shortener.Security.Users.{active_with_name, active_with_id, touch_rows}
use url_shortener.Security.Sessions.{
  session_conflict, session_with_hash, insert_session, create_session_row,
}
use url_shortener.Security.Broker.{token_drawn, generate_token}
use url_shortener.Security.AuditLog.{AuditAction, AuditResult, append, has_entry, insert_entry}

-- A call that returned went through its first part, which returned.
after-returned :
    {A B : Type 0} (r : Reply A × AuthState) (f : A → Exec B) (y : B) (t : AuthState)
    → after r f ≡ (returned y, t)
    → (x : A) × (s : AuthState) × (r ≡ (returned x, s)) × (f x s ≡ (returned y, t))
unfolding after
after-returned (returned x, s) f y t e = (x, s, refl, e)
after-returned (thrown x, s) f y t e = cc

pub bind-returned :
    {A B : Type 0} (m : Exec A) (f : A → Exec B) {y : B} {s t : AuthState}
    → (m >>= f) s ≡ (returned y, t)
    → (x : A) × (r : AuthState) × (m s ≡ (returned x, r)) × (f x r ≡ (returned y, t))
unfolding ◌>>=◌
bind-returned m f {y = y} {s = s} {t = t} e = after-returned (m s) f y t e

pub returned_inj :
    {A : Type 0} (x y : A) (s t : AuthState)
    → ◌≡◌ {A = Reply A × AuthState} (returned x, s) (returned y, t)
    → (x ≡ y) × (s ≡ t)
returned_inj x y s t e = (cc, cc)

-- What an audit entry leaves alone.
pub append_leaves :
    (p : Platform) (a : AuditAction) (r : AuditResult) (name user_id client_id : Option Bytes)
    (s : AuthState)
    → ((append p a r name user_id client_id s).1.app_users ≡ s.app_users)
      × ((append p a r name user_id client_id s).1.auth_sessions ≡ s.auth_sessions)
unfolding append generate_id draw now pure ◌>>=◌ after insert_entry
append_leaves p a r name user_id client_id s =
    elim (Bool-cases (has_entry (hex_encode (p.rand_bytes s.draws 16).1) s.auth_audit_log)) [
      | inl e ↦ (rw e refl, rw e refl)
      | inr e ↦ (rw e refl, rw e refl)
    ]

pub append-fresh :
    (p : Platform) (a : AuditAction) (r : AuditResult) (name user_id client_id : Option Bytes)
    (s : AuthState)
    → has_entry (hex_encode (p.rand_bytes s.draws 16).1) s.auth_audit_log ≡ false
    → (append p a r name user_id client_id s).0 ≡ returned tt
unfolding append generate_id draw now pure ◌>>=◌ after insert_entry
append-fresh p a r name user_id client_id s e = rw e refl

session_with_hash-push :
    (row : AuthSession) (xs : List AuthSession)
    → session_conflict row xs ≡ false
    → session_with_hash row.token_hash (xs ++ row ∷ []) ≡ some row
unfolding session_with_hash session_conflict
session_with_hash-push row [] e = rw (bytes_eq_refl row.token_hash) refl
session_with_hash-push row (x ∷ xs) e = ground (arith, session_with_hash-push row xs)

-- A session as its row holds it.
abbrev pub stored : AuthSession → AuthSession
stored x = record x { created_at = to_epoch x.created_at; expires_at = to_epoch x.expires_at }

-- The session that a call makes, and the state with its row.
abbrev opened : Platform → Bytes → Bytes → ℕ → Option Bytes → AuthState → AuthSession
opened p user_id hash expires_at client_id s = record {
  id = hex_encode (p.rand_bytes s.draws 16).1;
  user_id = user_id;
  client_id = client_id;
  token_hash = hash;
  created_at = p.clock s.readings;
  expires_at = expires_at;
  revoked_at = none;
  last_used_at = none;
}

create_session_row-thrown :
    (p : Platform) (user_id hash : Bytes) (expires_at : ℕ) (client_id : Option Bytes)
    (s : AuthState)
    → session_conflict (stored (opened p user_id hash expires_at client_id s)) s.auth_sessions
      ≡ true
    → (create_session_row p user_id hash expires_at client_id s).0 ≡ thrown constraint_violated
unfolding create_session_row generate_id draw now pure ◌>>=◌ after insert_session
create_session_row-thrown p user_id hash expires_at client_id s c = rw c refl

create_session_row-stored :
    (p : Platform) (user_id hash : Bytes) (expires_at : ℕ) (client_id : Option Bytes)
    (s : AuthState)
    → session_conflict (stored (opened p user_id hash expires_at client_id s)) s.auth_sessions
      ≡ false
    → create_session_row p user_id hash expires_at client_id s ≡ (
      returned (opened p user_id hash expires_at client_id s),
      record s {
        auth_sessions =
            s.auth_sessions ++ stored (opened p user_id hash expires_at client_id s) ∷ [];
        readings = suc s.readings;
        draws = suc s.draws;
      },
    )
unfolding create_session_row generate_id draw now pure ◌>>=◌ after insert_session
create_session_row-stored p user_id hash expires_at client_id s c = rw c refl

-- What a call that returned says of its session and of the tables.
pub record Opened (user_id hash : Bytes) (expires_at : ℕ) (s t : AuthState) (x : AuthSession)
    : Type 0 where
  pub same_users : t.app_users ≡ s.app_users
  pub found : session_with_hash hash t.auth_sessions ≡ some (stored x)
  pub of_user : x.user_id ≡ user_id
  pub expiry : x.expires_at ≡ expires_at
  pub unrevoked : x.revoked_at ≡ none

opened-Opened :
    (p : Platform) (user_id hash : Bytes) (expires_at : ℕ) (client_id : Option Bytes)
    (s t : AuthState) (x : AuthSession)
    → session_conflict (stored (opened p user_id hash expires_at client_id s)) s.auth_sessions
      ≡ false
    → (opened p user_id hash expires_at client_id s ≡ x)
      × (record s {
        auth_sessions =
            s.auth_sessions ++ stored (opened p user_id hash expires_at client_id s) ∷ [];
        readings = suc s.readings;
        draws = suc s.draws;
      }
          ≡ t)
    → Opened user_id hash expires_at s t x
opened-Opened p user_id hash expires_at client_id s t x c (same, left) =
    let row : AuthSession = stored (opened p user_id hash expires_at client_id s) in
    rw (← same, ← left)
      (record {
        same_users = refl;
        found = session_with_hash-push row s.auth_sessions c;
        of_user = refl;
        expiry = refl;
        unrevoked = refl;
      })

pub create_session_row-returned :
    (p : Platform) (user_id hash : Bytes) (expires_at : ℕ) (client_id : Option Bytes)
    (s t : AuthState) (x : AuthSession)
    → create_session_row p user_id hash expires_at client_id s ≡ (returned x, t)
    → Opened user_id hash expires_at s t x
create_session_row-returned p user_id hash expires_at client_id s t x e =
    let new : AuthSession = opened p user_id hash expires_at client_id s in
    elim (Bool-cases (session_conflict (stored new) s.auth_sessions)) [
      | inl c ↦ cc (create_session_row-thrown p user_id hash expires_at client_id s c)
      | inr c ↦ opened-Opened p user_id hash expires_at client_id s t x c (
          returned_inj _ x _ t
            (sym (create_session_row-stored p user_id hash expires_at client_id s c) ∙ e))
    ]

token_drawn_leaves : (p : Platform) (w : Bool × Bytes) (s : AuthState) → (token_drawn p w s).1 ≡ s
unfolding token_drawn
token_drawn_leaves p (true, w) s = refl
token_drawn_leaves p (false, w) s = refl

pub generate_token_leaves :
    (p : Platform) (n : ℕ) (s : AuthState)
    → (generate_token p n s).1 ≡ record s { draws = suc s.draws }
unfolding generate_token draw ◌>>=◌ after
generate_token_leaves p n s = token_drawn_leaves p (p.rand_bytes s.draws n) _

pub now_leaves :
    (p : Platform) (s : AuthState) → (now p s).1 ≡ record s { readings = suc s.readings }
unfolding now
now_leaves p s = refl

-- The state after a call that returned.
pub left_state :
    {A : Type 0} {r : Reply A × AuthState} {x : A} {s : AuthState} → r ≡ (returned x, s) → r.1 ≡ s
left_state {A = A} e = ap (λ (r : Reply A × AuthState). r.1) e

pub active_with_name-id :
    (name : Bytes) (row : UserCredentials) (xs : List UserCredentials)
    → active_with_name name xs ≡ some row
    → is_some (active_with_id row.id xs) ≡ true
unfolding active_with_name active_with_id
active_with_name-id name row [] e = cc
active_with_name-id name row (x ∷ xs) e =
    ground (arith, active_with_name-id name row xs, bytes_eq_refl row.id)

pub touch_rows-active_with_id :
    (k : Bytes) (n : ℕ) (user_id : Bytes) (xs : List UserCredentials)
    → is_some (active_with_id k (touch_rows n user_id xs)) ≡ is_some (active_with_id k xs)
unfolding active_with_id touch_rows
touch_rows-active_with_id k n user_id [] = refl
touch_rows-active_with_id k n user_id (x ∷ xs) =
    ground (arith, touch_rows-active_with_id k n user_id xs)

pub active_with_id-id :
    (k : Bytes) (row : UserCredentials) (xs : List UserCredentials)
    → active_with_id k xs ≡ some row
    → row.id ≡ k
unfolding active_with_id
active_with_id-id k row [] e = cc
active_with_id-id k row (x ∷ xs) e = ground (arith, active_with_id-id k row xs, bytes_eq_iff x.id k)
