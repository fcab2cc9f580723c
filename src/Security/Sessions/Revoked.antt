-- ===== src/Security/Sessions/Revoked.antt =====
-- Rows of `auth_sessions` whose token is revoked (src/security/auth_session_repository.cpp).
use url_shortener.Prelude.{
  ℕ, ◌≡◌, refl, Bool, true, false, ◌&&◌, ◌||◌, not, some, List, [], ◌∷◌, ◌++◌, arith, is_some,
  Bytes, ◌=ᵇ◌, bytes_eq_iff,
}
use url_shortener.Security.Effects.{AuthSession}
use url_shortener.Security.Sessions.{
  session_is_active, session_conflict, session_with_hash, build_session, use_rows, revoke_rows,
  revoke_rows_of_user,
}

unfoldable pub has_hash : Bytes → List AuthSession → Bool
has_hash hash [] = false
has_hash hash (x ∷ xs) = (x.token_hash =ᵇ hash) || has_hash hash xs

unfoldable pub all_revoked : Bytes → List AuthSession → Bool
all_revoked hash [] = true
all_revoked hash (x ∷ xs) =
    (not (x.token_hash =ᵇ hash) || is_some x.revoked_at) && all_revoked hash xs

-- A token hash that was given out and is revoked.
unfoldable pub is_dead : Bytes → List AuthSession → Bool
unfolding has_hash all_revoked
is_dead hash rows = has_hash hash rows && all_revoked hash rows

has_hash-session_conflict :
    (hash : Bytes) (row : AuthSession) (xs : List AuthSession)
    → has_hash hash xs ≡ true
    → session_conflict row xs ≡ false
    → (row.token_hash =ᵇ hash) ≡ false
unfolding has_hash session_conflict
has_hash-session_conflict hash row [] h k = cc
has_hash-session_conflict hash row (x ∷ xs) h k = ground (
  arith,
  has_hash-session_conflict hash row xs,
  bytes_eq_iff x.token_hash hash,
  bytes_eq_iff row.token_hash hash,
  bytes_eq_iff x.token_hash row.token_hash,
)

is_dead-append :
    (hash : Bytes) (row : AuthSession) (xs : List AuthSession)
    → (row.token_hash =ᵇ hash) ≡ false
    → (has_hash hash (xs ++ row ∷ []) ≡ has_hash hash xs)
      × (all_revoked hash (xs ++ row ∷ []) ≡ all_revoked hash xs)
unfolding has_hash all_revoked
is_dead-append hash row [] k = ground arith
is_dead-append hash row (x ∷ xs) k = ground (arith, is_dead-append hash row xs k)

pub is_dead-insert :
    (hash : Bytes) (row : AuthSession) (xs : List AuthSession)
    → is_dead hash xs ≡ true
    → session_conflict row xs ≡ false
    → is_dead hash (xs ++ row ∷ []) ≡ true
unfolding is_dead
is_dead-insert hash row xs h k =
    let other : (row.token_hash =ᵇ hash) ≡ false =
      has_hash-session_conflict hash row xs (ground arith) k in
    ground (arith, is_dead-append hash row xs other)

use_rows_keep :
    (hash : Bytes) (n : ℕ) (id : Bytes) (xs : List AuthSession)
    → (has_hash hash (use_rows n id xs) ≡ has_hash hash xs)
      × (all_revoked hash (use_rows n id xs) ≡ all_revoked hash xs)
unfolding has_hash all_revoked use_rows
use_rows_keep hash n id [] = (refl, refl)
use_rows_keep hash n id (x ∷ xs) = ground (arith, use_rows_keep hash n id xs)

pub is_dead-use_rows :
    (hash : Bytes) (n : ℕ) (id : Bytes) (xs : List AuthSession)
    → is_dead hash xs ≡ true
    → is_dead hash (use_rows n id xs) ≡ true
unfolding is_dead
is_dead-use_rows hash n id xs h = ground (arith, use_rows_keep hash n id xs)

-- Revoking keeps the hashes and revokes more.
revoke_rows_keep :
    (hash : Bytes) (n : ℕ) (other : Bytes) (xs : List AuthSession)
    → (has_hash hash (revoke_rows n other xs) ≡ has_hash hash xs)
      × (all_revoked hash xs ≡ true → all_revoked hash (revoke_rows n other xs) ≡ true)
unfolding has_hash all_revoked revoke_rows
revoke_rows_keep hash n other [] = ground arith
revoke_rows_keep hash n other (x ∷ xs) = ground (arith, revoke_rows_keep hash n other xs)

pub is_dead-revoke_rows :
    (hash : Bytes) (n : ℕ) (other : Bytes) (xs : List AuthSession)
    → is_dead hash xs ≡ true
    → is_dead hash (revoke_rows n other xs) ≡ true
unfolding is_dead
is_dead-revoke_rows hash n other xs h = ground (arith, revoke_rows_keep hash n other xs)

revoke_rows_of_user_keep :
    (hash : Bytes) (n : ℕ) (id : Bytes) (xs : List AuthSession)
    → (has_hash hash (revoke_rows_of_user n id xs) ≡ has_hash hash xs)
      × (all_revoked hash xs ≡ true → all_revoked hash (revoke_rows_of_user n id xs) ≡ true)
unfolding has_hash all_revoked revoke_rows_of_user
revoke_rows_of_user_keep hash n id [] = ground arith
revoke_rows_of_user_keep hash n id (x ∷ xs) = ground (arith, revoke_rows_of_user_keep hash n id xs)

pub is_dead-revoke_rows_of_user :
    (hash : Bytes) (n : ℕ) (id : Bytes) (xs : List AuthSession)
    → is_dead hash xs ≡ true
    → is_dead hash (revoke_rows_of_user n id xs) ≡ true
unfolding is_dead
is_dead-revoke_rows_of_user hash n id xs h = ground (arith, revoke_rows_of_user_keep hash n id xs)

revoke_rows-all_revoked :
    (hash : Bytes) (n : ℕ) (xs : List AuthSession) → all_revoked hash (revoke_rows n hash xs) ≡ true
unfolding all_revoked revoke_rows
revoke_rows-all_revoked hash n [] = refl
revoke_rows-all_revoked hash n (x ∷ xs) = ground (arith, revoke_rows-all_revoked hash n xs)

pub revoke_rows-is_dead :
    (hash : Bytes) (n : ℕ) (xs : List AuthSession)
    → has_hash hash xs ≡ true
    → is_dead hash (revoke_rows n hash xs) ≡ true
unfolding is_dead
revoke_rows-is_dead hash n xs h =
    ground (arith, revoke_rows_keep hash n hash xs, revoke_rows-all_revoked hash n xs)

found-revoked :
    (hash : Bytes) (x : AuthSession) (xs : List AuthSession)
    → all_revoked hash xs ≡ true
    → session_with_hash hash xs ≡ some x
    → is_some x.revoked_at ≡ true
unfolding all_revoked session_with_hash
found-revoked hash x [] h e = cc
found-revoked hash x (y ∷ ys) h e = ground (arith, found-revoked hash x ys)

revoked-session_is_active :
    (x : AuthSession) (time : ℕ)
    → is_some x.revoked_at ≡ true
    → session_is_active time (build_session x) ≡ false
unfolding session_is_active build_session
revoked-session_is_active x time h = ground arith

-- The session that a dead hash leads to is revoked, so it is active at no time.
pub session_with_hash-revoked :
    (hash : Bytes) (x : AuthSession) (xs : List AuthSession) (time : ℕ)
    → is_dead hash xs ≡ true
    → session_with_hash hash xs ≡ some x
    → session_is_active time (build_session x) ≡ false
unfolding is_dead
session_with_hash-revoked hash x xs time h e =
    revoked-session_is_active x time (found-revoked hash x xs (ground arith) e)
