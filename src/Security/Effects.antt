-- ===== src/Security/Effects.antt =====
-- What the security services share: the database of the auth tables
-- (src/storage/sql/migrations/005_auth_tables.sql) with the clock and the random source, and calls
-- that return or throw and keep what they changed before they threw.
use url_shortener.Prelude.{ℕ, suc, ◌*◌, ◌/◌, Bool, Option, List, Bytes, ℤ}
use url_shortener.Core.Text.{hex_encode}
use url_shortener.Security.ControlSet.{ControlSet}

-- OpenSSL and the system clock. `rand_bytes k n` is the k-th call of `RAND_bytes`: whether it
-- succeeded, and the buffer of `n` bytes after it. `clock k` is the k-th reading, in nanoseconds.
pub record Platform : Type 0 where
  pub rand_bytes : ℕ → ℕ → Bool × Bytes
  pub pbkdf2_hmac_sha256 : Bytes → Bytes → ℤ → ℕ → Option Bytes
  pub sha256 : Bytes → Bytes
  pub clock : ℕ → ℕ

-- A time is a number of nanoseconds since the epoch, a row holds whole seconds.
abbrev pub ticks : ℕ
ticks = 1000000000

unfoldable pub to_epoch : ℕ → ℕ
to_epoch time = time / ticks

unfoldable pub from_epoch : ℕ → ℕ
from_epoch seconds = seconds * ticks

pub record UserCredentials : Type 0 where
  pub id : Bytes
  pub username : Bytes
  pub password_hash : Bytes
  pub control_set : ControlSet
  pub is_active : Bool
  pub created_at : ℕ
  pub updated_at : ℕ
  pub last_login_at : Option ℕ

pub record AuthSession : Type 0 where
  pub id : Bytes
  pub user_id : Bytes
  pub client_id : Option Bytes
  pub token_hash : Bytes
  pub created_at : ℕ
  pub expires_at : ℕ
  pub revoked_at : Option ℕ
  pub last_used_at : Option ℕ

pub record AuthAuditEntry : Type 0 where
  pub id : Bytes
  pub client_id : Option Bytes
  pub username : Option Bytes
  pub user_id : Option Bytes
  pub action : Bytes
  pub result : Bytes
  pub reason : Option Bytes
  pub created_at : ℕ

-- The rows in the order of their insertion, with their times in whole seconds, and the numbers of
-- clock readings and random draws so far.
pub record AuthState : Type 0 where
  pub app_users : List UserCredentials
  pub auth_sessions : List AuthSession
  pub auth_audit_log : List AuthAuditEntry
  pub readings : ℕ
  pub draws : ℕ

-- The exceptions: `AccessDeniedError`, `AdminAlreadyExistsError`, the `std::runtime_error` of a
-- failed draw or hash, the parsers' `std::invalid_argument` and `std::out_of_range`, and the
-- database's error for a row that breaks a PRIMARY KEY or UNIQUE constraint.
pub data Thrown : Type 0 where
  access_denied : Bytes → Thrown
  admin_already_exists runtime_error bad_argument constraint_violated : Thrown

pub data Reply (A : Type 0) : Type 0 where
  returned : A → Reply A
  thrown : Thrown → Reply A

abbrev pub Exec : Type 0 → Type 0
Exec A = AuthState → Reply A × AuthState

unfoldable pub after : {A B : Type 0} → Reply A × AuthState → (A → Exec B) → Reply B × AuthState
after (returned x, s) f = f x s
after (thrown e, s) f = (thrown e, s)

infixl 5 ◌>>=◌
unfoldable pub ◌>>=◌ : {A B : Type 0} → Exec A → (A → Exec B) → Exec B
unfolding after
(m >>= f) s = after (m s) f

unfoldable pub pure : {A : Type 0} → A → Exec A
pure x s = (returned x, s)

unfoldable pub throw : {A : Type 0} → Thrown → Exec A
throw e s = (thrown e, s)

module _ (platform : Platform) where
  -- `std::chrono::system_clock::now()`
  unfoldable pub now : Exec ℕ
  now s = (returned (platform.clock s.readings), record s { readings = suc s.readings })

  unfoldable pub draw : ℕ → Exec (Bool × Bytes)
  draw n s = (returned (platform.rand_bytes s.draws n), record s { draws = suc s.draws })

  -- `generateId` does not look at the result of `RAND_bytes`.
  unfoldable pub generate_id : Exec Bytes
  generate_id = draw 16 >>= (λ (b : Bool × Bytes). pure (hex_encode b.1))
