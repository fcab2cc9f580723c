-- ===== src/Security/AuditLog.antt =====
-- include/url_shortener/security/auth_audit_log.hpp and src/security/auth_audit_log_repository.cpp
-- over the rows of `auth_audit_log`, whose `id` is a PRIMARY KEY.
use url_shortener.Prelude.{
  ℕ, Bool, false, ◌||◌, Option, none, List, [], ◌∷◌, ◌++◌, if◌then◌else◌, Bytes, bytes, ◌=ᵇ◌,
}
use url_shortener.Security.Effects.{
  Platform, AuthAuditEntry, constraint_violated, returned, thrown, Exec, ◌>>=◌, now, generate_id,
  to_epoch,
}

pub data AuditAction : Type 0 where
  password_verify session_create token_introspect token_revoke : AuditAction
  user_create user_deactivate first_admin_create : AuditAction

pub data AuditResult : Type 0 where
  success failure denied : AuditResult

unfoldable pub action_name : AuditAction → Bytes
action_name password_verify = bytes "password.verify"
action_name session_create = bytes "session.create"
action_name token_introspect = bytes "token.introspect"
action_name token_revoke = bytes "token.revoke"
action_name user_create = bytes "user.create"
action_name user_deactivate = bytes "user.deactivate"
action_name first_admin_create = bytes "first_admin.create"

unfoldable pub result_name : AuditResult → Bytes
result_name success = bytes "success"
result_name failure = bytes "failure"
result_name denied = bytes "denied"

unfoldable pub has_entry : Bytes → List AuthAuditEntry → Bool
has_entry id [] = false
has_entry id (x ∷ xs) = (x.id =ᵇ id) || has_entry id xs

unfoldable pub insert_entry : AuthAuditEntry → Exec Unit
unfolding has_entry
insert_entry row s =
    if has_entry row.id s.auth_audit_log
    then (thrown constraint_violated, s)
    else (returned tt, record s { auth_audit_log = s.auth_audit_log ++ row ∷ [] })

module _ (platform : Platform) where
  -- No caller passes a reason.
  unfoldable pub append :
      AuditAction → AuditResult → Option Bytes → Option Bytes → Option Bytes → Exec Unit
  append action result username user_id client_id = generate_id platform >>= (λ (id : Bytes).
      now platform >>= (λ (time : ℕ). insert_entry (record {
        id = id;
        client_id = client_id;
        username = username;
        user_id = user_id;
        action = action_name action;
        result = result_name result;
        reason = none;
        created_at = to_epoch time;
      })))
