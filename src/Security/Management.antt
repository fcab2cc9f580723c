-- ===== src/Security/Management.antt =====
-- src/security/user_management_service.cpp and first_admin_bootstrap.cpp. The guard of a call is
-- the control set it was made from.
use url_shortener.Prelude.{Bool, Option, none, some, List, if◌then◌else◌, Bytes}
use url_shortener.Security.ControlSet.{ControlSet, admin, require_user_management}
use url_shortener.Security.Effects.{
  Platform, UserCredentials, access_denied, admin_already_exists, Exec, ◌>>=◌, pure, throw,
}
use url_shortener.Security.Passwords.{hash_password}
use url_shortener.Security.Users.{create_user, list_users, deactivate_user, active_admin_exists}
use url_shortener.Security.AuditLog.{
  AuditAction, user_create, user_deactivate, first_admin_create, success, denied, append,
}

-- Throws the error of a check, if it has one.
unfoldable pub require : Option Bytes → Exec Unit
require none = pure tt
require (some message) = throw (access_denied message)

unfoldable pub list_all_users : ControlSet → Exec (List UserCredentials)
list_all_users guard = require (require_user_management guard) >>= (λ (u : Unit). list_users)

module _ (platform : Platform) where
  unfoldable pub add_user : AuditAction → Bytes → Bytes → ControlSet → Exec UserCredentials
  add_user action username plain_password control_set =
      hash_password platform plain_password >>= (λ (password_hash : Bytes).
        create_user platform username password_hash control_set >>= (λ (user : UserCredentials).
          append platform action success (some username) (some user.id) none
          >>= (λ (u : Unit). pure user)))

  unfoldable pub create_managed_user :
      ControlSet → Bytes → Bytes → ControlSet → Exec UserCredentials
  create_managed_user guard username plain_password control_set =
      require (require_user_management guard)
      >>= (λ (u : Unit). add_user user_create username plain_password control_set)

  unfoldable pub deactivate_managed_user : ControlSet → Bytes → Exec Unit
  deactivate_managed_user guard username =
      require (require_user_management guard) >>= (λ (u : Unit).
        deactivate_user platform username
        >>= (λ (v : Unit). append platform user_deactivate success (some username) none none))

  unfoldable pub bootstrap : Bytes → Bytes → Bool → Exec UserCredentials
  bootstrap username plain_password exists =
      if exists
      then append platform first_admin_create denied (some username) none none
        >>= (λ (u : Unit). throw admin_already_exists)
      else add_user first_admin_create username plain_password admin

  unfoldable pub create_first_admin : Bytes → Bytes → Exec UserCredentials
  create_first_admin username plain_password =
      active_admin_exists >>= bootstrap username plain_password
