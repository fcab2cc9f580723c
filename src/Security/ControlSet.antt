-- ===== src/Security/ControlSet.antt =====
-- src/security/control_set.cpp and access_guard.cpp: what a user may do.
use url_shortener.Prelude.{
  ◌≡◌, refl, Bool, true, false, not, Option, none, some, ◌++◌, if◌then◌else◌, Bytes, bytes, ◌=ᵇ◌,
}

pub data ControlSet : Type 0 where
  admin user : ControlSet

unfoldable pub control_set_to_string : ControlSet → Bytes
control_set_to_string admin = bytes "admin"
control_set_to_string user = bytes "user"

-- `none` stands for the exception on an unknown value.
unfoldable pub control_set_from_string : Bytes → Option ControlSet
control_set_from_string value =
    if value =ᵇ bytes "admin" then some admin else if value =ᵇ bytes "user" then some user else none

unfoldable pub can_read : ControlSet → Bool
can_read control_set = true

unfoldable pub can_write : ControlSet → Bool
can_write admin = true
can_write user = false

unfoldable pub can_migrate : ControlSet → Bool
can_migrate admin = true
can_migrate user = false

unfoldable pub can_manage_users : ControlSet → Bool
can_manage_users admin = true
can_manage_users user = false

-- The four checks of `AccessGuard`: the message of the error it throws, or `none`.
unfoldable pub denied : Bytes → Bool → ControlSet → Option Bytes
unfolding control_set_to_string
denied kind allowed control_set =
    if not allowed
    then some
        (kind ++ (bytes " access denied for control set: " ++ control_set_to_string control_set))
    else none

unfoldable pub require_read : ControlSet → Option Bytes
unfolding denied can_read
require_read c = denied (bytes "Read") (can_read c) c

unfoldable pub require_write : ControlSet → Option Bytes
unfolding denied can_write
require_write c = denied (bytes "Write") (can_write c) c

unfoldable pub require_migration : ControlSet → Option Bytes
unfolding denied can_migrate
require_migration c = denied (bytes "Migration") (can_migrate c) c

unfoldable pub require_user_management : ControlSet → Option Bytes
unfolding denied can_manage_users
require_user_management c = denied (bytes "User management") (can_manage_users c) c

pub control_set_from_string-control_set_to_string :
    (c : ControlSet) → control_set_from_string (control_set_to_string c) ≡ some c
unfolding control_set_from_string control_set_to_string ◌=ᵇ◌
control_set_from_string-control_set_to_string admin = refl
control_set_from_string-control_set_to_string user = refl
