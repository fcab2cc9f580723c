-- ===== src/Security/Users.antt =====
-- src/security/user_credentials_repository.cpp over the rows of `app_users`, whose `id` is a
-- PRIMARY KEY and whose `username` is UNIQUE.
pub mod Locked
use url_shortener.Prelude.{
  ℕ, Bool, true, false, ◌&&◌, ◌||◌, Option, none, some, List, [], ◌∷◌, ◌++◌, map, ltb, leb,
  if◌then◌else◌, count_if, Bytes, ◌=ᵇ◌,
}
use url_shortener.Security.ControlSet.{ControlSet, admin, user}
use url_shortener.Security.Effects.{
  Platform, UserCredentials, constraint_violated, returned, thrown, Exec, ◌>>=◌, pure, now,
  generate_id, to_epoch, from_epoch,
}
use mathlib.Core.Option.{map as map_option}

-- The columns as `buildUserRow` reads them: whole seconds become times again.
unfoldable pub build_user_row : UserCredentials → UserCredentials
unfolding from_epoch
build_user_row u = record u {
  created_at = from_epoch u.created_at;
  updated_at = from_epoch u.updated_at;
  last_login_at = map_option from_epoch u.last_login_at;
}

unfoldable pub is_active_admin : UserCredentials → Bool
is_active_admin u = elim u.control_set [ admin ↦ u.is_active | user ↦ false ]

unfoldable pub count_active_admins : List UserCredentials → ℕ
unfolding is_active_admin
count_active_admins rows = count_if is_active_admin rows

unfoldable pub active_admin_exists : Exec Bool
unfolding count_active_admins
active_admin_exists s = (returned (ltb 0 (count_active_admins s.app_users)), s)

-- A row that has the id or the name of another breaks a constraint.
unfoldable pub user_conflict : UserCredentials → List UserCredentials → Bool
user_conflict u [] = false
user_conflict u (x ∷ xs) = (x.id =ᵇ u.id) || (x.username =ᵇ u.username) || user_conflict u xs

unfoldable pub insert_user : UserCredentials → Exec Unit
unfolding user_conflict
insert_user row s =
    if user_conflict row s.app_users
    then (thrown constraint_violated, s)
    else (returned tt, record s { app_users = s.app_users ++ row ∷ [] })

-- The row that the first `SELECT` with this `id` or `username`, and `is_active = 1`, finds.
unfoldable pub active_with_name : Bytes → List UserCredentials → Option UserCredentials
active_with_name username [] = none
active_with_name username (x ∷ xs) =
    if (x.username =ᵇ username) && x.is_active then some x else active_with_name username xs

unfoldable pub active_with_id : Bytes → List UserCredentials → Option UserCredentials
active_with_id id [] = none
active_with_id id (x ∷ xs) = if (x.id =ᵇ id) && x.is_active then some x else active_with_id id xs

unfoldable pub find_by_username : Bytes → Exec (Option UserCredentials)
find_by_username username s =
    (returned (map_option build_user_row (active_with_name username s.app_users)), s)

unfoldable pub find_by_id : Bytes → Exec (Option UserCredentials)
find_by_id user_id s =
    (returned (map_option build_user_row (active_with_id user_id s.app_users)), s)

-- `ORDER BY created_at`; rows of one second may come in any order, here in that of the table.
unfoldable pub insert_by_created_at : UserCredentials → List UserCredentials → List UserCredentials
insert_by_created_at u [] = u ∷ []
insert_by_created_at u (x ∷ xs) =
    if leb u.created_at x.created_at then u ∷ x ∷ xs else x ∷ insert_by_created_at u xs

unfoldable pub order_by_created_at : List UserCredentials → List UserCredentials
unfolding insert_by_created_at
order_by_created_at [] = []
order_by_created_at (u ∷ us) = insert_by_created_at u (order_by_created_at us)

unfoldable pub list_users : Exec (List UserCredentials)
list_users s = (returned (map build_user_row (order_by_created_at s.app_users)), s)

-- `UPDATE app_users SET is_active = 0, updated_at = … WHERE username = …`
unfoldable pub deactivate_rows : ℕ → Bytes → List UserCredentials → List UserCredentials
deactivate_rows seconds username [] = []
deactivate_rows seconds username (x ∷ xs) =
    (if x.username =ᵇ username then record x { is_active = false; updated_at = seconds } else x)
    ∷ deactivate_rows seconds username xs

-- `UPDATE app_users SET last_login_at = … WHERE id = …`
unfoldable pub touch_rows : ℕ → Bytes → List UserCredentials → List UserCredentials
touch_rows seconds user_id [] = []
touch_rows seconds user_id (x ∷ xs) =
    (if x.id =ᵇ user_id then record x { last_login_at = some seconds } else x)
    ∷ touch_rows seconds user_id xs

unfoldable pub update_users : (List UserCredentials → List UserCredentials) → Exec Unit
update_users f s = (returned tt, record s { app_users = f s.app_users })

module _ (platform : Platform) where
  unfoldable pub create_user : Bytes → Bytes → ControlSet → Exec UserCredentials
  create_user username password_hash control_set = generate_id platform >>= (λ (id : Bytes).
      now platform >>= (λ (time : ℕ).
        let u : UserCredentials = record {
          id = id;
          username = username;
          password_hash = password_hash;
          control_set = control_set;
          is_active = true;
          created_at = time;
          updated_at = time;
          last_login_at = none;
        } in
        insert_user (record u { created_at = to_epoch time; updated_at = to_epoch time })
        >>= (λ (x : Unit). pure u)))

  unfoldable pub deactivate_user : Bytes → Exec Unit
  deactivate_user username =
      now platform >>= (λ (time : ℕ). update_users (deactivate_rows (to_epoch time) username))

  unfoldable pub touch_last_login : Bytes → Exec Unit
  touch_last_login user_id =
      now platform >>= (λ (time : ℕ). update_users (touch_rows (to_epoch time) user_id))
