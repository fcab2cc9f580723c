-- ===== src/Security/Guarantees/Administration.antt =====
-- Who may manage users, and the first admin (src/security/user_management_service.cpp,
-- first_admin_bootstrap.cpp).
use url_shortener.Prelude.{
  suc, ◌+◌, ◌≡◌, refl, sym, ap, ◌∙◌, ◌≢◌, inl, inr, Bool, true, false, none, some, List, [], ◌∷◌,
  ◌++◌, map, arith, if◌then◌else◌, Bool-cases, count_if, Bytes, bytes,
}
use url_shortener.Core.Text.{hex_encode}
use url_shortener.Security.ControlSet.{
  ControlSet, admin, user, require_user_management, denied, can_manage_users, control_set_to_string,
}
use url_shortener.Security.Effects.{
  Platform, UserCredentials, AuthState, access_denied, admin_already_exists, constraint_violated,
  Reply, returned, thrown, after, ◌>>=◌, pure, throw, now, draw, generate_id, to_epoch,
}
use url_shortener.Security.Passwords.{hash_password, hash_drawn}
use url_shortener.Security.Users.{
  build_user_row, is_active_admin, count_active_admins, active_admin_exists, user_conflict,
  insert_user, create_user, order_by_created_at, list_users,
}
use url_shortener.Security.AuditLog.{
  AuditAction, append, first_admin_create, denied as denied_result, success,
}
use url_shortener.Security.Management.{
  require, list_all_users, add_user, create_managed_user, deactivate_managed_user, bootstrap,
  create_first_admin,
}
use url_shortener.Security.Guarantees.Returned.{
  returned_inj, bind-returned, left_state, append_leaves,
}

-- A user who is not an admin can neither create, list nor deactivate users: each call throws the
-- same error, for a password that could be hashed or not and a name that exists or not, and
-- leaves the whole state, the audit log, the clock and the random source included, as it was.
pub management-denied :
    (p : Platform) (name password : Bytes) (c : ControlSet) (s : AuthState)
    → let message : Bytes = bytes "User management access denied for control set: user" in
      (create_managed_user p user name password c s ≡ (thrown (access_denied message), s))
      × (list_all_users user s ≡ (thrown (access_denied message), s))
      × (deactivate_managed_user p user name s ≡ (thrown (access_denied message), s))
      × (list_all_users admin s
          ≡ (returned (map build_user_row (order_by_created_at s.app_users)), s))
unfolding create_managed_user list_all_users deactivate_managed_user list_users require
    require_user_management denied can_manage_users control_set_to_string ◌>>=◌ after throw pure
management-denied p name password c s = (refl, refl, refl, refl)

-- A user as the row holds it.
abbrev stored_user : UserCredentials → UserCredentials
stored_user u = record u { created_at = to_epoch u.created_at; updated_at = to_epoch u.updated_at }

abbrev made : Platform → Bytes → Bytes → ControlSet → AuthState → UserCredentials
made p name hash c s = record {
  id = hex_encode (p.rand_bytes s.draws 16).1;
  username = name;
  password_hash = hash;
  control_set = c;
  is_active = true;
  created_at = p.clock s.readings;
  updated_at = p.clock s.readings;
  last_login_at = none;
}

create_user-thrown :
    (p : Platform) (name hash : Bytes) (c : ControlSet) (s : AuthState)
    → user_conflict (stored_user (made p name hash c s)) s.app_users ≡ true
    → (create_user p name hash c s).0 ≡ thrown constraint_violated
unfolding create_user generate_id draw now pure ◌>>=◌ after insert_user
create_user-thrown p name hash c s h = rw h refl

create_user-stored :
    (p : Platform) (name hash : Bytes) (c : ControlSet) (s : AuthState)
    → user_conflict (stored_user (made p name hash c s)) s.app_users ≡ false
    → create_user p name hash c s ≡ (
      returned (made p name hash c s),
      record s {
        app_users = s.app_users ++ stored_user (made p name hash c s) ∷ [];
        readings = suc s.readings;
        draws = suc s.draws;
      },
    )
unfolding create_user generate_id draw now pure ◌>>=◌ after insert_user
create_user-stored p name hash c s h = rw h refl

record Added (name : Bytes) (c : ControlSet) (s t : AuthState) (u : UserCredentials) : Type 0 where
  added : t.app_users ≡ s.app_users ++ stored_user u ∷ []
  named : u.username ≡ name
  allowed : u.control_set ≡ c
  active : u.is_active ≡ true

create_user-returned :
    (p : Platform) (name hash : Bytes) (c : ControlSet) (s t : AuthState) (u : UserCredentials)
    → create_user p name hash c s ≡ (returned u, t)
    → Added name c s t u
create_user-returned p name hash c s t u e =
    elim (Bool-cases (user_conflict (stored_user (made p name hash c s)) s.app_users)) [
      | inl h ↦ cc (create_user-thrown p name hash c s h)
      | inr h ↦
          let (same, end) = returned_inj _ u _ t (sym (create_user-stored p name hash c s h) ∙ e) in
          rw (← same, ← end) (record { added = refl; named = refl; allowed = refl; active = refl })
    ]

hash_password_leaves :
    (p : Platform) (password : Bytes) (s : AuthState)
    → (hash_password p password s).1.app_users ≡ s.app_users
unfolding hash_password hash_drawn draw ◌>>=◌ after
hash_password_leaves p password s = hash_drawn_leaves (p.rand_bytes s.draws 16) _
  where
    hash_drawn_leaves :
        (w : Bool × Bytes) (s : AuthState) → (hash_drawn p password w s).1.app_users ≡ s.app_users
    hash_drawn_leaves (true, w) s = refl
    hash_drawn_leaves (false, w) s = refl

add_user-returned :
    (p : Platform) (a : AuditAction) (name password : Bytes) (c : ControlSet) (s t : AuthState)
    (u : UserCredentials)
    → add_user p a name password c s ≡ (returned u, t)
    → Added name c s t u
unfolding add_user pure
add_user-returned p a name password c s t u e =
    let (hash, s1, hashed, e1) = bind-returned _ _ e in
    let (fresh, s2, created, e2) = bind-returned _ _ e1 in
    let (v, s3, logged, last) = bind-returned _ _ e2 in
    let (same, end) = returned_inj fresh u s3 t last in
    let one : s1.app_users ≡ s.app_users =
      ap (λ (r : AuthState). r.app_users) (sym (left_state hashed))
      ∙ hash_password_leaves p password s in
    let new : Added name c s1 s2 fresh = create_user-returned p name hash c s1 s2 fresh created in
    let three : s3.app_users ≡ s2.app_users =
      ap (λ (r : AuthState). r.app_users) (sym (left_state logged))
      ∙ (append_leaves p a success (some name) (some fresh.id) none s2).0 in
    rw (← same, ← end)
      (record {
        added =
            three ∙ new.added ∙ ap (λ (l : List UserCredentials). l ++ stored_user fresh ∷ []) one;
        named = new.named;
        allowed = new.allowed;
        active = new.active;
      })

bootstrap-refused :
    (p : Platform) (name password : Bytes) (s : AuthState) (u : UserCredentials)
    → (bootstrap p name password true s).0 ≢ returned u
unfolding bootstrap throw ◌>>=◌ after
bootstrap-refused p name password s u =
    after-throw (append p first_admin_create denied_result (some name) none none s)
  where
    after-throw :
        (r : Reply Unit × AuthState)
        → (after r (λ (v : Unit). throw {A = UserCredentials} admin_already_exists)).0 ≢ returned u
    after-throw (returned v, t) h = cc
    after-throw (thrown x, t) h = cc

count_if-push :
    (xs : List UserCredentials) (u : UserCredentials)
    → count_if is_active_admin (xs ++ u ∷ [])
      ≡ count_if is_active_admin xs + (if is_active_admin u then 1 else 0)
count_if-push [] u = omega arith
count_if-push (x ∷ xs) u = omega (arith, count_if-push xs u)

stored_user-is_active_admin :
    (u : UserCredentials)
    → u.control_set ≡ admin
    → u.is_active ≡ true
    → (is_active_admin u ≡ true) × (is_active_admin (stored_user u) ≡ true)
unfolding is_active_admin
stored_user-is_active_admin u e h = ground arith

first-Added :
    (name : Bytes) (s t : AuthState) (u : UserCredentials)
    → count_active_admins s.app_users ≡ 0
    → Added name admin s t u
    → (count_active_admins t.app_users ≡ 1) × (is_active_admin u ≡ true)
unfolding count_active_admins
first-Added name s t u none_before a =
    let (of_u, of_row) = stored_user-is_active_admin u a.allowed a.active in
    (
      rw a.added
          (count_if-push s.app_users (stored_user u) ∙ rw (of_row, none_before) (omega arith)),
      of_u,
    )

bootstrap-returned :
    (p : Platform) (name password : Bytes) (exists : Bool) (s r t : AuthState) (u : UserCredentials)
    → active_admin_exists s ≡ (returned exists, r)
    → bootstrap p name password exists r ≡ (returned u, t)
    → (count_active_admins s.app_users ≡ 0)
      × (count_active_admins t.app_users ≡ 1)
      × (u.username ≡ name)
      × (is_active_admin u ≡ true)
      × (t.app_users ≡ s.app_users ++ stored_user u ∷ [])
unfolding bootstrap active_admin_exists
bootstrap-returned p name password true s r t u asked e =
    absurd (
      bootstrap-refused p name password r u (ap (λ (x : Reply UserCredentials × AuthState). x.0) e))
bootstrap-returned p name password false s r t u asked e =
    let (counted, same) = returned_inj _ false s r asked in
    let none_before : count_active_admins s.app_users ≡ 0 = ground arith in
    let new : Added name admin s t u =
      rw same (add_user-returned p first_admin_create name password admin r t u e) in
    let (one, is_admin) = first-Added name s t u none_before new in
    (none_before, one, new.named, is_admin, new.added)

-- `createFirstAdmin` returns only where there was no active admin, and then leaves exactly one:
-- the user it returns, under the name asked for, whose row stands behind the rows there were.
pub create_first_admin-returned :
    (p : Platform) (name password : Bytes) (s t : AuthState) (u : UserCredentials)
    → create_first_admin p name password s ≡ (returned u, t)
    → (count_active_admins s.app_users ≡ 0)
      × (count_active_admins t.app_users ≡ 1)
      × (u.username ≡ name)
      × (is_active_admin u ≡ true)
      × (t.app_users ≡ s.app_users ++ stored_user u ∷ [])
unfolding create_first_admin
create_first_admin-returned p name password s t u e =
    let (exists, r, asked, e1) = bind-returned _ _ e in
    bootstrap-returned p name password exists s r t u asked e1
