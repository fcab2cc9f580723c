-- ===== src/Tests/Security.antt =====
-- The theorems on src/security at a small platform: random bytes that count the draws, hashes that
-- keep their input, and a clock that moves by a second with each reading.
use url_shortener.Prelude.{
  ℕ, zero, suc, ◌+◌, ◌*◌, ◌<◌, ◌≡◌, refl, ◌≢◌, ◌↔◌, true, false, none, some, List, [], ◌∷◌, ◌++◌,
  arith, take, Bytes, bytes, ◌=ᵇ◌,
}
use url_shortener.Security.ControlSet.{admin, require_user_management, denied, can_manage_users}
use url_shortener.Security.Effects.{
  Platform, UserCredentials, AuthSession, AuthState, returned, ◌>>=◌, draw, generate_id, pure, now,
  to_epoch, after, from_epoch,
}
use url_shortener.Security.Passwords.{
  hash_with_salt, verify_password, hash_password, hash_drawn, split_fields, split_at_byte,
  verify_fields, reply_then, stoi, stoi_signed, stoi_digits, digits_value, from_hex, hex_pairs,
  read_hex_pair, hex_digit_value, compare_hash, constant_time_equal, diff,
}
use url_shortener.Security.Passwords.RoundTrip.{verify_password-hash_with_salt}
use url_shortener.Security.Users.{
  active_with_name, count_active_admins, is_active_admin, active_admin_exists, create_user,
  insert_user, find_by_username, build_user_row, user_conflict, touch_last_login, touch_rows,
  update_users, deactivate_user, deactivate_rows,
}
use url_shortener.Security.Users.Locked.{username, id, has_key, is_locked, all_inactive, key}
use url_shortener.Security.Sessions.{
  session_with_hash, create_session_row, insert_session, session_conflict,
}
use url_shortener.Security.Sessions.Revoked.{has_hash}
use url_shortener.Security.Broker.{
  CreateSessionResult, IntrospectResult, hash_token, create_session, introspect_token, revoke_token,
  verify_user, refuse_password, check_password, accept_password, lift, session_for, open_session,
  generate_token, token_drawn,
}
use url_shortener.Security.Management.{
  create_first_admin, deactivate_managed_user, bootstrap, add_user, require,
}
use url_shortener.Security.History.{Operation, left, perform_all}
use url_shortener.Security.Guarantees.Tokens.{introspect_token-revoked}
use url_shortener.Security.Guarantees.Accounts.{sign_in-deactivated, introspect_token-deactivated}
use url_shortener.Security.Guarantees.Rows.{Grown, perform_all-Grown}
use url_shortener.Security.Guarantees.Keys.{WellKeyed, perform_all-WellKeyed, distinct, has_clash}
use url_shortener.Security.Guarantees.SignIn.{introspect_token-create_session}
use url_shortener.Security.Guarantees.Administration.{create_first_admin-returned}
use url_shortener.Security.Guarantees.Uniform.{verdict, verify_user-uniform}
use url_shortener.Security.AuditLog.{append, insert_entry, has_entry, action_name, result_name}
use url_shortener.Core.Text.{hex_encode, hex_digit, take_while, drop_while}

abbrev zeros : ℕ → Bytes
zeros zero = []
zeros (suc n) = 0 ∷ zeros n

abbrev demo_platform : Platform
demo_platform = record {
  rand_bytes = λ k n. (true, k ∷ n ∷ []);
  pbkdf2_hmac_sha256 = λ password salt iterations n. some (take n (password ++ zeros 32));
  sha256 = λ s. s;
  clock = λ k. 1700000000000000000 + k * 1000000000;
}

abbrev no_rows : AuthState
no_rows = record {
  app_users = [];
  auth_sessions = [];
  auth_audit_log = [];
  readings = 0;
  draws = 0;
}

abbrev ada : UserCredentials
ada = record {
  id = bytes "0110";
  username = bytes "ada";
  password_hash =
      bytes
        "pbkdf2sha256:100000:0010:7077000000000000000000000000000000000000000000000000000000000000";
  control_set = admin;
  is_active = true;
  created_at = 1700000000000000000;
  updated_at = 1700000000000000000;
  last_login_at = none;
}

-- The state behind the creation of the first admin.
abbrev with_admin : AuthState
with_admin = left (create_first_admin demo_platform (bytes "ada") (bytes "pw")) no_rows

first_admin :
    create_first_admin demo_platform (bytes "ada") (bytes "pw") no_rows ≡ (returned ada, with_admin)
unfolding create_first_admin ◌>>=◌ active_admin_exists bootstrap add_user hash_password draw
    hash_drawn create_user generate_id pure now insert_user append insert_entry hex_encode left
first_admin = refl

create_first_admin-returned_example :
    (count_active_admins no_rows.app_users ≡ 0)
    × (count_active_admins with_admin.app_users ≡ 1)
    × (ada.username ≡ bytes "ada")
    × (is_active_admin ada ≡ true)
    × (with_admin.app_users
        ≡ no_rows.app_users ++ record ada { created_at = 1700000000; updated_at = 1700000000 } ∷ [])
unfolding to_epoch
create_first_admin-returned_example =
    create_first_admin-returned demo_platform (bytes "ada") (bytes "pw") no_rows with_admin ada
      first_admin

abbrev ada_session : AuthSession
ada_session = record {
  id = bytes "0510";
  user_id = bytes "0110";
  client_id = none;
  token_hash = bytes "30343230";
  created_at = 1700000005000000000;
  expires_at = 1700003604000000000;
  revoked_at = none;
  last_used_at = none;
}

abbrev ada_signed_in : CreateSessionResult
ada_signed_in = record { raw_token = bytes "0420"; session = ada_session; user = ada }

-- The state behind the sign-in.
abbrev with_session : AuthState
with_session = left (create_session demo_platform 3600 (bytes "ada") (bytes "pw") none) with_admin

sign_in :
    create_session demo_platform 3600 (bytes "ada") (bytes "pw") none with_admin
    ≡ (returned (some ada_signed_in), with_session)
unfolding left create_first_admin active_admin_exists count_active_admins is_active_admin bootstrap
    add_user hash_password hash_drawn hash_with_salt create_user insert_user user_conflict append
    insert_entry has_entry action_name result_name generate_id now draw pure ◌>>=◌ after to_epoch
    hex_encode hex_digit ◌=ᵇ◌ from_epoch verify_user find_by_username build_user_row
    active_with_name check_password refuse_password accept_password lift touch_last_login touch_rows
    update_users verify_password split_fields split_at_byte verify_fields reply_then stoi
    stoi_signed stoi_digits digits_value take_while drop_while from_hex hex_pairs read_hex_pair
    hex_digit_value compare_hash constant_time_equal diff create_session session_for open_session
    generate_token token_drawn hash_token create_session_row insert_session session_conflict
sign_in = refl

readings_after : (with_session.readings ≡ 7) × (with_session.draws ≡ 7)
unfolding left create_first_admin active_admin_exists count_active_admins is_active_admin bootstrap
    add_user hash_password hash_drawn hash_with_salt create_user insert_user user_conflict append
    insert_entry has_entry action_name result_name generate_id now draw pure ◌>>=◌ after to_epoch
    hex_encode hex_digit ◌=ᵇ◌ from_epoch verify_user find_by_username build_user_row
    active_with_name check_password refuse_password accept_password lift touch_last_login touch_rows
    update_users verify_password split_fields split_at_byte verify_fields reply_then stoi
    stoi_signed stoi_digits digits_value take_while drop_while from_hex hex_pairs read_hex_pair
    hex_digit_value compare_hash constant_time_equal diff create_session session_for open_session
    generate_token token_drawn hash_token create_session_row insert_session session_conflict
readings_after = (refl, refl)

expiry : from_epoch (to_epoch ada_session.expires_at) ≡ 1700003604000000000
unfolding from_epoch to_epoch
expiry = refl

in_time :
    (demo_platform.clock with_session.readings < from_epoch (to_epoch ada_session.expires_at))
    × (demo_platform.clock (suc with_session.readings)
        < from_epoch (to_epoch ada_session.expires_at))
in_time = rw (expiry, readings_after.0) (omega arith, omega arith)

new_entry :
    has_entry
      (hex_encode (demo_platform.rand_bytes with_session.draws 16).1)
      with_session.auth_audit_log
    ≡ false
unfolding left create_first_admin active_admin_exists count_active_admins is_active_admin bootstrap
    add_user hash_password hash_drawn hash_with_salt create_user insert_user user_conflict append
    insert_entry has_entry action_name result_name generate_id now draw pure ◌>>=◌ after to_epoch
    hex_encode hex_digit ◌=ᵇ◌ from_epoch verify_user find_by_username build_user_row
    active_with_name check_password refuse_password accept_password lift touch_last_login touch_rows
    update_users verify_password split_fields split_at_byte verify_fields reply_then stoi
    stoi_signed stoi_digits digits_value take_while drop_while from_hex hex_pairs read_hex_pair
    hex_digit_value compare_hash constant_time_equal diff create_session session_for open_session
    generate_token token_drawn hash_token create_session_row insert_session session_conflict
new_entry = refl

introspect_token-create_session_example :
    (r : IntrospectResult) × ((introspect_token demo_platform (bytes "0420") with_session).0
      ≡ returned (some r))
    × (r.user.id ≡ ada.id)
    × (r.session.id ≡ ada_session.id)
introspect_token-create_session_example =
    introspect_token-create_session demo_platform 3600 (bytes "ada") (bytes "pw") none with_admin
      with_session ada_signed_in sign_in in_time.0 in_time.1 new_entry

has_session : has_hash (hash_token demo_platform (bytes "0420")) with_session.auth_sessions ≡ true
unfolding left create_first_admin active_admin_exists count_active_admins is_active_admin bootstrap
    add_user hash_password hash_drawn hash_with_salt create_user insert_user user_conflict append
    insert_entry has_entry action_name result_name generate_id now draw pure ◌>>=◌ after to_epoch
    hex_encode hex_digit ◌=ᵇ◌ from_epoch verify_user find_by_username build_user_row
    active_with_name check_password refuse_password accept_password lift touch_last_login touch_rows
    update_users verify_password split_fields split_at_byte verify_fields reply_then stoi
    stoi_signed stoi_digits digits_value take_while drop_while from_hex hex_pairs read_hex_pair
    hex_digit_value compare_hash constant_time_equal diff create_session session_for open_session
    generate_token token_drawn hash_token create_session_row insert_session session_conflict
    has_hash
has_session = refl

abbrev further : List Operation
further =
    Operation.create_session (bytes "ada") (bytes "pw") none
    ∷ Operation.introspect_token (bytes "0420")
    ∷ []

abbrev seen : IntrospectResult
seen = record { user = ada; session = ada_session }

introspect_token-revoked_example :
    (introspect_token demo_platform (bytes "0420") (
      perform_all demo_platform 3600 further
        (left (revoke_token demo_platform (bytes "0420")) with_session))).0
    ≢ returned (some seen)
introspect_token-revoked_example =
    introspect_token-revoked demo_platform 3600 (bytes "0420") with_session further seen has_session

has_ada : has_key username (bytes "ada") with_session.app_users ≡ true
unfolding left create_first_admin active_admin_exists count_active_admins is_active_admin bootstrap
    add_user hash_password hash_drawn hash_with_salt create_user insert_user user_conflict append
    insert_entry has_entry action_name result_name generate_id now draw pure ◌>>=◌ after to_epoch
    hex_encode hex_digit ◌=ᵇ◌ from_epoch verify_user find_by_username build_user_row
    active_with_name check_password refuse_password accept_password lift touch_last_login touch_rows
    update_users verify_password split_fields split_at_byte verify_fields reply_then stoi
    stoi_signed stoi_digits digits_value take_while drop_while from_hex hex_pairs read_hex_pair
    hex_digit_value compare_hash constant_time_equal diff create_session session_for open_session
    generate_token token_drawn hash_token create_session_row insert_session session_conflict has_key
    key
has_ada = refl

abbrev ada_gone : AuthState
ada_gone =
    perform_all demo_platform 3600 further
      (left (deactivate_managed_user demo_platform admin (bytes "ada")) with_session)

sign_in-deactivated_example :
    ((verify_user demo_platform (bytes "ada") (bytes "pw") ada_gone).0 ≢ returned (some ada))
    × ((create_session demo_platform 3600 (bytes "ada") (bytes "pw") none ada_gone).0
        ≢ returned (some ada_signed_in))
sign_in-deactivated_example =
    sign_in-deactivated demo_platform 3600 (bytes "ada") (bytes "pw") none with_session further ada
      ada_signed_in has_ada

ada_locked :
    is_locked id
      (bytes "0110")
      (left (deactivate_managed_user demo_platform admin (bytes "ada")) with_session).app_users
    ≡ true
unfolding left create_first_admin active_admin_exists count_active_admins is_active_admin bootstrap
    add_user hash_password hash_drawn hash_with_salt create_user insert_user user_conflict append
    insert_entry has_entry action_name result_name generate_id now draw pure ◌>>=◌ after to_epoch
    hex_encode hex_digit ◌=ᵇ◌ from_epoch verify_user find_by_username build_user_row
    active_with_name check_password refuse_password accept_password lift touch_last_login touch_rows
    update_users verify_password split_fields split_at_byte verify_fields reply_then stoi
    stoi_signed stoi_digits digits_value take_while drop_while from_hex hex_pairs read_hex_pair
    hex_digit_value compare_hash constant_time_equal diff create_session session_for open_session
    generate_token token_drawn hash_token create_session_row insert_session session_conflict
    deactivate_managed_user require require_user_management denied can_manage_users deactivate_user
    deactivate_rows is_locked has_key all_inactive key
ada_locked = refl

abbrev ada_row : AuthSession
ada_row = record ada_session { created_at = 1700000005; expires_at = 1700003604 }

ada_row_found :
    session_with_hash
      (hash_token demo_platform (bytes "0420"))
      (perform_all demo_platform 3600 [] (
        left
          (deactivate_managed_user demo_platform admin (bytes "ada"))
          with_session)).auth_sessions
    ≡ some ada_row
unfolding left create_first_admin active_admin_exists count_active_admins is_active_admin bootstrap
    add_user hash_password hash_drawn hash_with_salt create_user insert_user user_conflict append
    insert_entry has_entry action_name result_name generate_id now draw pure ◌>>=◌ after to_epoch
    hex_encode hex_digit ◌=ᵇ◌ from_epoch verify_user find_by_username build_user_row
    active_with_name check_password refuse_password accept_password lift touch_last_login touch_rows
    update_users verify_password split_fields split_at_byte verify_fields reply_then stoi
    stoi_signed stoi_digits digits_value take_while drop_while from_hex hex_pairs read_hex_pair
    hex_digit_value compare_hash constant_time_equal diff create_session session_for open_session
    generate_token token_drawn hash_token create_session_row insert_session session_conflict
    deactivate_managed_user require require_user_management denied can_manage_users deactivate_user
    deactivate_rows session_with_hash perform_all
ada_row_found = refl

introspect_token-deactivated_example :
    (introspect_token demo_platform (bytes "0420") (
      perform_all demo_platform 3600 []
        (left (deactivate_managed_user demo_platform admin (bytes "ada")) with_session))).0
    ≢ returned (some seen)
introspect_token-deactivated_example =
    introspect_token-deactivated demo_platform 3600 (bytes "0110") (bytes "0420")
      (left (deactivate_managed_user demo_platform admin (bytes "ada")) with_session) [] ada_row
      seen ada_locked ada_row_found refl

perform_all-Grown_example : Grown with_admin (perform_all demo_platform 3600 further with_admin)
perform_all-Grown_example = perform_all-Grown demo_platform 3600 further with_admin

no_rows-WellKeyed : WellKeyed no_rows
unfolding distinct has_clash
no_rows-WellKeyed = record {
  users_distinct = refl;
  sessions_distinct = refl;
  entries_distinct = refl;
}

perform_all-WellKeyed_example : WellKeyed (
    perform_all demo_platform 3600
      (Operation.create_first_admin (bytes "ada") (bytes "pw") ∷ further)
      no_rows)
perform_all-WellKeyed_example =
    perform_all-WellKeyed demo_platform 3600
      (Operation.create_first_admin (bytes "ada") (bytes "pw") ∷ further) no_rows no_rows-WellKeyed

wrong :
    verdict demo_platform (bytes "no") (active_with_name (bytes "ada") with_admin.app_users)
    ≡ returned false
unfolding left create_first_admin active_admin_exists count_active_admins is_active_admin bootstrap
    add_user hash_password hash_drawn hash_with_salt create_user insert_user user_conflict append
    insert_entry has_entry action_name result_name generate_id now draw pure ◌>>=◌ after to_epoch
    hex_encode hex_digit ◌=ᵇ◌ from_epoch verify_user find_by_username build_user_row
    active_with_name check_password refuse_password accept_password lift touch_last_login touch_rows
    update_users verify_password split_fields split_at_byte verify_fields reply_then stoi
    stoi_signed stoi_digits digits_value take_while drop_while from_hex hex_pairs read_hex_pair
    hex_digit_value compare_hash constant_time_equal diff verdict
wrong = refl

verify_user-uniform_example :
    (verify_user demo_platform (bytes "ada") (bytes "no") with_admin
      ≡ refuse_password demo_platform (bytes "ada") with_admin)
    × ((refuse_password demo_platform (bytes "ada") with_admin).0 ≢ returned (some ada))
    × ((refuse_password demo_platform (bytes "ada") with_admin).1.app_users ≡ with_admin.app_users)
    × ((refuse_password demo_platform (bytes "ada") with_admin).1.auth_sessions
        ≡ with_admin.auth_sessions)
verify_user-uniform_example =
    verify_user-uniform demo_platform (bytes "ada") (bytes "no") with_admin ada wrong

abbrev pw_hash : Bytes
pw_hash = bytes "pw" ++ zeros 30

abbrev no_hash : Bytes
no_hash = bytes "no" ++ zeros 30

verify_password-hash_with_salt_example :
    (text : Bytes) × (hash_with_salt demo_platform (bytes "pw") (0 ∷ 16 ∷ []) ≡ returned text)
    × (verify_password demo_platform (bytes "pw") text ≡ returned true)
    × ((verify_password demo_platform (bytes "no") text ≡ returned true) ↔ (no_hash ≡ pw_hash))
verify_password-hash_with_salt_example =
    verify_password-hash_with_salt demo_platform (bytes "pw") (bytes "no") (0 ∷ 16 ∷ []) pw_hash
      no_hash (omega arith) (omega arith) refl refl refl
