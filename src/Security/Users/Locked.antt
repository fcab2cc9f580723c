-- ===== src/Security/Users/Locked.antt =====
-- Rows of `app_users` that are switched off (src/security/user_credentials_repository.cpp).
use url_shortener.Prelude.{
  ℕ, ◌≡◌, refl, Bool, true, false, ◌&&◌, ◌||◌, not, Option, none, some, List, [], ◌∷◌, ◌++◌, arith,
  Bytes, ◌=ᵇ◌, bytes_eq_iff,
}
use url_shortener.Security.Effects.{UserCredentials}
use url_shortener.Security.Users.{
  user_conflict, active_with_name, active_with_id, deactivate_rows, touch_rows,
}

-- The two columns that rows are looked up by.
pub data Column : Type 0 where
  username id : Column

unfoldable pub key : Column → UserCredentials → Bytes
key username u = u.username
key id u = u.id

unfoldable pub has_key : Column → Bytes → List UserCredentials → Bool
unfolding key
has_key c k [] = false
has_key c k (x ∷ xs) = (key c x =ᵇ k) || has_key c k xs

unfoldable pub all_inactive : Column → Bytes → List UserCredentials → Bool
unfolding key
all_inactive c k [] = true
all_inactive c k (x ∷ xs) = (not (key c x =ᵇ k) || not x.is_active) && all_inactive c k xs

-- A name or an id that was given out and is switched off.
unfoldable pub is_locked : Column → Bytes → List UserCredentials → Bool
unfolding has_key all_inactive
is_locked c k rows = has_key c k rows && all_inactive c k rows

key-user_conflict :
    (c : Column) (k : Bytes) (u x : UserCredentials)
    → (x.id =ᵇ u.id) ≡ false
    → (x.username =ᵇ u.username) ≡ false
    → (key c x =ᵇ k) ≡ true
    → (key c u =ᵇ k) ≡ false
unfolding key
key-user_conflict username k u x g h m = ground (
  arith,
  bytes_eq_iff x.username k,
  bytes_eq_iff u.username k,
  bytes_eq_iff x.username u.username,
)
key-user_conflict id k u x g h m =
    ground (arith, bytes_eq_iff x.id k, bytes_eq_iff u.id k, bytes_eq_iff x.id u.id)

has_key-user_conflict :
    (c : Column) (k : Bytes) (u : UserCredentials) (xs : List UserCredentials)
    → has_key c k xs ≡ true
    → user_conflict u xs ≡ false
    → (key c u =ᵇ k) ≡ false
unfolding has_key user_conflict
has_key-user_conflict c k u [] h e = cc
has_key-user_conflict c k u (x ∷ xs) h e =
    ground (arith, has_key-user_conflict c k u xs, key-user_conflict c k u x)

append_keeps :
    (c : Column) (k : Bytes) (u : UserCredentials) (xs : List UserCredentials)
    → (key c u =ᵇ k) ≡ false
    → (has_key c k (xs ++ u ∷ []) ≡ has_key c k xs)
      × (all_inactive c k (xs ++ u ∷ []) ≡ all_inactive c k xs)
unfolding has_key all_inactive
append_keeps c k u [] e = ground arith
append_keeps c k u (x ∷ xs) e = ground (arith, append_keeps c k u xs e)

pub is_locked-insert :
    (c : Column) (k : Bytes) (u : UserCredentials) (xs : List UserCredentials)
    → is_locked c k xs ≡ true
    → user_conflict u xs ≡ false
    → is_locked c k (xs ++ u ∷ []) ≡ true
unfolding is_locked
is_locked-insert c k u xs h e =
    let other : (key c u =ᵇ k) ≡ false = has_key-user_conflict c k u xs (ground arith) e in
    ground (arith, append_keeps c k u xs other)

key-deactivated :
    (c : Column) (n : ℕ) (x : UserCredentials)
    → key c (record x { is_active = false; updated_at = n }) ≡ key c x
unfolding key
key-deactivated username n x = refl
key-deactivated id n x = refl

key-touched :
    (c : Column) (o : Option ℕ) (x : UserCredentials)
    → key c (record x { last_login_at = o }) ≡ key c x
unfolding key
key-touched username o x = refl
key-touched id o x = refl

deactivate_rows_keep :
    (c : Column) (k : Bytes) (n : ℕ) (name : Bytes) (xs : List UserCredentials)
    → (has_key c k (deactivate_rows n name xs) ≡ has_key c k xs)
      × (all_inactive c k xs ≡ true → all_inactive c k (deactivate_rows n name xs) ≡ true)
unfolding has_key all_inactive deactivate_rows
deactivate_rows_keep c k n name [] = ground arith
deactivate_rows_keep c k n name (x ∷ xs) =
    ground (arith, deactivate_rows_keep c k n name xs, key-deactivated c n x)

pub is_locked-deactivate_rows :
    (c : Column) (k : Bytes) (n : ℕ) (name : Bytes) (xs : List UserCredentials)
    → is_locked c k xs ≡ true
    → is_locked c k (deactivate_rows n name xs) ≡ true
unfolding is_locked
is_locked-deactivate_rows c k n name xs h = ground (arith, deactivate_rows_keep c k n name xs)

touch_rows_keep :
    (c : Column) (k : Bytes) (n : ℕ) (user_id : Bytes) (xs : List UserCredentials)
    → (has_key c k (touch_rows n user_id xs) ≡ has_key c k xs)
      × (all_inactive c k (touch_rows n user_id xs) ≡ all_inactive c k xs)
unfolding has_key all_inactive touch_rows
touch_rows_keep c k n user_id [] = ground arith
touch_rows_keep c k n user_id (x ∷ xs) =
    ground (arith, touch_rows_keep c k n user_id xs, key-touched c (some n) x)

pub is_locked-touch_rows :
    (c : Column) (k : Bytes) (n : ℕ) (user_id : Bytes) (xs : List UserCredentials)
    → is_locked c k xs ≡ true
    → is_locked c k (touch_rows n user_id xs) ≡ true
unfolding is_locked
is_locked-touch_rows c k n user_id xs h = ground (arith, touch_rows_keep c k n user_id xs)

deactivate_rows-all_inactive :
    (n : ℕ) (name : Bytes) (xs : List UserCredentials)
    → all_inactive username name (deactivate_rows n name xs) ≡ true
unfolding all_inactive key deactivate_rows
deactivate_rows-all_inactive n name [] = refl
deactivate_rows-all_inactive n name (x ∷ xs) =
    ground (arith, deactivate_rows-all_inactive n name xs)

pub deactivate_rows-is_locked :
    (n : ℕ) (name : Bytes) (xs : List UserCredentials)
    → has_key username name xs ≡ true
    → is_locked username name (deactivate_rows n name xs) ≡ true
unfolding is_locked
deactivate_rows-is_locked n name xs h =
    ground
      (arith, deactivate_rows_keep username name n name xs, deactivate_rows-all_inactive n name xs)

all_inactive-active_with_name :
    (name : Bytes) (xs : List UserCredentials)
    → all_inactive username name xs ≡ true
    → active_with_name name xs ≡ none
unfolding all_inactive key active_with_name
all_inactive-active_with_name name [] h = refl
all_inactive-active_with_name name (x ∷ xs) h =
    ground (arith, all_inactive-active_with_name name xs)

all_inactive-active_with_id :
    (user_id : Bytes) (xs : List UserCredentials)
    → all_inactive id user_id xs ≡ true
    → active_with_id user_id xs ≡ none
unfolding all_inactive key active_with_id
all_inactive-active_with_id user_id [] h = refl
all_inactive-active_with_id user_id (x ∷ xs) h =
    ground (arith, all_inactive-active_with_id user_id xs)

pub is_locked-active_with_name :
    (name : Bytes) (xs : List UserCredentials)
    → is_locked username name xs ≡ true
    → active_with_name name xs ≡ none
unfolding is_locked
is_locked-active_with_name name xs h = all_inactive-active_with_name name xs (ground arith)

pub is_locked-active_with_id :
    (user_id : Bytes) (xs : List UserCredentials)
    → is_locked id user_id xs ≡ true
    → active_with_id user_id xs ≡ none
unfolding is_locked
is_locked-active_with_id user_id xs h = all_inactive-active_with_id user_id xs (ground arith)
