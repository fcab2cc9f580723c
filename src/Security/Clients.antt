-- ===== src/Security/Clients.antt =====
-- src/security/service_client.cpp and service_client_repository.cpp over the rows of
-- `service_clients`, whose `client_id` is UNIQUE. `id` and `time` are the draw and the clock's
-- reading of the call.
pub mod Scopes
use url_shortener.Prelude.{
  ℕ, Bool, true, false, ◌||◌, Option, none, some, List, [], ◌∷◌, ◌++◌, ◌==◌, if◌then◌else◌,
  is_empty, Bytes, ◌=ᵇ◌,
}
use mathlib.Core.Option.{map as map_option}
use url_shortener.Security.Effects.{
  to_epoch, from_epoch, constraint_violated, Reply, returned, thrown,
}

pub record ServiceClient : Type 0 where
  pub id : Bytes
  pub client_id : Bytes
  pub client_secret_hash : Option Bytes
  pub allowed_scopes : List Bytes
  pub is_active : Bool
  pub created_at : ℕ
  pub updated_at : ℕ
  pub last_used_at : Option ℕ

-- A row, whose scopes are one text and whose times are whole seconds.
pub record ClientRow : Type 0 where
  pub id : Bytes
  pub client_id : Bytes
  pub client_secret_hash : Option Bytes
  pub allowed_scopes : Bytes
  pub is_active : Bool
  pub created_at : ℕ
  pub updated_at : ℕ
  pub last_used_at : Option ℕ

unfoldable pub has_scope : Bytes → List Bytes → Bool
has_scope scope [] = false
has_scope scope (x ∷ xs) = (x =ᵇ scope) || has_scope scope xs

abbrev pub comma : ℕ
comma = b','

-- Behind the first scope a comma stands before each.
unfoldable pub join_rest : List Bytes → Bytes
join_rest [] = []
join_rest (x ∷ xs) = comma ∷ (x ++ join_rest xs)

unfoldable pub join_scopes : List Bytes → Bytes
unfolding join_rest
join_scopes [] = []
join_scopes (x ∷ xs) = x ++ join_rest xs

unfoldable pub push_nonempty : Bytes → List Bytes → List Bytes
push_nonempty token out = if is_empty token then out else token ∷ out

-- The loop of `splitScopes` with the token it has read so far.
unfoldable pub split_from : Bytes → Bytes → List Bytes
unfolding push_nonempty
split_from token [] = push_nonempty token []
split_from token (c ∷ s) =
    let at_comma = push_nonempty token (split_from [] s) in
    let behind = split_from (token ++ c ∷ []) s in if c == comma then at_comma else behind

unfoldable pub split_scopes : Bytes → List Bytes
unfolding split_from
split_scopes s = split_from [] s

unfoldable pub client_conflict : Bytes → Bytes → List ClientRow → Bool
client_conflict id client_id [] = false
client_conflict id client_id (x ∷ xs) =
    (x.id =ᵇ id) || (x.client_id =ᵇ client_id) || client_conflict id client_id xs

unfoldable pub create_client :
    Bytes
    → ℕ
    → Bytes
    → List Bytes
    → Option Bytes
    → List ClientRow
    → Reply ServiceClient × List ClientRow
unfolding client_conflict join_scopes
create_client id time client_id allowed_scopes secret_hash rows =
    if client_conflict id client_id rows then (thrown constraint_violated, rows) else (
      returned (record {
        id = id;
        client_id = client_id;
        client_secret_hash = secret_hash;
        allowed_scopes = allowed_scopes;
        is_active = true;
        created_at = time;
        updated_at = time;
        last_used_at = none;
      }),
      rows
          ++ record {
            id = id;
            client_id = client_id;
            client_secret_hash = secret_hash;
            allowed_scopes = join_scopes allowed_scopes;
            is_active = true;
            created_at = to_epoch time;
            updated_at = to_epoch time;
            last_used_at = none;
          }
            ∷ [],
    )

unfoldable pub build_client : ClientRow → ServiceClient
unfolding split_scopes
build_client r = record {
  id = r.id;
  client_id = r.client_id;
  client_secret_hash = r.client_secret_hash;
  allowed_scopes = split_scopes r.allowed_scopes;
  is_active = r.is_active;
  created_at = from_epoch r.created_at;
  updated_at = from_epoch r.updated_at;
  last_used_at = map_option from_epoch r.last_used_at;
}

unfoldable pub find_by_client_id : Bytes → List ClientRow → Option ServiceClient
unfolding build_client
find_by_client_id client_id [] = none
find_by_client_id client_id (x ∷ xs) =
    if x.client_id =ᵇ client_id then some (build_client x) else find_by_client_id client_id xs

unfoldable pub touch_last_used : ℕ → Bytes → List ClientRow → List ClientRow
touch_last_used time client_id [] = []
touch_last_used time client_id (x ∷ xs) =
    (if x.client_id =ᵇ client_id then record x { last_used_at = some (to_epoch time) } else x)
    ∷ touch_last_used time client_id xs
