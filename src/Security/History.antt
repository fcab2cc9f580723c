-- ===== src/Security/History.antt =====
-- The calls of the security services as operations, and the states that sequences of them reach,
-- whatever the calls return or throw.
pub mod Keeping
pub mod Services
use url_shortener.Prelude.{ℕ, Option, List, [], ◌∷◌, Bytes}
use url_shortener.Security.ControlSet.{ControlSet}
use url_shortener.Security.Effects.{Platform, AuthState, Exec}
use url_shortener.Security.Sessions
use url_shortener.Security.Broker
use url_shortener.Security.Management

-- A call with its arguments; the first of the management calls is the guard.
pub data Operation : Type 0 where
  verify_password : Bytes → Bytes → Operation
  create_session : Bytes → Bytes → Option Bytes → Operation
  introspect_token revoke_token revoke_all_for_user : Bytes → Operation
  create_user : ControlSet → Bytes → Bytes → ControlSet → Operation
  list_users : ControlSet → Operation
  deactivate_user : ControlSet → Bytes → Operation
  create_first_admin : Bytes → Bytes → Operation

-- The state that a call leaves.
unfoldable pub left : {A : Type 0} → Exec A → AuthState → AuthState
left m s = (m s).1

unfoldable pub perform : Platform → ℕ → Operation → AuthState → AuthState
unfolding left
perform p life (verify_password username password) = left (Broker.verify_user p username password)
perform p life (create_session username password client_id) =
    left (Broker.create_session p life username password client_id)
perform p life (introspect_token token) = left (Broker.introspect_token p token)
perform p life (revoke_token token) = left (Broker.revoke_token p token)
perform p life (revoke_all_for_user user_id) = left (Sessions.revoke_all_for_user p user_id)
perform p life (create_user guard username password c) =
    left (Management.create_managed_user p guard username password c)
perform p life (list_users guard) = left (Management.list_all_users guard)
perform p life (deactivate_user guard username) =
    left (Management.deactivate_managed_user p guard username)
perform p life (create_first_admin username password) =
    left (Management.create_first_admin p username password)

unfoldable pub perform_all : Platform → ℕ → List Operation → AuthState → AuthState
unfolding perform
perform_all p life [] s = s
perform_all p life (o ∷ os) s = perform_all p life os (perform p life o s)
