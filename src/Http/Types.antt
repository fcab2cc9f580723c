-- ===== src/Http/Types.antt =====
-- Requests and the context of a route (include/url_shortener/http/handler_types.hpp,
-- route_context.hpp). A Beast request is the parts of it that the modelled code reads.
use url_shortener.Prelude.{
  ◌≡◌, refl, Bool, true, false, Option, Bytes, ◌=ᵇ◌, bytes_eq_refl, Map, lookup,
}

-- `boost::beast::http::verb`; `other` is a verb with no case of its own in the code.
pub data Verb : Type 0 where
  unknown get post patch delete : Verb
  other : Bytes → Verb

unfoldable pub same_verb : Verb → Verb → Bool
same_verb unknown unknown = true
same_verb get get = true
same_verb post post = true
same_verb patch patch = true
same_verb delete delete = true
same_verb (other a) (other b) = a =ᵇ b
same_verb _ _ = false

pub same_verb_refl : (v : Verb) → same_verb v v ≡ true
unfolding same_verb
same_verb_refl (other a) = bytes_eq_refl a
same_verb_refl unknown = refl
same_verb_refl get = refl
same_verb_refl post = refl
same_verb_refl patch = refl
same_verb_refl delete = refl

pub record Request : Type 0 where
  pub method : Verb
  pub target : Bytes
  pub host : Option Bytes
  pub referrer : Option Bytes
  pub user_agent : Option Bytes
  pub forwarded_for : Option Bytes

pub record RouteContext : Type 0 where
  pub path_params : Map Bytes
  pub query_string : Bytes
  pub route_label : Bytes

-- pathParam
unfoldable pub path_param : RouteContext → Bytes → Option Bytes
path_param context name = lookup name context.path_params
