-- ===== src/Idp/Pending.antt =====
-- pkg/idp/authorize.go: the ids of the requests that a browser has begun, in its session. The JSON of a list
-- of strings is a parameter.
pub mod Binding
use mcp_oauth_gateway.Base.{
  ℕ, Str, lit, Bool, true, false, not, ◌&&◌, ◌||◌, Option, none, some, List, [], ◌∷◌, ◌++◌, any,
  length, if◌then◌else◌, ◌==◌, str_eq, nat_eq,
}
use mcp_oauth_gateway.Repository.Bolt.{
  Bolt, Reply, ok, not_found, cap_reached, failed, panicked, Codec,
}
use mcp_oauth_gateway.Repository.Models.{Json, Sessions, FositeRequest, FositeAuthorizeRequest}
use mcp_oauth_gateway.Repository.Tokens.{
  create_authorize_request, get_authorize_request, delete_authorize_request,
}
use mcp_oauth_gateway.Auth.Session.{Session, nonempty}
use mcp_oauth_gateway.Idp.Session.{IdpSession, new_jwt_session, sanitize_label}

unfoldable pub remaining : Str → List Str → List Str
remaining ar_id [] = []
remaining ar_id (id ∷ ids) =
    let rest = remaining ar_id ids in if not (id == ar_id) then id ∷ rest else rest

-- The ids of the requests that this browser has begun.
module _ (strings : Codec (List Str)) where
  unfoldable pub ids_of : Option Str → List Str
  ids_of none = []
  ids_of (some value) = elim (strings.unmarshal value) [ none ↦ [] | some ids ↦ ids ]

  unfoldable pub authorize_request_ids : Session → List Str
  unfolding ids_of nonempty
  authorize_request_ids s = ids_of (nonempty s.authorize_request_ids)

  unfoldable pub has_authorize_request_id : Session → Str → Bool
  unfolding authorize_request_ids
  has_authorize_request_id s ar_id = any (λ id. id == ar_id) (authorize_request_ids s)

  -- An error of `json.Marshal` is ignored.
  unfoldable pub written : List Str → Str
  written ids = elim (strings.marshal ids) [ none ↦ [] | some value ↦ value ]

  unfoldable pub add_authorize_request_id : Session → Str → Session
  unfolding has_authorize_request_id written
  add_authorize_request_id s ar_id = if has_authorize_request_id s ar_id then s else record s {
    authorize_request_ids = some (written (authorize_request_ids s ++ ar_id ∷ []));
  }

  unfoldable pub keep_ids : List Str → Session → Session
  unfolding written
  keep_ids [] s = record s { authorize_request_ids = none }
  keep_ids (id ∷ ids) s = record s { authorize_request_ids = some (written (id ∷ ids)) }

  unfoldable pub remove_authorize_request_id : Session → Str → Session
  unfolding authorize_request_ids remaining keep_ids
  remove_authorize_request_id s ar_id = keep_ids (remaining ar_id (authorize_request_ids s)) s
