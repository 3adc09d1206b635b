-- ===== src/Idp/Consent/Tests.antt =====
-- A browser begins a request and approves it.
use mcp_oauth_gateway.Base.{
  Str, lit, true, Option, none, some, List, [], ◌∷◌, ◌++◌, ◌≡◌, ◌≢◌, refl, str_eq, str_eqb,
}
use mcp_oauth_gateway.Repository.Bolt.{Reply, ok, Codec, create, erase}
use mcp_oauth_gateway.Repository.SortedMap.{find, insert_sorted, remove}
use mcp_oauth_gateway.Repository.Models.{
  FositeRequest, FositeAuthorizeRequest, from_fosite_authorize_request, from_fosite_req,
  from_fosite_client, session_data_of, label_of, to_fosite_authorize_request,
}
use mcp_oauth_gateway.Repository.Format.{strs_format, codec, codec-RoundTrips}
use mcp_oauth_gateway.Repository.Format.Records.{toy_json}
use mcp_oauth_gateway.Repository.Toy.{Sorted, toy_bolt, toy_bolt-Laws, toy_sessions, no_entries}
use mcp_oauth_gateway.Repository.Tokens.{
  create_authorize_request, get_authorize_request, delete_authorize_request,
}
use mcp_oauth_gateway.Auth.Session.{Session, cleared}
use mcp_oauth_gateway.Idp.Pending.{add_authorize_request_id}
use mcp_oauth_gateway.Idp.Consent.{Provider, Answer, approved, Env, handle_authorization_return}
use mcp_oauth_gateway.Idp.Pending.Binding.{Writes}
use mcp_oauth_gateway.Idp.Consent.UsedUp.{Approved, UsedUp, handle_authorization_return-UsedUp}

abbrev strings : Codec (List Str)
strings = codec strs_format

filled : (ids : List Str) → strs_format.encode ids ≢ []
filled ids h = cc h

strings-Writes : Writes strings
strings-Writes = record {
  text = strs_format.encode;
  marshals = λ ids. refl;
  filled = filled;
  reads = λ ids. codec-RoundTrips strs_format ids (strs_format.encode ids) refl;
}

abbrev request : FositeRequest toy_sessions
request = record {
  id = lit "r";
  requested_at = 1;
  client = record {
    id = lit "c";
    secret = [];
    rotated_secrets = [];
    redirect_uris = lit "https://a/cb" ∷ [];
    grant_types = [];
    response_types = [];
    scopes = lit "read" ∷ [];
    audience = [];
    public = true;
  };
  requested_scope = lit "read" ∷ [];
  granted_scope = [];
  form = [];
  requested_audience = [];
  granted_audience = [];
  session = none;
}

abbrev asked : FositeAuthorizeRequest toy_sessions
asked = record {
  response_types = lit "code" ∷ [];
  redirect_uri = lit "https://a/cb";
  state = lit "xyz";
  handled_response_types = [];
  response_mode = [];
  default_response_mode = [];
  request = request;
}

-- The code is the state.
abbrev fosite : Provider toy_sessions toy_bolt.Bucket
fosite = record {
  new_authorize_request = λ query. some asked;
  grant_scope = λ r scope. record r { granted_scope = r.granted_scope ++ scope ∷ [] };
  grant_audience =
      λ r audience. record r { granted_audience = r.granted_audience ++ audience ∷ [] };
  add_parameter = λ name value parameters. parameters ++ (name, value) ∷ [];
  new_authorize_response = λ ar s b. (some ((lit "code", ar.state) ∷ []), b);
}

abbrev env : Env
env = record {
  external_url = lit "https://g";
  jti = some (lit "j");
  issued = 2;
  not_before = 3;
  saves = λ s. true;
  decode_claims = λ s. none;
}

abbrev begun : Session
begun = add_authorize_request_id strings cleared (lit "r")

abbrev pending : Sorted
pending = (create_authorize_request toy_bolt toy_json toy_sessions asked no_entries).1

abbrev call : Answer × Option Session × Option (Reply (Unit {0})) × Sorted
call =
    handle_authorization_return strings toy_bolt toy_json toy_sessions fosite env (lit "r")
      (lit "laptop") begun pending

begun_request-approved :
    (call.0 ≡ approved ((lit "code", lit "xyz") ∷ (lit "iss", lit "https://g") ∷ []))
    × (call.2 ≡ some (ok tt))
    × (call.3.entries ≡ [])
unfolding handle_authorization_return create_authorize_request add_authorize_request_id str_eqb
    get_authorize_request find create insert_sorted from_fosite_authorize_request from_fosite_req
    from_fosite_client session_data_of label_of to_fosite_authorize_request delete_authorize_request
    erase remove
begun_request-approved = (refl, refl, refl)

handle_authorization_return-UsedUp_example :
    ((response : List (Str × Str))
      → call.0 ≡ approved response
      → Approved strings toy_bolt toy_json toy_sessions fosite env
          (lit "r")
          (lit "laptop")
          begun
          pending
          response
          call.1)
    × (call.2 ≡ some (ok tt)
        → UsedUp strings toy_bolt toy_json toy_sessions fosite (lit "r") call.3)
handle_authorization_return-UsedUp_example =
    handle_authorization_return-UsedUp strings toy_bolt toy_json toy_sessions fosite toy_bolt-Laws
      strings-Writes env (lit "r") (lit "laptop") begun pending call.3 call.0 call.1 call.2 refl
