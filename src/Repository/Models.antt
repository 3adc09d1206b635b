-- ===== src/Repository/Models.antt =====
-- pkg/models/models.go: the stored records, and their conversions from and to fosite's requests and
-- clients. A time is its number of nanoseconds since the zero time; byte strings are strings; a
-- slice that is nil is not told apart from an empty one.
use mcp_oauth_gateway.Base.{ℕ, Str, Bool, Option, none, some, List, [], map}
use mcp_oauth_gateway.Repository.Bolt.{Codec}

-- `*fosite.DefaultClient` as the code uses it.
pub record FositeClient : Type 0 where
  pub id : Str
  pub secret : Str
  pub rotated_secrets : List Str
  pub redirect_uris : List Str
  pub grant_types : List Str
  pub response_types : List Str
  pub scopes : List Str
  pub audience : List Str
  pub public : Bool

pub record Client : Type 0 where
  pub id : Str
  pub secret : Str
  pub rotated_secrets : List Str
  pub redirect_uris : List Str
  pub grant_types : List Str
  pub response_types : List Str
  pub scopes : List Str
  pub audience : List Str
  pub public : Bool
  pub name : Str
  pub created_at : ℕ
  pub expires_at : ℕ

-- `map[string][]string`
abbrev pub Form : Type 0
Form = List (Str × List Str)

pub record Request : Type 0 where
  pub id : Str
  pub requested_at : ℕ
  pub client : Option Client
  pub requested_scope : List Str
  pub granted_scope : List Str
  pub form : Form
  pub requested_audience : List Str
  pub granted_audience : List Str
  pub rotated_at : ℕ
  pub session_data : Str
  pub label : Str

pub record AuthorizeRequest : Type 0 where
  pub response_types : List Str
  pub redirect_uri : Str
  pub state : Str
  pub handled_response_types : List Str
  pub response_mode : Str
  pub default_response_mode : Str
  pub request : Option Request

pub record User : Type 0 where
  pub id : Str
  pub username : Str
  pub password_login_disabled : Bool
  pub created_at : ℕ

pub record WebAuthnCredential : Type 0 where
  pub id : Str
  pub user_id : Str
  pub name : Str
  pub credential : Str
  pub created_at : ℕ
  pub last_used_at : ℕ

-- `encoding/json` at the types that are stored.
pub record Json : Type 0 where
  pub request : Codec Request
  pub client : Codec Client
  pub authorize_request : Codec AuthorizeRequest
  pub version : Codec ℕ
  pub user : Codec User
  pub credential : Codec WebAuthnCredential

-- Sessions and URLs. `label` answers `none` for a session that is not `Labeled`; a session is read
-- into one that the caller brings.
pub record Sessions : Type 1 where
  pub Session : Type 0
  pub marshal_session : Session → Option Str
  pub unmarshal_session : Str → Session → Option Session
  pub label : Session → Option Str
  pub Url : Type 0
  pub parse_url : Str → Option Url
  pub url_string : Url → Str

-- `range` with `append`: a copy.
unfoldable pub copied : List Str → List Str
copied secrets = map (λ s. s) secrets

unfoldable pub from_fosite_client : FositeClient → Client
unfolding copied
from_fosite_client c = record {
  id = c.id;
  secret = c.secret;
  rotated_secrets = copied c.rotated_secrets;
  redirect_uris = c.redirect_uris;
  grant_types = c.grant_types;
  response_types = c.response_types;
  scopes = c.scopes;
  audience = c.audience;
  public = c.public;
  name = [];
  created_at = 0;
  expires_at = 0;
}

unfoldable pub to_fosite_client : Client → FositeClient
unfolding copied
to_fosite_client c = record {
  id = c.id;
  secret = c.secret;
  rotated_secrets = copied c.rotated_secrets;
  redirect_uris = c.redirect_uris;
  grant_types = c.grant_types;
  response_types = c.response_types;
  scopes = c.scopes;
  audience = c.audience;
  public = c.public;
}

module _ (lib : Sessions) where
  open lib use {Session, marshal_session, unmarshal_session, label, Url, parse_url, url_string}

  -- `*fosite.Request` and `*fosite.AuthorizeRequest` as the code uses them.
  pub record FositeRequest : Type 0 where
    pub id : Str
    pub requested_at : ℕ
    pub client : FositeClient
    pub requested_scope : List Str
    pub granted_scope : List Str
    pub form : Form
    pub requested_audience : List Str
    pub granted_audience : List Str
    pub session : Option Session

  pub record FositeAuthorizeRequest : Type 0 where
    pub response_types : List Str
    pub redirect_uri : Url
    pub state : Str
    pub handled_response_types : List Str
    pub response_mode : Str
    pub default_response_mode : Str
    pub request : FositeRequest

  -- A session that does not marshal is stored as none.
  unfoldable pub session_data_of : Option Session → Str
  session_data_of none = []
  session_data_of (some s) = elim (marshal_session s) [ none ↦ [] | some data' ↦ data' ]

  unfoldable pub label_of : Option Session → Str
  label_of none = []
  label_of (some s) = elim (label s) [ none ↦ [] | some l ↦ l ]

  unfoldable pub from_fosite_req : FositeRequest → Request
  from_fosite_req r = record {
    id = r.id;
    requested_at = r.requested_at;
    client = some (from_fosite_client r.client);
    requested_scope = r.requested_scope;
    granted_scope = r.granted_scope;
    form = r.form;
    requested_audience = r.requested_audience;
    granted_audience = r.granted_audience;
    rotated_at = 0;
    session_data = session_data_of r.session;
    label = label_of r.session;
  }

  -- A record without a client panics: `none`.
  unfoldable pub to_fosite_req : Request → Option FositeRequest
  to_fosite_req r = elim r.client [
    | none ↦ none
    | some c ↦ some (record {
      id = r.id;
      requested_at = r.requested_at;
      client = to_fosite_client c;
      requested_scope = r.requested_scope;
      granted_scope = r.granted_scope;
      form = r.form;
      requested_audience = r.requested_audience;
      granted_audience = r.granted_audience;
      session = none;
    })
  ]

  unfoldable pub from_fosite_authorize_request : FositeAuthorizeRequest → AuthorizeRequest
  from_fosite_authorize_request ar = record {
    response_types = ar.response_types;
    redirect_uri = url_string ar.redirect_uri;
    state = ar.state;
    handled_response_types = ar.handled_response_types;
    response_mode = ar.response_mode;
    default_response_mode = ar.default_response_mode;
    request = some (from_fosite_req ar.request);
  }

  abbrev with_request :
      AuthorizeRequest → Url → Option FositeRequest → Option FositeAuthorizeRequest
  with_request ar url none = none
  with_request ar url (some r) = some (record {
    response_types = ar.response_types;
    redirect_uri = url;
    state = ar.state;
    handled_response_types = ar.handled_response_types;
    response_mode = ar.response_mode;
    default_response_mode = ar.default_response_mode;
    request = r;
  })

  -- `Must` panics on a URL that does not parse, a nil request panics: `none`.
  unfoldable pub to_fosite_authorize_request : AuthorizeRequest → Option FositeAuthorizeRequest
  unfolding to_fosite_req
  to_fosite_authorize_request ar = elim (parse_url ar.redirect_uri) [
    | none ↦ none
    | some url ↦ elim ar.request [ none ↦ none | some r ↦ with_request ar url (to_fosite_req r) ]
  ]
