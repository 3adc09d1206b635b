-- ===== src/Idp/Registration.antt =====
-- pkg/idp/register.go: dynamic registration. The store is that of Repository; randomness, bcrypt, the clock
-- and `url.JoinPath` are parameters. An error is its RFC 7591 code.
mod Secrets
mod Validity
pub mod Registered
mod Tests
use mcp_oauth_gateway.Base.{
  ℕ, ◌+◌, ◌-◌, ◌*◌, ◌/◌, Str, lit, Bool, true, false, not, ◌&&◌, ◌||◌, Option, none, some, List, [],
  ◌∷◌, all, length, ltb, if◌then◌else◌, ◌==◌, str_eq, nat_eq, fields,
}
use mcp_oauth_gateway.Cimd.Documents.{
  Url, Outcome, ok, invalid, ◌>>=◌, refuse_if, or_default, validate_redirect_uri,
  is_supported_grant_type, is_supported_response_type,
}
use mcp_oauth_gateway.Repository.Bolt.{Bolt, Reply, not_found, cap_reached, failed, panicked}
use mcp_oauth_gateway.Repository.Models.{Json, FositeClient}
use mcp_oauth_gateway.Repository.Clients.{ClientRegistration, register_client}

pub record RegistrationRequest : Type 0 where
  pub client_name : Str
  pub grant_types : List Str
  pub response_types : List Str
  pub token_endpoint_auth_method : Str
  pub scope : Str
  pub redirect_uris : List Str

-- Times are Unix seconds.
pub record RegistrationResponse : Type 0 where
  pub client_id : Str
  pub client_secret : Str
  pub redirect_uris : List Str
  pub client_name : Str
  pub grant_types : List Str
  pub response_types : List Str
  pub token_endpoint_auth_method : Str
  pub registration_client_uri : Str
  pub client_id_issued_at : ℕ
  pub client_secret_expires_at : ℕ

pub data Answer : Type 0 where
  rejected : ℕ → Str → Answer
  created : RegistrationResponse → Answer

-- `time.Time.Unix` of a time after 1970.
unfoldable pub unix : ℕ → ℕ
unix t = t / 1000000000 - 62135596800

unfoldable pub is_supported_auth_method : Str → Bool
is_supported_auth_method m =
    m == lit "none" || (m == lit "client_secret_basic" || m == lit "client_secret_post")

abbrev pub auth_method_or_default : Str → Str
auth_method_or_default m = if m == [] then lit "client_secret_basic" else m

-- The request with its defaults.
abbrev pub with_defaults : RegistrationRequest → RegistrationRequest
with_defaults r = record r {
  token_endpoint_auth_method = auth_method_or_default r.token_endpoint_auth_method;
  grant_types = or_default r.grant_types (lit "authorization_code");
  response_types = or_default r.response_types (lit "code");
}

-- What the handler finds: `url.JoinPath` with the endpoint, fresh random strings, bcrypt, the readings of
-- the clock in their order, and the settings.
pub record Env : Type 0 where
  pub join_path : Str → Option Str
  pub client_id : Option Str
  pub client_secret : Option Str
  pub hash : Str → Option Str
  pub expiry_from : ℕ
  pub created_at : ℕ
  pub counted_at : ℕ
  pub answered_at : ℕ
  pub external_url : Str
  pub dcr_client_ttl : ℕ
  pub dcr_max_clients : ℕ

-- The secret and its hash; a public client has neither.
unfoldable pub secret_for : Env → Bool → Option (Str × Str)
secret_for env true = some ([], [])
secret_for env false = elim env.client_secret [
  | none ↦ none
  | some secret ↦ elim (env.hash secret) [ none ↦ none | some hashed ↦ some (secret, hashed) ]
]

abbrev pub expires_at : Env → ℕ
expires_at env = if ltb 0 env.dcr_client_ttl then env.expiry_from + env.dcr_client_ttl else 0

abbrev pub is_public : RegistrationRequest → Bool
is_public r = r.token_endpoint_auth_method == lit "none"

unfoldable pub registration_of : Env → RegistrationRequest → Str → Str → ClientRegistration
unfolding fields
registration_of env r id hashed = record {
  client = record {
    id = id;
    secret = hashed;
    rotated_secrets = [];
    redirect_uris = r.redirect_uris;
    grant_types = r.grant_types;
    response_types = r.response_types;
    scopes = fields r.scope;
    audience = env.external_url ∷ [];
    public = is_public r;
  };
  name = r.client_name;
  expires_at = expires_at env;
  max_clients = env.dcr_max_clients;
}

unfoldable pub response_of : Env → RegistrationRequest → Str → Str → Str → RegistrationResponse
unfolding unix
response_of env r id secret uri = record {
  client_id = id;
  client_secret = secret;
  redirect_uris = r.redirect_uris;
  client_name = r.client_name;
  grant_types = r.grant_types;
  response_types = r.response_types;
  token_endpoint_auth_method = r.token_endpoint_auth_method;
  registration_client_uri = uri;
  client_id_issued_at = unix env.answered_at;
  client_secret_expires_at =
      if is_public r then 0 else (if expires_at env == 0 then 0 else unix (expires_at env));
}

-- The answer once the store has been asked.
unfoldable pub answer_for : Env → RegistrationRequest → Str → Str → Reply (Unit {0}) → Answer
unfolding response_of
answer_for env r id secret (Reply.ok _) = elim (env.join_path id) [
  | none ↦ rejected 500 (lit "server_error")
  | some uri ↦ created (response_of env r id secret uri)
]
answer_for env r id secret cap_reached = rejected 503 (lit "temporarily_unavailable")
answer_for env r id secret not_found = rejected 500 (lit "server_error")
answer_for env r id secret failed = rejected 500 (lit "server_error")
answer_for env r id secret panicked = rejected 500 (lit "server_error")

module _ (parse_url : Str → Option Url) where
  unfoldable pub check_redirect_uris : List Str → Outcome (Unit {0})
  check_redirect_uris [] = ok tt
  check_redirect_uris (uri ∷ uris) = elim (validate_redirect_uri parse_url uri) [
    | invalid _ ↦ invalid (lit "invalid_redirect_uri")
    | ok _ ↦ check_redirect_uris uris
  ]

  -- The request as the handler goes on with it.
  unfoldable pub validate_registration : RegistrationRequest → Outcome RegistrationRequest
  unfolding check_redirect_uris is_supported_auth_method is_supported_grant_type
      is_supported_response_type or_default
  validate_registration r =
      refuse_if (length r.redirect_uris == 0) (lit "invalid_redirect_uri") >>= λ _.
      check_redirect_uris r.redirect_uris >>= λ _.
      refuse_if (not (is_supported_auth_method (with_defaults r).token_endpoint_auth_method))
        (lit "invalid_client_metadata")
      >>= λ _.
          refuse_if (not (all is_supported_grant_type (with_defaults r).grant_types))
            (lit "invalid_client_metadata")
          >>= λ _.
              refuse_if (not (all is_supported_response_type (with_defaults r).response_types))
                (lit "invalid_client_metadata")
              >>= λ _. ok (with_defaults r)

  module _ (bolt : Bolt) (json : Json) where
    open bolt use {Bucket}

    unfoldable pub register_with :
        Env → RegistrationRequest → Str → Option (Str × Str) → Bucket → Answer × Bucket
    unfolding registration_of answer_for
    register_with env r id none b = (rejected 500 (lit "server_error"), b)
    register_with env r id (some (secret, hashed)) b =
        let (reply, c) =
          register_client bolt json env.created_at env.counted_at (registration_of env r id hashed)
            b in
        (answer_for env r id secret reply, c)

    unfoldable pub register_valid : Env → RegistrationRequest → Bucket → Answer × Bucket
    unfolding register_with secret_for
    register_valid env r b = elim env.client_id [
      | none ↦ (rejected 500 (lit "server_error"), b)
      | some id ↦ register_with env r id (secret_for env (is_public r)) b
    ]

    -- The body, none if it does not bind.
    unfoldable pub handle_register : Env → Option RegistrationRequest → Bucket → Answer × Bucket
    unfolding register_valid validate_registration
    handle_register env none b = (rejected 400 (lit "invalid_request"), b)
    handle_register env (some r) b = elim (validate_registration r) [
      | invalid code ↦ (rejected 400 code, b)
      | ok valid ↦ register_valid env valid b
    ]
