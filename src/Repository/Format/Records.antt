-- ===== src/Repository/Format/Records.antt =====
-- The encodings of the stored records.
use mcp_oauth_gateway.Base.{ℕ, Str, Bool, Option, List, refl}
use mcp_oauth_gateway.Repository.Bolt.{RoundTrips}
use mcp_oauth_gateway.Repository.Models.{
  Json, Client, Request, AuthorizeRequest, User, WebAuthnCredential,
}
use mcp_oauth_gateway.Repository.Format.{
  ◌⊗◌, along, nat_format, bool_format, option_format, str_format, strs_format, list_format, codec,
  codec-RoundTrips, Format,
}

abbrev client_of :
    Str
      × (Str
          × (List Str
              × (List Str
                  × (List Str × (List Str × (List Str × (List Str × (Bool × (Str × (ℕ × ℕ))))))))))
    → Client
client_of (a0, (a1, (a2, (a3, (a4, (a5, (a6, (a7, (a8, (a9, (a10, a11))))))))))) = record {
  id = a0;
  secret = a1;
  rotated_secrets = a2;
  redirect_uris = a3;
  grant_types = a4;
  response_types = a5;
  scopes = a6;
  audience = a7;
  public = a8;
  name = a9;
  created_at = a10;
  expires_at = a11;
}

abbrev client_format : Format Client
client_format =
    along
      (str_format ⊗ str_format ⊗ strs_format ⊗ strs_format ⊗ strs_format ⊗ strs_format ⊗ strs_format
        ⊗ strs_format ⊗ bool_format ⊗ str_format ⊗ nat_format ⊗ nat_format)
      client_of
      (λ r. (
        r.id,
        (
          r.secret,
          (
            r.rotated_secrets,
            (
              r.redirect_uris,
              (
                r.grant_types,
                (
                  r.response_types,
                  (r.scopes, (r.audience, (r.public, (r.name, (r.created_at, r.expires_at))))),
                ),
              ),
            ),
          ),
        ),
      ))
      (λ r. refl)

abbrev request_of :
    Str
      × (ℕ
          × (Option Client
              × (List Str
                  × (List Str
                      × (List (Str × List Str) × (List Str × (List Str × (ℕ × (Str × Str)))))))))
    → Request
request_of (a0, (a1, (a2, (a3, (a4, (a5, (a6, (a7, (a8, (a9, a10)))))))))) = record {
  id = a0;
  requested_at = a1;
  client = a2;
  requested_scope = a3;
  granted_scope = a4;
  form = a5;
  requested_audience = a6;
  granted_audience = a7;
  rotated_at = a8;
  session_data = a9;
  label = a10;
}

abbrev request_format : Format Request
request_format =
    along
      (str_format
        ⊗ nat_format
        ⊗ (option_format client_format)
        ⊗ strs_format
        ⊗ strs_format
        ⊗ (list_format (str_format ⊗ strs_format))
        ⊗ strs_format
        ⊗ strs_format
        ⊗ nat_format
        ⊗ str_format
        ⊗ str_format)
      request_of
      (λ r. (
        r.id,
        (
          r.requested_at,
          (
            r.client,
            (
              r.requested_scope,
              (
                r.granted_scope,
                (
                  r.form,
                  (
                    r.requested_audience,
                    (r.granted_audience, (r.rotated_at, (r.session_data, r.label))),
                  ),
                ),
              ),
            ),
          ),
        ),
      ))
      (λ r. refl)

abbrev authorize_request_of :
    List Str × (Str × (Str × (List Str × (Str × (Str × Option Request))))) → AuthorizeRequest
authorize_request_of (a0, (a1, (a2, (a3, (a4, (a5, a6)))))) = record {
  response_types = a0;
  redirect_uri = a1;
  state = a2;
  handled_response_types = a3;
  response_mode = a4;
  default_response_mode = a5;
  request = a6;
}

abbrev authorize_request_format : Format AuthorizeRequest
authorize_request_format =
    along
      (strs_format
        ⊗ str_format
        ⊗ str_format
        ⊗ strs_format
        ⊗ str_format
        ⊗ str_format
        ⊗ (option_format request_format))
      authorize_request_of
      (λ r. (
        r.response_types,
        (
          r.redirect_uri,
          (
            r.state,
            (r.handled_response_types, (r.response_mode, (r.default_response_mode, r.request))),
          ),
        ),
      ))
      (λ r. refl)

abbrev user_of : Str × (Str × (Bool × ℕ)) → User
user_of (a0, (a1, (a2, a3))) = record {
  id = a0;
  username = a1;
  password_login_disabled = a2;
  created_at = a3;
}

abbrev user_format : Format User
user_format =
    along (str_format ⊗ str_format ⊗ bool_format ⊗ nat_format) user_of
      (λ r. (r.id, (r.username, (r.password_login_disabled, r.created_at)))) (λ r. refl)

abbrev credential_of : Str × (Str × (Str × (Str × (ℕ × ℕ)))) → WebAuthnCredential
credential_of (a0, (a1, (a2, (a3, (a4, a5))))) = record {
  id = a0;
  user_id = a1;
  name = a2;
  credential = a3;
  created_at = a4;
  last_used_at = a5;
}

abbrev credential_format : Format WebAuthnCredential
credential_format =
    along (str_format ⊗ str_format ⊗ str_format ⊗ str_format ⊗ nat_format ⊗ nat_format)
      credential_of
      (λ r. (r.id, (r.user_id, (r.name, (r.credential, (r.created_at, r.last_used_at))))))
      (λ r. refl)

abbrev pub toy_json : Json
toy_json = record {
  request = codec request_format;
  client = codec client_format;
  authorize_request = codec authorize_request_format;
  version = codec nat_format;
  user = codec user_format;
  credential = codec credential_format;
}

pub request-RoundTrips : RoundTrips toy_json.request
request-RoundTrips = codec-RoundTrips request_format

pub client-RoundTrips : RoundTrips toy_json.client
client-RoundTrips = codec-RoundTrips client_format

pub version-RoundTrips : RoundTrips toy_json.version
version-RoundTrips = codec-RoundTrips nat_format
