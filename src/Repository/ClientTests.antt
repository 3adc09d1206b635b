-- ===== src/Repository/ClientTests.antt =====
-- The store at work: a registered client, two passkeys, the schema version.
use mcp_oauth_gateway.Base.{All, nat_eqb, true, some, none}
use mcp_oauth_gateway.Base.{ℕ}
use mcp_oauth_gateway.Base.{
  Str, lit, true, [], ◌∷◌, ◌≡◌, refl, arith, str_eqb, str_ltb, has_prefix, str_eq,
}
use mcp_oauth_gateway.Repository.SortedMap.{find, insert_sorted, from, take_under}
use mcp_oauth_gateway.Repository.Bolt.{ok, ◌>>=◌, or_failed, create, db_update, end_transaction}
use mcp_oauth_gateway.Repository.Clients.{ClientRegistration, register_client, get_client}
use mcp_oauth_gateway.Repository.Models.{WebAuthnCredential}
use mcp_oauth_gateway.Repository.Users.{
  add_webauthn_credential, list_webauthn_credentials, credentials_of, sort_credentials,
  insert_credential,
}
use mcp_oauth_gateway.Repository.Users.Passkeys.{OldestFirst, list_webauthn_credentials-OldestFirst}
use mcp_oauth_gateway.Repository.Clients.{get_client_name}
use mcp_oauth_gateway.Repository.Clients.Lookup.{answered, named, get_client-register_client}
use mcp_oauth_gateway.Repository.Maintenance.{ensure_schema_version, check_schema_version}
use mcp_oauth_gateway.Repository.Maintenance.Schema.{ensure_schema_version-older}
use mcp_oauth_gateway.Repository.Format.Records.{client-RoundTrips, version-RoundTrips}
use mcp_oauth_gateway.Repository.Bolt.{read, decode, failed}
use mcp_oauth_gateway.Repository.Format.Records.{toy_json}
use mcp_oauth_gateway.Repository.Toy.{toy_bolt, toy_bolt-Laws, toy_sessions, no_entries}

abbrev ann : ClientRegistration
ann = record {
  client = record {
    id = lit "ann";
    secret = [];
    rotated_secrets = [];
    redirect_uris = lit "https://a/cb" ∷ [];
    grant_types = [];
    response_types = [];
    scopes = [];
    audience = [];
    public = true;
  };
  name = lit "Ann";
  expires_at = 9;
  max_clients = 1;
}

abbrev passkey : Str → ℕ → WebAuthnCredential
passkey id at = record {
  id = id;
  user_id = lit "op";
  name = [];
  credential = [];
  created_at = at;
  last_used_at = 0;
}

abbrev with_passkeys : toy_bolt.Bucket
with_passkeys =
    (add_webauthn_credential toy_bolt toy_json (passkey (lit "b") 1)
      (add_webauthn_credential toy_bolt toy_json (passkey (lit "a") 2) no_entries).1).1

listed :
    list_webauthn_credentials toy_bolt toy_json (lit "op") with_passkeys
    ≡ ok (passkey (lit "b") 1 ∷ passkey (lit "a") 2 ∷ [])
unfolding list_webauthn_credentials add_webauthn_credential credentials_of sort_credentials
    insert_credential create db_update end_transaction or_failed ◌>>=◌ insert_sorted from take_under
    str_ltb str_eqb has_prefix
listed = refl

abbrev stored_passkey : Str
stored_passkey = elim (toy_json.credential.marshal (passkey (lit "a") 2)) [ none ↦ [] | some v ↦ v ]

found_passkey : toy_bolt.get (lit "webauthn_credential-a") with_passkeys ≡ some stored_passkey
unfolding add_webauthn_credential create db_update end_transaction or_failed ◌>>=◌ find
    insert_sorted str_ltb str_eqb
found_passkey = refl

list_webauthn_credentials-OldestFirst_example :
    OldestFirst (passkey (lit "b") 1 ∷ passkey (lit "a") 2 ∷ [])
    × (All (λ d. d.user_id ≡ lit "op") (passkey (lit "b") 1 ∷ passkey (lit "a") 2 ∷ [])
        × (true ≡ true))
list_webauthn_credentials-OldestFirst_example =
    list_webauthn_credentials-OldestFirst toy_bolt toy_json toy_bolt-Laws (lit "op") with_passkeys
      (passkey (lit "b") 1 ∷ passkey (lit "a") 2 ∷ []) (lit "a") stored_passkey
      (passkey (lit "a") 2) (λ c. nat_eqb c.created_at 2) listed found_passkey refl refl refl

abbrev only_ann : toy_bolt.Bucket
only_ann = (register_client toy_bolt toy_json 3 3 ann no_entries).1

registered_ann : register_client toy_bolt toy_json 3 3 ann no_entries ≡ (ok tt, only_ann)
unfolding register_client find insert_sorted db_update end_transaction or_failed ◌>>=◌ from
    take_under str_ltb str_eqb has_prefix
registered_ann = refl

get_client-register_client_example :
    (get_client toy_bolt toy_json (lit "ann") 8 only_ann
      ≡ answered toy_bolt toy_json toy_bolt-Laws 8 ann)
    × (get_client_name toy_bolt toy_json (lit "ann") 8 only_ann
        ≡ named toy_bolt toy_json toy_bolt-Laws 8 ann)
unfolding str_eqb
get_client-register_client_example =
    get_client-register_client toy_bolt toy_json toy_bolt-Laws client-RoundTrips 3 3 8 ann
      (lit "ann") no_entries only_ann registered_ann

abbrev versioned : toy_bolt.Bucket
versioned = (ensure_schema_version toy_bolt toy_json toy_sessions 2 no_entries).1

first_start : ensure_schema_version toy_bolt toy_json toy_sessions 2 no_entries ≡ (ok tt, versioned)
unfolding ensure_schema_version check_schema_version create read decode db_update end_transaction
    or_failed ◌>>=◌ find insert_sorted
first_start = refl

ensure_schema_version-older_example :
    (ensure_schema_version toy_bolt toy_json toy_sessions 2 versioned ≡ (ok tt, versioned))
    × (ensure_schema_version toy_bolt toy_json toy_sessions 1 versioned ≡ (failed, versioned))
ensure_schema_version-older_example =
    ensure_schema_version-older toy_bolt toy_json toy_sessions toy_bolt-Laws version-RoundTrips 2 1
      no_entries versioned first_start (omega arith)
