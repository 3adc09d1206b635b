-- ===== src/Idp/Registration/Tests.antt =====
-- A public client registers.
use mcp_oauth_gateway.Base.{
  Str, lit, false, Option, none, some, [], ◌∷◌, ◌++◌, ◌≡◌, refl, str_eq, str_eqb, str_ltb,
  has_prefix,
}
use mcp_oauth_gateway.Cimd.Documents.{Url, validate_redirect_uri}
use mcp_oauth_gateway.Repository.SortedMap.{find, insert_sorted, from, take_under}
use mcp_oauth_gateway.Repository.Bolt.{db_update, end_transaction}
use mcp_oauth_gateway.Repository.Clients.{register_client}
use mcp_oauth_gateway.Repository.Format.Records.{toy_json, client-RoundTrips}
use mcp_oauth_gateway.Repository.Toy.{Sorted, toy_bolt, toy_bolt-Laws, no_entries}
use mcp_oauth_gateway.Idp.Registration.{
  RegistrationRequest, RegistrationResponse, created, rejected, Env, handle_register, with_defaults,
  response_of,
}
use mcp_oauth_gateway.Idp.Registration.Registered.{Registered, handle_register-Registered}

abbrev parse_toy : Str → Option Url
parse_toy raw =
    some (record { scheme = lit "https"; host = raw; hostname = raw; port = []; user = false })

abbrev toy_env : Env
toy_env = record {
  join_path = λ id. some (lit "/.idp/register/" ++ id);
  client_id = some (lit "c1");
  client_secret = some (lit "s");
  hash = λ secret. some (lit "#" ++ secret);
  expiry_from = 1;
  created_at = 2;
  counted_at = 3;
  answered_at = 4;
  external_url = lit "https://g";
  dcr_client_ttl = 50;
  dcr_max_clients = 1;
}

abbrev request : RegistrationRequest
request = record {
  client_name = lit "N";
  grant_types = [];
  response_types = [];
  token_endpoint_auth_method = lit "none";
  scope = lit "a b";
  redirect_uris = lit "https://a/cb" ∷ [];
}

abbrev response : RegistrationResponse
response = response_of toy_env (with_defaults request) (lit "c1") [] (lit "/.idp/register/c1")

abbrev after : Sorted
after = (handle_register parse_toy toy_bolt toy_json toy_env (some request) no_entries).1

registered :
    handle_register parse_toy toy_bolt toy_json toy_env (some request) no_entries
    ≡ (created response, after)
unfolding handle_register validate_redirect_uri register_client db_update end_transaction str_eqb
    str_ltb has_prefix find insert_sorted from take_under
registered = refl

handle_register-Registered_example :
    Registered parse_toy toy_bolt toy_json toy_bolt-Laws toy_env request no_entries response after
handle_register-Registered_example =
    handle_register-Registered parse_toy toy_bolt toy_json toy_bolt-Laws client-RoundTrips toy_env
      request no_entries after response registered

refused_scheme :
    handle_register (λ raw. none) toy_bolt toy_json toy_env (some request) no_entries
    ≡ (rejected 400 (lit "invalid_redirect_uri"), no_entries)
unfolding handle_register validate_redirect_uri
refused_scheme = refl
