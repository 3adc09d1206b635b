-- ===== src/Proxy/Tests.antt =====
-- The guard at work: a JWT library that takes `<kid>.<claims>.<signature>`, and a store with one token.
use mcp_oauth_gateway.Base.{
  Str, lit, true, false, Option, none, some, List, [], ◌∷◌, ◌≡◌, ◌↔◌, refl, str_eqb, str_ltb,
  has_prefix, if◌then◌else◌, ◌==◌, str_eq, empty, insert, split, drop_prefix,
}
use mcp_oauth_gateway.Repository.SortedMap.{find, insert_sorted, from, take_under}
use mcp_oauth_gateway.Repository.Bolt.{
  ok, ◌>>=◌, or_failed, or_panicked, create, db_update, end_transaction, read, decode, delete_keys,
}
use mcp_oauth_gateway.Repository.Models.{
  FositeRequest, from_fosite_client, from_fosite_req, session_data_of, label_of, to_fosite_req,
  to_fosite_client,
}
use mcp_oauth_gateway.Repository.Tokens.{
  create_session, create_access_token_session, get_session, get_access_token_session,
  restore_session,
}
use mcp_oauth_gateway.Repository.Revoke.{
  revoke, revoke_client, own_client_key, scan_sessions, scan_stale, stale_records, select_clients,
  wraps, delete_stale,
}
use mcp_oauth_gateway.Repository.Format.Records.{toy_json}
use mcp_oauth_gateway.Repository.Toy.{toy_bolt, toy_bolt-Laws, toy_sessions, no_entries}
use mcp_oauth_gateway.Proxy.Headers.{Header, canonical, is_token, recase, recased, header_get}
use mcp_oauth_gateway.Proxy.Guard.{
  Libraries, Config, Request, forwarded, text, handle_proxy, outgoing_header, bearer_token,
  check_token, key_for, with_claims, with_activity, is_active, forward, is_sse_get_request,
  signature_of,
}
use mcp_oauth_gateway.Proxy.Guard.Passage.{Passes, handle_proxy-Passes}
use mcp_oauth_gateway.Proxy.Guard.Spoofing.{outgoing_header-is_protected}
use mcp_oauth_gateway.Proxy.TokenRecord.{activity_of, record_activity, token_active_checker}
use mcp_oauth_gateway.Proxy.TokenRecord.Revoked.{StillAllowed, guarding, handle_proxy-StillAllowed}

abbrev claims_of : (Str → Str → Option Str) → List Str → Option Str
claims_of key (kid ∷ (claims ∷ (signature ∷ []))) = elim (key kid (lit "RS256")) [
  | none ↦ none
  | some _ ↦ some claims
]
claims_of key _ = none

abbrev toy_jwt : Libraries
toy_jwt = record {
  Public = Str;
  Claims = Str;
  Value = Str;
  parse_with_claims = λ key issuer audience leeway now token. claims_of key (split b'.' token);
  as_value = λ claims. claims;
  point = λ value pointer. some value;
  claim = λ value. text value;
}

abbrev one_key : Str → Option (Str × Str)
one_key kid = if kid == lit "k" then some (lit "public", lit "RS256") else none

abbrev cfg : Config toy_jwt
cfg = record {
  external_url = lit "https://g";
  verification_key = one_key;
  proxy_headers = (lit "x-api-key", lit "secret" ∷ []) ∷ [];
  http_streaming_only = true;
  forward_authorization_header = false;
  header_mapping = (lit "/email", lit "X-User") ∷ [];
  header_mapping_base = lit "/";
  clock_skew = 0;
  token_active = none;
}

abbrev sent_header : Header
sent_header =
    insert (lit "Authorization") (lit "Bearer k.ann.t1" ∷ [])
      (insert (lit "X-Api-Key") (lit "forged" ∷ []) empty)

abbrev post : Request
post = record { method = lit "POST"; path = lit "/mcp"; header = sent_header }

abbrev passed_on : Request
passed_on = record post { header = outgoing_header toy_jwt cfg (lit "ann") sent_header }

handle_proxy-Passes_example :
    (handle_proxy toy_jwt cfg 7 post ≡ forwarded passed_on) ↔ Passes toy_jwt cfg 7 post passed_on
handle_proxy-Passes_example = handle_proxy-Passes toy_jwt cfg 7 post passed_on

-- The injected credential replaces the forged one.
outgoing_header-is_protected_example :
    outgoing_header toy_jwt cfg (lit "ann") sent_header (lit "X-Api-Key")
    ≡ outgoing_header toy_jwt cfg (lit "ann") empty (lit "X-Api-Key")
unfolding canonical is_token recase recased str_eqb
outgoing_header-is_protected_example =
    outgoing_header-is_protected toy_jwt cfg (lit "ann") sent_header (lit "X-Api-Key")

abbrev request_of_ann : FositeRequest toy_sessions
request_of_ann = record {
  id = lit "r1";
  requested_at = 5;
  client = record {
    id = lit "ann";
    secret = [];
    rotated_secrets = [];
    redirect_uris = [];
    grant_types = [];
    response_types = [];
    scopes = [];
    audience = [];
    public = true;
  };
  requested_scope = [];
  granted_scope = [];
  form = [];
  requested_audience = [];
  granted_audience = [];
  session = none;
}

abbrev with_token : toy_bolt.Bucket
with_token =
    (create_access_token_session toy_bolt toy_json toy_sessions (lit "t1") request_of_ann
      no_entries).1

abbrev without_bob : toy_bolt.Bucket
without_bob = (revoke_client toy_bolt toy_json (lit "bob") with_token).1

revoked_bob : revoke_client toy_bolt toy_json (lit "bob") with_token ≡ (ok 0, without_bob)
unfolding revoke_client revoke stale_records scan_sessions scan_stale wraps select_clients
    own_client_key delete_stale delete_keys find insert_sorted create_access_token_session
    create_session create db_update end_transaction or_failed ◌>>=◌ from take_under str_ltb str_eqb
    has_prefix from_fosite_req from_fosite_client session_data_of label_of
revoked_bob = refl

passed_guard :
    handle_proxy toy_jwt (guarding toy_bolt toy_json toy_sessions toy_jwt cfg without_bob) 7 post
    ≡ forwarded passed_on
unfolding handle_proxy bearer_token header_get canonical is_token recase recased drop_prefix split
    check_token key_for with_claims with_activity is_active forward is_sse_get_request signature_of
    token_active_checker record_activity activity_of get_access_token_session get_session read
    decode or_panicked to_fosite_req to_fosite_client restore_session revoke_client revoke
    stale_records scan_sessions scan_stale wraps select_clients own_client_key delete_stale
    delete_keys find insert_sorted create_access_token_session create_session create db_update
    end_transaction or_failed ◌>>=◌ from take_under str_ltb str_eqb has_prefix from_fosite_req
    from_fosite_client session_data_of label_of
passed_guard = refl

handle_proxy-StillAllowed_example :
    StillAllowed toy_bolt toy_json toy_sessions toy_jwt cfg
      (lit "bob")
      (bearer_token toy_jwt post)
      with_token
handle_proxy-StillAllowed_example =
    handle_proxy-StillAllowed toy_bolt toy_json toy_sessions toy_jwt cfg toy_bolt-Laws (lit "bob") 0
      7 with_token without_bob post passed_on revoked_bob passed_guard
