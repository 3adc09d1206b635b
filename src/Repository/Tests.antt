-- ===== src/Repository/Tests.antt =====
-- The store at work: two clients, and a token of each.
use mcp_oauth_gateway.Base.{
  Str, lit, true, none, some, [], ◌∷◌, ◌≡◌, refl, arith, str_eqb, str_ltb, has_prefix, ◌==◌, str_eq,
}
use mcp_oauth_gateway.Repository.SortedMap.{find, insert_sorted, remove, from, take_under}
use mcp_oauth_gateway.Repository.Bolt.{
  ok, not_found, ◌>>=◌, or_failed, create, db_update, end_transaction, stale_keys, delete_keys,
  delete_under,
}
use mcp_oauth_gateway.Repository.Models.{
  FositeClient, FositeRequest, from_fosite_client, from_fosite_req, session_data_of, label_of,
}
use mcp_oauth_gateway.Repository.Tokens.{
  create_session, create_access_token_session, create_refresh_token_session,
  get_access_token_session, get_refresh_token_session, rotate_refresh_token, revoke_access_token,
  revoke_refresh_token, delete_matching, request_matches,
}
use mcp_oauth_gateway.Repository.Tokens.Creation.{
  access_token, refresh_token, create_of, get_of, restored, get_of-create_of,
}
use mcp_oauth_gateway.Repository.Tokens.Rotation.{get_refresh_token_session-rotate}
use mcp_oauth_gateway.Repository.Tokens.Revocation.{Survives, revoke_tokens-Survives}
use mcp_oauth_gateway.Repository.Maintenance.{delete_expired_sessions}
use mcp_oauth_gateway.Repository.Maintenance.Expiry.{
  Swept, is_expired, delete_expired_sessions-Swept,
}
use mcp_oauth_gateway.Repository.Clients.{ClientRegistration, register_client, get_client}
use mcp_oauth_gateway.Repository.Clients.Cap.{Capped, register_client-Capped}
use mcp_oauth_gateway.Repository.Revoke.{
  revoke, revoke_client, own_client_key, scan_sessions, scan_stale, stale_records, select_clients,
  wraps, delete_stale,
}
use mcp_oauth_gateway.Repository.Revoke.Removal.{Revokes, revoke-Revokes}
use mcp_oauth_gateway.Repository.Revoke.Access.{revoke_client-Survives}
use mcp_oauth_gateway.Repository.Format.Records.{toy_json, request-RoundTrips}
use mcp_oauth_gateway.Repository.Toy.{toy_bolt, toy_bolt-Laws, toy_sessions, no_entries}

abbrev client_named : Str → FositeClient
client_named name = record {
  id = name;
  secret = [];
  rotated_secrets = [];
  redirect_uris = lit "https://a/cb" ∷ [];
  grant_types = [];
  response_types = [];
  scopes = [];
  audience = [];
  public = true;
}

abbrev request_of : Str → Str → FositeRequest toy_sessions
request_of name id = record {
  id = id;
  requested_at = 5;
  client = client_named name;
  requested_scope = [];
  granted_scope = lit "mcp" ∷ [];
  form = [];
  requested_audience = [];
  granted_audience = [];
  session = some (lit "home");
}

abbrev with_access : toy_bolt.Bucket
with_access =
    (create_of toy_bolt toy_json toy_sessions access_token [] (lit "t1")
      (request_of (lit "ann") (lit "r1")) no_entries).1

abbrev with_refresh : toy_bolt.Bucket
with_refresh =
    (create_of toy_bolt toy_json toy_sessions refresh_token (lit "t1") (lit "t2")
      (request_of (lit "bob") (lit "r2")) with_access).1

created_access :
    create_of toy_bolt toy_json toy_sessions access_token []
      (lit "t1")
      (request_of (lit "ann") (lit "r1"))
      no_entries
    ≡ (ok tt, with_access)
unfolding create_access_token_session create_session create db_update end_transaction or_failed
    ◌>>=◌ insert_sorted
created_access = refl

get_of-create_of_example :
    get_of toy_bolt toy_json toy_sessions access_token (lit "t1") (some []) with_access
    ≡ restored toy_bolt toy_json toy_sessions (request_of (lit "ann") (lit "r1")) (some [])
unfolding str_eqb
get_of-create_of_example =
    get_of-create_of toy_bolt toy_json toy_sessions toy_bolt-Laws request-RoundTrips access_token
      access_token [] (lit "t1") (lit "t1") (request_of (lit "ann") (lit "r1")) (some []) no_entries
      with_access created_access

get_refresh_token_session-rotate_example :
    get_refresh_token_session toy_bolt toy_json toy_sessions
      (lit "t2")
      (some [])
      (rotate_refresh_token toy_bolt toy_json toy_sessions 9 (lit "r2") (lit "t2") with_refresh).1
    ≡ get_refresh_token_session toy_bolt toy_json toy_sessions (lit "t2") (some []) with_refresh
get_refresh_token_session-rotate_example =
    get_refresh_token_session-rotate toy_bolt toy_json toy_sessions toy_bolt-Laws request-RoundTrips
      9 (lit "r2") (lit "t2") (lit "t2") (some []) with_refresh

delete_expired_sessions-Swept_example :
    Swept toy_bolt toy_bolt-Laws
      (is_expired toy_bolt toy_bolt-Laws toy_json toy_sessions 6 4 4)
      with_refresh
      (delete_expired_sessions toy_bolt toy_json toy_sessions 6 4 4 with_refresh).0
      (delete_expired_sessions toy_bolt toy_json toy_sessions 6 4 4 with_refresh).1
delete_expired_sessions-Swept_example =
    delete_expired_sessions-Swept toy_bolt toy_bolt-Laws toy_json toy_sessions 6 4 4 with_refresh

abbrev without_access : toy_bolt.Bucket
without_access = (revoke_access_token toy_bolt toy_json toy_sessions (lit "r1") with_refresh).1

abbrev without_tokens : toy_bolt.Bucket
without_tokens = (revoke_refresh_token toy_bolt toy_json toy_sessions (lit "r1") without_access).1

revoked_access :
    revoke_access_token toy_bolt toy_json toy_sessions (lit "r1") with_refresh
    ≡ (ok tt, without_access)
unfolding revoke_access_token delete_matching delete_under db_update end_transaction stale_keys
    delete_keys create_access_token_session create_refresh_token_session create_session create
    or_failed ◌>>=◌ insert_sorted from take_under remove request_matches str_ltb str_eqb has_prefix
    from_fosite_req from_fosite_client session_data_of label_of
revoked_access = refl

revoked_refresh :
    revoke_refresh_token toy_bolt toy_json toy_sessions (lit "r1") without_access
    ≡ (ok tt, without_tokens)
unfolding revoke_refresh_token revoke_access_token delete_matching delete_under db_update
    end_transaction stale_keys delete_keys create_access_token_session create_refresh_token_session
    create_session create or_failed ◌>>=◌ insert_sorted from take_under remove request_matches
    str_ltb str_eqb has_prefix from_fosite_req from_fosite_client session_data_of label_of
revoked_refresh = refl

revoke_tokens-Survives_example :
    Survives toy_bolt toy_json toy_sessions
      (λ r. r.id == lit "r1")
      (get_access_token_session toy_bolt toy_json toy_sessions (lit "t1") (some []) with_refresh)
      (get_access_token_session toy_bolt toy_json toy_sessions (lit "t1") (some []) without_tokens)
    × Survives toy_bolt toy_json toy_sessions
        (λ r. r.id == lit "r1")
        (get_refresh_token_session toy_bolt toy_json toy_sessions (lit "t1") (some []) with_refresh)
        (get_refresh_token_session toy_bolt toy_json toy_sessions
          (lit "t1")
          (some [])
          without_tokens)
revoke_tokens-Survives_example =
    revoke_tokens-Survives toy_bolt toy_json toy_sessions toy_bolt-Laws (lit "r1") (lit "t1")
      (some []) with_refresh without_access without_tokens revoked_access revoked_refresh

abbrev ann : ClientRegistration
ann = record {
  client = client_named (lit "ann");
  name = lit "Ann";
  expires_at = 0;
  max_clients = 1;
}

abbrev bob : ClientRegistration
bob = record {
  client = client_named (lit "bob");
  name = lit "Bob";
  expires_at = 9;
  max_clients = 1;
}

abbrev with_ann : toy_bolt.Bucket
with_ann = (register_client toy_bolt toy_json 3 3 ann with_refresh).1

no_bob : toy_bolt.get (lit "client-bob") with_ann ≡ none
unfolding register_client find insert_sorted create_access_token_session
    create_refresh_token_session create_session create db_update end_transaction or_failed ◌>>=◌
    from take_under str_ltb str_eqb has_prefix
no_bob = refl

register_client-Capped_example :
    Capped toy_bolt toy_json toy_bolt-Laws 1 4 with_ann
      (register_client toy_bolt toy_json 4 4 bob with_ann).0
      (register_client toy_bolt toy_json 4 4 bob with_ann).1
register_client-Capped_example =
    register_client-Capped toy_bolt toy_json toy_bolt-Laws 4 4 bob with_ann (omega arith) no_bob

revoke-Revokes_example :
    Revokes toy_bolt toy_json toy_bolt-Laws
      (λ r. r.id == lit "r1")
      none
      with_ann
      (revoke toy_bolt toy_json (λ r. r.id == lit "r1") none with_ann).0
      (revoke toy_bolt toy_json (λ r. r.id == lit "r1") none with_ann).1
revoke-Revokes_example =
    revoke-Revokes toy_bolt toy_json toy_bolt-Laws (λ r. r.id == lit "r1") none with_ann

abbrev without_ann : toy_bolt.Bucket
without_ann = (revoke_client toy_bolt toy_json (lit "ann") with_ann).1

-- The access token and the registration are deleted.
revoked_ann : revoke_client toy_bolt toy_json (lit "ann") with_ann ≡ (ok 2, without_ann)
unfolding revoke_client revoke stale_records scan_sessions scan_stale wraps select_clients
    own_client_key delete_stale delete_keys register_client find insert_sorted remove
    create_access_token_session create_refresh_token_session create_session create db_update
    end_transaction or_failed ◌>>=◌ from take_under str_ltb str_eqb has_prefix from_fosite_req
    from_fosite_client session_data_of label_of
revoked_ann = refl

revoke_client-Survives_example :
    Survives toy_bolt toy_json toy_sessions
      (λ r. r.client.id == lit "ann")
      (get_of toy_bolt toy_json toy_sessions access_token (lit "t1") (some []) with_ann)
      (get_of toy_bolt toy_json toy_sessions access_token (lit "t1") (some []) without_ann)
    × (get_client toy_bolt toy_json (lit "ann") 5 without_ann ≡ not_found)
unfolding str_eqb
revoke_client-Survives_example =
    revoke_client-Survives toy_bolt toy_json toy_sessions toy_bolt-Laws (lit "ann") with_ann
      without_ann 2 revoked_ann access_token (lit "t1") (some []) (lit "ann") 5
