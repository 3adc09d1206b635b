-- ===== src/Cimd/Tests.antt =====
-- A document of a native client, fetched once and answered twice.
use mcp_oauth_gateway.Base.{
  ℕ, Str, lit, true, false, Option, none, some, List, [], ◌∷◌, map, any, length, ◌≡◌, refl, ◌≤◌,
  ◌==◌, str_eq, nat_eq, str_eqb, has_prefix, if◌then◌else◌, arith,
}
use mcp_oauth_gateway.Cimd.Addresses.{is_disallowed_ip}
use mcp_oauth_gateway.Cimd.Addresses.Ranges.{
  is_disallowed_ip-between, between, dotted, mapped, non_public_v4, non_public_v6,
}
use mcp_oauth_gateway.Cimd.Documents.{
  Url, Document, ok, invalid, validate_document, narrow_to, validate_client_id_url,
}
use mcp_oauth_gateway.Cimd.Documents.Narrowing.{Narrowed, validate_document-Narrowed}
use mcp_oauth_gateway.Cimd.Resolver.{
  Limits, Libraries, Response, unreachable, answered, Cache, fetch, resolve_cached, resolve_fetched,
  store,
}
use mcp_oauth_gateway.Cimd.Resolver.Bounded.{Enumerates, length-store}
use mcp_oauth_gateway.Cimd.Resolver.Lifetime.{
  Fetch, Told, resolve_cached-Told, Reach, started, stored, result_of,
}

-- The AWS metadata service, and two public addresses.
is_disallowed_ip-between_example :
    (is_disallowed_ip (169 ∷ 254 ∷ 169 ∷ 254 ∷ [])
      ≡ any (λ r. between r (dotted 169 254 169 254)) non_public_v4)
    × (is_disallowed_ip (mapped (169 ∷ 254 ∷ 169 ∷ 254 ∷ []))
        ≡ any (λ r. between r (dotted 169 254 169 254)) non_public_v4)
    × (is_disallowed_ip
          (0x26 ∷ 0x06 ∷ 0x47 ∷ 0 ∷ 0 ∷ 0 ∷ 0 ∷ 0 ∷ 0 ∷ 0 ∷ 0 ∷ 0 ∷ 0 ∷ 0 ∷ 0x11 ∷ 0x11 ∷ [])
        ≡ any (λ r. between r 0x26064700000000000000000000001111) non_public_v6)
is_disallowed_ip-between_example =
    is_disallowed_ip-between 169 254 169 254
      (0x26 ∷ 0x06 ∷ 0x47 ∷ 0 ∷ 0 ∷ 0 ∷ 0 ∷ 0 ∷ 0 ∷ 0 ∷ 0 ∷ 0 ∷ 0 ∷ 0 ∷ 0x11 ∷ 0x11 ∷ [])
      (omega arith) refl refl

metadata_service_refused : is_disallowed_ip (169 ∷ 254 ∷ 169 ∷ 254 ∷ []) ≡ true
unfolding is_disallowed_ip
metadata_service_refused = refl

public_address_dialled : is_disallowed_ip (1 ∷ 1 ∷ 1 ∷ 1 ∷ []) ≡ false
unfolding is_disallowed_ip
public_address_dialled = refl

abbrev parse_toy : Str → Option Url
parse_toy raw =
    if has_prefix raw (lit "https://")
    then some (record {
      scheme = lit "https";
      host = lit "a.example";
      hostname = lit "a.example";
      port = [];
      user = false;
    })
    else none

-- It also names a grant that the gateway does not offer.
abbrev published : Document
published = record {
  client_id = lit "https://a.example/c";
  client_name = lit "A";
  redirect_uris = lit "https://a.example/cb" ∷ [];
  grant_types = lit "jwt-bearer" ∷ lit "refresh_token" ∷ [];
  response_types = [];
  scope = [];
  token_endpoint_auth_method = [];
}

abbrev accepted : Document
accepted = record published {
  grant_types = lit "refresh_token" ∷ [];
  response_types = lit "code" ∷ [];
}

document_passes : validate_document parse_toy (lit "https://a.example/c") published ≡ ok accepted
unfolding validate_document narrow_to str_eqb has_prefix
document_passes = refl

validate_document-Narrowed_example :
    Narrowed parse_toy (lit "https://a.example/c") published accepted
validate_document-Narrowed_example =
    validate_document-Narrowed parse_toy (lit "https://a.example/c") published accepted
      document_passes

-- The body of the document is its letter.
abbrev toy_libraries : Libraries
toy_libraries = record {
  parse_url = parse_toy;
  unmarshal = λ body. if body == lit "d" then some published else none;
  accepts_url = λ raw. true;
  split_host = λ address. some address;
  parse_ip = λ host. none;
}

abbrev toy_limits : Limits
toy_limits = record { fetch_timeout = 5; max_size = 10; cache_ttl = 100; negative_ttl = 10 }

abbrev keys_of : Cache → List Str
keys_of c = map (λ p. p.0) c

keys_of-Enumerates : Enumerates keys_of
keys_of-Enumerates [] k h = h
keys_of-Enumerates ((j, e) ∷ c) k h = ground (arith, h, keys_of-Enumerates c k)

abbrev one_entry : Cache
one_entry = (lit "https://a.example/c", record { result = invalid []; expires_at = 5 }) ∷ []

length-store_example :
    length (store keys_of 7 (lit "b") (record { result = invalid []; expires_at = 9 }) one_entry)
    ≤ 4096
length-store_example =
    length-store keys_of 7 (lit "b") (record { result = invalid []; expires_at = 9 }) one_entry
      keys_of-Enumerates (omega arith)

abbrev toy_web : ℕ → Str → Response
toy_web now id = if now == 3 then answered 200 (some (lit "d")) else unreachable

abbrev toy_fetch : Fetch
toy_fetch = record { id = lit "https://a.example/c"; asked = 3; answered = 4 }

abbrev after_fetch : Cache
after_fetch =
    resolve_fetched toy_libraries toy_limits false keys_of 4 5 toy_fetch.id
      (result_of toy_libraries toy_limits false toy_web toy_fetch) []

after_fetch-Reach : Reach toy_libraries toy_limits false toy_web after_fetch (toy_fetch ∷ []) 5
after_fetch-Reach = stored keys_of toy_fetch 5 (started 0) (omega arith) (omega arith) (omega arith)

answered_again :
    resolve_cached toy_libraries toy_limits false 50 (lit "https://a.example/c") after_fetch
    ≡ some (ok accepted)
unfolding resolve_cached resolve_fetched fetch validate_client_id_url validate_document narrow_to
    str_eqb has_prefix
answered_again = refl

resolve_cached-Told_example :
    Told toy_libraries toy_limits false toy_web
      (lit "https://a.example/c")
      (toy_fetch ∷ [])
      50
      (ok accepted)
resolve_cached-Told_example =
    resolve_cached-Told toy_libraries toy_limits false toy_web (lit "https://a.example/c") 50
      (ok accepted) after_fetch-Reach (omega arith) answered_again

expired_later :
    resolve_cached toy_libraries toy_limits false 104 (lit "https://a.example/c") after_fetch ≡ none
unfolding resolve_cached resolve_fetched fetch validate_client_id_url validate_document narrow_to
    str_eqb has_prefix
expired_later = refl
