-- ===== src/Repository/InventoryTests.antt =====
-- Three token records of two clients.
use mcp_oauth_gateway.Base.{Str, lit, true, some, [], ◌∷◌, List, ◌≡◌, str_eqb}
use mcp_oauth_gateway.Repository.SortedMap.{find}
use mcp_oauth_gateway.Repository.Models.{Request}
use mcp_oauth_gateway.Repository.Inventory.{TokenKind, access_token_kind, refresh_token_kind}
use mcp_oauth_gateway.Repository.Inventory.Counts.{tokens_of, add_tokens, tokens_of-add_tokens}

abbrev record_of : Str → Str → Request
record_of name id = record {
  id = id;
  requested_at = 5;
  client = some (record {
    id = name;
    secret = [];
    rotated_secrets = [];
    redirect_uris = [];
    grant_types = [];
    response_types = [];
    scopes = [];
    audience = [];
    public = true;
    name = [];
    created_at = 0;
    expires_at = 0;
  });
  requested_scope = [];
  granted_scope = [];
  form = [];
  requested_audience = [];
  granted_audience = [];
  rotated_at = 0;
  session_data = [];
  label = [];
}

abbrev records : List (TokenKind × Request)
records =
    (access_token_kind, record_of (lit "ann") (lit "r1"))
    ∷ (access_token_kind, record_of (lit "bob") (lit "r2"))
    ∷ (refresh_token_kind, record_of (lit "ann") (lit "r1"))
    ∷ []

tokens_of-add_tokens_example :
    tokens_of access_token_kind (find (lit "ann") (add_tokens records [])) ≡ 1
unfolding str_eqb
tokens_of-add_tokens_example = tokens_of-add_tokens access_token_kind (lit "ann") records
