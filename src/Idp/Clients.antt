-- ===== src/Idp/Clients.antt =====
-- pkg/idp/client_source.go: where a client is looked up. The store and the resolver are functions; every
-- client is a `*fosite.DefaultClient`.
use mcp_oauth_gateway.Base.{
  Str, lit, true, Option, none, some, [], ◌∷◌, length, if◌then◌else◌, ◌==◌, nat_eq, str_eq,
  has_prefix, fields,
}
use mcp_oauth_gateway.Cimd.Documents.{Outcome, invalid, Document}
use mcp_oauth_gateway.Repository.Bolt.{Reply, not_found, cap_reached, failed, panicked}
use mcp_oauth_gateway.Repository.Models.{FositeClient}
use mcp_oauth_gateway.Idp.Loopback.{Net, expand_loopback_redirects}

unfoldable pub client_of : Str → Document → FositeClient
unfolding fields
client_of external_url doc = record {
  id = doc.client_id;
  secret = [];
  rotated_secrets = [];
  redirect_uris = doc.redirect_uris;
  grant_types = doc.grant_types;
  response_types = doc.response_types;
  scopes = fields doc.scope;
  audience = external_url ∷ [];
  public = true;
}

unfoldable pub resolved : Str → Outcome Document → Reply FositeClient
unfolding client_of
resolved external_url (Outcome.ok doc) = Reply.ok (client_of external_url doc)
resolved external_url (invalid e) = not_found

unfoldable pub lookup_client :
    Str → Option (Str → Outcome Document) → (Str → Reply FositeClient) → Str → Reply FositeClient
unfolding has_prefix resolved
lookup_client external_url none stored id = stored id
lookup_client external_url (some resolve) stored id =
    if has_prefix id (lit "https://") then resolved external_url (resolve id) else stored id

-- The client with the redirect URIs that the request may use.
unfoldable pub admit_redirect : Net → Str → FositeClient → FositeClient
unfolding expand_loopback_redirects
admit_redirect net raw c =
    let expanded = expand_loopback_redirects net c.redirect_uris raw in
    if raw == []
    then c
    else if length expanded == length c.redirect_uris
    then c
    else record c { redirect_uris = expanded }

unfoldable pub admitted : Net → Str → Reply FositeClient → Reply FositeClient
unfolding admit_redirect
admitted net raw (Reply.ok c) = Reply.ok (admit_redirect net raw c)
admitted net raw not_found = not_found
admitted net raw cap_reached = cap_reached
admitted net raw failed = failed
admitted net raw panicked = panicked

-- `raw` is the redirect URI of an authorize request, empty elsewhere.
unfoldable pub get_client :
    Net
    → Str
    → Option (Str → Outcome Document)
    → (Str → Reply FositeClient)
    → Str
    → Str
    → Reply FositeClient
unfolding lookup_client admitted
get_client net external_url resolver stored raw id =
    admitted net raw (lookup_client external_url resolver stored id)

-- `declaredClientName` of consent.go: the name that a client gives itself, empty if it cannot be read.
unfoldable pub name_or_none : Reply Str → Str
name_or_none (Reply.ok name) = name
name_or_none _ = []

unfoldable pub document_name : Outcome Document → Str
document_name (Outcome.ok doc) = doc.client_name
document_name (invalid e) = []

unfoldable pub declared_client_name :
    Option (Str → Outcome Document) → (Str → Reply Str) → Str → Str
unfolding has_prefix name_or_none document_name
declared_client_name resolver stored_name id =
    if has_prefix id (lit "https://")
    then elim resolver [ none ↦ [] | some resolve ↦ document_name (resolve id) ]
    else name_or_none (stored_name id)
