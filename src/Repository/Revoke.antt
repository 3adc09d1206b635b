-- ===== src/Repository/Revoke.antt =====
-- pkg/repository/kvs_inventory.go: what the operator revokes. Each revocation is one transaction.
pub mod Reading
pub mod Removal
pub mod Access
use mcp_oauth_gateway.Base.{
  ℕ, Str, Bool, true, false, Option, none, some, List, [], ◌∷◌, ◌++◌, length, if◌then◌else◌, ◌==◌,
  str_eq,
}
use mcp_oauth_gateway.Repository.Bolt.{
  Bolt, Reply, ok, not_found, cap_reached, failed, panicked, Codec, ◌>>=◌, db_update, walk,
  delete_keys,
}
use mcp_oauth_gateway.Repository.Models.{Json, Sessions, Request, AuthorizeRequest, Client}
use mcp_oauth_gateway.Repository.Tokens.{
  access_token_prefix, refresh_token_prefix, authorize_code_prefix, pkce_request_prefix,
  authorize_request_prefix,
}
use mcp_oauth_gateway.Repository.Clients.{client_prefix}

abbrev pub session_prefixes : List Str
session_prefixes =
    access_token_prefix ∷ refresh_token_prefix ∷ authorize_code_prefix ∷ pkce_request_prefix ∷ []

module _ (bolt : Bolt) (json : Json) where
  open bolt use {Bucket, get}

  -- The walk of `scanPrefix` that collects the keys of the matching records. A record that does not
  -- decode is an error.
  unfoldable pub scan_stale :
      {A : Type 0} → Codec A → (A → Bool) → List (Str × Str) → Reply (List Str)
  unfolding ◌>>=◌
  scan_stale codec match [] = ok []
  scan_stale codec match ((k, v) ∷ rest) = elim (codec.unmarshal v) [
    | none ↦ failed
    | some a ↦ scan_stale codec match rest >>= λ more. ok (if match a then k ∷ more else more)
  ]

  unfoldable pub scan_sessions : (Request → Bool) → List Str → Bucket → Reply (List Str)
  unfolding scan_stale ◌>>=◌
  scan_sessions match [] b = ok []
  scan_sessions match (prefix ∷ rest) b =
      scan_stale json.request match (walk bolt prefix b) >>= λ keys.
      scan_sessions match rest b >>= λ more. ok (keys ++ more)

  unfoldable pub wraps : (Request → Bool) → AuthorizeRequest → Bool
  wraps match ar = elim ar.request [ none ↦ false | some r ↦ match r ]

  unfoldable pub select_clients : Option (Bucket → Reply (List Str)) → Bucket → Reply (List Str)
  select_clients none b = ok []
  select_clients (some select) b = select b

  unfoldable pub stale_records :
      (Request → Bool) → Option (Bucket → Reply (List Str)) → Bucket → Reply (List Str)
  unfolding scan_sessions scan_stale wraps select_clients ◌>>=◌
  stale_records match select b = scan_sessions match session_prefixes b >>= λ sessions.
      scan_stale json.authorize_request (wraps match) (walk bolt authorize_request_prefix b)
      >>= λ pending. select_clients select b >>= λ clients. ok (sessions ++ pending ++ clients)

  unfoldable pub delete_stale : Bucket → List Str → Reply (ℕ × Bucket)
  unfolding delete_keys
  delete_stale b stale = elim (delete_keys bolt stale b) [
    | none ↦ failed
    | some c ↦ ok (length stale, c)
  ]

  -- The number of deleted records.
  unfoldable pub revoke :
      (Request → Bool) → Option (Bucket → Reply (List Str)) → Bucket → Reply ℕ × Bucket
  unfolding stale_records delete_stale db_update ◌>>=◌
  revoke match select b =
      db_update bolt (λ b. stale_records match select b >>= λ stale. delete_stale b stale) b

  abbrev pub of_client : Str → Request → Bool
  of_client client_id r = elim r.client [ none ↦ false | some c ↦ c.id == client_id ]

  unfoldable pub own_client_key : Str → Bucket → Reply (List Str)
  own_client_key client_id b = elim (get (client_prefix ++ client_id) b) [
    | none ↦ ok []
    | some _ ↦ ok ((client_prefix ++ client_id) ∷ [])
  ]

  unfoldable pub all_client_keys : Bucket → Reply (List Str)
  unfolding scan_stale
  all_client_keys b = scan_stale json.client (λ _. true) (walk bolt client_prefix b)

  unfoldable pub revoke_client : Str → Bucket → Reply ℕ × Bucket
  unfolding revoke own_client_key
  revoke_client client_id = revoke (of_client client_id) (some (own_client_key client_id))

  unfoldable pub revoke_grant : Str → Bucket → Reply ℕ × Bucket
  unfolding revoke
  revoke_grant request_id = revoke (λ r. r.id == request_id) none

  unfoldable pub revoke_all : Bucket → Reply ℕ × Bucket
  unfolding revoke all_client_keys
  revoke_all = revoke (λ _. true) (some all_client_keys)
