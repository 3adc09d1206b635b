-- ===== src/Repository/Tokens/Deletion.antt =====
-- kvs.go: a pending request that is deleted is gone.
use mcp_oauth_gateway.Base.{
  Str, none, ◌++◌, str_eq, eq_iff, ◌≡◌, refl, ◌∙◌, inl, inr, Bool-cases, Option-cases,
}
use mcp_oauth_gateway.Repository.Bolt.{
  Bolt, Laws, ok, not_found, read, decode, erase, db_update, end_transaction,
}
use mcp_oauth_gateway.Repository.Bolt.Deletion.{get-delete}
use mcp_oauth_gateway.Repository.Models.{Json, Sessions}
use mcp_oauth_gateway.Repository.Tokens.{
  authorize_request_prefix, get_authorize_request, delete_authorize_request,
}

module _ (bolt : Bolt) (laws : Laws bolt) (json : Json) (lib : Sessions) where
  open bolt use {Bucket, get, delete, commits}

  -- What is erased is not found.
  get-erase :
      (key : Str) (b : Bucket) → (erase bolt key b).0 ≡ ok tt → get key (erase bolt key b).1 ≡ none
  unfolding erase db_update end_transaction
  get-erase key b h = elim (Option-cases (delete key b)) [
    | inl bad ↦ cc (rw bad at h)
    | inr (c, p) ↦ elim (Bool-cases (commits c)) [
      | inr bad ↦ cc (rw (p, bad) at h)
      | inl good ↦
          rw (p, good) (get-delete bolt laws key key b c p ∙ rw ((eq_iff key key).1 refl) refl)
    ]
  ]

  pub get_authorize_request-deleted :
      (ar_id : Str) (b : Bucket)
      → (delete_authorize_request bolt json lib ar_id b).0 ≡ ok tt
      → get_authorize_request bolt json lib ar_id (delete_authorize_request bolt json lib ar_id b).1
        ≡ not_found
  unfolding delete_authorize_request get_authorize_request read decode
  get_authorize_request-deleted ar_id b h =
      rw (get-erase (authorize_request_prefix ++ ar_id) b h) refl
