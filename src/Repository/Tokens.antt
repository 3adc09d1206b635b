-- ===== src/Repository/Tokens.antt =====
-- pkg/repository/kvs.go: the sessions of tokens, codes and PKCE requests, pending authorize requests,
-- and their revocation by grant. `restoreSession` is of interface.go. Each transaction is one step; an operation of two has two.
pub mod Creation
pub mod Rotation
pub mod Revocation
pub mod Deletion
use mcp_oauth_gateway.Base.{
  ℕ, Str, lit, Bool, true, false, ◌&&◌, ◌||◌, Option, none, some, List, [], ◌∷◌, ◌++◌,
  if◌then◌else◌, ◌==◌, str_eq, ltb,
}
use mcp_oauth_gateway.Repository.Bolt.{
  Bolt, Reply, ok, not_found, cap_reached, failed, panicked, Codec, ◌>>=◌, or_failed, or_panicked,
  then_step, create, read, erase, overwrite, delete_under,
}
use mcp_oauth_gateway.Repository.Models.{
  Json, Sessions, Request, AuthorizeRequest, FositeRequest, FositeAuthorizeRequest, from_fosite_req,
  to_fosite_req, from_fosite_authorize_request, to_fosite_authorize_request,
}

abbrev pub access_token_prefix : Str
access_token_prefix = lit "access_token-"

abbrev pub refresh_token_prefix : Str
refresh_token_prefix = lit "refresh_token-"

abbrev pub authorize_code_prefix : Str
authorize_code_prefix = lit "authorize_code-"

abbrev pub pkce_request_prefix : Str
pkce_request_prefix = lit "pkce_request-"

abbrev pub authorize_request_prefix : Str
authorize_request_prefix = lit "authorize_request-"

module _ (bolt : Bolt) (json : Json) (lib : Sessions) where
  open bolt use {Bucket}
  open lib use {Session, unmarshal_session}

  unfoldable pub restore_session :
      FositeRequest lib → Str → Option Session → Reply (FositeRequest lib)
  restore_session r [] sess = ok r
  restore_session r (_ ∷ _) none = ok r
  restore_session r (c ∷ data') (some s) = elim (unmarshal_session (c ∷ data') s) [
    | none ↦ failed
    | some read ↦ ok (record r { session = some read })
  ]

  -- The request of a record, and its session.
  unfoldable pub get_session : Str → Option Session → Bucket → Reply (FositeRequest lib)
  unfolding read or_panicked restore_session ◌>>=◌
  get_session key sess b = read bolt json.request key b >>= λ req.
      or_panicked (to_fosite_req lib req) >>= λ r. restore_session r req.session_data sess

  unfoldable pub create_session : Str → FositeRequest lib → Bucket → Reply (Unit {0}) × Bucket
  create_session key req b = create bolt json.request key (from_fosite_req lib req) b

  unfoldable pub create_authorize_code_session :
      Str → FositeRequest lib → Bucket → Reply (Unit {0}) × Bucket
  unfolding create_session
  create_authorize_code_session code = create_session (authorize_code_prefix ++ code)

  unfoldable pub get_authorize_code_session :
      Str → Option Session → Bucket → Reply (FositeRequest lib)
  unfolding get_session
  get_authorize_code_session code = get_session (authorize_code_prefix ++ code)

  unfoldable pub invalidate_authorize_code_session : Str → Bucket → Reply (Unit {0}) × Bucket
  invalidate_authorize_code_session code = erase bolt (authorize_code_prefix ++ code)

  unfoldable pub create_access_token_session :
      Str → FositeRequest lib → Bucket → Reply (Unit {0}) × Bucket
  unfolding create_session
  create_access_token_session signature = create_session (access_token_prefix ++ signature)

  unfoldable pub get_access_token_session :
      Str → Option Session → Bucket → Reply (FositeRequest lib)
  unfolding get_session
  get_access_token_session signature = get_session (access_token_prefix ++ signature)

  unfoldable pub delete_access_token_session : Str → Bucket → Reply (Unit {0}) × Bucket
  delete_access_token_session signature = erase bolt (access_token_prefix ++ signature)

  -- The access token's signature is not stored.
  unfoldable pub create_refresh_token_session :
      Str → Str → FositeRequest lib → Bucket → Reply (Unit {0}) × Bucket
  unfolding create_session
  create_refresh_token_session signature access_signature =
      create_session (refresh_token_prefix ++ signature)

  unfoldable pub get_refresh_token_session :
      Str → Option Session → Bucket → Reply (FositeRequest lib)
  unfolding get_session
  get_refresh_token_session signature = get_session (refresh_token_prefix ++ signature)

  unfoldable pub delete_refresh_token_session : Str → Bucket → Reply (Unit {0}) × Bucket
  delete_refresh_token_session signature = erase bolt (refresh_token_prefix ++ signature)

  unfoldable pub create_pkce_request_session :
      Str → FositeRequest lib → Bucket → Reply (Unit {0}) × Bucket
  unfolding create_session
  create_pkce_request_session signature = create_session (pkce_request_prefix ++ signature)

  unfoldable pub get_pkce_request_session :
      Str → Option Session → Bucket → Reply (FositeRequest lib)
  unfolding get_session
  get_pkce_request_session signature = get_session (pkce_request_prefix ++ signature)

  unfoldable pub delete_pkce_request_session : Str → Bucket → Reply (Unit {0}) × Bucket
  delete_pkce_request_session signature = erase bolt (pkce_request_prefix ++ signature)

  unfoldable pub create_authorize_request :
      FositeAuthorizeRequest lib → Bucket → Reply (Unit {0}) × Bucket
  create_authorize_request ar =
      create bolt json.authorize_request (authorize_request_prefix ++ ar.request.id)
        (from_fosite_authorize_request lib ar)

  unfoldable pub get_authorize_request : Str → Bucket → Reply (FositeAuthorizeRequest lib)
  unfolding read or_panicked ◌>>=◌
  get_authorize_request request_id b =
      read bolt json.authorize_request (authorize_request_prefix ++ request_id) b >>= λ ar.
      or_panicked (to_fosite_authorize_request lib ar)

  unfoldable pub delete_authorize_request : Str → Bucket → Reply (Unit {0}) × Bucket
  delete_authorize_request request_id = erase bolt (authorize_request_prefix ++ request_id)

  unfoldable pub rotate_refresh_token : ℕ → Str → Str → Bucket → Reply (Unit {0}) × Bucket
  unfolding then_step read overwrite
  rotate_refresh_token now request_id signature b =
      then_step bolt (read bolt json.request (refresh_token_prefix ++ signature) b, b)
        λ req.
          overwrite bolt json.request (refresh_token_prefix ++ signature)
            (record req { rotated_at = now })

  -- A record that does not decode is passed over.
  unfoldable pub request_matches : (Request → Bool) → Str → Bool
  request_matches match data' = elim (json.request.unmarshal data') [
    | none ↦ false
    | some r ↦ match r
  ]

  unfoldable pub delete_matching : Str → (Request → Bool) → Bucket → Reply (Unit {0}) × Bucket
  unfolding delete_under
  delete_matching prefix match = delete_under bolt prefix (request_matches match)

  unfoldable pub revoke_refresh_token : Str → Bucket → Reply (Unit {0}) × Bucket
  unfolding delete_matching
  revoke_refresh_token request_id = delete_matching refresh_token_prefix (λ r. r.id == request_id)

  unfoldable pub revoke_access_token : Str → Bucket → Reply (Unit {0}) × Bucket
  unfolding delete_matching
  revoke_access_token request_id = delete_matching access_token_prefix (λ r. r.id == request_id)
