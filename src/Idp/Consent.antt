-- ===== src/Idp/Consent.antt =====
-- pkg/idp/authorize.go and consent.go: an authorize request from its arrival to the operator's approval. What
-- fosite does is a parameter, and so are the JSON of a list of strings and the library of sessions.
mod Label
mod Consented
pub mod UsedUp
mod Tests
use mcp_oauth_gateway.Base.{
  ℕ, Str, lit, Bool, true, false, not, ◌&&◌, ◌||◌, Option, none, some, List, [], ◌∷◌, ◌++◌, any,
  length, if◌then◌else◌, ◌==◌, str_eq, nat_eq,
}
use mcp_oauth_gateway.Repository.Bolt.{
  Bolt, Reply, ok, not_found, cap_reached, failed, panicked, Codec,
}
use mcp_oauth_gateway.Repository.Models.{Json, Sessions, FositeRequest, FositeAuthorizeRequest}
use mcp_oauth_gateway.Repository.Tokens.{
  create_authorize_request, get_authorize_request, delete_authorize_request,
}
use mcp_oauth_gateway.Auth.Session.{Session, nonempty}
use mcp_oauth_gateway.Idp.Session.{IdpSession, new_jwt_session, sanitize_label}
use mcp_oauth_gateway.Idp.Pending.{
  has_authorize_request_id, add_authorize_request_id, remove_authorize_request_id,
}

abbrev pub remove_suffix_slash : Str → Str
remove_suffix_slash [] = []
remove_suffix_slash (c ∷ []) = if c == b'/' then [] else c ∷ []
remove_suffix_slash (c ∷ (d ∷ s)) = c ∷ remove_suffix_slash (d ∷ s)

-- Whether every resource is the gateway itself.
unfoldable pub validate_resource : Str → List Str → Bool
validate_resource external_url [] = true
validate_resource external_url (resource ∷ rest) =
    if not (resource == []) && not (remove_suffix_slash resource == external_url)
    then false
    else validate_resource external_url rest

-- `url.Values.Set`
unfoldable pub set_value : Str → Str → List (Str × List Str) → List (Str × List Str)
set_value key value [] = (key, value ∷ []) ∷ []
set_value key value ((k, values) ∷ rest) =
    let later = set_value key value rest in
    if k == key then (key, value ∷ []) ∷ rest else (k, values) ∷ later

module _ (lib : Sessions) where
  -- What fosite answers: a request of the query, a response for an approved request, which also stores the
  -- code, how it grants a scope and an audience, and `AddParameter` of a response.
  pub record Provider (Bucket : Type 0) : Type 0 where
    pub new_authorize_request : List (Str × List Str) → Option (FositeAuthorizeRequest lib)
    pub grant_scope : FositeRequest lib → Str → FositeRequest lib
    pub grant_audience : FositeRequest lib → Str → FositeRequest lib
    pub new_authorize_response :
        FositeAuthorizeRequest lib → IdpSession → Bucket → Option (List (Str × Str)) × Bucket
    pub add_parameter : Str → Str → List (Str × Str) → List (Str × Str)

-- The answers of the two handlers.
pub data Answer : Type 0 where
  forbidden : Answer
  server_error : Answer
  authorize_error : Answer
  consent_page : Str → Answer
  approved : List (Str × Str) → Answer

-- What a request finds around it.
pub record Env : Type 0 where
  pub external_url : Str
  pub jti : Option Str
  pub issued : ℕ
  pub not_before : ℕ
  pub saves : Session → Bool
  pub decode_claims : Str → Option Str

module _ (strings : Codec (List Str)) (bolt : Bolt) (json : Json) (lib : Sessions) where
  open bolt use {Bucket}

  module _ (fosite : Provider lib Bucket) where
    open fosite use {
      new_authorize_request, grant_scope, grant_audience, new_authorize_response, add_parameter,
    }

    unfoldable pub grant_scopes : List Str → FositeRequest lib → FositeRequest lib
    grant_scopes [] r = r
    grant_scopes (scope ∷ scopes) r = grant_scopes scopes (grant_scope r scope)

    -- `range` over the requested scopes as they are at the start.
    unfoldable pub grant_requested : Str → FositeAuthorizeRequest lib → FositeAuthorizeRequest lib
    unfolding grant_scopes
    grant_requested external_url ar = record ar {
      request = grant_audience (grant_scopes ar.request.requested_scope ar.request) external_url;
    }

    abbrev pub subject_of : Option Str → Str
    subject_of none = lit "user"
    subject_of (some id) = id

    -- A value that does not decode only loses the claims.
    abbrev pub claims_of : (Str → Option Str) → Option Str → Option Str
    claims_of decode none = none
    claims_of decode (some value) = decode value

    abbrev pub labelled : Str → Option IdpSession → Option IdpSession
    labelled name none = none
    labelled name (some s) = some (record s { label = sanitize_label name })

    unfoldable pub approved_session :
        Env → Session → FositeAuthorizeRequest lib → Str → Option IdpSession
    unfolding new_jwt_session sanitize_label nonempty
    approved_session env s ar connection_name = labelled connection_name (
        new_jwt_session env.jti env.issued env.not_before env.external_url
          (subject_of (nonempty s.user_id)) ar.request.client.id
          (claims_of env.decode_claims (nonempty s.user_info)))

    -- The end of the approval, with the session that is written.
    unfoldable pub respond :
        Env → Str → Session → Option (List (Str × Str)) → Answer × Option Session
    unfolding remove_authorize_request_id
    respond env ar_id s none = (authorize_error, none)
    respond env ar_id s (some response) =
        let rest = remove_authorize_request_id strings s ar_id in
        if env.saves rest
        then (approved (add_parameter (lit "iss") env.external_url response), some rest)
        else (authorize_error, none)

    unfoldable pub approve :
        Env
        → Str
        → Session
        → FositeAuthorizeRequest lib
        → Option IdpSession
        → Bucket
        → (Answer × Option Session) × Bucket
    unfolding respond
    approve env ar_id s ar none b = ((authorize_error, none), b)
    approve env ar_id s ar (some session) b =
        let (response, c) = new_authorize_response ar session b in (respond env ar_id s response, c)

    -- The deferred deletion, whose error is only logged.
    unfoldable pub then_delete :
        Str
        → (Answer × Option Session) × Bucket
        → Answer × Option Session × Option (Reply (Unit {0})) × Bucket
    then_delete ar_id ((answer, cookie), b) =
        let (deleted, c) = delete_authorize_request bolt json lib ar_id b in
        (answer, cookie, some deleted, c)

    unfoldable pub with_request :
        Env
        → Str
        → Str
        → Session
        → Reply (FositeAuthorizeRequest lib)
        → Bucket
        → Answer × Option Session × Option (Reply (Unit {0})) × Bucket
    unfolding approve then_delete grant_requested approved_session
    with_request env ar_id connection_name s (ok ar) b =
        let granted = grant_requested env.external_url ar in
        then_delete ar_id
          (approve env ar_id s granted (approved_session env s granted connection_name) b)
    with_request env ar_id connection_name s _ b = (server_error, none, none, b)

    -- The POST of the consent page: the answer, the session that was written, what the deletion of the
    -- request answered, if it was reached, and the store.
    unfoldable pub handle_authorization_return :
        Env
        → Str
        → Str
        → Session
        → Bucket
        → Answer × Option Session × Option (Reply (Unit {0})) × Bucket
    unfolding has_authorize_request_id with_request
    handle_authorization_return env ar_id connection_name s b =
        if not (has_authorize_request_id strings s ar_id)
        then (forbidden, none, none, b)
        else with_request env ar_id connection_name s (get_authorize_request bolt json lib ar_id b)
            b

    -- The arrival of a request: the answer, the session that was written, and the store.
    unfoldable pub bind_request :
        Env
        → FositeAuthorizeRequest lib
        → Session
        → Reply (Unit {0}) × Bucket
        → Answer × Option Session × Bucket
    unfolding add_authorize_request_id
    bind_request env ar s (ok _, b) =
        let bound = add_authorize_request_id strings s ar.request.id in
        if env.saves bound
        then (consent_page ar.request.id, some bound, b)
        else (authorize_error, none, (delete_authorize_request bolt json lib ar.request.id b).1)
    bind_request env ar s (_, b) = (authorize_error, none, b)

    -- The query, with the generated state if it brings none.
    unfoldable pub with_state :
        Option Str → Str → List (Str × List Str) → Option (List (Str × List Str))
    unfolding set_value
    with_state generated [] query = elim generated [
      | none ↦ none
      | some state ↦ some (set_value (lit "state") state query)
    ]
    with_state generated (c ∷ s) query = some query

    unfoldable pub create_bound :
        Env
        → List Str
        → Session
        → Bucket
        → Option (FositeAuthorizeRequest lib)
        → Answer × Option Session × Bucket
    unfolding validate_resource bind_request
    create_bound env resources s b none = (authorize_error, none, b)
    create_bound env resources s b (some ar) =
        if not (validate_resource env.external_url resources)
        then (authorize_error, none, b)
        else bind_request env ar s (create_authorize_request bolt json lib ar b)

    -- `state` and `resources` are those of the query.
    unfoldable pub handle_auth :
        Env
        → Option Str
        → Str
        → List Str
        → List (Str × List Str)
        → Session
        → Bucket
        → Answer × Option Session × Bucket
    unfolding with_state create_bound
    handle_auth env generated state resources query s b = elim (with_state generated state query) [
      | none ↦ (authorize_error, none, b)
      | some full ↦ create_bound env resources s b (new_authorize_request full)
    ]
