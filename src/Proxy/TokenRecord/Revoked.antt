-- ===== src/Proxy/TokenRecord/Revoked.antt =====
-- The guard and the store together: what a revocation takes away.
use mcp_oauth_gateway.Base.{ℕ, Str, false, Option, none, some, split, ◌≡◌, refl, ◌==◌, str_eq}
use mcp_oauth_gateway.Repository.Bolt.{
  Bolt, Laws, Reply, ok, not_found, cap_reached, failed, panicked,
}
use mcp_oauth_gateway.Repository.Models.{Json, Sessions, FositeRequest}
use mcp_oauth_gateway.Repository.Tokens.{get_access_token_session}
use mcp_oauth_gateway.Repository.Tokens.Creation.{access_token}
use mcp_oauth_gateway.Repository.Revoke.{revoke_client}
use mcp_oauth_gateway.Repository.Revoke.Access.{revoke_client-Survives}
use mcp_oauth_gateway.Proxy.Guard.{
  Libraries, Config, Request, forwarded, active, bearer_token, signature_of, is_active,
  handle_proxy,
}
use mcp_oauth_gateway.Proxy.Guard.Admitted.{handle_proxy-Admitted}
use mcp_oauth_gateway.Proxy.TokenRecord.{activity_of, record_activity, token_active_checker}

module _ (bolt : Bolt) (json : Json) (sessions : Sessions) where
  open bolt use {Bucket}

  -- The bearer token's record, found without a session.
  pub record Recorded (token : Str) (b : Bucket) : Type 0 where
    pub signature : Str
    pub signed : signature_of (split b'.' token) ≡ some signature
    pub request : FositeRequest sessions
    pub found : get_access_token_session bolt json sessions signature none b ≡ ok request

  activity_of-active :
      (o : Reply (FositeRequest sessions))
      → activity_of bolt json sessions o ≡ active
      → (r : FositeRequest sessions) × (o ≡ ok r)
  unfolding activity_of
  activity_of-active (ok r) e = (r, refl)
  activity_of-active not_found e = cc e
  activity_of-active cap_reached e = cc e
  activity_of-active failed e = cc e
  activity_of-active panicked e = cc e

  record_activity-Recorded :
      (token : Str) (o : Option Str) (b : Bucket)
      → signature_of (split b'.' token) ≡ o
      → record_activity bolt json sessions o b ≡ active
      → Recorded token b
  unfolding record_activity
  record_activity-Recorded token none b s e = cc e
  record_activity-Recorded token (some signature) b s e =
      let (r, found) =
        activity_of-active (get_access_token_session bolt json sessions signature none b) e in
      record { signature = signature; signed = s; request = r; found = found }

  module _ (lib : Libraries) (cfg : Config lib) where
    -- The guard whose TokenActive looks into the store.
    abbrev pub guarding : Bucket → Config lib
    guarding b = record cfg { token_active = some (token_active_checker bolt json sessions b) }

    handle_proxy-Recorded :
        (b : Bucket) (now : ℕ) (r q : Request)
        → handle_proxy lib (guarding b) now r ≡ forwarded q
        → Recorded (bearer_token lib r) b
    unfolding is_active token_active_checker
    handle_proxy-Recorded b now r q e =
        let passed = (handle_proxy-Admitted lib (guarding b) now r q).0 e in
        record_activity-Recorded (bearer_token lib r)
          (signature_of (split b'.' (bearer_token lib r))) b refl passed.present

    -- A request reaches the backend after the revocation.
    pub record StillAllowed (id : Str) (token : Str) (b : Bucket) : Type 0 where
      pub recorded : Recorded token b
      pub of_another : (recorded.request.client.id == id) ≡ false

    -- Once a client is revoked, a request reaches the backend only with a token whose record was in the
    -- store before the revocation, and is of another client.
    pub handle_proxy-StillAllowed :
        Laws bolt
        → (id : Str) (n now : ℕ) (b c : Bucket) (r q : Request)
        → revoke_client bolt json id b ≡ (ok n, c)
        → handle_proxy lib (guarding c) now r ≡ forwarded q
        → StillAllowed id (bearer_token lib r) b
    handle_proxy-StillAllowed laws id n now b c r q revoked sent =
        let record' = handle_proxy-Recorded c now r q sent in
        let survives =
          (revoke_client-Survives bolt json sessions laws id b c n revoked access_token
            record'.signature none id now).0 in
        let (before, other) = (survives record'.request).0 record'.found in
        record {
          recorded = record {
            signature = record'.signature;
            signed = record'.signed;
            request = record'.request;
            found = before;
          };
          of_another = other;
        }
