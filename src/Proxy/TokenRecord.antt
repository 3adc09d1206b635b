-- ===== src/Proxy/TokenRecord.antt =====
-- pkg/mcp-proxy/router.go: `tokenActiveChecker`, which looks for the token's record in the store.
pub mod Revoked
use mcp_oauth_gateway.Base.{ℕ, Str, Option, none, some, List, split}
use mcp_oauth_gateway.Repository.Bolt.{Bolt, Reply, ok, not_found, cap_reached, failed, panicked}
use mcp_oauth_gateway.Repository.Models.{Json, Sessions, FositeRequest}
use mcp_oauth_gateway.Repository.Tokens.{get_access_token_session}
use mcp_oauth_gateway.Proxy.Guard.{Activity, active, inactive, broken, signature_of}

module _ (bolt : Bolt) (json : Json) (sessions : Sessions) where
  open bolt use {Bucket}

  -- A panic also ends the request, with status 500.
  unfoldable pub activity_of : Reply (FositeRequest sessions) → Activity
  activity_of (ok _) = active
  activity_of not_found = inactive
  activity_of cap_reached = broken
  activity_of failed = broken
  activity_of panicked = broken

  unfoldable pub record_activity : Option Str → Bucket → Activity
  unfolding activity_of
  record_activity none b = inactive
  record_activity (some signature) b =
      activity_of (get_access_token_session bolt json sessions signature none b)

  unfoldable pub token_active_checker : Bucket → Str → Activity
  unfolding record_activity
  token_active_checker b token = record_activity (signature_of (split b'.' token)) b
