-- ===== src/Repository/Maintenance.antt =====
-- pkg/repository/kvs.go: the sweep of expired sessions, and the schema version.
pub mod Expiry
pub mod Schema
use mcp_oauth_gateway.Base.{
  ℕ, Str, lit, Bool, true, false, Option, none, some, List, [], ◌∷◌, if◌then◌else◌, ltb,
}
use mcp_oauth_gateway.Repository.Bolt.{
  Bolt, Reply, ok, not_found, cap_reached, failed, panicked, create, read, overwrite, delete_under,
  then_step,
}
use mcp_oauth_gateway.Repository.Models.{Json, Sessions, Request}
use mcp_oauth_gateway.Repository.Tokens.{
  access_token_prefix, refresh_token_prefix, authorize_code_prefix, pkce_request_prefix,
  authorize_request_prefix, delete_matching,
}

abbrev pub kvs_schema_version_key : Str
kvs_schema_version_key = lit "meta-schema_version"

module _ (bolt : Bolt) (json : Json) (lib : Sessions) where
  open bolt use {Bucket}

  unfoldable pub request_older : ℕ → Option Request → Bool
  request_older before none = true
  request_older before (some r) = ltb r.requested_at before

  -- A pending request that does not decode or has no request is stale.
  unfoldable pub authorize_request_stale : ℕ → Str → Bool
  unfolding request_older
  authorize_request_stale before data' = elim (json.authorize_request.unmarshal data') [
    | none ↦ true
    | some ar ↦ request_older before ar.request
  ]

  unfoldable pub sweep_cutoffs : List (Str × ℕ) → Bucket → Reply (Unit {0}) × Bucket
  unfolding then_step delete_matching
  sweep_cutoffs [] b = (ok tt, b)
  sweep_cutoffs ((prefix, before) ∷ rest) b =
      then_step bolt (delete_matching bolt json lib prefix (λ r. ltb r.requested_at before) b)
        λ _. sweep_cutoffs rest

  abbrev pub cutoffs : ℕ → ℕ → ℕ → List (Str × ℕ)
  cutoffs access_before refresh_before code_before =
      (access_token_prefix, access_before)
      ∷ (refresh_token_prefix, refresh_before)
      ∷ (authorize_code_prefix, code_before)
      ∷ (pkce_request_prefix, code_before)
      ∷ []

  unfoldable pub delete_expired_sessions : ℕ → ℕ → ℕ → Bucket → Reply (Unit {0}) × Bucket
  unfolding then_step sweep_cutoffs
  delete_expired_sessions access_before refresh_before code_before b =
      then_step bolt (sweep_cutoffs (cutoffs access_before refresh_before code_before) b)
        λ _. delete_under bolt authorize_request_prefix (authorize_request_stale code_before)

  -- What the stored version asks for.
  unfoldable pub check_schema_version : ℕ → Reply ℕ → Bucket → Reply (Unit {0}) × Bucket
  check_schema_version version (ok stored) b =
      if ltb version stored
      then (failed, b)
      else if ltb stored version
      then overwrite bolt json.version kvs_schema_version_key version b
      else (ok tt, b)
  check_schema_version version not_found b =
      create bolt json.version kvs_schema_version_key version b
  check_schema_version version cap_reached b = (cap_reached, b)
  check_schema_version version failed b = (failed, b)
  check_schema_version version panicked b = (panicked, b)

  unfoldable pub ensure_schema_version : ℕ → Bucket → Reply (Unit {0}) × Bucket
  unfolding check_schema_version
  ensure_schema_version version b =
      check_schema_version version (read bolt json.version kvs_schema_version_key b) b
