-- ===== src/Repository/Maintenance/Schema.antt =====
-- kvs.go: the schema version guards a store against an older gateway.
use mcp_oauth_gateway.Base.{
  ℕ, ◌<◌, ◌≡◌, refl, sym, ◌∙◌, ap, inl, inr, arith, str_eq, eq_refl, ltb, lt→ltb, Bool-cases,
}
use mcp_oauth_gateway.Repository.Bolt.{
  Bolt, Laws, Reply, ok, failed, not_found, cap_reached, panicked, RoundTrips, read,
}
use mcp_oauth_gateway.Repository.Bolt.Writing.{
  Written, create-Written, overwrite-Written, read-Written,
}
use mcp_oauth_gateway.Repository.Models.{Json, Sessions}
use mcp_oauth_gateway.Repository.Maintenance.{
  kvs_schema_version_key, check_schema_version, ensure_schema_version,
}

module _ (bolt : Bolt) (json : Json) (lib : Sessions) (laws : Laws bolt)
    (round : RoundTrips json.version) where
  open bolt use {Bucket}

  read-Written_version :
      (version : ℕ) (b c : Bucket)
      → Written bolt laws json.version kvs_schema_version_key version b c
      → read bolt json.version kvs_schema_version_key c ≡ ok version
  read-Written_version version b c w =
      read-Written bolt laws json.version kvs_schema_version_key version b c kvs_schema_version_key
        round w
      ∙ rw (eq_refl kvs_schema_version_key) refl

  read-check_schema_version :
      (version : ℕ) (q : Reply ℕ) (b c : Bucket)
      → read bolt json.version kvs_schema_version_key b ≡ q
      → check_schema_version bolt json lib version q b ≡ (ok tt, c)
      → read bolt json.version kvs_schema_version_key c ≡ ok version
  unfolding check_schema_version
  read-check_schema_version version (ok stored) b c r e = elim (Bool-cases (ltb version stored)) [
    | inl newer ↦ cc (rw newer at e)
    | inr same_or_older ↦ elim (Bool-cases (ltb stored version)) [
      | inl older ↦ read-Written_version version b c (
          overwrite-Written bolt laws json.version kvs_schema_version_key version b c
            (rw (same_or_older, older) at e))
      | inr same ↦
          let unchanged : b ≡ c = cc (rw (same_or_older, same) at e) in
          rw (sym unchanged, r) (ap ok (ground (arith, same_or_older, same)))
    ]
  ]
  read-check_schema_version version not_found b c r e =
      read-Written_version version b c
        (create-Written bolt laws json.version kvs_schema_version_key version b c e)
  read-check_schema_version version cap_reached b c r e = cc e
  read-check_schema_version version failed b c r e = cc e
  read-check_schema_version version panicked b c r e = cc e

  -- Once a gateway has accepted the store, it accepts it again without a change, and every gateway with
  -- an older schema version refuses it and changes nothing.
  pub ensure_schema_version-older :
      (version other : ℕ) (b c : Bucket)
      → ensure_schema_version bolt json lib version b ≡ (ok tt, c)
      → other < version
      → (ensure_schema_version bolt json lib version c ≡ (ok tt, c))
        × (ensure_schema_version bolt json lib other c ≡ (failed, c))
  unfolding ensure_schema_version check_schema_version
  ensure_schema_version-older version other b c e older =
      let stored =
        read-check_schema_version version (read bolt json.version kvs_schema_version_key b) b c refl
          e in
      (rw stored (ground arith), rw (stored, lt→ltb other version older) refl)
