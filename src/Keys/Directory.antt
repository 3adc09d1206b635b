-- ===== src/Keys/Directory.antt =====
-- pkg/keys/manager.go and manifest.go: the key directory, its first key, its manifest and its keys.
-- Log lines are left out.
pub mod Replace
pub mod Reload
use mcp_oauth_gateway.Base.{ℕ, Bool, Option, none, some}
use mcp_oauth_gateway.Base.{List, [], ◌∷◌, map, Str, if◌then◌else◌, ◌==◌, str_eq, nat_eq}
use mcp_oauth_gateway.Keys.Types.{
  Alg, Crypto, Manifest, ManifestRetiring, SigningKey, RetiredKey, key_id, generate_private_key,
  alg_for_key, parse_private_key_pem,
}
use mcp_oauth_gateway.Keys.Disk.{
  manifest_file, manifest_tmp, legacy_file, key_file, FileName, Disk, Exec, ◌>>=◌, ◌>>◌, pure,
  raise, lift, on_error, ignoring_error, write_file, remove_file, rename_manifest, touch_nothing,
  read_file,
}

-- `has_legacy_path` is `LegacyKeyPath != ""`; the directory and the logger are left out.
pub record Config : Type 0 where
  pub alg : Alg
  pub has_legacy_path : Bool
  pub rotation_interval : ℕ
  pub retire_window : ℕ

-- Writes to a temporary file, syncs and renames; a failure removes the temporary file.
unfoldable pub replace_manifest : Str → Exec Disk (Unit {0})
replace_manifest text =
    write_file manifest_tmp []
    >> on_error (write_file manifest_tmp text)
        (ignoring_error touch_nothing >> remove_file manifest_tmp)
    >> on_error touch_nothing (ignoring_error touch_nothing >> remove_file manifest_tmp)
    >> on_error touch_nothing (remove_file manifest_tmp)
    >> on_error rename_manifest (remove_file manifest_tmp)

module _ (crypto : Crypto) where
  open crypto use {Key, public, marshal_pem, marshal_manifest, unmarshal_manifest}

  -- The key set: the active key, since when it is active, and the retiring keys.
  pub record KeySet : Type 0 where
    pub active : SigningKey crypto
    pub since : ℕ
    pub retiring : List (RetiredKey crypto)

  unfoldable pub save_private_key : FileName → Key → Exec Disk (Unit {0})
  save_private_key path key = do pem ← lift (marshal_pem key); write_file path pem

  unfoldable pub manifest_of : KeySet → Manifest
  manifest_of k = record {
    active = k.active.kid;
    active_since = k.since;
    retiring = map (λ r. record { kid = r.signing_key.kid; not_after = r.not_after }) k.retiring;
  }

  unfoldable pub write_manifest : KeySet → Exec Disk (Unit {0})
  write_manifest k = do text ← lift (marshal_manifest (manifest_of k)); replace_manifest text

  unfoldable pub load_key : Str → Exec Disk (SigningKey crypto)
  load_key kid = if kid == [] then raise else do
    content ← read_file (key_file kid)
    pem ← lift content
    key ← lift (parse_private_key_pem crypto pem)
    alg ← lift (alg_for_key crypto key)
    found ← lift (key_id crypto (public key))
    if found == kid then pure (record { kid = kid; alg = alg; key = key }) else raise

  -- The loop over the manifest's retiring entries.
  unfoldable pub load_retiring : List ManifestRetiring → Exec Disk (List (RetiredKey crypto))
  load_retiring [] = pure []
  load_retiring (entry ∷ rest) = do
    key ← load_key entry.kid
    more ← load_retiring rest
    pure (record { signing_key = key; not_after = entry.not_after } ∷ more)

  unfoldable pub load : ℕ → Exec Disk KeySet
  load now = do
    content ← read_file manifest_file
    text ← lift content
    mf ← lift (unmarshal_manifest text)
    active ← load_key mf.active
    retiring ← load_retiring mf.retiring
    pure (record {
      active = active;
      since = if mf.active_since == 0 then now else mf.active_since;
      retiring = retiring;
    })

  -- The first key set of a directory.
  abbrev pub first_keys : Str → Alg → Key → ℕ → KeySet
  first_keys kid alg key now = record {
    active = record { kid = kid; alg = alg; key = key };
    since = now;
    retiring = [];
  }

  unfoldable pub adopt_legacy_key : Str → ℕ → Exec Disk KeySet
  adopt_legacy_key legacy now = do
    key ← lift (parse_private_key_pem crypto legacy)
    alg ← lift (alg_for_key crypto key)
    kid ← lift (key_id crypto (public key))
    write_file (key_file kid) legacy
    write_manifest (first_keys kid alg key now)
    pure (first_keys kid alg key now)

  unfoldable pub generate_first_key : Alg → ℕ → ℕ → Exec Disk KeySet
  generate_first_key alg now entropy = do
    key ← lift (generate_private_key crypto alg entropy)
    kid ← lift (key_id crypto (public key))
    save_private_key (key_file kid) key
    write_manifest (first_keys kid alg key now)
    pure (first_keys kid alg key now)

  -- The legacy key, if its path is set and the file is there.
  unfoldable pub adopt_or_generate : Config → ℕ → ℕ → Option Str → Exec Disk KeySet
  adopt_or_generate cfg now entropy (some legacy) = adopt_legacy_key legacy now
  adopt_or_generate cfg now entropy none = generate_first_key cfg.alg now entropy

  unfoldable pub initialize : Config → ℕ → ℕ → Exec Disk KeySet
  initialize cfg now entropy =
      if cfg.has_legacy_path
      then (do content ← read_file legacy_file; adopt_or_generate cfg now entropy content)
      else generate_first_key cfg.alg now entropy
