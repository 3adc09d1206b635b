-- ===== src/Keys/Manager.antt =====
-- pkg/keys/manager.go: the manager of the key directory. The mutex makes each method one step; log
-- lines are left out.
pub mod NewKey
pub mod NewManifest
pub mod Rotation
pub mod Window
pub mod Sweep
pub mod Upkeep
pub mod Lifetime
use mcp_oauth_gateway.Base.{ℕ, ◌+◌, Bool, true, false, not, ◌&&◌, ◌||◌, Option, none, some}
use mcp_oauth_gateway.Base.{List, [], ◌∷◌, ◌++◌, Str, ltb, if◌then◌else◌, ◌==◌, str_eq}
use mcp_oauth_gateway.Keys.Types.{
  Alg, Crypto, SigningKey, RetiredKey, parse_alg, key_id, generate_private_key, alg_for_key,
}
use mcp_oauth_gateway.Keys.Disk.{
  manifest_file, key_file, Disk, Exec, ok, err, crashed, ◌>>=◌, ◌>>◌, pure, raise, lift, gets,
  on_error, ignoring_error, remove_file, touch_nothing, read_file,
}
use mcp_oauth_gateway.Keys.Directory.{
  Config, KeySet, save_private_key, write_manifest, load, first_keys, initialize,
}

module _ (crypto : Crypto) where
  open crypto use {Key, public}

  pub record Manager : Type 0 where
    pub cfg : Config
    pub keys : KeySet crypto
    pub static : Bool

  pub record World : Type 0 where
    pub manager : Manager
    pub disk : Disk

  -- A step of the disk within the world.
  unfoldable pub on_disk {ℓ} : {A : Type ℓ} → Exec Disk A → Exec World A
  on_disk m w = let (r, d) = m w.disk in (r, record w { disk = d })

  unfoldable pub set_keys : KeySet crypto → Exec World (Unit {0})
  set_keys k w = (ok tt, record w { manager = record w.manager { keys = k } })

  -- `verification_key` answers the public key and its algorithm.
  unfoldable pub find_retired : Str → List (RetiredKey crypto) → Option (SigningKey crypto)
  find_retired kid [] = none
  find_retired kid (r ∷ rest) =
      if kid == r.signing_key.kid then some r.signing_key else find_retired kid rest

  unfoldable pub find_key : Str → KeySet crypto → Option (SigningKey crypto)
  unfolding find_retired
  find_key kid k =
      if kid == []
      then none
      else if kid == k.active.kid
      then some k.active
      else find_retired kid k.retiring

  unfoldable pub verification_key : Str → Manager → Option (crypto.Public × Alg)
  verification_key kid m = elim (find_key kid m.keys) [
    | none ↦ none
    | some k ↦ some (public k.key, k.alg)
  ]

  -- The key set after a rotation: the previous active key retires.
  unfoldable pub rotated : Config → Str → Key → ℕ → KeySet crypto → KeySet crypto
  rotated cfg kid key now k = record {
    active = record { kid = kid; alg = cfg.alg; key = key };
    since = now;
    retiring =
        k.retiring ++ record { signing_key = k.active; not_after = now + cfg.retire_window } ∷ [];
  }

  unfoldable pub rotate_from : Manager → ℕ → ℕ → Exec World (Unit {0})
  rotate_from m now entropy = if m.static then raise else do
    key ← lift (generate_private_key crypto m.cfg.alg entropy)
    kid ← lift (key_id crypto (public key))
    on_disk (save_private_key crypto (key_file kid) key)
    set_keys (rotated m.cfg kid key now m.keys)
    on_error (on_disk (write_manifest crypto (rotated m.cfg kid key now m.keys))) (set_keys m.keys)

  unfoldable pub rotate_locked : ℕ → ℕ → Exec World (Unit {0})
  unfolding rotate_from
  rotate_locked now entropy w = rotate_from w.manager now entropy w

  unfoldable pub unexpired : ℕ → List (RetiredKey crypto) → List (RetiredKey crypto)
  unexpired now [] = []
  unexpired now (r ∷ rest) =
      let kept = unexpired now rest in if ltb now r.not_after then r ∷ kept else kept

  unfoldable pub expired : ℕ → List (RetiredKey crypto) → List (RetiredKey crypto)
  expired now [] = []
  expired now (r ∷ rest) =
      let gone = expired now rest in if ltb now r.not_after then gone else r ∷ gone

  -- Errors of `os.Remove` are logged at most.
  unfoldable pub remove_key_files : List (RetiredKey crypto) → Exec Disk (Unit {0})
  remove_key_files [] = pure tt
  remove_key_files (r ∷ rest) =
      ignoring_error (remove_file (key_file r.signing_key.kid)) >> remove_key_files rest

  unfoldable pub sweep_expired : Manager → ℕ → List (RetiredKey crypto) → Exec World (Unit {0})
  sweep_expired m now [] = pure tt
  sweep_expired m now (r ∷ rest) =
      set_keys (record m.keys { retiring = unexpired now m.keys.retiring })
      >> on_error
          (on_disk
            (write_manifest crypto (record m.keys { retiring = unexpired now m.keys.retiring })))
          (set_keys m.keys)
      >> on_disk (remove_key_files (r ∷ rest))

  unfoldable pub sweep_locked : ℕ → Exec World (Unit {0})
  unfolding sweep_expired
  sweep_locked now w = sweep_expired w.manager now (expired now w.manager.keys.retiring) w

  unfoldable pub rotation_due : ℕ → Manager → Bool
  rotation_due now m =
      ltb 0 m.cfg.rotation_interval && not (ltb now (m.keys.since + m.cfg.rotation_interval))

  unfoldable pub maintain : ℕ → ℕ → Exec World (Unit {0})
  unfolding rotation_due
  maintain now entropy w =
      if w.manager.static
      then (ok tt, w)
      else if rotation_due now w.manager || not (w.manager.keys.active.alg == w.manager.cfg.alg)
      then (rotate_locked now entropy >> sweep_locked now) w
      else sweep_locked now w

  -- `Rotate` takes the lock and calls `rotateLocked`.
  unfoldable pub rotate : ℕ → ℕ → Exec World (Unit {0})
  rotate now entropy = rotate_locked now entropy

  -- The first reading of the directory, by whether the manifest is there.
  unfoldable pub open_directory : Config → ℕ → ℕ → Option Str → Exec Disk (KeySet crypto)
  open_directory cfg now entropy (some _) = load crypto now
  open_directory cfg now entropy none = initialize crypto cfg now entropy

  unfoldable pub maintained : Config → ℕ → ℕ → KeySet crypto → Exec Disk Manager
  maintained cfg now entropy k d =
      let w : World = record {
        manager = record { cfg = cfg; keys = k; static = false };
        disk = d;
      } in
      let (r, w') = maintain now entropy w in
      (elim r [ ok _ ↦ ok w'.manager | err ↦ err | crashed ↦ crashed ], w'.disk)

  -- `entropy` and `more` are what the two key generations read.
  unfoldable pub new_manager : Config → ℕ → ℕ → ℕ → Exec Disk Manager
  new_manager cfg now entropy more = do
    alg ← lift (parse_alg cfg.alg)
    touch_nothing
    content ← read_file manifest_file
    k ← open_directory cfg now entropy content
    maintained cfg now more k

  -- JWT_PRIVATE_KEY: one key, no directory.
  unfoldable pub new_static_manager : Key → Alg → ℕ → Option Manager
  new_static_manager key alg now = elim (alg_for_key crypto key) [
    | none ↦ none
    | some found ↦
        if found == alg
        then (elim (key_id crypto (public key)) [
          | none ↦ none
          | some kid ↦ some (record {
            cfg = record {
              alg = alg;
              has_legacy_path = false;
              rotation_interval = 0;
              retire_window = 0;
            };
            keys = first_keys crypto kid alg key now;
            static = true;
          })
        ])
        else none
  ]
