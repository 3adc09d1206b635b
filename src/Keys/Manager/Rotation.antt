-- ===== src/Keys/Manager/Rotation.antt =====
-- manager.go: a rotation that fails leaves the key set as it was, and one that is interrupted leaves
-- that or the new one.
use mathlib.Core.Option
use mcp_oauth_gateway.Base.{ℕ, ◌<◌, some, [], Str, ◌≡◌, ◌≢◌, refl, ◌∙◌}
use mcp_oauth_gateway.Base.{Bool-cases, ◌⊎◌, inl, inr, str_eq}
use mcp_oauth_gateway.Keys.Types.{Crypto, key_id, generate_private_key}
use mcp_oauth_gateway.Keys.Disk.{Disk, ok, key_file, ◌>>=◌, raise, on_error}
use mcp_oauth_gateway.Keys.Disk.Triple.{
  After, Triple, Files, Triple-bind, Triple-on_error, Triple-weaken, Triple-lift, Triple-each,
}
use mcp_oauth_gateway.Keys.Directory.{KeySet, save_private_key, write_manifest, load}
use mcp_oauth_gateway.Keys.Directory.Reload.{Laws, InStep, restart, load-InStep}
use mcp_oauth_gateway.Keys.Manager.{
  Manager, World, on_disk, set_keys, rotated, rotate_from, rotate_locked,
}
use mcp_oauth_gateway.Keys.Manager.NewKey.{
  save_private_key-Triple, Triple-on_disk, InStep-Except, Except, Saved, Fresh, At,
}
use mcp_oauth_gateway.Keys.Manager.NewManifest.{
  new_keys, Written, write_manifest-Triple, Written→InStep,
}

module _ (crypto : Crypto) (laws : Laws crypto) where
  open crypto use {Key, public, marshal_manifest, marshal_pem}

  module _ (m : Manager crypto) (now entropy : ℕ) (before : Files) where
    -- What a rotation has to leave: the new key set, in memory and on the disk.
    pub record Rotated (w : World crypto) : Type 0 where
      pub kid : Str
      pub key : Key
      pub generated : generate_private_key crypto m.cfg.alg entropy ≡ some key
      pub id : key_id crypto (public key) ≡ some kid
      pub manager : w.manager ≡ record m { keys = rotated crypto m.cfg kid key now m.keys }
      pub in_step : InStep crypto w.disk.files (rotated crypto m.cfg kid key now m.keys)

    -- What an interrupted rotation leaves on the disk: the old key set or the new one.
    abbrev Interrupted : World crypto → Type 0
    Interrupted w =
        InStep crypto w.disk.files m.keys
        ⊎ (kid : Str) × (key : Key) × (generate_private_key crypto m.cfg.alg entropy ≡ some key)
          × (key_id crypto (public key) ≡ some kid)
          × InStep crypto w.disk.files (rotated crypto m.cfg kid key now m.keys)

    module _ (kid : Str) (key : Key)
        (generated : generate_private_key crypto m.cfg.alg entropy ≡ some key)
        (id : key_id crypto (public key) ≡ some kid) (fresh : Fresh crypto laws kid m.keys)
        (later : 0 < now) (named : kid ≢ []) (s : InStep crypto before m.keys) where
      abbrev Unchanged : World crypto → Type 0
      Unchanged w = (w.manager ≡ m) × InStep crypto w.disk.files m.keys

      -- A crash leaves one of the two key sets on the disk.
      abbrev EitherOnDisk : World crypto → Type 0
      EitherOnDisk w =
          InStep crypto w.disk.files m.keys
          ⊎ InStep crypto w.disk.files (rotated crypto m.cfg kid key now m.keys)

      set_new :
          (F : Files → Type 0)
          → Triple
              (At crypto laws m F)
              (set_keys crypto (new_keys crypto laws m now kid key))
              (λ _. At crypto laws (record m { keys = new_keys crypto laws m now kid key }) F)
              Unchanged
              EitherOnDisk
      unfolding set_keys
      set_new F = record { at = λ w h. (rw h.0 refl, h.1) }

      restore :
          Triple
            (At crypto laws
              (record m { keys = new_keys crypto laws m now kid key })
              (Saved crypto laws kid key before))
            (set_keys crypto m.keys)
            (λ _. Unchanged)
            Unchanged
            EitherOnDisk
      unfolding set_keys
      restore = record {
        at = λ w h. (
          rw h.0 refl,
          InStep-Except crypto laws kid before w.disk.files h.1.others m.keys fresh s,
        );
      }

      finish :
          Triple
            (At crypto laws m (λ f. f ≡ before))
            (on_disk crypto (save_private_key crypto (key_file kid) key) >>= λ _.
              set_keys crypto (new_keys crypto laws m now kid key) >>= λ _.
              on_error
                (on_disk crypto (write_manifest crypto (new_keys crypto laws m now kid key)))
                (set_keys crypto m.keys))
            (λ _.
              At crypto laws
                (record m { keys = new_keys crypto laws m now kid key })
                (Written crypto laws m now kid key before))
            Unchanged
            EitherOnDisk
      finish =
          Triple-bind
            (Triple-weaken (λ w h. h) (λ _ w h. h)
              (λ w h. (h.0, InStep-Except crypto laws kid before w.disk.files h.1 m.keys fresh s))
              (λ w h. inl (InStep-Except crypto laws kid before w.disk.files h.1 m.keys fresh s))
              (Triple-on_disk crypto laws m _ (λ f. f ≡ before) (Saved crypto laws kid key before)
                (Except crypto laws kid before) (Except crypto laws kid before)
                (save_private_key-Triple crypto laws before kid key)))
            λ _. Triple-bind (set_new (Saved crypto laws kid key before)) λ _.
              Triple-on_error
                (Triple-weaken (λ w h. h) (λ _ w h. h) (λ w h. h)
                  (λ w h. elim h.1 [
                    | inl old ↦ inl (
                        InStep-Except crypto laws kid before w.disk.files old.others m.keys fresh s)
                    | inr new ↦ inr (
                        Written→InStep crypto laws m now kid key before entropy generated id fresh
                          later named s w.disk.files new)
                  ])
                  (Triple-on_disk crypto laws
                    (record m { keys = new_keys crypto laws m now kid key }) _
                    (Saved crypto laws kid key before) (Written crypto laws m now kid key before)
                    (Saved crypto laws kid key before)
                    (λ f.
                      Saved crypto laws kid key before f
                      ⊎ Written crypto laws m now kid key before f)
                    (write_manifest-Triple crypto laws m now kid key before)))
                restore

    key_id-named : (key : Key) (kid : Str) → key_id crypto (public key) ≡ some kid → kid ≢ []
    unfolding key_id
    key_id-named key kid e =
        let (bytes, read, same) = (Option.map-eq-some_iff _ _).0 e in
        λ blank. laws.fingerprint_named bytes (same ∙ blank)

    rotate_from-Triple :
        ((key : Key) (kid : Str)
          → generate_private_key crypto m.cfg.alg entropy ≡ some key
          → key_id crypto (public key) ≡ some kid
          → Fresh crypto laws kid m.keys)
        → 0 < now
        → InStep crypto before m.keys
        → Triple
            (At crypto laws m (λ f. f ≡ before))
            (rotate_from crypto m now entropy)
            (λ _. Rotated)
            (λ w. (w.manager ≡ m) × InStep crypto w.disk.files m.keys)
            Interrupted
    unfolding rotate_from raise
    rotate_from-Triple fresh later s = elim (Bool-cases m.static) [
      | inl fixed ↦ simp fixed (record { at = λ w h. (h.0, rw h.1 s) })
      | inr free ↦ simp free (
          Triple-bind
            (Triple-lift
              {Q = λ key w.
                (generate_private_key crypto m.cfg.alg entropy ≡ some key)
                × At crypto laws m (λ f. f ≡ before) w}
              (generate_private_key crypto m.cfg.alg entropy) (λ w h. (h.0, rw h.1 s))
              (λ key e w h. (e, h)))
            λ key.
              Triple-bind
                (Triple-lift
                  {Q = λ kid w.
                    (generate_private_key crypto m.cfg.alg entropy ≡ some key)
                    × (key_id crypto (public key) ≡ some kid)
                    × At crypto laws m (λ f. f ≡ before) w}
                  (key_id crypto (public key)) (λ w h. (h.1.0, rw h.1.1 s))
                  (λ kid e w h. (h.0, e, h.1)))
                λ kid. Triple-each λ w h.
                  Triple-weaken (λ t e. rw e h.2)
                    (λ _ t k. rotated_world key kid h.0 h.1 (fresh key kid h.0 h.1) t k) (λ t k. k)
                    (λ t k. elim k [ inl old ↦ inl old | inr new ↦ inr (kid, key, h.0, h.1, new) ])
                    (finish kid key h.0 h.1 (fresh key kid h.0 h.1) later (key_id-named key kid h.1)
                      s))
    ]
      where
        rotated_world :
            (key : Key) (kid : Str) (g : generate_private_key crypto m.cfg.alg entropy ≡ some key)
            (i : key_id crypto (public key) ≡ some kid) (f : Fresh crypto laws kid m.keys)
            (t : World crypto)
            → At crypto laws
                (record m { keys = new_keys crypto laws m now kid key })
                (Written crypto laws m now kid key before)
                t
            → Rotated t
        rotated_world key kid g i f t k = record {
          kid = kid;
          key = key;
          generated = g;
          id = i;
          manager = k.0;
          in_step =
              Written→InStep crypto laws m now kid key before entropy g i f later
                (key_id-named key kid i) s t.disk.files k.1;
        }

  -- What a process that starts on the disk loads.
  abbrev pub Loads : Disk → KeySet crypto → Type 0
  Loads d k = (at : ℕ) → load crypto at (restart d) ≡ (ok k, restart d)

  -- The old key set, or that of a rotation of the manager.
  abbrev pub LoadsEither : Manager crypto → ℕ → ℕ → Disk → Type 0
  LoadsEither m now entropy d =
      Loads d m.keys
      ⊎ (kid : Str) × (key : Key) × (generate_private_key crypto m.cfg.alg entropy ≡ some key)
        × (key_id crypto (public key) ≡ some kid)
        × Loads d (rotated crypto m.cfg kid key now m.keys)

  either-Loads :
      (m : Manager crypto) (now entropy : ℕ) (before : Files) (w : World crypto)
      → Interrupted m now entropy before w
      → LoadsEither m now entropy w.disk
  either-Loads m now entropy before w (inl old) =
      inl (λ at. load-InStep crypto laws w.disk m.keys at old)
  either-Loads m now entropy before w (inr (kid, key, generated, id, new)) =
      inr (kid, key, generated, id, λ at. load-InStep crypto laws w.disk _ at new)

  -- Whatever fails and wherever the process stops, a rotation leaves a directory that loads: with the
  -- new key set if it returned, which is then also the one in memory, with the old one after an error,
  -- which leaves the manager as it was, and with one of the two after a crash.
  pub rotate_locked-Loads :
      (w : World crypto) (now entropy : ℕ)
      → ((key : Key) (kid : Str)
          → generate_private_key crypto w.manager.cfg.alg entropy ≡ some key
          → key_id crypto (public key) ≡ some kid
          → Fresh crypto laws kid w.manager.keys)
      → 0 < now
      → InStep crypto w.disk.files w.manager.keys
      → After
          (λ _ w'. Rotated w.manager now entropy w.disk.files w' × Loads w'.disk w'.manager.keys)
          (λ w'. (w'.manager ≡ w.manager) × Loads w'.disk w.manager.keys)
          (λ w'. LoadsEither w.manager now entropy w'.disk)
          (rotate_locked crypto now entropy w).0
          (rotate_locked crypto now entropy w).1
  unfolding rotate_locked
  rotate_locked-Loads w now entropy fresh later s =
      (Triple-weaken {P = λ t. t ≡ w} (λ t e. rw e (refl, refl))
          (λ _ t h.
            (h, λ at. load-InStep crypto laws t.disk t.manager.keys at (rw h.manager h.in_step)))
          (λ t h. (h.0, λ at. load-InStep crypto laws t.disk w.manager.keys at h.1))
          (λ t. either-Loads w.manager now entropy w.disk.files t)
          (rotate_from-Triple w.manager now entropy w.disk.files fresh later s)).at
        w refl
