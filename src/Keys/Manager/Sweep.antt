-- ===== src/Keys/Manager/Sweep.antt =====
-- manager.go: a sweep never leaves a manifest that names a missing key.
use mcp_oauth_gateway.Base.{
  ℕ, none, some, List, [], ◌∷◌, Str, ◌≡◌, refl, sym, ap, ◌∙◌, ◌⊎◌, inl, inr,
}
use mcp_oauth_gateway.Base.{fun_ext, subst, Bool-cases, All, ltb}
use mcp_oauth_gateway.Keys.Types.{Crypto, RetiredKey}
use mcp_oauth_gateway.Keys.Disk.{Disk, manifest_file, key_file, pure, remove_file}
use mcp_oauth_gateway.Keys.Disk.Triple.{
  After, Triple, On, Files, Triple-bind, Triple-call, Triple-on_error, Triple-weaken, Triple-lift,
  Triple-pure, Triple-ignoring, Triple-each,
}
use mcp_oauth_gateway.Keys.Directory.{KeySet, manifest_of, write_manifest}
use mcp_oauth_gateway.Keys.Directory.Replace.{Holds, replace_manifest-Triple}
use mcp_oauth_gateway.Keys.Directory.Reload.{Laws, Stored, InStep, load-InStep}
use mcp_oauth_gateway.Keys.Manager.{
  Manager, World, set_keys, unexpired, expired, remove_key_files, sweep_expired, sweep_locked,
}
use mcp_oauth_gateway.Keys.Manager.NewKey.{At, Except-store, InStep-Except, Fresh, Triple-on_disk}
use mcp_oauth_gateway.Keys.Manager.Rotation.{Loads}
use mcp_oauth_gateway.Keys.Manager.Window.{swept_keys}

module _ (crypto : Crypto) (laws : Laws crypto) where
  open crypto use {marshal_manifest}

  remove_file-InStep :
      (kid : Str) (k : KeySet crypto)
      → Fresh crypto laws kid k
      → Triple
          (On (λ f. InStep crypto f k))
          (remove_file (key_file kid))
          (λ _. On (λ f. InStep crypto f k))
          (On (λ f. InStep crypto f k))
          (On (λ f. InStep crypto f k))
  unfolding remove_file
  remove_file-InStep kid k fresh =
      Triple-call (λ f. InStep crypto f k) (λ f. InStep crypto f k) (λ f. InStep crypto f k) _ _
        (λ files s.
          InStep-Except crypto laws kid files _ (Except-store crypto laws kid none files files refl)
            k fresh s)
        (λ junk files s. s) (λ junk files s. s)
        (λ files s.
          InStep-Except crypto laws kid files _ (Except-store crypto laws kid none files files refl)
            k fresh s)

  -- it returns no error
  remove_key_files-InStep :
      (rs : List (RetiredKey crypto)) (k : KeySet crypto)
      → All (λ r. Fresh crypto laws r.signing_key.kid k) rs
      → Triple
          (On (λ f. InStep crypto f k))
          (remove_key_files crypto rs)
          (λ _. On (λ f. InStep crypto f k))
          (On (λ f. ⊥))
          (On (λ f. InStep crypto f k))
  unfolding remove_key_files
  remove_key_files-InStep [] k fresh = Triple-pure {Q = λ _. On (λ f. InStep crypto f k)} tt
  remove_key_files-InStep (r ∷ rs) k (fresh, more) =
      Triple-bind (Triple-ignoring (remove_file-InStep r.signing_key.kid k fresh))
        (λ _. remove_key_files-InStep rs k more)

  All-unexpired :
      (P : RetiredKey crypto → Type 0) (now : ℕ) (rs : List (RetiredKey crypto))
      → All P rs
      → All P (unexpired crypto now rs)
  unfolding unexpired
  All-unexpired P now [] h = tt
  All-unexpired P now (r ∷ rs) (p, h) = elim (Bool-cases (ltb now r.not_after)) [
    | inl alive ↦ rw alive (p, All-unexpired P now rs h)
    | inr gone ↦ rw gone (All-unexpired P now rs h)
  ]

  unexpired_all :
      (now : ℕ) (rs : List (RetiredKey crypto))
      → expired crypto now rs ≡ []
      → unexpired crypto now rs ≡ rs
  unfolding expired unexpired
  unexpired_all now [] e = refl
  unexpired_all now (r ∷ rs) e = elim (Bool-cases (ltb now r.not_after)) [
    | inl alive ↦ rw alive (ap (λ x. r ∷ x) (unexpired_all now rs (rw alive at e)))
    | inr gone ↦ cc (rw gone at e)
  ]

  module _ (m : Manager crypto) (now : ℕ) (before : Files) (s : InStep crypto before m.keys) where
    abbrev kept : KeySet crypto
    kept = swept_keys crypto m.cfg now m.keys

    Old→InStep :
        (files : Files)
        → Holds (before manifest_file) (λ j. before (key_file j)) files
        → InStep crypto files m.keys
    Old→InStep files h =
        let same = sym (fun_ext h.key) in
        record {
          text = s.text;
          marshalled = s.marshalled;
          manifest = h.manifest ∙ s.manifest;
          active = subst (λ g. Stored crypto g m.keys.active) same s.active;
          retiring =
              subst (λ g. All (λ r. Stored crypto g r.signing_key) m.keys.retiring) same s.retiring;
          aged = s.aged;
        }

    New→InStep :
        (files : Files) (text : Str)
        → marshal_manifest (manifest_of crypto kept) ≡ some text
        → Holds (some text) (λ j. before (key_file j)) files
        → InStep crypto files kept
    New→InStep files text e h =
        let same = sym (fun_ext h.key) in
        let stored =
          subst (λ g. All (λ r. Stored crypto g r.signing_key) m.keys.retiring) same s.retiring in
        record {
          text = text;
          marshalled = e;
          manifest = h.manifest;
          active = subst (λ g. Stored crypto g m.keys.active) same s.active;
          retiring = All-unexpired _ now m.keys.retiring stored;
          aged = s.aged;
        }

    write_kept :
        Triple
          (On (λ f. f ≡ before))
          (write_manifest crypto kept)
          (λ _. On (λ f. InStep crypto f kept))
          (On (λ f. InStep crypto f m.keys))
          (On (λ f. InStep crypto f m.keys ⊎ InStep crypto f kept))
    unfolding write_manifest
    write_kept =
        Triple-bind
          (Triple-lift
            {Q = λ text d.
              (marshal_manifest (manifest_of crypto kept) ≡ some text) × (d.files ≡ before)}
            (marshal_manifest (manifest_of crypto kept)) (λ d e. rw e s) (λ text e d h. (e, h)))
          λ text. Triple-each λ d h.
            Triple-weaken (λ t e. rw (e, h.1) (record { manifest = refl; key = λ j. refl }))
              (λ _ t. New→InStep t.files text h.0) (λ t. Old→InStep t.files)
              (λ t k. elim k [
                | inl old ↦ inl (Old→InStep t.files old)
                | inr new ↦ inr (New→InStep t.files text h.0 new)
              ])
              (replace_manifest-Triple (before manifest_file) (λ j. before (key_file j)) text)

    abbrev Unchanged : World crypto → Type 0
    Unchanged w = (w.manager ≡ m) × InStep crypto w.disk.files m.keys

    abbrev Swept : World crypto → Type 0
    Swept w = (w.manager ≡ record m { keys = kept }) × InStep crypto w.disk.files kept

    -- A crash leaves one of the two key sets on the disk.
    abbrev EitherOnDisk : World crypto → Type 0
    EitherOnDisk w = InStep crypto w.disk.files m.keys ⊎ InStep crypto w.disk.files kept

    set_kept :
        (k l : KeySet crypto) (F : Files → Type 0) (E C : World crypto → Type 0)
        → Triple
            (At crypto laws (record m { keys = k }) F)
            (set_keys crypto l)
            (λ _. At crypto laws (record m { keys = l }) F)
            E
            C
    unfolding set_keys
    set_kept k l F E C = record { at = λ w h. (rw h.0 refl, h.1) }

    sweep_expired-Triple :
        (rs : List (RetiredKey crypto))
        → expired crypto now m.keys.retiring ≡ rs
        → All (λ r. Fresh crypto laws r.signing_key.kid kept) rs
        → Triple
            (At crypto laws m (λ f. f ≡ before))
            (sweep_expired crypto m now rs)
            (λ _. Swept)
            Unchanged
            EitherOnDisk
    unfolding sweep_expired pure
    sweep_expired-Triple [] e fresh = record {
      at = λ w h. rw (unexpired_all now m.keys.retiring e, h.1) (h.0, s);
    }
    sweep_expired-Triple (r ∷ rs) e fresh =
        Triple-bind
          (Triple-bind (set_kept m.keys kept (λ f. f ≡ before) Unchanged EitherOnDisk) λ _.
            Triple-on_error
              (Triple-weaken (λ w h. h) (λ _ w h. h) (λ w h. h) (λ w h. h.1)
                (Triple-on_disk crypto laws (record m { keys = kept }) _ (λ f. f ≡ before)
                  (λ f. InStep crypto f kept) (λ f. InStep crypto f m.keys)
                  (λ f. InStep crypto f m.keys ⊎ InStep crypto f kept) write_kept))
              (set_kept kept m.keys (λ f. InStep crypto f m.keys) Unchanged EitherOnDisk))
          λ _.
            Triple-weaken (λ w h. h) (λ _ w h. h) (λ w h. absurd h.1) (λ w h. inr h.1)
              (Triple-on_disk crypto laws (record m { keys = kept }) _ (λ f. InStep crypto f kept)
                (λ f. InStep crypto f kept) (λ f. ⊥) (λ f. InStep crypto f kept)
                (remove_key_files-InStep (r ∷ rs) kept fresh))

  either-Loads :
      (d : Disk) (k l : KeySet crypto)
      → InStep crypto d.files k ⊎ InStep crypto d.files l
      → Loads crypto laws d k ⊎ Loads crypto laws d l
  either-Loads d k l (inl o) = inl (λ at. load-InStep crypto laws d k at o)
  either-Loads d k l (inr n) = inr (λ at. load-InStep crypto laws d l at n)

  -- Whatever fails and wherever the process stops, a sweep leaves a directory that loads: with the
  -- keys that have not expired if it returned, which are then also those in memory, with the old
  -- key set after an error, which leaves the manager as it was, and with one of the two after a
  -- crash. The expired kids must be those of no other key.
  pub sweep_locked-Loads :
      (w : World crypto) (now : ℕ)
      → All
          (λ r.
            Fresh crypto laws r.signing_key.kid
              (swept_keys crypto w.manager.cfg now w.manager.keys))
          (expired crypto now w.manager.keys.retiring)
      → InStep crypto w.disk.files w.manager.keys
      → After
          (λ _ w'.
            (w'.manager
              ≡ record w.manager { keys = swept_keys crypto w.manager.cfg now w.manager.keys })
            × Loads crypto laws w'.disk (swept_keys crypto w.manager.cfg now w.manager.keys))
          (λ w'. (w'.manager ≡ w.manager) × Loads crypto laws w'.disk w.manager.keys)
          (λ w'.
            Loads crypto laws w'.disk w.manager.keys
            ⊎ Loads crypto laws w'.disk (swept_keys crypto w.manager.cfg now w.manager.keys))
          (sweep_locked crypto now w).0
          (sweep_locked crypto now w).1
  unfolding sweep_locked
  sweep_locked-Loads w now fresh s =
      (Triple-weaken {P = λ t. t ≡ w} (λ t e. rw e (refl, refl))
          (λ _ t h. (h.0, λ at. load-InStep crypto laws t.disk _ at h.1))
          (λ t h. (h.0, λ at. load-InStep crypto laws t.disk _ at h.1))
          (λ t.
            either-Loads t.disk w.manager.keys (swept_keys crypto w.manager.cfg now w.manager.keys))
          (sweep_expired-Triple w.manager now w.disk.files s
            (expired crypto now w.manager.keys.retiring) refl fresh)).at
        w refl
