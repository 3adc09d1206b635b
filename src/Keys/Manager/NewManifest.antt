-- ===== src/Keys/Manager/NewManifest.antt =====
-- manager.go: the manifest of a rotation, and the directory that it leaves.
use mcp_oauth_gateway.Base.{ℕ, ◌<◌, some, [], Str, ◌≡◌, ◌≢◌, refl, ◌∙◌, ◌⊎◌, inl, inr}
use mcp_oauth_gateway.Base.{str_eq, if◌then◌else◌}
use mcp_oauth_gateway.Keys.Types.{
  Crypto, key_id, alg_for_key, parse_private_key_pem, generate_private_key, alg_of_kind,
}
use mcp_oauth_gateway.Keys.Disk.{manifest_file, key_file, same_file}
use mcp_oauth_gateway.Keys.Disk.Triple.{
  Triple, On, Files, Triple-bind, Triple-weaken, Triple-lift, Triple-each,
}
use mcp_oauth_gateway.Keys.Directory.{KeySet, manifest_of, write_manifest}
use mcp_oauth_gateway.Keys.Directory.Replace.{Holds, replace_manifest-Triple}
use mcp_oauth_gateway.Keys.Directory.Reload.{Laws, InStep}
use mcp_oauth_gateway.Keys.Manager.{Manager, rotated}
use mcp_oauth_gateway.Keys.Manager.NewKey.{
  alg_for_key-generate, All-Stored-Except, Stored-Except, All-concat, Except, Saved, Fresh,
}

module _ (crypto : Crypto) (laws : Laws crypto) where
  open crypto use {Key, public, marshal_manifest, marshal_pem}

  module _ (m : Manager crypto) (now : ℕ) (kid : Str) (key : Key) where
    abbrev pub new_keys : KeySet crypto
    new_keys = rotated crypto m.cfg kid key now m.keys

    module _ (before : Files) where
      pub record Written (files : Files) : Type 0 where
        pub text : Str
        pub marshalled : marshal_manifest (manifest_of crypto new_keys) ≡ some text
        pub manifest : files manifest_file ≡ some text
        pub pem : Str
        pub encoded : marshal_pem key ≡ some pem
        pub saved : files (key_file kid) ≡ some pem
        pub key_files : (j : Str) → j ≢ kid → files (key_file j) ≡ before (key_file j)

      Saved→Holds :
          (files : Files)
          → Saved crypto laws kid key before files
          → Holds (before manifest_file) (λ j. files (key_file j)) files
      Saved→Holds files h = record { manifest = h.others.manifest; key = λ j. refl }

      Holds→Saved :
          (old files : Files)
          → Saved crypto laws kid key before old
          → Holds (before manifest_file) (λ j. old (key_file j)) files
          → Saved crypto laws kid key before files
      Holds→Saved old files h k = record {
        pem = h.pem;
        marshalled = h.marshalled;
        saved = k.key kid ∙ h.saved;
        others = record { manifest = k.manifest; key = λ j other. k.key j ∙ h.others.key j other };
      }

      Holds→Written :
          (old files : Files) (text : Str)
          → marshal_manifest (manifest_of crypto new_keys) ≡ some text
          → Saved crypto laws kid key before old
          → Holds (some text) (λ j. old (key_file j)) files
          → Written files
      Holds→Written old files text e h k = record {
        text = text;
        marshalled = e;
        manifest = k.manifest;
        pem = h.pem;
        encoded = h.marshalled;
        saved = k.key kid ∙ h.saved;
        key_files = λ j other. k.key j ∙ h.others.key j other;
      }

      pub write_manifest-Triple :
          Triple
            (On (Saved crypto laws kid key before))
            (write_manifest crypto new_keys)
            (λ _. On Written)
            (On (Saved crypto laws kid key before))
            (On (λ f. Saved crypto laws kid key before f ⊎ Written f))
      unfolding write_manifest
      write_manifest-Triple =
          Triple-bind
            (Triple-lift
              {Q = λ text d.
                (marshal_manifest (manifest_of crypto new_keys) ≡ some text)
                × Saved crypto laws kid key before d.files}
              (marshal_manifest (manifest_of crypto new_keys)) (λ d h. h) (λ text e d h. (e, h)))
            λ text. Triple-each λ d h.
              Triple-weaken (λ t e. rw e (Saved→Holds d.files h.1))
                (λ _ t. Holds→Written d.files t.files text h.0 h.1)
                (λ t. Holds→Saved d.files t.files h.1)
                (λ t k. elim k [
                  | inl old ↦ inl (Holds→Saved d.files t.files h.1 old)
                  | inr new ↦ inr (Holds→Written d.files t.files text h.0 h.1 new)
                ])
                (replace_manifest-Triple (before manifest_file) (λ j. d.files (key_file j)) text)

      module _ (entropy : ℕ) (generated : generate_private_key crypto m.cfg.alg entropy ≡ some key)
          (id : key_id crypto (public key) ≡ some kid) (fresh : Fresh crypto laws kid m.keys)
          (later : 0 < now) (named : kid ≢ []) (s : InStep crypto before m.keys) where
        parsed_back :
            (pem : Str) → marshal_pem key ≡ some pem → parse_private_key_pem crypto pem ≡ some key
        unfolding parse_private_key_pem
        parsed_back pem e =
            let alg : alg_of_kind (crypto.kind key) ≡ some m.cfg.alg =
              unfold alg_for_key in
              alg_for_key-generate crypto laws m.cfg.alg entropy key generated in
            rw (laws.pem_round key pem e, alg) refl

        pub Written→InStep : (files : Files) → Written files → InStep crypto files new_keys
        unfolding rotated
        Written→InStep files h =
            let x : Except crypto laws kid
                (λ f. if same_file f manifest_file then files f else before f) files =
              record { manifest = refl; key = h.key_files } in
            record {
              text = h.text;
              marshalled = h.marshalled;
              manifest = h.manifest;
              active = record {
                pem = h.pem;
                content = h.saved;
                parsed = parsed_back h.pem h.encoded;
                alg = alg_for_key-generate crypto laws m.cfg.alg entropy key generated;
                id = id;
                named = named;
              };
              retiring =
                  All-concat crypto laws _ m.keys.retiring _
                    (All-Stored-Except crypto laws kid _ files x m.keys.retiring fresh.1 s.retiring)
                    (Stored-Except crypto laws kid _ files x m.keys.active fresh.0 s.active);
              aged = later;
            }
