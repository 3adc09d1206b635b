-- ===== src/Keys/Directory/Reload.antt =====
-- manager.go: a key set that is in step with the directory is what `load` reads from it.
use mcp_oauth_gateway.Base.{
  ℕ, Option, some, List, [], ◌∷◌, map, Str, ◌≡◌, ◌≢◌, refl, true, false, ◌<◌, arith,
}
use mcp_oauth_gateway.Base.{str_eqb, eq_refl, eq_iff, All, ◌==◌, nat_eq}
use mcp_oauth_gateway.Keys.Types.{
  Crypto, Manifest, SigningKey, RetiredKey, rsa_key, ecdsa_key, key_id, alg_for_key,
  parse_private_key_pem,
}
use mcp_oauth_gateway.Keys.Disk.{Disk, ok, manifest_file, key_file, ◌>>=◌, lift, pure}
use mcp_oauth_gateway.Keys.Disk.Triple.{Files, read_file_lem}
use mcp_oauth_gateway.Keys.Directory.{KeySet, manifest_of, load_key, load_retiring, load}

-- The disk of a process that starts now, with no failure ahead.
abbrev pub restart : Disk → Disk
restart d = record d { events = [] }

module _ (crypto : Crypto) where
  open crypto use {Key, public, marshal_manifest, unmarshal_manifest}

  -- What the libraries document: encodings are read back, a generated key is of the type asked
  -- for, and a fingerprint is not empty.
  pub record Laws : Type 0 where
    pub pem_round :
        (key : Key) (pem : Str)
        → crypto.marshal_pem key ≡ some pem
        → crypto.decode_pem pem ≡ some key
    pub manifest_round :
        (mf : Manifest) (text : Str)
        → marshal_manifest mf ≡ some text
        → unmarshal_manifest text ≡ some mf
    pub rsa_bits :
        (bits entropy : ℕ) (key : Key)
        → crypto.rsa_generate bits entropy ≡ some key
        → crypto.kind key ≡ rsa_key bits
    pub ecdsa_curve :
        (entropy : ℕ) (key : Key)
        → crypto.ecdsa_generate entropy ≡ some key
        → crypto.kind key ≡ ecdsa_key true
    pub fingerprint_named : (s : Str) → crypto.fingerprint s ≢ []

  -- The key's file holds it.
  pub record Stored (keys : Str → Option Str) (k : SigningKey crypto) : Type 0 where
    pub pem : Str
    pub content : keys k.kid ≡ some pem
    pub parsed : parse_private_key_pem crypto pem ≡ some k.key
    pub alg : alg_for_key crypto k.key ≡ some k.alg
    pub id : key_id crypto (public k.key) ≡ some k.kid
    pub named : k.kid ≢ []

  pub record InStep (files : Files) (k : KeySet crypto) : Type 0 where
    pub text : Str
    pub marshalled : marshal_manifest (manifest_of crypto k) ≡ some text
    pub manifest : files manifest_file ≡ some text
    pub active : Stored (λ j. files (key_file j)) k.active
    pub retiring : All (λ r. Stored (λ j. files (key_file j)) r.signing_key) k.retiring
    pub aged : 0 < k.since

  not_empty : (s : Str) → s ≢ [] → str_eqb s [] ≡ false
  not_empty s h = ground (arith, eq_iff s [])

  load_key-Stored :
      (files : Files) (k : SigningKey crypto)
      → Stored (λ j. files (key_file j)) k
      → load_key crypto k.kid (record { files = files; events = [] })
        ≡ (ok k, record { files = files; events = [] })
  unfolding load_key ◌>>=◌ lift pure
  load_key-Stored files k s =
      rw
        (
          not_empty k.kid s.named,
          read_file_lem files (key_file k.kid),
          s.content,
          s.parsed,
          s.alg,
          s.id,
          eq_refl k.kid,
        )
        refl

  load_retiring-Stored :
      (files : Files) (rs : List (RetiredKey crypto))
      → All (λ r. Stored (λ j. files (key_file j)) r.signing_key) rs
      → load_retiring crypto
          (map (λ r. record { kid = r.signing_key.kid; not_after = r.not_after }) rs)
          (record { files = files; events = [] })
        ≡ (ok rs, record { files = files; events = [] })
  unfolding load_retiring ◌>>=◌ pure
  load_retiring-Stored files [] s = refl
  load_retiring-Stored files (r ∷ rs) (s, more) =
      rw (load_key-Stored files r.signing_key s, load_retiring-Stored files rs more) refl

  -- A process that starts on such a directory has the same key set.
  pub load-InStep :
      Laws
      → (d : Disk) (k : KeySet crypto) (now : ℕ) → InStep d.files k
      → load crypto now (restart d) ≡ (ok k, restart d)
  unfolding load ◌>>=◌ pure lift manifest_of
  load-InStep laws d k now s =
      let read = laws.manifest_round (manifest_of crypto k) s.text s.marshalled in
      let aged : (k.since == 0) ≡ false = ground arith in
      rw
        (
          read_file_lem d.files manifest_file,
          s.manifest,
          read,
          load_key-Stored d.files k.active s.active,
          load_retiring-Stored d.files k.retiring s.retiring,
          aged,
        )
        refl
