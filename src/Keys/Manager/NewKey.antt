-- ===== src/Keys/Manager/NewKey.antt =====
-- manager.go: the file of a new key, and the keys it leaves alone.
use mcp_oauth_gateway.Base.{
  ℕ, Option, some, List, [], ◌∷◌, ◌++◌, Str, ◌≡◌, ◌≢◌, refl, ap, ◌∙◌, arith,
}
use mcp_oauth_gateway.Base.{
  false, Bool-cases, inl, inr, str_eqb, eq_refl, eq_iff, All, ◌==◌, str_eq,
}
use mcp_oauth_gateway.Keys.Types.{
  Alg, Crypto, SigningKey, RetiredKey, rs256, es256, alg_for_key, generate_private_key, alg_of_kind,
}
use mcp_oauth_gateway.Keys.Disk.{
  Disk, Outcome, ok, err, crashed, Exec, manifest_file, key_file, write_file, store,
}
use mcp_oauth_gateway.Keys.Disk.Triple.{
  After, Triple, On, Files, Triple-bind, Triple-call, Triple-lift,
}
use mcp_oauth_gateway.Keys.Directory.{KeySet, save_private_key}
use mcp_oauth_gateway.Keys.Directory.Reload.{Laws, Stored, InStep}
use mcp_oauth_gateway.Keys.Manager.{Manager, World, on_disk}

module _ (crypto : Crypto) (laws : Laws crypto) where
  open crypto use {Key, public, marshal_pem, marshal_manifest}

  -- The manager, and a condition on the files.
  abbrev pub At : Manager crypto → (Files → Type 0) → World crypto → Type 0
  At m F w = (w.manager ≡ m) × F w.disk.files

  pub Triple-on_disk :
      (m : Manager crypto) (a : Exec Disk (Unit {0})) (F Q E C : Files → Type 0)
      → Triple (On F) a (λ _. On Q) (On E) (On C)
      → Triple (At m F) (on_disk crypto a) (λ _. At m Q) (At m E) (At m C)
  unfolding on_disk
  Triple-on_disk m a F Q E C t = record {
    at = λ w h. carry w h.0 (a w.disk).0 (a w.disk).1 (t.at w.disk h.1);
  }
    where
      carry :
          (w : World crypto)
          → w.manager ≡ m
          → (r : Outcome (Unit {0})) (d : Disk) → After {0} (λ _. On Q) (On E) (On C) r d
          → After {0} (λ _. At m Q) (At m E) (At m C) r (record w { disk = d })
      carry w e (ok a) d h = (e, h)
      carry w e err d h = (e, h)
      carry w e crashed d h = (e, h)

  -- The files are those of `before`, but for the key file of one kid.
  pub record Except (kid : Str) (before files : Files) : Type 0 where
    pub manifest : files manifest_file ≡ before manifest_file
    pub key : (j : Str) → j ≢ kid → files (key_file j) ≡ before (key_file j)

  pub record Saved (kid : Str) (key : Key) (before files : Files) : Type 0 where
    pub pem : Str
    pub marshalled : marshal_pem key ≡ some pem
    pub saved : files (key_file kid) ≡ some pem
    pub others : Except kid before files

  pub Except-refl : (kid : Str) (before files : Files) → files ≡ before → Except kid before files
  Except-refl kid before files e = record {
    manifest = ap (λ f. f manifest_file) e;
    key = λ j _. ap (λ f. f (key_file j)) e;
  }

  ne→false : (s t : Str) → t ≢ s → str_eqb s t ≡ false
  ne→false s t h = ground (arith, eq_iff s t)

  pub Except-store :
      (kid : Str) (c : Option Str) (before files : Files)
      → files ≡ before
      → Except kid before (store (key_file kid) c files)
  Except-store kid c before files e = record {
    manifest = ap (λ f. f manifest_file) e;
    key = λ j other. rw (ne→false kid j other) (ap (λ f. f (key_file j)) e);
  }

  pub save_private_key-Triple :
      (before : Files) (kid : Str) (key : Key)
      → Triple
          (On (λ f. f ≡ before))
          (save_private_key crypto (key_file kid) key)
          (λ _. On (Saved kid key before))
          (On (Except kid before))
          (On (Except kid before))
  unfolding save_private_key write_file
  save_private_key-Triple before kid key =
      Triple-bind
        (Triple-lift {Q = λ pem d. (marshal_pem key ≡ some pem) × (d.files ≡ before)}
          (marshal_pem key) (λ d e. Except-refl kid before d.files e) (λ pem m d e. (m, e)))
        λ pem.
          Triple-call {F = λ f. (marshal_pem key ≡ some pem) × (f ≡ before)} (Saved kid key before)
            (Except kid before) (Except kid before) _ _
            (λ files h. record {
              pem = pem;
              marshalled = h.0;
              saved = rw eq_refl refl;
              others = Except-store kid (some pem) before files h.1;
            })
            (λ junk files h. Except-store kid junk before files h.1)
            (λ junk files h. Except-store kid junk before files h.1)
            (λ files h. Except-store kid (some pem) before files h.1)

  -- The kid names none of the keys.
  abbrev pub Fresh : Str → KeySet crypto → Type 0
  Fresh kid k = (k.active.kid ≢ kid) × All (λ r. r.signing_key.kid ≢ kid) k.retiring

  module _ (kid : Str) (before files : Files) (x : Except kid before files) where
    pub Stored-Except :
        (k : SigningKey crypto)
        → k.kid ≢ kid
        → Stored crypto (λ j. before (key_file j)) k
        → Stored crypto (λ j. files (key_file j)) k
    Stored-Except k other s = record {
      pem = s.pem;
      content = x.key k.kid other ∙ s.content;
      parsed = s.parsed;
      alg = s.alg;
      id = s.id;
      named = s.named;
    }

    pub All-Stored-Except :
        (rs : List (RetiredKey crypto))
        → All (λ r. r.signing_key.kid ≢ kid) rs
        → All (λ r. Stored crypto (λ j. before (key_file j)) r.signing_key) rs
        → All (λ r. Stored crypto (λ j. files (key_file j)) r.signing_key) rs
    All-Stored-Except [] f s = tt
    All-Stored-Except (r ∷ rs) (other, f) (s, more) =
        (Stored-Except r.signing_key other s, All-Stored-Except rs f more)

    pub InStep-Except :
        (k : KeySet crypto) → Fresh kid k → InStep crypto before k → InStep crypto files k
    InStep-Except k (other, f) s = record {
      text = s.text;
      marshalled = s.marshalled;
      manifest = x.manifest ∙ s.manifest;
      active = Stored-Except k.active other s.active;
      retiring = All-Stored-Except k.retiring f s.retiring;
      aged = s.aged;
    }

  pub All-concat :
      (P : RetiredKey crypto → Type 0) (xs : List (RetiredKey crypto)) (x : RetiredKey crypto)
      → All P xs
      → P x
      → All P (xs ++ x ∷ [])
  All-concat P [] x h p = (p, tt)
  All-concat P (y ∷ xs) x (q, h) p = (q, All-concat P xs x h p)

  -- A generated key signs with the configured algorithm.
  pub alg_for_key-generate :
      (alg : Alg) (entropy : ℕ) (key : Key)
      → generate_private_key crypto alg entropy ≡ some key
      → alg_for_key crypto key ≡ some alg
  unfolding generate_private_key alg_for_key
  alg_for_key-generate alg entropy key e = elim (Bool-cases (alg == rs256)) [
    | inl rsa ↦
        rw (laws.rsa_bits 2048 entropy key (rw rsa at e), alg_of_kind)
          (cc ((eq_iff alg rs256).0 rsa))
    | inr other ↦ elim (Bool-cases (alg == es256)) [
      | inl ec ↦
          rw (laws.ecdsa_curve entropy key (rw (other, ec) at e), alg_of_kind)
            (cc ((eq_iff alg es256).0 ec))
      | inr none_left ↦ cc (rw (other, none_left) at e)
    ]
  ]
