-- ===== src/Keys/Toy.antt =====
-- Libraries that meet the laws of `Crypto`: a key is its kind and a number, and the encodings list
-- the parts. Manifests are encoded whose kids have two letters, as those of these keys have.
use mathlib.Core.Option.{some-injective}
use mcp_oauth_gateway.Base.{
  ℕ, zero, suc, sym, subst, Option, none, some, List, [], ◌∷◌, Str, ◌≡◌, refl, ap, true, false,
  arith,
}
use mcp_oauth_gateway.Keys.Types.{
  Crypto, Manifest, ManifestRetiring, KeyKind, rsa_key, ecdsa_key, other_key,
}
use mcp_oauth_gateway.Keys.Directory.Reload.{Laws}

abbrev ToyKey : Type 0
ToyKey = KeyKind × ℕ

infixl 5 ◌>>=◌
abbrev ◌>>=◌ {ℓ κ} : {A : Type ℓ} {B : Type κ} → Option A → (A → Option B) → Option B
none >>= k = none
some a >>= k = k a

abbrev encode_key : ToyKey → Option Str
encode_key (rsa_key bits, n) = some (0 ∷ bits ∷ n ∷ [])
encode_key (ecdsa_key true, n) = some (1 ∷ n ∷ [])
encode_key _ = none

abbrev decode_key : Str → Option ToyKey
decode_key (zero ∷ bits ∷ n ∷ []) = some (rsa_key bits, n)
decode_key (suc zero ∷ n ∷ []) = some (ecdsa_key true, n)
decode_key _ = none

abbrev encode_entry : Str → ℕ → Option Str → Option Str
encode_entry (a ∷ b ∷ []) time (some text) = some (a ∷ b ∷ time ∷ text)
encode_entry _ time rest = none

abbrev encode_retiring : List ManifestRetiring → Option Str
encode_retiring [] = some []
encode_retiring (r ∷ rest) = encode_entry r.kid r.not_after (encode_retiring rest)

abbrev decode_retiring : Str → Option (List ManifestRetiring)
decode_retiring [] = some []
decode_retiring (a ∷ b ∷ time ∷ text) = do
  rest ← decode_retiring text
  some (record { kid = a ∷ b ∷ []; not_after = time } ∷ rest)
decode_retiring _ = none

abbrev encode_manifest : Manifest → Option Str
encode_manifest mf = encode_entry mf.active mf.active_since (encode_retiring mf.retiring)

abbrev decode_manifest : Str → Option Manifest
decode_manifest (a ∷ b ∷ time ∷ text) = do
  rest ← decode_retiring text
  some (record { active = a ∷ b ∷ []; active_since = time; retiring = rest })
decode_manifest _ = none

abbrev pub toy : Crypto
toy = record {
  Key = ToyKey;
  Public = ToyKey;
  public = λ key. key;
  kind = λ key. key.0;
  rsa_generate = λ bits n. some (rsa_key bits, n);
  ecdsa_generate = λ n. some (ecdsa_key true, n);
  marshal_public = λ key. some (key.1 ∷ []);
  fingerprint = λ s. b'k' ∷ s;
  marshal_pem = encode_key;
  decode_pem = decode_key;
  marshal_manifest = encode_manifest;
  unmarshal_manifest = decode_manifest;
}

decode-encode_key :
    (key : ToyKey) (pem : Str) → encode_key key ≡ some pem → decode_key pem ≡ some key
decode-encode_key (rsa_key bits, n) pem e =
    subst (λ p. decode_key p ≡ some (rsa_key bits, n)) (some-injective _ _ e) refl
decode-encode_key (ecdsa_key true, n) pem e =
    subst (λ p. decode_key p ≡ some (ecdsa_key true, n)) (some-injective _ _ e) refl
decode-encode_key (ecdsa_key false, n) pem e = cc
decode-encode_key (other_key, n) pem e = cc

encode_entry-eq-some :
    (kid : Str) (time : ℕ) (rest : Option Str) (text : Str)
    → encode_entry kid time rest ≡ some text
    → (a : ℕ) × (b : ℕ) × (t : Str) × (kid ≡ a ∷ b ∷ [])
      × (rest ≡ some t)
      × (a ∷ b ∷ time ∷ t ≡ text)
encode_entry-eq-some (a ∷ b ∷ []) time (some t) text e = (a, b, t, refl, refl, some-injective _ _ e)
encode_entry-eq-some [] time rest text e = cc
encode_entry-eq-some (a ∷ []) time rest text e = cc
encode_entry-eq-some (a ∷ b ∷ c ∷ s) time rest text e = cc
encode_entry-eq-some (a ∷ b ∷ []) time none text e = cc

decode-encode_retiring :
    (rs : List ManifestRetiring) (text : Str)
    → encode_retiring rs ≡ some text
    → decode_retiring text ≡ some rs
decode-encode_retiring [] text e =
    subst (λ t. decode_retiring t ≡ some []) (some-injective _ _ e) refl
decode-encode_retiring (r ∷ rs) text e =
    let (a, b, t, kid, rest, same) =
      encode_entry-eq-some r.kid r.not_after (encode_retiring rs) text e in
    subst (λ u. decode_retiring u ≡ some (r ∷ rs)) same
      (rw (decode-encode_retiring rs t rest) (ground (arith, kid)))

decode-encode_manifest :
    (mf : Manifest) (text : Str) → encode_manifest mf ≡ some text → decode_manifest text ≡ some mf
decode-encode_manifest mf text e =
    let (a, b, t, kid, rest, same) =
      encode_entry-eq-some mf.active mf.active_since (encode_retiring mf.retiring) text e in
    subst (λ u. decode_manifest u ≡ some mf) same
      (rw (decode-encode_retiring mf.retiring t rest) (ground (arith, kid)))

pub toy-Laws : Laws toy
toy-Laws = record {
  pem_round = decode-encode_key;
  manifest_round = decode-encode_manifest;
  rsa_bits = λ bits n key e. ap (λ k. k.0) (some-injective _ _ (sym e));
  ecdsa_curve = λ n key e. ap (λ k. k.0) (some-injective _ _ (sym e));
  fingerprint_named = λ s e. cc e;
}
