-- ===== src/Keys/Types.antt =====
-- pkg/keys/keys.go and the types of manager.go. What the code takes from crypto/*, x509, pem and
-- encoding/json is the record `Crypto`, a parameter.
use mathlib.Core.Option
use mcp_oauth_gateway.Base.{ℕ, ◌-◌, Bool, true, false, ◌&&◌, Option, none, some, List, map}
use mcp_oauth_gateway.Base.{Str, lit, leb, ltb, if◌then◌else◌, ◌==◌, str_eq, nat_eq}

-- `Alg` is a string type.
abbrev pub Alg : Type 0
Alg = Str

abbrev pub rs256 : Alg
rs256 = lit "RS256"

abbrev pub es256 : Alg
es256 = lit "ES256"

-- `unicode.ToUpper`, as far as the result is ASCII: two letters beyond ASCII have an ASCII upper
-- case, U+017F and U+0131. Any other goes to a letter beyond ASCII, for which it stands itself.
unfoldable pub to_upper : ℕ → ℕ
to_upper c =
    if leb b'a' c && leb c b'z'
    then c - 32
    else if c == 0x17f
    then b'S'
    else if c == 0x131
    then b'I'
    else c

unfoldable pub parse_alg : Str → Option Alg
unfolding to_upper
parse_alg s =
    let upper = map to_upper s in
    if upper == rs256 then some rs256 else if upper == es256 then some es256 else none

-- The dynamic type of a private key, with what the code asks of it.
pub data KeyKind : Type 0 where
  rsa_key : ℕ → KeyKind
  ecdsa_key : Bool → KeyKind
  other_key : KeyKind

pub record ManifestRetiring : Type 0 where
  pub kid : Str
  pub not_after : ℕ

pub record Manifest : Type 0 where
  pub active : Str
  pub active_since : ℕ
  pub retiring : List ManifestRetiring

-- The libraries. `rsa_generate`, `ecdsa_generate` read random numbers, which are an argument.
pub record Crypto : Type 1 where
  pub Key : Type 0
  pub Public : Type 0
  pub public : Key → Public
  -- the key's type; an RSA key has its modulus' bit length, an ECDSA key whether its curve is P-256
  pub kind : Key → KeyKind
  pub rsa_generate : ℕ → ℕ → Option Key
  pub ecdsa_generate : ℕ → Option Key
  pub marshal_public : Public → Option Str
  -- the hex form of the first eight bytes of SHA-256
  pub fingerprint : Str → Str
  pub marshal_pem : Key → Option Str
  -- `pem.Decode` and `x509.ParsePKCS8PrivateKey`, `none` where one of them fails
  pub decode_pem : Str → Option Key
  pub marshal_manifest : Manifest → Option Str
  pub unmarshal_manifest : Str → Option Manifest

infixl 5 ◌>>=◌
abbrev ◌>>=◌ {ℓ κ} : {A : Type ℓ} {B : Type κ} → Option A → (A → Option B) → Option B
none >>= k = none
some a >>= k = k a

abbrev pub min_rsa_modulus_bits : ℕ
min_rsa_modulus_bits = 2048

unfoldable pub alg_of_kind : KeyKind → Option Alg
alg_of_kind (rsa_key bits) = if ltb bits min_rsa_modulus_bits then none else some rs256
alg_of_kind (ecdsa_key true) = some es256
alg_of_kind (ecdsa_key false) = none
alg_of_kind other_key = none

module _ (crypto : Crypto) where
  open crypto use {
    Key, Public, public, kind, rsa_generate, ecdsa_generate, marshal_public, fingerprint,
    decode_pem,
  }

  pub record SigningKey : Type 0 where
    pub kid : Str
    pub alg : Alg
    pub key : Key

  -- A retired key verifies until `not_after`.
  pub record RetiredKey : Type 0 where
    pub signing_key : SigningKey
    pub not_after : ℕ

  unfoldable pub key_id : Public → Option Str
  key_id p = Option.map fingerprint (marshal_public p)

  unfoldable pub generate_private_key : Alg → ℕ → Option Key
  generate_private_key alg entropy =
      if alg == rs256
      then rsa_generate 2048 entropy
      else if alg == es256
      then ecdsa_generate entropy
      else none

  unfoldable pub alg_for_key : Key → Option Alg
  unfolding alg_of_kind
  alg_for_key key = alg_of_kind (kind key)

  unfoldable pub parse_private_key_pem : Str → Option Key
  unfolding alg_for_key
  parse_private_key_pem pem = do key ← decode_pem pem; alg ← alg_for_key key; some key
