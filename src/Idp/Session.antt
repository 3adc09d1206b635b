-- ===== src/Idp/Session.antt =====
-- pkg/idp/session.go, and sanitizeLabel of consent.go: the session that a grant carries.
use mcp_oauth_gateway.Base.{
  ℕ, Str, Bool, ◌&&◌, ◌||◌, Option, none, some, List, [], ◌∷◌, length, ltb, leb, if◌then◌else◌,
  ◌==◌, str_eq, trim_space, take,
}

-- The claims and the fields of `fosite.DefaultSession` that Clone copies; `expires_at` is a map by kind of
-- token. `header` holds the extra headers.
pub record IdpSession : Type 0 where
  pub username : Str
  pub subject : Str
  pub expires_at : List (Str × ℕ)
  pub issuer : Str
  pub jti : Str
  pub audience : List Str
  pub claims_expire_at : ℕ
  pub issued_at : ℕ
  pub not_before : ℕ
  pub user_info : Option Str
  pub client_id : Option Str
  pub header : List (Str × Str)
  pub label : Str

-- `jti` is what GenerateJTI answers; the clock is read twice.
unfoldable pub new_jwt_session :
    Option Str → ℕ → ℕ → Str → Str → Str → Option Str → Option IdpSession
new_jwt_session none issued not_before iss subject client_id user_info = none
new_jwt_session (some jti) issued not_before iss subject client_id user_info = some (record {
  username = subject;
  subject = subject;
  expires_at = [];
  issuer = iss;
  jti = jti;
  audience = [];
  claims_expire_at = 0;
  issued_at = issued;
  not_before = not_before;
  user_info = user_info;
  client_id = if client_id == [] then none else some client_id;
  header = [];
  label = [];
})

-- A copy with an identifier of its own, if there is randomness.
unfoldable pub clone : Option Str → IdpSession → IdpSession
clone none s = s
clone (some jti) s = record s { jti = jti }

-- `unicode.IsControl`
unfoldable pub is_control : ℕ → Bool
is_control c = ltb c 0x20 || (leb 0x7f c && ltb c 0xa0)

unfoldable pub drop_control : Str → Str
unfolding is_control
drop_control [] = []
drop_control (c ∷ s) = let rest = drop_control s in if is_control c then rest else c ∷ rest

abbrev pub max_label_length : ℕ
max_label_length = 64

abbrev pub capped : Str → Str
capped cleaned =
    if ltb max_label_length (length cleaned)
    then trim_space (take max_label_length cleaned)
    else cleaned

unfoldable pub sanitize_label : Str → Str
unfolding drop_control trim_space
sanitize_label raw = capped (trim_space (drop_control raw))
