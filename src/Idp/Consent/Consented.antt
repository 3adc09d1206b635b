-- ===== src/Idp/Consent/Consented.antt =====
-- consent.go: the request and the session that an approval hands to fosite.
use mcp_oauth_gateway.Base.{
  Str, lit, Option, none, some, List, [], ◌∷◌, if◌then◌else◌, ◌==◌, str_eq, str_eqb, ◌≡◌, refl, sym,
  inl, inr, Option-cases,
}
use mcp_oauth_gateway.Repository.Bolt.{Bolt, Codec}
use mcp_oauth_gateway.Repository.Models.{Json, Sessions, FositeRequest, FositeAuthorizeRequest}
use mcp_oauth_gateway.Auth.Session.{Session, nonempty}
use mcp_oauth_gateway.Idp.Session.{IdpSession, new_jwt_session, sanitize_label}
use mcp_oauth_gateway.Idp.Consent.{
  Provider, Env, grant_scopes, subject_of, claims_of, approved_session,
}

-- The user of a browser's session.
abbrev pub user_of : Option Str → Str
user_of none = lit "user"
user_of (some []) = lit "user"
user_of (some (c ∷ s)) = c ∷ s

abbrev pub info_of : (Str → Option Str) → Option Str → Option Str
info_of decode none = none
info_of decode (some []) = none
info_of decode (some (c ∷ s)) = decode (c ∷ s)

abbrev pub named_client : Str → Option Str
named_client [] = none
named_client (c ∷ s) = some (c ∷ s)

-- The session of an approval: the browser's user, the gateway as the issuer, and the client.
abbrev pub consented : Env → Session → Str → Str → Str → IdpSession
consented env s jti label client_id = record {
  username = user_of s.user_id;
  subject = user_of s.user_id;
  expires_at = [];
  issuer = env.external_url;
  jti = jti;
  audience = [];
  claims_expire_at = 0;
  issued_at = env.issued;
  not_before = env.not_before;
  user_info = info_of env.decode_claims s.user_info;
  client_id = named_client client_id;
  header = [];
  label = label;
}

if-named_client : (id : Str) → (if id == [] then none else some id) ≡ named_client id
unfolding str_eqb
if-named_client [] = refl
if-named_client (c ∷ s) = refl

module _ (strings : Codec (List Str)) (bolt : Bolt) (json : Json) (lib : Sessions)
    (fosite : Provider lib bolt.Bucket) where
  subject_of-user_of :
      (o : Option Str) → subject_of strings bolt json lib fosite (nonempty o) ≡ user_of o
  unfolding nonempty str_eqb
  subject_of-user_of none = refl
  subject_of-user_of (some []) = refl
  subject_of-user_of (some (c ∷ s)) = refl

  claims_of-info_of :
      (decode : Str → Option Str) (o : Option Str)
      → claims_of strings bolt json lib fosite decode (nonempty o) ≡ info_of decode o
  unfolding nonempty str_eqb
  claims_of-info_of decode none = refl
  claims_of-info_of decode (some []) = refl
  claims_of-info_of decode (some (c ∷ s)) = refl

  -- A request after each of these scopes is granted, in their order.
  abbrev pub Grants : List Str → FositeRequest lib → FositeRequest lib → Type 0
  Grants [] r q = q ≡ r
  Grants (scope ∷ scopes) r q = Grants scopes (fosite.grant_scope r scope) q

  pub grant_scopes-Grants :
      (scopes : List Str) (r : FositeRequest lib)
      → Grants scopes r (grant_scopes strings bolt json lib fosite scopes r)
  unfolding grant_scopes
  grant_scopes-Grants [] r = refl
  grant_scopes-Grants (scope ∷ scopes) r = grant_scopes-Grants scopes (fosite.grant_scope r scope)

  pub approved_session-consented :
      (env : Env) (s : Session) (ar : FositeAuthorizeRequest lib) (name : Str)
      (session : IdpSession)
      → approved_session strings bolt json lib fosite env s ar name ≡ some session
      → (jti : Str) × (env.jti ≡ some jti)
        × (session ≡ consented env s jti (sanitize_label name) ar.request.client.id)
  unfolding approved_session new_jwt_session
  approved_session-consented env s ar name session e = elim (Option-cases env.jti) [
    | inl bad ↦ cc (rw (bad, approved_session) at e)
    | inr (jti, fresh) ↦
        let given =
          rw
            (
              fresh,
              approved_session,
              subject_of-user_of s.user_id,
              claims_of-info_of env.decode_claims s.user_info,
              if-named_client ar.request.client.id,
            )
            at e in
        (jti, fresh, cc (sym given))
  ]
