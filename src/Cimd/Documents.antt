-- ===== src/Cimd/Documents.antt =====
-- pkg/cimd/resolver.go: the rules for a redirect URI, for a metadata document and for the URL that is a
-- client ID. `url.Parse` is a parameter. An error is the text after the prefix of `ErrInvalidClientID`,
-- or a tag for it where it quotes a value.
pub mod Narrowing
use mcp_oauth_gateway.Base.{
  ℕ, Str, lit, Bool, true, false, not, ◌&&◌, ◌||◌, Option, none, some, List, [], ◌∷◌, all, length,
  if◌then◌else◌, ◌==◌, str_eq, nat_eq,
}

-- What is read of a `*url.URL`; `user` tells whether `User` is set.
pub record Url : Type 0 where
  pub scheme : Str
  pub host : Str
  pub hostname : Str
  pub port : Str
  pub user : Bool

pub data Outcome {ℓ} (A : Type ℓ) : Type ℓ where
  ok : A → Outcome A
  invalid : Str → Outcome A

infixl 5 ◌>>=◌
abbrev pub ◌>>=◌ {ℓ κ} : {A : Type ℓ} {B : Type κ} → Outcome A → (A → Outcome B) → Outcome B
ok a >>= f = f a
invalid e >>= f = invalid e

abbrev pub refuse_if : Bool → Str → Outcome (Unit {0})
refuse_if true e = invalid e
refuse_if false e = ok tt

-- `Client`: the document.
pub record Document : Type 0 where
  pub client_id : Str
  pub client_name : Str
  pub redirect_uris : List Str
  pub grant_types : List Str
  pub response_types : List Str
  pub scope : Str
  pub token_endpoint_auth_method : Str

unfoldable pub is_supported_grant_type : Str → Bool
is_supported_grant_type grant_type =
    grant_type == lit "authorization_code" || grant_type == lit "refresh_token"

unfoldable pub is_supported_response_type : Str → Bool
is_supported_response_type response_type = response_type == lit "code"

unfoldable pub intersect : List Str → (Str → Bool) → List Str
intersect [] is_supported = []
intersect (value ∷ values) is_supported =
    let kept = intersect values is_supported in if is_supported value then value ∷ kept else kept

unfoldable pub or_default : List Str → Str → List Str
or_default [] value = value ∷ []
or_default (v ∷ values) value = v ∷ values

abbrev pub is_loopback_host : Str → Bool
is_loopback_host host = host == lit "localhost" || (host == lit "127.0.0.1" || host == lit "::1")

abbrev pub is_script_scheme : Str → Bool
is_script_scheme scheme =
    scheme == lit "javascript"
    || (scheme == lit "data" || (scheme == lit "file" || scheme == lit "vbscript"))

-- The switch over the scheme.
unfoldable pub validate_redirect_url : Option Url → Outcome (Unit {0})
validate_redirect_url none = invalid (lit "invalid redirect URI")
validate_redirect_url (some u) =
    if u.scheme == []
    then invalid (lit "redirect URI must be absolute")
    else if u.scheme == lit "https"
    then ok tt
    else if u.scheme == lit "http"
    then (if is_loopback_host u.hostname
        then ok tt
        else invalid (lit "http is only allowed for loopback"))
    else if is_script_scheme u.scheme
    then invalid (lit "scheme is not allowed")
    else ok tt

-- The narrowed lists, which must not be empty.
unfoldable pub narrow_to : Document → List Str → List Str → Outcome Document
narrow_to d grant_types response_types =
    refuse_if (length grant_types == 0) (lit "no supported grant_type") >>= λ _.
    refuse_if (length response_types == 0) (lit "no supported response_type") >>= λ _.
    ok (record d { grant_types = grant_types; response_types = response_types })

module _ (parse_url : Str → Option Url) where
  unfoldable pub validate_redirect_uri : Str → Outcome (Unit {0})
  unfolding validate_redirect_url
  validate_redirect_uri raw = validate_redirect_url (parse_url raw)

  unfoldable pub validate_redirect_uris : List Str → Outcome (Unit {0})
  unfolding validate_redirect_uri
  validate_redirect_uris [] = ok tt
  validate_redirect_uris (uri ∷ uris) =
      validate_redirect_uri uri >>= λ _. validate_redirect_uris uris

  -- The document as the pointer holds it afterwards.
  unfoldable pub validate_document : Str → Document → Outcome Document
  unfolding validate_redirect_uris or_default intersect is_supported_grant_type
      is_supported_response_type
  validate_document client_id d =
      refuse_if (not (d.client_id == client_id)) (lit "document client_id does not match its URL")
      >>= λ _.
          refuse_if (length d.redirect_uris == 0) (lit "redirect_uris must not be empty") >>= λ _.
          validate_redirect_uris d.redirect_uris >>= λ _.
          refuse_if
            (not (d.token_endpoint_auth_method == [])
              && not (d.token_endpoint_auth_method == lit "none"))
            (lit "token_endpoint_auth_method must be none")
          >>= λ _.
              narrow_to d
                (intersect (or_default d.grant_types (lit "authorization_code"))
                  is_supported_grant_type)
                (intersect (or_default d.response_types (lit "code")) is_supported_response_type)

  -- `allow_private_hosts` is set by tests only.
  unfoldable pub validate_client_id_url : Bool → Str → Outcome (Unit {0})
  validate_client_id_url allow_private_hosts client_id = elim (parse_url client_id) [
    | none ↦ invalid (lit "url does not parse")
    | some u ↦
        refuse_if (not allow_private_hosts && not (u.scheme == lit "https"))
          (lit "scheme must be https")
        >>= λ _. refuse_if (u.host == []) (lit "missing host") >>= λ _.
            refuse_if u.user (lit "userinfo is not allowed") >>= λ _.
            refuse_if (not allow_private_hosts && (not (u.port == []) && not (u.port == lit "443")))
              (lit "non-default port is not allowed")
  ]
