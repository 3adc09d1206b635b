-- ===== src/Repository/Users.antt =====
-- pkg/repository/kvs.go: the operator's account and passkeys.
pub mod Passkeys
use mcp_oauth_gateway.Base.{
  ℕ, Str, lit, Bool, true, false, Option, none, some, List, [], ◌∷◌, ◌++◌, if◌then◌else◌, ◌==◌,
  str_eq, ltb,
}
use mcp_oauth_gateway.Repository.Bolt.{
  Bolt, Reply, ok, failed, ◌>>=◌, create, read, erase, overwrite, walk,
}
use mcp_oauth_gateway.Repository.Models.{Json, User, WebAuthnCredential}

abbrev pub kvs_user_key : Str
kvs_user_key = lit "user-record"

abbrev pub webauthn_credential_prefix : Str
webauthn_credential_prefix = lit "webauthn_credential-"

-- `sort.Slice` by the time of creation; it does not fix the order of equal times, here that of the
-- walk.
unfoldable pub insert_credential :
    WebAuthnCredential → List WebAuthnCredential → List WebAuthnCredential
insert_credential c [] = c ∷ []
insert_credential c (d ∷ l) =
    let later = insert_credential c l in
    if ltb d.created_at c.created_at then d ∷ later else c ∷ d ∷ l

unfoldable pub sort_credentials : List WebAuthnCredential → List WebAuthnCredential
unfolding insert_credential
sort_credentials [] = []
sort_credentials (c ∷ l) = insert_credential c (sort_credentials l)

module _ (bolt : Bolt) (json : Json) where
  open bolt use {Bucket}

  unfoldable pub get_user : Bucket → Reply User
  get_user = read bolt json.user kvs_user_key

  unfoldable pub create_user : User → Bucket → Reply (Unit {0}) × Bucket
  create_user user = create bolt json.user kvs_user_key user

  unfoldable pub update_user : User → Bucket → Reply (Unit {0}) × Bucket
  update_user user = overwrite bolt json.user kvs_user_key user

  unfoldable pub add_webauthn_credential : WebAuthnCredential → Bucket → Reply (Unit {0}) × Bucket
  add_webauthn_credential c = create bolt json.credential (webauthn_credential_prefix ++ c.id) c

  -- The walk; a record that does not decode is an error.
  unfoldable pub credentials_of : Str → List (Str × Str) → Reply (List WebAuthnCredential)
  unfolding ◌>>=◌
  credentials_of user_id [] = ok []
  credentials_of user_id ((k, v) ∷ rest) = elim (json.credential.unmarshal v) [
    | none ↦ failed
    | some c ↦
        credentials_of user_id rest >>= λ more. ok (if c.user_id == user_id then c ∷ more else more)
  ]

  unfoldable pub list_webauthn_credentials : Str → Bucket → Reply (List WebAuthnCredential)
  unfolding credentials_of sort_credentials ◌>>=◌
  list_webauthn_credentials user_id b =
      credentials_of user_id (walk bolt webauthn_credential_prefix b) >>= λ l.
      ok (sort_credentials l)

  unfoldable pub update_webauthn_credential :
      WebAuthnCredential → Bucket → Reply (Unit {0}) × Bucket
  update_webauthn_credential c =
      overwrite bolt json.credential (webauthn_credential_prefix ++ c.id) c

  unfoldable pub delete_webauthn_credential : Str → Bucket → Reply (Unit {0}) × Bucket
  delete_webauthn_credential id = erase bolt (webauthn_credential_prefix ++ id)
