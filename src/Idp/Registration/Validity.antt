-- ===== src/Idp/Registration/Validity.antt =====
-- register.go: the rules for the metadata of a registration.
use mcp_oauth_gateway.Base.{
  Str, lit, Bool, true, false, not, Option, List, [], ◌∷◌, all, All, length, ◌==◌, str_eq, nat_eq,
  ◌≡◌, ◌≢◌, ◌⊎◌, refl, inl, inr, eq_iff, Bool-cases,
}
use mcp_oauth_gateway.Cimd.Documents.{
  Url, Outcome, ok, invalid, or_default, validate_redirect_uri, is_supported_grant_type,
  is_supported_response_type,
}
use mcp_oauth_gateway.Cimd.Documents.Narrowing.{refuse_if-ok, then-ok, length-ne-nil}
use mcp_oauth_gateway.Idp.Registration.{
  RegistrationRequest, is_supported_auth_method, with_defaults, check_redirect_uris,
  validate_registration,
}

cases_ok : (m : Outcome (Unit {0})) → (m ≡ ok tt) ⊎ ((e : Str) × (m ≡ invalid e))
cases_ok (ok tt) = inl refl
cases_ok (invalid e) = inr (e, refl)

pub outcome_cases :
    {A : Type 0} (m : Outcome A) → ((a : A) × (m ≡ ok a)) ⊎ ((e : Str) × (m ≡ invalid e))
outcome_cases (ok a) = inl (a, refl)
outcome_cases (invalid e) = inr (e, refl)

is_supported_auth_method-one :
    (m : Str)
    → is_supported_auth_method m ≡ true
    → (m ≡ lit "none") ⊎ (m ≡ lit "client_secret_basic") ⊎ (m ≡ lit "client_secret_post")
unfolding is_supported_auth_method
is_supported_auth_method-one m h = elim (Bool-cases (m == lit "none")) [
  | inl first ↦ inl ((eq_iff m (lit "none")).0 first)
  | inr other ↦ elim (Bool-cases (m == lit "client_secret_basic")) [
    | inl second ↦ inr (inl ((eq_iff m (lit "client_secret_basic")).0 second))
    | inr more ↦ inr (inr ((eq_iff m (lit "client_secret_post")).0 (rw (other, more) at h)))
  ]
]

is_supported_grant_type-one :
    (g : Str)
    → is_supported_grant_type g ≡ true
    → (g ≡ lit "authorization_code") ⊎ (g ≡ lit "refresh_token")
unfolding is_supported_grant_type
is_supported_grant_type-one g h = elim (Bool-cases (g == lit "authorization_code")) [
  | inl first ↦ inl ((eq_iff g (lit "authorization_code")).0 first)
  | inr other ↦ inr ((eq_iff g (lit "refresh_token")).0 (rw other at h))
]

is_supported_response_type-one : (t : Str) → is_supported_response_type t ≡ true → t ≡ lit "code"
unfolding is_supported_response_type
is_supported_response_type-one t h = (eq_iff t (lit "code")).0 h

all-All :
    (test : Str → Bool) (P : Str → Type 0)
    → ((x : Str) → test x ≡ true → P x)
    → (l : List Str) → all test l ≡ true
    → All P l
all-All test P f [] h = tt
all-All test P f (x ∷ l) h = elim (Bool-cases (test x)) [
  | inl good ↦ (f x good, all-All test P f l (rw good at h))
  | inr bad ↦ cc (rw bad at h)
]

module _ (parse_url : Str → Option Url) where
  check_redirect_uris-All :
      (l : List Str)
      → check_redirect_uris parse_url l ≡ ok tt
      → All (λ uri. validate_redirect_uri parse_url uri ≡ ok tt) l
  unfolding check_redirect_uris
  check_redirect_uris-All [] h = tt
  check_redirect_uris-All (uri ∷ l) h = elim (cases_ok (validate_redirect_uri parse_url uri)) [
    | inl valid ↦ (valid, check_redirect_uris-All l (rw (valid, check_redirect_uris) at h))
    | inr (e, bad) ↦ cc (rw (bad, check_redirect_uris) at h)
  ]

  -- The metadata rules.
  pub record IsValid (r : RegistrationRequest) : Type 0 where
    pub redirects : r.redirect_uris ≢ []
    pub redirects_valid : All (λ uri. validate_redirect_uri parse_url uri ≡ ok tt) r.redirect_uris
    pub auth_method :
        (r.token_endpoint_auth_method ≡ lit "none")
        ⊎ (r.token_endpoint_auth_method ≡ lit "client_secret_basic")
        ⊎ (r.token_endpoint_auth_method ≡ lit "client_secret_post")
    pub grants : All (λ g. (g ≡ lit "authorization_code") ⊎ (g ≡ lit "refresh_token")) r.grant_types
    pub some_grant : r.grant_types ≢ []
    pub responses : All (λ t. t ≡ lit "code") r.response_types
    pub some_response : r.response_types ≢ []

  or_default-ne-nil : (l : List Str) (x : Str) → or_default l x ≢ []
  unfolding or_default
  or_default-ne-nil [] x e = cc e
  or_default-ne-nil (y ∷ l) x e = cc e

  not-false : (b : Bool) → not b ≡ false → b ≡ true
  not-false true h = refl
  not-false false h = cc h

  pub validate_registration-IsValid :
      (r v : RegistrationRequest)
      → validate_registration parse_url r ≡ ok v
      → (with_defaults r ≡ v) × IsValid (with_defaults r)
  unfolding validate_registration
  validate_registration-IsValid r v h =
      let (redirects, h2) = refuse_if-ok (length r.redirect_uris == 0) _ _ v h in
      let (valid, h3) = then-ok (check_redirect_uris parse_url r.redirect_uris) _ v h2 in
      let (method, h4) =
        refuse_if-ok (not (is_supported_auth_method (with_defaults r).token_endpoint_auth_method)) _
          _ v h3 in
      let (grants, h5) =
        refuse_if-ok (not (all is_supported_grant_type (with_defaults r).grant_types)) _ _ v h4 in
      let (responses, h6) =
        refuse_if-ok (not (all is_supported_response_type (with_defaults r).response_types)) _ _ v
          h5 in
      (
        cc h6,
        record {
          redirects = length-ne-nil r.redirect_uris redirects;
          redirects_valid = check_redirect_uris-All r.redirect_uris valid;
          auth_method = is_supported_auth_method-one _ (not-false _ method);
          grants = all-All _ _ is_supported_grant_type-one _ (not-false _ grants);
          some_grant = or_default-ne-nil r.grant_types (lit "authorization_code");
          responses = all-All _ _ is_supported_response_type-one _ (not-false _ responses);
          some_response = or_default-ne-nil r.response_types (lit "code");
        },
      )
