-- ===== src/Cimd/Documents/Narrowing.antt =====
-- resolver.go: what a document that is accepted may do.
use mcp_oauth_gateway.Base.{
  Str, lit, Bool, true, false, not, ◌&&◌, ◌||◌, Option, List, [], ◌∷◌, any, length, All, ◌==◌,
  str_eq, nat_eq, eq_iff, ◌≡◌, ◌≢◌, refl, subst, inl, inr, arith, Bool-cases,
}
use mcp_oauth_gateway.Cimd.Documents.{
  Url, Outcome, ok, invalid, ◌>>=◌, refuse_if, Document, is_supported_grant_type,
  is_supported_response_type, intersect, or_default, narrow_to, validate_redirect_uri,
  validate_redirect_uris, validate_document,
}

abbrev pub member : Str → List Str → Bool
member x l = any (λ y. y == x) l

pub intersect-member :
    (test : Str → Bool) (x : Str) (l : List Str)
    → member x (intersect l test) ≡ test x && member x l
unfolding intersect
intersect-member test x [] = ground arith
intersect-member test x (y ∷ l) = elim (Bool-cases (y == x)) [
  | inl same ↦
      rw ((eq_iff y x).0 same) (ground (arith, intersect-member test x l, (eq_iff x x).1 refl))
  | inr other ↦ ground (arith, other, intersect-member test x l)
]

pub refuse_if-ok :
    {A : Type 0} (test : Bool) (e : Str) (k : Outcome A) (a : A)
    → (refuse_if test e >>= λ _. k) ≡ ok a
    → (test ≡ false) × (k ≡ ok a)
refuse_if-ok true e k a h = cc h
refuse_if-ok false e k a h = (refl, h)

pub then-ok :
    {A : Type 0} (m : Outcome (Unit {0})) (k : Outcome A) (a : A)
    → (m >>= λ _. k) ≡ ok a
    → (m ≡ ok tt) × (k ≡ ok a)
then-ok (ok tt) k a h = (refl, h)
then-ok (invalid e) k a h = cc h

pub nil-length : (l : List Str) → l ≢ [] → (length l == 0) ≡ false
nil-length [] h = absurd (h refl)
nil-length (x ∷ l) h = ground arith

pub length-ne-nil : (l : List Str) → (length l == 0) ≡ false → l ≢ []
length-ne-nil [] h e = cc h
length-ne-nil (x ∷ l) h e = cc e

module _ (parse_url : Str → Option Url) where
  pub validate_redirect_uris-All :
      (l : List Str)
      → validate_redirect_uris parse_url l ≡ ok tt
      → All (λ uri. validate_redirect_uri parse_url uri ≡ ok tt) l
  unfolding validate_redirect_uris
  validate_redirect_uris-All [] h = tt
  validate_redirect_uris-All (uri ∷ l) h =
      let (here, later) =
        then-ok (validate_redirect_uri parse_url uri) (validate_redirect_uris parse_url l) tt h in
      (here, validate_redirect_uris-All l later)

  pub validate_redirect_uris-ok :
      (l : List Str)
      → All (λ uri. validate_redirect_uri parse_url uri ≡ ok tt) l
      → validate_redirect_uris parse_url l ≡ ok tt
  unfolding validate_redirect_uris
  validate_redirect_uris-ok [] h = refl
  validate_redirect_uris-ok (uri ∷ l) (here, later) = rw here (validate_redirect_uris-ok l later)

  -- The accepted document `e`, of what was published as `d`.
  pub record Narrowed (id : Str) (d e : Document) : Type 0 where
    pub named : d.client_id ≡ id
    pub kept : e ≡ record d { grant_types = e.grant_types; response_types = e.response_types }
    pub redirects : d.redirect_uris ≢ []
    pub redirects_valid : All (λ uri. validate_redirect_uri parse_url uri ≡ ok tt) d.redirect_uris
    pub public :
        (d.token_endpoint_auth_method == [] || d.token_endpoint_auth_method == lit "none") ≡ true
    pub grants :
        (x : Str)
        → member x e.grant_types
          ≡ is_supported_grant_type x
            && member x (or_default d.grant_types (lit "authorization_code"))
    pub some_grant : e.grant_types ≢ []
    pub responses :
        (x : Str)
        → member x e.response_types
          ≡ is_supported_response_type x && member x (or_default d.response_types (lit "code"))
    pub some_response : e.response_types ≢ []

  -- The lists that are granted of a document.
  abbrev granted : Document → List Str
  granted d =
      intersect (or_default d.grant_types (lit "authorization_code")) is_supported_grant_type

  abbrev answered : Document → List Str
  answered d = intersect (or_default d.response_types (lit "code")) is_supported_response_type

  abbrev narrowed : Document → Document
  narrowed d = record d { grant_types = granted d; response_types = answered d }

  narrow_to-ok :
      (d e : Document)
      → narrow_to d (granted d) (answered d) ≡ ok e
      → (granted d ≢ []) × (answered d ≢ []) × (narrowed d ≡ e)
  unfolding narrow_to
  narrow_to-ok d e h =
      let (some_grant, h2) = refuse_if-ok (length (granted d) == 0) _ _ e h in
      let (some_response, h3) = refuse_if-ok (length (answered d) == 0) _ _ e h2 in
      (length-ne-nil (granted d) some_grant, length-ne-nil (answered d) some_response, cc h3)

  narrowed-Narrowed :
      (id : Str) (d : Document)
      → d.client_id ≡ id
      → d.redirect_uris ≢ []
      → All (λ uri. validate_redirect_uri parse_url uri ≡ ok tt) d.redirect_uris
      → (d.token_endpoint_auth_method == [] || d.token_endpoint_auth_method == lit "none") ≡ true
      → granted d ≢ []
      → answered d ≢ []
      → Narrowed id d (narrowed d)
  narrowed-Narrowed id d named redirects valid public some_grant some_response = record {
    named = named;
    kept = refl;
    redirects = redirects;
    redirects_valid = valid;
    public = public;
    grants = λ x.
        intersect-member is_supported_grant_type x
          (or_default d.grant_types (lit "authorization_code"));
    some_grant = some_grant;
    responses = λ x.
        intersect-member is_supported_response_type x (or_default d.response_types (lit "code"));
    some_response = some_response;
  }

  -- A document that is accepted as `e` is published under its own URL, has redirect URIs, all of which
  -- obey the rules, and asks for no secret; of its grant and response types `e` has those that are
  -- supported and no other, of both at least one, and everything else as published.
  pub validate_document-Narrowed :
      (id : Str) (d e : Document) → validate_document parse_url id d ≡ ok e → Narrowed id d e
  unfolding validate_document
  validate_document-Narrowed id d e h =
      let (named, h2) = refuse_if-ok (not (d.client_id == id)) _ _ e h in
      let (redirects, h3) = refuse_if-ok (length d.redirect_uris == 0) _ _ e h2 in
      let (valid, h4) = then-ok (validate_redirect_uris parse_url d.redirect_uris) _ e h3 in
      let (public, h5) =
        refuse_if-ok
          (not (d.token_endpoint_auth_method == [])
            && not (d.token_endpoint_auth_method == lit "none"))
          _ _ e h4 in
      let (some_grant, some_response, same) = narrow_to-ok d e h5 in
      subst (λ x. Narrowed id d x) same
        (narrowed-Narrowed id d ((eq_iff d.client_id id).0 (ground arith))
          (length-ne-nil d.redirect_uris redirects)
          (validate_redirect_uris-All d.redirect_uris valid) (ground (arith, public)) some_grant
          some_response)

  -- Any document with the right name, valid redirect URIs, no secret and at least one supported type of
  -- both kinds is accepted.
  pub validate_document-accepts :
      (id : Str) (d : Document)
      → d.client_id ≡ id
      → d.redirect_uris ≢ []
      → All (λ uri. validate_redirect_uri parse_url uri ≡ ok tt) d.redirect_uris
      → (d.token_endpoint_auth_method == [] || d.token_endpoint_auth_method == lit "none") ≡ true
      → granted d ≢ []
      → answered d ≢ []
      → validate_document parse_url id d ≡ ok (narrowed d)
  unfolding validate_document narrow_to
  validate_document-accepts id d named redirects valid public some_grant some_response =
      let secret : (not (d.token_endpoint_auth_method == [])
            && not (d.token_endpoint_auth_method == lit "none"))
          ≡ false =
        ground (arith, public) in
      rw
        (
          (eq_iff d.client_id id).1 named,
          nil-length d.redirect_uris redirects,
          validate_redirect_uris-ok d.redirect_uris valid,
          secret,
          nil-length (granted d) some_grant,
          nil-length (answered d) some_response,
        )
        refl
