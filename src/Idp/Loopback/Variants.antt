-- ===== src/Idp/Loopback/Variants.antt =====
-- loopback.go: the port of a loopback redirect may vary, and nothing else.
use mcp_oauth_gateway.Base.{
  Str, lit, In, ◌⊎◌, ◌≢◌, Bool, true, ◌&&◌, Option, none, some, List, [], ◌∷◌, ◌++◌, any, all, ◌≡◌,
  refl, ◌∙◌, inl, inr, arith, ◌==◌, str_eq, Bool-cases,
}
use mcp_oauth_gateway.Idp.Loopback.{
  Url, Net, same_but_port, matches_loopback_host_port, expand_loopback_redirects, is_loopback_url,
  is_loopback_redirect, all_redirects_loopback,
}
use mcp_oauth_gateway.Idp.Loopback.Spelling.{Spells}

module _ (net : Net) where
  open net use {parse_url}

  all-append_one :
      (test : Str → Bool) (l : List Str) (u : Str) → all test (l ++ u ∷ []) ≡ all test l && test u
  all-append_one test [] u = ground arith
  all-append_one test (x ∷ l) u = ground (arith, all-append_one test l u)

  -- Two URIs with a host that reads as localhost, which agree but for the port.
  pub record PortVariant (registered requested : Str) : Type 0 where
    pub known : Url
    pub asked : Url
    pub known_parsed : parse_url registered ≡ some known
    pub asked_parsed : parse_url requested ≡ some asked
    pub known_http : known.scheme ≡ lit "http"
    pub asked_http : asked.scheme ≡ lit "http"
    pub known_local : Spells (lit "localhost") known.hostname
    pub asked_local : Spells (lit "localhost") asked.hostname
    pub same_path : known.path ≡ asked.path
    pub same_query : known.raw_query ≡ asked.raw_query

  -- A URI that is accepted as a redirect of a client.
  abbrev pub Accepted : List Str → Str → Str → Type 0
  Accepted registered requested u =
      In u registered
      ⊎ ((u ≡ requested) × (requested ≢ []) × (x : Str) × In x registered × PortVariant x requested)

  same_but_port-is_loopback_url :
      (reg req : Option Url) → same_but_port reg req ≡ true → is_loopback_url net req ≡ true
  unfolding same_but_port is_loopback_url
  same_but_port-is_loopback_url none req e = cc e
  same_but_port-is_loopback_url (some reg) none e = cc e
  same_but_port-is_loopback_url (some reg) (some req) e = ground (arith, e)

  variant-is_loopback_redirect :
      (l : List Str) (requested : Str)
      → any (λ x. matches_loopback_host_port net x requested) l ≡ true
      → is_loopback_redirect net requested ≡ true
  unfolding matches_loopback_host_port is_loopback_redirect
  variant-is_loopback_redirect [] requested e = cc e
  variant-is_loopback_redirect (x ∷ l) requested e =
      elim (Bool-cases (same_but_port (parse_url x) (parse_url requested))) [
        | inl first ↦ same_but_port-is_loopback_url (parse_url x) (parse_url requested) first
        | inr later ↦ variant-is_loopback_redirect l requested (rw later at e)
      ]

  all_redirects_loopback-append_one :
      (l : List Str) (u : Str)
      → is_loopback_redirect net u ≡ true
      → (x : Str)
      → all_redirects_loopback net ((x ∷ l) ++ u ∷ []) ≡ all_redirects_loopback net (x ∷ l)
  unfolding all_redirects_loopback
  all_redirects_loopback-append_one l u h x =
      all-append_one (is_loopback_redirect net) (x ∷ l) u ∙ rw h (ground arith)

  -- Accepting a variant does not change whether all redirect URIs of the client are loopback ones, which
  -- is what the consent page warns about.
  pub all_redirects_loopback-expand_loopback_redirects :
      (registered : List Str) (requested : Str)
      → all_redirects_loopback net (expand_loopback_redirects net registered requested)
        ≡ all_redirects_loopback net registered
  unfolding expand_loopback_redirects
  all_redirects_loopback-expand_loopback_redirects [] requested = ground arith
  all_redirects_loopback-expand_loopback_redirects (x ∷ l) requested =
      elim (Bool-cases (requested == [])) [
        | inl blank ↦ rw blank refl
        | inr filled ↦ elim (Bool-cases (any (λ c. c == requested) (x ∷ l))) [
          | inl exact ↦ rw (filled, exact) refl
          | inr unknown ↦
              elim (Bool-cases (any (λ c. matches_loopback_host_port net c requested) (x ∷ l))) [
                | inl variant ↦
                    rw (filled, unknown, variant)
                      (all_redirects_loopback-append_one l requested
                        (variant-is_loopback_redirect (x ∷ l) requested variant) x)
                | inr none_matches ↦ rw (filled, unknown, none_matches) refl
              ]
        ]
      ]
