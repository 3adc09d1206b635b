-- ===== src/Backend/Forwarding/Told.antt =====
-- transparent.go: what a backend is told about the peer.
use mcp_oauth_gateway.Base.{
  Str, lit, Bool, true, false, ◌||◌, Option, none, some, List, [], ◌∷◌, any, insert, if◌then◌else◌,
  ◌==◌, str_eq, str_eqb, eq_iff, ◌≡◌, refl, sym, ◌∙◌, ap, ◌⊎◌, inl, inr, arith, Bool-cases,
}
use mcp_oauth_gateway.Cimd.Addresses.{Prefix}
use mcp_oauth_gateway.Proxy.Headers.{
  Header, header_get, header_del, header_set, canonical, is_token, recase, recased,
}
use mcp_oauth_gateway.Backend.Forwarding.{
  Net, Inbound, parse_trusted_proxies, is_trusted, values_of, chained, set_forwarded_for,
  set_x_forwarded, keep_header, drop_forwarded, rewrite_as, rewrite,
}
use mcp_oauth_gateway.Backend.Forwarding.Trust.{Trusted, is_trusted-Trusted}

abbrev forwarding_names : List Str
forwarding_names =
    lit "X-Forwarded-For"
    ∷ lit "X-Forwarded-Host"
    ∷ lit "X-Forwarded-Proto"
    ∷ lit "X-Forwarded-Port"
    ∷ []

-- The four headers that name the peer; all others are as in `out`.
pub record Told (h : Header) (peers host proto port : Option (List Str)) (out : Header)
    : Type 0 where
  pub forwarded_for : h (lit "X-Forwarded-For") ≡ peers
  pub forwarded_host : h (lit "X-Forwarded-Host") ≡ host
  pub forwarded_proto : h (lit "X-Forwarded-Proto") ≡ proto
  pub forwarded_port : h (lit "X-Forwarded-Port") ≡ port
  pub others : (name : Str) → any (λ n. n == name) forwarding_names ≡ false → h name ≡ out name

-- The peer of the connection, after those that are given, if its address is one.
abbrev pub peers_after : List Str → Option (Str × Str) → Option (List Str)
peers_after prior none = none
peers_after prior (some (peer, port)) = some (chained prior peer ∷ [])

abbrev pub scheme_of : Bool → Str
scheme_of tls = if tls then lit "https" else lit "http"

-- The inbound value, if it is not empty.
abbrev pub given_or : Str → Header → Option (List Str) → Option (List Str)
given_or name inbound other =
    if header_get name inbound == [] then other else some (header_get name inbound ∷ [])

-- A name that is none of the four.
abbrev Other : Str → Type 0
Other name =
    ((canonical (lit "X-Forwarded-For") == name) ≡ false)
    × ((canonical (lit "X-Forwarded-Host") == name) ≡ false)
    × ((canonical (lit "X-Forwarded-Proto") == name) ≡ false)
    × ((canonical (lit "X-Forwarded-Port") == name) ≡ false)

or-false : (a b : Bool) → (a || b) ≡ false → (a ≡ false) × (b ≡ false)
or-false a b h = (ground (arith, h), ground (arith, h))

any-Other : (name : Str) → any (λ n. n == name) forwarding_names ≡ false → Other name
unfolding canonical is_token recase recased
any-Other name h =
    let (a, rest) = or-false _ _ h in
    let (b, more) = or-false _ _ rest in
    let (c, last) = or-false _ _ more in (a, b, c, (or-false _ _ last).0)

module _ (net : Net) (r : Inbound) (out : Header) where
  abbrev pub ToldOfConnection : Header → Type 0
  ToldOfConnection h =
      Told h (peers_after [] (net.split_host_port r.remote_addr)) (some (r.host ∷ []))
        (some (scheme_of r.tls ∷ [])) none out

  abbrev pub ToldOfChain : Header → Type 0
  ToldOfChain h =
      Told h
        (peers_after (values_of (r.header (lit "X-Forwarded-For")))
          (net.split_host_port r.remote_addr))
        (given_or (lit "X-Forwarded-Host") r.header (some (r.host ∷ [])))
        (given_or (lit "X-Forwarded-Proto") r.header (some (scheme_of r.tls ∷ [])))
        (given_or (lit "X-Forwarded-Port") r.header (out (lit "X-Forwarded-Port"))) out

  others-untrusted :
      (o : Option (Str × Str)) (name : Str)
      → net.split_host_port r.remote_addr ≡ o
      → Other name
      → rewrite_as net false r out name ≡ out name
  unfolding rewrite_as set_x_forwarded set_forwarded_for drop_forwarded header_set header_del
  others-untrusted none name e (a, b, c, d) = rw (e, a, b, c, d) refl
  others-untrusted (some (peer, port)) name e (a, b, c, d) = rw (e, a, b, c, d) refl

  untrusted-Told :
      (o : Option (Str × Str))
      → net.split_host_port r.remote_addr ≡ o
      → ToldOfConnection (rewrite_as net false r out)
  unfolding rewrite_as set_x_forwarded set_forwarded_for drop_forwarded header_set header_del
      canonical is_token recase recased str_eqb
  untrusted-Told none e = record {
    forwarded_for = rw e refl;
    forwarded_host = refl;
    forwarded_proto = refl;
    forwarded_port = rw e refl;
    others = λ name other. others-untrusted none name e (any-Other name other);
  }
  untrusted-Told (some (peer, port)) e = record {
    forwarded_for = rw e refl;
    forwarded_host = refl;
    forwarded_proto = refl;
    forwarded_port = rw e refl;
    others = λ name other. others-untrusted (some (peer, port)) name e (any-Other name other);
  }

  module _ (name : Str) (inbound h : Header) where
    keep_header-other :
        (k : Str) → (canonical name == k) ≡ false → keep_header name inbound h k ≡ h k
    unfolding keep_header header_set
    keep_header-other k e = elim (Bool-cases (header_get name inbound == [])) [
      | inl blank ↦ rw blank refl
      | inr given ↦ rw (given, e) refl
    ]

    keep_header-same :
        canonical name ≡ name → keep_header name inbound h name ≡ given_or name inbound (h name)
    unfolding keep_header header_set
    keep_header-same e = elim (Bool-cases (header_get name inbound == [])) [
      | inl blank ↦ rw blank refl
      | inr given ↦ rw (given, e, (eq_iff name name).1 refl) refl
    ]

  abbrev chain : Header
  chain = insert (lit "X-Forwarded-For") (values_of (r.header (lit "X-Forwarded-For"))) out

  others-extended :
      (o : Option (Str × Str)) (name : Str)
      → net.split_host_port r.remote_addr ≡ o
      → Other name
      → set_x_forwarded net r chain name ≡ out name
  unfolding set_x_forwarded set_forwarded_for header_set header_del
  others-extended none name e (a, b, c, d) = rw (e, a, b, c) refl
  others-extended (some (peer, port)) name e (a, b, c, d) = rw (e, a, b, c) refl

  -- Before the inbound values are put back.
  extended-Told :
      (o : Option (Str × Str))
      → net.split_host_port r.remote_addr ≡ o
      → Told
          (set_x_forwarded net r chain)
          (peers_after
            (values_of (r.header (lit "X-Forwarded-For")))
            (net.split_host_port r.remote_addr))
          (some (r.host ∷ []))
          (some (scheme_of r.tls ∷ []))
          (out (lit "X-Forwarded-Port"))
          out
  unfolding set_x_forwarded set_forwarded_for header_set header_del canonical is_token recase
      recased str_eqb
  extended-Told none e = record {
    forwarded_for = rw e refl;
    forwarded_host = refl;
    forwarded_proto = refl;
    forwarded_port = rw e refl;
    others = λ name other. others-extended none name e (any-Other name other);
  }
  extended-Told (some (peer, port)) e = record {
    forwarded_for = rw e refl;
    forwarded_host = refl;
    forwarded_proto = refl;
    forwarded_port = rw e refl;
    others = λ name other. others-extended (some (peer, port)) name e (any-Other name other);
  }

  kept_host : Header → Header
  kept_host h = keep_header (lit "X-Forwarded-Host") r.header h

  kept_proto : Header → Header
  kept_proto h = keep_header (lit "X-Forwarded-Proto") r.header h

  kept_port : Header → Header
  kept_port h = keep_header (lit "X-Forwarded-Port") r.header h

  kept_others :
      (h : Header) (k : Str)
      → (canonical (lit "X-Forwarded-Host") == k) ≡ false
      → (canonical (lit "X-Forwarded-Proto") == k) ≡ false
      → (canonical (lit "X-Forwarded-Port") == k) ≡ false
      → kept_port (kept_proto (kept_host h)) k ≡ h k
  unfolding kept_host kept_proto kept_port
  kept_others h k a b c =
      keep_header-other (lit "X-Forwarded-Port") r.header _ k c
      ∙ keep_header-other (lit "X-Forwarded-Proto") r.header _ k b
      ∙ keep_header-other (lit "X-Forwarded-Host") r.header h k a

  trusted-Told : ToldOfChain (rewrite_as net true r out)
  unfolding rewrite_as canonical is_token recase recased str_eqb kept_host kept_proto kept_port
  trusted-Told =
      let before = extended-Told (net.split_host_port r.remote_addr) refl in
      record {
        forwarded_for = kept_others _ (lit "X-Forwarded-For") refl refl refl ∙ before.forwarded_for;
        forwarded_host =
            keep_header-other (lit "X-Forwarded-Port") r.header _ (lit "X-Forwarded-Host") refl
            ∙ keep_header-other (lit "X-Forwarded-Proto") r.header _ (lit "X-Forwarded-Host") refl
            ∙ keep_header-same (lit "X-Forwarded-Host") r.header _ refl
            ∙ ap (given_or (lit "X-Forwarded-Host") r.header) before.forwarded_host;
        forwarded_proto =
            keep_header-other (lit "X-Forwarded-Port") r.header _ (lit "X-Forwarded-Proto") refl
            ∙ keep_header-same (lit "X-Forwarded-Proto") r.header _ refl
            ∙ ap (given_or (lit "X-Forwarded-Proto") r.header) (
                keep_header-other (lit "X-Forwarded-Host") r.header _ (lit "X-Forwarded-Proto") refl
                ∙ before.forwarded_proto);
        forwarded_port =
            keep_header-same (lit "X-Forwarded-Port") r.header _ refl
            ∙ ap (given_or (lit "X-Forwarded-Port") r.header) (
                keep_header-other (lit "X-Forwarded-Proto") r.header _ (lit "X-Forwarded-Port") refl
                ∙ keep_header-other (lit "X-Forwarded-Host") r.header _ (lit "X-Forwarded-Port")
                    refl
                ∙ before.forwarded_port);
        others = λ name other.
            let (a, b, c, d) = any-Other name other in
            kept_others _ name b c d ∙ before.others name other;
      }

  -- A peer that an entry of the settings names has its headers passed on, with the peer added to the chain;
  -- of any other, the backend is told only what the connection says, whatever the request claims. No other
  -- header changes.
  pub rewrite-Told :
      (entries : List Str) (trusted : List Prefix)
      → parse_trusted_proxies net entries ≡ some trusted
      → (Trusted net entries r.remote_addr × ToldOfChain (rewrite net trusted r out))
        ⊎ (¬ Trusted net entries r.remote_addr × ToldOfConnection (rewrite net trusted r out))
  unfolding rewrite
  rewrite-Told entries trusted h =
      let whom = is_trusted-Trusted net entries trusted r.remote_addr h in
      elim (Bool-cases (is_trusted net trusted r.remote_addr)) [
        | inl known ↦ inl (whom.0 known, rw known trusted-Told)
        | inr stranger ↦ inr (
          (λ t. cc (sym stranger ∙ whom.1 t)),
          rw stranger (untrusted-Told (net.split_host_port r.remote_addr) refl),
        )
      ]
