-- ===== src/Proxy/Guard/Spoofing.antt =====
-- proxy.go: a client cannot choose the headers that the gateway sets.
use mcp_oauth_gateway.Base.{
  Str, lit, Bool, true, false, not, ◌&&◌, ◌||◌, Option, none, some, List, [], ◌∷◌, any, empty, ◌≡◌,
  refl, ◌∙◌, inl, inr, arith, if◌then◌else◌, ◌==◌, str_eq, eq_iff, Bool-cases,
}
use mcp_oauth_gateway.Proxy.Headers.{Header, canonical, header_add, header_del, header_set}
use mcp_oauth_gateway.Proxy.Guard.{
  Libraries, Config, set_claim, drop_headers, add_values, inject_headers, map_claims, map_headers,
  mapping_source, outgoing_header,
}

module _ (lib : Libraries) where
  open lib use {Claims, Value, point, claim}

  -- The headers whose values are the gateway's.
  abbrev pub is_protected : Config lib → Str → Bool
  is_protected cfg k =
      not cfg.forward_authorization_header && canonical (lit "Authorization") == k
      || any (λ p. canonical p.1 == k) cfg.header_mapping
      || any (λ p. canonical p.0 == k) cfg.proxy_headers

  module _ (k : Str) where
    add_values-local :
        (name : Str) (values : List Str) (g h : Header)
        → g k ≡ h k
        → add_values lib name values g k ≡ add_values lib name values h k
    unfolding add_values header_add
    add_values-local name [] g h e = e
    add_values-local name (v ∷ rest) g h e =
        add_values-local name rest _ _ (elim (Bool-cases (canonical name == k)) [
          | inl hit ↦ rw (hit, (eq_iff (canonical name) k).0 hit, e) refl
          | inr miss ↦ rw miss e
        ])

    add_values-miss :
        (name : Str) (values : List Str) (h : Header)
        → (canonical name == k) ≡ false
        → add_values lib name values h k ≡ h k
    unfolding add_values header_add
    add_values-miss name [] h miss = refl
    add_values-miss name (v ∷ rest) h miss = add_values-miss name rest _ miss ∙ rw miss refl

    drop_headers-at :
        (l : List (Str × Str)) (h : Header)
        → drop_headers lib l h k ≡ (if any (λ p. canonical p.1 == k) l then none else h k)
    unfolding drop_headers header_del
    drop_headers-at [] h = refl
    drop_headers-at ((pointer, name) ∷ rest) h =
        drop_headers-at rest (header_del name h) ∙ ground arith

    inject_headers-local :
        (l : List (Str × List Str)) (g h : Header)
        → g k ≡ h k
        → inject_headers lib l g k ≡ inject_headers lib l h k
    unfolding inject_headers header_del
    inject_headers-local [] g h e = e
    inject_headers-local ((name, values) ∷ rest) g h e =
        inject_headers-local rest _ _
          (add_values-local name values (header_del name g) (header_del name h) (rw e refl))

    inject_headers-hit :
        (l : List (Str × List Str)) (g h : Header)
        → any (λ p. canonical p.0 == k) l ≡ true
        → inject_headers lib l g k ≡ inject_headers lib l h k
    unfolding inject_headers header_del
    inject_headers-hit [] g h e = cc e
    inject_headers-hit ((name, values) ∷ rest) g h e = elim (Bool-cases (canonical name == k)) [
      | inl hit ↦
          inject_headers-local rest _ _
            (add_values-local name values (header_del name g) (header_del name h) (rw hit refl))
      | inr miss ↦ inject_headers-hit rest _ _ (rw miss at e)
    ]

    inject_headers-miss :
        (l : List (Str × List Str)) (h : Header)
        → any (λ p. canonical p.0 == k) l ≡ false
        → inject_headers lib l h k ≡ h k
    unfolding inject_headers header_del
    inject_headers-miss [] h e = refl
    inject_headers-miss ((name, values) ∷ rest) h e = elim (Bool-cases (canonical name == k)) [
      | inl hit ↦ cc (rw hit at e)
      | inr miss ↦
          inject_headers-miss rest _ (rw miss at e)
          ∙ add_values-miss name values (header_del name h) miss
          ∙ rw miss refl
    ]

    set_claim-local :
        (name : Str) (o : Option Value) (g h : Header)
        → g k ≡ h k
        → set_claim lib name o g k ≡ set_claim lib name o h k
    unfolding set_claim header_set
    set_claim-local name none g h e = e
    set_claim-local name (some v) g h e = rw e refl

    set_claim-miss :
        (name : Str) (o : Option Value) (h : Header)
        → (canonical name == k) ≡ false
        → set_claim lib name o h k ≡ h k
    unfolding set_claim header_set
    set_claim-miss name none h miss = refl
    set_claim-miss name (some v) h miss = rw miss refl

    map_claims-local :
        (source : Value) (l : List (Str × Str)) (g h : Header)
        → g k ≡ h k
        → map_claims lib source l g k ≡ map_claims lib source l h k
    unfolding map_claims
    map_claims-local source [] g h e = e
    map_claims-local source ((pointer, name) ∷ rest) g h e =
        map_claims-local source rest _ _ (set_claim-local name (point source pointer) g h e)

    map_claims-miss :
        (source : Value) (l : List (Str × Str)) (h : Header)
        → any (λ p. canonical p.1 == k) l ≡ false
        → map_claims lib source l h k ≡ h k
    unfolding map_claims
    map_claims-miss source [] h e = refl
    map_claims-miss source ((pointer, name) ∷ rest) h e = elim (Bool-cases (canonical name == k)) [
      | inl hit ↦ cc (rw hit at e)
      | inr miss ↦
          map_claims-miss source rest _ (rw miss at e)
          ∙ set_claim-miss name (point source pointer) h miss
    ]

    module _ (cfg : Config lib) where
      -- The request's headers without those that are dropped.
      abbrev cleared : Header → Header
      cleared h =
          drop_headers lib cfg.header_mapping
            (if cfg.forward_authorization_header then h else header_del (lit "Authorization") h)

      cleared-at :
          (h : Header)
          → cleared h k ≡ (
              if not cfg.forward_authorization_header && canonical (lit "Authorization") == k
                || any (λ p. canonical p.1 == k) cfg.header_mapping
              then none
              else h k)
      unfolding header_del
      cleared-at h = elim (Bool-cases cfg.forward_authorization_header) [
        | inl on ↦ drop_headers-at cfg.header_mapping _ ∙ rw on refl
        | inr off ↦ drop_headers-at cfg.header_mapping _ ∙ rw off (ground arith)
      ]

      map_headers-local :
          (o : Option Value) (g h : Header)
          → g k ≡ h k
          → map_headers lib cfg o g k ≡ map_headers lib cfg o h k
      unfolding map_headers
      map_headers-local none g h e = e
      map_headers-local (some source) g h e = map_claims-local source cfg.header_mapping g h e

      map_headers-miss :
          (o : Option Value) (h : Header)
          → any (λ p. canonical p.1 == k) cfg.header_mapping ≡ false
          → map_headers lib cfg o h k ≡ h k
      unfolding map_headers
      map_headers-miss none h miss = refl
      map_headers-miss (some source) h miss = map_claims-miss source cfg.header_mapping h miss

      injected :
          (g h : Header)
          → is_protected cfg k ≡ true
          → inject_headers lib cfg.proxy_headers (cleared g) k
            ≡ inject_headers lib cfg.proxy_headers (cleared h) k
      injected g h e = elim (Bool-cases (any (λ p. canonical p.0 == k) cfg.proxy_headers)) [
        | inl hit ↦ inject_headers-hit cfg.proxy_headers (cleared g) (cleared h) hit
        | inr miss ↦
            let dropped : (not cfg.forward_authorization_header
                    && canonical (lit "Authorization") == k
                  || any (λ p. canonical p.1 == k) cfg.header_mapping)
                ≡ true =
              ground (arith, e, miss) in
            inject_headers-local cfg.proxy_headers (cleared g) (cleared h)
              (rw (cleared-at g, cleared-at h, dropped) refl)
      ]

  -- A header that the gateway sets or withholds is sent as if the client had sent no header at all, and
  -- any other is sent as the client sent it.
  pub outgoing_header-is_protected :
      (cfg : Config lib) (claims : Claims) (h : Header) (k : Str)
      → outgoing_header lib cfg claims h k
        ≡ (if is_protected cfg k then outgoing_header lib cfg claims empty k else h k)
  unfolding outgoing_header
  outgoing_header-is_protected cfg claims h k = elim (Bool-cases (is_protected cfg k)) [
    | inl kept_back ↦ rw kept_back (
        map_headers-local k cfg (mapping_source lib cfg claims) _ _
          (injected k cfg h empty kept_back))
    | inr passed_on ↦
        let free : (not cfg.forward_authorization_header && canonical (lit "Authorization") == k
              || any (λ p. canonical p.1 == k) cfg.header_mapping)
            ≡ false =
          ground (arith, passed_on) in
        let unmapped : any (λ p. canonical p.1 == k) cfg.header_mapping ≡ false =
          ground (arith, passed_on) in
        let plain : any (λ p. canonical p.0 == k) cfg.proxy_headers ≡ false =
          ground (arith, passed_on) in
        rw passed_on (
          map_headers-miss k cfg (mapping_source lib cfg claims) _ unmapped
          ∙ inject_headers-miss k cfg.proxy_headers _ plain
          ∙ (cleared-at k cfg h ∙ rw free refl))
  ]
