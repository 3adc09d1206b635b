-- ===== src/Proxy/Guard/Passage.antt =====
-- proxy.go: which requests reach the backend.
use mcp_oauth_gateway.Base.{
  ℕ, Str, lit, true, false, ◌&&◌, Option, some, ◌++◌, ◌≡◌, ◌↔◌, refl, ◌∙◌, ap, subst, inl, inr,
  arith, has_prefix, drop_prefix, Bool-cases, Option-cases,
}
use mcp_oauth_gateway.Proxy.Headers.{header_get}
use mcp_oauth_gateway.Proxy.Guard.{
  Libraries, Config, Request, forwarded, Activity, active, bearer_token, check_token, is_active,
  is_sse_get_request, outgoing_header, key_for, handle_proxy,
}
use mcp_oauth_gateway.Proxy.Guard.Admitted.{Admitted, handle_proxy-Admitted}
use mcp_oauth_gateway.Proxy.Guard.Asked.{
  AsksForStream, is_sse_get_request-AsksForStream, AsksForStream-is_sse_get_request, split_prefix,
  has_prefix-append, drop_prefix-append, AnswersKeys, AnswersKeys-key_for, AnswersKeys-unique,
}

module _ (lib : Libraries) (cfg : Config lib) where
  open lib use {Public, Claims, parse_with_claims}

  -- All that a request has to satisfy, and what is sent for it.
  pub record Passes (now : ℕ) (r q : Request) : Type 0 where
    pub claims : Claims
    pub token : Str
    pub keys : Str → Str → Option Public
    pub not_idp : has_prefix r.path (lit "/.idp/") ≡ false
    pub not_auth : has_prefix r.path (lit "/.auth/") ≡ false
    pub not_well_known : has_prefix r.path (lit "/.well-known/") ≡ false
    pub bearer : header_get (lit "Authorization") r.header ≡ lit "Bearer " ++ token
    pub answers_keys : AnswersKeys lib cfg keys
    pub valid :
        parse_with_claims keys cfg.external_url cfg.external_url cfg.clock_skew now token
        ≡ some claims
    pub present : (check : Str → Activity) → cfg.token_active ≡ some check → check token ≡ active
    pub streamable : cfg.http_streaming_only ≡ true → AsksForStream r → ⊥
    pub sent : q ≡ record r { header = outgoing_header lib cfg claims r.header }

  is_active-some :
      (token : Str)
      → is_active lib cfg token ≡ active
      → (check : Str → Activity) → cfg.token_active ≡ some check
      → check token ≡ active
  unfolding is_active
  is_active-some token e check h = rw (h, is_active) at e

  active-some :
      (token : Str)
      → ((check : Str → Activity) → cfg.token_active ≡ some check → check token ≡ active)
      → is_active lib cfg token ≡ active
  unfolding is_active
  active-some token h = elim (Option-cases cfg.token_active) [
    | inl unset ↦ rw (unset, is_active) refl
    | inr (check, set) ↦ rw (set, is_active) (h check set)
  ]

  not_streamed :
      (r : Request)
      → (cfg.http_streaming_only && is_sse_get_request r) ≡ false
      → cfg.http_streaming_only ≡ true
      → AsksForStream r
      → ⊥
  not_streamed r e only asks = cc (rw (only, AsksForStream-is_sse_get_request r asks) at e)

  streamed :
      (r : Request)
      → (cfg.http_streaming_only ≡ true → AsksForStream r → ⊥)
      → (cfg.http_streaming_only && is_sse_get_request r) ≡ false
  streamed r h = elim (Bool-cases cfg.http_streaming_only) [
    | inr both ↦ rw both refl
    | inl only ↦ elim (Bool-cases (is_sse_get_request r)) [
      | inr other ↦ rw (only, other) refl
      | inl stream ↦ elim (h only (is_sse_get_request-AsksForStream r stream)) [ ]
    ]
  ]

  Admitted-Passes : (now : ℕ) (r q : Request) → Admitted lib cfg now r q → Passes now r q
  unfolding check_token bearer_token
  Admitted-Passes now r q a = record {
    claims = a.claims;
    token = bearer_token lib r;
    keys = key_for lib cfg;
    not_idp = ground (arith, a.unreserved);
    not_auth = ground (arith, a.unreserved);
    not_well_known = ground (arith, a.unreserved);
    bearer = split_prefix (header_get (lit "Authorization") r.header) (lit "Bearer ") a.bearer;
    answers_keys = AnswersKeys-key_for lib cfg;
    valid = a.valid;
    present = is_active-some (bearer_token lib r) a.present;
    streamable = not_streamed r a.streamable;
    sent = a.sent;
  }

  Passes-Admitted : (now : ℕ) (r q : Request) → Passes now r q → Admitted lib cfg now r q
  unfolding check_token bearer_token
  Passes-Admitted now r q p =
      let its : bearer_token lib r ≡ p.token =
        ap (λ s. drop_prefix s (lit "Bearer ")) p.bearer
        ∙ drop_prefix-append (lit "Bearer ") p.token in
      record {
        claims = p.claims;
        unreserved = rw (p.not_idp, p.not_auth, p.not_well_known) refl;
        bearer = rw p.bearer (has_prefix-append (lit "Bearer ") p.token);
        valid = rw its (
            subst
              (λ keys.
                parse_with_claims keys cfg.external_url cfg.external_url cfg.clock_skew now p.token
                ≡ some p.claims)
              (AnswersKeys-unique lib cfg p.keys p.answers_keys) p.valid);
        present = rw its (active-some p.token p.present);
        streamable = streamed r p.streamable;
        sent = p.sent;
      }

  -- A request reaches the backend exactly if its path is not reserved, it brings a bearer token that
  -- the JWT library accepts under the key and algorithm of the token's kid and that TokenActive, if
  -- there is one, reports as active, and it is no GET that lists an event stream where only HTTP
  -- streaming is allowed; what is sent is the request with its headers changed.
  pub handle_proxy-Passes :
      (now : ℕ) (r q : Request) → (handle_proxy lib cfg now r ≡ forwarded q) ↔ Passes now r q
  handle_proxy-Passes now r q =
      let admitted = handle_proxy-Admitted lib cfg now r q in
      ((λ e. Admitted-Passes now r q (admitted.0 e)), λ p. admitted.1 (Passes-Admitted now r q p))
