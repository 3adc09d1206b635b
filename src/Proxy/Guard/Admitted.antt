-- ===== src/Proxy/Guard/Admitted.antt =====
-- proxy.go: the checks that a forwarded request went through, in the code's words.
use mcp_oauth_gateway.Base.{
  ℕ, Str, lit, true, false, ◌&&◌, Option, none, some, ◌≡◌, ◌↔◌, refl, sym, inl, inr, any,
  has_prefix, Bool-cases,
}
use mcp_oauth_gateway.Proxy.Headers.{header_get}
use mcp_oauth_gateway.Proxy.Guard.{
  Libraries, Config, Request, forwarded, Activity, active, inactive, broken, reserved_prefixes,
  bearer_token, check_token, is_active, is_sse_get_request, outgoing_header, forward, with_activity,
  with_claims, handle_proxy,
}

module _ (lib : Libraries) (cfg : Config lib) where
  open lib use {Claims}

  pub record Admitted (now : ℕ) (r q : Request) : Type 0 where
    pub claims : Claims
    pub unreserved : any (has_prefix r.path) reserved_prefixes ≡ false
    pub bearer : has_prefix (header_get (lit "Authorization") r.header) (lit "Bearer ") ≡ true
    pub valid : check_token lib cfg now (bearer_token lib r) ≡ some claims
    pub present : is_active lib cfg (bearer_token lib r) ≡ active
    pub streamable : (cfg.http_streaming_only && is_sse_get_request r) ≡ false
    pub sent : q ≡ record r { header = outgoing_header lib cfg claims r.header }

  forwarded-injective : (q s : Request) → forwarded q ≡ forwarded s → q ≡ s
  forwarded-injective q s e = cc e

  record Checked (token : Str) (o : Option Claims) (r q : Request) : Type 0 where
    claims : Claims
    valid : o ≡ some claims
    present : is_active lib cfg token ≡ active
    streamable : (cfg.http_streaming_only && is_sse_get_request r) ≡ false
    sent : q ≡ record r { header = outgoing_header lib cfg claims r.header }

  with_activity-active :
      (claims : Claims) (a : Activity) (r q : Request)
      → with_activity lib cfg claims a r ≡ forwarded q
      → (a ≡ active) × (forward lib cfg claims r ≡ forwarded q)
  unfolding with_activity
  with_activity-active claims inactive r q e = cc e
  with_activity-active claims broken r q e = cc e
  with_activity-active claims active r q e = (refl, e)

  forward-sent :
      (claims : Claims) (r q : Request)
      → forward lib cfg claims r ≡ forwarded q
      → ((cfg.http_streaming_only && is_sse_get_request r) ≡ false)
        × (q ≡ record r { header = outgoing_header lib cfg claims r.header })
  unfolding forward
  forward-sent claims r q e = elim (Bool-cases (cfg.http_streaming_only && is_sse_get_request r)) [
    | inl stream ↦ cc (rw stream at e)
    | inr other ↦ (other, sym (forwarded-injective _ q (rw other at e)))
  ]

  with_claims-Checked :
      (token : Str) (o : Option Claims) (r q : Request)
      → with_claims lib cfg token o r ≡ forwarded q
      → Checked token o r q
  unfolding with_claims
  with_claims-Checked token none r q e = cc e
  with_claims-Checked token (some claims) r q e =
      let (present, e') = with_activity-active claims (is_active lib cfg token) r q e in
      let (streamable, sent) = forward-sent claims r q e' in
      record {
        claims = claims;
        valid = refl;
        present = present;
        streamable = streamable;
        sent = sent;
      }

  Admitted-forwarded :
      (now : ℕ) (r q : Request) → handle_proxy lib cfg now r ≡ forwarded q → Admitted now r q
  unfolding handle_proxy
  Admitted-forwarded now r q e = elim (Bool-cases (any (has_prefix r.path) reserved_prefixes)) [
    | inl reserved ↦ cc (rw (reserved, handle_proxy) at e)
    | inr free ↦
        elim (Bool-cases (has_prefix (header_get (lit "Authorization") r.header) (lit "Bearer "))) [
          | inl bearer ↦
              let c =
                with_claims-Checked (bearer_token lib r)
                  (check_token lib cfg now (bearer_token lib r)) r q (rw (free, bearer) at e) in
              record {
                claims = c.claims;
                unreserved = free;
                bearer = bearer;
                valid = c.valid;
                present = c.present;
                streamable = c.streamable;
                sent = c.sent;
              }
          | inr other ↦ cc (rw (free, other) at e)
        ]
  ]

  forwarded-Admitted :
      (now : ℕ) (r q : Request) → Admitted now r q → handle_proxy lib cfg now r ≡ forwarded q
  unfolding handle_proxy with_claims with_activity forward
  forwarded-Admitted now r q p =
      rw (p.unreserved, p.bearer, p.valid, p.present, p.streamable, p.sent) refl

  pub handle_proxy-Admitted :
      (now : ℕ) (r q : Request) → (handle_proxy lib cfg now r ≡ forwarded q) ↔ Admitted now r q
  handle_proxy-Admitted now r q = (Admitted-forwarded now r q, forwarded-Admitted now r q)
