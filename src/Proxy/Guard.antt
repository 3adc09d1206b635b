-- ===== src/Proxy/Guard.antt =====
-- pkg/proxy/proxy.go: NewProxyRouter, handleProxy, isSSEGetRequest, and `tokenActiveChecker` of
-- pkg/mcp-proxy/router.go. A `range` over a map goes in the order of the list that stands for it; the
-- bodies of the refusals are left out.
pub mod Admitted
mod Asked
pub mod Passage
pub mod Spoofing
use mcp_oauth_gateway.Base.{
  ℕ, Str, lit, Bool, true, false, not, ◌&&◌, ◌||◌, Option, none, some, List, [], ◌∷◌, ◌++◌, map,
  any, if◌then◌else◌, ◌==◌, str_eq, has_prefix, split, drop_prefix, trim_space, to_lower, before,
  join_commas,
}
use mcp_oauth_gateway.Proxy.Headers.{Header, header_get, header_del, header_set, header_add}

-- The dynamic type of a claim: a string, a list whose items are strings or not, any other with its
-- `%v` form.
pub data Claim : Type 0 where
  text : Str → Claim
  items : List (Option Str) → Claim
  shown : Str → Claim

-- golang-jwt and go-jsonpointer. `parse_with_claims` takes the function that looks for a key by the
-- token's kid and algorithm, the issuer, the audience, the leeway, the time and the token; it answers
-- the claims of a valid token. `point` is `jsonpointer.Get`.
pub record Libraries : Type 1 where
  pub Public : Type 0
  pub Claims : Type 0
  pub Value : Type 0
  pub parse_with_claims : (Str → Str → Option Public) → Str → Str → ℕ → ℕ → Str → Option Claims
  pub as_value : Claims → Value
  pub point : Value → Str → Option Value
  pub claim : Value → Claim

-- What TokenActive answers: nil, `ErrTokenInactive`, any other error.
pub data Activity : Type 0 where
  active inactive broken : Activity

pub record Request : Type 0 where
  pub method : Str
  pub path : Str
  pub header : Header

-- A refusal has a status and, if there is one, an error code.
pub data Verdict : Type 0 where
  refused : ℕ → Str → Verdict
  forwarded : Request → Verdict

abbrev pub reserved_prefixes : List Str
reserved_prefixes = lit "/.idp/" ∷ lit "/.auth/" ∷ lit "/.well-known/" ∷ []

-- `strings.TrimSuffix s "/"`
unfoldable pub trim_slash : Str → Str
trim_slash [] = []
trim_slash (c ∷ []) = if (c ∷ []) == lit "/" then [] else c ∷ []
trim_slash (c ∷ (d ∷ s)) = c ∷ trim_slash (d ∷ s)

-- The media type of one value of the Accept header.
unfoldable pub media_type : Str → Str
unfolding trim_space to_lower before
media_type value = trim_space (before b';' (trim_space (map to_lower value)))

unfoldable pub is_sse_get_request : Request → Bool
unfolding header_get media_type split
is_sse_get_request r =
    r.method == lit "GET"
    && not (header_get (lit "Accept") r.header == [])
    && any (λ value. media_type value == lit "text/event-stream")
        (split b',' (header_get (lit "Accept") r.header))

-- `strings.Split(rawToken, ".")` has to have three parts.
unfoldable pub signature_of : List Str → Option Str
signature_of (_ ∷ (_ ∷ (s ∷ []))) = some s
signature_of _ = none

module _ (lib : Libraries) where
  open lib use {Public, Claims, Value, parse_with_claims, as_value, point, claim}

  -- The backend is left out; a nil TokenActive is `none`.
  pub record Config : Type 0 where
    pub external_url : Str
    pub verification_key : Str → Option (Public × Str)
    pub proxy_headers : List (Str × List Str)
    pub http_streaming_only : Bool
    pub forward_authorization_header : Bool
    pub header_mapping : List (Str × Str)
    pub header_mapping_base : Str
    pub clock_skew : ℕ
    pub token_active : Option (Str → Activity)

  unfoldable pub new_proxy_router : Config → Config
  unfolding trim_slash
  new_proxy_router cfg = record cfg { external_url = trim_slash cfg.external_url }

  -- The key function that `handleProxy` gives to the parser.
  unfoldable pub key_for : Config → Str → Str → Option Public
  key_for cfg kid token_alg = elim (cfg.verification_key kid) [
    | none ↦ none
    | some (pub', alg) ↦ if token_alg == alg then some pub' else none
  ]

  unfoldable pub check_token : Config → ℕ → Str → Option Claims
  unfolding key_for
  check_token cfg now token =
      parse_with_claims (key_for cfg) cfg.external_url cfg.external_url cfg.clock_skew now token

  unfoldable pub drop_headers : List (Str × Str) → Header → Header
  unfolding header_del
  drop_headers [] h = h
  drop_headers ((_, name) ∷ rest) h = drop_headers rest (header_del name h)

  unfoldable pub add_values : Str → List Str → Header → Header
  unfolding header_add
  add_values name [] h = h
  add_values name (v ∷ rest) h = add_values name rest (header_add name v h)

  unfoldable pub inject_headers : List (Str × List Str) → Header → Header
  unfolding header_del add_values
  inject_headers [] h = h
  inject_headers ((name, values) ∷ rest) h =
      inject_headers rest (add_values name values (header_del name h))

  unfoldable pub strings_of : List (Option Str) → List Str
  strings_of [] = []
  strings_of (none ∷ rest) = strings_of rest
  strings_of (some s ∷ rest) = s ∷ strings_of rest

  unfoldable pub claim_text : Claim → Str
  unfolding strings_of join_commas
  claim_text (text s) = s
  claim_text (items l) = join_commas (strings_of l)
  claim_text (shown s) = s

  -- A claim that is not there sets nothing.
  unfoldable pub set_claim : Str → Option Value → Header → Header
  unfolding claim_text header_set
  set_claim name none h = h
  set_claim name (some v) h = header_set name (claim_text (claim v)) h

  unfoldable pub map_claims : Value → List (Str × Str) → Header → Header
  unfolding set_claim
  map_claims source [] h = h
  map_claims source ((pointer, name) ∷ rest) h =
      map_claims source rest (set_claim name (point source pointer) h)

  unfoldable pub mapping_source : Config → Claims → Option Value
  mapping_source cfg claims =
      if cfg.header_mapping_base == lit "/"
      then some (as_value claims)
      else point (as_value claims) cfg.header_mapping_base

  -- Without a mapping the loop does nothing.
  unfoldable pub map_headers : Config → Option Value → Header → Header
  unfolding map_claims
  map_headers cfg none h = h
  map_headers cfg (some source) h = map_claims source cfg.header_mapping h

  unfoldable pub outgoing_header : Config → Claims → Header → Header
  unfolding header_del drop_headers inject_headers mapping_source map_headers
  outgoing_header cfg claims h = map_headers cfg (mapping_source cfg claims) (
      inject_headers cfg.proxy_headers (
        drop_headers cfg.header_mapping
          (if cfg.forward_authorization_header then h else header_del (lit "Authorization") h)))

  unfoldable pub is_active : Config → Str → Activity
  is_active cfg token = elim cfg.token_active [ none ↦ active | some check ↦ check token ]

  -- The end of `handleProxy`, with a valid token.
  unfoldable pub forward : Config → Claims → Request → Verdict
  unfolding is_sse_get_request outgoing_header
  forward cfg claims r =
      if cfg.http_streaming_only && is_sse_get_request r
      then refused 405 []
      else forwarded (record r { header = outgoing_header cfg claims r.header })

  unfoldable pub with_activity : Config → Claims → Activity → Request → Verdict
  unfolding forward
  with_activity cfg claims inactive r = refused 401 (lit "invalid_token")
  with_activity cfg claims broken r = refused 503 (lit "temporarily_unavailable")
  with_activity cfg claims active r = forward cfg claims r

  unfoldable pub with_claims : Config → Str → Option Claims → Request → Verdict
  unfolding is_active with_activity
  with_claims cfg token none r = refused 401 (lit "invalid_token")
  with_claims cfg token (some claims) r = with_activity cfg claims (is_active cfg token) r

  unfoldable pub bearer_token : Request → Str
  unfolding header_get drop_prefix
  bearer_token r = drop_prefix (header_get (lit "Authorization") r.header) (lit "Bearer ")

  unfoldable pub handle_proxy : Config → ℕ → Request → Verdict
  unfolding header_get bearer_token check_token with_claims
  handle_proxy cfg now r =
      if any (has_prefix r.path) reserved_prefixes
      then refused 404 (lit "not_found")
      else if has_prefix (header_get (lit "Authorization") r.header) (lit "Bearer ")
      then with_claims cfg (bearer_token r) (check_token cfg now (bearer_token r)) r
      else refused 401 []
