-- ===== src/Repository/Tokens/Creation.antt =====
-- kvs.go: a session is read back as it was stored, and the four kinds do not interfere.
use mcp_oauth_gateway.Base.{
  Str, Bool, true, false, ◌&&◌, Option, none, some, List, [], ◌∷◌, ◌++◌, ◌≡◌, refl, sym, ◌∙◌, ap,
  inl, inr, if◌then◌else◌, ◌==◌, str_eq, str_eqb, Bool-cases, Option-cases,
}
use mcp_oauth_gateway.Repository.Bolt.{
  Bolt, Laws, Reply, ok, failed, RoundTrips, ◌>>=◌, or_panicked,
}
use mcp_oauth_gateway.Repository.Bolt.Writing.{Written, create-Written, read-Written}
use mcp_oauth_gateway.Repository.Models.{
  Json, Sessions, FositeClient, FositeRequest, copied, from_fosite_req, to_fosite_req,
  from_fosite_client, to_fosite_client, session_data_of,
}
use mcp_oauth_gateway.Repository.Tokens.{
  access_token_prefix, refresh_token_prefix, authorize_code_prefix, pkce_request_prefix,
  get_session, create_session, restore_session, create_access_token_session,
  get_access_token_session, create_refresh_token_session, get_refresh_token_session,
  create_authorize_code_session, get_authorize_code_session, create_pkce_request_session,
  get_pkce_request_session,
}

-- The four kinds of session.
pub data Kind : Type 0 where
  access_token refresh_token authorize_code pkce_request : Kind

abbrev pub same_kind : Kind → Kind → Bool
same_kind access_token access_token = true
same_kind refresh_token refresh_token = true
same_kind authorize_code authorize_code = true
same_kind pkce_request pkce_request = true
same_kind _ _ = false

abbrev pub prefix_of : Kind → Str
prefix_of access_token = access_token_prefix
prefix_of refresh_token = refresh_token_prefix
prefix_of authorize_code = authorize_code_prefix
prefix_of pkce_request = pkce_request_prefix

eqb-prefix_of :
    (k l : Kind) (s t : Str)
    → str_eqb (prefix_of k ++ s) (prefix_of l ++ t) ≡ same_kind k l && str_eqb s t
unfolding str_eqb
eqb-prefix_of access_token access_token s t = refl
eqb-prefix_of access_token refresh_token s t = refl
eqb-prefix_of access_token authorize_code s t = refl
eqb-prefix_of access_token pkce_request s t = refl
eqb-prefix_of refresh_token access_token s t = refl
eqb-prefix_of refresh_token refresh_token s t = refl
eqb-prefix_of refresh_token authorize_code s t = refl
eqb-prefix_of refresh_token pkce_request s t = refl
eqb-prefix_of authorize_code access_token s t = refl
eqb-prefix_of authorize_code refresh_token s t = refl
eqb-prefix_of authorize_code authorize_code s t = refl
eqb-prefix_of authorize_code pkce_request s t = refl
eqb-prefix_of pkce_request access_token s t = refl
eqb-prefix_of pkce_request refresh_token s t = refl
eqb-prefix_of pkce_request authorize_code s t = refl
eqb-prefix_of pkce_request pkce_request s t = refl

copied_id : (secrets : List Str) → copied secrets ≡ secrets
unfolding copied
copied_id [] = refl
copied_id (s ∷ secrets) = ap (λ r. s ∷ r) (copied_id secrets)

pub to_fosite_client-from_fosite_client :
    (c : FositeClient) → to_fosite_client (from_fosite_client c) ≡ c
unfolding to_fosite_client from_fosite_client
to_fosite_client-from_fosite_client c =
    ap (λ r. record c { rotated_secrets = r }) (copied_id _ ∙ copied_id c.rotated_secrets)

module _ (bolt : Bolt) (json : Json) (lib : Sessions) where
  open bolt use {Bucket}
  open lib use {Session}

  -- Storing and reading a session of a kind: the refresh token's access signature is `access`.
  abbrev pub create_of : Kind → Str → Str → FositeRequest lib → Bucket → Reply (Unit {0}) × Bucket
  create_of access_token access s = create_access_token_session bolt json lib s
  create_of refresh_token access s = create_refresh_token_session bolt json lib s access
  create_of authorize_code access s = create_authorize_code_session bolt json lib s
  create_of pkce_request access s = create_pkce_request_session bolt json lib s

  abbrev pub get_of : Kind → Str → Option Session → Bucket → Reply (FositeRequest lib)
  get_of access_token = get_access_token_session bolt json lib
  get_of refresh_token = get_refresh_token_session bolt json lib
  get_of authorize_code = get_authorize_code_session bolt json lib
  get_of pkce_request = get_pkce_request_session bolt json lib

  create_of-create_session :
      (k : Kind) (access s : Str) (req : FositeRequest lib) (b : Bucket)
      → create_of k access s req b ≡ create_session bolt json lib (prefix_of k ++ s) req b
  unfolding create_access_token_session create_refresh_token_session create_authorize_code_session
      create_pkce_request_session
  create_of-create_session access_token access s req b = refl
  create_of-create_session refresh_token access s req b = refl
  create_of-create_session authorize_code access s req b = refl
  create_of-create_session pkce_request access s req b = refl

  pub get_of-get_session :
      (k : Kind) (s : Str) (sess : Option Session) (b : Bucket)
      → get_of k s sess b ≡ get_session bolt json lib (prefix_of k ++ s) sess b
  unfolding get_access_token_session get_refresh_token_session get_authorize_code_session
      get_pkce_request_session
  get_of-get_session access_token s sess b = refl
  get_of-get_session refresh_token s sess b = refl
  get_of-get_session authorize_code s sess b = refl
  get_of-get_session pkce_request s sess b = refl

  to_fosite_req-from_fosite_req :
      (req : FositeRequest lib)
      → to_fosite_req lib (from_fosite_req lib req) ≡ some (record req { session = none })
  unfolding to_fosite_req from_fosite_req
  to_fosite_req-from_fosite_req req =
      ap (λ c. some (record req { client = c; session = none }))
        (to_fosite_client-from_fosite_client req.client)

  -- A request whose session's bytes are these, read into the session that the caller brings.
  abbrev pub read_back : FositeRequest lib → Str → Option Session → Reply (FositeRequest lib)
  read_back req bytes none = ok (record req { session = none })
  read_back req bytes (some s) = elim (lib.unmarshal_session bytes s) [
    | none ↦ failed
    | some read ↦ ok (record req { session = some read })
  ]

  -- A request as it was marshalled: one with no bytes has no session.
  abbrev pub written_back :
      FositeRequest lib → Option Str → Option Session → Reply (FositeRequest lib)
  written_back req none sess = ok (record req { session = none })
  written_back req (some []) sess = ok (record req { session = none })
  written_back req (some (c ∷ bytes)) sess = read_back req (c ∷ bytes) sess

  -- What a stored request reads as: the library's bytes of its session, read by the library into the
  -- session that the caller brings; without the one or the other there is no session.
  abbrev pub restored : FositeRequest lib → Option Session → Reply (FositeRequest lib)
  restored req sess = elim req.session [
    | none ↦ ok (record req { session = none })
    | some s ↦ written_back req (lib.marshal_session s) sess
  ]

  restored-restore_session :
      (req : FositeRequest lib) (sess : Option Session)
      → restore_session bolt json lib
          (record req { session = none })
          (session_data_of lib req.session)
          sess
        ≡ restored req sess
  unfolding restore_session session_data_of
  restored-restore_session req sess = elim (Option-cases req.session) [
    | inl absent ↦ rw absent refl
    | inr (s, present) ↦ rw present (by_bytes (lib.marshal_session s) sess)
  ]
    where
      by_bytes :
          (o : Option Str) (sess : Option Session)
          → restore_session bolt json lib
              (record req { session = none })
              (elim o [ none ↦ [] | some d ↦ d ])
              sess
            ≡ written_back req o sess
      by_bytes none sess = refl
      by_bytes (some []) sess = refl
      by_bytes (some (c ∷ bytes)) none = refl
      by_bytes (some (c ∷ bytes)) (some s) = refl

  -- After a session of some kind is stored, reading a session answers what was stored if it is of
  -- that kind and has that signature, and what it answered before if not: the request with its session's
  -- bytes read into the caller's, or without a session if there are no bytes or no session to read into.
  pub get_of-create_of :
      Laws bolt
      → RoundTrips json.request
      → (k l : Kind) (access s t : Str) (req : FositeRequest lib) (sess : Option Session)
      → (b c : Bucket) → create_of k access s req b ≡ (ok tt, c)
      → get_of l t sess c
        ≡ (if same_kind k l && s == t then restored req sess else get_of l t sess b)
  unfolding get_session create_session or_panicked ◌>>=◌ session_data_of from_fosite_req
  get_of-create_of laws round k l access s t req sess b c e =
      let written : Written bolt laws json.request (prefix_of k ++ s) (from_fosite_req lib req) b
          c =
        create-Written bolt laws json.request (prefix_of k ++ s) (from_fosite_req lib req) b c
          (sym (create_of-create_session k access s req b) ∙ e) in
      rw
        (
          get_of-get_session l t sess c,
          get_of-get_session l t sess b,
          read-Written bolt laws json.request _ _ b c (prefix_of l ++ t) round written,
          eqb-prefix_of k l s t,
        )
        (elim (Bool-cases (same_kind k l && str_eqb s t)) [
          | inl same ↦
              rw (same, to_fosite_req-from_fosite_req req) (restored-restore_session req sess)
          | inr other ↦ rw other refl
        ])
