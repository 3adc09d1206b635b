-- ===== src/Server/Sweeper/Store.antt =====
-- sweeper.go: a session within its lifetime stays in the store, whatever fails.
use mcp_oauth_gateway.Base.{
  ℕ, ◌+◌, ◌≤◌, Str, Bool, false, Option, none, some, ◌++◌, ltb, has_prefix, ◌≡◌, refl, sym, ◌∙◌,
  inl, inr, arith,
}
use mcp_oauth_gateway.Repository.Bolt.{
  Bolt, Laws, Reply, ok, not_found, cap_reached, failed, panicked, read, decode, or_panicked, ◌>>=◌,
}
use mcp_oauth_gateway.Repository.Bolt.Deletion.{found_and}
use mcp_oauth_gateway.Repository.Models.{
  Json, Sessions, FositeRequest, to_fosite_req, to_fosite_client,
}
use mcp_oauth_gateway.Repository.Tokens.{get_session, restore_session, request_matches}
use mcp_oauth_gateway.Repository.Tokens.Creation.{
  Kind, access_token, refresh_token, authorize_code, pkce_request, prefix_of, get_of,
  get_of-get_session,
}
use mcp_oauth_gateway.Repository.Clients.{
  client_prefix, client_matches, client_expired, delete_expired_clients,
}
use mcp_oauth_gateway.Repository.Maintenance.{delete_expired_sessions}
use mcp_oauth_gateway.Repository.Maintenance.Expiry.{
  Swept, under_and, delete_under-Swept, is_expired, delete_expired_sessions-Swept,
}
use mcp_oauth_gateway.Keys.Types.{Crypto}
use mcp_oauth_gateway.Keys.Manager.Lifetime.{}
use mcp_oauth_gateway.Ratelimit.Limiter.{Rate}
use mcp_oauth_gateway.Server.Sweeper.{Lifetimes, refresh_sweep_ttl, cutoff, sweep_store}

-- How long a record of a kind is kept, beside the margin.
abbrev pub ttl_of : Lifetimes → Kind → ℕ
ttl_of rc access_token = rc.access_token_ttl
ttl_of rc refresh_token = refresh_sweep_ttl rc
ttl_of rc authorize_code = rc.auth_code_ttl
ttl_of rc pkce_request = rc.auth_code_ttl

module _ (bolt : Bolt) (laws : Laws bolt) where
  open bolt use {Bucket, get}

  -- What is not to be removed stays, whatever was answered.
  Swept-kept :
      (gone : Str → Option Str → Bool) (b c : Bucket) (r : Reply (Unit {0})) (k : Str)
      → Swept bolt laws gone b r c
      → gone k (get k b) ≡ false
      → get k c ≡ get k b
  Swept-kept gone b c (ok _) k s alive = s k ∙ rw alive refl
  Swept-kept gone b c not_found k s alive = elim (s k) [
    | inl same ↦ same
    | inr (late, _) ↦ cc (sym late ∙ alive)
  ]
  Swept-kept gone b c cap_reached k s alive = elim (s k) [
    | inl same ↦ same
    | inr (late, _) ↦ cc (sym late ∙ alive)
  ]
  Swept-kept gone b c failed k s alive = elim (s k) [
    | inl same ↦ same
    | inr (late, _) ↦ cc (sym late ∙ alive)
  ]
  Swept-kept gone b c panicked k s alive = elim (s k) [
    | inl same ↦ same
    | inr (late, _) ↦ cc (sym late ∙ alive)
  ]

  module _ (json : Json) (lib : Sessions) where
    older : ℕ → Option Str → Bool
    older before o = found_and (request_matches bolt json lib (λ r. ltb r.requested_at before)) o

    -- Of a session, only the cutoff of its kind counts.
    is_expired-prefix_of :
        (rc : Lifetimes) (now : ℕ) (k : Kind) (s : Str) (o : Option Str)
        → is_expired bolt laws json lib
            (cutoff rc now rc.access_token_ttl)
            (cutoff rc now (refresh_sweep_ttl rc))
            (cutoff rc now rc.auth_code_ttl)
            (prefix_of k ++ s)
            o
          ≡ older (cutoff rc now (ttl_of rc k)) o
    unfolding has_prefix older request_matches
    is_expired-prefix_of rc now k s none = refl
    is_expired-prefix_of rc now access_token s (some v) = ground arith
    is_expired-prefix_of rc now refresh_token s (some v) = ground arith
    is_expired-prefix_of rc now authorize_code s (some v) = ground arith
    is_expired-prefix_of rc now pkce_request s (some v) = ground arith

    under_client-prefix_of :
        (test : Str → Bool) (k : Kind) (s : Str) (o : Option Str)
        → under_and bolt laws client_prefix test (prefix_of k ++ s) o ≡ false
    unfolding has_prefix
    under_client-prefix_of test access_token s o = refl
    under_client-prefix_of test refresh_token s o = refl
    under_client-prefix_of test authorize_code s o = refl
    under_client-prefix_of test pkce_request s o = refl

    older-get_session :
        (key : Str) (before : ℕ) (sess : Option lib.Session) (b : Bucket) (r : FositeRequest lib)
        → get_session bolt json lib key sess b ≡ ok r
        → older before (get key b) ≡ ltb r.requested_at before
    unfolding older get_session read decode or_panicked ◌>>=◌ restore_session to_fosite_req
        to_fosite_client request_matches
    older-get_session key before sess b r e = ground (arith, e)

    pub get_of-unchanged :
        (k : Kind) (s : Str) (sess : Option lib.Session) (b c : Bucket)
        → get (prefix_of k ++ s) c ≡ get (prefix_of k ++ s) b
        → get_of bolt json lib k s sess c ≡ get_of bolt json lib k s sess b
    unfolding get_session read
    get_of-unchanged k s sess b c e =
        get_of-get_session bolt json lib k s sess c
        ∙ rw e (sym (get_of-get_session bolt json lib k s sess b))

    -- A session within its lifetime is in the store as before.
    pub get-sweep_store :
        (rc : Lifetimes) (crypto : Crypto) (rate : Rate) (now : ℕ) (k : Kind) (s : Str)
        (sess : Option lib.Session) (b : Bucket) (r : FositeRequest lib)
        → get_of bolt json lib k s sess b ≡ ok r
        → now ≤ r.requested_at + ttl_of rc k + rc.clock_skew
        → get (prefix_of k ++ s) (sweep_store bolt json lib crypto rate rc now b)
          ≡ get (prefix_of k ++ s) b
    unfolding sweep_store delete_expired_clients
    get-sweep_store rc crypto rate now k s sess b r found early =
        let key = prefix_of k ++ s in
        let young : ltb r.requested_at (cutoff rc now (ttl_of rc k)) ≡ false =
          ground (arith, early) in
        let alive =
          is_expired-prefix_of rc now k s (get key b)
          ∙ older-get_session key (cutoff rc now (ttl_of rc k)) sess b r
              (sym (get_of-get_session bolt json lib k s sess b) ∙ found)
          ∙ young in
        let sessions =
          delete_expired_sessions bolt json lib (cutoff rc now rc.access_token_ttl)
            (cutoff rc now (refresh_sweep_ttl rc)) (cutoff rc now rc.auth_code_ttl) b in
        let test = client_matches bolt json (client_expired now) in
        Swept-kept (under_and bolt laws client_prefix test) sessions.1 _ _ key
          (delete_under-Swept bolt laws client_prefix test sessions.1)
          (under_client-prefix_of test k s (get key sessions.1))
        ∙ Swept-kept
            (is_expired bolt laws json lib (cutoff rc now rc.access_token_ttl)
              (cutoff rc now (refresh_sweep_ttl rc)) (cutoff rc now rc.auth_code_ttl))
            b sessions.1 sessions.0 key (delete_expired_sessions-Swept bolt laws json lib _ _ _ b)
            alive
