-- ===== src/Repository/Revoke/Access.antt =====
-- kvs_inventory.go: a revoked client holds nothing any more, and nobody else loses anything.
use mcp_oauth_gateway.Base.{
  ℕ, Str, Bool, false, not, ◌&&◌, Option, none, some, List, [], ◌∷◌, ◌++◌, any, ◌≡◌, refl, sym, ◌∙◌,
  inl, inr, arith, if◌then◌else◌, ◌==◌, str_eq, str_eqb, eq_iff, has_prefix, Bool-cases,
  Option-cases,
}
use mcp_oauth_gateway.Repository.Bolt.{Bolt, Laws, ok, not_found, ◌>>=◌, or_panicked, read, decode}
use mcp_oauth_gateway.Repository.Bolt.Deletion.{found_and}
use mcp_oauth_gateway.Repository.Models.{
  Json, Sessions, Request, FositeRequest, to_fosite_req, to_fosite_client,
}
use mcp_oauth_gateway.Repository.Tokens.{get_session, restore_session}
use mcp_oauth_gateway.Repository.Tokens.Creation.{
  Kind, access_token, refresh_token, authorize_code, pkce_request, prefix_of, get_of,
  get_of-get_session,
}
use mcp_oauth_gateway.Repository.Tokens.Revocation.{Survives, get_session-Survives}
use mcp_oauth_gateway.Repository.Clients.{client_prefix, get_client, is_absent}
use mcp_oauth_gateway.Repository.Revoke.{own_client_key, of_client, revoke_client}
use mcp_oauth_gateway.Repository.Revoke.Reading.{ok-injective}
use mcp_oauth_gateway.Repository.Revoke.Removal.{decodes_and, session_gone, Revoked, revoke-Revokes}

module _ (bolt : Bolt) (json : Json) (lib : Sessions) where
  open bolt use {Bucket, get}
  open lib use {Session}

  -- A request that is read has its record's client.
  get_session-of_client :
      (key id : Str) (sess : Option Session) (b : Bucket) (r : FositeRequest lib)
      → get_session bolt json lib key sess b ≡ ok r
      → found_and (decodes_and json.request (of_client bolt json id)) (get key b)
        ≡ (r.client.id == id)
  unfolding get_session read decode or_panicked ◌>>=◌ restore_session to_fosite_req to_fosite_client
  get_session-of_client key id sess b r e = ground (arith, e)

  any-own_client_key :
      (id k : Str) (b : Bucket) (clients : List Str)
      → own_client_key bolt json id b ≡ ok clients
      → any (λ j. j == k) clients
        ≡ str_eqb (client_prefix ++ id) k && not (is_absent bolt json (get (client_prefix ++ id) b))
  unfolding own_client_key is_absent
  any-own_client_key id k b clients e = elim (Option-cases (get (client_prefix ++ id) b)) [
    | inl absent ↦
        rw (absent, sym (ok-injective [] clients (rw (absent, own_client_key) at e))) (ground arith)
    | inr (v, present) ↦
        rw
          (
            present,
            sym (
                ok-injective ((client_prefix ++ id) ∷ []) clients
                  (rw (present, own_client_key) at e)),
          )
          (ground arith)
  ]

  -- No session's key is that of a client, nor that of a pending request.
  session_gone-prefix_of :
      (match : Request → Bool) (k : Kind) (s : Str) (o : Option Str)
      → session_gone bolt json match (prefix_of k ++ s) o
        ≡ found_and (decodes_and json.request match) o
  unfolding has_prefix
  session_gone-prefix_of match k s none = refl
  session_gone-prefix_of match access_token s (some v) = ground arith
  session_gone-prefix_of match refresh_token s (some v) = ground arith
  session_gone-prefix_of match authorize_code s (some v) = ground arith
  session_gone-prefix_of match pkce_request s (some v) = ground arith

  session_gone-client :
      (match : Request → Bool) (id : Str) (o : Option Str)
      → session_gone bolt json match (client_prefix ++ id) o ≡ false
  unfolding has_prefix
  session_gone-client match id none = refl
  session_gone-client match id (some v) = refl

  eqb-client-prefix_of :
      (id s : Str) (k : Kind) → str_eqb (client_prefix ++ id) (prefix_of k ++ s) ≡ false
  unfolding str_eqb
  eqb-client-prefix_of id s access_token = refl
  eqb-client-prefix_of id s refresh_token = refl
  eqb-client-prefix_of id s authorize_code = refl
  eqb-client-prefix_of id s pkce_request = refl

  eqb-client : (id j : Str) → str_eqb (client_prefix ++ id) (client_prefix ++ j) ≡ str_eqb id j
  unfolding str_eqb
  eqb-client id j = refl

  module _ (laws : Laws bolt) (id : Str) (b c : Bucket) (n : ℕ)
      (e : revoke_client bolt json id b ≡ (ok n, c)) where
    revoked :
        Revoked bolt json laws (of_client bolt json id) (some (own_client_key bolt json id)) b c
    unfolding revoke_client
    revoked = rw e at (
        revoke-Revokes bolt json laws (of_client bolt json id) (some (own_client_key bolt json id))
          b)

    lookup_session :
        (k : Kind) (s : Str)
        → get (prefix_of k ++ s) c ≡ (
            if found_and
              (decodes_and json.request (of_client bolt json id))
              (get (prefix_of k ++ s) b)
            then none
            else get (prefix_of k ++ s) b)
    lookup_session k s =
        let others =
          any-own_client_key id (prefix_of k ++ s) b revoked.clients (revoked.selected _ refl) in
        revoked.lookup (prefix_of k ++ s)
        ∙ rw
            (
              session_gone-prefix_of (of_client bolt json id) k s (get (prefix_of k ++ s) b),
              others,
              eqb-client-prefix_of id s k,
            )
            (ground arith)

    lookup_client :
        (j : Str)
        → get (client_prefix ++ j) c ≡ (if id == j then none else get (client_prefix ++ j) b)
    unfolding is_absent
    lookup_client j =
        let others =
          any-own_client_key id (client_prefix ++ j) b revoked.clients (revoked.selected _ refl) in
        revoked.lookup (client_prefix ++ j)
        ∙ rw
            (
              session_gone-client (of_client bolt json id) j (get (client_prefix ++ j) b),
              others,
              eqb-client id j,
            )
            (ground (arith, eq_iff id j))

    -- Once a client is revoked, a session of any kind is found exactly if it was found before and is
    -- of another client; the client itself is not found, and every other client is found as before.
    pub revoke_client-Survives :
        (k : Kind) (s : Str) (sess : Option Session) (j : Str) (now : ℕ)
        → Survives bolt json lib
            (λ r. r.client.id == id)
            (get_of bolt json lib k s sess b)
            (get_of bolt json lib k s sess c)
          × (get_client bolt json j now c
              ≡ (if id == j then not_found else get_client bolt json j now b))
    unfolding get_client read decode ◌>>=◌
    revoke_client-Survives k s sess j now = (
      rw (get_of-get_session bolt json lib k s sess b, get_of-get_session bolt json lib k s sess c)
          (get_session-Survives bolt json lib (prefix_of k ++ s)
            (decodes_and json.request (of_client bolt json id)) (λ r. r.client.id == id) sess b c
            (get_session-of_client (prefix_of k ++ s) id sess b) (lookup_session k s)),
      rw (lookup_client j)
          (elim (Bool-cases (str_eqb id j)) [ inl own ↦ rw own refl | inr other ↦ rw other refl ]),
    )
