-- ===== src/Repository/Tokens/Revocation.antt =====
-- kvs.go: the revocation of a grant's tokens (RFC 7009), and the rotation of a refresh token.
use mcp_oauth_gateway.Base.{
  Str, Bool, false, ◌&&◌, Option, none, ◌++◌, ◌≡◌, ◌↔◌, refl, sym, ◌∙◌, inl, inr, arith,
  if◌then◌else◌, ◌==◌, str_eq, has_prefix, Bool-cases,
}
use mcp_oauth_gateway.Repository.Bolt.{
  Bolt, Laws, Reply, ok, not_found, ◌>>=◌, or_panicked, read, decode,
}
use mcp_oauth_gateway.Repository.Bolt.Deletion.{found_and, Removes, delete_under-Removes}
use mcp_oauth_gateway.Repository.Models.{Json, Sessions, Request, FositeRequest, to_fosite_req}
use mcp_oauth_gateway.Repository.Tokens.{
  access_token_prefix, refresh_token_prefix, get_session, request_matches, delete_matching,
  revoke_access_token, revoke_refresh_token, get_access_token_session, get_refresh_token_session,
  restore_session,
}

module _ (bolt : Bolt) (json : Json) (lib : Sessions) where
  open bolt use {Bucket, get}
  open lib use {Session}

  delete_matching-Removes :
      (laws : Laws bolt) (prefix : Str) (match : Request → Bool) (b : Bucket)
      → Removes bolt laws
          (λ k. has_prefix k prefix && found_and (request_matches bolt json lib match) (get k b))
          b
          (delete_matching bolt json lib prefix match b).0
          (delete_matching bolt json lib prefix match b).1
  unfolding delete_matching
  delete_matching-Removes laws prefix match b = delete_under-Removes bolt laws prefix _ b

  -- A request that is read has the id of its record.
  get_session-found :
      (key id : Str) (sess : Option Session) (b : Bucket) (r : FositeRequest lib)
      → get_session bolt json lib key sess b ≡ ok r
      → found_and (request_matches bolt json lib (λ q. q.id == id)) (get key b) ≡ (r.id == id)
  unfolding get_session read decode or_panicked ◌>>=◌ restore_session to_fosite_req request_matches
  get_session-found key id sess b r e = ground (arith, e)

  pub get_session-same :
      (key : Str) (sess : Option Session) (b c : Bucket)
      → get key c ≡ get key b
      → get_session bolt json lib key sess c ≡ get_session bolt json lib key sess b
  unfolding get_session read
  get_session-same key sess b c e = rw e refl

  pub get_session-missing :
      (key : Str) (sess : Option Session) (b : Bucket)
      → get key b ≡ none
      → get_session bolt json lib key sess b ≡ not_found
  unfolding get_session read decode ◌>>=◌
  get_session-missing key sess b e = rw e refl

  -- The session is found afterwards exactly if it was found before and is not one that goes.
  abbrev pub Survives :
      (FositeRequest lib → Bool) → Reply (FositeRequest lib) → Reply (FositeRequest lib) → Type 0
  Survives gone before after =
      (r : FositeRequest lib) → (after ≡ ok r) ↔ ((before ≡ ok r) × (gone r ≡ false))

  pub get_session-Survives :
      (key : Str) (test : Str → Bool) (gone : FositeRequest lib → Bool) (sess : Option Session)
      (b c : Bucket)
      → ((r : FositeRequest lib)
          → get_session bolt json lib key sess b ≡ ok r
          → found_and test (get key b) ≡ gone r)
      → get key c ≡ (if found_and test (get key b) then none else get key b)
      → Survives gone (get_session bolt json lib key sess b) (get_session bolt json lib key sess c)
  get_session-Survives key test gone sess b c found e r =
      elim (Bool-cases (found_and test (get key b))) [
        | inl removed ↦
            let missing = get_session-missing key sess c (e ∙ rw removed refl) in
            (λ h. cc (sym missing ∙ h), λ h. cc (sym (found r h.0) ∙ removed, h.1))
        | inr kept ↦
            let same = get_session-same key sess b c (e ∙ rw kept refl) in
            (λ h. (sym same ∙ h, sym (found r (sym same ∙ h)) ∙ kept), λ h. same ∙ h.0)
      ]

  module _ (laws : Laws bolt) where
    delete_matching-get :
        (prefix : Str) (match : Request → Bool) (b c : Bucket) (k : Str)
        → delete_matching bolt json lib prefix match b ≡ (ok tt, c)
        → get k c ≡ (
            if has_prefix k prefix && found_and (request_matches bolt json lib match) (get k b)
            then none
            else get k b)
    delete_matching-get prefix match b c k e =
        (rw e at (delete_matching-Removes laws prefix match b)) k

    -- Once both kinds of token of a grant are revoked, an access token's or a refresh token's session
    -- is found exactly if it was found before and is of another grant.
    pub revoke_tokens-Survives :
        (id signature : Str) (sess : Option Session) (b c d : Bucket)
        → revoke_access_token bolt json lib id b ≡ (ok tt, c)
        → revoke_refresh_token bolt json lib id c ≡ (ok tt, d)
        → Survives
            (λ r. r.id == id)
            (get_access_token_session bolt json lib signature sess b)
            (get_access_token_session bolt json lib signature sess d)
          × Survives
              (λ r. r.id == id)
              (get_refresh_token_session bolt json lib signature sess b)
              (get_refresh_token_session bolt json lib signature sess d)
    unfolding revoke_access_token revoke_refresh_token get_access_token_session
        get_refresh_token_session has_prefix
    revoke_tokens-Survives id signature sess b c d e f =
        let access = access_token_prefix ++ signature in
        let refresh = refresh_token_prefix ++ signature in
        let access_kept : get access d ≡ get access c =
          delete_matching-get refresh_token_prefix _ c d access f in
        let refresh_kept : get refresh c ≡ get refresh b =
          delete_matching-get access_token_prefix _ b c refresh e in
        (
          get_session-Survives access (request_matches bolt json lib (λ q. q.id == id))
              (λ r. r.id == id) sess b d (get_session-found access id sess b)
              (access_kept ∙ delete_matching-get access_token_prefix _ b c access e),
          get_session-Survives refresh (request_matches bolt json lib (λ q. q.id == id))
              (λ r. r.id == id) sess b d (get_session-found refresh id sess b)
              (delete_matching-get refresh_token_prefix _ c d refresh f ∙ rw refresh_kept refl),
        )
