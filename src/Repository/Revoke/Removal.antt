-- ===== src/Repository/Revoke/Removal.antt =====
-- kvs_inventory.go: a revocation deletes the matching records, all of them or, after an error, none.
use mcp_oauth_gateway.Base.{
  ℕ, Str, Bool, true, false, ◌&&◌, ◌||◌, lit, Option, none, some, List, [], ◌∷◌, ◌++◌, any, ◌≡◌,
  refl, sym, ◌∙◌, ap, inl, inr, arith, if◌then◌else◌, ◌==◌, str_eq, has_prefix, Bool-cases,
  Option-cases,
}
use mcp_oauth_gateway.Repository.Bolt.{
  Bolt, Laws, Reply, ok, failed, not_found, cap_reached, panicked, Codec, ◌>>=◌, walk, stale_keys,
  delete_keys, db_update, end_transaction,
}
use mcp_oauth_gateway.Repository.Bolt.Deletion.{found_and, any-stale_keys-walk, get-delete_keys}
use mcp_oauth_gateway.Repository.Models.{Json, Request}
use mcp_oauth_gateway.Repository.Tokens.{authorize_request_prefix}
use mcp_oauth_gateway.Repository.Revoke.Reading.{
  bind-ok, ok-injective, reads, scan-reads, scan_sessions-reads,
}
use mcp_oauth_gateway.Repository.Revoke.{
  session_prefixes, scan_stale, scan_sessions, wraps, select_clients, stale_records, delete_stale,
  revoke,
}

any-append :
    {A : Type 0} (test : A → Bool) (xs ys : List A)
    → any test (xs ++ ys) ≡ any test xs || any test ys
any-append test [] ys = refl
any-append test (x ∷ xs) ys = ground (arith, any-append test xs ys)

-- The record decodes to something that matches.
abbrev pub decodes_and : {A : Type 0} → Codec A → (A → Bool) → Str → Bool
decodes_and codec match v = elim (codec.unmarshal v) [ none ↦ false | some a ↦ match a ]

module _ (bolt : Bolt) (json : Json) where
  open bolt use {Bucket, get, commits}

  scan_stale-stale_keys :
      {A : Type 0} (codec : Codec A) (match : A → Bool) (l : List (Str × Str)) (ks : List Str)
      → scan_stale bolt json codec match l ≡ ok ks
      → ks ≡ stale_keys bolt (decodes_and codec match) l
  unfolding scan_stale stale_keys
  scan_stale-stale_keys codec match [] ks e = sym (ok-injective [] ks e)
  scan_stale-stale_keys codec match ((k, v) ∷ l) ks e = elim (Option-cases (codec.unmarshal v)) [
    | inl bad ↦ cc (rw (bad, scan_stale) at e)
    | inr (a, m) ↦
        let (more, scanned, last) =
          bind-ok (scan_stale bolt json codec match l) _ ks (rw (m, scan_stale) at e) in
        let picked : stale_keys bolt (decodes_and codec match) ((k, v) ∷ l)
            ≡ (if match a then k ∷ more else more) =
          rw (m, decodes_and, sym (scan_stale-stale_keys codec match l more scanned)) refl in
        sym (ok-injective (if match a then k ∷ more else more) ks last) ∙ sym picked
  ]

  -- A record of an access token, a refresh token, a code or a PKCE request that matches, or one of a
  -- pending authorize request whose request matches.
  abbrev pub session_gone : (Request → Bool) → Str → Option Str → Bool
  session_gone match k none = false
  session_gone match k (some v) =
      (has_prefix k (lit "access_token-")
          || has_prefix k (lit "refresh_token-")
          || has_prefix k (lit "authorize_code-")
          || has_prefix k (lit "pkce_request-"))
        && elim (json.request.unmarshal v) [ none ↦ false | some r ↦ match r ]
      || has_prefix k (lit "authorize_request-") && elim (json.authorize_request.unmarshal v) [
        | none ↦ false
        | some pending ↦ elim pending.request [ none ↦ false | some r ↦ match r ]
      ]

  -- What the scans of a revocation pick.
  abbrev pub scanned : (Request → Bool) → Str → Option Str → Bool
  scanned match k o =
      any (has_prefix k) session_prefixes && found_and (decodes_and json.request match) o
      || has_prefix k authorize_request_prefix
        && found_and (decodes_and json.authorize_request (wraps bolt json match)) o

  pub scanned-session_gone :
      (match : Request → Bool) (k : Str) (o : Option Str)
      → scanned match k o ≡ session_gone match k o
  unfolding wraps
  scanned-session_gone match k none = ground arith
  scanned-session_gone match k (some v) = ground arith

  module _ (laws : Laws bolt) where
    any-scan_stale :
        {A : Type 0} (codec : Codec A) (match : A → Bool) (p : Str) (b : Bucket) (ks : List Str)
        (k : Str)
        → scan_stale bolt json codec match (walk bolt p b) ≡ ok ks
        → any (λ j. j == k) ks ≡ has_prefix k p && found_and (decodes_and codec match) (get k b)
    any-scan_stale codec match p b ks k e =
        rw (scan_stale-stale_keys codec match (walk bolt p b) ks e)
          (any-stale_keys-walk bolt laws (decodes_and codec match) k p b)

    any-scan_sessions :
        (match : Request → Bool) (ps : List Str) (b : Bucket) (ks : List Str) (k : Str)
        → scan_sessions bolt json match ps b ≡ ok ks
        → any (λ j. j == k) ks
          ≡ any (has_prefix k) ps && found_and (decodes_and json.request match) (get k b)
    unfolding scan_sessions
    any-scan_sessions match [] b ks k e = rw (sym (ok-injective [] ks e)) refl
    any-scan_sessions match (p ∷ ps) b ks k e =
        let (keys, scanned, e') =
          bind-ok (scan_stale bolt json json.request match (walk bolt p b))
            (λ keys. scan_sessions bolt json match ps b >>= λ more. ok (keys ++ more)) ks e in
        let (more, rest, last) =
          bind-ok (scan_sessions bolt json match ps b) (λ more. ok (keys ++ more)) ks e' in
        ap (any (λ j. j == k)) (sym (ok-injective (keys ++ more) ks last))
        ∙ any-append (λ j. j == k) keys more
        ∙ ground (
          arith,
          any-scan_stale json.request match p b keys k scanned,
          any-scan_sessions match ps b more k rest,
        )

    module _ (match : Request → Bool) (select : Option (Bucket → Reply (List Str)))
        (b : Bucket) where
      -- What a revocation that succeeds has read, which is all sessions and pending requests, and what it
      -- leaves: neither the matching records nor the selected clients, and all others.
      pub record Revoked (c : Bucket) : Type 0 where
        pub clients : List Str
        pub sessions_read :
            (k : Str)
            → (has_prefix k (lit "access_token-")
                || has_prefix k (lit "refresh_token-")
                || has_prefix k (lit "authorize_code-")
                || has_prefix k (lit "pkce_request-"))
              ≡ true
            → reads json.request (get k b) ≡ true
        pub pending_read :
            (k : Str)
            → has_prefix k (lit "authorize_request-") ≡ true
            → reads json.authorize_request (get k b) ≡ true
        pub none_selected : select ≡ none → clients ≡ []
        pub selected : (f : Bucket → Reply (List Str)) → select ≡ some f → f b ≡ ok clients
        pub lookup :
            (k : Str)
            → get k c ≡ (
                if session_gone match k (get k b) || any (λ j. j == k) clients
                then none
                else get k b)

      record Picked (ks : List Str) : Type 0 where
        clients : List Str
        sessions_read :
            (k : Str)
            → any (has_prefix k) session_prefixes ≡ true
            → reads json.request (get k b) ≡ true
        pending_read :
            (k : Str)
            → has_prefix k authorize_request_prefix ≡ true
            → reads json.authorize_request (get k b) ≡ true
        selected : select_clients bolt json select b ≡ ok clients
        picked :
            (k : Str)
            → any (λ j. j == k) ks ≡ scanned match k (get k b) || any (λ j. j == k) clients

      append_all-Picked :
          (sessions pending clients ks : List Str)
          → scan_sessions bolt json match session_prefixes b ≡ ok sessions
          → scan_stale bolt json json.authorize_request
              (wraps bolt json match)
              (walk bolt authorize_request_prefix b)
            ≡ ok pending
          → select_clients bolt json select b ≡ ok clients
          → (sessions ++ pending ++ clients) ≡ ks
          → Picked ks
      append_all-Picked sessions pending clients ks s p c e = record {
        clients = clients;
        sessions_read = scan_sessions-reads bolt json laws match session_prefixes b sessions s;
        pending_read =
            scan-reads bolt json laws json.authorize_request (wraps bolt json match)
              authorize_request_prefix b pending p;
        selected = c;
        picked = λ k.
            let test : Str → Bool = λ j. j == k in
            ap (any test) (sym e)
            ∙ any-append test (sessions ++ pending) clients
            ∙ rw
                (
                  any-append test sessions pending,
                  any-scan_sessions match session_prefixes b sessions k s,
                  any-scan_stale json.authorize_request (wraps bolt json match)
                      authorize_request_prefix b pending k p,
                )
                refl;
      }

      stale_records-Picked :
          (ks : List Str) → stale_records bolt json match select b ≡ ok ks → Picked ks
      unfolding stale_records
      stale_records-Picked ks e =
          let scan =
            scan_stale bolt json json.authorize_request (wraps bolt json match)
              (walk bolt authorize_request_prefix b) in
          let (sessions, s, e') =
            bind-ok (scan_sessions bolt json match session_prefixes b)
              (λ sessions. scan >>= λ pending. select_clients bolt json select b >>= λ clients.
                ok (sessions ++ pending ++ clients))
              ks e in
          let (pending, p, e'') =
            bind-ok scan
              (λ pending. select_clients bolt json select b >>= λ clients.
                ok (sessions ++ pending ++ clients))
              ks e' in
          let (clients, c, last) =
            bind-ok (select_clients bolt json select b)
              (λ clients. ok (sessions ++ pending ++ clients)) ks e'' in
          append_all-Picked sessions pending clients ks s p c
            (ok-injective (sessions ++ pending ++ clients) ks last)

      abbrev pub Revokes : Reply ℕ → Bucket → Type 0
      Revokes (ok n) c = Revoked c
      Revokes not_found c = c ≡ b
      Revokes cap_reached c = c ≡ b
      Revokes failed c = c ≡ b
      Revokes panicked c = c ≡ b

      delete_stale-Revokes :
          (ks : List Str)
          → stale_records bolt json match select b ≡ ok ks
          → Revokes
              (end_transaction bolt b (delete_stale bolt json b ks)).0
              (end_transaction bolt b (delete_stale bolt json b ks)).1
      unfolding delete_stale end_transaction select_clients
      delete_stale-Revokes ks e = elim (Option-cases (delete_keys bolt ks b)) [
        | inl bad ↦ rw (bad, delete_stale) refl
        | inr (c, deleted) ↦ elim (Bool-cases (commits c)) [
          | inl good ↦
              rw (deleted, delete_stale, good)
                (let q = stale_records-Picked ks e in
                  record {
                    clients = q.clients;
                    sessions_read = λ k h. q.sessions_read k (ground (arith, h));
                    pending_read = q.pending_read;
                    none_selected = λ e. sym (
                        ok-injective [] q.clients
                          (ap (λ o. select_clients bolt json o b) (sym e) ∙ q.selected));
                    selected = λ f e. ap (λ o. select_clients bolt json o b) (sym e) ∙ q.selected;
                    lookup = λ k.
                        get-delete_keys bolt laws k ks b c deleted
                        ∙ rw (q.picked k, scanned-session_gone match k (get k b)) refl;
                  })
          | inr bad ↦ rw (deleted, delete_stale, bad) refl
        ]
      ]

      -- A revocation succeeds only if all access and refresh tokens, codes, PKCE requests and pending
      -- authorize requests decode; then it deletes exactly those of them whose record, or whose request,
      -- matches, and the selected clients. One that fails changes nothing.
      pub revoke-Revokes :
          Revokes (revoke bolt json match select b).0 (revoke bolt json match select b).1
      unfolding revoke db_update
      revoke-Revokes = by_stale (stale_records bolt json match select b) refl
        where
          by_stale :
              (o : Reply (List Str))
              → stale_records bolt json match select b ≡ o
              → Revokes
                  (end_transaction bolt b (o >>= delete_stale bolt json b)).0
                  (end_transaction bolt b (o >>= delete_stale bolt json b)).1
          by_stale (ok ks) e = delete_stale-Revokes ks e
          by_stale not_found e = refl
          by_stale cap_reached e = refl
          by_stale failed e = refl
          by_stale panicked e = refl
