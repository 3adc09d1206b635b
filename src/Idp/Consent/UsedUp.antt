-- ===== src/Idp/Consent/UsedUp.antt =====
-- consent.go: what an approval takes, and that a request is approved once.
use mcp_oauth_gateway.Base.{
  Str, lit, true, not, ◌&&◌, Option, none, some, List, ◌==◌, str_eq, ◌≡◌, ◌≢◌, refl, sym, ◌∙◌, ap,
  subst, inl, inr, Bool-cases,
}
use mcp_oauth_gateway.Repository.Bolt.{
  Bolt, Laws, Reply, ok, not_found, cap_reached, failed, panicked, Codec,
}
use mcp_oauth_gateway.Repository.Models.{Json, Sessions, FositeRequest, FositeAuthorizeRequest}
use mcp_oauth_gateway.Repository.Tokens.{get_authorize_request, delete_authorize_request}
use mcp_oauth_gateway.Repository.Tokens.Deletion.{get_authorize_request-deleted}
use mcp_oauth_gateway.Auth.Session.{Session}
use mcp_oauth_gateway.Idp.Session.{IdpSession, sanitize_label}
use mcp_oauth_gateway.Idp.Pending.{has_authorize_request_id, remove_authorize_request_id}
use mcp_oauth_gateway.Idp.Consent.Label.{Labels, sanitize_label-Labels}
use mcp_oauth_gateway.Idp.Consent.Consented.{
  consented, Grants, grant_scopes-Grants, approved_session-consented,
}
use mcp_oauth_gateway.Idp.Consent.{
  grant_scopes, Provider, Answer, approved, Env, grant_requested, approved_session, respond,
  approve, then_delete, with_request, handle_authorization_return,
}
use mcp_oauth_gateway.Idp.Pending.Binding.{Writes, has-remove_authorize_request_id}

module _ (strings : Codec (List Str)) (bolt : Bolt) (json : Json) (lib : Sessions)
    (fosite : Provider lib bolt.Bucket) where
  open bolt use {Bucket, get, delete, commits}
  open fosite use {new_authorize_response}

  -- An approval.
  pub record Approved (env : Env) (ar_id name : Str) (s : Session) (b : Bucket)
      (response : List (Str × Str)) (cookie : Option Session) : Type 0 where
    pub begun_here : has_authorize_request_id strings s ar_id ≡ true
    pub request : FositeAuthorizeRequest lib
    pub pending : get_authorize_request bolt json lib ar_id b ≡ ok request
    pub scoped : FositeRequest lib
    pub scopes :
        Grants strings bolt json lib fosite request.request.requested_scope request.request scoped
    pub granted : FositeRequest lib
    pub audience : granted ≡ fosite.grant_audience scoped env.external_url
    pub jti : Str
    pub fresh : env.jti ≡ some jti
    pub label : Str
    pub labels : Labels name label
    pub issued : List (Str × Str)
    pub issued_for :
        (new_authorize_response
          (record request { request = granted })
          (consented env s jti label granted.client.id)
          b).0
        ≡ some issued
    pub identified : response ≡ fosite.add_parameter (lit "iss") env.external_url issued
    pub after : Session
    pub saved : cookie ≡ some after
    pub written : env.saves after ≡ true
    pub forgotten :
        (id : Str)
        → has_authorize_request_id strings after id
          ≡ (not (ar_id == id) && has_authorize_request_id strings s id)

  -- No browser gets an approval.
  abbrev pub UsedUp : Str → Bucket → Type 0
  UsedUp ar_id c =
      (env : Env) (name : Str) (s : Session) (response : List (Str × Str))
      → (handle_authorization_return strings bolt json lib fosite env ar_id name s c).0
        ≢ approved response

  then_delete_parts :
      (ar_id : Str) (x : Answer × Option Session) (b c : Bucket) (a : Answer)
      (cookie : Option Session) (d : Option (Reply (Unit {0})))
      → then_delete strings bolt json lib fosite ar_id (x, b) ≡ (a, cookie, d, c)
      → (x ≡ (a, cookie))
        × (d ≡ some (delete_authorize_request bolt json lib ar_id b).0)
        × ((delete_authorize_request bolt json lib ar_id b).1 ≡ c)
  unfolding then_delete
  then_delete_parts ar_id x b c a cookie d h =
      (ap (λ t. (t.0, t.1)) h, sym (ap (λ t. t.2) h), ap (λ t. t.3) h)

  module _ (laws : Laws bolt) where
    not_found-UsedUp :
        (ar_id : Str) (c : Bucket)
        → get_authorize_request bolt json lib ar_id c ≡ not_found
        → UsedUp ar_id c
    unfolding handle_authorization_return with_request
    not_found-UsedUp ar_id c gone env name s response h =
        elim (Bool-cases (has_authorize_request_id strings s ar_id)) [
          | inl known ↦ cc (rw (known, gone) at h)
          | inr unknown ↦ cc (rw unknown at h)
        ]

    module _ (writes : Writes strings) where
      respond-approved :
          (env : Env) (ar_id : Str) (s : Session) (o : Option (List (Str × Str)))
          (response : List (Str × Str)) (cookie : Option Session)
          → respond strings bolt json lib fosite env ar_id s o ≡ (approved response, cookie)
          → (issued : List (Str × Str)) × (o ≡ some issued)
            × (response ≡ fosite.add_parameter (lit "iss") env.external_url issued)
            × (cookie ≡ some (remove_authorize_request_id strings s ar_id))
            × (env.saves (remove_authorize_request_id strings s ar_id) ≡ true)
      unfolding respond
      respond-approved env ar_id s none response cookie h = cc h
      respond-approved env ar_id s (some issued) response cookie h =
          elim (Bool-cases (env.saves (remove_authorize_request_id strings s ar_id))) [
            | inr lost ↦ cc (rw lost at h)
            | inl saved ↦
                let e = rw saved at h in
                (issued, refl, cc (ap (λ t. t.0) e), sym (ap (λ t. t.1) e), saved)
          ]

      approve-Approved :
          (env : Env) (ar_id name : Str) (s : Session) (ar : FositeAuthorizeRequest lib)
          (o : Option IdpSession) (b : Bucket) (response : List (Str × Str))
          (cookie : Option Session)
          → has_authorize_request_id strings s ar_id ≡ true
          → get_authorize_request bolt json lib ar_id b ≡ ok ar
          → approved_session strings bolt json lib fosite env s
              (grant_requested strings bolt json lib fosite env.external_url ar)
              name
            ≡ o
          → (approve strings bolt json lib fosite env ar_id s
              (grant_requested strings bolt json lib fosite env.external_url ar)
              o
              b).0
            ≡ (approved response, cookie)
          → Approved env ar_id name s b response cookie
      unfolding approve approved_session grant_requested
      approve-Approved env ar_id name s ar none b response cookie known pending granted h = cc h
      approve-Approved env ar_id name s ar (some session) b response cookie known pending granted
            h =
          let (issued, issued_for, identified, saved, written) =
            respond-approved env ar_id s
              (new_authorize_response
                (grant_requested strings bolt json lib fosite env.external_url ar) session b).0
              response cookie h in
          let scoped =
            grant_scopes strings bolt json lib fosite ar.request.requested_scope ar.request in
          let granted_request = fosite.grant_audience scoped env.external_url in
          let (jti, fresh, same) =
            approved_session-consented strings bolt json lib fosite env s
              (record ar { request = granted_request }) name session granted in
          record {
            begun_here = known;
            request = ar;
            pending = pending;
            scoped = scoped;
            scopes =
                grant_scopes-Grants strings bolt json lib fosite ar.request.requested_scope
                  ar.request;
            granted = granted_request;
            audience = refl;
            jti = jti;
            fresh = fresh;
            label = sanitize_label name;
            labels = sanitize_label-Labels name;
            issued = issued;
            issued_for =
                subst
                  (λ x.
                    (new_authorize_response (record ar { request = granted_request }) x b).0
                    ≡ some issued)
                  same issued_for;
            identified = identified;
            after = remove_authorize_request_id strings s ar_id;
            saved = saved;
            written = written;
            forgotten = has-remove_authorize_request_id strings writes s ar_id;
          }

      with_request-UsedUp :
          (env : Env) (ar_id name : Str) (s : Session) (b c : Bucket) (a : Answer)
          (cookie : Option Session) (d : Option (Reply (Unit {0})))
          → has_authorize_request_id strings s ar_id ≡ true
          → (o : Reply (FositeAuthorizeRequest lib))
          → get_authorize_request bolt json lib ar_id b ≡ o
          → with_request strings bolt json lib fosite env ar_id name s o b ≡ (a, cookie, d, c)
          → ((response : List (Str × Str))
              → a ≡ approved response
              → Approved env ar_id name s b response cookie)
            × (d ≡ some (ok tt) → UsedUp ar_id c)
      unfolding with_request
      with_request-UsedUp env ar_id name s b c a cookie d known (ok ar) pending h =
          let granted = grant_requested strings bolt json lib fosite env.external_url ar in
          let session = approved_session strings bolt json lib fosite env s granted name in
          let call = approve strings bolt json lib fosite env ar_id s granted session b in
          let (answer, deletion, after) = then_delete_parts ar_id call.0 call.1 c a cookie d h in
          (
            (λ response same.
                approve-Approved env ar_id name s ar session b response cookie known pending refl
                  (answer ∙ ap (λ x. (x, cookie)) same)),
            (λ deleted. subst (UsedUp ar_id) after (
                not_found-UsedUp ar_id (delete_authorize_request bolt json lib ar_id call.1).1 (
                  get_authorize_request-deleted bolt laws json lib ar_id call.1
                    (cc (sym deletion ∙ deleted))))),
          )
      with_request-UsedUp env ar_id name s b c a cookie d known not_found pending h = (
        (λ response same. cc (ap (λ t. t.0) h ∙ same)),
        (λ deleted. cc (ap (λ t. t.2) h ∙ deleted)),
      )
      with_request-UsedUp env ar_id name s b c a cookie d known cap_reached pending h = (
        (λ response same. cc (ap (λ t. t.0) h ∙ same)),
        (λ deleted. cc (ap (λ t. t.2) h ∙ deleted)),
      )
      with_request-UsedUp env ar_id name s b c a cookie d known failed pending h = (
        (λ response same. cc (ap (λ t. t.0) h ∙ same)),
        (λ deleted. cc (ap (λ t. t.2) h ∙ deleted)),
      )
      with_request-UsedUp env ar_id name s b c a cookie d known panicked pending h = (
        (λ response same. cc (ap (λ t. t.0) h ∙ same)),
        (λ deleted. cc (ap (λ t. t.2) h ∙ deleted)),
      )

      -- An approval is given only to a browser that has begun the request, while it is pending, for all the
      -- scopes that it asks for and the gateway as audience, with the browser's user, or `user` if it has
      -- none, as the subject, and with a label of at most 64 printable characters, those of the name
      -- without spaces around them, which is the name itself if it is such; the answer names the gateway,
      -- and the browser's session forgets this request and no other. Once the deletion of the request has
      -- succeeded, whatever the answer was, no browser gets an approval of it.
      pub handle_authorization_return-UsedUp :
          (env : Env) (ar_id name : Str) (s : Session) (b c : Bucket) (a : Answer)
          (cookie : Option Session) (d : Option (Reply (Unit {0})))
          → handle_authorization_return strings bolt json lib fosite env ar_id name s b
            ≡ (a, cookie, d, c)
          → ((response : List (Str × Str))
              → a ≡ approved response
              → Approved env ar_id name s b response cookie)
            × (d ≡ some (ok tt) → UsedUp ar_id c)
      unfolding handle_authorization_return
      handle_authorization_return-UsedUp env ar_id name s b c a cookie d h =
          elim (Bool-cases (has_authorize_request_id strings s ar_id)) [
            | inr unknown ↦
                let e = rw unknown at h in
                (
                  (λ response same. cc (ap (λ t. t.0) e ∙ same)),
                  (λ deleted. cc (ap (λ t. t.2) e ∙ deleted)),
                )
            | inl known ↦
                with_request-UsedUp env ar_id name s b c a cookie d known
                  (get_authorize_request bolt json lib ar_id b) refl (rw known at h)
          ]
