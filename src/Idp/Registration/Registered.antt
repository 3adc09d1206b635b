-- ===== src/Idp/Registration/Registered.antt =====
-- register.go with the store: what a registration leaves behind.
use mcp_oauth_gateway.Base.{
  ℕ, ◌+◌, ◌-◌, ◌/◌, ◌<◌, ◌≤◌, fields, none, ◌++◌, Str, lit, Option, some, [], ◌∷◌, if◌then◌else◌,
  ◌==◌, str_eq, nat_eq, ◌≡◌, refl, sym, ◌∙◌, ap, ap₂, subst, inl, inr, Option-cases,
}
use mcp_oauth_gateway.Cimd.Documents.{Url, ok}
use mcp_oauth_gateway.Repository.Bolt.{
  Bolt, Laws, Reply, not_found, cap_reached, failed, panicked, RoundTrips,
}
use mcp_oauth_gateway.Repository.Models.{Json, FositeClient}
use mcp_oauth_gateway.Repository.Clients.{register_client, get_client, get_client_name}
use mcp_oauth_gateway.Repository.Clients.Cap.{unexpired_clients, Capped, register_client-Capped}
use mcp_oauth_gateway.Repository.Clients.Lookup.{until, get_client-register_client}
use mcp_oauth_gateway.Idp.Registration.Secrets.{
  filled, filled_text, seconds, Secrets, or_default-filled, auth_method_or_default-filled_text,
  unix-seconds, expires_at-positive, secret_for-Secrets,
}
use mcp_oauth_gateway.Idp.Registration.{
  RegistrationRequest, RegistrationResponse, created, with_defaults, Env, secret_for, is_public,
  expires_at, unix, registration_of, response_of, answer_for, validate_registration, register_with,
  register_valid, handle_register,
}
use mcp_oauth_gateway.Idp.Registration.Validity.{
  IsValid, outcome_cases, validate_registration-IsValid,
}

module _ (parse_url : Str → Option Url) where
  module _ (bolt : Bolt) (json : Json) (laws : Laws bolt) where
    open bolt use {Bucket, get}

    -- The client that a registration stores, by what the answer tells.
    abbrev client_of : Env → RegistrationRequest → RegistrationResponse → Str → FositeClient
    client_of env r resp hashed = record {
      id = resp.client_id;
      secret = hashed;
      rotated_secrets = [];
      redirect_uris = resp.redirect_uris;
      grant_types = resp.grant_types;
      response_types = resp.response_types;
      scopes = fields r.scope;
      audience = env.external_url ∷ [];
      public = resp.token_endpoint_auth_method == lit "none";
    }

    -- A registration that is answered with a client. `end` is when it expires, zero for never.
    pub record Registered (env : Env) (r : RegistrationRequest) (b : Bucket)
        (resp : RegistrationResponse) (c : Bucket) : Type 0 where
      pub valid : IsValid parse_url (with_defaults r)
      pub hashed : Str
      pub end : ℕ
      pub issued : env.client_id ≡ some resp.client_id
      pub redirect_uris : resp.redirect_uris ≡ r.redirect_uris
      pub client_name : resp.client_name ≡ r.client_name
      pub grant_types : resp.grant_types ≡ filled r.grant_types (lit "authorization_code")
      pub response_types : resp.response_types ≡ filled r.response_types (lit "code")
      pub auth_method :
          resp.token_endpoint_auth_method
          ≡ filled_text r.token_endpoint_auth_method (lit "client_secret_basic")
      pub joined : env.join_path resp.client_id ≡ some resp.registration_client_uri
      pub issued_at : resp.client_id_issued_at ≡ env.answered_at / 1000000000 - 62135596800
      pub secret_expires_at :
          resp.client_secret_expires_at
          ≡ (if resp.token_endpoint_auth_method == lit "none" then 0 else seconds end)
      pub never : env.dcr_client_ttl ≡ 0 → end ≡ 0
      pub expiring : 0 < env.dcr_client_ttl → end ≡ env.expiry_from + env.dcr_client_ttl
      pub secrets : Secrets env resp.token_endpoint_auth_method resp.client_secret hashed
      pub found :
          (id : Str) (later : ℕ)
          → get_client bolt json id later c ≡ (
              if resp.client_id == id
              then until bolt json laws end later (Reply.ok (client_of env r resp hashed)) not_found
              else get_client bolt json id later b)
      pub known_as :
          (id : Str) (later : ℕ)
          → get_client_name bolt json id later c ≡ (
              if resp.client_id == id
              then until bolt json laws end later (Reply.ok resp.client_name) (Reply.ok [])
              else get_client_name bolt json id later b)
      pub few :
          0 < env.dcr_max_clients
          → get (lit "client-" ++ resp.client_id) b ≡ none
          → unexpired_clients bolt json laws env.counted_at c ≤ env.dcr_max_clients

    answer_for-created :
        (env : Env) (v : RegistrationRequest) (id secret : Str) (reply : Reply (Unit {0}))
        (resp : RegistrationResponse)
        → answer_for env v id secret reply ≡ created resp
        → (reply ≡ Reply.ok tt)
          × ((uri : Str) × (env.join_path id ≡ some uri) × (response_of env v id secret uri ≡ resp))
    unfolding answer_for
    answer_for-created env v id secret (Reply.ok u) resp h =
        elim (Option-cases (env.join_path id)) [
          | inl bad ↦ cc (rw (bad, answer_for) at h)
          | inr (uri, joined) ↦ (refl, (uri, joined, cc (rw (joined, answer_for) at h)))
        ]
    answer_for-created env v id secret not_found resp h = cc h
    answer_for-created env v id secret cap_reached resp h = cc h
    answer_for-created env v id secret failed resp h = cc h
    answer_for-created env v id secret panicked resp h = cc h

    register_valid-Registered :
        RoundTrips json.client
        → (env : Env) (r : RegistrationRequest) (b c : Bucket) (resp : RegistrationResponse)
        → IsValid parse_url (with_defaults r)
        → register_valid parse_url bolt json env (with_defaults r) b ≡ (created resp, c)
        → Registered env r b resp c
    unfolding register_valid register_with response_of registration_of unix
    register_valid-Registered round env r b c resp valid h = elim (Option-cases env.client_id) [
      | inl bad ↦ cc (rw (bad, register_valid) at h)
      | inr (id, issued) ↦ elim (Option-cases (secret_for env (is_public (with_defaults r)))) [
        | inl bad ↦ cc (rw (issued, register_valid, bad) at h)
        | inr ((secret, hashed), secrets) ↦
            let reg = registration_of env (with_defaults r) id hashed in
            let call = register_client bolt json env.created_at env.counted_at reg b in
            let answer : (answer_for env (with_defaults r) id secret call.0, call.1)
                ≡ (created resp, c) =
              rw (issued, register_valid, secrets) at h in
            let (done, (uri, joined, told)) =
              answer_for-created env (with_defaults r) id secret call.0 resp
                (ap (λ x. x.0) answer) in
            let stored : call ≡ (Reply.ok tt, c) =
              ap₂ (λ x y. (x, y)) done (ap (λ x. x.1) answer) in
            let lookup = λ (i : Str) (later : ℕ).
              get_client-register_client bolt json laws round env.created_at env.counted_at later
                reg i b c stored in
            subst (λ x. Registered env r b x c) told
              (record {
                valid = valid;
                hashed = hashed;
                end = expires_at env;
                issued = issued;
                redirect_uris = refl;
                client_name = refl;
                grant_types = or_default-filled r.grant_types (lit "authorization_code");
                response_types = or_default-filled r.response_types (lit "code");
                auth_method = auth_method_or_default-filled_text r.token_endpoint_auth_method;
                joined = joined;
                issued_at = refl;
                secret_expires_at =
                    ap (λ t. if is_public (with_defaults r) then 0 else t)
                      (unix-seconds (expires_at env));
                never = λ e. rw e refl;
                expiring = λ e. expires_at-positive env e;
                secrets =
                    secret_for-Secrets env (with_defaults r).token_endpoint_auth_method secret
                      hashed secrets;
                found = λ i later. (lookup i later).0;
                known_as = λ i later. (lookup i later).1;
                few = λ capped free.
                    subst (λ x. Capped bolt json laws env.dcr_max_clients env.counted_at b x.0 x.1)
                      stored
                      (register_client-Capped bolt json laws env.created_at env.counted_at reg b
                        capped free);
              })
      ]
    ]

    -- A registration that is answered with a client obeys the rules, with the defaults filled in; then the
    -- client is found under its new id, with the metadata that the answer names, the given scopes, the
    -- gateway as audience and the hash of the secret, until the configured lifetime from the registration
    -- on is over, without end if there is none, and what is found under another id does not change; a
    -- public client has no secret, any other the generated one. The answer tells the metadata, the name,
    -- the times in Unix seconds and the client's own URI. If there is a cap and the id is new, no more
    -- clients than the cap are in force afterwards. The JSON of a client must round-trip.
    pub handle_register-Registered :
        RoundTrips json.client
        → (env : Env) (r : RegistrationRequest) (b c : Bucket) (resp : RegistrationResponse)
        → handle_register parse_url bolt json env (some r) b ≡ (created resp, c)
        → Registered env r b resp c
    unfolding handle_register
    handle_register-Registered round env r b c resp h =
        elim (outcome_cases (validate_registration parse_url r)) [
          | inr (code, bad) ↦ cc (rw (bad, handle_register) at h)
          | inl (v, good) ↦
              let (same, valid) = validate_registration-IsValid parse_url r v good in
              register_valid-Registered round env r b c resp valid
                (rw (good ∙ ap ok (sym same), handle_register) at h)
        ]
