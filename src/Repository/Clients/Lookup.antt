-- ===== src/Repository/Clients/Lookup.antt =====
-- kvs.go: a registered client is found until it expires.
use mcp_oauth_gateway.Base.{
  ℕ, zero, suc, Str, not, ◌&&◌, [], nat_eq, ltb, leb, arith, some, ◌++◌, ◌≡◌, refl, ◌∙◌, ap, inl,
  inr, if◌then◌else◌, ◌==◌, str_eq, str_eqb, Bool-cases, Option-cases,
}
use mcp_oauth_gateway.Repository.Bolt.{
  Bolt, Laws, Reply, ok, not_found, RoundTrips, ◌>>=◌, db_update, end_transaction,
}
use mcp_oauth_gateway.Repository.Bolt.Deletion.{get-put}
use mcp_oauth_gateway.Repository.Bolt.Writing.{Written, read-Written}
use mcp_oauth_gateway.Repository.Models.{Json, Client, FositeClient, to_fosite_client}
use mcp_oauth_gateway.Repository.Tokens.Creation.{to_fosite_client-from_fosite_client}
use mcp_oauth_gateway.Repository.Clients.{
  client_prefix, ClientRegistration, client_expired, cap_applies, stored_client, put_client,
  register_client, get_client, name_of, get_client_name,
}

module _ (bolt : Bolt) (json : Json) (laws : Laws bolt) where
  open bolt use {Bucket, get, put, commits}

  put_client-Written :
      (key : Str) (max now : ℕ) (client : Client) (b c : Bucket)
      → put_client bolt json key max now (json.client.marshal client) b ≡ (ok tt, c)
      → Written bolt laws json.client key client b c
  unfolding put_client db_update end_transaction
  put_client-Written key max now client b c e = elim (Option-cases (json.client.marshal client)) [
    | inl bad ↦ cc (rw (bad, put_client) at e)
    | inr (d, m) ↦ elim (Bool-cases (cap_applies bolt json key max now b)) [
      | inl full ↦ cc (rw (m, put_client, full) at e)
      | inr room ↦ elim (Option-cases (put key d b)) [
        | inl bad ↦ cc (rw (m, put_client, room, bad) at e)
        | inr (x, p) ↦ elim (Bool-cases (commits x)) [
          | inr bad ↦ cc (rw (m, put_client, room, p, bad) at e)
          | inl good ↦
              let same : x ≡ c = cc (rw (m, put_client, room, p, good) at e) in
              record {
                data' = d;
                marshalled = m;
                lookup = λ j. get-put bolt laws j key d b c (p ∙ ap some same);
              }
        ]
      ]
    ]
  ]

  eqb-client_prefix : (i j : Str) → str_eqb (client_prefix ++ i) (client_prefix ++ j) ≡ str_eqb i j
  unfolding str_eqb
  eqb-client_prefix i j = refl

  -- What is answered about a registration at a time: the first if it has no end or its end is not past.
  abbrev pub until {ℓ} : {A : Type ℓ} → ℕ → ℕ → A → A → A
  until zero now alive over = alive
  until (suc before) now alive over = if leb now (suc before) then alive else over

  abbrev pub answered : ℕ → ClientRegistration → Reply FositeClient
  answered now r = until r.expires_at now (ok r.client) not_found

  abbrev pub named : ℕ → ClientRegistration → Reply Str
  named now r = until r.expires_at now (ok r.name) (ok [])

  until-client_expired :
      {A : Type 0} (end now : ℕ) (alive over : A)
      → (if not (end == 0) && ltb end now then over else alive) ≡ until end now alive over
  until-client_expired zero now alive over = ground arith
  until-client_expired (suc before) now alive over = ground arith

  -- After a registration its client is found, by its id and with its name, at any time if it has no end
  -- and up to its end if it has one, and what is answered about another id does not change; the JSON of
  -- a client must round-trip.
  pub get_client-register_client :
      RoundTrips json.client
      → (created_at now later : ℕ) (r : ClientRegistration) (id : Str) (b c : Bucket)
      → register_client bolt json created_at now r b ≡ (ok tt, c)
      → (get_client bolt json id later c
          ≡ (if r.client.id == id then answered later r else get_client bolt json id later b))
        × (get_client_name bolt json id later c
            ≡ (if r.client.id == id then named later r else get_client_name bolt json id later b))
  unfolding register_client get_client get_client_name client_expired stored_client name_of ◌>>=◌
      to_fosite_client
  get_client-register_client round created_at now later r id b c e =
      let written =
        put_client-Written (client_prefix ++ r.client.id) r.max_clients now
          (stored_client bolt json created_at r) b c e in
      let found =
        read-Written bolt laws json.client (client_prefix ++ r.client.id)
          (stored_client bolt json created_at r) b c (client_prefix ++ id) round written in
      rw (found, eqb-client_prefix r.client.id id)
        (elim (Bool-cases (str_eqb r.client.id id)) [
          | inl same ↦ rw same (
            ap
                  (λ f.
                    if client_expired later (stored_client bolt json created_at r)
                    then not_found
                    else ok f)
                  (to_fosite_client-from_fosite_client r.client)
                ∙ until-client_expired r.expires_at later _ _,
            until-client_expired r.expires_at later _ _,
          )
          | inr other ↦ rw other (refl, refl)
        ])
