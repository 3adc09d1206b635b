-- ===== src/Repository/Clients/Cap.antt =====
-- kvs.go: the cap on dynamically registered clients.
use mcp_oauth_gateway.Base.{
  ℕ, suc, ◌<◌, ◌≤◌, Str, Bool, Option, none, some, List, [], ◌∷◌, ◌++◌, ◌≡◌, refl, sym, inl, inr,
  arith, str_eq, eq_iff, leb, str_ltb_trans, Bool-cases, Option-cases,
}
use mcp_oauth_gateway.Repository.SortedMap.{insert_sorted, from, take_under}
use mcp_oauth_gateway.Repository.Bolt.{
  Bolt, Laws, Reply, ok, failed, not_found, cap_reached, panicked, db_update, end_transaction,
}
use mcp_oauth_gateway.Repository.Models.{Json}
use mcp_oauth_gateway.Repository.Clients.Count.{unexpired_in, count_clients-unexpired_in}
use mcp_oauth_gateway.Repository.Clients.{
  client_prefix, ClientRegistration, counts_as_client, client_matches, count_entries,
  count_non_expired_clients, count_clients, is_absent, cap_applies, put_client, register_client,
}

module _ (bolt : Bolt) (json : Json) where
  open bolt use {Bucket, get, put, commits}

  module _ (test : Str → Bool) (p k v : Str) where
    count-take_under :
        (l : List (Str × Str))
        → count_entries bolt json test (take_under p (insert_sorted k v l))
          ≤ suc (count_entries bolt json test (take_under p l))
    unfolding count_entries take_under insert_sorted
    count-take_under [] = ground arith
    count-take_under ((j, w) ∷ l) = ground (arith, count-take_under l, eq_iff k j)

    count-from :
        (l : List (Str × Str))
        → count_entries bolt json test (take_under p (from p (insert_sorted k v l)))
          ≤ suc (count_entries bolt json test (take_under p (from p l)))
    unfolding count_entries take_under insert_sorted from
    count-from [] = ground arith
    count-from ((j, w) ∷ l) =
        ground (arith, count-from l, count-take_under l, eq_iff k j, str_ltb_trans k j p)

  module _ (laws : Laws bolt) where
    count_clients-put :
        (key data' : Str) (now : ℕ) (b c : Bucket)
        → put key data' b ≡ some c
        → count_clients bolt json now c ≤ suc (count_clients bolt json now b)
    unfolding count_clients count_non_expired_clients
    count_clients-put key data' now b c e =
        rw
          (
            laws.seek_entries client_prefix c,
            laws.seek_entries client_prefix b,
            laws.put_entries key data' b c e,
          )
          (count-from (client_matches bolt json (counts_as_client now)) client_prefix key data'
            (laws.entries b))

    -- The clients in force in a store.
    abbrev pub unexpired_clients : ℕ → Bucket → ℕ
    unexpired_clients now b = unexpired_in bolt json now (laws.entries b)

    unexpired_clients-put :
        (key data' : Str) (now : ℕ) (b c : Bucket)
        → put key data' b ≡ some c
        → unexpired_clients now c ≤ suc (unexpired_clients now b)
    unexpired_clients-put key data' now b c e =
        rw
          (
            sym (count_clients-unexpired_in bolt json now laws b),
            sym (count_clients-unexpired_in bolt json now laws c),
          )
          (count_clients-put key data' now b c e)

    -- What a registration under a new id leaves: no more clients than the cap if it is taken up, and the
    -- store as it was if not. It is turned down for the cap only when the cap is reached.
    abbrev pub Capped : ℕ → ℕ → Bucket → Reply (Unit {0}) → Bucket → Type 0
    Capped max now b (ok _) c = unexpired_clients now c ≤ max
    Capped max now b not_found c = c ≡ b
    Capped max now b cap_reached c = (c ≡ b) × (max ≤ unexpired_clients now b)
    Capped max now b failed c = c ≡ b
    Capped max now b panicked c = c ≡ b

    cap_applies-new :
        (key : Str) (max now : ℕ) (b : Bucket)
        → 0 < max
        → get key b ≡ none
        → cap_applies bolt json key max now b ≡ leb max (unexpired_clients now b)
    unfolding cap_applies count_clients is_absent
    cap_applies-new key max now b h e =
        rw (e, sym (count_clients-unexpired_in bolt json now laws b)) (ground arith)

    put_client-Capped :
        (key : Str) (content : Option Str) (max now : ℕ) (b : Bucket)
        → 0 < max
        → get key b ≡ none
        → Capped max now b
            (put_client bolt json key max now content b).0
            (put_client bolt json key max now content b).1
    unfolding put_client db_update end_transaction
    put_client-Capped key none max now b h e = refl
    put_client-Capped key (some data') max now b h e =
        rw (cap_applies-new key max now b h e)
          (elim (Bool-cases (leb max (unexpired_clients now b))) [
            | inl full ↦ rw full (refl, ground arith)
            | inr room ↦ elim (Option-cases (put key data' b)) [
              | inl bad ↦ rw (room, bad) refl
              | inr (c, p) ↦ elim (Bool-cases (commits c)) [
                | inl good ↦
                    rw (room, p, good) (ground (arith, unexpired_clients-put key data' now b c p))
                | inr bad ↦ rw (room, p, bad) refl
              ]
            ]
          ])

    -- A registration under an id that is not in the store leaves at most `max_clients` clients that
    -- have not expired, if it succeeds, and is turned down for the cap only when there are as many; an
    -- error changes nothing. A client has not expired if it has no end, or an end after the time.
    pub register_client-Capped :
        (created_at now : ℕ) (r : ClientRegistration) (b : Bucket)
        → 0 < r.max_clients
        → get (client_prefix ++ r.client.id) b ≡ none
        → Capped r.max_clients now b
            (register_client bolt json created_at now r b).0
            (register_client bolt json created_at now r b).1
    unfolding register_client
    register_client-Capped created_at now r b h e =
        put_client-Capped (client_prefix ++ r.client.id) _ r.max_clients now b h e
