-- ===== src/Repository/Clients/Count.antt =====
-- kvs.go: the clients that count towards the cap, and the walk that counts them.
use mcp_oauth_gateway.Base.{
  ℕ, zero, suc, Str, lit, Bool, true, false, ◌&&◌, ◌||◌, ◌==◌, nat_eq, ltb, str_ltb, sym, ◌∙◌,
  Option, none, some, List, [], ◌∷◌, ◌≡◌, refl, arith, inl, inr, if◌then◌else◌, leb, has_prefix,
  has_prefix-between, has_prefix-le, Bool-cases, Option-cases,
}
use mcp_oauth_gateway.Repository.SortedMap.{
  from, take_under, Above, Ascending, NotBefore, NotBefore-from, Ascending-from,
}
use mcp_oauth_gateway.Repository.Bolt.{Bolt, Laws}
use mcp_oauth_gateway.Repository.Models.{Json, Client}
use mcp_oauth_gateway.Repository.Clients.{
  client_prefix, counts_as_client, client_matches, count_entries, count_non_expired_clients,
  count_clients,
}

-- A registration with this end is in force at a time: it has no end, or its end is after it.
abbrev pub runs_at : ℕ → ℕ → Bool
runs_at now zero = true
runs_at now (suc before) = leb now before

module _ (bolt : Bolt) (json : Json) where
  open bolt use {Bucket}

  abbrev pub runs_client : ℕ → Option Client → Bool
  runs_client now none = false
  runs_client now (some c) = runs_at now c.expires_at

  -- The entries under `client-` that decode to a client in force, wherever they stand.
  unfoldable pub unexpired_in : ℕ → List (Str × Str) → ℕ
  unexpired_in now [] = 0
  unexpired_in now ((k, v) ∷ l) =
      let more = unexpired_in now l in
      if has_prefix k (lit "client-") && runs_client now (json.client.unmarshal v)
      then suc more
      else more

  counts_as_client-runs_at :
      (now : ℕ) (c : Client) → counts_as_client now c ≡ runs_at now c.expires_at
  unfolding counts_as_client
  counts_as_client-runs_at now c = by_end c.expires_at
    where
      by_end : (end : ℕ) → (end == 0) || ltb now end ≡ runs_at now end
      by_end zero = ground arith
      by_end (suc before) = ground arith

  client_matches-runs_client :
      (now : ℕ) (v : Str)
      → client_matches bolt json (counts_as_client now) v
        ≡ runs_client now (json.client.unmarshal v)
  unfolding client_matches
  client_matches-runs_client now v = elim (Option-cases (json.client.unmarshal v)) [
    | inl bad ↦ rw (bad, client_matches) refl
    | inr (c, good) ↦ rw (good, client_matches) (counts_as_client-runs_at now c)
  ]

  module _ (now : ℕ) where
    -- Past an entry that is not before the prefix and does not have it, no entry has it.
    unexpired_in-past :
        (j : Str) (l : List (Str × Str))
        → has_prefix j client_prefix ≡ false
        → str_ltb j client_prefix ≡ false
        → Above j l
        → unexpired_in now l ≡ 0
    unfolding unexpired_in
    unexpired_in-past j [] h n a = refl
    unexpired_in-past j ((k, v) ∷ l) h n (b, a) = elim (Bool-cases (has_prefix k client_prefix)) [
      | inl with_prefix ↦ cc (sym h ∙ has_prefix-between client_prefix j k n b with_prefix)
      | inr other ↦ rw other (unexpired_in-past j l h n a)
    ]

    count-take_under :
        (l : List (Str × Str))
        → Ascending l
        → NotBefore client_prefix l
        → count_entries bolt json
            (client_matches bolt json (counts_as_client now))
            (take_under client_prefix l)
          ≡ unexpired_in now l
    unfolding count_entries take_under unexpired_in
    count-take_under [] s n = refl
    count-take_under ((k, v) ∷ l) (a, s) (b, n) = elim (Bool-cases (has_prefix k client_prefix)) [
      | inl with_prefix ↦
          rw (with_prefix, client_matches-runs_client now v, count-take_under l s n) refl
      | inr other ↦ rw other (sym (unexpired_in-past k l other b a))
    ]

    unexpired_in-from :
        (l : List (Str × Str)) → unexpired_in now (from client_prefix l) ≡ unexpired_in now l
    unfolding unexpired_in from
    unexpired_in-from [] = refl
    unexpired_in-from ((k, v) ∷ l) = elim (Bool-cases (str_ltb k client_prefix)) [
      | inl before ↦ elim (Bool-cases (has_prefix k client_prefix)) [
        | inl with_prefix ↦ cc (sym before ∙ has_prefix-le client_prefix k with_prefix)
        | inr other ↦ rw (before, other) (unexpired_in-from l)
      ]
      | inr not_before ↦ rw not_before refl
    ]

    pub count_clients-unexpired_in :
        (laws : Laws bolt) (b : Bucket)
        → count_clients bolt json now b ≡ unexpired_in now (laws.entries b)
    unfolding count_clients count_non_expired_clients
    count_clients-unexpired_in laws b = rw (laws.seek_entries client_prefix b) (
        count-take_under (from client_prefix (laws.entries b))
          (Ascending-from client_prefix (laws.entries b) (laws.ascending b))
          (NotBefore-from client_prefix (laws.entries b) (laws.ascending b))
        ∙ unexpired_in-from (laws.entries b))
