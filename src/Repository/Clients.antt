-- ===== src/Repository/Clients.antt =====
-- pkg/repository/kvs.go: dynamically registered clients. `now` is what `time.Now()` answers; the two
-- readings of the clock in RegisterClient are `created_at` and `now`.
mod Count
pub mod Cap
pub mod Lookup
use mcp_oauth_gateway.Base.{
  ℕ, suc, Str, lit, Bool, true, false, not, ◌&&◌, ◌||◌, Option, none, some, List, [], ◌∷◌, ◌++◌,
  if◌then◌else◌, ◌==◌, nat_eq, ltb, leb,
}
use mcp_oauth_gateway.Repository.Bolt.{
  Bolt, Reply, ok, not_found, cap_reached, failed, panicked, ◌>>=◌, or_failed, done, db_update,
  read, overwrite, delete_under, walk, then_step,
}
use mcp_oauth_gateway.Repository.Models.{
  Json, Client, FositeClient, from_fosite_client, to_fosite_client,
}

abbrev pub client_prefix : Str
client_prefix = lit "client-"

-- A zero `expires_at` never expires; `max_clients` of zero (or below) is unlimited.
pub record ClientRegistration : Type 0 where
  pub client : FositeClient
  pub name : Str
  pub expires_at : ℕ
  pub max_clients : ℕ

-- `ExpiresAt.IsZero() || ExpiresAt.After(now)`
unfoldable pub counts_as_client : ℕ → Client → Bool
counts_as_client now c = c.expires_at == 0 || ltb now c.expires_at

-- `!ExpiresAt.IsZero() && ExpiresAt.Before(now)`
unfoldable pub client_expired : ℕ → Client → Bool
client_expired now c = not (c.expires_at == 0) && ltb c.expires_at now

module _ (bolt : Bolt) (json : Json) where
  open bolt use {Bucket, get, put}

  -- A record that does not decode passes no test.
  unfoldable pub client_matches : (Client → Bool) → Str → Bool
  client_matches match data' = elim (json.client.unmarshal data') [
    | none ↦ false
    | some c ↦ match c
  ]

  unfoldable pub count_entries : (Str → Bool) → List (Str × Str) → ℕ
  count_entries test [] = 0
  count_entries test ((k, v) ∷ rest) =
      let more = count_entries test rest in if test v then suc more else more

  unfoldable pub count_non_expired_clients : Bucket → ℕ → ℕ
  unfolding client_matches count_entries counts_as_client
  count_non_expired_clients b now =
      count_entries (client_matches (counts_as_client now)) (walk bolt client_prefix b)

  unfoldable pub is_absent : Option Str → Bool
  is_absent none = true
  is_absent (some _) = false

  unfoldable pub cap_applies : Str → ℕ → ℕ → Bucket → Bool
  unfolding count_non_expired_clients is_absent
  cap_applies key max now b =
      ltb 0 max && is_absent (get key b) && leb max (count_non_expired_clients b now)

  unfoldable pub stored_client : ℕ → ClientRegistration → Client
  stored_client created_at r = record (from_fosite_client r.client) {
    name = r.name;
    created_at = created_at;
    expires_at = r.expires_at;
  }

  -- The transaction of RegisterClient, with the client's data if it marshals.
  unfoldable pub put_client : Str → ℕ → ℕ → Option Str → Bucket → Reply (Unit {0}) × Bucket
  unfolding cap_applies db_update
  put_client key max now none b = (failed, b)
  put_client key max now (some data') b =
      db_update bolt
        (λ b. if cap_applies key max now b then cap_reached else done bolt (put key data' b)) b

  unfoldable pub register_client : ℕ → ℕ → ClientRegistration → Bucket → Reply (Unit {0}) × Bucket
  unfolding stored_client put_client
  register_client created_at now r =
      put_client (client_prefix ++ r.client.id) r.max_clients now
        (json.client.marshal (stored_client created_at r))

  unfoldable pub get_client : Str → ℕ → Bucket → Reply FositeClient
  unfolding read client_expired ◌>>=◌
  get_client id now b = read bolt json.client (client_prefix ++ id) b >>= λ c.
      if client_expired now c then not_found else ok (to_fosite_client c)

  unfoldable pub name_of : ℕ → Reply Client → Reply Str
  unfolding client_expired
  name_of now (ok c) = if client_expired now c then ok [] else ok c.name
  name_of now not_found = ok []
  name_of now cap_reached = cap_reached
  name_of now failed = failed
  name_of now panicked = panicked

  unfoldable pub get_client_name : Str → ℕ → Bucket → Reply Str
  unfolding name_of read
  get_client_name id now b = name_of now (read bolt json.client (client_prefix ++ id) b)

  -- Read and written in two transactions.
  unfoldable pub touch_client : Str → ℕ → Bucket → Reply (Unit {0}) × Bucket
  unfolding then_step read overwrite
  touch_client id expires_at b =
      then_step bolt (read bolt json.client (client_prefix ++ id) b, b)
        λ c b.
          if c.expires_at == 0
          then (ok tt, b)
          else overwrite bolt json.client (client_prefix ++ id)
              (record c { expires_at = expires_at }) b

  unfoldable pub count_clients : ℕ → Bucket → ℕ
  unfolding count_non_expired_clients
  count_clients now b = count_non_expired_clients b now

  unfoldable pub delete_expired_clients : ℕ → Bucket → Reply (Unit {0}) × Bucket
  unfolding delete_under client_matches client_expired
  delete_expired_clients now = delete_under bolt client_prefix (client_matches (client_expired now))
