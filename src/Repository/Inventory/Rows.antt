-- ===== src/Repository/Inventory/Rows.antt =====
-- inventory.go: the finished rows; kvs_inventory.go: ListClientGrants.
use mcp_oauth_gateway.Base.{
  ℕ, Str, Bool, false, not, ◌&&◌, none, some, List, [], ◌∷◌, if◌then◌else◌, ◌==◌, nat_eq, str_eq,
  ltb, str_ltb,
}
use mcp_oauth_gateway.Repository.Bolt.{Bolt, Reply, ok, failed, Codec, ◌>>=◌, walk}
use mcp_oauth_gateway.Repository.Models.{Json}
use mcp_oauth_gateway.Repository.Tokens.{access_token_prefix, refresh_token_prefix}
use mcp_oauth_gateway.Repository.Clients.{client_prefix}
use mcp_oauth_gateway.Repository.Inventory.{
  Grant, ClientGrants, ClientAccumulator, Inventory, access_token_kind, refresh_token_kind,
  add_token, add_registration,
}

unfoldable pub is_expired_registration : ℕ → ClientAccumulator → Bool
is_expired_registration now acc =
    acc.row.registered && not (acc.row.expires_at == 0) && ltb acc.row.expires_at now

-- Newest activity first, then by name.
unfoldable pub comes_before : ℕ → Str → ℕ → Str → Bool
comes_before a s b t = if a == b then str_ltb s t else ltb b a

unfoldable pub insert_grant : Grant → List Grant → List Grant
unfolding comes_before
insert_grant g [] = g ∷ []
insert_grant g (h ∷ l) =
    let later = insert_grant g l in
    if comes_before h.last_activity h.request_id g.last_activity g.request_id
    then h ∷ later
    else g ∷ h ∷ l

unfoldable pub sorted_grants : List (Str × Grant) → List Grant
unfolding insert_grant
sorted_grants [] = []
sorted_grants ((_, g) ∷ l) = insert_grant g (sorted_grants l)

unfoldable pub sorted_keys : List (Str × Unit {0}) → List Str
sorted_keys [] = []
sorted_keys ((k, _) ∷ l) = k ∷ sorted_keys l

unfoldable pub first_label : List Grant → Str
first_label [] = []
first_label (g ∷ l) = let later = first_label l in if g.label == [] then later else g.label

unfoldable pub finished_row : ClientAccumulator → ClientGrants
unfolding sorted_grants sorted_keys first_label
finished_row acc =
    let grants = sorted_grants acc.grants in
    record acc.row { grants = grants; scopes = sorted_keys acc.scopes; label = first_label grants }

unfoldable pub insert_row : ClientGrants → List ClientGrants → List ClientGrants
unfolding comes_before
insert_row r [] = r ∷ []
insert_row r (s ∷ l) =
    let later = insert_row r l in
    if comes_before s.last_activity s.client_id r.last_activity r.client_id
    then s ∷ later
    else r ∷ s ∷ l

unfoldable pub holds_nothing : ℕ → ClientAccumulator → Bool
unfolding is_expired_registration
holds_nothing now acc = elim acc.grants [ [] ↦ is_expired_registration now acc | _ ∷ _ ↦ false ]

unfoldable pub rows : ℕ → Inventory → List ClientGrants
unfolding holds_nothing finished_row insert_row
rows now [] = []
rows now ((_, acc) ∷ l) =
    let others = rows now l in
    if holds_nothing now acc then others else insert_row (finished_row acc) others

module _ (bolt : Bolt) (json : Json) where
  open bolt use {Bucket}

  -- A record that does not decode ends the listing.
  unfoldable pub scan_into :
      {A : Type 0}
      → Codec A
      → (A → Inventory → Inventory)
      → List (Str × Str)
      → Inventory
      → Reply Inventory
  scan_into codec add [] inv = ok inv
  scan_into codec add ((k, v) ∷ rest) inv = elim (codec.unmarshal v) [
    | none ↦ failed
    | some a ↦ scan_into codec add rest (add a inv)
  ]

  unfoldable pub list_client_grants : ℕ → Bucket → Reply (List ClientGrants)
  unfolding scan_into rows ◌>>=◌
  list_client_grants now b =
      scan_into json.request (add_token access_token_kind) (walk bolt access_token_prefix b) []
      >>= λ inv.
          scan_into json.request (add_token refresh_token_kind) (walk bolt refresh_token_prefix b)
            inv
          >>= λ inv.
              scan_into json.client add_registration (walk bolt client_prefix b) inv >>= λ inv.
              ok (rows now inv)
