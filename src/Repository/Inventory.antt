-- ===== src/Repository/Inventory.antt =====
-- pkg/repository/inventory.go, and ListClientGrants of kvs_inventory.go: what each client holds. A map
-- is kept in the order of its keys, which `rows` does not let through. A count is an `int`, which no
-- store fills.
pub mod Counts
pub mod Rows
use mcp_oauth_gateway.Base.{
  ℕ, ◌+◌, Str, lit, Bool, true, false, not, ◌&&◌, ◌||◌, Option, none, some, List, [], ◌∷◌, ◌++◌,
  map, if◌then◌else◌, ◌==◌, nat_eq, str_eq, ltb, has_prefix, str_ltb,
}
use mcp_oauth_gateway.Repository.SortedMap.{find, insert_sorted}
use mcp_oauth_gateway.Repository.Bolt.{Bolt, Reply, ok, failed, Codec, ◌>>=◌, walk}
use mcp_oauth_gateway.Repository.Models.{Json, Client, Request}
use mcp_oauth_gateway.Repository.Tokens.{access_token_prefix, refresh_token_prefix}
use mcp_oauth_gateway.Repository.Clients.{client_prefix}

pub data ClientOrigin : Type 0 where
  origin_cimd origin_dcr : ClientOrigin

pub record Grant : Type 0 where
  pub request_id : Str
  pub label : Str
  pub requested_at : ℕ
  pub last_activity : ℕ
  pub scopes : List Str
  pub access_tokens : ℕ
  pub refresh_tokens : ℕ

pub record ClientGrants : Type 0 where
  pub client_id : Str
  pub label : Str
  pub origin : ClientOrigin
  pub registered : Bool
  pub registered_at : ℕ
  pub expires_at : ℕ
  pub redirect_uris : List Str
  pub scopes : List Str
  pub grants : List Grant
  pub access_tokens : ℕ
  pub refresh_tokens : ℕ
  pub first_activity : ℕ
  pub last_activity : ℕ

unfoldable pub origin_of : Str → ClientOrigin
unfolding has_prefix
origin_of client_id = if has_prefix client_id (lit "https://") then origin_cimd else origin_dcr

pub data TokenKind : Type 0 where
  access_token_kind refresh_token_kind : TokenKind

pub record ClientAccumulator : Type 0 where
  pub row : ClientGrants
  pub grants : List (Str × Grant)
  pub scopes : List (Str × Unit {0})
  pub snapshot_at : ℕ

abbrev pub Inventory : Type 0
Inventory = List (Str × ClientAccumulator)

unfoldable pub new_accumulator : Str → ClientAccumulator
unfolding origin_of
new_accumulator client_id = record {
  row = record {
    client_id = client_id;
    label = [];
    origin = origin_of client_id;
    registered = false;
    registered_at = 0;
    expires_at = 0;
    redirect_uris = [];
    scopes = [];
    grants = [];
    access_tokens = 0;
    refresh_tokens = 0;
    first_activity = 0;
    last_activity = 0;
  };
  grants = [];
  scopes = [];
  snapshot_at = 0;
}

unfoldable pub or_new : Str → Option ClientAccumulator → ClientAccumulator
unfolding new_accumulator
or_new client_id none = new_accumulator client_id
or_new client_id (some acc) = acc

unfoldable pub take_snapshot : Client → Request → ClientAccumulator → ClientAccumulator
take_snapshot client req acc =
    if acc.row.registered || ltb req.requested_at acc.snapshot_at then acc else record acc {
      row = record acc.row { redirect_uris = client.redirect_uris };
      snapshot_at = req.requested_at;
    }

unfoldable pub grant_for : Request → Option Grant → Grant
grant_for req none = record {
  request_id = req.id;
  label = [];
  requested_at = req.requested_at;
  last_activity = 0;
  scopes = [];
  access_tokens = 0;
  refresh_tokens = 0;
}
grant_for req (some g) =
    if ltb req.requested_at g.requested_at then record g { requested_at = req.requested_at } else g

abbrev pub or_requested : List Str → List Str → List Str
or_requested [] requested = requested
or_requested (s ∷ granted) requested = s ∷ granted

unfoldable pub granted_scopes : Request → List Str
granted_scopes req = or_requested req.granted_scope req.requested_scope

unfoldable pub add_scopes : List Str → List (Str × Unit {0}) → List (Str × Unit {0})
unfolding insert_sorted
add_scopes [] set = set
add_scopes (s ∷ rest) set = add_scopes rest (insert_sorted s tt set)

unfoldable pub name_grant : Request → Grant → Grant
name_grant req g =
    if g.label == [] && not (req.label == []) then record g { label = req.label } else g

unfoldable pub count_grant : TokenKind → Grant → Grant
count_grant access_token_kind g = record g { access_tokens = g.access_tokens + 1 }
count_grant refresh_token_kind g = record g { refresh_tokens = g.refresh_tokens + 1 }

unfoldable pub count_row : TokenKind → ClientGrants → ClientGrants
count_row access_token_kind row = record row { access_tokens = row.access_tokens + 1 }
count_row refresh_token_kind row = record row { refresh_tokens = row.refresh_tokens + 1 }

abbrev pub later_of : ℕ → ℕ → ℕ
later_of a b = if ltb a b then b else a

unfoldable pub activity_of_request : Request → ℕ
activity_of_request req = later_of req.requested_at req.rotated_at

unfoldable pub active_grant : Request → Grant → Grant
unfolding activity_of_request
active_grant req g = record g { last_activity = later_of g.last_activity (activity_of_request req) }

unfoldable pub active_row : Request → ClientGrants → ClientGrants
unfolding activity_of_request
active_row req row = record row {
  last_activity = later_of row.last_activity (activity_of_request req);
  first_activity =
      if row.first_activity == 0 || ltb req.requested_at row.first_activity
      then req.requested_at
      else row.first_activity;
}

-- One token record of a client.
unfoldable pub fold_token : TokenKind → Client → Request → ClientAccumulator → ClientAccumulator
unfolding take_snapshot grant_for granted_scopes add_scopes name_grant count_grant count_row
    active_grant active_row insert_sorted find
fold_token kind client req acc =
    let snapped = take_snapshot client req acc in
    let grant =
      active_grant req
        (count_grant kind (name_grant req (grant_for req (find req.id acc.grants)))) in
    record snapped {
      row = active_row req (count_row kind snapped.row);
      grants = insert_sorted req.id grant acc.grants;
      scopes = add_scopes (granted_scopes req) acc.scopes;
    }

unfoldable pub add_token_of : TokenKind → Option Client → Request → Inventory → Inventory
unfolding fold_token or_new insert_sorted find
add_token_of kind none req inv = inv
add_token_of kind (some client) req inv =
    if client.id == []
    then inv
    else insert_sorted client.id
        (fold_token kind client req (or_new client.id (find client.id inv))) inv

unfoldable pub add_token : TokenKind → Request → Inventory → Inventory
unfolding add_token_of
add_token kind req inv = add_token_of kind req.client req inv

unfoldable pub add_registration : Client → Inventory → Inventory
unfolding or_new insert_sorted find
add_registration client inv =
    if client.id == []
    then inv
    else let acc = or_new client.id (find client.id inv) in
      insert_sorted client.id
        (record acc {
          row = record acc.row {
            registered = true;
            registered_at = client.created_at;
            expires_at = client.expires_at;
            redirect_uris = client.redirect_uris;
          };
        })
        inv
