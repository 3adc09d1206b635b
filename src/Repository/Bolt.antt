-- ===== src/Repository/Bolt.antt =====
-- bbolt as pkg/repository uses it: a record of operations, the laws of a sorted map that its
-- documentation promises, and the transactions of kvs.go.
pub mod Deletion
pub mod Writing
use mcp_oauth_gateway.Base.{
  Str, Bool, Option, none, some, List, [], ◌∷◌, ◌≡◌, ◌∙◌, if◌then◌else◌, ◌==◌, str_eq, has_prefix,
}
use mcp_oauth_gateway.Repository.SortedMap.{
  find, insert_sorted, remove, from, take_under, under, Ascending, find-insert_sorted, find-remove,
  find-under, Ascending-under,
}

-- A bucket and what can be done in a transaction. `none` is an error. `seek` answers what the cursor
-- walks over from the first key that is not before the given one; `commits` tells whether the
-- transaction's end succeeds.
pub record Bolt : Type 1 where
  pub Bucket : Type 0
  pub get : Str → Bucket → Option Str
  pub put : Str → Str → Bucket → Option Bucket
  pub delete : Str → Bucket → Option Bucket
  pub seek : Str → Bucket → List (Str × Str)
  pub commits : Bucket → Bool

-- The error values that callers tell apart: `fosite.ErrNotFound`, `ErrClientCapReached`, any other;
-- and a panic.
pub data Reply {ℓ} (A : Type ℓ) : Type ℓ where
  ok : A → Reply A
  not_found cap_reached failed panicked : Reply A

infixl 5 ◌>>=◌
unfoldable pub ◌>>=◌ {ℓ κ} : {A : Type ℓ} {B : Type κ} → Reply A → (A → Reply B) → Reply B
ok a >>= f = f a
not_found >>= f = not_found
cap_reached >>= f = cap_reached
failed >>= f = failed
panicked >>= f = panicked

-- An error that is not one of the callers'.
unfoldable pub or_failed {ℓ} : {A : Type ℓ} → Option A → Reply A
or_failed none = failed
or_failed (some a) = ok a

unfoldable pub or_panicked {ℓ} : {A : Type ℓ} → Option A → Reply A
or_panicked none = panicked
or_panicked (some a) = ok a

-- `json.Marshal` and `json.Unmarshal` at one type.
pub record Codec (A : Type 0) : Type 0 where
  pub marshal : A → Option Str
  pub unmarshal : Str → Option A

abbrev pub RoundTrips : {A : Type 0} → Codec A → Type 0
RoundTrips {A} c = (a : A) (s : Str) → c.marshal a ≡ some s → c.unmarshal s ≡ some a

module _ (bolt : Bolt) where
  open bolt use {Bucket, get, put, delete, seek, commits}

  pub record Laws : Type 0 where
    pub entries : Bucket → List (Str × Str)
    pub ascending : (b : Bucket) → Ascending (entries b)
    pub get_entries : (k : Str) (b : Bucket) → get k b ≡ find k (entries b)
    pub seek_entries : (k : Str) (b : Bucket) → seek k b ≡ from k (entries b)
    pub put_entries :
        (k v : Str) (b c : Bucket) → put k v b ≡ some c → entries c ≡ insert_sorted k v (entries b)
    pub delete_entries :
        (k : Str) (b c : Bucket) → delete k b ≡ some c → entries c ≡ remove k (entries b)

  -- `db.Update`: the body's bucket is the new one if the body and the commit succeed.
  unfoldable pub end_transaction : {A : Type 0} → Bucket → Reply (A × Bucket) → Reply A × Bucket
  end_transaction b (ok (a, c)) = if commits c then (ok a, c) else (failed, b)
  end_transaction b not_found = (not_found, b)
  end_transaction b cap_reached = (cap_reached, b)
  end_transaction b failed = (failed, b)
  end_transaction b panicked = (panicked, b)

  unfoldable pub db_update :
      {A : Type 0} → (Bucket → Reply (A × Bucket)) → Bucket → Reply A × Bucket
  unfolding end_transaction
  db_update body b = end_transaction b (body b)

  abbrev pub done : Option Bucket → Reply (Unit {0} × Bucket)
  done none = failed
  done (some c) = ok (tt, c)

  unfoldable pub create : {A : Type 0} → Codec A → Str → A → Bucket → Reply (Unit {0}) × Bucket
  unfolding db_update or_failed ◌>>=◌
  create codec key value b =
      db_update (λ b. or_failed (codec.marshal value) >>= λ data'. done (put key data' b)) b

  unfoldable pub decode : {A : Type 0} → Codec A → Option Str → Reply A
  decode codec none = not_found
  decode codec (some data') = elim (codec.unmarshal data') [ none ↦ failed | some a ↦ ok a ]

  unfoldable pub read : {A : Type 0} → Codec A → Str → Bucket → Reply A
  unfolding decode
  read codec key b = decode codec (get key b)

  unfoldable pub erase : Str → Bucket → Reply (Unit {0}) × Bucket
  unfolding db_update
  erase key b = db_update (λ b. done (delete key b)) b

  unfoldable pub overwrite : {A : Type 0} → Codec A → Str → A → Bucket → Reply (Unit {0}) × Bucket
  unfolding db_update or_failed ◌>>=◌
  overwrite codec key value b =
      db_update
        (λ b. elim (get key b) [
          | none ↦ not_found
          | some _ ↦ or_failed (codec.marshal value) >>= λ data'. done (put key data' b)
        ])
        b

  -- `for k, v := cursor.Seek(prefix); k != nil && bytes.HasPrefix(k, prefix); k, v = cursor.Next()`
  abbrev pub walk : Str → Bucket → List (Str × Str)
  walk prefix b = take_under prefix (seek prefix b)

  -- The keys of the records that a test picks.
  unfoldable pub stale_keys : (Str → Bool) → List (Str × Str) → List Str
  stale_keys stale [] = []
  stale_keys stale ((k, v) ∷ rest) =
      let more = stale_keys stale rest in if stale v then k ∷ more else more

  unfoldable pub delete_keys : List Str → Bucket → Option Bucket
  delete_keys [] b = some b
  delete_keys (k ∷ ks) b = elim (delete k b) [ none ↦ none | some c ↦ delete_keys ks c ]

  -- The transaction that collects keys under a prefix, then deletes them.
  unfoldable pub delete_under : Str → (Str → Bool) → Bucket → Reply (Unit {0}) × Bucket
  unfolding db_update stale_keys delete_keys
  delete_under prefix stale b =
      db_update (λ b. done (delete_keys (stale_keys stale (walk prefix b)) b)) b

  -- `if err != nil { return err }` between two steps on the store.
  unfoldable pub then_step :
      {A B : Type 0} → Reply A × Bucket → (A → Bucket → Reply B × Bucket) → Reply B × Bucket
  then_step (ok a, b) f = f a b
  then_step (not_found, b) f = (not_found, b)
  then_step (cap_reached, b) f = (cap_reached, b)
  then_step (failed, b) f = (failed, b)
  then_step (panicked, b) f = (panicked, b)
