-- ===== src/Repository/Bolt/Writing.antt =====
-- kvs.go: what `create`, `update` and `delete` leave of the bucket.
use mcp_oauth_gateway.Base.{
  Str, some, ◌≡◌, refl, inl, inr, if◌then◌else◌, ◌==◌, str_eq, Bool-cases, Option-cases,
}
use mcp_oauth_gateway.Repository.Bolt.{
  Bolt, Laws, Reply, ok, failed, not_found, cap_reached, panicked, Codec, RoundTrips, decode,
  create, overwrite, db_update, end_transaction, or_failed, ◌>>=◌, done, read,
}
use mcp_oauth_gateway.Repository.Bolt.Deletion.{get-put}

module _ (bolt : Bolt) (laws : Laws bolt) where
  open bolt use {Bucket, get, put, delete, commits}

  module _ {A : Type 0} (codec : Codec A) (key : Str) (value : A) where
    -- What a transaction that writes one value leaves.
    pub record Written (b c : Bucket) : Type 0 where
      pub data' : Str
      pub marshalled : codec.marshal value ≡ some data'
      pub lookup : (j : Str) → get j c ≡ (if key == j then some data' else get j b)

    abbrev pub Writes : Bucket → Reply (Unit {0}) → Bucket → Type 0
    Writes b (ok _) c = Written b c
    Writes b not_found c = c ≡ b
    Writes b cap_reached c = c ≡ b
    Writes b failed c = c ≡ b
    Writes b panicked c = c ≡ b

    abbrev put_marshalled : Bucket → Reply (Unit {0}) × Bucket
    put_marshalled b =
        end_transaction bolt b
          (or_failed (codec.marshal value) >>= λ data'. done bolt (put key data' b))

    put_marshalled-Writes : (b : Bucket) → Writes b (put_marshalled b).0 (put_marshalled b).1
    unfolding end_transaction or_failed ◌>>=◌
    put_marshalled-Writes b = elim (Option-cases (codec.marshal value)) [
      | inl bad ↦ rw bad refl
      | inr (d, m) ↦ elim (Option-cases (put key d b)) [
        | inl bad ↦ rw (m, bad) refl
        | inr (c, p) ↦ elim (Bool-cases (commits c)) [
          | inl good ↦
              rw (m, p, good)
                (record {
                  data' = d;
                  marshalled = m;
                  lookup = λ j. get-put bolt laws j key d b c p;
                })
          | inr bad ↦ rw (m, p, bad) refl
        ]
      ]
    ]

    pub create-Writes :
        (b : Bucket) → Writes b (create bolt codec key value b).0 (create bolt codec key value b).1
    unfolding create db_update
    create-Writes b = put_marshalled-Writes b

    pub create-Written : (b c : Bucket) → create bolt codec key value b ≡ (ok tt, c) → Written b c
    create-Written b c e = rw e at (create-Writes b)

    pub overwrite-Writes :
        (b : Bucket)
        → Writes b (overwrite bolt codec key value b).0 (overwrite bolt codec key value b).1
    unfolding overwrite db_update end_transaction
    overwrite-Writes b = elim (Option-cases (get key b)) [
      | inl missing ↦ rw missing refl
      | inr (old, found) ↦ rw found (put_marshalled-Writes b)
    ]

    pub overwrite-Written :
        (b c : Bucket) → overwrite bolt codec key value b ≡ (ok tt, c) → Written b c
    overwrite-Written b c e = rw e at (overwrite-Writes b)

    -- A written value is read back.
    pub read-Written :
        (b c : Bucket) (j : Str)
        → RoundTrips codec
        → Written b c
        → read bolt codec j c ≡ (if key == j then ok value else read bolt codec j b)
    unfolding read decode
    read-Written b c j round w = rw (w.lookup j) (elim (Bool-cases (key == j)) [
      | inl same ↦ rw (same, round value w.data' w.marshalled) refl
      | inr other ↦ rw other refl
    ])
