-- ===== src/Repository/Bolt/Deletion.antt =====
-- kvs.go: what a deletion under a prefix leaves of the bucket.
use mcp_oauth_gateway.Base.{
  Str, Bool, false, ◌&&◌, Option, none, some, List, [], ◌∷◌, ◌≡◌, refl, ◌∙◌, arith, inl, inr,
  if◌then◌else◌, ◌==◌, str_eq, eq_iff, has_prefix, any, Bool-cases, Option-cases,
}
use mcp_oauth_gateway.Repository.SortedMap.{
  find, under, Ascending, find-insert_sorted, find-remove, find-under, find-Above, Ascending-under,
}
use mcp_oauth_gateway.Repository.Bolt.{
  Bolt, Laws, Reply, done, ok, failed, not_found, cap_reached, panicked, walk, stale_keys,
  delete_keys, delete_under, db_update, end_transaction,
}

-- Whether a lookup found something that a test picks.
abbrev pub found_and : (Str → Bool) → Option Str → Bool
found_and test none = false
found_and test (some v) = test v

module _ (bolt : Bolt) where
  open bolt use {Bucket, get, put, delete, seek, commits}

  any-stale_keys :
      (test : Str → Bool) (k : Str) (l : List (Str × Str))
      → Ascending l
      → any (λ j. j == k) (stale_keys bolt test l) ≡ found_and test (find k l)
  unfolding stale_keys find
  any-stale_keys test k [] s = refl
  any-stale_keys test k ((j, v) ∷ l) (a, s) =
      ground (arith, any-stale_keys test k l s, find-Above j l a, eq_iff j k)

  module _ (laws : Laws bolt) where
    pub get-put :
        (j k v : Str) (b c : Bucket)
        → put k v b ≡ some c
        → get j c ≡ (if k == j then some v else get j b)
    get-put j k v b c e =
        rw (laws.get_entries j c, laws.get_entries j b, laws.put_entries k v b c e)
          (find-insert_sorted j k v (laws.entries b))

    pub get-delete :
        (j k : Str) (b c : Bucket)
        → delete k b ≡ some c
        → get j c ≡ (if k == j then none else get j b)
    get-delete j k b c e =
        rw (laws.get_entries j c, laws.get_entries j b, laws.delete_entries k b c e)
          (find-remove j k (laws.entries b) (laws.ascending b))

    pub get-delete_keys :
        (j : Str) (ks : List Str) (b c : Bucket)
        → delete_keys bolt ks b ≡ some c
        → get j c ≡ (if any (λ k. k == j) ks then none else get j b)
    unfolding delete_keys
    get-delete_keys j [] b c e = ground (arith, e)
    get-delete_keys j (k ∷ ks) b c e = elim (Option-cases (delete k b)) [
      | inl fails ↦ cc (rw (fails, delete_keys) at e)
      | inr (d, deleted) ↦ ground (
        arith,
        get-delete_keys j ks d c (rw (deleted, delete_keys) at e),
        get-delete j k b d deleted,
      )
    ]

    pub find-walk :
        (k p : Str) (b : Bucket)
        → find k (walk bolt p b) ≡ (if has_prefix k p then get k b else none)
    unfolding under
    find-walk k p b =
        rw (laws.seek_entries p b, laws.get_entries k b)
          (find-under k p (laws.entries b) (laws.ascending b))

    Ascending-walk : (p : Str) (b : Bucket) → Ascending (walk bolt p b)
    unfolding under
    Ascending-walk p b =
        rw (laws.seek_entries p b) (Ascending-under p (laws.entries b) (laws.ascending b))

    pub any-stale_keys-walk :
        (test : Str → Bool) (k p : Str) (b : Bucket)
        → any (λ j. j == k) (stale_keys bolt test (walk bolt p b))
          ≡ has_prefix k p && found_and test (get k b)
    any-stale_keys-walk test k p b =
        any-stale_keys test k (walk bolt p b) (Ascending-walk p b)
        ∙ rw (find-walk k p b) (ground arith)

    -- What a transaction that deletes leaves: nothing of what it picked and all the rest if it
    -- succeeded, everything after an error.
    abbrev pub Removes : (Str → Bool) → Bucket → Reply (Unit {0}) → Bucket → Type 0
    Removes gone b (ok _) c = (k : Str) → get k c ≡ (if gone k then none else get k b)
    Removes gone b not_found c = c ≡ b
    Removes gone b cap_reached c = c ≡ b
    Removes gone b failed c = c ≡ b
    Removes gone b panicked c = c ≡ b

    pub delete_under-Removes :
        (prefix : Str) (test : Str → Bool) (b : Bucket)
        → Removes
            (λ k. has_prefix k prefix && found_and test (get k b))
            b
            (delete_under bolt prefix test b).0
            (delete_under bolt prefix test b).1
    unfolding delete_under db_update end_transaction
    delete_under-Removes prefix test b =
        at_end (delete_keys bolt (stale_keys bolt test (walk bolt prefix b)) b) refl
      where
        at_end :
            (o : Option Bucket)
            → delete_keys bolt (stale_keys bolt test (walk bolt prefix b)) b ≡ o
            → Removes
                (λ k. has_prefix k prefix && found_and test (get k b))
                b
                (end_transaction bolt b (done bolt o)).0
                (end_transaction bolt b (done bolt o)).1
        at_end none e = refl
        at_end (some c) e = elim (Bool-cases (commits c)) [
          | inl committed ↦
              rw committed
                (λ k. get-delete_keys k _ b c e ∙ rw (any-stale_keys-walk test k prefix b) refl)
          | inr not_committed ↦ rw not_committed refl
        ]
