-- ===== src/Cimd/Resolver/Bounded.antt =====
-- resolver.go: the size of the cache.
use mcp_oauth_gateway.Base.{
  ℕ, ◌≤◌, ◌<◌, Str, Bool, true, false, none, some, List, [], ◌∷◌, any, length, if◌then◌else◌, ◌==◌,
  str_eq, nat_eq, eq_iff, ltb, leb, ◌≡◌, refl, inl, inr, arith, Bool-cases, Option-cases,
}
use mcp_oauth_gateway.Cimd.Resolver.{
  CacheEntry, Cache, max_cache_entries, lookup, remove, assign, delete_expired, evict, is_full,
  make_room, store,
}

abbrev pub has_key : Str → Cache → Bool
has_key k c = any (λ p. p.0 == k) c

-- A `range` meets every key.
abbrev pub Enumerates : (Cache → List Str) → Type 0
Enumerates order = (c : Cache) (k : Str) → has_key k c ≡ true → any (λ j. j == k) (order c) ≡ true

length-remove : (k : Str) (c : Cache) → length (remove k c) ≤ length c
unfolding remove
length-remove k [] = omega arith
length-remove k ((j, e) ∷ c) = ground (arith, length-remove k c)

length-remove_known :
    (k : Str) (c : Cache) (e : CacheEntry) → lookup k c ≡ some e → length (remove k c) < length c
unfolding remove lookup
length-remove_known k [] e h = cc h
length-remove_known k ((j, f) ∷ c) e h = elim (Bool-cases (j == k)) [
  | inl same ↦ rw same (omega (arith, length-remove k c))
  | inr other ↦ rw other (omega (arith, length-remove_known k c e (rw other at h)))
]

length-delete_expired : (now : ℕ) (c : Cache) → length (delete_expired now c) ≤ length c
unfolding delete_expired
length-delete_expired now [] = omega arith
length-delete_expired now ((j, e) ∷ c) = ground (arith, length-delete_expired now c)

has_key-remove :
    (j k : Str) (c : Cache) → has_key j (remove k c) ≡ (if k == j then false else has_key j c)
unfolding remove
has_key-remove j k [] = ground arith
has_key-remove j k ((i, e) ∷ c) =
    ground (arith, has_key-remove j k c, eq_iff i k, eq_iff k j, eq_iff i j)

-- The loop ends with room for an entry, since it meets every key.
length-evict :
    (keys : List Str) (c : Cache)
    → ((k : Str) → has_key k c ≡ true → any (λ j. j == k) keys ≡ true)
    → length (evict keys c) < max_cache_entries
unfolding evict
length-evict [] [] meets = omega arith
length-evict [] ((j, e) ∷ c) meets = cc (meets j (rw ((eq_iff j j).1 refl) refl))
length-evict (k ∷ keys) c meets = elim (Bool-cases (ltb (length c) max_cache_entries)) [
  | inl room ↦ rw room (ground arith)
  | inr full ↦
      rw full
        (length-evict keys (remove k c) (λ j h. ground (arith, has_key-remove j k c, meets j)))
]

length-make_room :
    (order : Cache → List Str) (now : ℕ) (id : Str) (c : Cache)
    → Enumerates order
    → length c ≤ max_cache_entries
    → lookup id c ≡ none
    → length (make_room order now id c) < max_cache_entries
unfolding make_room is_full
length-make_room order now id c enumerates h new =
    elim (Bool-cases (leb max_cache_entries (length c))) [
      | inl full ↦
          rw (new, full)
            (length-evict (order (delete_expired now c)) (delete_expired now c)
              (enumerates (delete_expired now c)))
      | inr room ↦ rw (new, room) (ground arith)
    ]

make_room_known :
    (order : Cache → List Str) (now : ℕ) (id : Str) (c : Cache) (e : CacheEntry)
    → lookup id c ≡ some e
    → make_room order now id c ≡ c
unfolding make_room is_full
make_room_known order now id c e known = rw known refl

-- The cache keeps its bound, whatever it is asked to store and in whatever order it is ranged over.
pub length-store :
    (order : Cache → List Str) (now : ℕ) (id : Str) (entry : CacheEntry) (c : Cache)
    → Enumerates order
    → length c ≤ max_cache_entries
    → length (store order now id entry c) ≤ max_cache_entries
unfolding store assign
length-store order now id entry c enumerates h = elim (Option-cases (lookup id c)) [
  | inl new ↦ omega (
    arith,
    length-make_room order now id c enumerates h new,
    length-remove id (make_room order now id c),
  )
  | inr (e, known) ↦
      rw (make_room_known order now id c e known) (omega (arith, length-remove_known id c e known))
]
