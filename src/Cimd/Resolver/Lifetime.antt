-- ===== src/Cimd/Resolver/Lifetime.antt =====
-- resolver.go: the cache under any interleaving of calls. A call that misses fetches without the lock, so
-- that other calls store in between; what counts is the order in which they store.
use mcp_oauth_gateway.Base.{
  ℕ, ◌+◌, ◌≤◌, ◌<◌, Str, Bool, false, Option, none, some, List, [], ◌∷◌, All, if◌then◌else◌, ◌==◌,
  str_eq, eq_iff, ltb, ◌≡◌, refl, sym, ◌∙◌, ap, ap₂, subst, length, inl, inr, arith, Bool-cases,
  Option-cases,
}
use mcp_oauth_gateway.Cimd.Documents.{Outcome, ok, invalid, Document}
use mcp_oauth_gateway.Cimd.Resolver.{
  CacheEntry, Cache, Limits, Response, Libraries, max_cache_entries, lookup, remove, assign,
  delete_expired, evict, is_full, make_room, store, fetch, entry_of, cached, resolve_cached,
  resolve_fetched,
}

-- A fetch that was stored: when it was asked for, and when it was answered.
pub record Fetch : Type 0 where
  pub id : Str
  pub asked : ℕ
  pub answered : ℕ

-- The fetches that were stored, the last one first.
abbrev pub History : Type 0
History = List Fetch

abbrev pub last_of : Str → History → Option Fetch
last_of id [] = none
last_of id (f ∷ h) = let before = last_of id h in if f.id == id then some f else before

-- Members are kept by every deletion.
module _ {κ} (P : Str × CacheEntry → Type κ) where
  All-remove : (k : Str) (c : Cache) → All P c → All P (remove k c)
  unfolding remove
  All-remove k [] h = tt
  All-remove k ((j, e) ∷ c) (here, later) = elim (Bool-cases (j == k)) [
    | inl same ↦ rw same (All-remove k c later)
    | inr other ↦ rw other (here, All-remove k c later)
  ]

  All-delete_expired : (now : ℕ) (c : Cache) → All P c → All P (delete_expired now c)
  unfolding delete_expired
  All-delete_expired now [] h = tt
  All-delete_expired now ((j, e) ∷ c) (here, later) = elim (Bool-cases (ltb now e.expires_at)) [
    | inl fresh ↦ rw fresh (here, All-delete_expired now c later)
    | inr stale ↦ rw stale (All-delete_expired now c later)
  ]

  All-evict : (keys : List Str) (c : Cache) → All P c → All P (evict keys c)
  unfolding evict
  All-evict [] c h = h
  All-evict (k ∷ keys) c h = elim (Bool-cases (ltb (length c) max_cache_entries)) [
    | inl room ↦ rw room h
    | inr full ↦ rw full (All-evict keys (remove k c) (All-remove k c h))
  ]

  All-make_room :
      (order : Cache → List Str) (now : ℕ) (id : Str) (c : Cache)
      → All P c
      → All P (make_room order now id c)
  unfolding make_room
  All-make_room order now id c h = elim (Bool-cases (is_full (lookup id c) c)) [
    | inl full ↦ rw full (
        All-evict (order (delete_expired now c)) (delete_expired now c)
          (All-delete_expired now c h))
    | inr room ↦ rw room h
  ]

  All-lookup : (k : Str) (c : Cache) (e : CacheEntry) → All P c → lookup k c ≡ some e → P (k, e)
  unfolding lookup
  All-lookup k [] e h found = cc found
  All-lookup k ((j, f) ∷ c) e (here, later) found = elim (Bool-cases (j == k)) [
    | inl same ↦
        let value : f ≡ e = cc (rw same at found) in
        subst P (ap₂ (λ x y. (x, y)) ((eq_iff j k).0 same) value) here
    | inr other ↦ All-lookup k c e later (rw other at found)
  ]

module _ (lib : Libraries) (limits : Limits) (allow_private_hosts : Bool)
    (web : ℕ → Str → Response) where
  -- The answer of a fetch, from the network at the time when it was asked for.
  abbrev pub result_of : Fetch → Outcome Document
  result_of f = fetch lib limits allow_private_hosts f.id (web f.asked f.id)

  abbrev pub lifetime : Outcome Document → ℕ
  lifetime (ok _) = limits.cache_ttl
  lifetime (invalid _) = limits.negative_ttl

  -- The caches that calls leave behind until a time, with the fetches that were stored.
  pub data Reach : Cache → History → ℕ → Type 0 where
    started : (now : ℕ) → Reach [] [] now
    stored :
        (order : Cache → List Str) (f : Fetch) (now : ℕ) {c : Cache} {h : History} {before : ℕ}
        → Reach c h before
        → before ≤ now
        → f.asked ≤ f.answered
        → f.answered ≤ now
        → Reach
            (resolve_fetched lib limits allow_private_hosts order f.answered now f.id
              (result_of f)
              c)
            (f ∷ h)
            now

  -- An entry holds the answer to the last fetch for its key, and expires a lifetime after it.
  pub record IsLast (h : History) (now : ℕ) (p : Str × CacheEntry) : Type 0 where
    pub fetched : Fetch
    pub last : last_of p.0 h ≡ some fetched
    pub held : p.1 ≡ entry_of lib limits allow_private_hosts fetched.answered (result_of fetched)
    pub in_order : fetched.asked ≤ fetched.answered
    pub past : fetched.answered ≤ now

  -- What is not for the fetched key stays the last.
  remove-IsLast :
      (f : Fetch) (h : History) (before now : ℕ) (c : Cache)
      → before ≤ now
      → All (IsLast h before) c
      → All (IsLast (f ∷ h) now) (remove f.id c)
  unfolding remove
  remove-IsLast f h before now [] le good = tt
  remove-IsLast f h before now ((j, e) ∷ c) le (here, later) = elim (Bool-cases (j == f.id)) [
    | inl same ↦ rw same (remove-IsLast f h before now c le later)
    | inr other ↦
        let apart : (f.id == j) ≡ false = ground (arith, eq_iff f.id j, eq_iff j f.id) in
        rw other (
          record {
            fetched = here.fetched;
            last = rw apart here.last;
            held = here.held;
            in_order = here.in_order;
            past = omega (arith, here.past);
          },
          remove-IsLast f h before now c le later,
        )
  ]

  Reach-IsLast : {c : Cache} {h : History} {now : ℕ} → Reach c h now → All (IsLast h now) c
  unfolding resolve_fetched store assign
  Reach-IsLast (started now) = tt
  Reach-IsLast (stored order f now {c} {h} {before} r le in_order past) = (
    record {
      fetched = f;
      last = rw ((eq_iff f.id f.id).1 refl) refl;
      held = refl;
      in_order = in_order;
      past = past;
    },
    remove-IsLast f h before now (make_room order now f.id c) le
        (All-make_room (IsLast h before) order now f.id c (Reach-IsLast r)),
  )

  entry_of-expires :
      (now : ℕ) (r : Outcome Document)
      → (entry_of lib limits allow_private_hosts now r).expires_at ≡ now + lifetime r
  unfolding entry_of
  entry_of-expires now (ok d) = refl
  entry_of-expires now (invalid e) = refl

  entry_of-result :
      (now : ℕ) (r : Outcome Document) → (entry_of lib limits allow_private_hosts now r).result ≡ r
  unfolding entry_of
  entry_of-result now (ok d) = refl
  entry_of-result now (invalid e) = refl

  -- What a caller is told at a time.
  pub record Told (id : Str) (h : History) (now : ℕ) (r : Outcome Document) : Type 0 where
    pub fetched : Fetch
    pub last : last_of id h ≡ some fetched
    pub same : r ≡ result_of fetched
    pub in_order : fetched.asked ≤ fetched.answered
    pub past : fetched.answered ≤ now
    pub fresh : now < fetched.answered + lifetime r

  cached-some :
      (now : ℕ) (e : CacheEntry) (r : Outcome Document)
      → cached lib limits allow_private_hosts now (some e) ≡ some r
      → (e.result ≡ r) × (now < e.expires_at)
  unfolding cached
  cached-some now e r h = ground (arith, h)

  -- However calls interleave, what is answered from the cache is the answer to the last fetch for that
  -- client ID that was stored, and was answered less than a lifetime ago, which is the shorter one for
  -- an error.
  pub resolve_cached-Told :
      {c : Cache} {h : History} {before : ℕ} (id : Str) (now : ℕ) (r : Outcome Document)
      → Reach c h before
      → before ≤ now
      → resolve_cached lib limits allow_private_hosts now id c ≡ some r
      → Told id h now r
  unfolding resolve_cached
  resolve_cached-Told {c} {h} {before} id now r reach le hit = elim (Option-cases (lookup id c)) [
    | inl missing ↦ cc (rw missing at hit)
    | inr (e, found) ↦
        let good = All-lookup (IsLast h before) id c e (Reach-IsLast reach) found in
        let (value, running) = cached-some now e r (rw found at hit) in
        let same : result_of good.fetched ≡ r =
          sym (entry_of-result good.fetched.answered (result_of good.fetched))
          ∙ sym (ap (λ x. x.result) good.held)
          ∙ value in
        let expires : e.expires_at ≡ good.fetched.answered + lifetime (result_of good.fetched) =
          ap (λ x. x.expires_at) good.held
          ∙ entry_of-expires good.fetched.answered (result_of good.fetched) in
        record {
          fetched = good.fetched;
          last = good.last;
          same = sym same;
          in_order = good.in_order;
          past = omega (arith, good.past);
          fresh =
              subst (λ x. now < good.fetched.answered + lifetime x) same (rw expires at running);
        }
  ]
