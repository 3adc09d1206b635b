-- ===== src/Repository/Maintenance/Expiry.antt =====
-- kvs.go: the sweep of expired sessions removes what is past its cutoff, and nothing else.
use mcp_oauth_gateway.Base.{
  ℕ, Str, lit, Bool, fun_ext, subst, some, true, false, ◌&&◌, ◌||◌, Option, none, List, [], ◌∷◌,
  ◌≡◌, refl, ◌∙◌, ap, ◌⊎◌, inl, inr, arith, if◌then◌else◌, ltb, has_prefix, Bool-cases,
}
use mcp_oauth_gateway.Repository.Bolt.{
  Bolt, Laws, Reply, ok, failed, not_found, cap_reached, panicked, then_step, delete_under,
}
use mcp_oauth_gateway.Repository.Bolt.Deletion.{found_and, Removes, delete_under-Removes}
use mcp_oauth_gateway.Repository.Models.{Json, Sessions}
use mcp_oauth_gateway.Repository.Tokens.{authorize_request_prefix, request_matches, delete_matching}
use mcp_oauth_gateway.Repository.Maintenance.{
  cutoffs, sweep_cutoffs, authorize_request_stale, request_older, delete_expired_sessions,
}

module _ (bolt : Bolt) (laws : Laws bolt) where
  open bolt use {Bucket, get}

  -- After success all that has to go is gone and the rest is as it was; after an error each record is
  -- as it was, or had to go and is gone.
  abbrev pub Swept : (Str → Option Str → Bool) → Bucket → Reply (Unit {0}) → Bucket → Type 0
  Swept gone b (ok _) c = (k : Str) → get k c ≡ (if gone k (get k b) then none else get k b)
  Swept gone b not_found c =
      (k : Str) → (get k c ≡ get k b) ⊎ ((gone k (get k b) ≡ true) × (get k c ≡ none))
  Swept gone b cap_reached c =
      (k : Str) → (get k c ≡ get k b) ⊎ ((gone k (get k b) ≡ true) × (get k c ≡ none))
  Swept gone b failed c =
      (k : Str) → (get k c ≡ get k b) ⊎ ((gone k (get k b) ≡ true) × (get k c ≡ none))
  Swept gone b panicked c =
      (k : Str) → (get k c ≡ get k b) ⊎ ((gone k (get k b) ≡ true) × (get k c ≡ none))

  Removes-Swept :
      (gone : Str → Option Str → Bool) (b c : Bucket) (r : Reply (Unit {0}))
      → Removes bolt laws (λ k. gone k (get k b)) b r c
      → Swept gone b r c
  Removes-Swept gone b c (ok _) h = h
  Removes-Swept gone b c not_found h = λ k. inl (ap (get k) h)
  Removes-Swept gone b c cap_reached h = λ k. inl (ap (get k) h)
  Removes-Swept gone b c failed h = λ k. inl (ap (get k) h)
  Removes-Swept gone b c panicked h = λ k. inl (ap (get k) h)

  abbrev pub under_and : Str → (Str → Bool) → Str → Option Str → Bool
  under_and prefix test k o = has_prefix k prefix && found_and test o

  pub delete_under-Swept :
      (prefix : Str) (test : Str → Bool) (b : Bucket)
      → Swept
          (under_and prefix test)
          b
          (delete_under bolt prefix test b).0
          (delete_under bolt prefix test b).1
  delete_under-Swept prefix test b =
      Removes-Swept (under_and prefix test) b (delete_under bolt prefix test b).1
        (delete_under bolt prefix test b).0 (delete_under-Removes bolt laws prefix test b)

  module _ (g h : Str → Option Str → Bool) (h_none : (k : Str) → h k none ≡ false) where
    abbrev both : Str → Option Str → Bool
    both k o = g k o || h k o

    removed_both :
        (k : Str) (x y z : Option Str)
        → y ≡ (if g k x then none else x)
        → z ≡ (if h k y then none else y)
        → z ≡ (if both k x then none else x)
    removed_both k x y z e f = elim (Bool-cases (g k x)) [
      | inl gone ↦ rw gone (f ∙ rw (e, gone, h_none k) refl)
      | inr kept ↦ rw kept (f ∙ rw (e, kept) refl)
    ]

    kept_or_gone :
        (k : Str) (x y z : Option Str)
        → y ≡ (if g k x then none else x)
        → (z ≡ y) ⊎ ((h k y ≡ true) × (z ≡ none))
        → (z ≡ x) ⊎ ((both k x ≡ true) × (z ≡ none))
    kept_or_gone k x y z e f = elim (Bool-cases (g k x)) [
      | inl gone ↦ elim f [
        | inl same ↦ inr (rw gone refl, same ∙ e ∙ rw gone refl)
        | inr (_, missing) ↦ inr (rw gone refl, missing)
      ]
      | inr kept ↦ elim f [
        | inl same ↦ inl (same ∙ e ∙ rw kept refl)
        | inr (late, missing) ↦
            let same : y ≡ x = e ∙ rw kept refl in inr (rw kept (rw same at late), missing)
      ]
    ]

    Swept-second :
        (b c d : Bucket) (r : Reply (Unit {0}))
        → Swept g b (ok tt) c
        → Swept h c r d
        → Swept both b r d
    Swept-second b c d (ok _) s t = λ k. removed_both k _ _ _ (s k) (t k)
    Swept-second b c d not_found s t = λ k. kept_or_gone k _ _ _ (s k) (t k)
    Swept-second b c d cap_reached s t = λ k. kept_or_gone k _ _ _ (s k) (t k)
    Swept-second b c d failed s t = λ k. kept_or_gone k _ _ _ (s k) (t k)
    Swept-second b c d panicked s t = λ k. kept_or_gone k _ _ _ (s k) (t k)

    fewer_gone :
        (k : Str) (x z : Option Str)
        → (z ≡ x) ⊎ ((g k x ≡ true) × (z ≡ none))
        → (z ≡ x) ⊎ ((both k x ≡ true) × (z ≡ none))
    fewer_gone k x z (inl same) = inl same
    fewer_gone k x z (inr (gone, missing)) = inr (rw gone refl, missing)

    Swept-then_step :
        (b c : Bucket) (r : Reply (Unit {0})) (f : Unit {0} → Bucket → Reply (Unit {0}) × Bucket)
        → Swept g b r c
        → ((d : Bucket) → Swept h d (f tt d).0 (f tt d).1)
        → Swept both b (then_step bolt (r, c) f).0 (then_step bolt (r, c) f).1
    unfolding then_step
    Swept-then_step b c (ok _) f s t = Swept-second b c _ _ s (t c)
    Swept-then_step b c not_found f s t = λ k. fewer_gone k _ _ (s k)
    Swept-then_step b c cap_reached f s t = λ k. fewer_gone k _ _ (s k)
    Swept-then_step b c failed f s t = λ k. fewer_gone k _ _ (s k)
    Swept-then_step b c panicked f s t = λ k. fewer_gone k _ _ (s k)

  module _ (json : Json) (lib : Sessions) where
    -- A record under one of the prefixes that is older than its cutoff.
    abbrev pub past_cutoff : List (Str × ℕ) → Str → Option Str → Bool
    past_cutoff [] k o = false
    past_cutoff ((prefix, before) ∷ rest) k o =
        has_prefix k prefix
          && found_and (request_matches bolt json lib (λ r. ltb r.requested_at before)) o
        || past_cutoff rest k o

    -- What a sweep has to remove: a session that was requested before the cutoff of its kind, and a
    -- pending authorize request that does not decode, has no request, or was requested before the
    -- cutoff of codes.
    abbrev pub is_expired : ℕ → ℕ → ℕ → Str → Option Str → Bool
    is_expired access_before refresh_before code_before k none = false
    is_expired access_before refresh_before code_before k (some v) =
        let requested_before : ℕ → Bool = λ before. elim (json.request.unmarshal v) [
          | none ↦ false
          | some r ↦ ltb r.requested_at before
        ] in
        has_prefix k (lit "access_token-") && requested_before access_before
        || has_prefix k (lit "refresh_token-") && requested_before refresh_before
        || has_prefix k (lit "authorize_code-") && requested_before code_before
        || has_prefix k (lit "pkce_request-") && requested_before code_before
        || has_prefix k (lit "authorize_request-") && elim (json.authorize_request.unmarshal v) [
          | none ↦ true
          | some pending ↦ elim pending.request [
            | none ↦ true
            | some r ↦ ltb r.requested_at code_before
          ]
        ]

    -- What the steps of a sweep pick.
    abbrev picked : ℕ → ℕ → ℕ → Str → Option Str → Bool
    picked access_before refresh_before code_before k o =
        past_cutoff (cutoffs bolt json lib access_before refresh_before code_before) k o
        || has_prefix k authorize_request_prefix
          && found_and (authorize_request_stale bolt json lib code_before) o

    picked-is_expired :
        (access_before refresh_before code_before : ℕ) (k : Str) (o : Option Str)
        → picked access_before refresh_before code_before k o
          ≡ is_expired access_before refresh_before code_before k o
    unfolding request_matches authorize_request_stale request_older
    picked-is_expired access_before refresh_before code_before k none = ground arith
    picked-is_expired access_before refresh_before code_before k (some v) = ground arith

    past_cutoff-none : (l : List (Str × ℕ)) (k : Str) → past_cutoff l k none ≡ false
    past_cutoff-none [] k = refl
    past_cutoff-none ((prefix, before) ∷ rest) k = ground (arith, past_cutoff-none rest k)

    sweep_cutoffs-Swept :
        (l : List (Str × ℕ)) (b : Bucket)
        → Swept
            (past_cutoff l)
            b
            (sweep_cutoffs bolt json lib l b).0
            (sweep_cutoffs bolt json lib l b).1
    unfolding sweep_cutoffs delete_matching
    sweep_cutoffs-Swept [] b = λ k. refl
    sweep_cutoffs-Swept ((prefix, before) ∷ rest) b =
        let older = request_matches bolt json lib (λ r. ltb r.requested_at before) in
        Swept-then_step (under_and prefix older) (past_cutoff rest) (past_cutoff-none rest) b
          (delete_under bolt prefix older b).1 (delete_under bolt prefix older b).0
          (λ _. sweep_cutoffs bolt json lib rest) (delete_under-Swept prefix older b)
          (sweep_cutoffs-Swept rest)

    delete_expired_sessions-picked :
        (access_before refresh_before code_before : ℕ) (b : Bucket)
        → Swept
            (picked access_before refresh_before code_before)
            b
            (delete_expired_sessions bolt json lib access_before refresh_before code_before b).0
            (delete_expired_sessions bolt json lib access_before refresh_before code_before b).1
    unfolding delete_expired_sessions
    delete_expired_sessions-picked access_before refresh_before code_before b =
        let times = cutoffs bolt json lib access_before refresh_before code_before in
        Swept-then_step (past_cutoff times)
          (under_and authorize_request_prefix (authorize_request_stale bolt json lib code_before))
          (λ k. ground arith) b (sweep_cutoffs bolt json lib times b).1
          (sweep_cutoffs bolt json lib times b).0
          (λ _.
            delete_under bolt authorize_request_prefix
              (authorize_request_stale bolt json lib code_before))
          (sweep_cutoffs-Swept times b)
          (λ d.
            delete_under-Swept authorize_request_prefix
              (authorize_request_stale bolt json lib code_before) d)

    -- A sweep that succeeds removes the sessions that were requested before the cutoff of their kind and
    -- the pending authorize requests that do not decode, have no request, or were requested before the
    -- cutoff of codes, leaving all others as they were; one that fails may have removed only some of those.
    pub delete_expired_sessions-Swept :
        (access_before refresh_before code_before : ℕ) (b : Bucket)
        → Swept
            (is_expired access_before refresh_before code_before)
            b
            (delete_expired_sessions bolt json lib access_before refresh_before code_before b).0
            (delete_expired_sessions bolt json lib access_before refresh_before code_before b).1
    delete_expired_sessions-Swept access_before refresh_before code_before b =
        let result =
          delete_expired_sessions bolt json lib access_before refresh_before code_before b in
        subst (λ gone. Swept gone b result.0 result.1)
          (fun_ext λ k. fun_ext λ o. picked-is_expired access_before refresh_before code_before k o)
          (delete_expired_sessions-picked access_before refresh_before code_before b)
