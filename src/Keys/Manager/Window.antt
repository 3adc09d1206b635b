-- ===== src/Keys/Manager/Window.antt =====
-- manager.go: how long a key verifies after it was rotated out.
use mcp_oauth_gateway.Base.{ℕ, ◌+◌, ◌≤◌, ◌<◌, none, some, List, [], ◌∷◌, ◌++◌, Str, ◌≡◌, ◌≢◌, refl}
use mcp_oauth_gateway.Base.{
  ◌⊎◌, inl, inr, true, false, Bool-cases, str_eqb, eq_refl, eq_iff, All, ltb, arith,
}
use mcp_oauth_gateway.Base.{str_eq}
use mcp_oauth_gateway.Keys.Types.{Crypto, SigningKey, RetiredKey}
use mcp_oauth_gateway.Keys.Directory.{Config, KeySet}
use mcp_oauth_gateway.Keys.Manager.{
  find_retired, find_key, verification_key, rotated, unexpired, Manager,
}

module _ (crypto : Crypto) (cfg : Config) where
  open crypto use {Key, public}

  -- The key set without what expired by `now`.
  abbrev pub swept_keys : ℕ → KeySet crypto → KeySet crypto
  swept_keys now k = record k { retiring = unexpired crypto now k.retiring }

  -- Rotations and sweeps before a time, none of which makes a key with the given kid.
  pub data Steps (kid : Str) (deadline : ℕ) : KeySet crypto → KeySet crypto → Type 0 where
    none_yet : (k : KeySet crypto) → Steps kid deadline k k
    then_rotated :
        {j k : KeySet crypto} (new : Str) (key : Key) (now : ℕ)
        → new ≢ kid
        → Steps kid deadline j k
        → Steps kid deadline j (rotated crypto cfg new key now k)
    then_swept :
        {j k : KeySet crypto} (now : ℕ)
        → now < deadline
        → Steps kid deadline j k
        → Steps kid deadline j (swept_keys now k)

  -- The first retiring key with this kid is `a`, until the deadline at least.
  abbrev pub Kept : SigningKey crypto → ℕ → List (RetiredKey crypto) → Type 0
  Kept a deadline [] = ⊥
  Kept a deadline (r ∷ rest) =
      ((r.signing_key ≡ a) × (deadline ≤ r.not_after))
      ⊎ ((r.signing_key.kid ≢ a.kid) × Kept a deadline rest)

  pub record Outlives (a : SigningKey crypto) (deadline : ℕ) (k : KeySet crypto) : Type 0 where
    pub retired : k.active.kid ≢ a.kid
    pub kept : Kept a deadline k.retiring

  pub Kept-append :
      (a : SigningKey crypto) (deadline : ℕ) (rs : List (RetiredKey crypto)) (r : RetiredKey crypto)
      → Kept a deadline rs
      → Kept a deadline (rs ++ r ∷ [])
  Kept-append a deadline [] r h = absurd h
  Kept-append a deadline (q ∷ rs) r (inl h) = inl h
  Kept-append a deadline (q ∷ rs) r (inr (other, h)) = inr (other, Kept-append a deadline rs r h)

  pub Kept-last :
      (a : SigningKey crypto) (deadline : ℕ) (rs : List (RetiredKey crypto)) (r : RetiredKey crypto)
      → All (λ q. q.signing_key.kid ≢ a.kid) rs
      → r.signing_key ≡ a
      → deadline ≤ r.not_after
      → Kept a deadline (rs ++ r ∷ [])
  Kept-last a deadline [] r h e d = inl (e, d)
  Kept-last a deadline (q ∷ rs) r (other, h) e d = inr (other, Kept-last a deadline rs r h e d)

  pub Kept-unexpired :
      (a : SigningKey crypto) (deadline now : ℕ) (rs : List (RetiredKey crypto))
      → now < deadline
      → Kept a deadline rs
      → Kept a deadline (unexpired crypto now rs)
  unfolding unexpired
  Kept-unexpired a deadline now [] b h = absurd h
  Kept-unexpired a deadline now (q ∷ rs) b (inl (e, d)) =
      let alive : ltb now q.not_after ≡ true = ground arith in rw alive (inl (e, d))
  Kept-unexpired a deadline now (q ∷ rs) b (inr (other, h)) =
      elim (Bool-cases (ltb now q.not_after)) [
        | inl alive ↦ rw alive (inr (other, Kept-unexpired a deadline now rs b h))
        | inr gone ↦ rw gone (Kept-unexpired a deadline now rs b h)
      ]

  pub find_retired-Kept :
      (a : SigningKey crypto) (deadline : ℕ) (rs : List (RetiredKey crypto))
      → Kept a deadline rs
      → find_retired crypto a.kid rs ≡ some a
  unfolding find_retired
  find_retired-Kept a deadline [] h = absurd h
  find_retired-Kept a deadline (q ∷ rs) (inl (e, d)) = rw (e, eq_refl) refl
  find_retired-Kept a deadline (q ∷ rs) (inr (other, h)) =
      let differ : str_eqb a.kid q.signing_key.kid ≡ false =
        ground (arith, eq_iff a.kid q.signing_key.kid) in
      rw differ (find_retired-Kept a deadline rs h)

  Outlives-Steps :
      {a : SigningKey crypto} {deadline : ℕ} {j k : KeySet crypto}
      → Steps a.kid deadline j k
      → Outlives a deadline j
      → Outlives a deadline k
  unfolding rotated
  Outlives-Steps (none_yet k) h = h
  Outlives-Steps {a} {deadline} (then_rotated {k} new key now other s) h =
      let o = Outlives-Steps s h in
      record { retired = other; kept = Kept-append a deadline k.retiring _ o.kept }
  Outlives-Steps {a} {deadline} (then_swept {k} now before s) h =
      let o = Outlives-Steps s h in
      record { retired = o.retired; kept = Kept-unexpired a deadline now k.retiring before o.kept }

  -- A key that was rotated out at `now` verifies, with its own algorithm, through all rotations and
  -- sweeps before `now + RetireWindow`, if its kid was and stays its own.
  pub verification_key-Steps :
      (k : KeySet crypto) (m : Manager crypto) (new : Str) (key : Key) (now : ℕ)
      → k.active.kid ≢ []
      → new ≢ k.active.kid
      → All (λ r. r.signing_key.kid ≢ k.active.kid) k.retiring
      → Steps k.active.kid (now + cfg.retire_window) (rotated crypto cfg new key now k) m.keys
      → verification_key crypto k.active.kid m ≡ some (public k.active.key, k.active.alg)
  unfolding verification_key
  verification_key-Steps k m new key now named other unique steps =
      let start : Outlives k.active (now + cfg.retire_window) (rotated crypto cfg new key now k) =
        unfold rotated in
        record {
          retired = other;
          kept =
              Kept-last k.active (now + cfg.retire_window) k.retiring _ unique refl (omega arith);
        } in
      let end' = Outlives-Steps steps start in
      let nonempty : str_eqb k.active.kid [] ≡ false = ground (arith, eq_iff k.active.kid []) in
      let inactive : str_eqb k.active.kid m.keys.active.kid ≡ false =
        ground (arith, eq_iff k.active.kid m.keys.active.kid, end'.retired) in
      let kept = find_retired-Kept k.active (now + cfg.retire_window) m.keys.retiring end'.kept in
      let found : find_key crypto k.active.kid m.keys ≡ some k.active =
        unfold find_key in rw (nonempty, inactive, kept) refl in
      rw (found, verification_key) refl

  find_retired-unexpired :
      (kid : Str) (now : ℕ) (rs : List (RetiredKey crypto))
      → All (λ r. (r.signing_key.kid ≢ kid) ⊎ (r.not_after ≤ now)) rs
      → find_retired crypto kid (unexpired crypto now rs) ≡ none
  unfolding find_retired unexpired
  find_retired-unexpired kid now [] h = refl
  find_retired-unexpired kid now (r ∷ rs) (h, hs) =
      ground (arith, h, eq_iff kid r.signing_key.kid, find_retired-unexpired kid now rs hs)

  -- A sweep at or past the end of the window ends it: a kid that is not active, and whose retiring
  -- keys are all past their time, no longer verifies.
  pub verification_key-swept_keys :
      (m : Manager crypto) (kid : Str) (now : ℕ)
      → m.keys.active.kid ≢ kid
      → All (λ r. (r.signing_key.kid ≢ kid) ⊎ (r.not_after ≤ now)) m.keys.retiring
      → verification_key crypto kid (record m { keys = swept_keys now m.keys }) ≡ none
  unfolding verification_key
  verification_key-swept_keys m kid now other over =
      let inactive : str_eqb kid m.keys.active.kid ≡ false =
        ground (arith, eq_iff kid m.keys.active.kid) in
      let gone = find_retired-unexpired kid now m.keys.retiring over in
      let missing : find_key crypto kid (swept_keys now m.keys) ≡ none =
        unfold find_key in
        elim (Bool-cases (str_eqb kid [])) [
          | inl blank ↦ rw blank refl
          | inr named ↦ rw (named, inactive, gone) refl
        ] in
      rw (missing, verification_key) refl
