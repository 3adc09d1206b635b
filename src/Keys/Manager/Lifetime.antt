-- ===== src/Keys/Manager/Lifetime.antt =====
-- manager.go: a key that signs at a time still verifies a window later.
use mcp_oauth_gateway.Base.{
  ℕ, ◌+◌, ◌≤◌, ◌<◌, Str, false, some, List, [], ◌∷◌, str_eqb, str_eq, eq_iff, eq_refl, ltb, ◌≡◌,
  ◌≢◌, refl, ◌⊎◌, inl, inr, All, arith, Bool-cases,
}
use mcp_oauth_gateway.Keys.Types.{Crypto, SigningKey, RetiredKey, key_id, generate_private_key}
use mcp_oauth_gateway.Keys.Directory.{Config, KeySet}
use mcp_oauth_gateway.Keys.Manager.{
  Manager, World, find_key, verification_key, rotated, unexpired, maintain,
}
use mcp_oauth_gateway.Keys.Manager.Window.{
  swept_keys, Outlives, Kept-append, Kept-last, Kept-unexpired, find_retired-Kept,
}
use mcp_oauth_gateway.Keys.Manager.Upkeep.{Keeping, maintain-Keeps}

module _ (crypto : Crypto) (cfg : Config) where
  open crypto use {Key, public}

  -- It signs, and no retiring key has its kid.
  pub record Signs (a : SigningKey crypto) (k : KeySet crypto) : Type 0 where
    pub active : k.active ≡ a
    pub unique : All (λ r. r.signing_key.kid ≢ a.kid) k.retiring

  -- It signs, or it retires no earlier than the deadline.
  abbrev pub Serves : SigningKey crypto → ℕ → KeySet crypto → Type 0
  Serves a deadline k = Signs a k ⊎ Outlives crypto cfg a deadline k

  All-unexpired :
      (kid : Str) (now : ℕ) (rs : List (RetiredKey crypto))
      → All (λ r. r.signing_key.kid ≢ kid) rs
      → All (λ r. r.signing_key.kid ≢ kid) (unexpired crypto now rs)
  unfolding unexpired
  All-unexpired kid now [] h = tt
  All-unexpired kid now (r ∷ rs) (other, h) = elim (Bool-cases (ltb now r.not_after)) [
    | inl alive ↦ rw alive (other, All-unexpired kid now rs h)
    | inr gone ↦ rw gone (All-unexpired kid now rs h)
  ]

  Serves-swept_keys :
      (a : SigningKey crypto) (deadline now : ℕ) (k : KeySet crypto)
      → now < deadline
      → Serves a deadline k
      → Serves a deadline (swept_keys crypto cfg now k)
  Serves-swept_keys a deadline now k before (inl s) =
      inl (record { active = s.active; unique = All-unexpired a.kid now k.retiring s.unique })
  Serves-swept_keys a deadline now k before (inr o) = inr (record {
    retired = o.retired;
    kept = Kept-unexpired crypto cfg a deadline now k.retiring before o.kept;
  })

  Serves-rotated :
      (a : SigningKey crypto) (deadline now : ℕ) (k : KeySet crypto) (key : Key) (kid : Str)
      → deadline ≤ now + cfg.retire_window
      → kid ≢ a.kid
      → Serves a deadline k
      → Serves a deadline (rotated crypto cfg kid key now k)
  unfolding rotated
  Serves-rotated a deadline now k key kid late other (inl s) = inr (record {
    retired = other;
    kept = Kept-last crypto cfg a deadline k.retiring _ s.unique s.active late;
  })
  Serves-rotated a deadline now k key kid late other (inr o) =
      inr (record { retired = other; kept = Kept-append crypto cfg a deadline k.retiring _ o.kept })

  pub verification_key-Serves :
      (a : SigningKey crypto) (deadline : ℕ) (m : Manager crypto)
      → a.kid ≢ []
      → Serves a deadline m.keys
      → verification_key crypto a.kid m ≡ some (public a.key, a.alg)
  unfolding verification_key
  verification_key-Serves a deadline m named h =
      let nonempty : str_eqb a.kid [] ≡ false = ground (arith, eq_iff a.kid []) in
      let found : find_key crypto a.kid m.keys ≡ some a =
        unfold find_key in
        elim h [
          | inl s ↦ rw (nonempty, s.active, eq_refl) refl
          | inr o ↦
              let inactive : str_eqb a.kid m.keys.active.kid ≡ false =
                ground (arith, eq_iff a.kid m.keys.active.kid, o.retired) in
              rw
                (nonempty, inactive, find_retired-Kept crypto cfg a deadline m.keys.retiring o.kept)
                refl
        ] in
      rw (found, verification_key) refl

  -- What is generated has another kid than the given one.
  abbrev pub Elsewhere : ℕ → Str → Type 0
  Elsewhere entropy kid =
      (key : Key) (new : Str)
      → generate_private_key crypto cfg.alg entropy ≡ some key
      → key_id crypto (public key) ≡ some new
      → new ≢ kid

  pub maintain-Serves :
      (a : SigningKey crypto) (deadline now entropy : ℕ) (w : World crypto)
      → now < deadline
      → deadline ≤ now + cfg.retire_window
      → Elsewhere entropy a.kid
      → Keeping crypto cfg (Serves a deadline) w
      → Keeping crypto cfg (Serves a deadline) (maintain crypto now entropy w).1
  maintain-Serves a deadline now entropy w before late other =
      maintain-Keeps crypto cfg (Serves a deadline) now entropy w
        (λ k. Serves-swept_keys a deadline now k before)
        (λ k key kid made named.
          Serves-rotated a deadline now k key kid late (other key kid made named))
