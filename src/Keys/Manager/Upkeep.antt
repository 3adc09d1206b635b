-- ===== src/Keys/Manager/Upkeep.antt =====
-- manager.go: what maintenance does to the keys in memory, whatever fails on the disk.
use mcp_oauth_gateway.Base.{
  ℕ, Str, Bool, true, false, not, ◌||◌, some, List, [], ◌∷◌, if◌then◌else◌, ◌==◌, str_eq, ◌≡◌, sym,
  subst, inl, inr, Bool-cases,
}
use mcp_oauth_gateway.Keys.Types.{Crypto, RetiredKey, key_id, generate_private_key}
use mcp_oauth_gateway.Keys.Disk.{Disk, Exec, Outcome, ok, err, crashed}
use mcp_oauth_gateway.Keys.Disk.Triple.{
  After, Triple, Triple-bind, Triple-lift, Triple-on_error, Triple-pure, Triple-raise,
}
use mcp_oauth_gateway.Keys.Directory.{Config, KeySet}
use mcp_oauth_gateway.Keys.Manager.{
  Manager, World, on_disk, set_keys, rotated, rotate_from, rotate_locked, sweep_expired,
  sweep_locked, rotation_due, maintain,
}
use mcp_oauth_gateway.Keys.Manager.Window.{swept_keys}

After-all :
    {S : Type 0} (P : S → Type 0) (r : Outcome (Unit {0})) (s : S)
    → After {0} (λ _. P) P P r s
    → P s
After-all P (ok a) s h = h
After-all P err s h = h
After-all P crashed s h = h

if_either :
    {A S : Type 0} (P : S → Type 0) (b : Bool) (x y : A × S)
    → P x.1
    → P y.1
    → P (if b then x else y).1
if_either P true x y h k = h
if_either P false x y h k = k

module _ (crypto : Crypto) (cfg : Config) (K : KeySet crypto → Type 0) where
  open crypto use {Key, public}

  -- The settings stay, and the keys in memory keep a property.
  abbrev pub Keeping : World crypto → Type 0
  Keeping w = (w.manager.cfg ≡ cfg) × K w.manager.keys

  abbrev Keeps : Exec (World crypto) (Unit {0}) → Type 0
  Keeps a = Triple Keeping a (λ _. Keeping) Keeping Keeping

  Keeps-on_disk : (a : Exec Disk (Unit {0})) → Keeps (on_disk crypto a)
  unfolding on_disk
  Keeps-on_disk a = record { at = λ w h. carry w h (a w.disk).0 (a w.disk).1 }
    where
      carry :
          (w : World crypto)
          → Keeping w
          → (r : Outcome (Unit {0})) (d : Disk)
          → After {0} (λ _. Keeping) Keeping Keeping r (record w { disk = d })
      carry w h (ok a) d = h
      carry w h err d = h
      carry w h crashed d = h

  Keeps-set_keys : (k : KeySet crypto) → K k → Keeps (set_keys crypto k)
  unfolding set_keys
  Keeps-set_keys k h = record { at = λ w kept. (kept.0, h) }

  rotate_from-Keeps :
      (m : Manager crypto) (now entropy : ℕ)
      → K m.keys
      → ((key : Key) (kid : Str)
          → generate_private_key crypto m.cfg.alg entropy ≡ some key
          → key_id crypto (public key) ≡ some kid
          → K (rotated crypto m.cfg kid key now m.keys))
      → Keeps (rotate_from crypto m now entropy)
  unfolding rotate_from
  rotate_from-Keeps m now entropy kept fresh = elim (Bool-cases m.static) [
    | inl static ↦ rw static Triple-raise
    | inr managed ↦ rw managed (
        Triple-bind
          (Triple-lift
            {Q = λ key w. Keeping w × (generate_private_key crypto m.cfg.alg entropy ≡ some key)} _
            (λ w h. h) (λ key e w h. (h, e)))
          λ key.
            Triple-bind
              (Triple-lift {Q = λ kid w. Keeping w × K (rotated crypto m.cfg kid key now m.keys)} _
                (λ w h. h.0) (λ kid e w h. (h.0, fresh key kid h.1 e)))
              λ kid. record {
                at = λ w h.
                    (Triple-bind (Keeps-on_disk _) λ _.
                        Triple-bind (Keeps-set_keys _ h.1)
                          λ _. Triple-on_error (Keeps-on_disk _) (Keeps-set_keys m.keys kept)).at
                      w h.0;
              })
  ]

  sweep_expired-Keeps :
      (m : Manager crypto) (now : ℕ) (rs : List (RetiredKey crypto))
      → K m.keys
      → K (swept_keys crypto cfg now m.keys)
      → Keeps (sweep_expired crypto m now rs)
  unfolding sweep_expired
  sweep_expired-Keeps m now [] kept swept = Triple-pure tt
  sweep_expired-Keeps m now (r ∷ rs) kept swept =
      Triple-bind
        (Triple-bind (Keeps-set_keys _ swept)
          λ _. Triple-on_error (Keeps-on_disk _) (Keeps-set_keys m.keys kept))
        λ _. Keeps-on_disk _

  -- Maintenance keeps what rotations and sweeps of the keys in memory keep.
  pub maintain-Keeps :
      (now entropy : ℕ) (w : World crypto)
      → ((k : KeySet crypto) → K k → K (swept_keys crypto cfg now k))
      → ((k : KeySet crypto) (key : Key) (kid : Str)
          → generate_private_key crypto cfg.alg entropy ≡ some key
          → key_id crypto (public key) ≡ some kid
          → K k
          → K (rotated crypto cfg kid key now k))
      → Keeping w
      → Keeping (maintain crypto now entropy w).1
  unfolding maintain rotate_locked sweep_locked
  maintain-Keeps now entropy w when_swept when_rotated h =
      let swept : Keeps (sweep_locked crypto now) = record {
        at = λ v kept.
            (sweep_expired-Keeps v.manager now _ kept.1 (when_swept v.manager.keys kept.1)).at v
              kept;
      } in
      let turned : Keeps (rotate_locked crypto now entropy) = record {
        at = λ v kept.
            (rotate_from-Keeps v.manager now entropy kept.1 (λ key kid made named.
                subst (λ c. K (rotated crypto c kid key now v.manager.keys)) (sym kept.0)
                  (when_rotated v.manager.keys key kid
                    (subst (λ c. generate_private_key crypto c.alg entropy ≡ some key) kept.0 made)
                    named kept.1))).at
              v kept;
      } in
      if_either Keeping w.manager.static _ _ h (
        if_either Keeping
          (rotation_due crypto now w.manager
            || not (w.manager.keys.active.alg == w.manager.cfg.alg))
          _ _ (After-all Keeping _ _ ((Triple-bind turned (λ _. swept)).at w h))
          (After-all Keeping _ _ (swept.at w h)))
