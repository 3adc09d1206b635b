-- ===== src/Server/Sweeper/Live.antt =====
-- sweeper.go: a token that is issued is known until its end.
use mcp_oauth_gateway.Base.{
  ℕ, ◌+◌, ◌≤◌, ◌<◌, Str, Bool, none, some, [], ◌++◌, ◌≡◌, ◌≢◌, sym, ◌∙◌, ap, subst, inl, arith,
}
use mcp_oauth_gateway.Repository.Bolt.{Bolt, Laws, ok}
use mcp_oauth_gateway.Repository.Models.{Json, Sessions, FositeRequest}
use mcp_oauth_gateway.Repository.Tokens.Creation.{access_token, prefix_of, get_of}
use mcp_oauth_gateway.Repository.Clients.{}
use mcp_oauth_gateway.Repository.Maintenance.Expiry.{}
use mcp_oauth_gateway.Keys.Types.{Crypto, SigningKey, Alg}
use mcp_oauth_gateway.Keys.Disk.{Outcome, ok as completed, crashed, err}
use mcp_oauth_gateway.Keys.Directory.{Config}
use mcp_oauth_gateway.Keys.Manager.{World, verification_key, maintain}
use mcp_oauth_gateway.Keys.Manager.Upkeep.{Keeping}
use mcp_oauth_gateway.Keys.Manager.Lifetime.{
  Signs, Serves, Elsewhere, verification_key-Serves, maintain-Serves,
}
use mcp_oauth_gateway.Ratelimit.Limiter.{Rate}
use mcp_oauth_gateway.Server.Sweeper.{
  Lifetimes, keys_config, Gateway, sweep_limiters, sweep_store, after_maintenance, sweep,
}
use mcp_oauth_gateway.Server.Sweeper.Store.{get_of-unchanged, get-sweep_store}

module _ (bolt : Bolt) (laws : Laws bolt) (json : Json) (lib : Sessions) (crypto : Crypto)
    (rate : Rate) (rc : Lifetimes) (alg : Alg) (has_legacy_path : Bool)
    (rotation_interval : ℕ) where
  open bolt use {get}
  open crypto use {public}

  abbrev cfg : Config
  cfg = keys_config rc alg has_legacy_path rotation_interval

  -- Passes before the end of a token that was issued at a time, under the signature, and signed with the
  -- key; and other work that leaves the token's record and the keys alone.
  pub data Later (issued : ℕ) (key : Str) (kid : Str)
      : Gateway bolt json lib crypto rate rc → Gateway bolt json lib crypto rate rc → Type 1 where
    none_yet : (g : Gateway bolt json lib crypto rate rc) → Later issued key kid g g
    then_swept :
        {g h i : Gateway bolt json lib crypto rate rc} (now entropy : ℕ)
        → issued ≤ now
        → now < issued + rc.access_token_ttl + rc.clock_skew
        → Elsewhere crypto cfg entropy kid
        → Later issued key kid g h
        → sweep bolt json lib crypto rate rc now entropy h ≡ some i
        → Later issued key kid g i
    then_served :
        {g h i : Gateway bolt json lib crypto rate rc}
        → Later issued key kid g h
        → get key i.bucket ≡ get key h.bucket
        → i.keys ≡ h.keys
        → Later issued key kid g i

  -- The store and the keys of a pass that did not end the process.
  after_maintenance-some :
      (now : ℕ) (g i : Gateway bolt json lib crypto rate rc) (r : Outcome (Unit {0}))
      (w : World crypto)
      → after_maintenance bolt json lib crypto rate rc now g (r, w) ≡ some i
      → (i.bucket ≡ g.bucket) × (i.keys ≡ w)
  after_maintenance-some now g i crashed w h = cc h
  after_maintenance-some now g i (completed a) w h =
      let same : record g { keys = w; limiters = sweep_limiters rate now g.limiters } ≡ i = cc h in
      (sym (ap (λ x. x.bucket) same), sym (ap (λ x. x.keys) same))
  after_maintenance-some now g i err w h =
      let same : record g { keys = w; limiters = sweep_limiters rate now g.limiters } ≡ i = cc h in
      (sym (ap (λ x. x.bucket) same), sym (ap (λ x. x.keys) same))

  module _ (s : Str) (a : SigningKey crypto) (r : FositeRequest lib) where
    Alive : Gateway bolt json lib crypto rate rc → Type 0
    Alive g =
        (get_of bolt json lib access_token s none g.bucket ≡ ok r)
        × Keeping crypto cfg (Serves crypto cfg a (r.requested_at + cfg.retire_window)) g.keys

    sweep-Alive :
        (now entropy : ℕ) (g i : Gateway bolt json lib crypto rate rc)
        → r.requested_at ≤ now
        → now < r.requested_at + rc.access_token_ttl + rc.clock_skew
        → Elsewhere crypto cfg entropy a.kid
        → sweep bolt json lib crypto rate rc now entropy g ≡ some i
        → Alive g
        → Alive i
    unfolding sweep Alive
    sweep-Alive now entropy g i late early other h alive =
        let (stored, kept) =
          after_maintenance-some now
            (record g { bucket = sweep_store bolt json lib crypto rate rc now g.bucket }) i
            (maintain crypto now entropy g.keys).0 (maintain crypto now entropy g.keys).1 h in
        (
          ap (get_of bolt json lib access_token s none) stored
              ∙ get_of-unchanged bolt laws json lib access_token s none g.bucket _ (
                  get-sweep_store bolt laws json lib rc crypto rate now access_token s none g.bucket
                    r alive.0 (omega (arith, early)))
              ∙ alive.0,
          subst (Keeping crypto cfg (Serves crypto cfg a (r.requested_at + cfg.retire_window)))
              (sym kept)
              (maintain-Serves crypto cfg a (r.requested_at + cfg.retire_window) now entropy g.keys
                (omega (arith, early)) (omega (arith, late)) other alive.1),
        )

    Later-Alive :
        {g h : Gateway bolt json lib crypto rate rc}
        → Later r.requested_at (prefix_of access_token ++ s) a.kid g h
        → Alive g
        → Alive h
    unfolding Alive
    Later-Alive (none_yet g) alive = alive
    Later-Alive (then_swept {h} {i} now entropy late early other before e) alive =
        sweep-Alive now entropy h i late early other e (Later-Alive before alive)
    Later-Alive (then_served {h} {i} before same_record same_keys) alive =
        let was = Later-Alive before alive in
        (
          get_of-unchanged bolt laws json lib access_token s none h.bucket i.bucket same_record
              ∙ was.0,
          subst (Keeping crypto cfg (Serves crypto cfg a (r.requested_at + cfg.retire_window)))
              (sym same_keys) was.1,
        )

    -- An access token whose record is stored and whose key signs, is known by both until its end, which is
    -- the margin for clocks later than its lifetime: through any passes of the sweeper, which may fail and
    -- may rotate keys, and other work that leaves its record and the keys alone. The kid must stay its own.
    pub still_accepted :
        (g h : Gateway bolt json lib crypto rate rc)
        → get_of bolt json lib access_token s none g.bucket ≡ ok r
        → g.keys.manager.cfg ≡ cfg
        → Signs crypto cfg a g.keys.manager.keys
        → a.kid ≢ []
        → Later r.requested_at (prefix_of access_token ++ s) a.kid g h
        → (get_of bolt json lib access_token s none h.bucket ≡ ok r)
          × (verification_key crypto a.kid h.keys.manager ≡ some (public a.key, a.alg))
    unfolding Alive
    still_accepted g h stored settings signs named later =
        let alive = Later-Alive later (stored, (settings, inl signs)) in
        (
          alive.0,
          verification_key-Serves crypto cfg a (r.requested_at + cfg.retire_window) h.keys.manager
              named (alive.1).1,
        )
