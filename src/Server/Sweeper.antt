-- ===== src/Server/Sweeper.antt =====
-- sweeper.go, with refreshSweepTTL of config.go and newKeyManager of deps.go: one pass over all that expires.
pub mod Store
pub mod Live
use mcp_oauth_gateway.Base.{
  ℕ, ◌+◌, ◌*◌, ◌-◌, Str, Bool, Option, none, some, if◌then◌else◌, ◌==◌, nat_eq,
}
use mcp_oauth_gateway.Repository.Bolt.{Bolt}
use mcp_oauth_gateway.Repository.Models.{Json, Sessions}
use mcp_oauth_gateway.Repository.Clients.{delete_expired_clients}
use mcp_oauth_gateway.Repository.Maintenance.{delete_expired_sessions}
use mcp_oauth_gateway.Keys.Types.{Crypto, Alg}
use mcp_oauth_gateway.Keys.Disk.{Outcome, ok, err, crashed}
use mcp_oauth_gateway.Keys.Directory.{Config}
use mcp_oauth_gateway.Keys.Manager.{World, maintain}
use mcp_oauth_gateway.Ratelimit.Limiter.{Limiter, Rate, new_limiter}
use mcp_oauth_gateway.Ratelimit.Lockout.{Lockout, new_lockout}
use mcp_oauth_gateway.Ratelimit.Limits.{parsed_limit}
use mcp_oauth_gateway.Ratelimit.Limiter
use mcp_oauth_gateway.Ratelimit.Lockout

-- The limits of the configuration.
pub record AbuseProtection : Type 0 where
  pub rate_limit_register : Str
  pub rate_limit_token : Str
  pub rate_limit_login : Str
  pub rate_limit_authorize : Str
  pub login_lockout_threshold : ℕ
  pub login_lockout_duration : ℕ

-- The lifetimes of the configuration.
pub record Lifetimes : Type 0 where
  pub access_token_ttl : ℕ
  pub refresh_token_ttl : ℕ
  pub auth_code_ttl : ℕ
  pub clock_skew : ℕ

unfoldable pub refresh_sweep_ttl : Lifetimes → ℕ
refresh_sweep_ttl rc =
    if rc.refresh_token_ttl == 0 then rc.access_token_ttl else rc.refresh_token_ttl

abbrev pub retire_window : Lifetimes → ℕ
retire_window rc = rc.access_token_ttl + 2 * rc.clock_skew

-- The settings of the key manager.
abbrev pub keys_config : Lifetimes → Alg → Bool → ℕ → Config
keys_config rc alg has_legacy_path rotation_interval = record {
  alg = alg;
  has_legacy_path = has_legacy_path;
  rotation_interval = rotation_interval;
  retire_window = retire_window rc;
}

module _ (rate : Rate) where
  pub record Limiters : Type 0 where
    pub register : Option (Limiter rate)
    pub token : Option (Limiter rate)
    pub login : Option (Limiter rate)
    pub authorize : Option (Limiter rate)
    pub lockout : Option Lockout

  unfoldable pub new_limiters : AbuseProtection → Limiters
  new_limiters cfg = record {
    register = new_limiter rate (parsed_limit cfg.rate_limit_register);
    token = new_limiter rate (parsed_limit cfg.rate_limit_token);
    login = new_limiter rate (parsed_limit cfg.rate_limit_login);
    authorize = new_limiter rate (parsed_limit cfg.rate_limit_authorize);
    lockout = new_lockout cfg.login_lockout_threshold cfg.login_lockout_duration;
  }

  unfoldable pub sweep_limiters : ℕ → Limiters → Limiters
  unfolding Limiter.sweep Lockout.sweep
  sweep_limiters now l = record {
    register = Limiter.sweep rate now l.register;
    token = Limiter.sweep rate now l.token;
    login = Limiter.sweep rate now l.login;
    authorize = Limiter.sweep rate now l.authorize;
    lockout = Lockout.sweep now l.lockout;
  }

-- Before this time a record is expired; no time is before 0.
abbrev pub cutoff : Lifetimes → ℕ → ℕ → ℕ
cutoff rc now ttl = now - (ttl + rc.clock_skew)

module _ (bolt : Bolt) (json : Json) (lib : Sessions) (crypto : Crypto) (rate : Rate)
    (rc : Lifetimes) where
  open bolt use {Bucket}

  pub record Gateway : Type 0 where
    pub bucket : Bucket
    pub keys : World crypto
    pub limiters : Limiters rate

  -- An error of the store is only logged.
  unfoldable pub sweep_store : ℕ → Bucket → Bucket
  unfolding refresh_sweep_ttl
  sweep_store now b =
      let sessions =
        (delete_expired_sessions bolt json lib (cutoff rc now rc.access_token_ttl)
          (cutoff rc now (refresh_sweep_ttl rc)) (cutoff rc now rc.auth_code_ttl) b).1 in
      (delete_expired_clients bolt json now sessions).1

  -- An error of the maintenance is only logged; nothing follows if the process stops.
  abbrev pub after_maintenance : ℕ → Gateway → Outcome (Unit {0}) × World crypto → Option Gateway
  after_maintenance now g (crashed, w) = none
  after_maintenance now g (_, w) =
      some (record g { keys = w; limiters = sweep_limiters rate now g.limiters })

  -- `entropy` is what a key generation reads.
  unfoldable pub sweep : ℕ → ℕ → Gateway → Option Gateway
  unfolding sweep_store sweep_limiters
  sweep now entropy g =
      after_maintenance now (record g { bucket = sweep_store now g.bucket })
        (maintain crypto now entropy g.keys)
