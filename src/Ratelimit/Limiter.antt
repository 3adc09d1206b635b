-- ===== src/Ratelimit/Limiter.antt =====
-- pkg/ratelimit/ratelimit.go: the token buckets, one for each client IP. The bucket itself is
-- golang.org/x/time/rate, which the section takes as a parameter.
pub mod Sweep
mod Tests
use mcp_oauth_gateway.Base.{
  ℕ, ◌+◌, ◌*◌, ◌/◌, ◌≤◌, ◌<◌, ◌≡◌, Bool, true, Option, none, some, ltb, leb,
}
use mcp_oauth_gateway.Base.{Str, Map, empty, insert, delete_if, if◌then◌else◌, ◌==◌, str_eq}

-- The zero value means "disabled"; a window is in nanoseconds.
pub record Limit : Type 0 where
  pub events : ℕ
  pub window : ℕ

unfoldable pub enabled : Limit → Bool
enabled l = ltb 0 l.events

-- What the code calls of `rate.Limiter`: a bucket from its refill interval and its size, and
-- `Allow` at a time.
pub record Rate : Type 1 where
  pub Bucket : Type 0
  pub new_bucket : ℕ → ℕ → Bucket
  pub allow_at : ℕ → Bucket → Bool × Bucket

module _ (rate : Rate) where
  open rate use {Bucket, new_bucket, allow_at}

  pub record Visitor : Type 0 where
    pub bucket : Bucket
    pub last_seen : ℕ

  pub record Limiter : Type 0 where
    pub limit : Limit
    pub visitors : Map Visitor

  pub new_limiter : Limit → Option Limiter
  unfolding enabled
  new_limiter limit =
      if enabled limit then some (record { limit = limit; visitors = empty }) else none

  -- The bucket of a visitor, made on first sight.
  pub bucket_of : Limit → Option Visitor → Bucket
  bucket_of limit none = new_bucket (limit.window / limit.events) limit.events
  bucket_of limit (some v) = v.bucket

  -- `now` is the reading of `time.Now()` here, and `later` the one in `rate`.
  pub allow_visitor : Limit → ℕ → ℕ → Option Visitor → Bool × Visitor
  unfolding bucket_of
  allow_visitor limit now later v =
      let (ok, b) = allow_at later (bucket_of limit v) in
      (ok, record { bucket = b; last_seen = now })

  pub allow : Str → ℕ → ℕ → Option Limiter → Bool × Option Limiter
  allow key now later none = (true, none)
  allow key now later (some l) =
      let (ok, v) = allow_visitor l.limit now later (l.visitors key) in
      (ok, some (record l { visitors = insert key v l.visitors }))

  -- `now.Sub(v.lastSeen) >= window` is `lastSeen + window <= now`.
  pub is_idle : ℕ → ℕ → Visitor → Bool
  is_idle window now v = leb (v.last_seen + window) now

  unfoldable pub sweep : ℕ → Option Limiter → Option Limiter
  unfolding is_idle
  sweep now none = none
  sweep now (some l) =
      some (record l { visitors = delete_if (is_idle l.limit.window now) l.visitors })
