-- ===== src/Ratelimit/Lockout.antt =====
-- pkg/ratelimit/lockout.go: the login lockout of one process. A nil `*Lockout` is `none`; the mutex
-- makes each method one step. A `time.Time` is its number of nanoseconds since the zero time.
pub mod Streak
pub mod Reachable
mod Tests
use mcp_oauth_gateway.Base.{ℕ, ◌+◌, ◌%◌, ◌^◌, Bool, false, not, ◌&&◌, Option, none, some}
use mcp_oauth_gateway.Base.{Str, Map, empty, insert, delete, delete_if, ltb, leb, ◌==◌, str_eq}
use mcp_oauth_gateway.Base.{nat_eq, if◌then◌else◌}

pub record LockoutEntry : Type 0 where
  pub failures : ℕ
  pub locked_until : ℕ
  pub last_failure : ℕ

pub record Lockout : Type 0 where
  pub threshold : ℕ
  pub duration : ℕ
  pub entries : Map LockoutEntry

abbrev pub fresh_entry : LockoutEntry
fresh_entry = record { failures = 0; locked_until = 0; last_failure = 0 }

-- A threshold of zero (or below) disables the lockout.
pub new_lockout : ℕ → ℕ → Option Lockout
new_lockout threshold duration =
    if leb threshold 0
    then none
    else some (record { threshold = threshold; duration = duration; entries = empty })

unfoldable pub entry_locked : Option LockoutEntry → ℕ → Bool
entry_locked none now = false
entry_locked (some e) now = ltb now e.locked_until

unfoldable pub locked : Option Lockout → Str → ℕ → Bool
unfolding entry_locked
locked none key now = false
locked (some l) key now = entry_locked (l.entries key) now

-- The streak ends when its lock has elapsed.
end_streak : ℕ → LockoutEntry → LockoutEntry
end_streak now e =
    if not (e.locked_until == 0) && not (ltb now e.locked_until)
    then record e { failures = 0; locked_until = 0 }
    else e

-- `failures` is a 64-bit word.
count_failure : ℕ → ℕ → ℕ → LockoutEntry → LockoutEntry
count_failure threshold duration now e =
    let n = (e.failures + 1) % 2 ^ 64 in
    record {
      failures = n;
      locked_until = if n == threshold then now + duration else e.locked_until;
      last_failure = now;
    }

pub fail_entry : ℕ → ℕ → ℕ → Option LockoutEntry → LockoutEntry
unfolding end_streak count_failure
fail_entry threshold duration now none =
    count_failure threshold duration now (end_streak now fresh_entry)
fail_entry threshold duration now (some e) = count_failure threshold duration now (end_streak now e)

pub fail : Str → ℕ → Option Lockout → Option Lockout
fail key now none = none
fail key now (some l) = some (record l {
  entries = insert key (fail_entry l.threshold l.duration now (l.entries key)) l.entries;
})

pub reset : Str → Option Lockout → Option Lockout
reset key none = none
reset key (some l) = some (record l { entries = delete key l.entries })

-- `now.Sub(last) >= duration` is `last + duration <= now`.
is_stale : ℕ → ℕ → LockoutEntry → Bool
is_stale duration now e = not (ltb now e.locked_until) && leb (e.last_failure + duration) now

unfoldable pub sweep : ℕ → Option Lockout → Option Lockout
unfolding is_stale
sweep now none = none
sweep now (some l) = some (record l { entries = delete_if (is_stale l.duration now) l.entries })
