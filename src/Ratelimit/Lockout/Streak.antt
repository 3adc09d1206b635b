-- ===== src/Ratelimit/Lockout/Streak.antt =====
-- lockout.go: how a streak of failures locks an account, and for how long.
use mcp_oauth_gateway.Base.{ℕ, suc, ◌+◌, ◌^◌, ◌≤◌, ◌<◌, ◌≡◌, refl, false, ◌∙◌, sym, ap}
use mcp_oauth_gateway.Base.{Option, none, some, List, [], ◌∷◌, ◌++◌, arith, Str, eq_refl, ltb}
use mcp_oauth_gateway.Base.{length, All, empty, insert, delete, if◌then◌else◌, ◌==◌, nat_eq}
use native.Mathlib.Nat.{zero-add, add-zero, add-suc, suc-add}
use mcp_oauth_gateway.Ratelimit.Lockout.{LockoutEntry, Lockout, new_lockout, entry_locked, locked}
use mcp_oauth_gateway.Ratelimit.Lockout.{fail_entry, fail, reset}

-- The failures of one account at the given times, in their order.
unfoldable pub fail_all : Str → List ℕ → Option Lockout → Option Lockout
unfolding fail
fail_all key [] l = l
fail_all key (t ∷ ts) l = fail_all key ts (fail key t l)

-- The entry of the account after those failures.
pub fail_entries : ℕ → ℕ → List ℕ → Option LockoutEntry → Option LockoutEntry
fail_entries threshold duration [] e = e
fail_entries threshold duration (t ∷ ts) e =
    fail_entries threshold duration ts (some (fail_entry threshold duration t e))

pub locked-fail_all :
    (key : Str) (ts : List ℕ) (l : Lockout) (now : ℕ)
    → locked (fail_all key ts (some l)) key now
      ≡ entry_locked (fail_entries l.threshold l.duration ts (l.entries key)) now
unfolding fail_all fail_entries locked
locked-fail_all key [] l now = refl
locked-fail_all key (t ∷ ts) l now =
    let x = fail_entry l.threshold l.duration t (l.entries key) in
    rw eq_refl at (locked-fail_all key ts (record l { entries = insert key x l.entries }) now)

-- The entry has `n` failures and the given end of its lock.
abbrev Counts : ℕ → ℕ → Option LockoutEntry → Type 0
Counts n until none = (n ≡ 0) × (until ≡ 0)
Counts n until (some e) = (e.failures ≡ n) × (e.locked_until ≡ until)

fail_entry-Counts :
    (threshold duration t n : ℕ) (e : Option LockoutEntry)
    → Counts n 0 e
    → suc n < threshold
    → threshold < 2 ^ 63
    → Counts (suc n) 0 (some (fail_entry threshold duration t e))
unfolding fail_entry
fail_entry-Counts threshold duration t n none h k b = ground arith
fail_entry-Counts threshold duration t n (some e) h k b = ground arith

fail_entry-last :
    (threshold duration t n now : ℕ) (e : Option LockoutEntry)
    → Counts n 0 e
    → suc n ≤ threshold
    → threshold < 2 ^ 63
    → entry_locked (some (fail_entry threshold duration t e)) now
      ≡ (if suc n == threshold then ltb now (t + duration) else false)
unfolding fail_entry entry_locked
fail_entry-last threshold duration t n now none h k b = ground arith
fail_entry-last threshold duration t n now (some e) h k b = ground arith

fail_entries-Counts :
    (threshold duration n : ℕ) (ts : List ℕ) (e : Option LockoutEntry)
    → Counts n 0 e
    → n + length ts < threshold
    → threshold < 2 ^ 63
    → Counts (n + length ts) 0 (fail_entries threshold duration ts e)
unfolding fail_entries
fail_entries-Counts threshold duration n [] e h k b = rw add-zero h
fail_entries-Counts threshold duration n (t ∷ ts) e h k b =
    let e' = some (fail_entry threshold duration t e) in
    let next = fail_entry-Counts threshold duration t n e h (omega arith) b in
    rw add-suc
      (rw suc-add at (fail_entries-Counts threshold duration (suc n) ts e' next (omega arith) b))

-- A lock that is running is not moved by a failure.
fail_entry-running :
    (threshold duration t until : ℕ) (e : LockoutEntry)
    → e.locked_until ≡ until
    → t < until
    → threshold ≤ e.failures
    → suc e.failures < 2 ^ 64
    → ((fail_entry threshold duration t (some e)).locked_until ≡ until)
      × ((fail_entry threshold duration t (some e)).failures ≡ suc e.failures)
unfolding fail_entry
fail_entry-running threshold duration t until e h k m b = ground arith

fail_entries-running :
    (threshold duration until : ℕ) (ts : List ℕ) (e : LockoutEntry) (now : ℕ)
    → e.locked_until ≡ until
    → All (λ t. t < until) ts
    → threshold ≤ e.failures
    → e.failures + length ts < 2 ^ 64
    → entry_locked (fail_entries threshold duration ts (some e)) now ≡ ltb now until
unfolding fail_entries
fail_entries-running threshold duration until [] e now h a m b = unfold entry_locked in ground arith
fail_entries-running threshold duration until (t ∷ ts) e now h (a, rest) m b =
    let (same, more) = fail_entry-running threshold duration t until e h a m (omega arith) in
    fail_entries-running threshold duration until ts (fail_entry threshold duration t (some e)) now
      same rest (omega arith) (omega arith)

fail_entries-append :
    (threshold duration t : ℕ) (ts : List ℕ) (e : Option LockoutEntry)
    → fail_entries threshold duration (ts ++ t ∷ []) e
      ≡ some (fail_entry threshold duration t (fail_entries threshold duration ts e))
unfolding fail_entries
fail_entries-append threshold duration t [] e = refl
fail_entries-append threshold duration t (u ∷ ts) e =
    fail_entries-append threshold duration t ts (some (fail_entry threshold duration u e))

pub new_lockout-pos :
    (threshold duration : ℕ)
    → 0 < threshold
    → new_lockout threshold duration
      ≡ some (record { threshold = threshold; duration = duration; entries = empty })
unfolding new_lockout
new_lockout-pos threshold duration h = ground arith

-- A streak of failures from the start, no longer than the threshold, locks the account exactly if
-- it reaches the threshold, and then from its last failure for the configured duration.
pub fail_all_at_threshold :
    (threshold duration : ℕ) (key : Str) (ts : List ℕ) (t now : ℕ)
    → suc (length ts) ≤ threshold
    → threshold < 2 ^ 63
    → locked (fail_all key (ts ++ t ∷ []) (new_lockout threshold duration)) key now
      ≡ (if suc (length ts) == threshold then ltb now (t + duration) else false)
fail_all_at_threshold threshold duration key ts t now h b =
    let counted = fail_entries-Counts threshold duration 0 ts none (refl, refl) (omega arith) b in
    rw (new_lockout-pos threshold duration (omega arith)) (
      locked-fail_all key (ts ++ t ∷ []) _ now
      ∙ rw fail_entries-append
          (fail_entry-last threshold duration t (length ts) now _ (rw zero-add at counted) h b))

-- While a lock runs, failures do not move its end.
pub fail_all_while_locked :
    (l : Lockout) (key : Str) (e : LockoutEntry) (ts : List ℕ) (now : ℕ)
    → l.entries key ≡ some e
    → l.threshold ≤ e.failures
    → All (λ t. t < e.locked_until) ts
    → e.failures + length ts < 2 ^ 64
    → locked (fail_all key ts (some l)) key now ≡ ltb now e.locked_until
fail_all_while_locked l key e ts now found many before small =
    locked-fail_all key ts l now
    ∙ rw found
        (fail_entries-running l.threshold l.duration e.locked_until ts e now refl before many small)

fail_entry-elapsed :
    (threshold duration t : ℕ) (e : LockoutEntry)
    → 0 < e.locked_until
    → e.locked_until ≤ t
    → fail_entry threshold duration t (some e) ≡ fail_entry threshold duration t none
unfolding fail_entry
fail_entry-elapsed threshold duration t e h k = ground arith

pub fail_entries-elapsed :
    (threshold duration t : ℕ) (ts : List ℕ) (e : LockoutEntry)
    → 0 < e.locked_until
    → e.locked_until ≤ t
    → fail_entries threshold duration (t ∷ ts) (some e)
      ≡ fail_entries threshold duration (t ∷ ts) none
unfolding fail_entries
fail_entries-elapsed threshold duration t ts e h k =
    ap (λ x. fail_entries threshold duration ts (some x))
      (fail_entry-elapsed threshold duration t e h k)

-- Once a lock has elapsed the streak behind it counts for nothing: further failures lock the
-- account as they would after a successful login.
pub fail_all_after_lock :
    (l : Lockout) (key : Str) (e : LockoutEntry) (t : ℕ) (ts : List ℕ) (now : ℕ)
    → l.entries key ≡ some e
    → 0 < e.locked_until
    → e.locked_until ≤ t
    → locked (fail_all key (t ∷ ts) (some l)) key now
      ≡ locked (fail_all key (t ∷ ts) (reset key (some l))) key now
unfolding reset
fail_all_after_lock l key e t ts now found armed over =
    let l' : Lockout = record l { entries = delete key l.entries } in
    locked-fail_all key (t ∷ ts) l now
    ∙ rw (found, fail_entries-elapsed l.threshold l.duration t ts e armed over)
        (sym (rw eq_refl at (locked-fail_all key (t ∷ ts) l' now)))
