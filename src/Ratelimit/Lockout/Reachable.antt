-- ===== src/Ratelimit/Lockout/Reachable.antt =====
-- lockout.go: what holds of every lockout that the methods can produce, and what `Sweep` may forget.
use mcp_oauth_gateway.Base.{
  ℕ, zero, suc, ◌+◌, ◌^◌, ◌≤◌, ◌<◌, ◌≡◌, refl, true, Option, none, some, arith,
}
use mcp_oauth_gateway.Base.{List, ◌∷◌, Str, inl, inr, Bool-cases, Bool, false}
use mcp_oauth_gateway.Base.{keep_unless, delete_if, sym, ◌∙◌, if◌then◌else◌, ◌==◌, str_eq}
use mcp_oauth_gateway.Ratelimit.Lockout.{LockoutEntry, Lockout, new_lockout, entry_locked, locked}
use mcp_oauth_gateway.Ratelimit.Lockout.{fail_entry, fail, reset, sweep, is_stale}
use mcp_oauth_gateway.Ratelimit.Lockout.Streak.{
  fail_all, fail_entries, locked-fail_all, fail_entries-elapsed, new_lockout-pos,
}

-- The lockouts after `n` calls, the last at time `clock`, at times that do not go back.
pub data Reach (threshold duration : ℕ) : ℕ → ℕ → Option Lockout → Type 0 where
  started : (clock : ℕ) → Reach threshold duration 0 clock (new_lockout threshold duration)
  failed :
      {n clock : ℕ} {l : Option Lockout} (key : Str) (now : ℕ)
      → clock ≤ now
      → Reach threshold duration n clock l
      → Reach threshold duration (suc n) now (fail key now l)
  was_reset :
      {n clock : ℕ} {l : Option Lockout} (key : Str)
      → Reach threshold duration n clock l
      → Reach threshold duration (suc n) clock (reset key l)
  swept :
      {n clock : ℕ} {l : Option Lockout} (now : ℕ)
      → clock ≤ now
      → Reach threshold duration n clock l
      → Reach threshold duration (suc n) now (sweep now l)

record IsSound (threshold duration n clock : ℕ) (e : LockoutEntry) : Type 0 where
  few : e.failures ≤ n
  past : e.last_failure ≤ clock
  window : e.locked_until ≤ e.last_failure + duration
  streak : 0 < e.locked_until → threshold ≤ e.failures

abbrev EntrySound : ℕ → ℕ → ℕ → ℕ → Option LockoutEntry → Type 0
EntrySound threshold duration n clock none = Unit
EntrySound threshold duration n clock (some e) = IsSound threshold duration n clock e

fail_entry-IsSound :
    (threshold duration n clock now : ℕ) (e : Option LockoutEntry)
    → clock ≤ now
    → suc n < 2 ^ 64
    → 0 < threshold
    → EntrySound threshold duration n clock e
    → IsSound threshold duration (suc n) now (fail_entry threshold duration now e)
unfolding fail_entry
fail_entry-IsSound threshold duration n clock now none h b p s = ground arith
fail_entry-IsSound threshold duration n clock now (some e) h b p s = ground arith

EntrySound-mono :
    (threshold duration n clock now : ℕ) (e : Option LockoutEntry)
    → clock ≤ now
    → EntrySound threshold duration n clock e
    → EntrySound threshold duration (suc n) now e
EntrySound-mono threshold duration n clock now none h s = tt
EntrySound-mono threshold duration n clock now (some e) h s = ground arith

EntrySound-if :
    (threshold duration n clock : ℕ) (b : Bool) (e f : Option LockoutEntry)
    → EntrySound threshold duration n clock e
    → EntrySound threshold duration n clock f
    → EntrySound threshold duration n clock (if b then e else f)
EntrySound-if threshold duration n clock true e f h k = h
EntrySound-if threshold duration n clock false e f h k = k

EntrySound-keep_unless :
    (threshold duration n clock : ℕ) (drop : LockoutEntry → Bool) (e : Option LockoutEntry)
    → EntrySound threshold duration n clock e
    → EntrySound threshold duration n clock (keep_unless drop e)
EntrySound-keep_unless threshold duration n clock drop none h = tt
EntrySound-keep_unless threshold duration n clock drop (some e) h =
    EntrySound-if threshold duration n clock (drop e) none (some e) tt h

record AllSound (threshold duration n clock : ℕ) (l : Lockout) : Type 0 where
  same_threshold : l.threshold ≡ threshold
  same_duration : l.duration ≡ duration
  enabled : 0 < threshold
  at_key : (key : Str) → EntrySound threshold duration n clock (l.entries key)

abbrev LockoutSound : ℕ → ℕ → ℕ → ℕ → Option Lockout → Type 0
LockoutSound threshold duration n clock none = Unit
LockoutSound threshold duration n clock (some l) = AllSound threshold duration n clock l

module _ (threshold duration n clock now : ℕ) (h : clock ≤ now) where
  fail-LockoutSound :
      (key : Str) (l : Option Lockout)
      → suc n < 2 ^ 64
      → LockoutSound threshold duration n clock l
      → LockoutSound threshold duration (suc n) now (fail key now l)
  unfolding fail
  fail-LockoutSound key none b s = tt
  fail-LockoutSound key (some l) b s = record {
    same_threshold = s.same_threshold;
    same_duration = s.same_duration;
    enabled = s.enabled;
    at_key = λ j.
        EntrySound-if threshold duration (suc n) now (key == j) (some _) (l.entries j)
          (rw (s.same_threshold, s.same_duration)
            (fail_entry-IsSound threshold duration n clock now (l.entries key) h b s.enabled
              (s.at_key key)))
          (EntrySound-mono threshold duration n clock now (l.entries j) h (s.at_key j));
  }

  reset-LockoutSound :
      (key : Str) (l : Option Lockout)
      → LockoutSound threshold duration n clock l
      → LockoutSound threshold duration (suc n) now (reset key l)
  unfolding reset
  reset-LockoutSound key none s = tt
  reset-LockoutSound key (some l) s = record {
    same_threshold = s.same_threshold;
    same_duration = s.same_duration;
    enabled = s.enabled;
    at_key = λ j.
        EntrySound-if threshold duration (suc n) now (key == j) none (l.entries j) tt
          (EntrySound-mono threshold duration n clock now (l.entries j) h (s.at_key j));
  }

  sweep-LockoutSound :
      (l : Option Lockout)
      → LockoutSound threshold duration n clock l
      → LockoutSound threshold duration (suc n) now (sweep now l)
  unfolding sweep
  sweep-LockoutSound none s = tt
  sweep-LockoutSound (some l) s = record {
    same_threshold = s.same_threshold;
    same_duration = s.same_duration;
    enabled = s.enabled;
    at_key = λ j.
        EntrySound-keep_unless threshold duration (suc n) now (is_stale l.duration now)
          (l.entries j)
          (EntrySound-mono threshold duration n clock now (l.entries j) h (s.at_key j));
  }

new_lockout-LockoutSound :
    (threshold duration clock : ℕ)
    → LockoutSound threshold duration 0 clock (new_lockout threshold duration)
unfolding new_lockout
new_lockout-LockoutSound zero duration clock = tt
new_lockout-LockoutSound (suc threshold) duration clock =
    rw (new_lockout-pos (suc threshold) duration (omega arith), LockoutSound)
      (record {
        same_threshold = refl;
        same_duration = refl;
        enabled = omega arith;
        at_key = λ key. tt;
      })

Reach-LockoutSound :
    {threshold duration n clock : ℕ} {l : Option Lockout}
    → Reach threshold duration n clock l
    → n < 2 ^ 64
    → LockoutSound threshold duration n clock l
Reach-LockoutSound {threshold} {duration} (started clock) b =
    new_lockout-LockoutSound threshold duration clock
Reach-LockoutSound {threshold} {duration} (failed {n} {clock} {l} key now h r) b =
    fail-LockoutSound threshold duration n clock now h key l b (Reach-LockoutSound r (omega arith))
Reach-LockoutSound {threshold} {duration} (was_reset {n} {clock} {l} key r) b =
    reset-LockoutSound threshold duration n clock clock (omega arith) key l
      (Reach-LockoutSound r (omega arith))
Reach-LockoutSound {threshold} {duration} (swept {n} {clock} {l} now h r) b =
    sweep-LockoutSound threshold duration n clock now h l (Reach-LockoutSound r (omega arith))

-- The number of failures that the entry of the account counts.
abbrev pub failures_of : Option Lockout → Str → ℕ
failures_of none key = 0
failures_of (some l) key = elim (l.entries key) [ none ↦ 0 | some e ↦ e.failures ]

locked-EntrySound :
    (threshold duration n clock now : ℕ) (e : Option LockoutEntry)
    → EntrySound threshold duration n clock e
    → entry_locked e now ≡ true
    → (now < clock + duration) × (threshold ≤ elim e [ none ↦ 0 | some e ↦ e.failures ])
unfolding entry_locked
locked-EntrySound threshold duration n clock now none s h = ground arith
locked-EntrySound threshold duration n clock now (some e) s h = ground arith

-- Whatever calls were made, fewer than 2^64 and at times that do not go back: an account is locked
-- only if it has at least `threshold` counted failures, and for less than `duration` past the last
-- call.
pub locked-Reach :
    {threshold duration n clock : ℕ} {l : Option Lockout} (key : Str) (now : ℕ)
    → Reach threshold duration n clock l
    → n < 2 ^ 64
    → locked l key now ≡ true
    → (now < clock + duration) × (threshold ≤ failures_of l key)
unfolding locked
locked-Reach {l = none} key now r b h = ground arith
locked-Reach {threshold} {duration} {n} {clock} {l = some l} key now r b h =
    locked-EntrySound threshold duration n clock now (l.entries key)
      ((Reach-LockoutSound r b).at_key key) h

is_stale-elapsed :
    (duration now : ℕ) (e : LockoutEntry) → is_stale duration now e ≡ true → e.locked_until ≤ now
unfolding is_stale
is_stale-elapsed duration now e h = ground arith

module _ (threshold duration swept_at : ℕ) (e : LockoutEntry) where
  entry_locked-keep_unless :
      (now : ℕ)
      → swept_at ≤ now
      → entry_locked (keep_unless (is_stale duration swept_at) (some e)) now
        ≡ entry_locked (some e) now
  unfolding entry_locked
  entry_locked-keep_unless now h = ground (arith, is_stale-elapsed duration swept_at e)

  fail_entries-keep_unless :
      (t : ℕ) (ts : List ℕ)
      → 0 < e.locked_until
      → swept_at ≤ t
      → fail_entries threshold duration (t ∷ ts) (keep_unless (is_stale duration swept_at) (some e))
        ≡ fail_entries threshold duration (t ∷ ts) (some e)
  fail_entries-keep_unless t ts armed h = elim (Bool-cases (is_stale duration swept_at e)) [
    | inl old ↦
        let over = is_stale-elapsed duration swept_at e old in
        rw old (sym (fail_entries-elapsed threshold duration t ts e armed (omega (arith, over))))
    | inr kept ↦ rw kept refl
  ]

-- Sweeping changes no answer about the present or the future, and an account that has been locked
-- is treated by later failures as if the sweep had not been.
pub locked-sweep :
    (l : Lockout) (key : Str) (e : LockoutEntry) (swept_at t : ℕ) (ts : List ℕ) (now : ℕ)
    → l.entries key ≡ some e
    → 0 < e.locked_until
    → swept_at ≤ t
    → swept_at ≤ now
    → (locked (sweep swept_at (some l)) key now ≡ locked (some l) key now)
      × (locked (fail_all key (t ∷ ts) (sweep swept_at (some l))) key now
          ≡ locked (fail_all key (t ∷ ts) (some l)) key now)
unfolding sweep locked
locked-sweep l key e swept_at t ts now found armed h k =
    let l' : Lockout = record l { entries = delete_if (is_stale l.duration swept_at) l.entries } in
    let kept = fail_entries-keep_unless l.threshold l.duration swept_at e t ts armed h in
    (
      rw found (entry_locked-keep_unless l.threshold l.duration swept_at e now k),
      locked-fail_all key (t ∷ ts) l' now
          ∙ rw (found, kept) (sym (rw found at (locked-fail_all key (t ∷ ts) l now))),
    )
