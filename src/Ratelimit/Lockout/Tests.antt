-- ===== src/Ratelimit/Lockout/Tests.antt =====
-- The lockout at concrete streaks of failures.
use mcp_oauth_gateway.Base.{◌+◌, ◌<◌, ◌≤◌, ◌≡◌, refl, true, false, some, [], ◌∷◌, arith}
use mcp_oauth_gateway.Base.{Str, lit, str_eqb}
use mcp_oauth_gateway.Ratelimit.Lockout.{
  LockoutEntry, Lockout, new_lockout, locked, fail, fail_entry, reset, sweep, entry_locked,
}
use mcp_oauth_gateway.Ratelimit.Lockout.Streak.{
  fail_all, fail_all_at_threshold, fail_all_while_locked, fail_all_after_lock,
}
use mcp_oauth_gateway.Ratelimit.Lockout.Reachable.{
  started, failed, failures_of, locked-Reach, locked-sweep,
}

abbrev operator : Str
operator = lit "operator"

abbrev armed : LockoutEntry
armed = record { failures = 3; locked_until = 30; last_failure = 20 }

abbrev one_account : Lockout
one_account = record { threshold = 3; duration = 10; entries = λ k. some armed }

fail_all_at_threshold_example :
    locked (fail_all operator (1 ∷ 2 ∷ 20 ∷ []) (new_lockout 3 10)) operator 25 ≡ true
fail_all_at_threshold_example =
    fail_all_at_threshold 3 10 operator (1 ∷ 2 ∷ []) 20 25 (omega arith) (omega arith)

fail_all_while_locked_example :
    locked (fail_all operator (22 ∷ 29 ∷ []) (some one_account)) operator 30 ≡ false
fail_all_while_locked_example =
    fail_all_while_locked one_account operator armed (22 ∷ 29 ∷ []) 30 refl (omega arith)
      (omega arith) (omega arith)

fail_all_after_lock_example :
    locked (fail_all operator (31 ∷ 32 ∷ []) (some one_account)) operator 33
    ≡ locked (fail_all operator (31 ∷ 32 ∷ []) (reset operator (some one_account))) operator 33
fail_all_after_lock_example =
    fail_all_after_lock one_account operator armed 31 (32 ∷ []) 33 refl (omega arith) (omega arith)

locked_after_two : locked (fail operator 7 (fail operator 5 (new_lockout 2 10))) operator 16 ≡ true
unfolding locked fail new_lockout entry_locked fail_entry str_eqb
locked_after_two = refl

locked-Reach_example :
    (16 < 7 + 10)
    × (2 ≤ failures_of (fail operator 7 (fail operator 5 (new_lockout 2 10))) operator)
locked-Reach_example =
    locked-Reach operator 16
      (failed operator 7 (omega arith) (failed operator 5 (omega arith) (started 4))) (omega arith)
      locked_after_two

locked-sweep_example :
    (locked (sweep 35 (some one_account)) operator 41 ≡ locked (some one_account) operator 41)
    × (locked (fail_all operator (40 ∷ []) (sweep 35 (some one_account))) operator 41
        ≡ locked (fail_all operator (40 ∷ []) (some one_account)) operator 41)
locked-sweep_example =
    locked-sweep one_account operator armed 35 40 [] 41 refl (omega arith) (omega arith)
      (omega arith)
