-- ===== src/Ratelimit/Limiter/Tests.antt =====
-- A limiter over a simple bucket: one that lets a request pass when its whole period has gone by.
use mcp_oauth_gateway.Base.{ℕ, ◌+◌, ◌*◌, ◌≤◌, ◌≡◌, refl, Bool, true, false, Option, none, some}
use mcp_oauth_gateway.Base.{[], ◌∷◌, arith, Str, lit, str_eqb, leb}
use mcp_oauth_gateway.Ratelimit.Limiter.{Limit, Rate, new_limiter, allow, allow_visitor, sweep}
use mcp_oauth_gateway.Ratelimit.Limiter.Sweep.{
  Used, made, called, Refills, answers, serve, answers-sweep,
}

record Spaced : Type 0 where
  period : ℕ
  last : Option ℕ

abbrev may_pass : ℕ → Spaced → Bool
may_pass now b = elim b.last [ none ↦ true | some t ↦ leb (t + b.period) now ]

abbrev spaced : Rate
spaced = record {
  Bucket = Spaced;
  new_bucket = λ interval burst. record { period = burst * interval; last = none };
  allow_at = λ now b. (may_pass now b, record b { last = some now });
}

abbrev BeforeOrNever : ℕ → Option ℕ → Type 0
BeforeOrNever seen none = Unit
BeforeOrNever seen (some t) = t ≤ seen

Used-spaced :
    {interval burst seen : ℕ} {b : Spaced}
    → Used spaced interval burst seen b
    → (b.period ≡ burst * interval) × BeforeOrNever seen b.last
Used-spaced (made seen) = (refl, tt)
Used-spaced (called now h u) = ((Used-spaced u).0, omega arith)

may_pass-full :
    (period seen now : ℕ) (last : Option ℕ)
    → BeforeOrNever seen last
    → seen + period ≤ now
    → may_pass now (record { period = period; last = last }) ≡ true
may_pass-full period seen now none h k = refl
may_pass-full period seen now (some t) h k = ground arith

spaced-Refills : Refills spaced
spaced-Refills = record {
  full = λ interval burst seen now b used h.
      let (same, before) = Used-spaced used in
      cc (may_pass-full b.period seen now b.last before (rw same h), same);
}

abbrev per_second : Limit
per_second = record { events = 2; window = 10 }

abbrev alice : Str
alice = lit "10.0.0.1"

answers_test :
    answers spaced
      ((alice, 3) ∷ (alice, 5) ∷ (alice, 14) ∷ (alice, 24) ∷ [])
      (new_limiter spaced per_second)
    ≡ true ∷ false ∷ false ∷ true ∷ []
unfolding answers new_limiter allow allow_visitor str_eqb
answers_test = refl

answers-sweep_example :
    answers spaced
      ((alice, 20) ∷ [])
      (sweep spaced 18 (serve spaced ((alice, 3) ∷ []) (new_limiter spaced per_second)))
    ≡ answers spaced
        ((alice, 20) ∷ [])
        (serve spaced ((alice, 3) ∷ []) (new_limiter spaced per_second))
answers-sweep_example =
    answers-sweep spaced spaced-Refills per_second 0 18 30 ((alice, 3) ∷ []) ((alice, 20) ∷ [])
      (omega arith) (omega arith)
