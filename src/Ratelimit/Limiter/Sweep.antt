-- ===== src/Ratelimit/Limiter/Sweep.antt =====
-- ratelimit.go: dropping idle buckets is not observable.
use mcp_oauth_gateway.Base.{ℕ, ◌+◌, ◌*◌, ◌/◌, ◌≤◌, ◌<◌, ◌≡◌, refl, ap, ◌⊎◌, inl, inr}
use mcp_oauth_gateway.Base.{Bool, Option, none, some, List, [], ◌∷◌, arith, Str, Map, insert}
use mcp_oauth_gateway.Base.{
  keep_unless, delete_if, ◌==◌, str_eq, leb, Bool-cases, empty, ltb, ltb→lt, ap₂,
}
use native.Mathlib.Nat.{mul-div-le}
use mcp_oauth_gateway.Ratelimit.Limiter.{Limit, enabled, Rate, Visitor, Limiter, new_limiter}
use mcp_oauth_gateway.Ratelimit.Limiter.{allow_visitor, allow, is_idle, sweep}

module _ (rate : Rate) where
  open rate use {Bucket, new_bucket, allow_at}

  -- A bucket that was made with this interval and size, and called last at time `seen`.
  pub data Used (interval burst : ℕ) : ℕ → Bucket → Type 0 where
    made : (seen : ℕ) → Used interval burst seen (new_bucket interval burst)
    called :
        {seen : ℕ} {b : Bucket} (now : ℕ)
        → seen ≤ now
        → Used interval burst seen b
        → Used interval burst now (allow_at now b).1

  -- What `rate` documents: a bucket refills by one token in each interval up to its size, so that
  -- after `burst` intervals with no call it is full, as a new one.
  pub record Refills : Type 0 where
    pub full :
        (interval burst seen now : ℕ) (b : Bucket)
        → Used interval burst seen b
        → seen + burst * interval ≤ now
        → allow_at now b ≡ allow_at now (new_bucket interval burst)

  -- The answers to a list of requests, each a key and the time that both readings of the clock give.
  unfoldable pub answers : List (Str × ℕ) → Option (Limiter rate) → List Bool
  answers [] l = []
  answers ((key, t) ∷ rest) l = let (ok, l') = allow rate key t t l in ok ∷ answers rest l'

  -- The limiter behind them.
  pub serve : List (Str × ℕ) → Option (Limiter rate) → Option (Limiter rate)
  serve [] l = l
  serve ((key, t) ∷ rest) l = serve rest (allow rate key t t l).1

  -- The times do not go back between the two given ones.
  abbrev pub Ordered : ℕ → List (Str × ℕ) → ℕ → Type 0
  Ordered from [] to = from ≤ to
  Ordered from ((key, t) ∷ rest) to = (from ≤ t) × Ordered t rest to

  abbrev Sound : Limit → ℕ → Option (Visitor rate) → Type 0
  Sound limit clock none = Unit
  Sound limit clock (some v) =
      (v.last_seen ≤ clock) × Used (limit.window / limit.events) limit.events v.last_seen v.bucket

  -- A visitor and what a sweep before `clock` may have left of it.
  abbrev Close : Limit → ℕ → Option (Visitor rate) → Option (Visitor rate) → Type 0
  Close limit clock o none = o ≡ none
  Close limit clock o (some v) = (o ≡ some v) ⊎ ((o ≡ none) × (v.last_seen + limit.window ≤ clock))

  -- The limiters agree up to idle visitors.
  record Agree (clock : ℕ) (limit : Limit) (m n : Map (Visitor rate)) : Type 0 where
    close : (j : Str) → Close limit clock (m j) (n j)
    sound : (j : Str) → Sound limit clock (n j)

  module _ (refills : Refills) (limit : Limit) (on : 0 < limit.events) where
    allow_visitor-Close :
        (clock t : ℕ) (o p : Option (Visitor rate))
        → clock ≤ t
        → Close limit clock o p
        → Sound limit clock p
        → allow_visitor rate limit t t o ≡ allow_visitor rate limit t t p
    unfolding allow_visitor
    allow_visitor-Close clock t o none h c s = rw c refl
    allow_visitor-Close clock t o (some v) h (inl e) s = rw e refl
    allow_visitor-Close clock t o (some v) h (inr (e, idle)) (past, used) =
        let full =
          refills.full (limit.window / limit.events) limit.events v.last_seen t v.bucket used
            (omega (arith, mul-div-le limit.window limit.events)) in
        rw (e, full) refl

    Close-later :
        (clock t : ℕ) (o p : Option (Visitor rate))
        → clock ≤ t
        → Close limit clock o p
        → Close limit t o p
    Close-later clock t o none h c = c
    Close-later clock t o (some v) h (inl e) = inl e
    Close-later clock t o (some v) h (inr (e, idle)) = inr (e, omega arith)

    Sound-later :
        (clock t : ℕ) (p : Option (Visitor rate))
        → clock ≤ t
        → Sound limit clock p
        → Sound limit t p
    Sound-later clock t none h s = tt
    Sound-later clock t (some v) h (past, used) = (omega arith, used)

    Sound-allow_visitor :
        (clock t : ℕ) (p : Option (Visitor rate))
        → clock ≤ t
        → Sound limit clock p
        → Sound limit t (some (allow_visitor rate limit t t p).1)
    unfolding allow_visitor
    Sound-allow_visitor clock t none h s = (omega arith, called t h (made clock))
    Sound-allow_visitor clock t (some v) h (past, used) = (omega arith, called t (omega arith) used)

    Close-self : (clock : ℕ) (o : Option (Visitor rate)) → Close limit clock o o
    Close-self clock none = refl
    Close-self clock (some v) = inl refl

    Agree-insert :
        (clock t : ℕ) (key : Str) (m n : Map (Visitor rate))
        → clock ≤ t
        → Agree clock limit m n
        → Agree t limit
            (insert key (allow_visitor rate limit t t (m key)).1 m)
            (insert key (allow_visitor rate limit t t (n key)).1 n)
    Agree-insert clock t key m n h a = record {
      close = λ j. elim (Bool-cases (key == j)) [
        | inl here ↦
            rw (here, allow_visitor-Close clock t (m key) (n key) h (a.close key) (a.sound key))
              (inl refl)
        | inr other ↦ rw other (Close-later clock t (m j) (n j) h (a.close j))
      ];
      sound = λ j. elim (Bool-cases (key == j)) [
        | inl here ↦ rw here (Sound-allow_visitor clock t (n key) h (a.sound key))
        | inr other ↦ rw other (Sound-later clock t (n j) h (a.sound j))
      ];
    }

    over : Map (Visitor rate) → Option (Limiter rate)
    over m = some (record { limit = limit; visitors = m })

    answers-Agree :
        (from to : ℕ) (reqs : List (Str × ℕ)) (m n : Map (Visitor rate))
        → Ordered from reqs to
        → Agree from limit m n
        → answers reqs (over m) ≡ answers reqs (over n)
    unfolding answers allow over
    answers-Agree from to [] m n o a = refl
    answers-Agree from to ((key, t) ∷ rest) m n (h, o) a =
        let same = allow_visitor-Close from t (m key) (n key) h (a.close key) (a.sound key) in
        ap₂ ◌∷◌ (ap (λ r. r.0) same) (
          answers-Agree t to rest (insert key (allow_visitor rate limit t t (m key)).1 m)
            (insert key (allow_visitor rate limit t t (n key)).1 n) o
            (Agree-insert from t key m n h a))

    -- Whatever was served, every bucket is one that `rate` made and that was called in order.
    serve-Agree :
        (from to : ℕ) (reqs : List (Str × ℕ)) (m : Map (Visitor rate))
        → Ordered from reqs to
        → Agree from limit m m
        → (n : Map (Visitor rate)) × (serve reqs (over m) ≡ over n) × Agree to limit n n
    unfolding serve allow over
    serve-Agree from to [] m h a = (
      m,
      refl,
      record {
        close = λ j. Close-self to (m j);
        sound = λ j. Sound-later from to (m j) h (a.sound j);
      },
    )
    serve-Agree from to ((key, t) ∷ rest) m (h, o) a =
        serve-Agree t to rest (insert key (allow_visitor rate limit t t (m key)).1 m) o
          (Agree-insert from t key m m h a)

    keep_unless-Close :
        (now : ℕ) (o : Option (Visitor rate))
        → Close limit now (keep_unless (is_idle rate limit.window now) o) o
    unfolding is_idle
    keep_unless-Close now none = refl
    keep_unless-Close now (some v) = elim (Bool-cases (leb (v.last_seen + limit.window) now)) [
      | inl idle ↦ rw idle (inr (refl, ground arith))
      | inr used ↦ rw used (inl refl)
    ]

    answers-sweep_from :
        (from now to : ℕ) (past future : List (Str × ℕ)) (m : Map (Visitor rate))
        → Ordered from past now
        → Ordered now future to
        → Agree from limit m m
        → answers future (sweep rate now (serve past (over m)))
          ≡ answers future (serve past (over m))
    unfolding sweep over
    answers-sweep_from from now to past future m p f a =
        let (n, e, b) = serve-Agree from now past m p a in
        rw e (
          answers-Agree now to future (delete_if (is_idle rate limit.window now) n) n f
            (record { close = λ j. keep_unless-Close now (n j); sound = b.sound }))

  serve-none : (reqs : List (Str × ℕ)) → serve reqs none ≡ none
  unfolding serve allow
  serve-none [] = refl
  serve-none ((key, t) ∷ rest) = serve-none rest

  -- If idle buckets refill as documented, then a sweep between two requests changes no later answer,
  -- whatever was asked before and whatever is asked after, at times that do not go back, provided that
  -- the two readings of the clock in each request, Allow's own and the bucket's, agree.
  pub answers-sweep :
      Refills
      → (limit : Limit) (from now to : ℕ) (past future : List (Str × ℕ)) → Ordered from past now
      → Ordered now future to
      → answers future (sweep rate now (serve past (new_limiter rate limit)))
        ≡ answers future (serve past (new_limiter rate limit))
  unfolding new_limiter enabled sweep
  answers-sweep refills limit from now to past future p f = elim (Bool-cases (ltb 0 limit.events)) [
    | inl on ↦ rw on (
        unfold over in
        answers-sweep_from refills limit (ltb→lt _ _ on) from now to past future empty p f
          (record { close = λ j. refl; sound = λ j. tt }))
    | inr off ↦ rw (off, serve-none past) refl
  ]
