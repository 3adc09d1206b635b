-- ===== src/Auth/Login/Guessing.antt =====
-- login.go with lockout.go: guessing the password.
use mcp_oauth_gateway.Base.{
  ℕ, suc, ◌+◌, ◌≤◌, ◌<◌, ◌^◌, Str, Bool, true, false, Option, List, [], ◌∷◌, ◌++◌, All, map, length,
  if◌then◌else◌, ◌==◌, nat_eq, ltb, ◌≡◌, refl, ◌∙◌, ap, inl, inr, arith, Bool-cases,
}
use mcp_oauth_gateway.Ratelimit.Lockout.{Lockout, locked, fail, new_lockout}
use mcp_oauth_gateway.Ratelimit.Lockout.Streak.{fail_all, fail_all_at_threshold}
use mcp_oauth_gateway.Repository.Bolt.{Bolt}
use mcp_oauth_gateway.Repository.Models.{Json}
use mcp_oauth_gateway.Auth.Session.{Session}
use mcp_oauth_gateway.Auth.Login.{Env, lockout_key, is_valid, handle_login_post}
use mcp_oauth_gateway.Auth.Login.Guarded.{Unchanged, login_failed-Unchanged}

-- A password that is sent, by some browser, at some time.
pub record Guess : Type 0 where
  pub env : Env
  pub password : Str
  pub session : Session

abbrev pub times : List Guess → List ℕ
times guesses = map (λ g. g.env.now) guesses

length-times : (l : List Guess) → length (times l) ≡ length l
length-times [] = refl
length-times (g ∷ l) = ap suc (length-times l)

times-append_one : (l : List Guess) (g : Guess) → times (l ++ g ∷ []) ≡ times l ++ g.env.now ∷ []
times-append_one [] g = refl
times-append_one (h ∷ l) g = ap (λ r. h.env.now ∷ r) (times-append_one l g)

module _ (bolt : Bolt) (json : Json) (compare_hash : Str → Str → Bool) (hashes : List Str) where
  open bolt use {Bucket}

  -- The lockout and the store after the guesses.
  abbrev pub guess_all : List Guess → Option Lockout → Bucket → Option Lockout × Bucket
  guess_all [] lockout b = (lockout, b)
  guess_all (g ∷ guesses) lockout b =
      let (answer, lockout', b') =
        handle_login_post bolt json compare_hash g.env hashes g.password g.session lockout b in
      guess_all guesses lockout' b'

  abbrev pub Wrong : Guess → Type 0
  Wrong g = is_valid bolt json compare_hash hashes g.password ≡ false

  -- Each wrong guess is a failure, whether the account is locked or not.
  guess_all-fail_all :
      (guesses : List Guess) (lockout : Option Lockout) (b : Bucket)
      → All Wrong guesses
      → guess_all guesses lockout b ≡ (fail_all lockout_key (times guesses) lockout, b)
  unfolding handle_login_post fail_all
  guess_all-fail_all [] lockout b h = refl
  guess_all-fail_all (g ∷ guesses) lockout b (wrong, h) =
      rw wrong (guess_all-fail_all guesses (fail lockout_key g.env.now lockout) b h)

  closed-Unchanged :
      (env : Env) (password : Str) (s : Session) (lockout : Option Lockout) (b : Bucket)
      → locked lockout lockout_key env.now ≡ true
      → Unchanged s (handle_login_post bolt json compare_hash env hashes password s lockout b).0
  unfolding handle_login_post
  closed-Unchanged env password s lockout b closed =
      elim (Bool-cases (is_valid bolt json compare_hash hashes password)) [
        | inl right ↦ rw (right, closed) (login_failed-Unchanged env s)
        | inr wrong ↦ rw wrong (login_failed-Unchanged env s)
      ]

  -- After wrong guesses, no more than the threshold, the account is locked exactly if the last of them was
  -- the one at the threshold and less than the duration ago; while it is locked any password, the right
  -- one too, leaves the browser as it was.
  pub locked-guess_all :
      (threshold duration : ℕ) (guesses : List Guess) (last : Guess) (b : Bucket) (env : Env)
      (password : Str) (s : Session)
      → All Wrong (guesses ++ last ∷ [])
      → suc (length guesses) ≤ threshold
      → threshold < 2 ^ 63
      → let after = guess_all (guesses ++ last ∷ []) (new_lockout threshold duration) b in
        (locked after.0 lockout_key env.now ≡ (
          if suc (length guesses) == threshold
          then ltb env.now (last.env.now + duration)
          else false))
        × (suc (length guesses) ≡ threshold
            → env.now < last.env.now + duration
            → Unchanged s
                (handle_login_post bolt json compare_hash env hashes password s after.0 after.1).0)
  locked-guess_all threshold duration guesses last b env password s wrong few small =
      let after =
        guess_all-fail_all (guesses ++ last ∷ []) (new_lockout threshold duration) b wrong in
      let closed =
        fail_all_at_threshold threshold duration lockout_key (times guesses) last.env.now env.now
          (omega (arith, length-times guesses)) small in
      let first : locked (guess_all (guesses ++ last ∷ []) (new_lockout threshold duration) b).0
            lockout_key env.now
          ≡ (if suc (length guesses) == threshold
              then ltb env.now (last.env.now + duration)
              else false) =
        ap (λ x. locked x.0 lockout_key env.now) after
        ∙ ap
            (λ l.
              locked (fail_all lockout_key l (new_lockout threshold duration)) lockout_key env.now)
            (times-append_one guesses last)
        ∙ closed
        ∙ ap (λ n. if suc n == threshold then ltb env.now (last.env.now + duration) else false)
            (length-times guesses) in
      (
        first,
        (λ full early.
            let after' = guess_all (guesses ++ last ∷ []) (new_lockout threshold duration) b in
            closed-Unchanged env password s after'.0 after'.1
              (first ∙ ground (arith, full, early))),
      )
