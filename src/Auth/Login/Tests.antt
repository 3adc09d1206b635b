-- ===== src/Auth/Login/Tests.antt =====
-- A first login, and one that comes too late.
use mcp_oauth_gateway.Base.{
  ℕ, suc, Str, lit, Bool, true, Option, none, some, [], ◌∷◌, ◌≡◌, ◌<◌, ◌+◌, refl, ◌==◌, str_eq,
  nat_eq, str_eqb, str_ltb, arith,
}
use mcp_oauth_gateway.Ratelimit.Lockout.{Lockout, new_lockout, locked}
use mcp_oauth_gateway.Repository.SortedMap.{find, insert_sorted}
use mcp_oauth_gateway.Repository.Bolt.{
  ◌>>=◌, or_failed, create, read, decode, db_update, end_transaction,
}
use mcp_oauth_gateway.Repository.Users.{get_user, create_user}
use mcp_oauth_gateway.Repository.Format.Records.{toy_json}
use mcp_oauth_gateway.Repository.Toy.{Sorted, toy_bolt, no_entries}
use mcp_oauth_gateway.Auth.Session.{cleared}
use mcp_oauth_gateway.Auth.Login.{
  Env, redirect, lockout_key, handle_login_post, is_valid, ensure_user, finish_login,
}
use mcp_oauth_gateway.Auth.Login.Guarded.{Unchanged}
use mcp_oauth_gateway.Auth.Login.Guessing.{Guess, guess_all, locked-guess_all}

abbrev at : ℕ → Env
at t = record { now = t; csrf_token = some (lit "t"); user_id = some (lit "u"); saves = λ s. true }

-- A hash is the password.
abbrev plain : Str → Str → Bool
plain hash password = hash == password

first_login :
    (handle_login_post toy_bolt toy_json plain
      (at 5)
      (lit "pw" ∷ [])
      (lit "pw")
      cleared
      none
      no_entries).0.page
    ≡ redirect (lit "/")
unfolding locked handle_login_post ensure_user finish_login get_user create_user find insert_sorted
    str_eqb str_ltb read decode create db_update end_transaction ◌>>=◌ or_failed
first_login = refl

abbrev guess : ℕ → Guess
guess t = record { env = at t; password = lit "no"; session = cleared }

abbrev after_two : Option Lockout × Sorted
after_two =
    guess_all toy_bolt toy_json plain (lit "pw" ∷ []) (guess 3 ∷ guess 4 ∷ []) (new_lockout 2 60)
      no_entries

locked-guess_all_example :
    (locked after_two.0 lockout_key 5 ≡ true)
    × (suc 1 ≡ 2
        → 5 < 4 + 60
        → Unchanged cleared
            (handle_login_post toy_bolt toy_json plain
              (at 5)
              (lit "pw" ∷ [])
              (lit "pw")
              cleared
              after_two.0
              after_two.1).0)
unfolding is_valid str_eqb
locked-guess_all_example =
    locked-guess_all toy_bolt toy_json plain (lit "pw" ∷ []) 2 60 (guess 3 ∷ []) (guess 4)
      no_entries (at 5) (lit "pw") cleared (refl, (refl, tt)) (omega arith) (omega arith)
