-- ===== src/Auth/Login/Guarded.antt =====
-- login.go: what a password login takes, and how the lockout stands before it.
use mcp_oauth_gateway.Base.{
  ℕ, Str, lit, Bool, true, false, Option, none, some, List, str_eq, nat_eq, has_prefix, ◌≡◌, ◌≢◌,
  ◌⊎◌, refl, sym, ◌∙◌, ap, inl, inr, Bool-cases,
}
use mcp_oauth_gateway.Ratelimit.Lockout.{Lockout, locked, reset}
use mcp_oauth_gateway.Repository.Bolt.{Bolt, ok}
use mcp_oauth_gateway.Repository.Models.{Json, User}
use mcp_oauth_gateway.Auth.Session.{Session, or_mint, ensure_csrf_token, nonempty}
use mcp_oauth_gateway.Auth.Login.{
  login_page, redirect, Answer, Env, lockout_key, with_saved, show_login, login_failed, ensure_user,
  is_password_login_active, is_valid,
}

-- A path of this host.
pub record IsLocal (target : Str) : Type 0 where
  pub absolute : has_prefix target (lit "/") ≡ true
  pub no_host : has_prefix target (lit "//") ≡ false
  pub no_backslash : has_prefix target (lit "/\\") ≡ false

-- A page that is not a redirect leaves the browser as it was logged in before.
abbrev pub Unchanged : Session → Answer → Type 0
Unchanged s a =
    ((t : Str) → a.page ≢ redirect t)
    × ((c : Session) → a.cookie ≡ some c → c.authorized ≡ s.authorized)

or_mint-authorized :
    (o minted : Option Str) (s : Session) (token : Str) (r : Session)
    → or_mint o minted s ≡ some (token, r)
    → r.authorized ≡ s.authorized
unfolding or_mint
or_mint-authorized (some t) minted s token r h =
    let same : s ≡ r = cc h in ap (λ x. x.authorized) (sym same)
or_mint-authorized none none s token r h = cc h
or_mint-authorized none (some t) s token r h =
    let same : record s { csrf_token = some t } ≡ r = cc h in sym (ap (λ x. x.authorized) same)

saved_login_page :
    (env : Env) (message : Str) (m s : Session)
    → m.authorized ≡ s.authorized
    → Unchanged s (with_saved env m (login_page message))
saved_login_page env message m s same = elim (Bool-cases (env.saves m)) [
  | inl saved ↦
      rw saved
        ((λ t h. cc h), (λ c h. let e : m ≡ c = cc h in ap (λ x. x.authorized) (sym e) ∙ same))
  | inr lost ↦ rw lost ((λ t h. cc h), (λ c h. cc h))
]

show_login-Unchanged :
    (env : Env) (message : Str) (s : Session) (o : Option (Str × Session))
    → ensure_csrf_token env.csrf_token s ≡ o
    → Unchanged s (show_login env message o)
unfolding show_login ensure_csrf_token
show_login-Unchanged env message s none h = ((λ t e. cc e), (λ c e. cc e))
show_login-Unchanged env message s (some (token, m)) h =
    saved_login_page env message m s
      (or_mint-authorized (nonempty s.csrf_token) env.csrf_token s token m h)

pub login_failed-Unchanged : (env : Env) (s : Session) → Unchanged s (login_failed env s)
unfolding login_failed
login_failed-Unchanged env s =
    show_login-Unchanged env (lit "Invalid password") s (ensure_csrf_token env.csrf_token s) refl

module _ (bolt : Bolt) (json : Json) (compare_hash : Str → Str → Bool) where
  open bolt use {Bucket}

  -- A login that succeeds.
  pub record LoggedIn (env : Env) (hashes : List Str) (password : Str) (lockout : Option Lockout)
      (b : Bucket) (target : Str) (a : Answer) (after : Option Lockout) : Type 0 where
    pub matched : is_valid bolt json compare_hash hashes password ≡ true
    pub unlocked : locked lockout lockout_key env.now ≡ false
    pub user : User
    pub passkeys : ℕ
    pub account : (ensure_user bolt json compare_hash env b).0 ≡ ok (user, passkeys)
    pub active : is_password_login_active bolt json compare_hash hashes user passkeys ≡ true
    pub local : IsLocal target
    pub cookie : Session
    pub written : a.cookie ≡ some cookie
    pub authorized : cookie.authorized ≡ some true
    pub forgiven : after ≡ reset lockout_key lockout

  -- A redirect is a login, and no other page logs the browser in.
  abbrev pub Outcome :
      Env → List Str → Str → Session → Option Lockout → Bucket → Answer → Option Lockout → Type 0
  Outcome env hashes password s lockout b a after =
      ((t : Str) → a.page ≡ redirect t → LoggedIn env hashes password lockout b t a after)
      × ((c : Session)
          → a.cookie ≡ some c
          → (c.authorized ≡ s.authorized) ⊎ ((t : Str) × (a.page ≡ redirect t)))
