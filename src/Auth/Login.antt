-- ===== src/Auth/Login.antt =====
-- pkg/auth/login.go, and the callback of an OpenID provider of routes.go: how a session becomes the
-- operator's. The store, bcrypt, the clock and the randomness are parameters.
pub mod Guarded
pub mod Guessing
mod Tests
use mcp_oauth_gateway.Base.{
  ℕ, Str, lit, Bool, true, false, not, ◌&&◌, ◌||◌, Option, none, some, List, [], ◌∷◌, any, length,
  if◌then◌else◌, ◌==◌, str_eq, nat_eq,
}
use mcp_oauth_gateway.Ratelimit.Lockout.{Lockout, locked, fail, reset}
use mcp_oauth_gateway.Repository.Bolt.{Bolt, Reply, ok, not_found, cap_reached, failed, panicked}
use mcp_oauth_gateway.Repository.Models.{Json, User, WebAuthnCredential}
use mcp_oauth_gateway.Repository.Users.{get_user, create_user, list_webauthn_credentials}
use mcp_oauth_gateway.Auth.Session.{
  Session, cleared, nonempty, ensure_csrf_token, take_redirect_target,
}

-- What the browser is shown.
pub data Page : Type 0 where
  login_page : Str → Page
  unauthorized_page : Str → Page
  error_page : Page
  redirect : Str → Page
  refused : Page

-- The page, and the session that was written, if one was.
pub record Answer : Type 0 where
  pub page : Page
  pub cookie : Option Session

-- What a request finds around it: the clock, fresh random strings, and whether a session can be written.
pub record Env : Type 0 where
  pub now : ℕ
  pub csrf_token : Option Str
  pub user_id : Option Str
  pub saves : Session → Bool

abbrev pub login_endpoint : Str
login_endpoint = lit "/.auth/login"

abbrev pub lockout_key : Str
lockout_key = lit "operator"

abbrev pub with_saved : Env → Session → Page → Answer
with_saved env s page =
    if env.saves s
    then record { page = page; cookie = some s }
    else record { page = error_page; cookie = none }

unfoldable pub show_login : Env → Str → Option (Str × Session) → Answer
show_login env message none = record { page = error_page; cookie = none }
show_login env message (some (token, minted)) = with_saved env minted (login_page message)

unfoldable pub render_login : Env → Str → Session → Answer
unfolding ensure_csrf_token show_login
render_login env message s = show_login env message (ensure_csrf_token env.csrf_token s)

unfoldable pub login_failed : Env → Session → Answer
unfolding render_login
login_failed env s = render_login env (lit "Invalid password") s

-- The session of the operator, whose page the browser came from.
unfoldable pub logged_in : Str → Session → Session
logged_in subject s = record s { authorized = some true; user_id = some subject }

unfoldable pub finish_login : Env → Session → Answer
unfolding take_redirect_target
finish_login env s =
    let (target, rest) = take_redirect_target s in with_saved env rest (redirect target)

module _ (bolt : Bolt) (json : Json) (compare_hash : Str → Str → Bool) where
  open bolt use {Bucket}

  -- The operator's account with the number of its passkeys; it is created at the first login.
  unfoldable pub count_passkeys : Reply User → Bucket → Reply (User × ℕ)
  count_passkeys (ok user) b = elim (list_webauthn_credentials bolt json user.id b) [
    | ok credentials ↦ ok (user, length credentials)
    | not_found ↦ not_found
    | cap_reached ↦ cap_reached
    | failed ↦ failed
    | panicked ↦ panicked
  ]
  count_passkeys not_found b = not_found
  count_passkeys cap_reached b = cap_reached
  count_passkeys failed b = failed
  count_passkeys panicked b = panicked

  abbrev pub bootstrapped : User → Reply (Unit {0}) × Bucket → Reply (User × ℕ) × Bucket
  bootstrapped user (ok _, b) = (ok (user, 0), b)
  bootstrapped user (_, b) = (failed, b)

  unfoldable pub bootstrap : Env → Bucket → Reply (User × ℕ) × Bucket
  bootstrap env b = elim env.user_id [
    | none ↦ (failed, b)
    | some id ↦
        let user : User = record {
          id = id;
          username = lit "admin";
          password_login_disabled = false;
          created_at = env.now;
        } in
        bootstrapped user (create_user bolt json user b)
  ]

  unfoldable pub or_bootstrap : Env → Reply User → Bucket → Reply (User × ℕ) × Bucket
  unfolding count_passkeys bootstrap
  or_bootstrap env (ok user) b = (count_passkeys (ok user) b, b)
  or_bootstrap env not_found b = bootstrap env b
  or_bootstrap env cap_reached b = (cap_reached, b)
  or_bootstrap env failed b = (failed, b)
  or_bootstrap env panicked b = (panicked, b)

  unfoldable pub ensure_user : Env → Bucket → Reply (User × ℕ) × Bucket
  unfolding or_bootstrap
  ensure_user env b = or_bootstrap env (get_user bolt json b) b

  unfoldable pub is_password_login_active : List Str → User → ℕ → Bool
  is_password_login_active hashes user passkey_count =
      if length hashes == 0 then false else not user.password_login_disabled || passkey_count == 0

  -- Every hash is compared, also after a match.
  unfoldable pub is_valid : List Str → Str → Bool
  is_valid hashes password = any (λ hash. compare_hash hash password) hashes

  -- The rest of the login, once the password is right and the account not locked.
  unfoldable pub with_account :
      Env
      → List Str
      → Session
      → Option Lockout
      → Reply (User × ℕ) × Bucket
      → Answer × Option Lockout × Bucket
  unfolding is_password_login_active login_failed finish_login logged_in
  with_account env hashes s lockout (ok (user, passkey_count), b) =
      if not (is_password_login_active hashes user passkey_count)
      then (login_failed env s, lockout, b)
      else (finish_login env (logged_in user.id s), reset lockout_key lockout, b)
  with_account env hashes s lockout (_, b) =
      (record { page = error_page; cookie = none }, lockout, b)

  -- The store of accounts is configured, as it is in the gateway.
  unfoldable pub handle_login_post :
      Env → List Str → Str → Session → Option Lockout → Bucket → Answer × Option Lockout × Bucket
  unfolding is_valid with_account login_failed
  handle_login_post env hashes password s lockout b =
      if not (is_valid hashes password)
      then (login_failed env s, fail lockout_key env.now lockout, b)
      else if locked lockout lockout_key env.now
      then (login_failed env s, lockout, b)
      else with_account env hashes s lockout (ensure_user env b)

  -- Without a password, a sole provider is chosen for the operator.
  unfoldable pub handle_login : Env → Bool → List Str → List Str → Session → Answer
  unfolding render_login
  handle_login env no_provider_auto_select hashes provider_urls s = elim provider_urls [
    | url ∷ [] ↦
        if not no_provider_auto_select && length hashes == 0
        then record { page = redirect url; cookie = none }
        else render_login env [] s
    | _ ↦ render_login env [] s
  ]

unfoldable pub handle_logout : Env → Answer
handle_logout env = with_saved env cleared (redirect login_endpoint)

-- Whether the handlers behind it run, or the answer instead.
unfoldable pub require_auth : Env → Str → Session → Option Answer
require_auth env url s = elim s.authorized [
  | none ↦ some (with_saved env (record s { redirect_url = some url }) (redirect login_endpoint))
  | some true ↦ none
  | some false ↦ some (record { page = refused; cookie = none })
]

-- The callback of a provider: `exchange` tells whether the code is exchanged at the state of the session,
-- `authorization` what the provider answers of the user, with the claims that are kept.
unfoldable pub with_authorization : Env → Option (Bool × Str) → Option Str → Session → Answer
unfolding finish_login logged_in
with_authorization env none user_info s = record { page = error_page; cookie = none }
with_authorization env (some (false, user)) user_info s = record {
  page = unauthorized_page user;
  cookie = none;
}
with_authorization env (some (true, user)) user_info s =
    let admitted = logged_in user s in
    finish_login env (elim user_info [
      | none ↦ admitted
      | some claims ↦ record admitted { user_info = some claims }
    ])

unfoldable pub handle_callback :
    Env → Str → (Str → Bool) → Option (Bool × Str) → Option Str → Session → Answer
unfolding with_authorization
handle_callback env query_state exchanges authorization user_info s = elim s.oauth_state [
  | none ↦ record { page = error_page; cookie = none }
  | some state ↦
      if not (query_state == state)
      then record { page = error_page; cookie = none }
      else if not (exchanges state)
      then record { page = error_page; cookie = none }
      else with_authorization env authorization user_info s
]

unfoldable pub handle_auth_url : Env → Option Str → (Str → Option Str) → Session → Answer
handle_auth_url env generated auth_code_url s = elim generated [
  | none ↦ record { page = error_page; cookie = none }
  | some state ↦ elim (auth_code_url state) [
    | none ↦ record { page = error_page; cookie = none }
    | some url ↦ with_saved env (record s { oauth_state = some state }) (redirect url)
  ]
]
