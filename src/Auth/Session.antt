-- ===== src/Auth/Session.antt =====
-- pkg/auth/csrf.go and login.go: the operator's session, which is a signed cookie. A handler changes the
-- session in memory, and the client keeps what `Save` last wrote.
use mcp_oauth_gateway.Base.{
  Str, lit, Bool, false, not, ◌||◌, Option, none, some, [], if◌then◌else◌, ◌==◌, str_eq, has_prefix,
}

-- The values under the session's keys; a value of another type than the one that is read does not occur.
pub record Session : Type 0 where
  pub authorized : Option Bool
  pub redirect_url : Option Str
  pub oauth_state : Option Str
  pub user_id : Option Str
  pub user_info : Option Str
  pub csrf_token : Option Str
  pub webauthn_login : Option Str
  pub webauthn_registration : Option Str
  pub authorize_request_ids : Option Str

-- `session.Clear()`
abbrev pub cleared : Session
cleared = record {
  authorized = none;
  redirect_url = none;
  oauth_state = none;
  user_id = none;
  user_info = none;
  csrf_token = none;
  webauthn_login = none;
  webauthn_registration = none;
  authorize_request_ids = none;
}

-- A value that is a string and not empty.
unfoldable pub nonempty : Option Str → Option Str
nonempty none = none
nonempty (some s) = if s == [] then none else some s

unfoldable pub or_mint : Option Str → Option Str → Session → Option (Str × Session)
or_mint (some token) minted s = some (token, s)
or_mint none none s = none
or_mint none (some token) s = some (token, record s { csrf_token = some token })

-- The token of the session, or `minted`, which is none if there is no randomness.
unfoldable pub ensure_csrf_token : Option Str → Session → Option (Str × Session)
unfolding nonempty or_mint
ensure_csrf_token minted s = or_mint (nonempty s.csrf_token) minted s

unfoldable pub matches : Option Str → Str → Bool
matches none submitted = false
matches (some stored) submitted = stored == submitted

unfoldable pub valid_csrf : Session → Str → Bool
unfolding nonempty matches
valid_csrf s submitted = matches (nonempty s.csrf_token) submitted

-- What `RequireCSRF` reads of a request: the header, or the form field if there is none.
unfoldable pub require_csrf : Session → Str → Str → Bool
unfolding valid_csrf
require_csrf s header field = valid_csrf s (if header == [] then field else header)

unfoldable pub safe_redirect_target : Str → Str
unfolding has_prefix
safe_redirect_target stored =
    if not (has_prefix stored (lit "/"))
      || (has_prefix stored (lit "//") || has_prefix stored (lit "/\\"))
    then lit "/"
    else stored

unfoldable pub take_target : Option Str → Session → Str × Session
unfolding safe_redirect_target
take_target none s = (lit "/", s)
take_target (some stored) s = (safe_redirect_target stored, record s { redirect_url = none })

unfoldable pub take_redirect_target : Session → Str × Session
unfolding nonempty take_target
take_redirect_target s = take_target (nonempty s.redirect_url) s
