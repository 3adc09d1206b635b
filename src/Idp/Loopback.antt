-- ===== src/Idp/Loopback.antt =====
-- pkg/idp/loopback.go: redirect URIs of native clients. `url.Parse` and `net.ParseIP` are parameters;
-- slices are values, so that an expanded list is a new one.
mod Spelling
pub mod Variants
mod Tests
use mcp_oauth_gateway.Base.{
  ℕ, Str, lit, Bool, true, false, not, ◌&&◌, ◌||◌, Option, none, some, List, [], ◌∷◌, ◌++◌, map,
  any, all, if◌then◌else◌, ◌==◌, str_eq, nat_eq, to_lower,
}

-- What is read of a parsed URL.
pub record Url : Type 0 where
  pub scheme : Str
  pub hostname : Str
  pub path : Str
  pub raw_query : Str

-- `url.Parse`, and whether a host is the literal of a loopback address.
pub record Net : Type 0 where
  pub parse_url : Str → Option Url
  pub is_loopback_ip : Str → Bool

abbrev pub loopback_host : Str
loopback_host = lit "localhost"

-- A letter's class under Unicode folding, as far as it has an ASCII letter: U+017F is an `s`.
unfoldable pub fold : ℕ → ℕ
unfolding to_lower
fold c = if c == 0x17f then b's' else to_lower c

-- `strings.EqualFold host "localhost"`
unfoldable pub is_loopback_host : Str → Bool
unfolding fold
is_loopback_host host = map fold host == loopback_host

unfoldable pub same_but_port : Option Url → Option Url → Bool
unfolding is_loopback_host
same_but_port none _ = false
same_but_port (some reg) none = false
same_but_port (some reg) (some req) =
    (reg.scheme == lit "http" && req.scheme == lit "http")
    && (is_loopback_host reg.hostname && is_loopback_host req.hostname)
    && (reg.path == req.path && reg.raw_query == req.raw_query)

module _ (net : Net) where
  open net use {parse_url, is_loopback_ip}

  unfoldable pub matches_loopback_host_port : Str → Str → Bool
  unfolding same_but_port
  matches_loopback_host_port registered requested =
      same_but_port (parse_url registered) (parse_url requested)

  unfoldable pub expand_loopback_redirects : List Str → Str → List Str
  unfolding matches_loopback_host_port
  expand_loopback_redirects registered requested =
      if requested == []
      then registered
      else if any (λ candidate. candidate == requested) registered
      then registered
      else if any (λ candidate. matches_loopback_host_port candidate requested) registered
      then registered ++ requested ∷ []
      else registered

  unfoldable pub is_loopback_url : Option Url → Bool
  unfolding is_loopback_host
  is_loopback_url none = false
  is_loopback_url (some u) =
      u.scheme == lit "http" && (is_loopback_host u.hostname || is_loopback_ip u.hostname)

  unfoldable pub is_loopback_redirect : Str → Bool
  unfolding is_loopback_url
  is_loopback_redirect raw = is_loopback_url (parse_url raw)

  unfoldable pub all_redirects_loopback : List Str → Bool
  unfolding is_loopback_redirect
  all_redirects_loopback [] = false
  all_redirects_loopback (u ∷ rest) = all is_loopback_redirect (u ∷ rest)
