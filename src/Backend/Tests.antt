-- ===== src/Backend/Tests.antt =====
-- A backend that redirects /mcp to /mcp/, and peers behind a proxy.
use mcp_oauth_gateway.Base.{
  ℕ, ◌+◌, Str, lit, true, false, none, some, List, [], ◌∷◌, if◌then◌else◌, ◌==◌, str_eq, str_eqb,
  empty, insert, ◌≡◌, ◌⊎◌, refl,
}
use mcp_oauth_gateway.Cimd.Addresses.{v4, Prefix, contains, unmap}
use mcp_oauth_gateway.Proxy.Headers.{Header, canonical, is_token, recase, recased}
use mcp_oauth_gateway.Backend.Redirects.{
  Urls, Response, Request, RoundTripper, round_trip, redirect_target, next_request,
}
use mcp_oauth_gateway.Backend.Redirects.Hops.{Exchange, recording}
use mcp_oauth_gateway.Backend.Redirects.Sent.{Sent, round_trip-Sent}
use mcp_oauth_gateway.Backend.Forwarding.{Net, Inbound, parse_trusted_proxies, rewrite, keep_header}
use mcp_oauth_gateway.Backend.Forwarding.Trust.{Trusted}
use mcp_oauth_gateway.Backend.Forwarding.Told.{ToldOfChain, ToldOfConnection, rewrite-Told}

-- A URL is a host and a path, and a location a path, or `!` for another host.
abbrev urls : Urls
urls = record {
  Url = Str × Str;
  parse_from =
      λ url location. if location == lit "!" then some (lit "evil", []) else some (url.0, location);
  host = λ url. url.0;
}

abbrev answer_to : Str → Response
answer_to path =
    if path == lit "/mcp"
    then record { status = 307; location = lit "/mcp/"; payload = [] }
    else record { status = 308; location = lit "!"; payload = lit "away" }

-- It counts its requests.
abbrev base : RoundTripper urls ℕ
base req n = (some (answer_to req.url.1), n + 1)

abbrev request : Request urls
request = record {
  url = (lit "b", lit "/mcp");
  host = lit "g";
  header = lit "POST";
  body = some (record { bytes = lit "{}"; breaks = false });
  content_length = some 2;
}

abbrev sent : ℕ × List (Exchange urls)
sent = (round_trip urls (recording urls base) (lit "b") request (0, [])).1

abbrev away : Response
away = record { status = 308; location = lit "!"; payload = lit "away" }

-- The second redirect leads to another host and is handed to the client.
passed_on : (round_trip urls base (lit "b") request 0) ≡ (some away, 2)
unfolding round_trip redirect_target next_request str_eqb
passed_on = refl

round_trip-Sent_example :
    Sent urls
      (lit "b")
      base
      request
      sent.1
      (round_trip urls (recording urls base) (lit "b") request (0, [])).0
round_trip-Sent_example =
    round_trip-Sent urls (lit "b") base request 0 sent.0 sent.1
      (round_trip urls (recording urls base) (lit "b") request (0, [])).0 refl

-- Every text is the address 10.0.0.7, and there are no ranges.
abbrev net : Net
net = record {
  parse_prefix = λ s. none;
  parse_addr = λ s. some (v4 167772167, []);
  prefix_string = λ p. lit "10.0.0.7/32";
  split_host_port = λ s. some (lit "10.0.0.7", lit "80");
}

abbrev trusted : List Prefix
trusted = record { addr = v4 167772167; bits = 32 } ∷ []

abbrev claimed : Header
claimed = insert (lit "X-Forwarded-For") (lit "1.2.3.4" ∷ []) empty

abbrev inbound : Inbound
inbound = record { remote_addr = lit "10.0.0.7:80"; host = lit "g"; tls = true; header = claimed }

parsed : parse_trusted_proxies net (lit "10.0.0.7" ∷ []) ≡ some trusted
unfolding parse_trusted_proxies unmap
parsed = refl

behind_proxy :
    rewrite net trusted inbound claimed (lit "X-Forwarded-For")
    ≡ some (lit "1.2.3.4, 10.0.0.7" ∷ [])
unfolding rewrite canonical is_token recase recased str_eqb keep_header unmap contains
behind_proxy = refl

spoofed : rewrite net [] inbound claimed (lit "X-Forwarded-For") ≡ some (lit "10.0.0.7" ∷ [])
unfolding rewrite canonical is_token recase recased str_eqb
spoofed = refl

rewrite-Told_example :
    (Trusted net (lit "10.0.0.7" ∷ []) inbound.remote_addr
      × ToldOfChain net inbound claimed (rewrite net trusted inbound claimed))
    ⊎ (¬ Trusted net (lit "10.0.0.7" ∷ []) inbound.remote_addr
        × ToldOfConnection net inbound claimed (rewrite net trusted inbound claimed))
rewrite-Told_example = rewrite-Told net inbound claimed (lit "10.0.0.7" ∷ []) trusted parsed
