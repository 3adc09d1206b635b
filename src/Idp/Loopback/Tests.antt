-- ===== src/Idp/Loopback/Tests.antt =====
-- A native client that registered its callback without a port.
use mcp_oauth_gateway.Base.{lit, some, none, ◌∷◌, [], ◌≡◌, ◌==◌, str_eq, has_prefix, if◌then◌else◌}
use mcp_oauth_gateway.Idp.Loopback.{Net, expand_loopback_redirects, all_redirects_loopback}
use mcp_oauth_gateway.Idp.Loopback.Variants.{all_redirects_loopback-expand_loopback_redirects}

-- Only URLs of localhost are parsed.
abbrev toy_net : Net
toy_net = record {
  parse_url = λ raw.
      if has_prefix raw (lit "http://localhost")
      then some (record {
        scheme = lit "http";
        hostname = lit "localhost";
        path = lit "/cb";
        raw_query = [];
      })
      else none;
  is_loopback_ip = λ host. host == lit "127.0.0.1";
}

all_redirects_loopback-expand_loopback_redirects_example :
    all_redirects_loopback toy_net (
      expand_loopback_redirects toy_net
        (lit "http://localhost/cb" ∷ [])
        (lit "http://localhost:51/cb"))
    ≡ all_redirects_loopback toy_net (lit "http://localhost/cb" ∷ [])
all_redirects_loopback-expand_loopback_redirects_example =
    all_redirects_loopback-expand_loopback_redirects toy_net (lit "http://localhost/cb" ∷ [])
      (lit "http://localhost:51/cb")
