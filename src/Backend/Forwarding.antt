-- ===== src/Backend/Forwarding.antt =====
-- transparent.go: the trusted proxies and the forwarding headers that a backend gets. The parsers of package
-- netip and net.SplitHostPort are parameters; SetURL, which sets the target, is left out.
pub mod Trust
pub mod Told
use mcp_oauth_gateway.Base.{
  ℕ, ◌/◌, ◌^◌, Str, lit, Bool, true, false, ◌||◌, Option, none, some, List, [], ◌∷◌, ◌++◌, any, map,
  insert, if◌then◌else◌, ◌==◌, nat_eq, str_eq,
}
use mcp_oauth_gateway.Cimd.Addresses.{Addr, v4, v6, Prefix, unmap, contains}
use mcp_oauth_gateway.Proxy.Headers.{Header, header_get, header_del, header_set}

-- An address comes with its zone, which is empty if there is none.
pub record Net : Type 0 where
  pub parse_prefix : Str → Option Prefix
  pub parse_addr : Str → Option (Addr × Str)
  pub prefix_string : Prefix → Str
  pub split_host_port : Str → Option (Str × Str)

abbrev pub bit_len : Addr → ℕ
bit_len (v4 a) = 32
bit_len (v6 a) = 128

-- `netip.PrefixFrom` drops the zone.
unfoldable pub single_host : Option (Addr × Str) → Option Prefix
single_host none = none
single_host (some (addr, zone)) = some (record { addr = unmap addr; bits = bit_len (unmap addr) })

unfoldable pub or_single_host : Option Prefix → Option (Addr × Str) → Option Prefix
unfolding single_host
or_single_host none addr = single_host addr
or_single_host (some prefix) addr = some prefix

abbrev pub put : Option Prefix → Option (List Prefix) → Option (List Prefix)
put none rest = none
put (some prefix) none = none
put (some prefix) (some prefixes) = some (prefix ∷ prefixes)

unfoldable pub is_4in6 : Addr → Bool
is_4in6 (v4 a) = false
is_4in6 (v6 a) = a / 2 ^ 32 == 0xffff

-- Unmapping drops a zone, and no prefix contains an address that has one.
unfoldable pub in_prefixes : List Prefix → Addr × Str → Bool
unfolding is_4in6 unmap contains
in_prefixes trusted (addr, zone) =
    if is_4in6 addr || zone == []
    then any (λ prefix. contains prefix.addr prefix.bits (unmap addr)) trusted
    else false

abbrev pub if_addr : List Prefix → Option (Addr × Str) → Bool
if_addr trusted none = false
if_addr trusted (some addr) = in_prefixes trusted addr

abbrev pub host_or : Str → Option (Str × Str) → Str
host_or hostport none = hostport
host_or hostport (some (host, port)) = host

module _ (net : Net) where
  open net use {parse_prefix, parse_addr, prefix_string, split_host_port}

  unfoldable pub parse_trusted_proxies : List Str → Option (List Prefix)
  unfolding or_single_host
  parse_trusted_proxies [] = some []
  parse_trusted_proxies (entry ∷ entries) =
      put (or_single_host (parse_prefix entry) (parse_addr entry)) (parse_trusted_proxies entries)

  unfoldable pub normalize_trusted_proxies : List Str → Option (List Str)
  normalize_trusted_proxies entries = elim (parse_trusted_proxies entries) [
    | none ↦ none
    | some prefixes ↦ some (map prefix_string prefixes)
  ]

  unfoldable pub is_trusted : List Prefix → Str → Bool
  unfolding in_prefixes
  is_trusted trusted hostport =
      if_addr trusted (parse_addr (host_or hostport (split_host_port hostport)))

-- What the connection and the inbound request say.
pub record Inbound : Type 0 where
  pub remote_addr : Str
  pub host : Str
  pub tls : Bool
  pub header : Header

abbrev pub values_of : Option (List Str) → List Str
values_of none = []
values_of (some values) = values

-- `strings.Join(prior, ", ")`, and then the peer.
abbrev pub chained : List Str → Str → Str
chained [] peer = peer
chained (hop ∷ hops) peer = hop ++ lit ", " ++ chained hops peer

unfoldable pub set_forwarded_for : Option (Str × Str) → Header → Header
unfolding header_set header_del
set_forwarded_for none out = header_del (lit "X-Forwarded-For") out
set_forwarded_for (some (peer, port)) out =
    header_set (lit "X-Forwarded-For") (chained (values_of (out (lit "X-Forwarded-For"))) peer) out

-- `ProxyRequest.SetXForwarded`
unfoldable pub set_x_forwarded : Net → Inbound → Header → Header
unfolding set_forwarded_for header_set
set_x_forwarded net r out =
    header_set (lit "X-Forwarded-Proto") (if r.tls then lit "https" else lit "http") (
      header_set (lit "X-Forwarded-Host") r.host
        (set_forwarded_for (net.split_host_port r.remote_addr) out))

unfoldable pub keep_header : Str → Header → Header → Header
unfolding header_get header_set
keep_header name inbound out =
    if header_get name inbound == [] then out else header_set name (header_get name inbound) out

unfoldable pub drop_forwarded : Header → Header
unfolding header_del
drop_forwarded out = header_del (lit "X-Forwarded-Port") (
    header_del (lit "X-Forwarded-Proto")
      (header_del (lit "X-Forwarded-Host") (header_del (lit "X-Forwarded-For") out)))

unfoldable pub rewrite_as : Net → Bool → Inbound → Header → Header
unfolding set_x_forwarded keep_header drop_forwarded
rewrite_as net true r out = keep_header (lit "X-Forwarded-Port") r.header (
    keep_header (lit "X-Forwarded-Proto") r.header (
      keep_header (lit "X-Forwarded-Host") r.header (
        set_x_forwarded net r
          (insert (lit "X-Forwarded-For") (values_of (r.header (lit "X-Forwarded-For"))) out))))
rewrite_as net false r out = set_x_forwarded net r (drop_forwarded out)

-- `out` are the headers that the request has before, which are a copy of those that came in.
unfoldable pub rewrite : Net → List Prefix → Inbound → Header → Header
unfolding is_trusted rewrite_as
rewrite net trusted r out = rewrite_as net (is_trusted net trusted r.remote_addr) r out
