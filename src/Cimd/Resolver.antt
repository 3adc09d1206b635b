-- ===== src/Cimd/Resolver.antt =====
-- pkg/cimd/resolver.go: the resolver and its cache. The cache is the list of its entries, of which a
-- `range` takes any order. Durations and times are numbers of nanoseconds; `now` is what the clock
-- answers. What the network answers to a request is a parameter.
pub mod Bounded
pub mod Lifetime
use mcp_oauth_gateway.Base.{
  ℕ, zero, suc, ◌+◌, ◌*◌, Str, lit, Bool, true, false, not, ◌&&◌, ◌||◌, Option, none, some, List,
  [], ◌∷◌, ◌++◌, any, length, if◌then◌else◌, ◌==◌, nat_eq, str_eq, ltb, leb,
}
use mcp_oauth_gateway.Cimd.Documents.{
  Url, Outcome, ok, invalid, ◌>>=◌, refuse_if, Document, validate_client_id_url, validate_document,
}
use mcp_oauth_gateway.Cimd.Addresses.{is_disallowed_ip}

-- A `time.Duration` of the settings, which can be negative.
pub data Duration : Type 0 where
  nanoseconds : ℕ → Duration
  negative : ℕ → Duration

abbrev pub second : ℕ
second = 1000000000

pub record Config : Type 0 where
  pub fetch_timeout : Duration
  pub max_size : Duration
  pub cache_ttl : Duration
  pub negative_ttl : Duration

pub record Limits : Type 0 where
  pub fetch_timeout : ℕ
  pub max_size : ℕ
  pub cache_ttl : ℕ
  pub negative_ttl : ℕ

unfoldable pub or_if_unset : Duration → ℕ → ℕ
or_if_unset (nanoseconds zero) default = default
or_if_unset (nanoseconds (suc n)) default = suc n
or_if_unset (negative n) default = default

-- The defaults of NewResolver.
unfoldable pub limits_of : Config → Limits
unfolding or_if_unset
limits_of cfg = record {
  fetch_timeout = or_if_unset cfg.fetch_timeout (5 * second);
  max_size = or_if_unset cfg.max_size (64 * 1024);
  cache_ttl = or_if_unset cfg.cache_ttl (3600 * second);
  negative_ttl = or_if_unset cfg.negative_ttl (60 * second);
}

abbrev pub max_cache_entries : ℕ
max_cache_entries = 4096

pub record CacheEntry : Type 0 where
  pub result : Outcome Document
  pub expires_at : ℕ

abbrev pub Cache : Type 0
Cache = List (Str × CacheEntry)

unfoldable pub lookup : Str → Cache → Option CacheEntry
lookup k [] = none
lookup k ((j, e) ∷ c) = let later = lookup k c in if j == k then some e else later

unfoldable pub remove : Str → Cache → Cache
remove k [] = []
remove k ((j, e) ∷ c) = let rest = remove k c in if j == k then rest else (j, e) ∷ rest

-- `cache[k] = e`
unfoldable pub assign : Str → CacheEntry → Cache → Cache
unfolding remove
assign k e c = (k, e) ∷ remove k c

unfoldable pub delete_expired : ℕ → Cache → Cache
delete_expired now [] = []
delete_expired now ((j, e) ∷ c) =
    let rest = delete_expired now c in if ltb now e.expires_at then (j, e) ∷ rest else rest

-- The second loop, over the keys in the order of the `range`.
unfoldable pub evict : List Str → Cache → Cache
evict [] c = c
evict (k ∷ keys) c =
    let rest = evict keys (remove k c) in if ltb (length c) max_cache_entries then c else rest

-- Whether an entry that is not there yet finds no room.
unfoldable pub is_full : Option CacheEntry → Cache → Bool
is_full none c = leb max_cache_entries (length c)
is_full (some _) c = false

unfoldable pub make_room : (Cache → List Str) → ℕ → Str → Cache → Cache
unfolding is_full delete_expired evict
make_room order now id c =
    let purged = delete_expired now c in
    if is_full (lookup id c) c then evict (order purged) purged else c

-- `order` lists the keys in the order of the `range`; `now` is read while the lock is held.
unfoldable pub store : (Cache → List Str) → ℕ → Str → CacheEntry → Cache → Cache
unfolding make_room assign
store order now id entry c = assign id entry (make_room order now id c)

-- What the HTTP client answers: an error, which a redirect and a refused address are too, or a status
-- and the bytes of the body, none if they cannot be read.
pub data Response : Type 0 where
  unreachable : Response
  answered : ℕ → Option Str → Response

-- `url.Parse`, `json.Unmarshal` into a document, whether `http.NewRequest` takes a URL, and
-- `net.ParseIP` of the host that `net.SplitHostPort` finds.
pub record Libraries : Type 0 where
  pub parse_url : Str → Option Url
  pub unmarshal : Str → Option Document
  pub accepts_url : Str → Bool
  pub split_host : Str → Option Str
  pub parse_ip : Str → Option (List ℕ)

module _ (lib : Libraries) (limits : Limits) (allow_private_hosts : Bool) where
  open lib use {parse_url, unmarshal, accepts_url, split_host, parse_ip}

  unfoldable pub check_ip : Option (List ℕ) → Outcome (Unit {0})
  check_ip none = invalid (lit "could not parse dial address")
  check_ip (some ip) = refuse_if (is_disallowed_ip ip) (lit "resolves to a non-public address")

  unfoldable pub check_dial_address : Str → Outcome (Unit {0})
  unfolding check_ip
  check_dial_address address = if allow_private_hosts then ok tt else elim (split_host address) [
    | none ↦ invalid (lit "address")
    | some host ↦ check_ip (parse_ip host)
  ]

  -- The body is read as far as one byte beyond the limit, which tells whether it exceeds it.
  unfoldable pub read_document : Str → Option Str → Outcome Document
  read_document id none = invalid (lit "read failed")
  read_document id (some body) =
      refuse_if (ltb limits.max_size (length body)) (lit "document exceeds the limit") >>= λ _.
      elim (unmarshal body) [
        | none ↦ invalid (lit "invalid JSON")
        | some document ↦ validate_document parse_url id document
      ]

  unfoldable pub read_response : Str → Response → Outcome Document
  unfolding read_document
  read_response id unreachable = invalid (lit "fetch failed")
  read_response id (answered status body) =
      refuse_if (not (status == 200)) (lit "unexpected status") >>= λ _. read_document id body

  unfoldable pub fetch : Str → Response → Outcome Document
  unfolding read_response
  fetch id response = validate_client_id_url parse_url allow_private_hosts id >>= λ _.
      refuse_if (not (accepts_url id)) (lit "request") >>= λ _. read_response id response

  unfoldable pub entry_of : ℕ → Outcome Document → CacheEntry
  entry_of now (ok document) = record { result = ok document; expires_at = now + limits.cache_ttl }
  entry_of now (invalid e) = record { result = invalid e; expires_at = now + limits.negative_ttl }

  unfoldable pub cached : ℕ → Option CacheEntry → Option (Outcome Document)
  cached now none = none
  cached now (some e) = if ltb now e.expires_at then some e.result else none

  -- What Resolve does before the lock is released: an answer from the cache, or none.
  unfoldable pub resolve_cached : ℕ → Str → Cache → Option (Outcome Document)
  unfolding cached lookup
  resolve_cached now id c = cached now (lookup id c)

  -- And what it does after the fetch, whose answer it also returns.
  unfoldable pub resolve_fetched :
      (Cache → List Str) → ℕ → ℕ → Str → Outcome Document → Cache → Cache
  unfolding store entry_of
  resolve_fetched order answered_at now id result c =
      store order now id (entry_of answered_at result) c

  -- Resolve with no other call between its two parts; the response is that to the request, if it is made.
  unfoldable pub resolve :
      (Cache → List Str) → ℕ → ℕ → ℕ → Str → Response → Cache → Outcome Document × Cache
  unfolding resolve_cached fetch resolve_fetched
  resolve order now answered_at stored_at id response c = elim (resolve_cached now id c) [
    | some result ↦ (result, c)
    | none ↦
        (fetch id response, resolve_fetched order answered_at stored_at id (fetch id response) c)
  ]
