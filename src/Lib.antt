-- ===== src/Lib.antt =====
-- A model of the OAuth gateway for MCP servers: its parts that keep state and decide access.
--
-- The gateway signs access tokens with keys that it rotates (pkg/keys), limits requests and failed
-- logins (pkg/ratelimit), and keeps clients, tokens and codes in a store (pkg/repository), from which
-- fosite's handlers read them and in which the operator revokes them.
--
-- Base: strings as lists of code points, maps as functions, the tests on native numbers. A time is
--   its number of nanoseconds since the zero time; a counter wraps at 2^64.
-- Ratelimit: Lockout.antt is pkg/ratelimit/lockout.go (NewLockout, Locked, Fail, Reset, Sweep) and
--   Limiter.antt is pkg/ratelimit/ratelimit.go (NewLimiter, Allow, Sweep) over a token bucket that
--   is a parameter; Limits.antt is its ParseLimit. Each method holds the mutex, hence is one step of
--   an explicit state.
-- Keys: Types.antt is pkg/keys/keys.go, over the cryptographic libraries as a record of functions;
--   Disk.antt is what the code asks of the file system, where each call can fail or be the last
--   one of the process, before it is complete or just after; Directory.antt is writeManifest of manifest.go and load, initialize,
--   adoptLegacyKey and loadKey of manager.go; Manager.antt is the rest of manager.go: Maintain,
--   Rotate, rotateLocked, sweepLocked, VerificationKey, NewManager, NewStaticManager.
-- Repository: Models.antt is pkg/models/models.go. Bolt.antt is bbolt, as a record of operations with
--   the laws of a sorted map (SortedMap.antt), and the transactions create, get, update, delete and
--   the deletion under a prefix of pkg/repository/kvs.go. Tokens.antt is the sessions of kvs.go and
--   their revocation by grant, Maintenance.antt its DeleteExpiredSessions and EnsureSchemaVersion,
--   Clients.antt its registered clients, Users.antt its operator and passkeys, and Revoke.antt is
--   RevokeClient, RevokeGrant and RevokeAll of pkg/repository/kvs_inventory.go. Toy.antt and
--   Format.antt are a bucket and an encoding to run the model with.
--   Inventory.antt, with Inventory/Rows.antt, is pkg/repository/inventory.go and the ListClientGrants
--   of pkg/repository/kvs_inventory.go.
-- Proxy: Guard.antt is pkg/proxy/proxy.go (NewProxyRouter, handleProxy, isSSEGetRequest), over a JWT
--   library and JSON pointers that are parameters; Headers.antt is http.Header as it uses it;
--   TokenRecord.antt is tokenActiveChecker of pkg/mcp-proxy/router.go, by which the guard looks into
--   the store.
-- Auth: Oidc.antt is pkg/auth/oidc.go; Session.antt is pkg/auth/csrf.go and what login.go does with a
--   session; Login.antt is the rest of pkg/auth/login.go and the provider's handlers of routes.go.
-- Backend: Redirects.antt and Forwarding.antt are pkg/backend/transparent.go: the redirects that are
--   followed, at most ten, and the headers that tell a backend of the peer.
-- Cimd: Addresses.antt, Documents.antt and Resolver.antt are pkg/cimd/resolver.go: the addresses that
--   are not dialled, the rules for documents and URIs, and the fetch with its cache. A fetch runs
--   without the lock, hence a call has two steps, between which others may stand.
-- Idp: Loopback.antt is pkg/idp/loopback.go, over url.Parse and net.ParseIP as parameters;
--   Registration.antt is register.go, Clients.antt is client_source.go, Session.antt is session.go with
--   sanitizeLabel, Pending.antt and Consent.antt are authorize.go, with the approval of consent.go, over
--   fosite.
-- Server: Sweeper.antt is pkg/mcp-proxy/sweeper.go: one pass over the store, the keys and the limiters.
-- Settings.antt is parse.go: the allow lists of the operator login and the header mapping of the guard.
--
-- Loops over slices and cursors are structural, so that no fuel is needed. A transaction is one step;
-- an operation with two transactions has two.
--
-- Not modelled: pages and their rendering, the settings page with its passkeys, the token endpoint
-- and the other handlers that only call a library, the public JWK form of a key, log lines, the rest
-- of the configuration, the SQL store, and the libraries, which are parameters.
pub mod Base
pub mod Proxy
pub mod Ratelimit
pub mod Server
pub mod Settings
pub mod Idp
pub mod Keys
pub mod Repository
pub mod Cimd
pub mod Auth
pub mod Backend
