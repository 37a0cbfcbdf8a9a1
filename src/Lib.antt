-- ===== src/Lib.antt =====
-- The SecureEdge platform: two Go programs in front of a web application. SecureEdge
-- (apps/securityedge) is the security gateway: it resolves the client of a request, checks bans,
-- rate limits and concurrency, and inspects what it lets in. EdgeProxy (apps/edgeproxy) stands
-- behind it: it routes a request to a pool of origins, balances load over them, and caches their
-- responses.
--
-- Which file models which part, with paths from the root of the repository:
--   Cache: apps/edgeproxy/internal/cache/cache.go. `Cache` is the LRU list beside its index; `get`,
--     `set`, `delete_key`, `clear`, `purge` and `purge_request` are Get, Set, Delete, Clear, Purge
--     and PurgeRequest. Cache.Elements has the entries and container/list as the cache uses it.
--   CachePolicy: apps/edgeproxy/internal/proxy/cache_policy.go, the decisions on requests and
--     responses; CachePolicy.Lists has its header lists and Cache-Control.
--   CacheKey: the key of a response in the cache, from the same file; `cache_key` is cacheKey and
--     `cache_key_request` cacheKeyRequest.
--   KeyLock: apps/edgeproxy/internal/cache/keylock.go; `enter`, `set_held` and `leave` are the
--     parts of Lock and of the function that it returns, and `Move` the steps of its callers.
--   CappedBuffer: apps/edgeproxy/internal/proxy/capped_buffer.go; `write` is Write.
--   Router: apps/edgeproxy/internal/router/router.go; `match_route` is Match.
--   Paths: canonicalRequestPath and path prefixes, which the router, the cache's purge and the WAF
--     have in the same words.
--   Upstreams: apps/edgeproxy/internal/proxy/upstream.go, the pool and its six schedulers; `pick`
--     and `release_active` are pick and releaseActive. A node is named by its place in the pool.
--   Admission: apps/securityedge/internal/admission/limiter.go; `acquire` and `release` are Acquire
--     and the function that it returns.
--   RateLimit, Bans: apps/securityedge/internal/ratelimit/limiter.go, its Limiter and its
--     BanManager.
--   Tracker: apps/securityedge/internal/traffic/tracker.go; Search is sort.Search, which it calls.
--   ClientIp: apps/securityedge/internal/clientip/resolver.go; `resolve` is Resolve.
--   Gateway: apps/securityedge/internal/gateway/handler.go. `serve` is ServeHTTP and `check` its
--     checks, over Admission, Bans and RateLimit; Gateway.Types has what it is given and answers,
--     Gateway.Shape the form of a request (`validate_request_shape`), Gateway.Staging
--     stageRequestBody, Gateway.Responses the decisionWriter, Gateway.Tunnels the connections that
--     were taken over, Gateway.Logging the fields of a log entry. Gateway.Flights serves many
--     requests at once: other requests run between the admission, the checks and the downstream
--     handler of one. Gateway.Screening puts the WAF in the place of the handler's inspection.
--     Gateway.Overruns has the requests whose body turns out too long downstream.
--   Waf: apps/securityedge/internal/waf. `inspect` is Inspect and `scan_rules` its loop over the
--     rules; Waf.Samples and Waf.Json have the samples of a request, with a JSON body as a mutual
--     data type, Waf.Inspectors the inspector and Replace, Waf.Rules the built-in rules and
--     `compile_rules`, which is CompileRules.
--   Prelude: what the components share: Boolean tests, lists over native numbers, strings as lists
--     of bytes, maps as association lists, signed integers.
-- Each component has a module of its own for each group of theorems and, in Examples, its tests.
--
-- How the code is modelled. A mutex makes a method one step, so a method is a function from the
-- state to the state and its answer, and concurrent use is a sequence of steps: Admission.Event,
-- Bans.History.Call, Cache.History.Call, Gateway.Flights.Event; KeyLock has a step relation. Times
-- are numbers of nanoseconds since Go's zero time. An unsigned counter wraps at 2 ^ 64; the
-- schedulers' current weight is an unbounded integer, as it stays within the sum of the weights;
-- the lifetime of a response is an int64 that wraps as the code's does. Letters and blanks are
-- those of ASCII. A map is visited in the order of its association list, which Go leaves open.
--
-- Fuel: Cache.set evicts at most as many elements as the list has, and Cache.Eviction shows that
-- the loop then ends by its own test. Waf.Samples.decode_rounds has the three rounds that the code
-- has. Search.search has the width of its interval, which each round narrows. All other loops are
-- structural recursion.
--
-- Parameters: the operations of float64 (RateLimit.Float64, with the laws in Float64Laws;
-- Upstreams.Arithmetic), the addresses and networks of package net (ClientIp.Net; `ip` of the
-- router; Gateway.Types.Addresses), mime.ParseMediaType, http.ParseTime, url.ParseRequestURI,
-- base64, SHA-256 and canonical header names (CacheKey.Codec), the decoders and the regular
-- expressions of the WAF (Waf.Samples.Codec, the patterns of rules), and cacheKeyRequest in the
-- cache's purge.
--
-- Not modelled: input and output, HTTP transport and TLS; the proxy's request handler; the
-- administration servers, logs, metrics, configuration and its persistence; latency averages; the
-- health checks' schedule.
pub mod Prelude
pub mod Admission
pub mod Bans
pub mod Cache
pub mod CacheKey
pub mod CachePolicy
pub mod CappedBuffer
pub mod ClientIp
pub mod Gateway
pub mod KeyLock
pub mod Paths
pub mod RateLimit
pub mod Router
pub mod Search
pub mod Tracker
pub mod Upstreams
pub mod Waf
