-- ===== src/Lib.antt =====
-- urlfy.cc, a link shortener: the core of its redirect path and of the services that guard it.
--
-- A request for a short code reaches the route handler (Route), which asks the rate limiter
-- (Limiter), checks the unlock token of a protected link (Route/Token), and resolves the code
-- (Redirect/Service). The resolver reads the link through the cache, one request at a time filling
-- it under a distributed lock (Redirect/Fetcher, Lock), with the database behind a circuit breaker
-- (Breaker) and the cache over Redis (Cache); validates the link (Redirect/Validator); builds the
-- final address and refuses one that leads back to the shortener, whose own paths are those of the
-- alias policy (Alias). The events of the clicks go to a stream that a worker consumes (Worker),
-- which inserts a row for each and adds them to the counts of the links (Click); until then they
-- count as pending (Pending). The API that creates links (Links) checks the address (UrlCheck),
-- chooses the code and inserts the link; it replays a request that comes again under an idempotency
-- key (Idempotency). A link that is deleted, restored, switched or updated is forgotten by the
-- cache (Links/Lifecycle, Links/Update). Failed logins and new links are counted, and an address
-- with too many is blocked (Abuse). Limits by client go by the address that a trusted proxy reports
-- (Ip). Redis may fail: its health is tracked and commands are held back for a while (Health), and
-- the limiter falls back to the memory of the process.
--
-- Files and sources:
--   Breaker      packages/cache/src/circuit-breaker.ts: CircuitBreaker, executeWithFallback
--   Health       packages/cache/src/client.ts: redisHealth, canAttemptRedisCommand,
--                markRedisCommandSuccess, markRedisCommandFailure, shouldLogRedisFailure,
--                checkRedisHealth, closeRedis
--   Limiter      packages/cache/src/rate-limiter-core.ts: InMemoryRateLimiter (Limiter/Memory),
--                SLIDING_WINDOW_LUA (Limiter/Window), CanonicalRateLimiter.checkLimit (Limiter/Check)
--   Lock         packages/cache/src/distributed-lock.ts: acquireLock, releaseLock, withLock,
--                DistributedLock
--   Alias        packages/contracts/src/alias-policy.ts: the regular expressions
--   Redirect     packages/contracts/src/redirect.types.ts (Redirect/Link) and
--                packages/redirect-domain/src: validator.ts, fetcher.ts, service.ts, url-builder.ts
--   Route        apps/web/src/app/r/[code]/route.ts: GET, handleError, verifyUnlockToken,
--                reservePendingClick, dispatchAnalytics
--   Worker       apps/worker/src/server/lib/worker-base.ts: processBatch, handleFailedMessage,
--                requeueMessage, moveToDLQ, buildRetryPayload
--   Idempotency  apps/api/src/server/lib/idempotency.ts: checkIdempotency, acquireIdempotencyLock,
--                releaseIdempotencyLock, setIdempotency, validateIdempotencyKey
--   Cache        packages/redirect-domain/src/cache-service.ts: the keys (Cache/Keys), the early
--                refresh (Cache/Refresh), the script that adds clicks (Cache/Script), the scan of
--                keys (Cache/Scan) and CacheService
--   Pending      packages/cache/src/realtime-clicks.ts: the counter of pending clicks; the route over it
--                (apps/web/src/server/lib/redirect-events.ts) is in Pending/Lost
--   Click        apps/worker/src/workers/analytics-click.worker.ts: AnalyticsClickWorker
--   UrlCheck     apps/api/src/server/modules/links/services/url-validator.ts: the hosts and addresses
--                that are refused (UrlCheck/Hosts), BannedDomainsCache and its validation
--   Links        apps/api/src/server/modules/links/services/create-link.ts and shortcode.service.ts:
--                createLink, generateUniqueCode, validateCustomAlias; the types are in Links/Types;
--                link-lifecycle.service.ts beside services: softDeleteLink, restoreLink,
--                duplicateLink, toggleLinkActive (Links/Lifecycle); services/update-link.ts:
--                updateLink (Links/Update); createLink over the validation of UrlCheck is in
--                Links/Secure
--   Abuse        packages/cache/src/anti-abuse-service.ts: AntiAbuseService
--   Ip           packages/telemetry/src/ip.ts: resolveForwardedForIp, resolveTrustedProxyHeaderIp,
--                isValidIp
--   Common       tests, lists, insertion-ordered maps and effects that the others share
--
-- State and effects. A class or module with fields is a record that its operations take and give
-- back. Asynchronous code is a function from a world to an outcome, returned or thrown, and the
-- world after it (Common/Effects); `try`, `catch` and `finally` are operators on these. A world is
-- whatever the injected services share. Times are natural numbers of milliseconds that the caller
-- gives or that are read from the world. Numbers are the natural ones: the counters and times of
-- the program stay far below 2^53, and a difference of times that may be negative is compared
-- without subtracting. The loops of the program are bounded: retries recur on the number that is
-- left.
--
-- Parameters. Redis is an interface of the commands that a component sends, with laws that state
-- what Redis documents for them (Limiter/Window, Lock, Idempotency, Cache, Pending, Abuse). The
-- statements of the database are commands of a record too (Click, Links, Links/Lifecycle). The
-- platform's URL parser, isIP, BlockList, resolver of names, date parser, hash and decoders are
-- arguments. The counter of pending clicks is one of the services that the link lookup and the
-- route are given, and the validation of an address and the cache are services of createLink, with
-- the sanitizers of texts. Instances of all of them in memory are in the modules called Tests and
-- Memory.
--
-- Not modelled: logging, tracing and metrics; the configuration of the Redis connection, and a
-- client whose closing fails twice; the HTTP
-- handlers, the lists and statistics of links, users and analytics over the database; the
-- sanitizers of texts; the loops and the other subclasses of the stream workers; the web front end.
pub mod Abuse
pub mod Alias
pub mod Breaker
pub mod Cache
pub mod Click
pub mod Common
pub mod Health
pub mod Idempotency
pub mod Ip
pub mod Limiter
pub mod Links
pub mod Lock
pub mod Pending
pub mod Redirect
pub mod Route
pub mod UrlCheck
pub mod Worker
