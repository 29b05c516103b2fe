-- ===== src/Lib.antt =====
-- A model of the service gateway, an HTTP reverse proxy in front of microservices, and what has been
-- proved of it.
--
-- A request passes the dispatcher's router to the handler of a route. Around the handler that talks
-- to the backend stand, from inside to outside, the rewriter of links, the cache, the check of
-- tokens and the rate limiter. Each is a function from handlers to handlers, as in the source.
--
-- A handler is an action over a world W (Effects): it gets a request and the parameters of the
-- route, reads and changes the world, and returns what it writes to its response writer, as a list
-- of events (Http); or it panics, and the world keeps what was done. Two readers turn events into a
-- response (Http/Recorder): the recorder of net/http/httptest, and what net/http sends. Http/Header
-- has Go's header maps with their canonical names, Http/Sent what reaches the client.
--
-- Which file models what (paths from the repository's root):
-- - Config: config/config.go, config/auth.go, config/logging.go, config/startup.go.
-- - Cache: cache/cache.go (ResponseBuffer, DecorateHandler, DecorateUnsafeHandler).
-- - Proxy/Rewriter and Proxy/Rewriter/Decorate: proxy/hostrewriter.go (RewriteUrl, walkJson; Rewrite,
--   Decorate). Proxy/Json has decoded JSON.
-- - Proxy/Upstream: proxy/handler.go (HandleProxyRequest, UnavailableError).
-- - Ratelimit: ratelimit/ratelimiting.go (NewRateLimiter, identifyClient, takeToken,
--   DecorateHandler).
-- - Auth/Jwt: auth/jwt.go (NewJwtVerifier, GetVerificationKey, VerifyToken). Auth/Jwt/Calls: calls of
--   GetVerificationKey that run at the same time. Each read or write of a field, each use of the lock
--   and each request is a step, and any number of calls take their steps in any order; a field is read
--   and written as a whole, and all goroutines see the writes in one order; Auth/Jwt/Calls/Alone
--   compares a call that runs alone with the function of Auth/Jwt. Auth/Reader: auth/reader.go
--   (TokenFromRequest). Auth/Writer: auth/writer.go. Auth/TokenStore: auth/tokenstore.go (the Redis
--   store, CacheDecorator and NewTokenStore). Auth/Handler: auth/handler.go (IsAuthenticated).
--   Auth/Rest: auth/rest.go (DecorateHandler); Auth/Rest/Rewrite: rewriteAccessTokens. Auth/Login:
--   auth/handler.go (Authenticate); Auth/Login/Routes: auth/rest.go (RegisterRoutes).
--   Auth/Login/Hook: auth/handler.go (NewAuthenticationHandler) and the lock of the JavaScript engine
--   in Authenticate, as steps of any number of log-ins. Auth/Session: a log-in and a request with its
--   token, over the parts above.
-- - Admin: admin/server.go, admin/json.go (the handlers of NewAdminServer).
-- - Shutdown: the goroutines of main.go that end the process, with the controllers of
--   monitoring/no_integration_controller.go and monitoring/consul_controller.go. The state says where
--   each goroutine is; a send and a receive on a channel without a buffer are one step, and every
--   order of steps is a run. Whether the servers can listen at their addresses is a parameter;
--   that Close waits for a server to serve is what github.com/braintree/manners does. Statements
--   on all states are decided by trying each (Shutdown/Finite).
-- - Monitoring: monitoring/metrics.go, monitoring/server.go and the constructors and Start of the two
--   controllers. Start: main.go from the reading of the configuration to the parts that the goroutines
--   work with, over Auth/Jwt, Auth/TokenStore, Httplogging and Monitoring; logger.Fatal and
--   logger.Panic are outcomes of their own. Start/Servers: the goroutine that builds the handlers, over
--   Dispatcher/Build, and the addresses of the servers.
-- - Dispatcher/Behaviours: dispatcher/behaviours.go. Dispatcher/Closures and Dispatcher/Options:
--   dispatcher/pathbased.go. Dispatcher/Routes: RegisterApplication, which
--   dispatcher/no_integration_dispatcher.go and dispatcher/consul_dispatcher.go share.
--   Dispatcher/Consul: the loop over Consul's pairs in BuildConsulDispatcher. Dispatcher/Build:
--   BuildNoIntegrationDispatcher, BuildConsulDispatcher, Initialize and auth/base.go
--   (NewAuthDecorator). Dispatcher/Access and Dispatcher/Build/Protected: what the limiter, the check of
--   tokens and the builds are together.
-- - Httplogging: httplogging/amqp.go (OnAuthenticatedRequest, match), httplogging/factory.go,
--   httplogging/apache.go and buildLoggers of main.go; Httplogging/Connection: connect. What a
--   goroutine of OnAuthenticatedRequest does is done at once.
-- - Text: the functions of Go's package strings that these parts call, over texts of characters.
--
-- Libraries and services are parameters: gcache, go-cache, golang-lru, Redis, jwt-go, net/url,
-- regexp, encoding/json, the HTTP client and the clock are records of functions, over the world where
-- they keep state. What the code relies on is a record of laws (IsCache, IsExpCache, IsLru, IsRedis,
-- IsRedisHashes, IsSoundEnv), and the modules Tests have functions that meet them.
--
-- A `range` over a Go map goes through a list, in any order that the list may have. Numbers are
-- natural numbers or integers without a bound: int64 is only used for times in seconds, for
-- durations in nanoseconds and for counters of Redis, far from its bounds. Loops are recursions on
-- lists or documents; the only fuel is in Text.itoa, where a number n has at most n + 1 digits.
--
-- Not modelled: the parsing of flags, the setting of log levels and the goroutine for the profile of the
-- CPU in main.go (its handler of interrupts ends the process at once), what the metrics count, the
-- routers httprouter and bone, and failures of writes to the client. dispatcher/hostbased.go is
-- commented out as a whole.
mod Prelude
pub mod Text
pub mod Effects
pub mod Http
pub mod Config
pub mod Cache
pub mod Proxy
pub mod Ratelimit
pub mod Auth
pub mod Dispatcher
pub mod Httplogging
pub mod Shutdown
pub mod Monitoring
pub mod Start
pub mod Admin
