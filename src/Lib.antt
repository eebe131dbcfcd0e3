-- ===== src/Lib.antt =====
-- The Bitcoin last-traded-price service: an HTTP server that answers requests for the price of
-- Bitcoin, from a cache or from Kraken's public API, behind a rate limiter.
--
-- Which file models which part:
--   RateLimit.Bucket        internal/ratelimit/bucket.go (TokenBucket; AllowN is allow_n)
--   RateLimit.Limiter       internal/ratelimit/limiter.go (RateLimiter; Allow is allow);
--                           Interleaved has the steps of concurrent requests
--   RateLimit.Limiter.Addresses   ExtractIP of the same file
--   Pairs                   internal/pairs/pairs.go
--   Cache.Entry             internal/cache/interface.go
--   Cache.Memory            internal/cache/memory.go; Batch has the methods that walk over keys,
--                           Api all methods as a Cache
--   Cache.Fallback          internal/cache/fallback.go; Workers has the background workers,
--                           Races the steps of a Get, Stopping those of the workers
--   Cache.Legacy            internal/cache/legacy.go
--   Cache.Redis             internal/cache/redis.go; Batch has the methods that walk over keys,
--                           Address the connection, Api all methods as a Cache
--   Cache.Factory           internal/cache/factory.go
--   Ltp                     internal/ltp/service.go (GetLTP is get_ltp)
--   Backoff                 internal/backoff/backoff.go; Observed has the loop with its metrics
--   Kraken                  internal/kraken (client.go, models.go); Observed has the ticker
--                           with its metrics
--   Health                  internal/health (checker.go, legacy_cache_check.go)
--   HttpServer              internal/httpserver/server.go, internal/resp/response.go; Handlers has the
--                           routes and handlers, Middleware the chain around them
--   Main                    cmd/server/main.go (its settings, refreshFunc); Wiring has the service
--                           over the cache in memory and the client of Kraken, Lifecycle the start
--                           and the end of the program
--   Examples                the theorems at concrete inputs
-- The modules below those hold their theorems. Base has what all share: tests on numbers, texts,
-- Go's maps, durations, numbers in texts, float64.
--
-- State and operations. A struct is a record, a method a function from the state to the new state
-- and the result. A mutex makes a method one step. Where a method lets go of its lock in between,
-- its steps are there as well: RateLimit.Limiter.Interleaved has those of Allow,
-- Cache.Memory.Races and Cache.Fallback.Races those of Get, Cache.Fallback.Stopping those of
-- StopBackgroundRefresh and of the background workers (Main.Lifecycle takes a worker's work on an
-- event as one). Each reading of time.Now() is an argument. An instant is a number of
-- nanoseconds since Go's zero time, a duration an integer of nanoseconds. The counters of metrics
-- that an operation writes are a part of its state.
--
-- Parameters. float64 is a type with its operations (Base.Float64); what IEEE 754 says of the
-- refill arithmetic are the hypotheses IsAccurate and IsPrompt. The tables of package unicode
-- above ASCII are a parameter of Pairs. Texts are code points of valid UTF-8. A map is an
-- association list, whose order stands for the order in which range visits the map. What stands
-- behind an interface of the source is a record of functions on a state: the primary cache of
-- Cache.Fallback, the cache and the API of Ltp, the network, decoder and number reader of Kraken,
-- the retried call of Backoff, the Redis client and the JSON codec of Cache.Redis. The file
-- server, the Prometheus handler and the handler of unknown paths are fields of HttpServer.Server,
-- and may panic.
--
-- The parts together. A request for prices is normalised and mapped to symbols by Pairs, looked up
-- through Cache.Legacy in Cache.Fallback, which has Cache.Memory behind a primary cache, and,
-- where a price is missing, asked of Kraken, which retries by Backoff. HttpServer puts the rate
-- limiter, the counting of requests and the recovery from panics around the handlers. Main.Wiring
-- puts the service, the cache in memory, the client of Kraken, the checks and the server together;
-- Main has the function that refreshes the cached prices.
--
-- Bounds. Token counts, capacities and rates are the non-negative values that the callers pass;
-- int64 does not overflow there, since a refill adds at most 292 years at a hundred tokens a
-- second. No definition takes fuel: each loop runs over a list, or over the attempts that are
-- left.
--
-- Main.Origin keeps a record of Kraken's answers and of what the service puts into the cache,
-- beside the service. Its requests are for prices and run one after another.
--
-- Not modelled: the declarations of the Prometheus collectors have no logic of their own, and of
-- the durations only those of Backoff are kept. The text of the logs is left out. JSON, URLs and
-- the formats of durations are read by library code.
pub mod Base
pub mod RateLimit
pub mod Pairs
pub mod Cache
mod Examples
pub mod Ltp
pub mod Backoff
pub mod Kraken
pub mod Health
pub mod HttpServer
pub mod Main
