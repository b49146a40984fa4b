-- ===== src/Lib.antt =====
-- A model of the uptime tracker webtracker, a Go service that checks web sites at intervals, stores
-- the checks and alerts by Telegram, email or a webhook.
--
-- Parts, and the files that model them:
--   CircuitBreaker          infrastructure/resilience/circuit_breaker.go: `CircuitBreaker` and, in
--                           CircuitBreaker/Manager, `CircuitBreakerManager`. `execute` is `Execute`.
--   Degradation             infrastructure/resilience/degradation.go: `DegradationManager`, which
--                           the repositories and the Redis client ask what is available and tell
--                           what failed.
--   RateLimiter             usecase/rate_limiter.go: `RedisRateLimiter`, over any `RedisCache`.
--   Domain                  domain/: monitors, checks, alerts, users and sessions with their rules.
--   Resilience.Repository   infrastructure/resilience/repository.go: `ResilientMonitorRepository`,
--                           which serves from its own cache while the database is down.
--   Resilience.HealthChecks the same file: `ResilientHealthCheckRepository`.
--   Resilience.RedisClient  infrastructure/resilience/redis.go: `ResilientRedisClient`. As the
--                           `RedisCache` of the rate limiter, in Resilience/RedisClient/Outage.
--   Resilience.AlertChannel infrastructure/resilience/alert_channel.go: delivery, each channel
--                           behind the circuit breaker of its type.
--   AlertDelivery           interface/alertchannel/delivery.go: delivery to all channels
--                           concurrently, as a relation.
--   AlertService            usecase/alert_service.go: which alerts a check gives rise to, and their
--                           delivery; it calls a rate limiter and a delivery service.
--   MonitorService          usecase/monitor_service.go: requests to create, change and delete
--                           monitors; it calls a repository and the scheduler.
--   Aggregation             usecase/healthcheck_aggregation_service.go: hourly aggregates of the
--                           checks, the deletion of the checks, and its ticker.
--   HealthCheckService      usecase/healthcheck_service.go: the execution of a check: the request,
--                           the verdict, and the calls that follow.
--   Redis                   infrastructure/redis/client.go: `Client`, over the commands of Redis. What
--                           it promises to its callers is `IsJobStore` in Redis/Store.
--   Scheduler               usecase/scheduler.go: `JobScheduler`: jobs for the checks of monitors, that
--                           are moved to a queue when they are due.
--   WorkerPool              usecase/worker_pool.go: the workers that take jobs from the queue; with
--                           the scheduler, as one system, in WorkerPool/Jobs.
--   Auth                    usecase/auth_service.go: registration, login and sessions; in
--                           Auth/Middleware, interface/http/auth_middleware.go.
--   CachedRepository        infrastructure/postgres/cached_monitor_repository.go: monitors in Redis in
--                           front of the database.
--   Metrics                 usecase/metrics_service.go: uptime and statistics of response times.
--   Retention               usecase/data_retention_service.go: the deletion of old data.
--   Config                  config/config.go and, in Config/Validation, config/validation.go: the
--                           configuration, from the environment, and its rules; env.go and the
--                           reading of files in Config/Files, loader.go in Config/Loader.
--   ChannelAdapters         interface/alertchannel/telegram.go, webhook.go and, in
--                           ChannelAdapters/Email, email.go: what delivery calls to send an alert.
--   WebSocket               interface/websocket/handler.go: the hub, its connections and their pumps,
--                           as interleaved steps; manager.go in WebSocket/Manager.
--   Web                     interface/http: handlers.go in Web/Api (monitors), Web/History (checks and
--                           alerts) and Web/System (metrics, probes); form_handlers.go in Web/Forms,
--                           auth_handlers.go in Web/Accounts, dashboard_handlers.go in Web/Dashboard.
--                           They call the services of usecase/ through interfaces.
--   HttpClient              infrastructure/httpclient/retry.go: requests that are tried again.
--   Shared                  what they share: lists, Go's `int` (Shared/Int), `time` (Shared/Clock),
--                           errors, maps (Shared/Dict), calls that may fail (Shared/Effects) and
--                           the list of calls that theorems read (Shared/Log).
--   Examples                the theorems at concrete inputs, and test runs.
--
-- A method that changes its receiver returns the new record. A function name in snake case is the
-- Go name in camel case: `check_and_set_downtime_alert` is `CheckAndSetDowntimeAlert`. Go's `int`
-- and `time.Duration` are integers in which an increment wraps at 64 bits, and `time.Time` is a
-- number of nanoseconds since Go's zero time; `Time.Sub` saturates as in Go. A text's length is its
-- bytes. Readings of the clock are arguments of a function or calls of a parameter.
--
-- The database, the commands of Redis, the id generator, random numbers and tokens, JSON,
-- `url.Parse`, bcrypt, the compiled email pattern, the environment and the adapters that send are
-- parameters, acting on a state `W` of the world. Where a theorem relies on their documented
-- behaviour, a record says what that is: `Works` for a Redis with expiry and for RFC 3339
-- timestamps, `Serves` for its lists and sorted sets and for JSON, `Faithful` for the database,
-- which sets the times of a monitor itself, `IsCache` for cached monitors, `SessionTable` for the
-- sessions, `Bcrypt` for bcrypt. The components call each other through interfaces: the rate
-- limiter uses a `RedisCache`, the scheduler and the workers a `Client`, the monitor service a
-- `Scheduler`. Loops are structural recursion, on the list that the Go code ranges over or on the
-- number of attempts that are left. Only the loop over hours of the aggregation has fuel, of which
-- the theorem on it shows that it is enough. Concurrent callers of a circuit breaker are an
-- arbitrary list of its critical sections, the goroutines of a delivery finish in an arbitrary
-- order, and the steps of the scheduler and the workers, and those of the WebSocket hub and its
-- pumps, interleave arbitrarily. The other components are run one call at a time. Stored monitors
-- are values: the Go maps hold pointers, and nothing in the modelled files but the repositories,
-- which set times, writes through one after it was stored. Theorems that compare a monitor or a
-- user with the database leave out these times. The operations on float64 are parameters.
--
-- gin, gorilla/websocket, net/smtp, html/template and package strings are parameters too.
--
-- Not modelled: loggers; routing, HTML templates, the sums of the dashboard and the page of one
-- monitor; SQL in infrastructure/postgres, but for the cached repository; the net/http client; the
-- parsers of configuration files, and writing them.
pub mod Shared
pub mod CircuitBreaker
pub mod Degradation
pub mod RateLimiter
pub mod Domain
pub mod Resilience
pub mod AlertService
pub mod MonitorService
pub mod Examples
pub mod HttpClient
pub mod Aggregation
pub mod HealthCheckService
pub mod AlertDelivery
pub mod Redis
pub mod Scheduler
pub mod WebSocket
pub mod Web
pub mod ChannelAdapters
pub mod WorkerPool
pub mod Config
pub mod Auth
pub mod CachedRepository
pub mod Retention
pub mod Metrics
