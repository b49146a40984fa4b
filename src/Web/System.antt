-- ===== src/Web/System.antt =====
-- interface/http/handlers.go: the JSON API for metrics, and the endpoints for probes.
use webtracker.Shared.Float.{Float64}
use webtracker.Shared.{
  ℕ, ◌+◌, Bool, false, Option, none, some, String, List, [], ◌∷◌, if◌then◌else◌, length, str_eq,
}
use webtracker.Domain.Monitor.{Monitor}
use webtracker.Resilience.Repository.{ListFilters}
use webtracker.WorkerPool.{WorkerPoolStats}
use webtracker.Metrics.{
  MetricsService, UptimeStats, ResponseTimeStats, get_uptime_percentage, get_response_time_stats,
}
use webtracker.WebSocket.Manager.{milliseconds}
use webtracker.Web.{Response, answered}
use webtracker.Web.Api.{replying, bad_request}
use webtracker.Shared.Int.{ℤ, pos}
use webtracker.Shared.Clock.{Instant, hours}
use webtracker.Shared.Errors.{Result, ok, err}
use webtracker.Shared.Effects.{M}

pub record UptimeResponse : Type 0 where
  pub monitor_id : String
  pub period_24h : Float64
  pub period_7d : Float64
  pub period_30d : Float64

pub record ResponseTimeResponse : Type 0 where
  pub monitor_id : String
  pub period : String
  pub average : ℤ
  pub min : ℤ
  pub max : ℤ
  pub p95 : ℤ
  pub p99 : ℤ

abbrev uptime_body : String → UptimeStats → UptimeResponse
uptime_body id s = record {
  monitor_id = id;
  period_24h = s.period_24h;
  period_7d = s.period_7d;
  period_30d = s.period_30d;
}

abbrev times_body : String → String → ResponseTimeStats → ResponseTimeResponse
times_body id period s = record {
  monitor_id = id;
  period = period;
  average = milliseconds s.average;
  min = milliseconds s.min;
  max = milliseconds s.max;
  p95 = milliseconds s.p95;
  p99 = milliseconds s.p99;
}

-- `DefaultQuery`: "24h" where the parameter is not given at all.
abbrev pub or_default : Option String → String
or_default none = "24h"
or_default (some s) = s

unfoldable pub parse_period : String → Option ℕ
parse_period s =
    if str_eq s "1h"
    then some (hours 1)
    else if str_eq s "24h"
    then some (hours 24)
    else if str_eq s "7d"
    then some (hours 168)
    else none

module _ {W : Type 0} (metrics : MetricsService W) where
  unfoldable pub get_uptime_metrics : String → W → Response UptimeResponse × W
  get_uptime_metrics id w =
      if str_eq id ""
      then (bad_request "monitor ID is required", w)
      else replying 200 500 (uptime_body id) (get_uptime_percentage metrics id w)

  times_for : String → String → Option ℕ → W → Response ResponseTimeResponse × W
  times_for id text none w = (bad_request "invalid period, use 1h, 24h, or 7d", w)
  times_for id text (some period) w =
      replying 200 500 (times_body id text) (get_response_time_stats metrics id period w)

  unfoldable pub get_response_time_metrics :
      String → Option String → W → Response ResponseTimeResponse × W
  unfolding times_for parse_period
  get_response_time_metrics id period w =
      if str_eq id ""
      then (bad_request "monitor ID is required", w)
      else times_for id (or_default period) (parse_period (or_default period)) w

pub record PoolProbe (W : Type 0) : Type 0 where
  pub is_running : W → Bool
  pub get_stats : W → WorkerPoolStats × W

-- The worker pool and the scheduler may be nil.
pub record SystemHandler (W : Type 0) : Type 0 where
  pub worker_pool : Option (PoolProbe W)
  pub scheduler_running : Option (W → Bool)
  pub list_monitors : ListFilters → M W (List Monitor)
  pub clock : W → Instant × W

pub record HealthResponse : Type 0 where
  pub status : String
  pub timestamp : Instant
  pub checks : List (String × String)

pub record DatabaseMetrics : Type 0 where
  pub total_monitors : ℕ
  pub enabled_monitors : ℕ
  pub disabled_monitors : ℕ

pub record WorkerPoolMetrics : Type 0 where
  pub active_workers : ℤ
  pub queue_depth : ℤ
  pub processed_jobs : ℤ
  pub is_running : Bool

-- The system's part of the answer is whether the scheduler runs, and the time.
pub record MetricsResponse : Type 0 where
  pub worker_pool : WorkerPoolMetrics
  pub database : DatabaseMetrics
  pub scheduler_running : Bool
  pub timestamp : Instant

abbrev up_to : ℕ → ListFilters
up_to n = record { enabled = none; limit = pos n; offset = pos 0 }

abbrev pub running_text : Bool → String
running_text b = if b then "ok" else "not_running"

unfoldable pub count_monitors : List Monitor → DatabaseMetrics → DatabaseMetrics
count_monitors [] d = d
count_monitors (m ∷ ms) d = count_monitors ms (
    if m.enabled
    then record d { enabled_monitors = d.enabled_monitors + 1 }
    else record d { disabled_monitors = d.disabled_monitors + 1 })

unfoldable pub database_metrics : Result (List Monitor) → DatabaseMetrics
unfolding count_monitors
database_metrics (err e) = record {
  total_monitors = 0;
  enabled_monitors = 0;
  disabled_monitors = 0;
}
database_metrics (ok ms) =
    count_monitors ms
      (record { total_monitors = length ms; enabled_monitors = 0; disabled_monitors = 0 })

module _ {W : Type 0} (h : SystemHandler W) where
  abbrev pool_runs : W → Bool
  pool_runs w = elim h.worker_pool [ none ↦ false | some pool ↦ pool.is_running w ]

  abbrev scheduler_runs : W → Bool
  scheduler_runs w = elim h.scheduler_running [ none ↦ false | some running ↦ running w ]

  -- `Health` and `Live`.
  unfoldable pub alive : String → W → Response HealthResponse × W
  alive text w =
      let (now, w') = h.clock w in
      (answered 200 (record { status = text; timestamp = now; checks = [] }), w')

  ready_reply : Result (List Monitor) × W → Response HealthResponse × W
  ready_reply (err e, w) =
      let (now, w') = h.clock w in
      (
        answered 503 (record {
          status = "not_ready";
          timestamp = now;
          checks = ("database", "failed") ∷ [];
        }),
        w',
      )
  ready_reply (ok ms, w) =
      let (now, w') = h.clock w in
      (
        answered 200 (record {
          status = "ready";
          timestamp = now;
          checks =
              ("database", "ok")
              ∷ ("worker_pool", running_text (pool_runs w))
              ∷ ("scheduler", running_text (scheduler_runs w))
              ∷ [];
        }),
        w',
      )

  unfoldable pub ready : W → Response HealthResponse × W
  unfolding ready_reply
  ready w = ready_reply (h.list_monitors (up_to 1) w)

  pool_metrics : Option (PoolProbe W) → W → WorkerPoolMetrics × W
  pool_metrics none w = (
    record {
      active_workers = pos 0;
      queue_depth = pos 0;
      processed_jobs = pos 0;
      is_running = false;
    },
    w,
  )
  pool_metrics (some pool) w =
      let (stats, w') = pool.get_stats w in
      (
        record {
          active_workers = stats.active_workers;
          queue_depth = stats.queue_depth;
          processed_jobs = stats.processed_jobs;
          is_running = pool.is_running w';
        },
        w',
      )

  unfoldable pub system_metrics : W → Response MetricsResponse × W
  unfolding pool_metrics database_metrics
  system_metrics w =
      let (pool, w₁) = pool_metrics h.worker_pool w in
      let (monitors, w₂) = h.list_monitors (up_to 10000) w₁ in
      let (now, w₃) = h.clock w₂ in
      (
        answered 200 (record {
          worker_pool = pool;
          database = database_metrics monitors;
          scheduler_running = scheduler_runs w₂;
          timestamp = now;
        }),
        w₃,
      )
