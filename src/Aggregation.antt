-- ===== src/Aggregation.antt =====
-- usecase/healthcheck_aggregation_service.go: hourly aggregates of the health checks, and the
-- deletion of the checks. The repositories, the clock and the id generator are parameters over the
-- state `W` of the world; what is stored and what is deleted is noted. The scheduler calls
-- `run_aggregation` at each tick. Log lines are left out.
pub mod Lifecycle
pub mod Statistics
pub mod Hours
use webtracker.Shared.{
  ℕ, zero, suc, ◌+◌, ◌-◌, ◌%◌, Bool, true, false, none, String, List, [], ◌∷◌, if◌then◌else◌,
  is_empty, length, ltb, str_eq,
}
use webtracker.Shared.Int.{pos, ltb_ℤ, max_int64, add_int64, div_int64}
use webtracker.Shared.Clock.{Instant, Duration, hours}
use webtracker.Shared.Errors.{Outcome, failure}
use webtracker.Shared.Effects.{M, pure, fail, context, ignored, ◌>>=◌, ◌>>◌}
use webtracker.Shared.Log.{Logged, quiet, reading, noted}
use webtracker.Domain.HealthCheck.{HealthCheck, AggregatedHealthCheck, is_successful}
use webtracker.Domain.Monitor.{Monitor}
use webtracker.Resilience.HealthChecks.{HealthCheckRepository}
use webtracker.Resilience.Repository.{MonitorRepository, ListFilters}

pub record AggregationService (W : Type 0) : Type 0 where
  pub clock : W → Instant × W
  pub new_id : W → String × W
  pub health_checks : HealthCheckRepository W
  pub create_aggregated : AggregatedHealthCheck → M W (Unit {0})
  pub monitors : MonitorRepository W

pub data Call : Type 0 where
  aggregate_created : AggregatedHealthCheck → Outcome → Call
  checks_deleted : Instant → Outcome → Call

-- `aggregationThreshold`, seven days.
abbrev pub aggregation_threshold : ℕ
aggregation_threshold = hours 168

-- `t.Truncate(time.Hour)`.
abbrev pub truncate_hour : Instant → Instant
truncate_hour t = t - t % hours 1

-- The variables of the loop over an hour's checks.
pub record Tally : Type 0 where
  pub successful : ℕ
  pub failed : ℕ
  pub total : Duration
  pub least : Duration
  pub greatest : Duration

abbrev pub empty_tally : Tally
empty_tally = record {
  successful = 0;
  failed = 0;
  total = pos 0;
  least = pos max_int64;
  greatest = pos 0;
}

unfoldable pub count_check : HealthCheck → Tally → Tally
count_check check t =
    if is_successful check
    then record {
      successful = suc t.successful;
      failed = t.failed;
      total = add_int64 t.total check.response_time;
      least = if ltb_ℤ check.response_time t.least then check.response_time else t.least;
      greatest = if ltb_ℤ t.greatest check.response_time then check.response_time else t.greatest;
    }
    else record t { failed = suc t.failed }

unfoldable pub count_checks : List HealthCheck → Tally → Tally
count_checks [] t = t
count_checks (check ∷ checks) t = count_checks checks (count_check check t)

-- The aggregate of an hour's checks.
unfoldable pub aggregate :
    String → List HealthCheck → String → Instant → Instant → AggregatedHealthCheck
aggregate monitor_id checks id hour now =
    let t = count_checks checks empty_tally in
    let some_success = ltb 0 t.successful in
    record {
      id = id;
      monitor_id = monitor_id;
      hour_timestamp = hour;
      total_checks = length checks;
      successful_checks = t.successful;
      failed_checks = t.failed;
      avg_response_time = if some_success then div_int64 t.total t.successful else pos 0;
      min_response_time = if some_success then t.least else pos 0;
      max_response_time = if some_success then t.greatest else pos 0;
      created_at = now;
    }

module _ {W : Type 0} (svc : AggregationService W) where
  abbrev pub S : Type 0
  S = Logged W Call

  save_aggregate : String → Instant → List HealthCheck → M S (Unit {0})
  save_aggregate monitor_id hour checks = do
    id ← reading svc.new_id
    now ← reading svc.clock
    let a = aggregate monitor_id checks id hour now
    context "failed to save aggregated health check"
        (noted (aggregate_created a) (svc.create_aggregated a))

  -- `AggregateHour` for the hour in which the instant lies.
  unfoldable pub aggregate_hour : String → Instant → M S (Unit {0})
  unfolding save_aggregate
  aggregate_hour monitor_id instant =
      if str_eq monitor_id "" then fail (failure "monitor ID is required") else (do
        let hour = truncate_hour instant
        checks ←
            context "failed to get health checks for aggregation"
              (quiet (svc.health_checks.get_by_date_range monitor_id hour (hour + hours 1)))
        if is_empty checks then pure tt else save_aggregate monitor_id hour checks)

  -- The loop over the hours before the cutoff; the number is fuel.
  unfoldable pub aggregate_hours : ℕ → String → Instant → Instant → M S (Unit {0})
  aggregate_hours zero monitor_id hour cutoff = fail (failure "out of fuel")
  aggregate_hours (suc fuel) monitor_id hour cutoff =
      if ltb hour cutoff
      then (do
        context "failed to aggregate hour" (aggregate_hour monitor_id hour)
        aggregate_hours fuel monitor_id (hour + hours 1) cutoff)
      else pure tt

  unfoldable pub delete_aggregated_health_checks : String → Instant → M S (Unit {0})
  delete_aggregated_health_checks monitor_id before = do
    checks ←
        context "failed to get health checks for deletion"
          (quiet (svc.health_checks.get_by_date_range monitor_id 0 before))
    if is_empty checks
        then pure tt
        else context "failed to delete aggregated health checks"
            (noted (checks_deleted before) (svc.health_checks.delete_older_than before))

  -- Two tests of the loop's condition are enough fuel.
  unfoldable pub aggregate_monitor_data : String → Instant → M S (Unit {0})
  aggregate_monitor_data monitor_id cutoff = do
    aggregate_hours 2 monitor_id (truncate_hour cutoff) cutoff
    ignored (delete_aggregated_health_checks monitor_id cutoff)

  unfoldable pub aggregate_all : Instant → List Monitor → M S (Unit {0})
  aggregate_all cutoff [] = pure tt
  aggregate_all cutoff (m ∷ ms) = do
    ignored (aggregate_monitor_data m.id cutoff)
    aggregate_all cutoff ms

  unfoldable pub run_aggregation : M S (Unit {0})
  run_aggregation = do
    now ← reading svc.clock
    monitors ←
        context "failed to get monitors for aggregation"
          (quiet (svc.monitors.list (record { enabled = none; limit = pos 1000; offset = pos 0 })))
    aggregate_all (now - aggregation_threshold) monitors
