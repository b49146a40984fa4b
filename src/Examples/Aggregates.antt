-- ===== src/Examples/Aggregates.antt =====
-- Aggregates of an hour, and a run of the aggregation.
use webtracker.Shared.{
  ℕ, ◌+◌, ◌*◌, ◌%◌, ◌≤◌, ◌≡◌, refl, true, false, none, some, String, List, [], ◌∷◌, length, All,
  arith, if◌then◌else◌, ◌==◌,
}
use webtracker.Shared.Int.{pos, ◌≤ℤ◌}
use webtracker.Shared.Clock.{Instant, minutes, hours}
use webtracker.Shared.Errors.{ok}
use webtracker.Shared.Log.{Logged}
use webtracker.Domain.HealthCheck.{HealthCheck, AggregatedHealthCheck, status_success}
use webtracker.Resilience.HealthChecks.{HealthCheckRepository}
use webtracker.Aggregation.{
  AggregationService, Call, checks_deleted, aggregate_created, aggregate, aggregate_hour,
  truncate_hour, delete_aggregated_health_checks, aggregate_monitor_data,
}
use webtracker.Aggregation.Hours.{IsAggregation, one_hour_aggregated}
use webtracker.Aggregation.Statistics.{aggregate_bounds, Within}
use webtracker.Examples.Data.{failed_check, site}

abbrev good : ℕ → HealthCheck
good t = record failed_check { status = status_success; response_time = pos t }

abbrev checks : List HealthCheck
checks = good 5 ∷ failed_check ∷ good 10 ∷ []

abbrev summary : AggregatedHealthCheck
summary = aggregate "m1" checks "g1" (hours 3) (hours 200)

aggregate_bounds_example :
    (summary.successful_checks + summary.failed_checks ≡ summary.total_checks)
    × (summary.total_checks ≡ 3)
    × (summary.min_response_time ≤ℤ summary.avg_response_time)
    × (summary.avg_response_time ≤ℤ summary.max_response_time)
    × All (Within summary.min_response_time summary.max_response_time) checks
aggregate_bounds_example =
    aggregate_bounds "m1" "g1" checks (hours 3) (hours 200)
      (omega arith, (omega arith, (omega arith, tt))) (omega arith)

average : summary.avg_response_time ≡ pos 7
unfolding aggregate webtracker.Aggregation.count_checks webtracker.Aggregation.count_check
    webtracker.Shared.Int.div_int64 webtracker.Shared.Int.add_int64 webtracker.Shared.Int.from_bits
average = refl

-- The world is the list of the instants of the checks.
abbrev repository : HealthCheckRepository (List HealthCheck)
repository = record {
  create = λ c w. (ok tt, c ∷ w);
  get_by_monitor_id = λ id n w. (ok w, w);
  get_by_date_range = λ id a b w. (ok w, w);
  delete_older_than = λ t w. (ok tt, []);
}

abbrev service : AggregationService (List HealthCheck)
service = record {
  clock = λ w. (hours 200, w);
  new_id = λ w. ("g1", w);
  health_checks = repository;
  create_aggregated = λ a w. (ok tt, w);
  monitors = record {
    create = λ m w. (ok tt, w);
    get_by_id = λ id w. (ok site, w);
    list = λ f w. (ok (site ∷ []), w);
    update = λ m w. (ok tt, w);
    delete = λ id w. (ok tt, w);
  };
}

abbrev before : Logged (List HealthCheck) Call
before = record { world = checks; log = [] }

abbrev cutoff : Instant
cutoff = hours 3 + minutes 30

one_hour_aggregated_example :
    let (r, t) = aggregate_monitor_data service "m1" cutoff before in
    IsAggregation service "m1" cutoff before r t
one_hour_aggregated_example = one_hour_aggregated service "m1" cutoff before refl

-- One aggregate, of the hour from 3 to 4, and then the deletion of all that is older.
run_calls :
    (aggregate_monitor_data service "m1" cutoff before).1.log
    ≡ checks_deleted cutoff (ok tt) ∷ aggregate_created summary (ok tt) ∷ []
unfolding aggregate_monitor_data webtracker.Aggregation.aggregate_hours aggregate_hour
    delete_aggregated_health_checks
run_calls = refl
