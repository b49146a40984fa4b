-- ===== src/Examples/Cleanups.antt =====
-- A run of the data retention without aggregates, whose alerts cannot be deleted.
use webtracker.Shared.{◌-◌, ◌∷◌, none, [], ◌≡◌, refl}
use webtracker.Shared.Clock.{Instant, hours}
use webtracker.Shared.Errors.{ok, err, failure, wrapped}
use webtracker.Shared.Log.{Logged}
use webtracker.Retention.{Call, checks_deleted, alerts_deleted, DataRetentionService, run_cleanup}
use webtracker.Retention.Order.{Ends, run_cleanup_order}

abbrev service : DataRetentionService Instant
service = record {
  delete_checks = λ cutoff w. (ok tt, w);
  delete_aggregates = none;
  delete_alerts = λ cutoff w. (err (failure "deadlock detected"), w);
  clock = λ w. (w, w);
}

abbrev start : Logged Instant Call
start = record { world = hours 10000; log = [] }

abbrev cutoff : Instant
cutoff = hours (10000 - 2160)

-- The checks before the last 90 days were deleted before the alerts failed.
cleaned_up : run_cleanup service start ≡ (
  err (wrapped "failed to delete old alerts" (failure "deadlock detected")),
  record {
    world = hours 10000;
    log =
        alerts_deleted cutoff (err (failure "deadlock detected"))
        ∷ checks_deleted cutoff (ok tt)
        ∷ [];
  },
)
unfolding run_cleanup
cleaned_up = refl

run_cleanup_order_example :
    let (r, t) = run_cleanup service start in
    Ends service.delete_aggregates cutoff start.log r t.log
run_cleanup_order_example = run_cleanup_order service start
