-- ===== src/Aggregation/Lifecycle.antt =====
-- healthcheck_aggregation_service.go: starting and stopping the scheduled aggregation.
use webtracker.Shared.{false, true, Bool, not, Option, none, some, if◌then◌else◌}
use webtracker.Shared.Errors.{Outcome, ok, err, failure}

pub record Lifecycle : Type 0 where
  pub running : Bool
  pub stop_closed : Bool

unfoldable pub start_aggregation_scheduler : Lifecycle → Outcome × Lifecycle
start_aggregation_scheduler s =
    if s.running
    then (err (failure "aggregation scheduler is already running"), s)
    else (ok tt, record s { running = true })

-- A channel that is closed already panics (none).
unfoldable pub stop_aggregation_scheduler : Lifecycle → Option (Outcome × Lifecycle)
stop_aggregation_scheduler s =
    if not s.running
    then some (err (failure "aggregation scheduler is not running"), s)
    else if s.stop_closed
    then none
    else some (ok tt, record s { running = false; stop_closed = true })
