-- ===== src/Degradation.antt =====
-- infrastructure/resilience/degradation.go: the system's degradation mode.
-- A method that changes the manager returns the new record. A health check is what its callback
-- answers: `none` where no callback is set, and otherwise the error that it returns. The loop of
-- `Start` calls `check_and_recover` at each tick of its clock. The logger is left out.
pub mod View
pub mod Recovery
use webtracker.Shared.{
  ℕ, Bool, true, false, ◌||◌, List, [], ◌∷◌, String, Option, none, some, if◌then◌else◌,
}
use webtracker.Shared.Int.{pos, leb_ℤ}
use webtracker.Shared.Clock.{Instant, Duration, seconds, since}
use webtracker.Shared.Errors.{Outcome, ok, err}

pub data DegradationMode : Type 0 where
  mode_normal mode_redis_down mode_database_down mode_critical : DegradationMode

pub record DegradationManager : Type 0 where
  pub mode : DegradationMode
  pub last_db_check : Instant
  pub last_redis_check : Instant
  pub db_check_interval : Duration
  pub redis_check_interval : Duration

unfoldable pub new_degradation_manager : DegradationManager
new_degradation_manager = record {
  mode = mode_normal;
  last_db_check = 0;
  last_redis_check = 0;
  db_check_interval = pos (seconds 30);
  redis_check_interval = pos (seconds 15);
}

abbrev pub mode_is_normal : DegradationMode → Bool
mode_is_normal mode_normal = true
mode_is_normal _ = false

abbrev pub mode_is_redis_down : DegradationMode → Bool
mode_is_redis_down mode_redis_down = true
mode_is_redis_down _ = false

unfoldable pub is_redis_available : DegradationManager → Bool
is_redis_available dm = mode_is_normal dm.mode

unfoldable pub is_database_available : DegradationManager → Bool
is_database_available dm = mode_is_normal dm.mode || mode_is_redis_down dm.mode

-- `markDatabaseDown`, and the body of `SetDatabaseDown`; so for Redis.
mark_database_down : DegradationMode → DegradationMode
mark_database_down mode_normal = mode_database_down
mark_database_down mode_redis_down = mode_critical
mark_database_down mode = mode

mark_database_up : DegradationMode → DegradationMode
mark_database_up mode_database_down = mode_normal
mark_database_up mode_critical = mode_redis_down
mark_database_up mode = mode

mark_redis_down : DegradationMode → DegradationMode
mark_redis_down mode_normal = mode_redis_down
mark_redis_down mode_database_down = mode_critical
mark_redis_down mode = mode

mark_redis_up : DegradationMode → DegradationMode
mark_redis_up mode_redis_down = mode_normal
mark_redis_up mode_critical = mode_database_down
mark_redis_up mode = mode

unfoldable pub set_database_down : DegradationManager → DegradationManager
unfolding mark_database_down
set_database_down dm = record dm { mode = mark_database_down dm.mode }

unfoldable pub set_redis_down : DegradationManager → DegradationManager
unfolding mark_redis_down
set_redis_down dm = record dm { mode = mark_redis_down dm.mode }

unfoldable pub should_check_database : DegradationManager → Instant → Bool
should_check_database dm now = leb_ℤ dm.db_check_interval (since now dm.last_db_check)

unfoldable pub should_check_redis : DegradationManager → Instant → Bool
should_check_redis dm now = leb_ℤ dm.redis_check_interval (since now dm.last_redis_check)

mark_database : Option Outcome → DegradationMode → DegradationMode
unfolding mark_database_up mark_database_down
mark_database none mode = mode
mark_database (some (ok _)) mode = mark_database_up mode
mark_database (some (err _)) mode = mark_database_down mode

mark_redis : Option Outcome → DegradationMode → DegradationMode
unfolding mark_redis_up mark_redis_down
mark_redis none mode = mode
mark_redis (some (ok _)) mode = mark_redis_up mode
mark_redis (some (err _)) mode = mark_redis_down mode

-- The two halves of `CheckAndRecover`.
check_database : DegradationManager → Instant → Option Outcome → DegradationManager
unfolding mark_database should_check_database
check_database dm now health =
    if should_check_database dm now
    then record dm { last_db_check = now; mode = mark_database health dm.mode }
    else dm

check_redis : DegradationManager → Instant → Option Outcome → DegradationManager
unfolding mark_redis should_check_redis
check_redis dm now health =
    if should_check_redis dm now
    then record dm { last_redis_check = now; mode = mark_redis health dm.mode }
    else dm

unfoldable pub check_and_recover :
    DegradationManager → Instant → Option Outcome → Option Outcome → DegradationManager
unfolding check_database check_redis
check_and_recover dm now db redis = check_redis (check_database dm now db) now redis

unfoldable pub mode_string : DegradationMode → String
mode_string mode_normal = "normal"
mode_string mode_redis_down = "redis_down"
mode_string mode_database_down = "database_down"
mode_string mode_critical = "critical"

-- What other code and the ticker do to the manager. Each holds the manager's lock throughout.
pub data Event : Type 0 where
  database_failed : Event
  redis_failed : Event
  tick : Instant → Option Outcome → Option Outcome → Event

unfoldable pub step : DegradationManager → Event → DegradationManager
step dm database_failed = set_database_down dm
step dm redis_failed = set_redis_down dm
step dm (tick now db redis) = check_and_recover dm now db redis

unfoldable pub run : DegradationManager → List Event → DegradationManager
run dm [] = dm
run dm (e ∷ es) = run (step dm e) es
