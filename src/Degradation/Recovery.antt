-- ===== src/Degradation/Recovery.antt =====
-- degradation.go: how often the services are checked, and that a healthy system returns to normal.
use webtracker.Shared.{◌+◌, ◌≤◌, ◌<◌, ◌≡◌, Option, some, arith, leb}
use webtracker.Shared.Int.{pos}
use webtracker.Shared.Clock.{Instant, seconds, since_at_least}
use webtracker.Shared.Errors.{Outcome, ok}
use webtracker.Degradation.{
  DegradationManager, mode_normal, should_check_database, should_check_redis, check_and_recover,
}
use webtracker.Degradation.View.{flags_of}

-- The intervals that `NewDegradationManager` sets.
pub record HasIntervals (dm : DegradationManager) : Type 0 where
  pub database : dm.db_check_interval ≡ pos (seconds 30)
  pub redis : dm.redis_check_interval ≡ pos (seconds 15)

due-database :
    (dm : DegradationManager) (now : Instant)
    → HasIntervals dm
    → should_check_database dm now ≡ leb (dm.last_db_check + seconds 30) now
unfolding should_check_database
due-database dm now v = ground (arith, since_at_least (seconds 30) now dm.last_db_check)

due-redis :
    (dm : DegradationManager) (now : Instant)
    → HasIntervals dm
    → should_check_redis dm now ≡ leb (dm.last_redis_check + seconds 15) now
unfolding should_check_redis
due-redis dm now v = ground (arith, since_at_least (seconds 15) now dm.last_redis_check)

-- From every mode, one tick returns the system to normal if both services answer and neither was
-- checked within its interval, 30 seconds for the database and 15 seconds for Redis.
pub check_and_recover-normal :
    (dm : DegradationManager) (now : Instant)
    → HasIntervals dm
    → dm.last_db_check + seconds 30 ≤ now
    → dm.last_redis_check + seconds 15 ≤ now
    → (check_and_recover dm now (some (ok tt)) (some (ok tt))).mode ≡ mode_normal
unfolding check_and_recover
check_and_recover-normal dm now v h k = ground (arith, due-database dm now v, due-redis dm now v)

-- After a tick at which the database was checked, no tick within the next 30 seconds changes
-- whether the database counts as up, whatever the checks would answer.
pub database_checked_rarely :
    (dm : DegradationManager) (now later : Instant) (db redis db' redis' : Option Outcome)
    → HasIntervals dm
    → dm.last_db_check + seconds 30 ≤ now
    → later < now + seconds 30
    → let dm' = check_and_recover dm now db redis in
      (flags_of (check_and_recover dm' later db' redis').mode).database_up
      ≡ (flags_of dm'.mode).database_up
unfolding check_and_recover flags_of should_check_database should_check_redis
database_checked_rarely dm now later db redis db' redis' v h k =
    ground (
      arith,
      since_at_least (seconds 30) now dm.last_db_check,
      since_at_least (seconds 30) later now,
    )
