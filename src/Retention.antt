-- ===== src/Retention.antt =====
-- usecase/data_retention_service.go: old checks, aggregates and alerts are deleted.
-- The repositories and the clock are parameters over the state `W` of the world; a repository of
-- aggregates need not be there. Deletions are noted. Logging is left out.
pub mod Order
use webtracker.Shared.{
  ◌-◌, ◌*◌, Bool, true, false, not, Option, none, some, List, [], ◌∷◌, if◌then◌else◌,
}
use webtracker.Shared.Int.{pos}
use webtracker.Shared.Clock.{Instant, Duration, hours}
use webtracker.Shared.Errors.{Result, Outcome, ok, err, failure}
use webtracker.Shared.Effects.{M, pure, context, when_some, ◌>>=◌, ◌>>◌}
use webtracker.Shared.Log.{Logged, reading, noted}

pub data Call : Type 0 where
  checks_deleted : Instant → Outcome → Call
  aggregates_deleted : Instant → Outcome → Call
  alerts_deleted : Instant → Outcome → Call

pub record DataRetentionService (W : Type 0) : Type 0 where
  pub delete_checks : Instant → M W (Unit {0})
  pub delete_aggregates : Option (Instant → M W (Unit {0}))
  pub delete_alerts : Instant → M W (Unit {0})
  pub clock : W → Instant × W

-- 90 days.
abbrev pub retention_period : Instant
retention_period = 90 * 24 * hours 1

module _ {W : Type 0} (s : DataRetentionService W) where
  unfoldable pub clean_aggregates :
      Option (Instant → M W (Unit {0})) → Instant → M (Logged W Call) (Unit {0})
  clean_aggregates none cutoff = pure tt
  clean_aggregates (some delete) cutoff =
      context "failed to delete old aggregated health checks"
        (noted (aggregates_deleted cutoff) (delete cutoff))

  unfoldable pub clean_before : Instant → M (Logged W Call) (Unit {0})
  unfolding clean_aggregates
  clean_before cutoff = do
    context "failed to delete old health checks"
        (noted (checks_deleted cutoff) (s.delete_checks cutoff))
    clean_aggregates s.delete_aggregates cutoff
    context "failed to delete old alerts" (noted (alerts_deleted cutoff) (s.delete_alerts cutoff))

  unfoldable pub run_cleanup : M (Logged W Call) (Unit {0})
  unfolding clean_before
  run_cleanup = do now ← reading s.clock; clean_before (now - retention_period)

-- What `StartCleanupScheduler` and `StopCleanupScheduler` change.
pub record Lifecycle : Type 0 where
  pub running : Bool
  pub stop_closed : Bool

unfoldable pub start_cleanup_scheduler : Lifecycle → Outcome × Lifecycle
start_cleanup_scheduler s =
    if s.running
    then (err (failure "cleanup scheduler is already running"), s)
    else (ok tt, record s { running = true })

-- A channel that is closed already panics (none).
unfoldable pub stop_cleanup_scheduler : Lifecycle → Option (Outcome × Lifecycle)
stop_cleanup_scheduler s =
    if not s.running
    then some (err (failure "cleanup scheduler is not running"), s)
    else if s.stop_closed
    then none
    else some (ok tt, record s { running = false; stop_closed = true })
