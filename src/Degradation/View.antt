-- ===== src/Degradation/View.antt =====
-- degradation.go: the four modes are the states of two independent flags.
use webtracker.Shared.{◌≡◌, Bool, true, false, ◌&&◌, Option, none, some, arith, if◌then◌else◌}
use webtracker.Shared.Errors.{Outcome, ok, err}
use webtracker.Degradation.{
  DegradationMode, mode_normal, mode_redis_down, mode_database_down, mode_critical,
  DegradationManager, is_redis_available, is_database_available, set_database_down, set_redis_down,
  should_check_database, should_check_redis, check_and_recover, Event, database_failed,
  redis_failed, tick, step,
}

-- Which of the two services is up.
pub record Flags : Type 0 where
  pub database_up : Bool
  pub redis_up : Bool

unfoldable pub flags_of : DegradationMode → Flags
flags_of mode_normal = record { database_up = true; redis_up = true }
flags_of mode_redis_down = record { database_up = true; redis_up = false }
flags_of mode_database_down = record { database_up = false; redis_up = true }
flags_of mode_critical = record { database_up = false; redis_up = false }

unfoldable pub mode_of : Flags → DegradationMode
mode_of f =
    if f.database_up
    then (if f.redis_up then mode_normal else mode_redis_down)
    else (if f.redis_up then mode_database_down else mode_critical)

-- What a check that is due makes of a flag.
abbrev pub observe : Bool → Option Outcome → Bool → Bool
observe false health up = up
observe true none up = up
observe true (some (ok _)) up = true
observe true (some (err _)) up = false

-- The flags after an event, one flag at a time.
unfoldable pub flags_step : DegradationManager → Event → Flags → Flags
flags_step dm database_failed f = record f { database_up = false }
flags_step dm redis_failed f = record f { redis_up = false }
flags_step dm (tick now db redis) f = record {
  database_up = observe (should_check_database dm now) db f.database_up;
  redis_up = observe (should_check_redis dm now) redis f.redis_up;
}

-- A mode is the two flags, and nothing else.
pub mode_of-flags_of : (m : DegradationMode) → mode_of (flags_of m) ≡ m
unfolding mode_of flags_of
mode_of-flags_of m = ground arith

-- Every event acts on the two flags independently: a report of failure clears its own flag, and a
-- tick sets each flag whose check is due to the check's result and leaves the other flag alone.
pub step-flags :
    (dm : DegradationManager) (e : Event)
    → flags_of (step dm e).mode ≡ flags_step dm e (flags_of dm.mode)
unfolding step flags_of flags_step set_database_down set_redis_down check_and_recover
step-flags dm database_failed = ground arith
step-flags dm redis_failed = ground arith
step-flags dm (tick now db redis) = ground arith

-- The database counts as available exactly while its flag is set; Redis counts as available only
-- while both flags are set.
pub available-flags :
    (dm : DegradationManager)
    → (is_database_available dm ≡ (flags_of dm.mode).database_up)
      × (is_redis_available dm ≡ ((flags_of dm.mode).database_up && (flags_of dm.mode).redis_up))
unfolding is_database_available is_redis_available flags_of
available-flags dm = ground arith
