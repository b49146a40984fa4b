-- ===== src/Examples/Modes.antt =====
-- The degradation manager, and the Redis client while Redis is down.
use webtracker.Shared.{◌&&◌, ◌+◌, ℕ, ◌≡◌, refl, false, none, some, String, Option, arith, []}
use webtracker.Shared.Int.{pos}
use webtracker.Shared.Clock.{seconds, minutes}
use webtracker.Shared.Errors.{Outcome, ok, err, failure, wrapped, key_not_found}
use webtracker.RateLimiter.{
  Timestamps, check_and_set_downtime_alert, check_and_set_ssl_alert, get_last_downtime_alert,
}
use webtracker.Degradation.{
  DegradationManager, mode_critical, mode_redis_down, check_and_recover, tick, step,
  is_redis_available,
}
use webtracker.Degradation.View.{flags_of, flags_step, step-flags}
use webtracker.Resilience.HealthChecks.{Guarded}
use webtracker.Resilience.RedisClient.{Client, as_cache}
use webtracker.Resilience.RedisClient.Outage.{limiter_fails_in_outage}

-- Both services are down, and were checked a minute after the start.
abbrev pub down : DegradationManager
down = record {
  mode = mode_critical;
  last_db_check = minutes 1;
  last_redis_check = minutes 1;
  db_check_interval = pos (seconds 30);
  redis_check_interval = pos (seconds 15);
}

abbrev bad : Option Outcome
bad = some (err (failure "refused"))

step-flags_example :
    flags_of (step down (tick (minutes 2) (some (ok tt)) bad)).mode
    ≡ flags_step down (tick (minutes 2) (some (ok tt)) bad) (flags_of mode_critical)
step-flags_example = step-flags down (tick (minutes 2) (some (ok tt)) bad)

-- A tick at which only the database answers.
half_recovered : (step down (tick (minutes 2) (some (ok tt)) bad)).mode ≡ mode_redis_down
unfolding step check_and_recover webtracker.Shared.Clock.since
half_recovered = refl

abbrev outage_state : Guarded ℕ
outage_state = record { degrader = down; world = 0 }

abbrev no_client : Option (Client ℕ ℕ)
no_client = none

abbrev stamps : Timestamps ℕ
stamps = record { format = λ t. t; parse = λ b. ok b }

down_lacks_redis : is_redis_available down ≡ false
unfolding is_redis_available
down_lacks_redis = refl

limiter_fails_in_outage_example :
    (check_and_set_downtime_alert (as_cache no_client) stamps (minutes 3) "m1" outage_state
      ≡ (err (wrapped "failed to check rate limit" key_not_found), outage_state))
    × (check_and_set_ssl_alert (as_cache no_client) stamps (minutes 3) "m1" (pos 7) outage_state
        ≡ (err (wrapped "failed to check SSL rate limit" key_not_found), outage_state))
    × (get_last_downtime_alert (as_cache no_client) stamps (minutes 3) "m1" outage_state
        ≡ (err (wrapped "failed to get last downtime alert" key_not_found), outage_state))
limiter_fails_in_outage_example =
    limiter_fails_in_outage no_client stamps (minutes 3) "m1" (pos 7) outage_state down_lacks_redis
