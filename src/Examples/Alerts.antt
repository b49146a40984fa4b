-- ===== src/Examples/Alerts.antt =====
-- Alerts: what a failed check gives rise to, and their delivery.
use webtracker.Shared.{ℕ, suc, ◌≡◌, ◌≢◌, refl, Bool, true, false, none, some, List, [], ◌∷◌, arith}
use webtracker.Shared.Int.{pos}
use webtracker.Shared.Clock.{seconds, hours}
use webtracker.Shared.Dict.{lookup}
use webtracker.Shared.Errors.{Result, ok, err, failure, circuit_open}
use webtracker.Shared.Log.{Logged}
use webtracker.CircuitBreaker.{CircuitBreaker, Readings, state_open, state_closed}
use webtracker.Domain.Alert.{channel_email, channel_telegram}
use webtracker.Domain.Monitor.{Monitor, AlertChannel}
use webtracker.Resilience.AlertChannel.{Send, ResilientAdapter, State, DeliveryResult}
use webtracker.AlertService.{AlertService, RateLimiter, Call, process_health_check_alerts}
use webtracker.AlertService.Sound.{IsSound}
use webtracker.AlertService.Generated.{process-IsSound}
use webtracker.Examples.Data.{email, telegram, site, failed_check}

-- The world counts the messages that were sent.
abbrev sends : Send ℕ
sends alert config w = (ok tt, suc w)

abbrev refuses : Send ℕ
refuses alert config w = (err (failure "timeout"), w)

abbrev closed : CircuitBreaker
closed = record {
  state = state_closed;
  failure_count = pos 4;
  success_count = pos 0;
  last_failure_time = seconds 100;
  last_success_time = 0;
  max_failures = pos 5;
  timeout = pos (seconds 60);
  success_threshold = pos 3;
  name = "telegram";
}

abbrev channels : State ℕ
channels = record {
  adapters =
      (channel_telegram, record { send_raw = refuses; circuit_breaker = closed })
      ∷ (
        channel_email,
        record {
          send_raw = sends;
          circuit_breaker = record closed { state = state_open; name = "email" };
        },
      )
      ∷ [];
  world = 0;
}

abbrev clock : Readings
clock = record { tested = seconds 110; again = seconds 110; recorded = seconds 111 }

abbrev both : List (AlertChannel × Readings)
both = (telegram, clock) ∷ (email, clock) ∷ []

abbrev email_adapter : ResilientAdapter ℕ
email_adapter = record {
  send_raw = sends;
  circuit_breaker = record closed { state = state_open; name = "email" };
}

email_found : lookup channel_email channels.adapters ≡ some email_adapter
unfolding lookup
email_found = refl

abbrev results : List DeliveryResult
results =
    record { channel = "email"; success = false; error = err circuit_open }
    ∷ record { channel = "telegram"; success = true; error = ok tt }
    ∷ []

-- A limiter that allows everything, a store that accepts everything.
abbrev limiter : RateLimiter ℕ
limiter = record {
  check_and_set_downtime_alert = λ id w. (ok true, w);
  check_and_set_ssl_alert = λ id days w. (ok true, w);
  get_last_downtime_alert = λ id w. (ok none, w);
  clear_downtime_alert = λ id w. (ok tt, w);
}

abbrev strict_limiter : RateLimiter ℕ
strict_limiter = record limiter { check_and_set_downtime_alert = λ id w. (ok false, w) }

abbrev service : AlertService ℕ
service = record {
  clock = λ w. (hours 2, w);
  new_id = λ w. ("a1", suc w);
  get_monitor = λ id w. (ok site, w);
  create_alert = λ a w. (ok tt, w);
  get_last_alert_time = λ id type w. (ok none, w);
  get_alerts = λ id limit w. (ok [], w);
  rate_limiter = some limiter;
  deliver = none;
  broadcast_alert = some (λ a w. w);
}

abbrev before : Logged ℕ Call
before = record { world = 0; log = [] }

process-IsSound_example :
    IsSound site failed_check (process_health_check_alerts service "m1" failed_check before).1.log
process-IsSound_example = process-IsSound service "m1" failed_check site before refl tt

abbrev mute : Monitor
mute = record site { alert_channels = [] }

abbrev mute_service : AlertService ℕ
mute_service = record service { get_monitor = λ id w. (ok mute, w) }

abbrev strict_service : AlertService ℕ
strict_service = record service { rate_limiter = some strict_limiter }

abbrev no_ : Result Bool
no_ = ok false

suppressed : no_ ≢ ok true
suppressed = λ e. ground (arith, e)
