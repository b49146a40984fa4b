-- ===== src/AlertService/Decisions.antt =====
-- alert_service.go: when a health check gives rise to no alert at all.
use webtracker.Shared.{◌≢◌, refl, Bool, ◌≡◌, true, false, some, String, arith, is_empty}
use webtracker.Shared.Errors.{Result, Outcome, ok, err}
use webtracker.Shared.Effects.{in_context}
use webtracker.Shared.Log.{Logged}
use webtracker.Domain.HealthCheck.{HealthCheck, is_successful}
use webtracker.Domain.Monitor.{Monitor}
use webtracker.AlertService.{
  AlertService, RateLimiter, Call, process_alerting, process_for, process_health_check_alerts,
}

-- What an answer is worth where its value is dropped.
abbrev pub as_unit : {A : Type 0} → Result A → Outcome
as_unit (ok a) = ok tt
as_unit (err e) = err e

module _ {W : Type 0} (svc : AlertService W) (id : String) (check : HealthCheck) (monitor : Monitor)
    (s : Logged W Call) where
  abbrev got : W
  got = (svc.get_monitor id s.world).1

  -- A monitor without channels is left alone: no error, and no call but the lookup of the monitor.
  pub no_channels_quiet :
      (svc.get_monitor id s.world).0 ≡ ok monitor
      → is_empty monitor.alert_channels ≡ true
      → process_health_check_alerts svc id check s ≡ (ok tt, record s { world = got })
  unfolding process_health_check_alerts process_for
  no_channels_quiet found no_channels = ground arith

  -- For a monitor with channels and a check that failed, the rate limiter is asked first: where it
  -- suppresses the alert, the processing of the check ends without an error and without any call
  -- that stores or broadcasts an alert, also about the certificate; where it fails, its error is
  -- returned and there is no alert either.
  pub failed_check_asks_limiter :
      (l : RateLimiter W) (answer : Result Bool)
      → (svc.get_monitor id s.world).0 ≡ ok monitor
      → svc.rate_limiter ≡ some l
      → is_empty monitor.alert_channels ≡ false
      → is_successful check ≡ false
      → (l.check_and_set_downtime_alert id got).0 ≡ answer
      → answer ≢ ok true
      → process_health_check_alerts svc id check s ≡ (
        as_unit (in_context "failed to check rate limit" answer),
        record s { world = (l.check_and_set_downtime_alert id got).1 },
      )
  unfolding process_health_check_alerts process_for process_alerting
  failed_check_asks_limiter l (ok true) found given has failed a ne = absurd (ne refl)
  failed_check_asks_limiter l (ok false) found given has failed a ne = ground arith
  failed_check_asks_limiter l (err e) found given has failed a ne = ground arith
