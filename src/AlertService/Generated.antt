-- ===== src/AlertService/Generated.antt =====
-- alert_service.go: what the alerts that a health check gives rise to have in common.
use webtracker.AlertService.Sound.{Fits, IsSound, announced, announced-Sound, ssl_type}
use webtracker.Shared.{
  ◌≡◌, refl, true, false, Option, none, some, String, List, if◌then◌else◌, arith, is_empty,
}
use webtracker.Shared.Int.{ℤ}
use webtracker.Shared.Clock.{Instant}
use webtracker.Shared.Errors.{ok}
use webtracker.Shared.Effects.{◌>>◌, pure}
use webtracker.Shared.Int.{ltb_ℤ, pos}
use webtracker.Shared.Clock.{hours, since}
use webtracker.Shared.Log.{if-Keeps, Logged, Keeps, quiet, context-Keeps, reading, >>=-Keeps}
use webtracker.Shared.Effects.{M, context}
use webtracker.Domain.Alert.{Alert, determine_ssl_alert_type, determine_ssl_alert_severity}
use webtracker.Domain.HealthCheck.{HealthCheck, SslInfo, is_successful}
use webtracker.Domain.Monitor.{Monitor}
use webtracker.AlertService.{
  Details, Message, AlertService, RateLimiter, Call, should_generate_ssl_alert,
  generate_downtime_alert, generate_recovery_alert, generate_ssl_expiration_alert, process_alerting,
  process_for, process_health_check_alerts, publish, downtime_part, recovery_part, ssl_part,
  recover, clear, last_downtime, ssl_allowed, alert_for,
}

log-publish :
    {W : Type 0} (svc : AlertService W) (text : String) (a : Alert) (s : Logged W Call)
    → (publish svc text a s).1.log
      ≡ announced (svc.create_alert a s.world).0 svc.broadcast_alert a s.log
unfolding publish
log-publish svc text a s = ground arith

module _ {W : Type 0} (svc : AlertService W) (monitor : Monitor) (check : HealthCheck) where
  abbrev Sound : List Call → Type 0
  Sound = IsSound monitor check

  publish-Keeps :
      (text : String) (a : Alert) → Fits monitor check a → Keeps Sound (publish svc text a)
  publish-Keeps text a f = record {
    keeps = λ s p. rw (log-publish svc text a s) (
        announced-Sound monitor check (svc.create_alert a s.world).0 svc.broadcast_alert a s.log f
          p);
  }

  -- Code that makes no call that is noted.
  silent :
      {A : Type 0} (m : M (Logged W Call) A)
      → ((s : Logged W Call) → (m s).1.log ≡ s.log)
      → Keeps Sound m
  silent m h = record { keeps = λ s p. rw (h s) p }

  downtime-Keeps :
      is_successful check ≡ false → Keeps Sound (generate_downtime_alert svc monitor check)
  unfolding generate_downtime_alert
  downtime-Keeps failed = record {
    keeps = λ s.
        (publish-Keeps _ _
            (record { about = refl; for_channels = refl; fits_type = (failed, refl) })).keeps
          _;
  }

  recovery-Keeps :
      is_successful check ≡ true → Keeps Sound (generate_recovery_alert svc monitor check)
  unfolding generate_recovery_alert
  recovery-Keeps well = record {
    keeps = λ s.
        (publish-Keeps _ _
            (record { about = refl; for_channels = refl; fits_type = (well, refl) })).keeps
          _;
  }

  ssl-Fits :
      (ssl : SslInfo)
      → check.ssl_info ≡ some ssl
      → ssl.valid ≡ true
      → should_generate_ssl_alert ssl.days_until ≡ true
      → (message : Message) (details : Details) (id : String) (now : Instant)
      → Fits monitor check (
          alert_for svc monitor
            (determine_ssl_alert_type ssl.days_until)
            (determine_ssl_alert_severity ssl.days_until)
            message
            details
            id
            now)
  unfolding alert_for
  ssl-Fits ssl e v t message details id now =
      let a : Alert =
        alert_for svc monitor (determine_ssl_alert_type ssl.days_until)
          (determine_ssl_alert_severity ssl.days_until) message details id now in
      record {
        about = refl;
        for_channels = refl;
        fits_type = ssl_type ssl.days_until check a refl (record {
          ssl = ssl;
          has_ssl = e;
          is_valid = v;
          at_threshold = t;
          type_fits = refl;
          severity_fits = refl;
        });
      }

  ssl-Keeps :
      (ssl : SslInfo)
      → check.ssl_info ≡ some ssl
      → ssl.valid ≡ true
      → should_generate_ssl_alert ssl.days_until ≡ true
      → Keeps Sound (generate_ssl_expiration_alert svc monitor (some ssl))
  unfolding generate_ssl_expiration_alert
  ssl-Keeps ssl e v t = record {
    keeps = λ s. (publish-Keeps _ _ (ssl-Fits ssl e v t _ _ _ _)).keeps _;
  }

  downtime_part-Keeps :
      (l : Option (RateLimiter W)) (id : String)
      → is_successful check ≡ false
      → Keeps Sound (downtime_part svc l id monitor check)
  unfolding downtime_part
  downtime_part-Keeps none id failed =
      >>=-Keeps Sound _ _ (context-Keeps Sound _ _ (downtime-Keeps failed))
        (λ _. silent _ (λ s. refl))
  downtime_part-Keeps (some limiter) id failed =
      >>=-Keeps Sound
        (context "failed to check rate limit" (quiet (limiter.check_and_set_downtime_alert id))) _
        (silent _ (λ s. refl))
        (λ should_send.
          if-Keeps Sound should_send _ _
            (λ _.
              >>=-Keeps Sound _ _ (context-Keeps Sound _ _ (downtime-Keeps failed))
                (λ _. silent _ (λ s. refl)))
            (λ _. silent _ (λ s. refl)))

  clear-Keeps : (l : Option (RateLimiter W)) (id : String) → Keeps Sound (clear svc l id)
  unfolding clear
  clear-Keeps none id = silent _ (λ s. refl)
  clear-Keeps (some limiter) id = silent _ (λ s. refl)

  last_downtime-Keeps :
      (l : Option (RateLimiter W)) (id : String) → Keeps Sound (last_downtime svc l id)
  unfolding last_downtime
  last_downtime-Keeps none id = silent _ (λ s. refl)
  last_downtime-Keeps (some limiter) id = silent _ (λ s. refl)

  recover-Keeps :
      (last : Option Instant) (id : String)
      → is_successful check ≡ true
      → Keeps Sound (recover svc last id monitor check)
  unfolding recover
  recover-Keeps none id well = silent _ (λ s. refl)
  recover-Keeps (some last) id well =
      >>=-Keeps Sound (reading svc.clock) _ (silent _ (λ s. refl)) (λ now.
        if-Keeps Sound (ltb_ℤ (since now last) (pos (hours 1)))
          (context "failed to generate recovery alert" (generate_recovery_alert svc monitor check)
            >> clear svc svc.rate_limiter id)
          (pure tt)
          (λ _.
            >>=-Keeps Sound _ _ (context-Keeps Sound _ _ (recovery-Keeps well))
              (λ _. clear-Keeps svc.rate_limiter id))
          (λ _. silent _ (λ s. refl)))

  recovery_part-Keeps :
      (id : String) → is_successful check ≡ true → Keeps Sound (recovery_part svc id monitor check)
  unfolding recovery_part
  recovery_part-Keeps id well =
      >>=-Keeps Sound _ _ (last_downtime-Keeps svc.rate_limiter id)
        (λ last. >>=-Keeps Sound _ _ (recover-Keeps last id well) (λ _. silent _ (λ s. refl)))

  ssl_allowed-Keeps :
      (l : Option (RateLimiter W)) (id : String) (days : ℤ)
      → Keeps Sound (ssl_allowed svc l id days)
  unfolding ssl_allowed
  ssl_allowed-Keeps none id days = silent _ (λ s. refl)
  ssl_allowed-Keeps (some limiter) id days = silent _ (λ s. refl)

  ssl_part-Keeps :
      (o : Option SslInfo) (id : String)
      → check.ssl_info ≡ o
      → Keeps Sound (ssl_part svc o id monitor)
  unfolding ssl_part
  ssl_part-Keeps none id e = silent _ (λ s. refl)
  ssl_part-Keeps (some ssl) id e =
      if-Keeps Sound _ _ _
        (λ v.
          if-Keeps Sound _ _ _
            (λ t.
              >>=-Keeps Sound _ _ (ssl_allowed-Keeps svc.rate_limiter id ssl.days_until)
                (λ should_send.
                  if-Keeps Sound should_send _ _
                    (λ _. context-Keeps Sound _ _ (ssl-Keeps ssl e v t))
                    (λ _. silent _ (λ s. refl))))
            (λ _. silent _ (λ s. refl)))
        (λ _. silent _ (λ s. refl))

  process_alerting-Keeps : (id : String) → Keeps Sound (process_alerting svc id check monitor)
  unfolding process_alerting
  process_alerting-Keeps id =
      >>=-Keeps Sound
        (if is_successful check
          then recovery_part svc id monitor check
          else downtime_part svc svc.rate_limiter id monitor check)
        _
        (if-Keeps Sound (is_successful check) _ _ (recovery_part-Keeps id)
          (downtime_part-Keeps svc.rate_limiter id))
        (λ go_on.
          if-Keeps Sound go_on _ (pure tt) (λ _. ssl_part-Keeps check.ssl_info id refl)
            (λ _. silent (pure tt) (λ s. refl)))

  process_for-Keeps : (id : String) → Keeps Sound (process_for svc id check monitor)
  unfolding process_for
  process_for-Keeps id =
      if-Keeps Sound (is_empty monitor.alert_channels) (pure tt)
        (process_alerting svc id check monitor) (λ _. silent (pure tt) (λ s. refl))
        (λ _. process_alerting-Keeps id)

-- A health check gives rise to no alert but those that it calls for, about its monitor and for the
-- monitor's channels: a critical one if it failed, a recovery if it succeeded, and one about a
-- valid certificate at a threshold, with the type and severity of the days left. No alert is
-- broadcast before it has been stored, and none whose storing failed.
pub process-IsSound :
    {W : Type 0} (svc : AlertService W) (id : String) (check : HealthCheck) (monitor : Monitor)
    (s : Logged W Call)
    → (svc.get_monitor id s.world).0 ≡ ok monitor
    → IsSound monitor check s.log
    → IsSound monitor check (process_health_check_alerts svc id check s).1.log
unfolding process_health_check_alerts
process-IsSound svc id check monitor s e p = ground (
  arith,
  (process_for-Keeps svc monitor check id).keeps
      (record s { world = (svc.get_monitor id s.world).1 }) p,
)
