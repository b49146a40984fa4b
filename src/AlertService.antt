-- ===== src/AlertService.antt =====
-- usecase/alert_service.go: which alerts a health check gives rise to, and their delivery.
-- The repositories, the clock, the id generator, the rate limiter, the delivery service and the
-- WebSocket broadcaster are parameters over the state `W` of the world; the last three may be nil.
-- Alerts that are stored or broadcast are noted in a list of calls.
pub mod Sound
pub mod Generated
pub mod Decisions
pub mod Delivery
use webtracker.Shared.{
  ℕ, suc, Bool, true, false, ◌||◌, not, Option, none, some, String, List, [], ◌∷◌, if◌then◌else◌,
  map, is_empty, ltb,
}
use webtracker.Shared.Int.{ℤ, pos, leb_ℤ, ltb_ℤ, eqb_ℤ}
use webtracker.Shared.Clock.{Instant, Duration, hours, since}
use webtracker.Shared.Errors.{Error, Result, Outcome, ok, err, failure, wrapped}
use webtracker.Shared.Effects.{M, pure, fail, context, ignored, ◌>>=◌, ◌>>◌}
use webtracker.Shared.Log.{Logged, quiet, reading, noted}
use webtracker.Domain.Alert.{
  Alert, AlertType, AlertSeverity, AlertChannelType, Message, Details, downtime, recovery,
  performance, info, warning, critical, is_down, has_recovered, certificate_expired,
  certificate_critical, certificate_expires, too_slow, down_details, recovery_details, ssl_details,
  performance_details, determine_ssl_alert_severity, determine_ssl_alert_type,
}
use webtracker.Domain.HealthCheck.{HealthCheck, SslInfo, is_successful}
use webtracker.Domain.Monitor.{Monitor, AlertChannel}
use webtracker.Resilience.AlertChannel.{DeliveryResult}

-- The interface `RateLimiter`.
pub record RateLimiter (W : Type 0) : Type 0 where
  pub check_and_set_downtime_alert : String → M W Bool
  pub check_and_set_ssl_alert : String → ℤ → M W Bool
  pub get_last_downtime_alert : String → M W (Option Instant)
  pub clear_downtime_alert : String → M W (Unit {0})

-- What `NewAlertService` is given, the clock and the id generator.
pub record AlertService (W : Type 0) : Type 0 where
  pub clock : W → Instant × W
  pub new_id : W → String × W
  pub get_monitor : String → M W Monitor
  pub create_alert : Alert → M W (Unit {0})
  pub get_last_alert_time : String → AlertType → M W (Option Instant)
  pub get_alerts : String → ℤ → M W (List Alert)
  pub rate_limiter : Option (RateLimiter W)
  pub deliver : Option (Alert → List AlertChannel → W → List DeliveryResult × W)
  pub broadcast_alert : Option (Alert → W → W)

pub data Call : Type 0 where
  alert_created : Alert → Outcome → Call
  alert_broadcast : Alert → Call

abbrev pub extract_channel_types : List AlertChannel → List AlertChannelType
extract_channel_types = map (λ c. c.type)

unfoldable pub should_generate_ssl_alert : ℤ → Bool
should_generate_ssl_alert days_until =
    leb_ℤ days_until (pos 0)
    || eqb_ℤ days_until (pos 7)
    || eqb_ℤ days_until (pos 15)
    || eqb_ℤ days_until (pos 30)

-- The message about a certificate that expires in so many days.
unfoldable pub ssl_message : String → ℤ → Message
ssl_message name days_until =
    if leb_ℤ days_until (pos 0)
    then certificate_expired name
    else if leb_ℤ days_until (pos 7)
    then certificate_critical name days_until
    else certificate_expires name days_until

module _ {W : Type 0} (svc : AlertService W) where
  abbrev pub S : Type 0
  S = Logged W Call

  broadcast : Option (Alert → W → W) → Alert → M S (Unit {0})
  broadcast none alert = pure tt
  broadcast (some f) alert =
      noted (λ _. alert_broadcast alert) (λ w. let r : Outcome = ok tt in (r, f alert w))

  -- Store the alert, and then broadcast it: the end of each `Generate…Alert`.
  publish : String → Alert → M S (Unit {0})
  unfolding broadcast
  publish text alert = do
    context text (noted (alert_created alert) (svc.create_alert alert))
    broadcast svc.broadcast_alert alert

  alert_for : Monitor → AlertType → AlertSeverity → Message → Details → String → Instant → Alert
  alert_for monitor type severity message details id now = record {
    id = id;
    monitor_id = monitor.id;
    type = type;
    severity = severity;
    message = message;
    details = details;
    sent_at = now;
    channels = extract_channel_types monitor.alert_channels;
  }

  unfoldable pub generate_downtime_alert : Monitor → HealthCheck → M S (Unit {0})
  unfolding publish alert_for
  generate_downtime_alert monitor check = do
    id ← reading svc.new_id
    now ← reading svc.clock
    publish "failed to persist downtime alert" (
        alert_for monitor downtime critical (is_down monitor.name)
          (down_details monitor.url check.status_code check.error_message check.checked_at) id now)

  unfoldable pub generate_recovery_alert : Monitor → HealthCheck → M S (Unit {0})
  unfolding publish alert_for
  generate_recovery_alert monitor check = do
    id ← reading svc.new_id
    now ← reading svc.clock
    publish "failed to persist recovery alert" (
        alert_for monitor recovery info (has_recovered monitor.name)
          (recovery_details monitor.url check.status_code check.response_time check.checked_at) id
          now)

  unfoldable pub generate_ssl_expiration_alert : Monitor → Option SslInfo → M S (Unit {0})
  unfolding publish alert_for
  generate_ssl_expiration_alert monitor none =
      fail (failure "SSL info is required for SSL expiration alert")
  generate_ssl_expiration_alert monitor (some ssl) = do
    id ← reading svc.new_id
    now ← reading svc.clock
    publish "failed to persist SSL expiration alert" (
        alert_for monitor (determine_ssl_alert_type ssl.days_until)
          (determine_ssl_alert_severity ssl.days_until) (ssl_message monitor.name ssl.days_until)
          (ssl_details monitor.url ssl.expires_at ssl.days_until ssl.issuer ssl.valid) id now)

  unfoldable pub generate_performance_alert : Monitor → Duration → Duration → M S (Unit {0})
  unfolding publish alert_for
  generate_performance_alert monitor response_time threshold = do
    id ← reading svc.new_id
    checked ← reading svc.clock
    now ← reading svc.clock
    publish "failed to persist performance alert" (
        alert_for monitor performance warning (too_slow monitor.name response_time threshold)
          (performance_details monitor.url response_time threshold checked) id now)

  -- The part of `ProcessHealthCheckAlerts` for a failed check. The answer is whether to go on:
  -- an alert that is suppressed ends the processing of the check.
  downtime_part : Option (RateLimiter W) → String → Monitor → HealthCheck → M S Bool
  downtime_part none id monitor check = do
    context "failed to generate downtime alert" (generate_downtime_alert monitor check)
    pure true
  downtime_part (some limiter) id monitor check = do
    should_send ←
        context "failed to check rate limit" (quiet (limiter.check_and_set_downtime_alert id))
    if should_send
        then (do
          context "failed to generate downtime alert" (generate_downtime_alert monitor check)
          pure true)
        else pure false

  last_downtime : Option (RateLimiter W) → String → M S (Option Instant)
  last_downtime none id =
      context "failed to check last downtime alert" (quiet (svc.get_last_alert_time id downtime))
  last_downtime (some limiter) id =
      context "failed to check last downtime alert" (quiet (limiter.get_last_downtime_alert id))

  clear : Option (RateLimiter W) → String → M S (Unit {0})
  clear none id = pure tt
  clear (some limiter) id = ignored (quiet (limiter.clear_downtime_alert id))

  recover : Option Instant → String → Monitor → HealthCheck → M S (Unit {0})
  unfolding clear
  recover none id monitor check = pure tt
  recover (some last) id monitor check = do
    now ← reading svc.clock
    if ltb_ℤ (since now last) (pos (hours 1))
        then (do
          context "failed to generate recovery alert" (generate_recovery_alert monitor check)
          clear svc.rate_limiter id)
        else pure tt

  -- The part for a check that succeeded.
  recovery_part : String → Monitor → HealthCheck → M S Bool
  unfolding last_downtime recover
  recovery_part id monitor check = do
    last ← last_downtime svc.rate_limiter id
    recover last id monitor check
    pure true

  ssl_allowed : Option (RateLimiter W) → String → ℤ → M S Bool
  ssl_allowed none id days_until = pure true
  ssl_allowed (some limiter) id days_until =
      context "failed to check SSL rate limit"
        (quiet (limiter.check_and_set_ssl_alert id days_until))

  -- The part about the certificate.
  ssl_part : Option SslInfo → String → Monitor → M S (Unit {0})
  unfolding ssl_allowed
  ssl_part none id monitor = pure tt
  ssl_part (some ssl) id monitor =
      if ssl.valid
      then (if should_generate_ssl_alert ssl.days_until
          then (do
            should_send ← ssl_allowed svc.rate_limiter id ssl.days_until
            if should_send
                then context "failed to generate SSL expiration alert"
                    (generate_ssl_expiration_alert monitor (some ssl))
                else pure tt)
          else pure tt)
      else pure tt

  -- For a monitor that has channels.
  unfoldable pub process_alerting : String → HealthCheck → Monitor → M S (Unit {0})
  unfolding downtime_part recovery_part ssl_part
  process_alerting id check monitor = do
    go_on ←
        if is_successful check
        then recovery_part id monitor check
        else downtime_part svc.rate_limiter id monitor check
    if go_on then ssl_part check.ssl_info id monitor else pure tt

  unfoldable pub process_for : String → HealthCheck → Monitor → M S (Unit {0})
  process_for id check monitor =
      if is_empty monitor.alert_channels then pure tt else process_alerting id check monitor

  unfoldable pub process_health_check_alerts : String → HealthCheck → M S (Unit {0})
  unfolding process_for
  process_health_check_alerts id check = do
    monitor ← context "failed to get monitor" (quiet (svc.get_monitor id))
    process_for id check monitor
