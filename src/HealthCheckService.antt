-- ===== src/HealthCheckService.antt =====
-- usecase/healthcheck_service.go: carrying out a health check.
-- The repositories, the cache, the alert service, the broadcaster, the clock, the id generator,
-- `net/http`, the text of an error, and the days in a duration (a float64), are parameters; the
-- alert service and the broadcaster may be nil. Writes, broadcasts and alerts are noted.
pub mod Verdict
pub mod Order
use webtracker.Shared.{
  Bool, true, false, ◌&&◌, ◌||◌, not, Option, none, some, String, List, [], ◌∷◌, if◌then◌else◌, ltb,
  str_eq, is_empty,
}
use webtracker.Shared.Int.{ℤ, pos, leb_ℤ}
use webtracker.Shared.Clock.{Instant, Duration, since}
use webtracker.Shared.Errors.{Error, Result, Outcome, ok, err, deadline_exceeded, wrapped}
use webtracker.Shared.Effects.{M, pure, context, ignored, in_context, attempt, ◌>>=◌, ◌>>◌}
use webtracker.Shared.Log.{Logged, quiet, reading, noted}
use webtracker.Domain.HealthCheck.{
  HealthCheck, HealthCheckStatus, SslInfo, status_success, status_failure, status_timeout,
  is_successful,
}
use webtracker.Domain.Monitor.{Monitor}
use webtracker.HttpClient.{RetryConfig, do_with_retry}

-- The parts of `x509.Certificate`, `tls.ConnectionState` and `http.Response` that are read.
pub record Certificate : Type 0 where
  pub not_before : Instant
  pub not_after : Instant
  pub subject_common_name : String
  pub dns_names : List String
  pub issuer_common_name : String
  pub issuer_organization : List String

pub record ConnectionState : Type 0 where
  pub peer_certificates : List Certificate
  pub handshake_complete : Bool

pub record Response : Type 0 where
  pub status_code : ℤ
  pub tls : Option ConnectionState

-- A key of the metrics cache: "cache:metrics:<monitor id>:<suffix>".
pub record MetricsKey : Type 0 where
  pub monitor_id : String
  pub suffix : String

pub record HealthCheckService (W : Type 0) : Type 0 where
  pub clock : W → Instant × W
  pub new_id : W → String × W
  pub get_monitor : String → M W Monitor
  pub create_check : HealthCheck → M W (Unit {0})
  pub delete_key : MetricsKey → M W (Unit {0})
  pub new_request : String → Outcome
  pub send : String → W → Result Response × W
  pub wait : Duration → W → Bool × W
  pub is_timeout : Error → Bool
  pub error_text : Error → String
  pub days_in : Duration → ℤ
  pub retry_config : RetryConfig
  pub performance_threshold : Duration
  pub performance_alert : Option (Monitor → Duration → Duration → M W (Unit {0}))
  pub broadcast_update : Option (HealthCheck → W → W)

pub data Call : Type 0 where
  check_created : HealthCheck → Outcome → Call
  key_deleted : MetricsKey → Call
  check_broadcast : HealthCheck → Call
  slowness_alerted : Monitor → Duration → Duration → Call

unfoldable pub classify_status_code : ℤ → HealthCheckStatus
classify_status_code code =
    if leb_ℤ (pos 200) code && leb_ℤ code (pos 299) then status_success else status_failure

abbrev is_deadline_exceeded : Error → Bool
is_deadline_exceeded deadline_exceeded = true
is_deadline_exceeded _ = false

-- `cert.Issuer.CommonName`, or the first organization where that is empty.
issuer_of : String → List String → String
issuer_of name [] = name
issuer_of name (organization ∷ _) = if str_eq name "" then organization else name

unfoldable pub validate_certificate : Bool → Certificate → Instant → Bool
validate_certificate handshake_complete cert now =
    if ltb now cert.not_before || ltb cert.not_after now
    then false
    else if not handshake_complete
    then false
    else not (str_eq cert.subject_common_name "" && is_empty cert.dns_names)

abbrev pub cache_suffixes : List String
cache_suffixes =
    "uptime" ∷ "uptime:24h" ∷ "uptime:7d" ∷ "uptime:30d" ∷ "response:1h" ∷ "response:24h"
    ∷ "response:7d" ∷ []

-- The check of a request that was answered, from the response and the certificate's data.
unfoldable pub answered : HealthCheck → ℤ → Option SslInfo → HealthCheck
answered check code none = record check { status_code = code; status = classify_status_code code }
answered check code (some ssl) =
    if ssl.valid
    then record check {
      status_code = code;
      status = classify_status_code code;
      ssl_info = some ssl;
    }
    else record check {
      status_code = code;
      status = status_failure;
      ssl_info = some ssl;
      error_message =
          if str_eq check.error_message ""
          then "SSL certificate is invalid or cannot be verified"
          else check.error_message;
    }

module _ {W : Type 0} (svc : HealthCheckService W) where
  abbrev pub S : Type 0
  S = Logged W Call

  unfoldable pub classify_error : Error → HealthCheckStatus
  classify_error e =
      if svc.is_timeout e || is_deadline_exceeded e then status_timeout else status_failure

  get_with_retry : String → Outcome → W → Result Response × W
  get_with_retry url (err e) w = (err e, w)
  get_with_retry url (ok _) w =
      let (result, calls, w') = do_with_retry (svc.send url) svc.wait svc.retry_config w in
      (result, w')

  unfoldable pub execute_http_request : String → M W Response
  unfolding get_with_retry
  execute_http_request url w = get_with_retry url (svc.new_request url) w

  extract_certificate : ConnectionState → List Certificate → M S SslInfo
  unfolding issuer_of
  extract_certificate state [] =
      pure (record { valid = false; expires_at = 0; days_until = pos 0; issuer = "" })
  extract_certificate state (cert ∷ _) = do
    now ← reading svc.clock
    later ← reading svc.clock
    pure (record {
      valid = validate_certificate state.handshake_complete cert now;
      expires_at = cert.not_after;
      days_until = svc.days_in (since cert.not_after later);
      issuer = issuer_of cert.issuer_common_name cert.issuer_organization;
    })

  unfoldable pub extract_ssl_info : Option ConnectionState → M S (Option SslInfo)
  unfolding extract_certificate
  extract_ssl_info none = pure none
  extract_ssl_info (some state) = do
    ssl ← extract_certificate state state.peer_certificates
    pure (some ssl)

  invalidate_keys : String → List String → M S (Unit {0})
  invalidate_keys id [] = pure tt
  invalidate_keys id (suffix ∷ rest) = do
    let key : MetricsKey = record { monitor_id = id; suffix = suffix }
    ignored (noted (λ _. key_deleted key) (svc.delete_key key))
    invalidate_keys id rest

  broadcast : Option (HealthCheck → W → W) → HealthCheck → M S (Unit {0})
  broadcast none check = pure tt
  broadcast (some f) check =
      noted (λ _. check_broadcast check) (λ w. let r : Outcome = ok tt in (r, f check w))

  unfoldable pub persist_health_check : HealthCheck → M S (Unit {0})
  unfolding invalidate_keys broadcast
  persist_health_check check = do
    context "failed to save health check to database"
        (noted (check_created check) (svc.create_check check))
    invalidate_keys check.monitor_id cache_suffixes
    broadcast svc.broadcast_update check

  slowness :
      Option (Monitor → Duration → Duration → M W (Unit {0}))
      → Monitor
      → HealthCheck
      → M S (Unit {0})
  slowness none monitor check = pure tt
  slowness (some f) monitor check =
      if not (is_successful check) || leb_ℤ check.response_time svc.performance_threshold
      then pure tt
      else ignored (
          noted (λ _. slowness_alerted monitor check.response_time svc.performance_threshold)
            (f monitor check.response_time svc.performance_threshold))

  -- What is returned: the check, and the error beside it.
  persisted : Monitor → HealthCheck → Outcome → M S (HealthCheck × Outcome)
  unfolding slowness
  persisted monitor check (err e) = pure (check, err (wrapped "failed to persist health check" e))
  persisted monitor check (ok _) = do
    slowness svc.performance_alert monitor check
    pure (check, ok tt)

  finish : Monitor → HealthCheck → Result Response → M S (HealthCheck × Outcome)
  unfolding persisted
  finish monitor check (err e) = do
    let failed = record check { status = classify_error e; error_message = svc.error_text e }
    r ← attempt (persist_health_check failed)
    pure (failed, in_context "failed to persist health check" r)
  finish monitor check (ok response) = do
    ssl ← extract_ssl_info response.tls
    let done = answered check response.status_code ssl
    r ← attempt (persist_health_check done)
    persisted monitor done r

  -- The status is set by `finish` in every case.
  unfoldable pub execute_check : String → M S (HealthCheck × Outcome)
  unfolding finish
  execute_check monitor_id = do
    monitor ← context "failed to get monitor" (quiet (svc.get_monitor monitor_id))
    id ← reading svc.new_id
    checked_at ← reading svc.clock
    start ← reading svc.clock
    r ← attempt (quiet (execute_http_request monitor.url))
    stop ← reading svc.clock
    finish monitor
        (record {
          id = id;
          monitor_id = monitor_id;
          status = status_failure;
          status_code = pos 0;
          response_time = since stop start;
          ssl_info = none;
          error_message = "";
          checked_at = checked_at;
        })
        r
