-- ===== src/Domain/HealthCheck.antt =====
-- domain/healthcheck.go: health checks and their hourly aggregates. The success rate is the pair of
-- counts of which the source stores the quotient, a float64.
use webtracker.Shared.{ℕ, Bool, true, false, String, Option}
use webtracker.Shared.Int.{ℤ}
use webtracker.Shared.Clock.{Instant, Duration}

pub data HealthCheckStatus : Type 0 where
  status_success status_failure status_timeout : HealthCheckStatus

pub record SslInfo : Type 0 where
  pub valid : Bool
  pub expires_at : Instant
  pub days_until : ℤ
  pub issuer : String

pub record HealthCheck : Type 0 where
  pub id : String
  pub monitor_id : String
  pub status : HealthCheckStatus
  pub status_code : ℤ
  pub response_time : Duration
  pub ssl_info : Option SslInfo
  pub error_message : String
  pub checked_at : Instant

abbrev pub status_is_success : HealthCheckStatus → Bool
status_is_success status_success = true
status_is_success _ = false

abbrev pub is_successful : HealthCheck → Bool
is_successful h = status_is_success h.status

-- The counts are those of a slice's elements, so that they are within an `int`.
pub record AggregatedHealthCheck : Type 0 where
  pub id : String
  pub monitor_id : String
  pub hour_timestamp : Instant
  pub total_checks : ℕ
  pub successful_checks : ℕ
  pub failed_checks : ℕ
  pub avg_response_time : Duration
  pub min_response_time : Duration
  pub max_response_time : Duration
  pub created_at : Instant
