-- ===== src/Domain/Alert.antt =====
-- domain/alert.go: alerts, and the type and severity of an alert about a certificate.
-- The message and the details are kept as data: a constructor stands for each format string, and
-- for each map of details, that the alert service fills in.
use webtracker.Shared.{◌≤◌, ℕ, ◌≡◌, Bool, List, String, if◌then◌else◌, arith}
use webtracker.Shared.Int.{ℤ, pos, leb_ℤ, ◌≤ℤ◌}
use webtracker.Shared.Clock.{Instant, Duration}

pub data AlertType : Type 0 where
  downtime recovery ssl_expiring ssl_expired performance : AlertType

pub data AlertSeverity : Type 0 where
  info warning critical : AlertSeverity

-- A Go string type: any text may stand in a stored monitor, not just the three constants.
abbrev pub AlertChannelType : Type 0
AlertChannelType = String

abbrev pub channel_telegram : AlertChannelType
channel_telegram = "telegram"

abbrev pub channel_email : AlertChannelType
channel_email = "email"

abbrev pub channel_webhook : AlertChannelType
channel_webhook = "webhook"

pub data Message : Type 0 where
  is_down : String → Message
  has_recovered : String → Message
  certificate_expired : String → Message
  certificate_critical : String → ℤ → Message
  certificate_expires : String → ℤ → Message
  too_slow : String → Duration → Duration → Message

pub data Details : Type 0 where
  down_details : String → ℤ → String → Instant → Details
  recovery_details : String → ℤ → Duration → Instant → Details
  ssl_details : String → Instant → ℤ → String → Bool → Details
  performance_details : String → Duration → Duration → Instant → Details

pub record Alert : Type 0 where
  pub id : String
  pub monitor_id : String
  pub type : AlertType
  pub severity : AlertSeverity
  pub message : Message
  pub details : Details
  pub sent_at : Instant
  pub channels : List AlertChannelType

unfoldable pub determine_ssl_alert_severity : ℤ → AlertSeverity
determine_ssl_alert_severity days_until =
    if leb_ℤ days_until (pos 0)
    then critical
    else if leb_ℤ days_until (pos 7)
    then critical
    else if leb_ℤ days_until (pos 30)
    then warning
    else info

unfoldable pub determine_ssl_alert_type : ℤ → AlertType
determine_ssl_alert_type days_until = if leb_ℤ days_until (pos 0) then ssl_expired else ssl_expiring

-- How urgent a severity is.
abbrev pub rank : AlertSeverity → ℕ
rank info = 0
rank warning = 1
rank critical = 2

-- The nearer the expiry, the higher the severity.
pub ssl_severity_antitone :
    (a b : ℤ)
    → a ≤ℤ b
    → rank (determine_ssl_alert_severity b) ≤ rank (determine_ssl_alert_severity a)
unfolding determine_ssl_alert_severity
ssl_severity_antitone a b h = ground arith

-- An expired certificate is always critical.
pub ssl_expired_critical :
    (d : ℤ) → determine_ssl_alert_type d ≡ ssl_expired → determine_ssl_alert_severity d ≡ critical
unfolding determine_ssl_alert_type determine_ssl_alert_severity
ssl_expired_critical d h = ground arith
