-- ===== src/AlertService/Sound.antt =====
-- alert_service.go: what it is for the calls of the service to be sound.
use webtracker.Shared.{◌≡◌, refl, true, false, Option, none, some, List, [], ◌∷◌, arith}
use webtracker.Shared.Int.{ℤ}
use webtracker.Shared.Errors.{Outcome, ok, err}
use webtracker.Domain.Alert.{
  Alert, AlertType, downtime, recovery, ssl_expiring, ssl_expired, performance, info, critical,
  determine_ssl_alert_type, determine_ssl_alert_severity,
}
use webtracker.Domain.HealthCheck.{HealthCheck, SslInfo, is_successful}
use webtracker.Domain.Monitor.{Monitor}
use webtracker.AlertService.{
  Call, alert_created, alert_broadcast, extract_channel_types, should_generate_ssl_alert,
}

-- The certificate's data call for an alert of the alert's type and severity.
pub record FitsSsl (check : HealthCheck) (a : Alert) : Type 0 where
  pub ssl : SslInfo
  pub has_ssl : check.ssl_info ≡ some ssl
  pub is_valid : ssl.valid ≡ true
  pub at_threshold : should_generate_ssl_alert ssl.days_until ≡ true
  pub type_fits : a.type ≡ determine_ssl_alert_type ssl.days_until
  pub severity_fits : a.severity ≡ determine_ssl_alert_severity ssl.days_until

-- The check calls for an alert of this type.
abbrev pub FitsType : HealthCheck → Alert → AlertType → Type 0
FitsType check a downtime = (is_successful check ≡ false) × (a.severity ≡ critical)
FitsType check a recovery = (is_successful check ≡ true) × (a.severity ≡ info)
FitsType check a ssl_expiring = FitsSsl check a
FitsType check a ssl_expired = FitsSsl check a
FitsType check a performance = ⊥

-- An alert about the monitor, for its channels, that the check calls for.
pub record Fits (monitor : Monitor) (check : HealthCheck) (a : Alert) : Type 0 where
  pub about : a.monitor_id ≡ monitor.id
  pub for_channels : a.channels ≡ extract_channel_types monitor.alert_channels
  pub fits_type : FitsType check a a.type

-- Every alert that was to be stored fits, and every alert that was broadcast had been stored
-- without an error just before.
abbrev pub IsSound : Monitor → HealthCheck → List Call → Type 0
IsSound monitor check [] = Unit {0}
IsSound monitor check (alert_created a r ∷ l) = Fits monitor check a × IsSound monitor check l
IsSound monitor check (alert_broadcast a ∷ l) =
    ((before : List Call) × (l ≡ alert_created a (ok tt) ∷ before)) × IsSound monitor check l

-- The list of calls after an alert is published.
abbrev pub announced :
    {W : Type 0} → Outcome → Option (Alert → W → W) → Alert → List Call → List Call
announced (ok _) none a l = alert_created a (ok tt) ∷ l
announced (ok _) (some g) a l = alert_broadcast a ∷ alert_created a (ok tt) ∷ l
announced (err e) g a l = alert_created a (err e) ∷ l

pub announced-Sound :
    {W : Type 0} (monitor : Monitor) (check : HealthCheck) (r : Outcome)
    (g : Option (Alert → W → W)) (a : Alert) (l : List Call)
    → Fits monitor check a
    → IsSound monitor check l
    → IsSound monitor check (announced r g a l)
announced-Sound monitor check (ok _) none a l f p = (f, p)
announced-Sound monitor check (ok _) (some g) a l f p = ((l, refl), (f, p))
announced-Sound monitor check (err e) g a l f p = (f, p)

-- An alert about a certificate fits whichever of the two types it has.
pub ssl_type :
    (days : ℤ) (check : HealthCheck) (a : Alert)
    → a.type ≡ determine_ssl_alert_type days
    → FitsSsl check a
    → FitsType check a a.type
unfolding determine_ssl_alert_type
ssl_type days check a e f = ground arith
