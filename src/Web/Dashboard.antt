-- ===== src/Web/Dashboard.antt =====
-- interface/http/dashboard_handlers.go: what the dashboard reads about a monitor, and the page of
-- its alerts. The sums over all monitors are left out: the goroutines add floats in the order in
-- which they finish. HTML, JSON and printing are left out.
use webtracker.Shared.{
  ℕ, ◌+◌, not, ◌&&◌, ◌||◌, Option, none, some, String, List, [], ◌∷◌, if◌then◌else◌, str_eq,
}
use mathlib.Core.Option
use webtracker.Domain.Monitor.{Monitor}
use webtracker.Domain.Alert.{Alert}
use webtracker.Domain.HealthCheck.{HealthCheck, HealthCheckStatus}
use webtracker.Metrics.{UptimeStats}
use webtracker.ChannelAdapters.{type_text, severity_text}
use webtracker.Web.{MonitorServiceInterface, Parsers}
use webtracker.Web.History.{HistoryRepository}
use webtracker.Shared.Int.{ℤ, pos, leb_ℤ}
use webtracker.Shared.Clock.{Instant, Duration, seconds}
use webtracker.Shared.Errors.{Result, ok, err}
use webtracker.Shared.Effects.{M}

pub record MonitorWithStatus : Type 0 where
  pub monitor : Monitor
  pub status : Option HealthCheckStatus
  pub last_check : Option Instant
  pub response_time : Option Duration
  pub uptime_stats : Option UptimeStats

-- The repository of checks and the metrics service may be nil.
pub record DashboardHandler (W : Type 0) : Type 0 where
  pub monitor_service : MonitorServiceInterface W
  pub check_repo : Option (HistoryRepository W HealthCheck)
  pub alert_repo : HistoryRepository W Alert
  pub get_uptime_percentage : Option (String → M W UptimeStats)

abbrev pub first_of : {A : Type 0} → Result (List A) → Option A
first_of (ok (a ∷ l)) = some a
first_of _ = none

abbrev pub value_of : {A : Type 0} → Result A → Option A
value_of (ok a) = some a
value_of (err e) = none

module _ {W : Type 0} (h : DashboardHandler W) where
  latest_check : Option (HistoryRepository W HealthCheck) → String → W → Option HealthCheck × W
  latest_check none id w = (none, w)
  latest_check (some repo) id w =
      let (found, w') = repo.get_by_monitor_id id (pos 1) w in (first_of found, w')

  uptime_of : Option (String → M W UptimeStats) → String → W → Option UptimeStats × W
  uptime_of none id w = (none, w)
  uptime_of (some get) id w = let (found, w') = get id w in (value_of found, w')

  abbrev entry_of : Monitor → Option HealthCheck → Option UptimeStats → MonitorWithStatus
  entry_of m check uptime = record {
    monitor = m;
    status = Option.map (λ (c : HealthCheck). c.status) check;
    last_check = Option.map (λ (c : HealthCheck). c.checked_at) check;
    response_time = Option.map (λ (c : HealthCheck). c.response_time) check;
    uptime_stats = uptime;
  }

  -- The readings of a goroutine; a failure leaves its part out.
  unfoldable pub fetch_monitor : Monitor → W → MonitorWithStatus × W
  unfolding latest_check uptime_of
  fetch_monitor m w =
      if str_eq m.id ""
      then (entry_of m none none, w)
      else (let (check, w₁) = latest_check h.check_repo m.id w in
          let (uptime, w₂) = uptime_of h.get_uptime_percentage m.id w₁ in
          (entry_of m check uptime, w₂))

-- The query of the page of alerts. The page number is read, and used by the page only.
pub record AlertFilters : Type 0 where
  pub type : String
  pub severity : String
  pub start_date : String
  pub end_date : String
  pub page : ℤ
  pub limit : ℤ

unfoldable pub parse_alert_filters : Parsers → (String → String) → AlertFilters
parse_alert_filters p query = record {
  type = query "type";
  severity = query "severity";
  start_date = query "start_date";
  end_date = query "end_date";
  page = elim (p.atoi (query "page")) [
    | ok n ↦ if leb_ℤ n (pos 0) then pos 1 else n
    | err e ↦ pos 1
  ];
  limit = elim (p.atoi (query "limit")) [
    | ok n ↦ if leb_ℤ n (pos 0) then pos 50 else if leb_ℤ n (pos 100) then n else pos 50
    | err e ↦ pos 50
  ];
}

unfoldable pub apply_alert_filters : List Alert → AlertFilters → List Alert
apply_alert_filters [] f = []
apply_alert_filters (a ∷ alerts) f =
    let rest = apply_alert_filters alerts f in
    if not (str_eq f.type "") && not (str_eq (type_text a.type) f.type)
    then rest
    else if not (str_eq f.severity "") && not (str_eq (severity_text a.severity) f.severity)
    then rest
    else a ∷ rest

module _ {W : Type 0} (p : Parsers) (h : DashboardHandler W) where
  -- Both dates parse: to the last second of the second day.
  unfoldable pub fetch_alerts : String → AlertFilters → M W (List Alert)
  fetch_alerts id f =
      let newest = h.alert_repo.get_by_monitor_id id f.limit in
      if str_eq f.start_date "" || str_eq f.end_date ""
      then newest
      else elim (p.parse_date f.start_date) [
        | err e ↦ newest
        | ok start ↦ elim (p.parse_date f.end_date) [
          | err e ↦ newest
          | ok end ↦ h.alert_repo.get_by_date_range id start (end + seconds 86399)
        ]
      ]

pub data AlertPage : Type 0 where
  failed : ℕ → String → AlertPage
  shows : Monitor → List Alert → AlertFilters → AlertPage

module _ {W : Type 0} (p : Parsers) (h : DashboardHandler W) where
  shown_alerts : Monitor → AlertFilters → Result (List Alert) × W → AlertPage × W
  unfolding apply_alert_filters
  shown_alerts m f (err e, w) = (failed 500 "Failed to load alerts", w)
  shown_alerts m f (ok alerts, w) = (shows m (apply_alert_filters alerts f) f, w)

  alerts_of : String → (String → String) → Result Monitor × W → AlertPage × W
  unfolding shown_alerts parse_alert_filters fetch_alerts
  alerts_of id query (err e, w) = (failed 404 "Monitor not found", w)
  alerts_of id query (ok m, w) =
      let f = parse_alert_filters p query in shown_alerts m f (fetch_alerts p h id f w)

  unfoldable pub alert_history : String → (String → String) → W → AlertPage × W
  unfolding alerts_of
  alert_history id query w =
      if str_eq id ""
      then (failed 400 "Monitor ID is required", w)
      else alerts_of id query (h.monitor_service.get_monitor id w)
