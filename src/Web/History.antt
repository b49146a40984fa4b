-- ===== src/Web/History.antt =====
-- interface/http/handlers.go: the JSON API for a monitor's checks and alerts.
pub mod Alerts
use webtracker.Shared.{ℕ, Option, String, List, [], ◌∷◌, map, if◌then◌else◌, ◌==◌, length, str_eq}
use webtracker.Domain.HealthCheck.{HealthCheck, HealthCheckStatus, SslInfo}
use webtracker.Domain.Alert.{Alert, AlertType, AlertSeverity, AlertChannelType, Message, Details}
use webtracker.ChannelAdapters.{type_text}
use webtracker.WebSocket.Manager.{milliseconds}
use webtracker.Web.{Parsers, Response, answered, refused}
use webtracker.Web.Api.{replying, bad_request, parse_count, with_parsed}
use webtracker.Shared.Int.{ℤ, pos, ltb_ℤ}
use webtracker.Shared.Clock.{Instant}
use webtracker.Shared.Errors.{Result, ok, err, failure}
use webtracker.Shared.Effects.{M}

-- The part of `domain.HealthCheckRepository` and of `domain.AlertRepository` that is used.
pub record HistoryRepository (W A : Type 0) : Type 0 where
  pub get_by_monitor_id : String → ℤ → M W (List A)
  pub get_by_date_range : String → Instant → Instant → M W (List A)

-- No limit applies to a range of dates.
pub data HistoryQuery : Type 0 where
  latest : ℤ → HistoryQuery
  between : Instant → Instant → HistoryQuery

abbrev capped : ℤ → Result ℤ
capped n = if ltb_ℤ (pos 1000) n then ok (pos 1000) else ok n

unfoldable pub parse_limit : (String → Result ℤ) → String → Result ℤ
unfolding parse_count
parse_limit atoi s = with_parsed (parse_count atoi "invalid limit parameter" (pos 100) s) capped

-- A date that is missing is Go's zero time.
unfoldable pub parse_time : (String → Result Instant) → String → String → Result Instant
parse_time parse text s =
    if str_eq s "" then ok 0 else elim (parse s) [ err e ↦ err (failure text) | ok t ↦ ok t ]

abbrev query_of : ℤ → Instant → Instant → HistoryQuery
query_of limit start end =
    if start == 0 then latest limit else if end == 0 then latest limit else between start end

unfoldable pub history_query : Parsers → (String → String) → Result HistoryQuery
unfolding parse_limit parse_time
history_query p query = with_parsed (parse_limit p.atoi (query "limit")) λ limit.
    with_parsed
      (parse_time p.parse_rfc3339 "invalid start date format, use RFC3339" (query "start"))
      λ start.
        with_parsed
          (parse_time p.parse_rfc3339 "invalid end date format, use RFC3339" (query "end"))
          λ end. ok (query_of limit start end)

module _ {W A : Type 0} (repo : HistoryRepository W A) where
  unfoldable pub fetch : String → HistoryQuery → M W (List A)
  fetch id (latest limit) = repo.get_by_monitor_id id limit
  fetch id (between start end) = repo.get_by_date_range id start end

pub record HealthCheckResponse : Type 0 where
  pub id : String
  pub monitor_id : String
  pub status : HealthCheckStatus
  pub status_code : ℤ
  pub response_time : ℤ
  pub ssl_info : Option SslInfo
  pub error_message : String
  pub checked_at : Instant

unfoldable pub to_health_check_response : HealthCheck → HealthCheckResponse
to_health_check_response c = record {
  id = c.id;
  monitor_id = c.monitor_id;
  status = c.status;
  status_code = c.status_code;
  response_time = milliseconds c.response_time;
  ssl_info = c.ssl_info;
  error_message = c.error_message;
  checked_at = c.checked_at;
}

pub record Counted (A : Type 0) : Type 0 where
  pub items : List A
  pub count : ℕ

abbrev pub counted : {A : Type 0} → List A → Counted A
counted l = record { items = l; count = length l }

abbrev checks_body : List HealthCheck → Counted HealthCheckResponse
checks_body checks = counted (map to_health_check_response checks)

module _ {W : Type 0} (p : Parsers) (repo : HistoryRepository W HealthCheck) where
  checks_for : String → Result HistoryQuery → W → Response (Counted HealthCheckResponse) × W
  unfolding fetch
  checks_for id (err e) w = (refused 400 e, w)
  checks_for id (ok q) w = replying 200 500 checks_body (fetch repo id q w)

  unfoldable pub get_health_check_history :
      String → (String → String) → W → Response (Counted HealthCheckResponse) × W
  unfolding checks_for history_query
  get_health_check_history id query w =
      if str_eq id ""
      then (bad_request "monitor ID is required", w)
      else checks_for id (history_query p query) w

  abbrev first_check : List HealthCheck → Response HealthCheckResponse
  first_check [] = refused 404 (failure "no health checks found for this monitor")
  first_check (c ∷ checks) = answered 200 (to_health_check_response c)

  abbrev latest_reply : Result (List HealthCheck) → Response HealthCheckResponse
  latest_reply (err e) = refused 500 e
  latest_reply (ok checks) = first_check checks

  unfoldable pub get_latest_health_check : String → W → Response HealthCheckResponse × W
  get_latest_health_check id w =
      if str_eq id ""
      then (bad_request "monitor ID is required", w)
      else (let (found, w') = repo.get_by_monitor_id id (pos 1) w in (latest_reply found, w'))

pub record AlertResponse : Type 0 where
  pub id : String
  pub monitor_id : String
  pub type : AlertType
  pub severity : AlertSeverity
  pub message : Message
  pub details : Details
  pub sent_at : Instant
  pub channels : List AlertChannelType

unfoldable pub to_alert_response : Alert → AlertResponse
to_alert_response a = record {
  id = a.id;
  monitor_id = a.monitor_id;
  type = a.type;
  severity = a.severity;
  message = a.message;
  details = a.details;
  sent_at = a.sent_at;
  channels = a.channels;
}

unfoldable pub of_type : String → List Alert → List Alert
of_type type [] = []
of_type type (a ∷ alerts) =
    let rest = of_type type alerts in if str_eq (type_text a.type) type then a ∷ rest else rest

unfoldable pub filter_type : String → List Alert → List Alert
unfolding of_type
filter_type type alerts = if str_eq type "" then alerts else of_type type alerts

abbrev pub alerts_body : String → List Alert → Counted AlertResponse
alerts_body type alerts = counted (map to_alert_response (filter_type type alerts))

module _ {W : Type 0} (p : Parsers) (repo : HistoryRepository W Alert) where
  alerts_for : String → String → Result HistoryQuery → W → Response (Counted AlertResponse) × W
  unfolding fetch
  alerts_for id type (err e) w = (refused 400 e, w)
  alerts_for id type (ok q) w = replying 200 500 (alerts_body type) (fetch repo id q w)

  unfoldable pub get_alert_history :
      String → (String → String) → W → Response (Counted AlertResponse) × W
  unfolding alerts_for history_query
  get_alert_history id query w =
      if str_eq id ""
      then (bad_request "monitor ID is required", w)
      else alerts_for id (query "type") (history_query p query) w
