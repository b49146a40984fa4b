-- ===== src/Examples/Requests.antt =====
-- Requests to the web interface.
use webtracker.Shared.{
  ℕ, zero, suc, ◌+◌, ◌-◌, ◌*◌, ◌/◌, ◌%◌, ◌^◌, ◌≤◌, ◌<◌, ◌≡◌, ◌≢◌, ◌↔◌, ◌⊎◌, inl, inr, refl, sym, ap,
  ◌∙◌, Bool, true, false, not, ◌&&◌, ◌||◌, Option, none, some, String, List, [], ◌∷◌, ◌++◌, map,
  if◌then◌else◌, ltb, leb, ◌==◌, length, tally, All, any, is_empty, arith, length-append, str_eq,
  eq_iff, str_eq_ne, str_eq_refl, Bool-cases, Option-cases, ltb→lt, leb→le, lt→ltb,
}
use webtracker.Shared.Int.{
  pos_part, ℤ, pos, negsuc, ltb_ℤ, leb_ℤ, eqb_ℤ, div_int64, add_int64, incr,
}
use webtracker.Shared.Clock.{hours}
use webtracker.Shared.Errors.{ok, err, failure}
use webtracker.Shared.Log.{Logged}
use webtracker.Domain.Monitor.{validate, validate_check_interval, validate_url}
use webtracker.Domain.Alert.{
  Alert, downtime, recovery, critical, info, is_down, has_recovered, down_details, recovery_details,
}
use webtracker.MonitorService.{MonitorService, Call, create_monitor, store_new}
use webtracker.ChannelAdapters.{Http}
use webtracker.ChannelAdapters.Email.{Smtp}
use webtracker.Web.{
  Parsers, Response, answered, served_by, minutes_to_duration, MonitorServiceInterface,
}
use webtracker.Web.Api.{
  CreateMonitorRequest, MonitorResponse, post_monitor, to_create_request, to_monitor_response,
}
use webtracker.Web.Intervals.{accepted_interval_iff, IsAcceptable}
use webtracker.Web.Creation.{IsCreated, post_monitor-IsCreated}
use webtracker.Web.Forms.{parse_alert_channels}
use webtracker.Web.Channels.{Fate, form_channels-Fate}
use webtracker.Web.History.{
  HistoryRepository, Counted, AlertResponse, get_alert_history, to_alert_response,
}
use webtracker.Web.History.Alerts.{HonoursLimit, IsWithin, HasType, get_alert_history_bounds}
use webtracker.Web.Dashboard.{DashboardHandler, fetch_monitor}
use webtracker.Examples.Data.{site}
use webtracker.Examples.Monitors.{Table, memory, parse_site}

-- 2^53 + 5 minutes.
abbrev long_interval : ℤ
long_interval = pos 9007199254740997

accepted_interval_iff_example :
    (validate_check_interval (minutes_to_duration long_interval) ≡ ok tt)
    ↔ IsAcceptable long_interval
accepted_interval_iff_example = accepted_interval_iff long_interval

abbrev service : MonitorService Table
service = record {
  clock = λ w. (hours 1, w);
  new_id = λ w. ("m1", w);
  parse_url = parse_site;
  repo = memory;
  scheduler = none;
}

abbrev creation : CreateMonitorRequest
creation = record {
  name = "Site";
  url = "https://example.com";
  check_interval = long_interval;
  enabled = true;
  alert_channels = [];
}

abbrev empty : Logged Table Call
empty = record { world = []; log = [] }

abbrev created_body : MonitorResponse
created_body = record {
  id = "m1";
  name = "Site";
  url = "https://example.com";
  check_interval = pos 5;
  enabled = true;
  alert_channels = [];
  created_at = hours 1;
  updated_at = hours 1;
}

post_monitor-IsCreated_example :
    IsCreated service creation []
      (post_monitor (served_by service) (ok creation) empty).1.log
      201
      created_body
unfolding post_monitor create_monitor store_new to_create_request to_monitor_response
    minutes_to_duration validate validate_check_interval validate_url
    webtracker.Shared.Int.from_bits webtracker.Shared.Int.div_int64
post_monitor-IsCreated_example = post_monitor-IsCreated service creation empty 201 created_body refl

abbrev silent_http : Http (Unit {0})
silent_http = record {
  marshal = λ p. ok "{}";
  new_request = λ r. ok tt;
  set_header = λ name value headers. (name, value) ∷ headers;
  client_do = λ r w. (ok (record { status_code = pos 200; body = "" }), w);
  after_prefix = λ prefix key. none;
  show_int = λ n. "0";
  show_time = λ t. "now";
  show_message = λ m. "down";
  wait = λ d w. (ok tt, w);
}

abbrev silent_smtp : Smtp (Unit {0})
silent_smtp = record {
  atoi = λ s. ok (pos 587);
  dial = λ host port w. (ok tt, w);
  close_conn = λ w. (ok tt, w);
  new_client = λ host w. (ok tt, w);
  quit = λ w. (ok tt, w);
  auth = λ user password host w. (ok tt, w);
  mail = λ from w. (ok tt, w);
  rcpt = λ to w. (ok tt, w);
  open_data = λ w. (ok tt, w);
  write = λ text w. (ok tt, w);
  close_data = λ w. (ok tt, w);
  execute_template = λ d. ok "<html>";
  show_message = λ m. "down";
  wait = λ d w. (ok tt, w);
}

abbrev channel_form : String → String
channel_form key =
    if str_eq key "telegram_enabled" || str_eq key "email_enabled" || str_eq key "webhook_enabled"
    then "on"
    else "value"

form_channels-Fate_example :
    All (Fate silent_http silent_smtp channel_form) (parse_alert_channels channel_form)
form_channels-Fate_example = form_channels-Fate silent_http silent_smtp channel_form

abbrev down : Alert
down = record {
  id = "a1";
  monitor_id = "m1";
  type = downtime;
  severity = critical;
  message = is_down "Site";
  details = down_details "https://example.com" (pos 500) "" (hours 1);
  sent_at = hours 1;
  channels = [];
}

abbrev up : Alert
up = record {
  id = "a2";
  monitor_id = "m1";
  type = recovery;
  severity = info;
  message = has_recovered "Site";
  details = recovery_details "https://example.com" (pos 200) (pos 1) (hours 2);
  sent_at = hours 2;
  channels = [];
}

abbrev newest : {A : Type 0} → ℕ → List A → List A
newest zero l = []
newest (suc n) [] = []
newest (suc n) (a ∷ l) = a ∷ newest n l

newest-length : {A : Type 0} (n : ℕ) (l : List A) → length (newest n l) ≤ n
newest-length zero l = omega arith
newest-length (suc n) [] = omega arith
newest-length (suc n) (a ∷ l) = omega (arith, newest-length n l)

-- `LIMIT n`, which a limit of 0 leaves out.
abbrev within_limit : {A : Type 0} → ℕ → List A → List A
within_limit n l = if n == 0 then l else newest n l

abbrev alerts : HistoryRepository (Unit {0}) Alert
alerts = record {
  get_by_monitor_id = λ id limit w. (ok (within_limit (pos_part limit) (up ∷ down ∷ [])), w);
  get_by_date_range = λ id start end w. (ok (up ∷ down ∷ []), w);
}

alerts-HonoursLimit : HonoursLimit alerts
alerts-HonoursLimit = record {
  at_most = λ id n w l positive e.
      let same : newest n (up ∷ down ∷ []) ≡ l = ground (arith, positive, e) in
      rw (← same) (newest-length n (up ∷ down ∷ []));
}

abbrev parsers : Parsers
parsers = record {
  atoi = λ s. if str_eq s "2" then ok (pos 2) else err (failure "atoi");
  parse_bool = λ s. err (failure "bool");
  parse_rfc3339 = λ s. err (failure "time");
  parse_date = λ s. err (failure "time");
  to_upper = λ s. s;
  trim_space = λ s. s;
}

abbrev outages : String → String
outages key = if str_eq key "limit" then "2" else if str_eq key "type" then "downtime" else ""

abbrev outage_body : Counted AlertResponse
outage_body = record {
  items =
      record {
        id = "a1";
        monitor_id = "m1";
        type = downtime;
        severity = critical;
        message = is_down "Site";
        details = down_details "https://example.com" (pos 500) "" (hours 1);
        sent_at = hours 1;
        channels = [];
      }
      ∷ [];
  count = 1;
}

get_alert_history_bounds_example :
    (outage_body.count ≡ length outage_body.items)
    × IsWithin parsers outages outage_body.count
    × (outages "type" ≢ "" → All (HasType (outages "type")) outage_body.items)
unfolding get_alert_history to_alert_response webtracker.Web.History.fetch
    webtracker.Web.History.filter_type
get_alert_history_bounds_example =
    get_alert_history_bounds parsers outages alerts alerts-HonoursLimit "m1" tt 200 outage_body
      (inl refl) (λ _ e. ground (arith, e)) refl

abbrev no_service : MonitorServiceInterface (Unit {0})
no_service = record {
  create_monitor = λ req w. (err (failure "none"), w);
  get_monitor = λ id w. (err (failure "none"), w);
  list_monitors = λ f w. (ok [], w);
  update_monitor = λ id req w. (err (failure "none"), w);
  delete_monitor = λ id w. (ok tt, w);
}

abbrev dashboard : DashboardHandler (Unit {0})
dashboard = record {
  monitor_service = no_service;
  check_repo = none;
  alert_repo = alerts;
  get_uptime_percentage =
      some (λ id w. (ok (record { period_24h = 9950; period_7d = 10000; period_30d = 10000 }), w));
}

-- The repository of checks is missing, and the uptime is there.
entry_fetched : (fetch_monitor dashboard site tt).0 ≡ record {
  monitor = site;
  status = none;
  last_check = none;
  response_time = none;
  uptime_stats = some (record { period_24h = 9950; period_7d = 10000; period_30d = 10000 });
}
unfolding fetch_monitor
entry_fetched = refl
