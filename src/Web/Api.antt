-- ===== src/Web/Api.antt =====
-- interface/http/handlers.go: the JSON API for monitors. What is encoded is modelled, its encoding
-- is not. `gin.H{"error": err.Error()}` is `refused`, with the error.
use webtracker.Shared.{
  ℕ, Bool, Option, none, some, String, List, map, if◌then◌else◌, length, str_eq,
}
use mathlib.Core.Option
use webtracker.Domain.Monitor.{Monitor, AlertChannel}
use webtracker.Resilience.Repository.{ListFilters}
use webtracker.MonitorService
use webtracker.Web.{
  MonitorServiceInterface, Parsers, minutes_to_duration, Response, answered, refused,
}
use webtracker.Shared.Int.{ℤ, pos, ltb_ℤ, div_int64}
use webtracker.Shared.Clock.{Instant, Duration, minutes}
use webtracker.Shared.Errors.{Result, ok, err, failure}

pub record CreateMonitorRequest : Type 0 where
  pub name : String
  pub url : String
  pub check_interval : ℤ
  pub enabled : Bool
  pub alert_channels : List AlertChannel

pub record UpdateMonitorRequest : Type 0 where
  pub name : Option String
  pub url : Option String
  pub check_interval : Option ℤ
  pub enabled : Option Bool
  pub alert_channels : Option (List AlertChannel)

pub record MonitorResponse : Type 0 where
  pub id : String
  pub name : String
  pub url : String
  pub check_interval : ℤ
  pub enabled : Bool
  pub alert_channels : List AlertChannel
  pub created_at : Instant
  pub updated_at : Instant

-- `int(d.Minutes())`, without the rounding of floats, of which there is none for whole minutes.
abbrev pub whole_minutes : Duration → ℤ
whole_minutes d = div_int64 d (minutes 1)

unfoldable pub to_monitor_response : Monitor → MonitorResponse
to_monitor_response m = record {
  id = m.id;
  name = m.name;
  url = m.url;
  check_interval = whole_minutes m.check_interval;
  enabled = m.enabled;
  alert_channels = m.alert_channels;
  created_at = m.created_at;
  updated_at = m.updated_at;
}

unfoldable pub to_create_request : CreateMonitorRequest → MonitorService.CreateMonitorRequest
to_create_request req = record {
  name = req.name;
  url = req.url;
  check_interval = minutes_to_duration req.check_interval;
  enabled = req.enabled;
  alert_channels = req.alert_channels;
}

unfoldable pub to_update_request : UpdateMonitorRequest → MonitorService.UpdateMonitorRequest
to_update_request req = record {
  name = req.name;
  url = req.url;
  check_interval = Option.map minutes_to_duration req.check_interval;
  enabled = req.enabled;
  alert_channels = req.alert_channels;
}

-- The answer to a call of a service: a body, or an error with a status of its own.
abbrev pub reply : {A B : Type 0} → ℕ → ℕ → (A → B) → Result A → Response B
reply success error body (ok a) = answered success (body a)
reply success error body (err e) = refused error e

abbrev pub replying : {W A B : Type 0} → ℕ → ℕ → (A → B) → Result A × W → Response B × W
replying success error body (r, w) = (reply success error body r, w)

abbrev pub bad_request : {A : Type 0} → String → Response A
bad_request text = refused 400 (failure text)

module _ {W : Type 0} (svc : MonitorServiceInterface W) where
  -- `bound` is what `ShouldBindJSON` decoded.
  unfoldable pub post_monitor : Result CreateMonitorRequest → W → Response MonitorResponse × W
  unfolding to_create_request
  post_monitor (err e) w = (refused 400 e, w)
  post_monitor (ok req) w =
      replying 201 400 to_monitor_response (svc.create_monitor (to_create_request req) w)

  unfoldable pub api_get_monitor : String → W → Response MonitorResponse × W
  api_get_monitor id w =
      if str_eq id ""
      then (bad_request "monitor ID is required", w)
      else replying 200 404 to_monitor_response (svc.get_monitor id w)

  put_bound : String → Result UpdateMonitorRequest → W → Response MonitorResponse × W
  unfolding to_update_request
  put_bound id (err e) w = (refused 400 e, w)
  put_bound id (ok req) w =
      replying 200 400 to_monitor_response (svc.update_monitor id (to_update_request req) w)

  unfoldable pub put_monitor :
      String → Result UpdateMonitorRequest → W → Response MonitorResponse × W
  unfolding put_bound
  put_monitor id bound w =
      if str_eq id "" then (bad_request "monitor ID is required", w) else put_bound id bound w

  unfoldable pub api_delete_monitor : String → W → Response (Unit {0}) × W
  api_delete_monitor id w =
      if str_eq id ""
      then (bad_request "monitor ID is required", w)
      else replying 204 404 (λ u. u) (svc.delete_monitor id w)

-- A number that may be missing and may not be negative.
unfoldable pub parse_count : (String → Result ℤ) → String → ℤ → String → Result ℤ
parse_count atoi text default s = if str_eq s "" then ok default else elim (atoi s) [
  | err e ↦ err (failure text)
  | ok n ↦ if ltb_ℤ n (pos 0) then err (failure text) else ok n
]

unfoldable pub parse_enabled : (String → Result Bool) → String → Result (Option Bool)
parse_enabled parse_bool s = if str_eq s "" then ok none else elim (parse_bool s) [
  | err e ↦ err (failure "invalid enabled parameter")
  | ok b ↦ ok (some b)
]

abbrev pub with_parsed : {A B : Type 0} → Result A → (A → Result B) → Result B
with_parsed (ok a) f = f a
with_parsed (err e) f = err e

unfoldable pub parse_filters : Parsers → (String → String) → Result ListFilters
unfolding parse_count parse_enabled
parse_filters p query = with_parsed (parse_enabled p.parse_bool (query "enabled")) λ enabled.
    with_parsed (parse_count p.atoi "invalid limit parameter" (pos 100) (query "limit")) λ limit.
      with_parsed (parse_count p.atoi "invalid offset parameter" (pos 0) (query "offset"))
        λ offset. ok (record { enabled = enabled; limit = limit; offset = offset })

pub record MonitorsResponse : Type 0 where
  pub monitors : List MonitorResponse
  pub count : ℕ

abbrev pub monitors_response : List Monitor → MonitorsResponse
monitors_response ms = record {
  monitors = map to_monitor_response ms;
  count = length (map to_monitor_response ms);
}

module _ {W : Type 0} (p : Parsers) (svc : MonitorServiceInterface W) where
  list_filtered : Result ListFilters → W → Response MonitorsResponse × W
  list_filtered (err e) w = (refused 400 e, w)
  list_filtered (ok filters) w = replying 200 500 monitors_response (svc.list_monitors filters w)

  unfoldable pub api_list_monitors : (String → String) → W → Response MonitorsResponse × W
  unfolding list_filtered parse_filters
  api_list_monitors query w = list_filtered (parse_filters p query) w
