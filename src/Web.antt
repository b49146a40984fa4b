-- ===== src/Web.antt =====
-- interface/http: what the handlers share. The monitor service is an interface, which
-- `usecase.MonitorService` implements. A request is what gin hands out of it: path parameters, the
-- query and the form as functions that give "" for what is missing, and a body that was decoded.
pub mod Forms
pub mod Api
pub mod Intervals
pub mod Channels
pub mod Creation
pub mod History
pub mod System
pub mod Dashboard
pub mod Accounts
use webtracker.Shared.{
  ℕ, zero, suc, ◌+◌, ◌-◌, ◌*◌, ◌/◌, ◌%◌, ◌^◌, ◌≤◌, ◌<◌, ◌≡◌, ◌≢◌, ◌↔◌, ◌⊎◌, inl, inr, refl, sym, ap,
  ◌∙◌, Bool, true, false, not, ◌&&◌, ◌||◌, Option, none, some, String, List, [], ◌∷◌, ◌++◌, map,
  if◌then◌else◌, ltb, leb, ◌==◌, length, tally, All, any, is_empty, arith, length-append, str_eq,
  eq_iff, str_eq_ne, str_eq_refl, Bool-cases, Option-cases, ltb→lt, leb→le, lt→ltb,
}
use webtracker.Shared.Int.{
  from_bits, to_bits, ℤ, pos, negsuc, ltb_ℤ, leb_ℤ, eqb_ℤ, div_int64, add_int64, incr,
}
use webtracker.Shared.Clock.{Instant, Duration, minutes, hours, seconds}
use webtracker.Shared.Errors.{Error, Result, Outcome, ok, err, failure, wrapped, Result-cases}
use webtracker.Shared.Effects.{M, pure, fail, lift, context, attempt, ignored, ◌>>=◌, ◌>>◌}
use webtracker.Shared.Log.{Logged}
use webtracker.Domain.Monitor.{Monitor}
use webtracker.Resilience.Repository.{ListFilters}
use webtracker.MonitorService.{
  MonitorService, Call, CreateMonitorRequest, UpdateMonitorRequest, create_monitor, get_monitor,
  list_monitors, update_monitor, delete_monitor,
}

pub record MonitorServiceInterface (W : Type 0) : Type 0 where
  pub create_monitor : CreateMonitorRequest → M W Monitor
  pub get_monitor : String → M W Monitor
  pub list_monitors : ListFilters → M W (List Monitor)
  pub update_monitor : String → UpdateMonitorRequest → M W Monitor
  pub delete_monitor : String → M W (Unit {0})

abbrev pub served_by : {W : Type 0} → MonitorService W → MonitorServiceInterface (Logged W Call)
served_by svc = record {
  create_monitor = create_monitor svc;
  get_monitor = get_monitor svc;
  list_monitors = list_monitors svc;
  update_monitor = update_monitor svc;
  delete_monitor = delete_monitor svc;
}

-- `time.Duration(n) * time.Minute`, in 64 bits.
unfoldable pub minutes_to_duration : ℤ → Duration
minutes_to_duration n = from_bits (to_bits n * minutes 1)

-- `strconv.Atoi`, `strconv.ParseBool`, `time.Parse` in the two layouts, and package strings.
pub record Parsers : Type 0 where
  pub atoi : String → Result ℤ
  pub parse_bool : String → Result Bool
  pub parse_rfc3339 : String → Result Instant
  pub parse_date : String → Result Instant
  pub to_upper : String → String
  pub trim_space : String → String

-- A response with a body, or with the text of an error.
pub data Response (A : Type 0) : Type 0 where
  answered : ℕ → A → Response A
  refused : ℕ → Error → Response A
