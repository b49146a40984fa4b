-- ===== src/MonitorService.antt =====
-- usecase/monitor_service.go: creating, changing and deleting monitors.
-- The repository, the scheduler (which may be nil), the clock, the id generator and `url.Parse` are
-- parameters over the state `W` of the world. Writes and calls of the scheduler are noted.
pub mod Soundness
pub mod Scheduling
use webtracker.Shared.{
  Bool, true, false, ◌&&◌, ◌||◌, not, Option, none, some, String, List, [], ◌∷◌, if◌then◌else◌,
  str_eq,
}
use webtracker.Shared.Clock.{Instant, Duration}
use webtracker.Shared.Errors.{Error, Result, Outcome, ok, err, failure}
use webtracker.Shared.Effects.{M, pure, fail, lift, context, ignored, ◌>>=◌, ◌>>◌}
use webtracker.Shared.Log.{Logged, quiet, reading, noted}
use webtracker.Domain.Monitor.{Monitor, AlertChannel, ParsedUrl, validate}
use webtracker.Resilience.Repository.{MonitorRepository, ListFilters}

pub record CreateMonitorRequest : Type 0 where
  pub name : String
  pub url : String
  pub check_interval : Duration
  pub enabled : Bool
  pub alert_channels : List AlertChannel

-- A nil field keeps what the monitor has.
pub record UpdateMonitorRequest : Type 0 where
  pub name : Option String
  pub url : Option String
  pub check_interval : Option Duration
  pub enabled : Option Bool
  pub alert_channels : Option (List AlertChannel)

-- The part of the interface `Scheduler` that is used.
pub record Scheduler (W : Type 0) : Type 0 where
  pub schedule_monitor : Monitor → M W (Unit {0})
  pub unschedule_monitor : String → M W (Unit {0})
  pub reschedule_monitor : Monitor → M W (Unit {0})

pub record MonitorService (W : Type 0) : Type 0 where
  pub clock : W → Instant × W
  pub new_id : W → String × W
  pub parse_url : String → Result ParsedUrl
  pub repo : MonitorRepository W
  pub scheduler : Option (Scheduler W)

pub data Call : Type 0 where
  monitor_created : Monitor → Outcome → Call
  monitor_updated : Monitor → Outcome → Call
  monitor_deleted : String → Outcome → Call
  scheduled : Monitor → Call
  unscheduled : String → Call
  rescheduled : Monitor → Call

abbrev pub or_keep : {A : Type 0} → Option A → A → A
or_keep none a = a
or_keep (some b) a = b

abbrev pub is_set : {A : Type 0} → Option A → Bool
is_set none = false
is_set (some a) = true

unfoldable pub apply_update : Instant → UpdateMonitorRequest → Monitor → Monitor
apply_update now req m = record m {
  updated_at = now;
  name = or_keep req.name m.name;
  url = or_keep req.url m.url;
  check_interval = or_keep req.check_interval m.check_interval;
  enabled = or_keep req.enabled m.enabled;
  alert_channels = or_keep req.alert_channels m.alert_channels;
}

-- The request that sets only the flag.
abbrev pub set_enabled : Bool → UpdateMonitorRequest
set_enabled b = record {
  name = none;
  url = none;
  check_interval = none;
  enabled = some b;
  alert_channels = none;
}

module _ {W : Type 0} (svc : MonitorService W) where
  abbrev pub S : Type 0
  S = Logged W Call

  -- The scheduler's errors are dropped.
  schedule : Option (Scheduler W) → Monitor → M S (Unit {0})
  schedule none m = pure tt
  schedule (some f) m = ignored (noted (λ _. scheduled m) (f.schedule_monitor m))

  unschedule : Option (Scheduler W) → String → M S (Unit {0})
  unschedule none id = pure tt
  unschedule (some f) id = ignored (noted (λ _. unscheduled id) (f.unschedule_monitor id))

  reschedule : Option (Scheduler W) → Monitor → M S (Unit {0})
  reschedule none m = pure tt
  reschedule (some f) m = ignored (noted (λ _. rescheduled m) (f.reschedule_monitor m))

  when : Bool → M S (Unit {0}) → M S (Unit {0})
  when true m = m
  when false m = pure tt

  -- Validate, store and schedule: `CreateMonitor` after the entity is made.
  unfoldable pub store_new : Monitor → M S Monitor
  unfolding schedule when
  store_new m = do
    context "monitor validation failed" (lift (validate svc.parse_url m))
    context "failed to create monitor" (noted (monitor_created m) (svc.repo.create m))
    when m.enabled (schedule svc.scheduler m)
    pure m

  unfoldable pub create_monitor : CreateMonitorRequest → M S Monitor
  create_monitor req = do
    id ← reading svc.new_id
    created ← reading svc.clock
    updated ← reading svc.clock
    store_new (record {
      id = id;
      name = req.name;
      url = req.url;
      check_interval = req.check_interval;
      enabled = req.enabled;
      alert_channels = req.alert_channels;
      created_at = created;
      updated_at = updated;
    })

  unfoldable pub get_monitor : String → M S Monitor
  get_monitor id =
      if str_eq id ""
      then fail (failure "monitor ID is required")
      else context "failed to get monitor" (quiet (svc.repo.get_by_id id))

  unfoldable pub list_monitors : ListFilters → M S (List Monitor)
  list_monitors filters = context "failed to list monitors" (quiet (svc.repo.list filters))

  -- The changes of the schedule after an update.
  unfoldable pub update_schedule :
      String → Monitor → Monitor → UpdateMonitorRequest → M S (Unit {0})
  unfolding schedule unschedule reschedule when
  update_schedule id existing updated req = do
    when (not existing.enabled && updated.enabled) (schedule svc.scheduler updated)
    when (existing.enabled && not updated.enabled) (unschedule svc.scheduler id)
    when (updated.enabled && (is_set req.check_interval || is_set req.url))
        (reschedule svc.scheduler updated)

  unfoldable pub store_update : String → Monitor → Monitor → UpdateMonitorRequest → M S Monitor
  store_update id existing updated req = do
    context "monitor validation failed" (lift (validate svc.parse_url updated))
    context "failed to update monitor" (noted (monitor_updated updated) (svc.repo.update updated))
    update_schedule id existing updated req
    pure updated

  unfoldable pub update_monitor : String → UpdateMonitorRequest → M S Monitor
  update_monitor id req = if str_eq id "" then fail (failure "monitor ID is required") else (do
    existing ← context "failed to get existing monitor" (quiet (svc.repo.get_by_id id))
    now ← reading svc.clock
    store_update id existing (apply_update now req existing) req)

  unfoldable pub delete_monitor : String → M S (Unit {0})
  unfolding unschedule when
  delete_monitor id = if str_eq id "" then fail (failure "monitor ID is required") else (do
    existing ← context "failed to get monitor for deletion" (quiet (svc.repo.get_by_id id))
    when existing.enabled (unschedule svc.scheduler id)
    context "failed to delete monitor" (noted (monitor_deleted id) (svc.repo.delete id)))

  unfoldable pub enable_monitor : String → M S (Unit {0})
  enable_monitor id = do
    monitor ← get_monitor id
    if monitor.enabled then pure tt else (do _ ← update_monitor id (set_enabled true); pure tt)

  unfoldable pub disable_monitor : String → M S (Unit {0})
  disable_monitor id = do
    monitor ← get_monitor id
    if monitor.enabled then (do _ ← update_monitor id (set_enabled false); pure tt) else pure tt
