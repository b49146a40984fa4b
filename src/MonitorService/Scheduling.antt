-- ===== src/MonitorService/Scheduling.antt =====
-- monitor_service.go: what an update does to the schedule.
use webtracker.Shared.{
  ◌≡◌, Bool, true, false, ◌&&◌, ◌||◌, not, Option, none, some, String, List, [], ◌∷◌,
}
use webtracker.Shared.Errors.{ok}
use webtracker.Shared.Log.{Logged}
use webtracker.Shared.Clock.{Instant}
use webtracker.Domain.Monitor.{Monitor, validate}
use webtracker.MonitorService.{
  MonitorService, UpdateMonitorRequest, Call, monitor_updated, scheduled, unscheduled, rescheduled,
  is_set,
}

abbrev when_list : Bool → Call → List Call → List Call
when_list true c l = c ∷ l
when_list false c l = l

-- The calls of the scheduler, the latest first.
abbrev pub schedule_calls :
    String → Monitor → Monitor → UpdateMonitorRequest → List Call → List Call
schedule_calls id existing updated req l =
    when_list (updated.enabled && (is_set req.check_interval || is_set req.url))
      (rescheduled updated)
      (when_list (existing.enabled && not updated.enabled) (unscheduled id)
        (when_list (not existing.enabled && updated.enabled) (scheduled updated) l))

-- A field after a request that may name a new value.
abbrev pub Requested : {A : Type 0} → Option A → A → A → Type 0
Requested none old new = new ≡ old
Requested (some value) old new = new ≡ value

-- The fields that are requested are changed, and the time of the update; the others are kept.
pub record IsChanged (now : Instant) (req : UpdateMonitorRequest) (old new : Monitor) : Type 0 where
  pub id : new.id ≡ old.id
  pub created_at : new.created_at ≡ old.created_at
  pub updated_at : new.updated_at ≡ now
  pub name : Requested req.name old.name new.name
  pub url : Requested req.url old.url new.url
  pub check_interval : Requested req.check_interval old.check_interval new.check_interval
  pub enabled : Requested req.enabled old.enabled new.enabled
  pub alert_channels : Requested req.alert_channels old.alert_channels new.alert_channels

-- What is scheduled for the monitor after calls, the latest first.
abbrev pub schedule_after : List Call → Option Monitor → Option Monitor
schedule_after [] before = before
schedule_after (scheduled m ∷ l) before = some m
schedule_after (rescheduled m ∷ l) before = some m
schedule_after (unscheduled id ∷ l) before = none
schedule_after (_ ∷ l) before = schedule_after l before

-- A monitor is scheduled exactly if it is enabled, with its URL and its interval.
abbrev pub InSync : Monitor → Option Monitor → Type 0
InSync m none = m.enabled ≡ false
InSync m (some x) = (m.enabled ≡ true) × (x.url ≡ m.url) × (x.check_interval ≡ m.check_interval)

module _ {W : Type 0} (svc : MonitorService W) where
  abbrev found : String → Logged W Call → W
  found id s = (svc.repo.get_by_id id s.world).1

  -- What an update does that returns a monitor.
  pub record IsUpdate (id : String) (req : UpdateMonitorRequest) (m : Monitor)
      (before after : Logged W Call) : Type 0 where
    pub existing : Monitor
    pub loaded : (svc.repo.get_by_id id before.world).0 ≡ ok existing
    pub changed : IsChanged (svc.clock (found id before)).0 req existing m
    pub valid : validate svc.parse_url m ≡ ok tt
    pub stored : (svc.repo.update m (svc.clock (found id before)).1).0 ≡ ok tt
    pub calls :
        after.log ≡ schedule_calls id existing m req (monitor_updated m (ok tt) ∷ before.log)
    pub in_sync :
        (o : Option Monitor)
        → InSync existing o
        → InSync m (schedule_after (schedule_calls id existing m req []) o)
