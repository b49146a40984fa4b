-- ===== src/MonitorService/Soundness.antt =====
-- monitor_service.go: no operation stores an invalid monitor or schedules one that is disabled or
-- was not stored.
use webtracker.Shared.{◌≡◌, true, false, String, List, [], ◌∷◌, arith, inl, inr}
use webtracker.Shared.Errors.{Result, ok, Result-cases}
use webtracker.Shared.Log.{Logged}
use webtracker.Domain.Monitor.{Monitor, ParsedUrl, validate}
use webtracker.MonitorService.{
  MonitorService, CreateMonitorRequest, UpdateMonitorRequest, Call, monitor_created,
  monitor_updated, monitor_deleted, scheduled, unscheduled, rescheduled, apply_update,
  update_schedule, store_new, store_update, create_monitor, update_monitor, delete_monitor,
  enable_monitor, disable_monitor, get_monitor, set_enabled,
}

abbrev Valid : (String → Result ParsedUrl) → Monitor → Type 0
Valid parse_url m = validate parse_url m ≡ ok tt

-- The monitor was stored without an error by one of the calls.
pub data Stored (m : Monitor) : List Call → Type 0 where
  by_create : {l : List Call} → Stored m (monitor_created m (ok tt) ∷ l)
  by_update : {l : List Call} → Stored m (monitor_updated m (ok tt) ∷ l)
  earlier : {c : Call} {l : List Call} → Stored m l → Stored m (c ∷ l)

-- Only valid monitors are stored, and only enabled ones are scheduled, after they were stored.
abbrev pub IsSound : (String → Result ParsedUrl) → List Call → Type 0
IsSound parse_url [] = Unit {0}
IsSound parse_url (monitor_created m r ∷ l) = Valid parse_url m × IsSound parse_url l
IsSound parse_url (monitor_updated m r ∷ l) = Valid parse_url m × IsSound parse_url l
IsSound parse_url (monitor_deleted id r ∷ l) = IsSound parse_url l
IsSound parse_url (scheduled m ∷ l) = (m.enabled ≡ true) × Stored m l × IsSound parse_url l
IsSound parse_url (unscheduled id ∷ l) = IsSound parse_url l
IsSound parse_url (rescheduled m ∷ l) = (m.enabled ≡ true) × Stored m l × IsSound parse_url l

Stored-new : (m : Monitor) (l : List Call) → Stored m (monitor_created m (ok tt) ∷ l)
Stored-new m l = by_create

Stored-update : (m : Monitor) (l : List Call) → Stored m (monitor_updated m (ok tt) ∷ l)
Stored-update m l = by_update

Stored-later : (m : Monitor) (c : Call) (l : List Call) → Stored m l → Stored m (c ∷ l)
Stored-later m c l s = earlier s

module _ {W : Type 0} (svc : MonitorService W) where
  abbrev Sound : List Call → Type 0
  Sound = IsSound svc.parse_url

  store_new-Sound :
      (m : Monitor) (s : Logged W Call) → Sound s.log → Sound (store_new svc m s).1.log
  unfolding store_new
  store_new-Sound m s p = ground (arith, Stored-new m s.log)

  update_schedule-Sound :
      (id : String) (existing updated : Monitor) (req : UpdateMonitorRequest) (s : Logged W Call)
      → Stored updated s.log
      → Sound s.log
      → Sound (update_schedule svc id existing updated req s).1.log
  unfolding update_schedule
  update_schedule-Sound id existing updated req s st p = ground (
    arith,
    Stored-later updated (scheduled updated) s.log st,
    Stored-later updated (unscheduled id) s.log st,
  )

  store_update-Sound :
      (id : String) (existing updated : Monitor) (req : UpdateMonitorRequest) (s : Logged W Call)
      → Sound s.log
      → Sound (store_update svc id existing updated req s).1.log
  unfolding store_update
  store_update-Sound id existing updated req s p = ground (
    arith,
    λ (v : Valid svc.parse_url updated).
        update_schedule-Sound id existing updated req
          (record {
            world = (svc.repo.update updated s.world).1;
            log = monitor_updated updated (ok tt) ∷ s.log;
          })
          (Stored-update updated s.log) (v, p),
  )

  update_monitor-Sound :
      (id : String) (req : UpdateMonitorRequest) (s : Logged W Call)
      → Sound s.log
      → Sound (update_monitor svc id req s).1.log
  unfolding update_monitor
  update_monitor-Sound id req s p = elim (Result-cases (svc.repo.get_by_id id s.world).0) [
    | inl (existing, e) ↦
        let w = (svc.repo.get_by_id id s.world).1 in
        ground (
          arith,
          store_update-Sound id existing (apply_update (svc.clock w).0 req existing) req
              (record { world = (svc.clock w).1; log = s.log }) p,
        )
    | inr (x, e) ↦ ground arith
  ]

  create_monitor-Sound :
      (req : CreateMonitorRequest) (s : Logged W Call)
      → Sound s.log
      → Sound (create_monitor svc req s).1.log
  unfolding create_monitor
  create_monitor-Sound req s p = store_new-Sound _ _ p

  delete_monitor-Sound :
      (id : String) (s : Logged W Call) → Sound s.log → Sound (delete_monitor svc id s).1.log
  unfolding delete_monitor
  delete_monitor-Sound id s p = ground arith

  enable_monitor-Sound :
      (id : String) (s : Logged W Call) → Sound s.log → Sound (enable_monitor svc id s).1.log
  unfolding enable_monitor get_monitor
  enable_monitor-Sound id s p = ground (
    arith,
    update_monitor-Sound id (set_enabled true)
        (record { world = (svc.repo.get_by_id id s.world).1; log = s.log }) p,
  )

  disable_monitor-Sound :
      (id : String) (s : Logged W Call) → Sound s.log → Sound (disable_monitor svc id s).1.log
  unfolding disable_monitor get_monitor
  disable_monitor-Sound id s p = ground (
    arith,
    update_monitor-Sound id (set_enabled false)
        (record { world = (svc.repo.get_by_id id s.world).1; log = s.log }) p,
  )

  pub data Request : Type 0 where
    create : CreateMonitorRequest → Request
    update : String → UpdateMonitorRequest → Request
    delete : String → Request
    enable : String → Request
    disable : String → Request

  unfoldable pub handle : Request → Logged W Call → Logged W Call
  handle (create req) s = (create_monitor svc req s).1
  handle (update id req) s = (update_monitor svc id req s).1
  handle (delete id) s = (delete_monitor svc id s).1
  handle (enable id) s = (enable_monitor svc id s).1
  handle (disable id) s = (disable_monitor svc id s).1

  unfoldable pub handle_all : List Request → Logged W Call → Logged W Call
  handle_all [] s = s
  handle_all (r ∷ rs) s = handle_all rs (handle r s)

  handle-Sound : (r : Request) (s : Logged W Call) → Sound s.log → Sound (handle r s).log
  unfolding handle
  handle-Sound (create req) s p = create_monitor-Sound req s p
  handle-Sound (update id req) s p = update_monitor-Sound id req s p
  handle-Sound (delete id) s p = delete_monitor-Sound id s p
  handle-Sound (enable id) s p = enable_monitor-Sound id s p
  handle-Sound (disable id) s p = disable_monitor-Sound id s p

  -- Whatever requests are handled and however the repository and the scheduler answer, every
  -- monitor that is sent to be stored is valid, and every monitor that is scheduled is enabled and
  -- was stored without an error before.
  pub handle_all-IsSound :
      (rs : List Request) (s : Logged W Call)
      → IsSound svc.parse_url s.log
      → IsSound svc.parse_url (handle_all rs s).log
  unfolding handle_all
  handle_all-IsSound [] s p = p
  handle_all-IsSound (r ∷ rs) s p = handle_all-IsSound rs (handle r s) (handle-Sound r s p)
