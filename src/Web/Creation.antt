-- ===== src/Web/Creation.antt =====
-- handlers.go with usecase/monitor_service.go: what a request to create a monitor comes to.
use webtracker.Shared.{
  ℕ, ◌%◌, ◌≡◌, ◌⊎◌, inl, inr, refl, ap, ◌∙◌, Option, none, some, List, [], ◌∷◌, ◌++◌, if◌then◌else◌,
  arith,
}
use webtracker.Shared.Int.{to_bits, pos, div_int64}
use webtracker.Shared.Clock.{minutes}
use webtracker.Shared.Errors.{Error, ok, err, wrapped, Result-cases}
use webtracker.Shared.Log.{Logged}
use webtracker.Domain.Monitor.{Monitor, validate, IsValidMonitor, validate_iff}
use webtracker.MonitorService.{
  MonitorService, Call, monitor_created, scheduled, store_new, create_monitor, Scheduler,
}
use webtracker.Web.{answered, served_by, minutes_to_duration}
use webtracker.Web.Api.{
  CreateMonitorRequest, MonitorResponse, to_monitor_response, post_monitor, reply,
}
use webtracker.Web.Intervals.{shown_interval, two_53}

-- The calls that creating a monitor makes, the latest first.
abbrev pub creation_calls : {W : Type 0} → Option (Scheduler W) → Monitor → List Call
creation_calls none m = monitor_created m (ok tt) ∷ []
creation_calls (some f) m =
    if m.enabled
    then scheduled m ∷ monitor_created m (ok tt) ∷ []
    else monitor_created m (ok tt) ∷ []

-- What a request that is answered has done: it stored a valid monitor and scheduled it if it is
-- enabled, and the answer shows that monitor.
pub record IsCreated {W : Type 0} (svc : MonitorService W) (req : CreateMonitorRequest)
    (before after : List Call) (code : ℕ) (body : MonitorResponse) : Type 0 where
  pub monitor : Monitor
  pub status : code ≡ 201
  pub valid : IsValidMonitor svc.parse_url monitor
  pub calls : after ≡ creation_calls svc.scheduler monitor ++ before
  pub shown : body ≡ to_monitor_response monitor
  pub fields :
      (monitor.name ≡ req.name)
      × (monitor.url ≡ req.url)
      × (monitor.enabled ≡ req.enabled)
      × (monitor.alert_channels ≡ req.alert_channels)
  pub interval : body.check_interval ≡ pos (to_bits req.check_interval % two_53)

module _ {W : Type 0} (svc : MonitorService W) where
  calls_lem :
      (scheduler : Option (Scheduler W)) (m : Monitor) (s : Logged W Call)
      → svc.scheduler ≡ scheduler
      → validate svc.parse_url m ≡ ok tt
      → (svc.repo.create m s.world).0 ≡ ok tt
      → ((store_new svc m s).0 ≡ ok m)
        × ((store_new svc m s).1.log ≡ creation_calls svc.scheduler m ++ s.log)
  unfolding store_new
  calls_lem none m s e f g = ground (arith, e, f, g)
  calls_lem (some h) m s e f g = ground (arith, e, f, g)

  -- Storing fails, or does all that it should.
  stored_cases :
      (m : Monitor) (s : Logged W Call)
      → ((e : Error) × ((store_new svc m s).0 ≡ err e))
        ⊎ ((validate svc.parse_url m ≡ ok tt)
            × ((store_new svc m s).0 ≡ ok m)
            × ((store_new svc m s).1.log ≡ creation_calls svc.scheduler m ++ s.log))
  unfolding store_new
  stored_cases m s = elim (Result-cases (validate svc.parse_url m)) [
    | inr (x, e) ↦ inl (wrapped "monitor validation failed" x, rw (store_new, e) refl)
    | inl (u, e) ↦ elim (Result-cases (svc.repo.create m s.world).0) [
      | inr (x, f) ↦ inl (wrapped "failed to create monitor" x, rw (store_new, e, f) refl)
      | inl (v, f) ↦ let (r, l) = calls_lem svc.scheduler m s refl e f in inr (e, r, l)
    ]
  ]

  interval_lem :
      (req : CreateMonitorRequest) (m : Monitor) (body : MonitorResponse)
      → m.check_interval ≡ minutes_to_duration req.check_interval
      → (m.check_interval ≡ pos (minutes 1))
        ⊎ (m.check_interval ≡ pos (minutes 5))
        ⊎ (m.check_interval ≡ pos (minutes 15))
        ⊎ (m.check_interval ≡ pos (minutes 60))
      → body ≡ to_monitor_response m
      → body.check_interval ≡ pos (to_bits req.check_interval % two_53)
  unfolding to_monitor_response
  interval_lem req m body same valid shown =
      ap (λ (b : MonitorResponse). b.check_interval) shown
      ∙ (ap (λ d. div_int64 d (minutes 1)) same
          ∙ shown_interval req.check_interval (rw (← same) valid))

  created_lem :
      (req : CreateMonitorRequest) (m : Monitor) (s : Logged W Call) (code : ℕ)
      (body : MonitorResponse)
      → (m.name ≡ req.name)
        × (m.url ≡ req.url)
        × (m.enabled ≡ req.enabled)
        × (m.alert_channels ≡ req.alert_channels)
      → m.check_interval ≡ minutes_to_duration req.check_interval
      → reply 201 400 to_monitor_response (store_new svc m s).0 ≡ answered code body
      → IsCreated svc req s.log (store_new svc m s).1.log code body
  unfolding to_monitor_response
  created_lem req m s code body fields same h = elim (stored_cases m s) [
    | inl (e, f) ↦ absurd (let k = rw f at h in cc)
    | inr (v, f, l) ↦
        let k = rw f at h in
        let valid = (validate_iff svc.parse_url m).0 v in
        record {
          monitor = m;
          status = cc;
          valid = valid;
          calls = l;
          shown = cc;
          fields = fields;
          interval = interval_lem req m body same valid.interval cc;
        }
  ]

  -- A request to create a monitor that is answered with a body: the status is 201, and exactly one
  -- monitor was stored and, if it is enabled and there is a scheduler, scheduled. It is valid and has
  -- the name, the URL, the flag and the channels of the request, and the body shows it, with the low
  -- 53 bits of the requested number of minutes as its interval.
  pub post_monitor-IsCreated :
      (req : CreateMonitorRequest) (s : Logged W Call) (code : ℕ) (body : MonitorResponse)
      → (post_monitor (served_by svc) (ok req) s).0 ≡ answered code body
      → IsCreated svc req s.log (post_monitor (served_by svc) (ok req) s).1.log code body
  unfolding post_monitor create_monitor
  post_monitor-IsCreated req s code body h =
      created_lem req _ _ code body (refl, refl, refl, refl) refl h
