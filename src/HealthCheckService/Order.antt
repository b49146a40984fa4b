-- ===== src/HealthCheckService/Order.antt =====
-- healthcheck_service.go: what an execution of a check stores, deletes, broadcasts and alerts, and
-- in which order.
use webtracker.Shared.{
  ap, ◌∙◌, ◌≡◌, refl, not, ◌||◌, Option, none, some, String, List, [], ◌∷◌, if◌then◌else◌, arith,
  inl, inr,
}
use webtracker.Shared.Int.{ℤ, leb_ℤ}
use webtracker.Shared.Clock.{Duration}
use webtracker.Shared.Errors.{Error, Result, Outcome, ok, err, Result-cases}
use webtracker.Shared.Effects.{pure, attempt, in_context, ◌>>◌, ◌>>=◌}
use webtracker.Shared.Log.{Logged}
use webtracker.Domain.HealthCheck.{HealthCheck, SslInfo, is_successful}
use webtracker.Domain.Monitor.{Monitor}
use webtracker.HealthCheckService.{
  Certificate, answered, ConnectionState, execute_check, Response, extract_ssl_info,
  extract_certificate, persisted, slowness, HealthCheckService, Call, check_created, key_deleted,
  check_broadcast, slowness_alerted, cache_suffixes, classify_error, persist_health_check,
  invalidate_keys, broadcast, finish,
}

-- The deletions of the monitor's metrics from the cache, the latest first.
abbrev pub deletions : String → List String → List Call → List Call
deletions id [] l = l
deletions id (suffix ∷ rest) l =
    deletions id rest (key_deleted (record { monitor_id = id; suffix = suffix }) ∷ l)

abbrev pub broadcast_calls : {B : Type 0} → Option B → HealthCheck → List Call → List Call
broadcast_calls none check l = l
broadcast_calls (some f) check l = check_broadcast check ∷ l

abbrev pub slowness_calls :
    {A : Type 0} → Option A → Monitor → HealthCheck → Duration → List Call → List Call
slowness_calls none monitor check threshold l = l
slowness_calls (some f) monitor check threshold l =
    if not (is_successful check) || leb_ℤ check.response_time threshold
    then l
    else slowness_alerted monitor check.response_time threshold ∷ l

answered-monitor :
    (check : HealthCheck) (code : ℤ) (ssl : Option SslInfo)
    → (answered check code ssl).monitor_id ≡ check.monitor_id
unfolding answered
answered-monitor check code none = refl
answered-monitor check code (some ssl) = ground arith

module _ {W : Type 0} (svc : HealthCheckService W) where
  -- The calls that store a check and make it known, from what the database answers.
  abbrev pub persist_calls : HealthCheck → Outcome → List Call → List Call
  persist_calls check (ok _) l =
      broadcast_calls svc.broadcast_update check
        (deletions check.monitor_id cache_suffixes (check_created check (ok tt) ∷ l))
  persist_calls check (err e) l = check_created check (err e) ∷ l

  abbrev pub all_calls : Monitor → HealthCheck → Outcome → List Call → List Call
  all_calls monitor check (ok _) l =
      slowness_calls svc.performance_alert monitor check svc.performance_threshold
        (persist_calls check (ok tt) l)
  all_calls monitor check (err e) l = persist_calls check (err e) l

  abbrev pub stored_as : Outcome → Outcome
  stored_as answer =
      in_context "failed to persist health check"
        (in_context "failed to save health check to database" answer)

  -- An execution that gave rise to one check.
  pub record IsExecution (monitor : Monitor) (id : String) (before after : List Call)
      (result : Result (HealthCheck × Outcome)) : Type 0 where
    pub check : HealthCheck
    pub answer : Outcome
    pub about : check.monitor_id ≡ id
    pub returned : result ≡ ok (check, stored_as answer)
    pub called : after ≡ all_calls monitor check answer before

  keys_lem :
      (id : String) (keys : List String) (s : Logged W Call)
      → ((invalidate_keys svc id keys s).0 ≡ ok tt)
        × ((invalidate_keys svc id keys s).1.log ≡ deletions id keys s.log)
  unfolding invalidate_keys
  keys_lem id [] s = (refl, refl)
  keys_lem id (suffix ∷ rest) s = keys_lem id rest _

  broadcast_lem :
      (check : HealthCheck) (s : Logged W Call)
      → ((broadcast svc svc.broadcast_update check s).0 ≡ ok tt)
        × ((broadcast svc svc.broadcast_update check s).1.log
            ≡ broadcast_calls svc.broadcast_update check s.log)
  unfolding broadcast
  broadcast_lem check s = ground arith

  -- What follows when the check is stored.
  known_lem :
      (check : HealthCheck) (s : Logged W Call)
      → let m =
          invalidate_keys svc check.monitor_id cache_suffixes
          >> broadcast svc svc.broadcast_update check in
        ((m s).0 ≡ ok tt)
        × ((m s).1.log
            ≡ broadcast_calls svc.broadcast_update check
                (deletions check.monitor_id cache_suffixes s.log))
  known_lem check s =
      let (e, l) = keys_lem check.monitor_id cache_suffixes s in
      let (e', l') =
        broadcast_lem check (invalidate_keys svc check.monitor_id cache_suffixes s).1 in
      ground (arith, e, l, e', l')

  persist_lem :
      (check : HealthCheck) (s : Logged W Call)
      → ((persist_health_check svc check s).0
          ≡ in_context "failed to save health check to database" (svc.create_check check s.world).0)
        × ((persist_health_check svc check s).1.log
            ≡ persist_calls check (svc.create_check check s.world).0 s.log)
  unfolding persist_health_check
  persist_lem check s = elim (Result-cases (svc.create_check check s.world).0) [
    | inl (a, e) ↦ ground (
      arith,
      e,
      known_lem check (record {
        world = (svc.create_check check s.world).1;
        log = check_created check (svc.create_check check s.world).0 ∷ s.log;
      }),
    )
    | inr (x, e) ↦ rw e (refl, refl)
  ]

  failed_lem :
      (monitor : Monitor) (check : HealthCheck) (e : Error) (s : Logged W Call)
      → IsExecution monitor check.monitor_id s.log
          (finish svc monitor check (err e) s).1.log
          (finish svc monitor check (err e) s).0
  unfolding finish classify_error
  failed_lem monitor check e s =
      let failed : HealthCheck = record check {
        status = classify_error svc e;
        error_message = svc.error_text e;
      } in
      record {
        check = failed;
        answer = (svc.create_check failed s.world).0;
        about = refl;
        returned = ground (arith, persist_lem failed s);
        called = ground (arith, persist_lem failed s);
      }

  slowness_lem :
      (monitor : Monitor) (check : HealthCheck) (s : Logged W Call)
      → ((slowness svc svc.performance_alert monitor check s).0 ≡ ok tt)
        × ((slowness svc svc.performance_alert monitor check s).1.log
            ≡ slowness_calls svc.performance_alert monitor check svc.performance_threshold s.log)
  unfolding slowness
  slowness_lem monitor check s = ground arith

  -- The end of the execution for a request that was answered.
  stored_lem :
      (monitor : Monitor) (check : HealthCheck) (s : Logged W Call)
      → let m = attempt (persist_health_check svc check) >>= persisted svc monitor check in
        ((m s).0 ≡ ok (check, stored_as (svc.create_check check s.world).0))
        × ((m s).1.log ≡ all_calls monitor check (svc.create_check check s.world).0 s.log)
  unfolding persisted
  stored_lem monitor check s = elim (Result-cases (svc.create_check check s.world).0) [
    | inl (a, e) ↦ ground (
      arith,
      e,
      persist_lem check s,
      slowness_lem monitor check (persist_health_check svc check s).1,
    )
    | inr (x, e) ↦ ground (arith, e, persist_lem check s)
  ]

  certificate_lem :
      (state : ConnectionState) (certs : List Certificate) (s : Logged W Call)
      → let m = extract_certificate svc state certs >>= λ ssl. pure (some ssl) in
        (ssl : Option SslInfo) × ((m s).0 ≡ ok ssl) × ((m s).1.log ≡ s.log)
  unfolding extract_certificate
  certificate_lem state [] s = (_, refl, refl)
  certificate_lem state (cert ∷ certs) s = (_, refl, refl)

  -- The certificate is read without an error and without a call that is noted.
  ssl_lem :
      (state : Option ConnectionState) (s : Logged W Call)
      → (ssl : Option SslInfo) × ((extract_ssl_info svc state s).0 ≡ ok ssl)
        × ((extract_ssl_info svc state s).1.log ≡ s.log)
  unfolding extract_ssl_info extract_certificate
  ssl_lem none s = (none, refl, refl)
  ssl_lem (some state) s = certificate_lem state state.peer_certificates s

  answered_lem :
      (monitor : Monitor) (check : HealthCheck) (response : Response) (s : Logged W Call)
      → IsExecution monitor check.monitor_id s.log
          (finish svc monitor check (ok response) s).1.log
          (finish svc monitor check (ok response) s).0
  unfolding finish
  answered_lem monitor check response s =
      let (ssl, e, l) = ssl_lem response.tls s in
      let done : HealthCheck = answered check response.status_code ssl in
      let t : Logged W Call = (extract_ssl_info svc response.tls s).1 in
      record {
        check = done;
        answer = (svc.create_check done t.world).0;
        about = answered-monitor check response.status_code ssl;
        returned = rw e (stored_lem monitor done t).0;
        called = rw e (
            (stored_lem monitor done t).1
            ∙ ap (all_calls monitor done (svc.create_check done t.world).0) l);
      }

  finish_lem :
      (monitor : Monitor) (check : HealthCheck) (r : Result Response) (s : Logged W Call)
      → IsExecution monitor check.monitor_id s.log
          (finish svc monitor check r s).1.log
          (finish svc monitor check r s).0
  finish_lem monitor check (ok response) s = answered_lem monitor check response s
  finish_lem monitor check (err e) s = failed_lem monitor check e s

  -- For a monitor that is found, an execution of its check gives rise to exactly one check of that
  -- monitor. It is stored first; if that fails, the error is returned beside the check, and there
  -- is no other call. Otherwise the seven keys of the monitor's metrics are deleted from the
  -- cache, then, where there is a broadcaster, the check is broadcast, and last, where there is an
  -- alert service, a successful check that took longer than the threshold gives rise to an alert;
  -- errors of the deletions and of the alert are not returned.
  pub execute_check-IsExecution :
      (id : String) (monitor : Monitor) (s : Logged W Call)
      → (svc.get_monitor id s.world).0 ≡ ok monitor
      → IsExecution monitor id s.log (execute_check svc id s).1.log (execute_check svc id s).0
  unfolding execute_check
  execute_check-IsExecution id monitor s found = rw found (finish_lem monitor _ _ _)
