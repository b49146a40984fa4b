-- ===== src/Resilience/Repository/Degraded.antt =====
-- repository.go: what callers see while the database is down.
use webtracker.Shared.{◌≡◌, true, false, String, arith, str_eq, str_eq_refl}
use webtracker.Shared.Clock.{Instant}
use webtracker.Shared.Dict.{lookup-store, lookup-remove}
use webtracker.Shared.Errors.{Error, ok, err, failure, monitor_not_found, is_not_found}
use webtracker.Domain.Monitor.{Monitor}
use webtracker.Degradation.{DegradationManager, is_database_available, set_database_down}
use webtracker.Resilience.Repository.{
  ListFilters, MonitorRepository, State, create, get_by_id, list, update, delete,
}

module _ {W : Type 0} (primary : MonitorRepository W) where
  -- A lookup never fails with an error other than that the monitor was not found, whatever the
  -- database answers; a list never fails.
  pub reads_never_fail :
      (now : Instant) (id : String) (filters : ListFilters) (s : State W)
      → ((e : Error) → (get_by_id primary now id s).0 ≡ err e → is_not_found e ≡ true)
        × ((e : Error) → ¬ ((list primary now filters s).0 ≡ err e))
  unfolding get_by_id list
  reads_never_fail now id filters s = ground arith

  -- The state in which the next call runs, if the database is reported down in between.
  abbrev pub with_degrader : DegradationManager → State W → State W
  with_degrader d s = record s { degrader = d }

  -- A monitor that was written is served while the database is down, exactly as it was written;
  -- one that was deleted is not found; no other monitor's answer changes.
  pub degraded_reads :
      (now later : Instant) (m : Monitor) (other : String) (s : State W) (d : DegradationManager)
      → is_database_available d ≡ false
      → let found =
          λ (k : String) (t : State W). (get_by_id primary later k (with_degrader d t)).0 in
        ((create primary now m s).0 ≡ ok tt → found m.id (create primary now m s).1 ≡ ok m)
        × ((update primary now m s).0 ≡ ok tt → found m.id (update primary now m s).1 ≡ ok m)
        × ((delete primary m.id s).0 ≡ ok tt
            → found m.id (delete primary m.id s).1 ≡ err monitor_not_found)
        × (str_eq m.id other ≡ false
            → (found other (create primary now m s).1 ≡ found other s)
              × (found other (update primary now m s).1 ≡ found other s)
              × (found other (delete primary m.id s).1 ≡ found other s))
  unfolding create update delete get_by_id
  degraded_reads now later m other s d down = ground (
    arith,
    str_eq_refl m.id,
    lookup-store m.id m.id m s.cache,
    lookup-remove m.id m.id s.cache,
    lookup-store m.id other m s.cache,
    lookup-remove m.id other s.cache,
  )

  -- While the database is down every write is refused, and neither the database nor the cache
  -- is touched.
  pub writes_refused :
      (now : Instant) (m : Monitor) (id : String) (s : State W)
      → is_database_available s.degrader ≡ false
      → (create primary now m s ≡ (err (failure "database unavailable, cannot create monitor"), s))
        × (update primary now m s
            ≡ (err (failure "database unavailable, cannot update monitor"), s))
        × (delete primary id s ≡ (err (failure "database unavailable, cannot delete monitor"), s))
  unfolding create update delete
  writes_refused now m id s down = ground arith

  -- Any error of a write marks the database as down, also one that says only that the monitor is
  -- not there; and so does any error of a lookup that does not wrap `ErrMonitorNotFound`.
  pub errors_degrade :
      (now : Instant) (m : Monitor) (id : String) (e : Error) (s : State W)
      → is_database_available s.degrader ≡ true
      → let down = λ (t : State W). is_database_available t.degrader ≡ false in
        ((primary.update m s.world).0 ≡ err e → down (update primary now m s).1)
        × ((primary.delete id s.world).0 ≡ err e → down (delete primary id s).1)
        × ((primary.create m s.world).0 ≡ err e → down (create primary now m s).1)
        × ((primary.get_by_id id s.world).0 ≡ err e
            → is_not_found e ≡ false
            → down (get_by_id primary now id s).1)
  unfolding create update delete get_by_id is_database_available set_database_down
  errors_degrade now m id e s up = ground arith
