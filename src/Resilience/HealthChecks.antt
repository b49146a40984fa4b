-- ===== src/Resilience/HealthChecks.antt =====
-- infrastructure/resilience/repository.go: the health check repository that drops what it cannot
-- store. The wrapped repository is a parameter; the loggers are left out.
use webtracker.Shared.{◌≡◌, false, String, List, [], if◌then◌else◌, arith}
use webtracker.Shared.Clock.{Instant}
use webtracker.Shared.Int.{ℤ}
use webtracker.Shared.Errors.{Result, ok, err}
use webtracker.Shared.Effects.{M}
use webtracker.Domain.HealthCheck.{HealthCheck}
use webtracker.Degradation.{DegradationManager, is_database_available, set_database_down}

-- `domain.HealthCheckRepository`, over the state `W` of the database.
pub record HealthCheckRepository (W : Type 0) : Type 0 where
  pub create : HealthCheck → M W (Unit {0})
  pub get_by_monitor_id : String → ℤ → M W (List HealthCheck)
  pub get_by_date_range : String → Instant → Instant → M W (List HealthCheck)
  pub delete_older_than : Instant → M W (Unit {0})

pub record Guarded (W : Type 0) : Type 0 where
  pub degrader : DegradationManager
  pub world : W

module _ {W A : Type 0} (fallback : A) where
  -- An error is reported to the degradation manager and replaced.
  or_fallback : Result A × W → DegradationManager → Result A × Guarded W
  or_fallback (ok a, w) d = (ok a, record { degrader = d; world = w })
  or_fallback (err e, w) d = (ok fallback, record { degrader = set_database_down d; world = w })

  -- The shape of the four methods.
  guarded : M W A → M (Guarded W) A
  unfolding or_fallback
  guarded m s =
      if is_database_available s.degrader
      then or_fallback (m s.world) s.degrader
      else (ok fallback, s)

module _ {W : Type 0} (primary : HealthCheckRepository W) where
  unfoldable pub create : HealthCheck → M (Guarded W) (Unit {0})
  unfolding guarded
  create check = guarded tt (primary.create check)

  unfoldable pub get_by_monitor_id : String → ℤ → M (Guarded W) (List HealthCheck)
  unfolding guarded
  get_by_monitor_id id limit = guarded [] (primary.get_by_monitor_id id limit)

  unfoldable pub get_by_date_range : String → Instant → Instant → M (Guarded W) (List HealthCheck)
  unfolding guarded
  get_by_date_range id start end_ = guarded [] (primary.get_by_date_range id start end_)

  unfoldable pub delete_older_than : Instant → M (Guarded W) (Unit {0})
  unfolding guarded
  delete_older_than before = guarded tt (primary.delete_older_than before)

  abbrev pub Succeeds {ℓ} : {A : Type ℓ} → Result A → Type 0
  Succeeds (ok a) = Unit {0}
  Succeeds (err e) = ⊥

  -- No method ever returns an error, so that monitoring goes on without the database; while it
  -- is down the database is not called.
  pub health_checks_never_fail :
      (check : HealthCheck) (id : String) (limit : ℤ) (start end_ : Instant) (s : Guarded W)
      → Succeeds (create check s).0
        × Succeeds (get_by_monitor_id id limit s).0
        × Succeeds (get_by_date_range id start end_ s).0
        × Succeeds (delete_older_than start s).0
        × (is_database_available s.degrader ≡ false
            → ((create check s).1 ≡ s)
              × (get_by_monitor_id id limit s ≡ (ok [], s))
              × (get_by_date_range id start end_ s ≡ (ok [], s))
              × ((delete_older_than start s).1 ≡ s))
  unfolding create get_by_monitor_id get_by_date_range delete_older_than
  health_checks_never_fail check id limit start end_ s = ground arith
