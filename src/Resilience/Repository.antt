-- ===== src/Resilience/Repository.antt =====
-- infrastructure/resilience/repository.go: the monitor repository that falls back on its own cache.
-- The wrapped repository is a parameter. The degradation manager, which other components share,
-- is part of the state, and so are the two maps of the cache; the loggers, and the test of the
-- cache's age that decides only on a log line, are left out.
pub mod Coherence
pub mod Degraded
use webtracker.Shared.{Bool, true, false, Option, none, some, String, List, [], ◌∷◌, if◌then◌else◌}
use webtracker.Shared.Clock.{Instant}
use webtracker.Shared.Dict.{lookup, store, remove}
use webtracker.Shared.Errors.{
  Error, Result, Outcome, ok, err, failure, monitor_not_found, is_not_found,
}
use webtracker.Shared.Effects.{M}
use webtracker.Shared.Int.{ℤ}
use webtracker.Domain.Monitor.{Monitor}
use webtracker.Degradation.{DegradationManager, is_database_available, set_database_down}

pub record ListFilters : Type 0 where
  pub enabled : Option Bool
  pub limit : ℤ
  pub offset : ℤ

-- `domain.MonitorRepository`, over the state `W` of the database.
pub record MonitorRepository (W : Type 0) : Type 0 where
  pub create : Monitor → M W (Unit {0})
  pub get_by_id : String → M W Monitor
  pub list : ListFilters → M W (List Monitor)
  pub update : Monitor → M W (Unit {0})
  pub delete : String → M W (Unit {0})

pub record State (W : Type 0) : Type 0 where
  pub cache : List (String × Monitor)
  pub cache_time : List (String × Instant)
  pub degrader : DegradationManager
  pub world : W

abbrev same_flag : Bool → Bool → Bool
same_flag true b = b
same_flag false true = false
same_flag false false = true

-- The filter that the fallback of `List` applies.
abbrev pub passes : Option Bool → Monitor → Bool
passes none m = true
passes (some b) m = same_flag b m.enabled

unfoldable pub cached_monitors : Option Bool → List (String × Monitor) → List Monitor
cached_monitors flag [] = []
cached_monitors flag ((k, m) ∷ c) =
    let rest = cached_monitors flag c in if passes flag m then m ∷ rest else rest

module _ {W : Type 0} where
  unfoldable pub cache_monitor : Instant → Monitor → State W → State W
  cache_monitor now m s = record s {
    cache = store m.id m s.cache;
    cache_time = store m.id now s.cache_time;
  }

  unfoldable pub cache_all : Instant → List Monitor → State W → State W
  unfolding cache_monitor
  cache_all now [] s = s
  cache_all now (m ∷ ms) s = cache_all now ms (cache_monitor now m s)

  unfoldable pub uncache : String → State W → State W
  uncache id s = record s { cache = remove id s.cache; cache_time = remove id s.cache_time }

  unfoldable pub mark_down : State W → State W
  mark_down s = record s { degrader = set_database_down s.degrader }

  -- A call of the wrapped repository.
  abbrev pub call {ℓ} : {A : Type ℓ} → (W → Result A × W) → State W → Result A × State W
  call m s = let (r, w) = m s.world in (r, record s { world = w })

  after_write : (State W → State W) → Outcome × State W → Outcome × State W
  unfolding mark_down
  after_write then_do (ok _, s) = (ok tt, then_do s)
  after_write then_do (err e, s) = (err e, mark_down s)

  -- The shape of `Create`, `Update` and `Delete`.
  write : String → M W (Unit {0}) → (State W → State W) → M (State W) (Unit {0})
  unfolding after_write
  write refusal m then_do s =
      if is_database_available s.degrader
      then after_write then_do (call m s)
      else (err (failure refusal), s)

  from_cache : String → M (State W) Monitor
  from_cache id s = elim (lookup id s.cache) [
    | none ↦ (err monitor_not_found, s)
    | some m ↦ (ok m, s)
  ]

  after_get : Instant → String → Result Monitor × State W → Result Monitor × State W
  unfolding cache_monitor mark_down from_cache
  after_get now id (ok m, s) = (ok m, cache_monitor now m s)
  after_get now id (err e, s) = if is_not_found e then (err e, s) else from_cache id (mark_down s)

  after_list :
      Instant → ListFilters → Result (List Monitor) × State W → Result (List Monitor) × State W
  unfolding cache_all mark_down
  after_list now filters (ok ms, s) = (ok ms, cache_all now ms s)
  after_list now filters (err e, s) = (ok (cached_monitors filters.enabled s.cache), mark_down s)

module _ {W : Type 0} (primary : MonitorRepository W) where
  unfoldable pub create : Instant → Monitor → M (State W) (Unit {0})
  unfolding write cache_monitor
  create now m =
      write "database unavailable, cannot create monitor" (primary.create m) (cache_monitor now m)

  unfoldable pub get_by_id : Instant → String → M (State W) Monitor
  unfolding after_get from_cache
  get_by_id now id s =
      if is_database_available s.degrader
      then after_get now id (call (primary.get_by_id id) s)
      else from_cache id s

  unfoldable pub list : Instant → ListFilters → M (State W) (List Monitor)
  unfolding after_list
  list now filters s =
      if is_database_available s.degrader
      then after_list now filters (call (primary.list filters) s)
      else (ok (cached_monitors filters.enabled s.cache), s)

  unfoldable pub update : Instant → Monitor → M (State W) (Unit {0})
  unfolding write cache_monitor
  update now m =
      write "database unavailable, cannot update monitor" (primary.update m) (cache_monitor now m)

  unfoldable pub delete : String → M (State W) (Unit {0})
  unfolding write uncache
  delete id = write "database unavailable, cannot delete monitor" (primary.delete id) (uncache id)
