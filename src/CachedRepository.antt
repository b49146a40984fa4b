-- ===== src/CachedRepository.antt =====
-- infrastructure/postgres/cached_monitor_repository.go: monitors in Redis in front of the database.
-- The repository in SQL and the Redis client are parameters over the state `W` of both. A key is
-- the id of a monitor behind the prefix "cache:monitor:", and is the id here.
pub mod Agreement
use webtracker.Shared.{Option, none, some, String, List}
use webtracker.Shared.Int.{pos}
use webtracker.Shared.Clock.{Duration, minutes}
use webtracker.Shared.Errors.{Result, Outcome, ok, err}
use webtracker.Shared.Effects.{M, pure, context, attempt, ignored, ◌>>=◌, ◌>>◌}
use webtracker.Domain.Monitor.{Monitor}
use webtracker.Resilience.Repository.{MonitorRepository, ListFilters}

-- `GetJSON`, `SetJSON` and `Delete` of the Redis client at the keys of monitors.
pub record MonitorCache (W : Type 0) : Type 0 where
  pub get_json : String → M W (Option Monitor)
  pub set_json : String → Monitor → Duration → M W (Unit {0})
  pub delete : String → M W (Unit {0})

abbrev pub monitor_cache_ttl : Duration
monitor_cache_ttl = pos (minutes 5)

module _ {W : Type 0} (repo : MonitorRepository W) (cache : MonitorCache W) where
  unfoldable pub cache_monitor : Monitor → M W (Unit {0})
  cache_monitor m = context "failed to cache monitor" (cache.set_json m.id m monitor_cache_ttl)

  unfoldable pub invalidate_cache : String → M W (Unit {0})
  invalidate_cache id = context "failed to invalidate cache" (cache.delete id)

  unfoldable pub create : Monitor → M W (Unit {0})
  unfolding cache_monitor
  create m = do repo.create m; ignored (cache_monitor m)

  unfoldable pub from_database : String → M W Monitor
  unfolding cache_monitor
  from_database id = do m ← repo.get_by_id id; ignored (cache_monitor m); pure m

  unfoldable pub after_lookup : String → Result (Option Monitor) → M W Monitor
  unfolding from_database
  after_lookup id (ok (some m)) = pure m
  after_lookup id (ok none) = from_database id
  after_lookup id (err e) = from_database id

  unfoldable pub get_by_id : String → M W Monitor
  unfolding after_lookup
  get_by_id id = attempt (cache.get_json id) >>= after_lookup id

  unfoldable pub list : ListFilters → M W (List Monitor)
  list filters = repo.list filters

  unfoldable pub update : Monitor → M W (Unit {0})
  unfolding invalidate_cache
  update m = do repo.update m; ignored (invalidate_cache m.id)

  unfoldable pub delete : String → M W (Unit {0})
  unfolding invalidate_cache
  delete id = do repo.delete id; ignored (invalidate_cache id)

  -- As the repository that other components call.
  abbrev pub repository : MonitorRepository W
  repository = record {
    create = create;
    get_by_id = get_by_id;
    list = list;
    update = update;
    delete = delete;
  }
