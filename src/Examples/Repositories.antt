-- ===== src/Examples/Repositories.antt =====
-- The repositories that fall back on a cache, over a database in memory.
use webtracker.Shared.{◌≡◌, refl, true, false, none, some, String, List, [], ◌∷◌, arith, str_eq}
use webtracker.Shared.Int.{pos}
use webtracker.Shared.Clock.{seconds}
use webtracker.Shared.Dict.{lookup}
use webtracker.Shared.Errors.{ok, err, failure, monitor_not_found, is_not_found}
use webtracker.Domain.Monitor.{Monitor}
use webtracker.Domain.HealthCheck.{HealthCheck}
use webtracker.Degradation.{DegradationManager, mode_normal, is_database_available}
use webtracker.Resilience.HealthChecks.{Guarded, HealthCheckRepository}
use webtracker.Resilience.Repository.{
  ListFilters, MonitorRepository, State, create, get_by_id, list, update, delete,
}
use webtracker.Resilience.Repository.Coherence.{
  content, Op, creates, gets, updates, deletes, database_down, run, lookups_agree,
}
use webtracker.Resilience.Repository.Degraded.{with_degrader, degraded_reads, errors_degrade}
use webtracker.Examples.Data.{site}
use webtracker.Examples.Modes.{down}
use webtracker.Examples.Monitors.{Table, memory, memory-Faithful}

abbrev up : DegradationManager
up = record down { mode = mode_normal }

abbrev start : State Table
start = record { cache = []; cache_time = []; degrader = up; world = ("m1", site) ∷ [] }

abbrev renamed : Monitor
renamed = record site { name = "renamed" }

abbrev ops : List (Op memory memory-Faithful)
ops = gets (seconds 1) "m1" ∷ updates (seconds 2) renamed ∷ database_down ∷ []

found_in_cache :
    (get_by_id memory (seconds 3) "m1" (run memory memory-Faithful start ops)).0 ≡ ok renamed
unfolding run get_by_id webtracker.Resilience.Repository.Coherence.step update
    webtracker.Resilience.Repository.mark_down lookup webtracker.Shared.Dict.store
    is_database_available webtracker.Degradation.set_database_down
found_in_cache = refl

lookups_agree_example :
    memory-Faithful.stored (run memory memory-Faithful start ops).world "m1"
    ≡ some (content renamed)
lookups_agree_example =
    lookups_agree memory memory-Faithful start ops (seconds 3) "m1" renamed refl found_in_cache

abbrev no_filters : ListFilters
no_filters = record { enabled = none; limit = pos 10; offset = pos 0 }

down_lacks_database : is_database_available down ≡ false
unfolding is_database_available
down_lacks_database = refl

up_has_database : is_database_available up ≡ true
unfolding is_database_available
up_has_database = refl

degraded_reads_example :
    let found = λ (k : String) (t : State Table).
      (get_by_id memory (seconds 9) k (with_degrader memory down t)).0 in
    ((create memory (seconds 1) site start).0 ≡ ok tt
      → found "m1" (create memory (seconds 1) site start).1 ≡ ok site)
    × ((update memory (seconds 1) site start).0 ≡ ok tt
        → found "m1" (update memory (seconds 1) site start).1 ≡ ok site)
    × ((delete memory "m1" start).0 ≡ ok tt
        → found "m1" (delete memory "m1" start).1 ≡ err monitor_not_found)
    × (str_eq "m1" "m2" ≡ false
        → (found "m2" (create memory (seconds 1) site start).1 ≡ found "m2" start)
          × (found "m2" (update memory (seconds 1) site start).1 ≡ found "m2" start)
          × (found "m2" (delete memory "m1" start).1 ≡ found "m2" start))
degraded_reads_example =
    degraded_reads memory (seconds 1) (seconds 9) site "m2" start down down_lacks_database

-- A database that refuses every write, and says so only in words when a monitor is not there.
abbrev strict : MonitorRepository Table
strict = record memory {
  create = λ m w. (err (failure "duplicate id"), w);
  get_by_id = λ id w. (err (failure "monitor not found"), w);
  update = λ m w. (err monitor_not_found, w);
  delete = λ id w. (err monitor_not_found, w);
}

errors_degrade_example :
    let down_in = λ (t : State Table). is_database_available t.degrader ≡ false in
    ((strict.update site start.world).0 ≡ err monitor_not_found
      → down_in (update strict (seconds 1) site start).1)
    × ((strict.delete "m1" start.world).0 ≡ err monitor_not_found
        → down_in (delete strict "m1" start).1)
    × ((strict.create site start.world).0 ≡ err monitor_not_found
        → down_in (create strict (seconds 1) site start).1)
    × ((strict.get_by_id "m1" start.world).0 ≡ err monitor_not_found
        → is_not_found monitor_not_found ≡ false
        → down_in (get_by_id strict (seconds 1) "m1" start).1)
errors_degrade_example =
    errors_degrade strict (seconds 1) site "m1" monitor_not_found start up_has_database

-- A table of checks that is never there.
abbrev broken : HealthCheckRepository (List HealthCheck)
broken = record {
  create = λ c w. (err (failure "refused"), w);
  get_by_monitor_id = λ id n w. (err (failure "refused"), w);
  get_by_date_range = λ id a b w. (err (failure "refused"), w);
  delete_older_than = λ t w. (err (failure "refused"), w);
}

abbrev guarded_start : Guarded (List HealthCheck)
guarded_start = record { degrader = up; world = [] }
