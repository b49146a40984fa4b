-- ===== src/Examples/Caches.antt =====
-- The repository with a cache in Redis, over a database and a cache in memory. Like the real one,
-- the database sets the time of an update itself.
use webtracker.Shared.{
  ◌≡◌, ◌⊎◌, inl, inr, refl, ap, Bool, true, false, Option, none, some, String, List, [], ◌∷◌, arith,
  str_eq, eq_iff, if◌then◌else◌, Bool-cases,
}
use webtracker.Shared.Dict.{lookup, store, remove, lookup-store, lookup-remove}
use webtracker.Shared.Errors.{Error, Result, Outcome, ok, err, failure, monitor_not_found}
use webtracker.Domain.Monitor.{Monitor}
use webtracker.Resilience.Repository.{MonitorRepository}
use webtracker.Resilience.Repository.Coherence.{Faithful, content}
use webtracker.Shared.Clock.{hours}
use webtracker.CachedRepository.{MonitorCache, get_by_id}
use webtracker.CachedRepository.Agreement.{
  IsCache, Op, creates, gets, updates, run, cached_lookups_agree,
}
use webtracker.Examples.Data.{site}

record Both : Type 0 where
  table : List (String × Monitor)
  entries : List (String × Monitor)

abbrev row_content : Option Monitor → Option Monitor
row_content none = none
row_content (some m) = some (content m)

row_removed :
    (b : Bool) (o : Option Monitor)
    → row_content (if b then none else o) ≡ (if b then none else row_content o)
row_removed true o = refl
row_removed false o = refl

-- A row under the id that it has.
abbrev row : String → Option Monitor → Result Monitor
row id none = err monitor_not_found
row id (some m) = if str_eq m.id id then ok m else err monitor_not_found

row_ok :
    (id : String) (o : Option Monitor) (m : Monitor) → row id o ≡ ok m → (o ≡ some m) × (m.id ≡ id)
row_ok id none m e = ground arith
row_ok id (some n) m e = ground (arith, eq_iff n.id id)

abbrev insert : Monitor → Option Monitor → Both → Outcome × Both
insert m none w = (ok tt, record w { table = store m.id m w.table })
insert m (some n) w = (err (failure "duplicate key"), w)

abbrev database : MonitorRepository Both
database = record {
  create = λ m w. insert m (lookup m.id w.table) w;
  get_by_id = λ id w. (row id (lookup id w.table), w);
  list = λ f w. (ok [], w);
  update =
      λ m w. (ok tt, record w { table = store m.id (record m { updated_at = hours 7 }) w.table });
  delete = λ id w. (ok tt, record w { table = remove id w.table });
}

row_stored :
    (m : Monitor) (id k : String) (n : Monitor) (table : List (String × Monitor))
    → content n ≡ content m
    → row_content (lookup k (store id n table))
      ≡ (if str_eq id k then some (content m) else row_content (lookup k table))
row_stored m id k n table e = elim (Bool-cases (str_eq id k)) [
  | inl f ↦ rw (lookup-store id k n table, f, e) refl
  | inr f ↦ rw (lookup-store id k n table, f) refl
]

insert_ok :
    (m : Monitor) (o : Option Monitor) (w : Both) (k : String)
    → (insert m o w).0 ≡ ok tt
    → (row_content (lookup k (insert m o w).1.table)
        ≡ (if str_eq m.id k then some (content m) else row_content (lookup k w.table)))
      × (o ≡ none)
insert_ok m none w k e = (row_stored m m.id k m w.table refl, refl)
insert_ok m (some n) w k e = cc

insert_err :
    (m : Monitor) (o : Option Monitor) (w : Both) (k : String) (x : Error)
    → (insert m o w).0 ≡ err x
    → lookup k (insert m o w).1.table ≡ lookup k w.table
insert_err m none w k x e = cc
insert_err m (some n) w k x e = refl

insert_entries :
    (m : Monitor) (o : Option Monitor) (w : Both) → (insert m o w).1.entries ≡ w.entries
insert_entries m none w = refl
insert_entries m (some n) w = refl

database-Faithful : Faithful database
database-Faithful = record {
  stored = λ w k. row_content (lookup k w.table);
  create_ok = λ m w k e. (insert_ok m (lookup m.id w.table) w k e).0;
  create_err = λ m w k x e. ap row_content (insert_err m (lookup m.id w.table) w k x e);
  update_ok = λ m w k e. row_stored m m.id k (record m { updated_at = hours 7 }) w.table refl;
  update_err = λ m w k x e. absurd (ground (arith, e));
  delete_ok =
      λ id w k e. rw (lookup-remove id k w.table) (row_removed (str_eq id k) (lookup k w.table));
  delete_err = λ id w k x e. absurd (ground (arith, e));
  get_keeps = λ id w k. refl;
  get_ok = λ id w m e. let (f, same) = row_ok id (lookup id w.table) m e in (rw f refl, same);
  list_keeps = λ f w k. refl;
  list_ok = λ f w ms e. ground (arith, e);
}

abbrev cache : MonitorCache Both
cache = record {
  get_json = λ id w. (ok (lookup id w.entries), w);
  set_json = λ id m ttl w. (ok tt, record w { entries = store id m w.entries });
  delete = λ id w. (ok tt, record w { entries = remove id w.entries });
}

abbrev held : Both → String → Option Monitor
held w k = lookup k w.entries

set_lem :
    (id k : String) (m n : Monitor) (l : List (String × Monitor))
    → lookup k (store id m l) ≡ some n
    → (lookup k l ≡ some n) ⊎ ((k ≡ id) × (n ≡ m))
set_lem id k m n l e = elim (Bool-cases (str_eq id k)) [
  | inl f ↦ inr (ground (arith, f, e, eq_iff id k, lookup-store id k m l))
  | inr f ↦ inl (ground (arith, f, e, lookup-store id k m l))
]

cache-IsCache : IsCache database database-Faithful cache held
unfolding database-Faithful
cache-IsCache = record {
  get_held = λ id k m w e. e;
  get_ok = λ id m w e. ground (arith, e);
  get_apart = λ id k w. refl;
  set_held = λ id k m n ttl w e. set_lem id k m n w.entries e;
  set_apart = λ id k m ttl w. refl;
  delete_held = λ id k m w e. ground (arith, e, lookup-remove id k w.entries);
  delete_apart = λ id k w. refl;
  create_new = λ m w e. ap row_content (insert_ok m (lookup m.id w.table) w m.id e).1;
  create_apart = λ m w k. rw (insert_entries m (lookup m.id w.table) w) refl;
  update_apart = λ m w k. refl;
  repo_delete_apart = λ id w k. refl;
  repo_get_apart = λ id w k. refl;
  list_apart = λ f w k. refl;
}

abbrev renamed : Monitor
renamed = record site { name = "renamed" }

-- The monitor is created and cached, read, and changed.
abbrev ops : List Op
ops = creates site ∷ gets "m1" ∷ updates renamed ∷ []

abbrev start : Both
start = record { table = []; entries = [] }

cached_lookups_agree_example :
    database-Faithful.stored
      (run database database-Faithful cache held cache-IsCache ops start)
      "m1"
    ≡ some (content renamed)
unfolding database-Faithful lookup get_by_id webtracker.CachedRepository.update remove
    webtracker.CachedRepository.create store
cached_lookups_agree_example =
    cached_lookups_agree database database-Faithful cache held cache-IsCache ops start "m1"
      (record renamed { updated_at = hours 7 }) (λ k. refl) refl
