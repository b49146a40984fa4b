-- ===== src/Resilience/Repository/Coherence.antt =====
-- repository.go: the cache never holds anything but what the database holds, as long as every
-- write goes through this repository. The times of a monitor are left out of the comparison: the
-- database sets them itself.
use webtracker.Shared.{
  ◌≡◌, Option, none, some, String, List, [], ◌∷◌, if◌then◌else◌, arith, str_eq, eq_iff, All, inl,
  inr, ◌∙◌,
}
use webtracker.Shared.Clock.{Instant}
use webtracker.Shared.Dict.{lookup, lookup-store, lookup-remove}
use webtracker.Shared.Errors.{Error, ok, err, Result-cases}
use webtracker.Domain.Monitor.{Monitor}
use webtracker.Resilience.Repository.{
  ListFilters, MonitorRepository, State, cache_monitor, cache_all, mark_down, create, get_by_id,
  list, update, delete,
}

-- A monitor but for its times: `Create` fills in a time that is zero, and `Update` sets the one and
-- leaves the other, so that the times of the row are not those of the monitor that is passed.
abbrev pub content : Monitor → Monitor
content m = record m { created_at = 0; updated_at = 0 }

-- A database with a table of monitors by id, whose contents are `stored`: reads do not change it, a
-- read returns what it holds, a write that succeeds does what it says and one that fails does
-- nothing.
pub record Faithful {W : Type 0} (primary : MonitorRepository W) : Type 0 where
  pub stored : W → String → Option Monitor
  pub create_ok :
      (m : Monitor) (w : W) (k : String)
      → (primary.create m w).0 ≡ ok tt
      → stored (primary.create m w).1 k ≡ (if str_eq m.id k then some (content m) else stored w k)
  pub create_err :
      (m : Monitor) (w : W) (k : String) (e : Error)
      → (primary.create m w).0 ≡ err e
      → stored (primary.create m w).1 k ≡ stored w k
  pub update_ok :
      (m : Monitor) (w : W) (k : String)
      → (primary.update m w).0 ≡ ok tt
      → stored (primary.update m w).1 k ≡ (if str_eq m.id k then some (content m) else stored w k)
  pub update_err :
      (m : Monitor) (w : W) (k : String) (e : Error)
      → (primary.update m w).0 ≡ err e
      → stored (primary.update m w).1 k ≡ stored w k
  pub delete_ok :
      (id : String) (w : W) (k : String)
      → (primary.delete id w).0 ≡ ok tt
      → stored (primary.delete id w).1 k ≡ (if str_eq id k then none else stored w k)
  pub delete_err :
      (id : String) (w : W) (k : String) (e : Error)
      → (primary.delete id w).0 ≡ err e
      → stored (primary.delete id w).1 k ≡ stored w k
  pub get_keeps :
      (id : String) (w : W) (k : String) → stored (primary.get_by_id id w).1 k ≡ stored w k
  pub get_ok :
      (id : String) (w : W) (m : Monitor)
      → (primary.get_by_id id w).0 ≡ ok m
      → (stored w id ≡ some (content m)) × (m.id ≡ id)
  pub list_keeps :
      (f : ListFilters) (w : W) (k : String) → stored (primary.list f w).1 k ≡ stored w k
  pub list_ok :
      (f : ListFilters) (w : W) (ms : List Monitor)
      → (primary.list f w).0 ≡ ok ms
      → All (λ m. stored (primary.list f w).1 m.id ≡ some (content m)) ms

module _ {W : Type 0} (primary : MonitorRepository W) (db : Faithful primary) where
  open db use {stored}

  -- Every cached monitor is, but for its times, the one that the database holds under its id.
  pub record Coherent (s : State W) : Type 0 where
    pub cached_stored :
        (k : String) (m : Monitor) → lookup k s.cache ≡ some m → stored s.world k ≡ some (content m)

  pub data Op : Type 0 where
    creates : Instant → Monitor → Op
    gets : Instant → String → Op
    lists : Instant → ListFilters → Op
    updates : Instant → Monitor → Op
    deletes : String → Op
    database_down : Op

  unfoldable pub step : State W → Op → State W
  step s (creates now m) = (create primary now m s).1
  step s (gets now id) = (get_by_id primary now id s).1
  step s (lists now f) = (list primary now f s).1
  step s (updates now m) = (update primary now m s).1
  step s (deletes id) = (delete primary id s).1
  step s database_down = mark_down s

  cache_all-Coherent :
      (now : Instant) (ms : List Monitor) (s : State W)
      → Coherent s
      → All (λ m. stored s.world m.id ≡ some (content m)) ms
      → Coherent (cache_all now ms s)
  unfolding cache_all cache_monitor
  cache_all-Coherent now [] s c a = c
  cache_all-Coherent now (m ∷ ms) s c a =
      cache_all-Coherent now ms (cache_monitor now m s)
        (record {
          cached_stored = λ k x e.
              ground (arith, lookup-store m.id k m s.cache, eq_iff m.id k, c.cached_stored k x);
        })
        a.1

  -- The state after the read alone.
  listed-Coherent :
      (s : State W) (f : ListFilters)
      → Coherent s
      → Coherent (record s { world = (primary.list f s.world).1 })
  listed-Coherent s f c = record {
    cached_stored = λ k x e. db.list_keeps f s.world k ∙ c.cached_stored k x e;
  }

  list-Coherent :
      (s : State W) (now : Instant) (f : ListFilters)
      → Coherent s
      → Coherent (list primary now f s).1
  unfolding list mark_down
  list-Coherent s now f c = elim (Result-cases (primary.list f s.world).0) [
    | inl (ms, p) ↦ ground (
      arith,
      c,
      cache_all-Coherent now ms (record s { world = (primary.list f s.world).1 })
          (listed-Coherent s f c) (db.list_ok f s.world ms p),
    )
    | inr (y, p) ↦ record {
      cached_stored = λ k x e. ground (arith, c.cached_stored k x, db.list_keeps f s.world k);
    }
  ]

  step-Coherent : (s : State W) (op : Op) → Coherent s → Coherent (step s op)
  unfolding step create update delete get_by_id list mark_down
  step-Coherent s (creates now m) c = record {
    cached_stored = λ k x e. elim (Result-cases (primary.create m s.world).0) [
      | inl (u, p) ↦
          ground
            (arith, lookup-store m.id k m s.cache, c.cached_stored k x, db.create_ok m s.world k p)
      | inr (y, p) ↦ ground (arith, c.cached_stored k x, db.create_err m s.world k y p)
    ];
  }
  step-Coherent s (gets now id) c = record {
    cached_stored = λ k x e. elim (Result-cases (primary.get_by_id id s.world).0) [
      | inl (m, p) ↦ ground (
        arith,
        lookup-store m.id k m s.cache,
        eq_iff m.id k,
        c.cached_stored k x,
        db.get_ok id s.world m p,
        db.get_keeps id s.world k,
      )
      | inr (y, p) ↦ ground (arith, c.cached_stored k x, db.get_keeps id s.world k)
    ];
  }
  step-Coherent s (lists now f) c = list-Coherent s now f c
  step-Coherent s (updates now m) c = record {
    cached_stored = λ k x e. elim (Result-cases (primary.update m s.world).0) [
      | inl (u, p) ↦
          ground
            (arith, lookup-store m.id k m s.cache, c.cached_stored k x, db.update_ok m s.world k p)
      | inr (y, p) ↦ ground (arith, c.cached_stored k x, db.update_err m s.world k y p)
    ];
  }
  step-Coherent s (deletes id) c = record {
    cached_stored = λ k x e. elim (Result-cases (primary.delete id s.world).0) [
      | inl (u, p) ↦
          ground
            (arith, lookup-remove id k s.cache, c.cached_stored k x, db.delete_ok id s.world k p)
      | inr (y, p) ↦ ground (arith, c.cached_stored k x, db.delete_err id s.world k y p)
    ];
  }
  step-Coherent s database_down c = record { cached_stored = λ k x e. c.cached_stored k x e }

  unfoldable pub run : State W → List Op → State W
  run s [] = s
  run s (op ∷ ops) = run (step s op) ops

  pub run-Coherent : (s : State W) (ops : List Op) → Coherent s → Coherent (run s ops)
  unfolding run
  run-Coherent s [] c = c
  run-Coherent s (op ∷ ops) c = run-Coherent (step s op) ops (step-Coherent s op c)

  -- Over a database that does what it says, and after any calls of this repository and any
  -- reports that the database is down, starting from an empty cache: every lookup that returns a
  -- monitor returns, but for its times, the one that the database holds under that id, from the
  -- cache too.
  pub lookups_agree :
      (s : State W) (ops : List Op) (now : Instant) (id : String) (m : Monitor)
      → s.cache ≡ []
      → (get_by_id primary now id (run s ops)).0 ≡ ok m
      → stored (run s ops).world id ≡ some (content m)
  unfolding get_by_id lookup
  lookups_agree s ops now id m e h =
      let c : Coherent (run s ops) =
        run-Coherent s ops (record { cached_stored = λ k x l. absurd (ground (arith, e)) }) in
      elim (Result-cases (primary.get_by_id id (run s ops).world).0) [
        | inl (x, p) ↦ ground (arith, db.get_ok id (run s ops).world x p, c.cached_stored id m)
        | inr (y, p) ↦ ground (arith, c.cached_stored id m)
      ]
