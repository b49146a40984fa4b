-- ===== src/CachedRepository/Agreement.antt =====
-- cached_monitor_repository.go: the cache agrees with the database while Redis deletes what it is
-- told to delete.
use webtracker.Shared.{
  ◌≡◌, ◌⊎◌, inl, inr, refl, false, Option, none, some, String, List, [], ◌∷◌, arith, str_eq, eq_iff,
  Bool-cases, str_eq_refl, ◌∙◌, sym, subst,
}
use webtracker.Shared.Clock.{Duration}
use webtracker.Shared.Errors.{Result, ok, err, Result-cases}
use webtracker.Domain.Monitor.{Monitor}
use webtracker.Resilience.Repository.{MonitorRepository, ListFilters}
use webtracker.Resilience.Repository.Coherence.{Faithful, content}
use webtracker.CachedRepository.{
  MonitorCache, monitor_cache_ttl, create, get_by_id, list, update, delete, cache_monitor,
  invalidate_cache, from_database, after_lookup,
}

-- A cache whose entries may expire at any time, and which deletes what it is told to delete. It is
-- apart from the database, which creates a monitor under a new id only.
pub record IsCache {W : Type 0} (repo : MonitorRepository W) (db : Faithful repo)
    (cache : MonitorCache W) (held : W → String → Option Monitor) : Type 0 where
  pub get_held :
      (id k : String) (m : Monitor) (w : W)
      → held (cache.get_json id w).1 k ≡ some m
      → held w k ≡ some m
  pub get_ok :
      (id : String) (m : Monitor) (w : W)
      → (cache.get_json id w).0 ≡ ok (some m)
      → held w id ≡ some m
  pub get_apart : (id k : String) (w : W) → db.stored (cache.get_json id w).1 k ≡ db.stored w k
  pub set_held :
      (id k : String) (m n : Monitor) (ttl : Duration) (w : W)
      → held (cache.set_json id m ttl w).1 k ≡ some n
      → (held w k ≡ some n) ⊎ ((k ≡ id) × (n ≡ m))
  pub set_apart :
      (id k : String) (m : Monitor) (ttl : Duration) (w : W)
      → db.stored (cache.set_json id m ttl w).1 k ≡ db.stored w k
  pub delete_held :
      (id k : String) (m : Monitor) (w : W)
      → held (cache.delete id w).1 k ≡ some m
      → (held w k ≡ some m) × (str_eq id k ≡ false)
  pub delete_apart : (id k : String) (w : W) → db.stored (cache.delete id w).1 k ≡ db.stored w k
  pub create_new : (m : Monitor) (w : W) → (repo.create m w).0 ≡ ok tt → db.stored w m.id ≡ none
  pub create_apart : (m : Monitor) (w : W) (k : String) → held (repo.create m w).1 k ≡ held w k
  pub update_apart : (m : Monitor) (w : W) (k : String) → held (repo.update m w).1 k ≡ held w k
  pub repo_delete_apart :
      (id : String) (w : W) (k : String) → held (repo.delete id w).1 k ≡ held w k
  pub repo_get_apart :
      (id : String) (w : W) (k : String) → held (repo.get_by_id id w).1 k ≡ held w k
  pub list_apart : (f : ListFilters) (w : W) (k : String) → held (repo.list f w).1 k ≡ held w k

pub data Op : Type 0 where
  creates : Monitor → Op
  gets : String → Op
  lists : ListFilters → Op
  updates : Monitor → Op
  deletes : String → Op

module _ {W : Type 0} (repo : MonitorRepository W) (db : Faithful repo) (cache : MonitorCache W)
    (held : W → String → Option Monitor) (laws : IsCache repo db cache held) where
  abbrev pub step : Op → W → W
  step (creates m) w = (create repo cache m w).1
  step (gets id) w = (get_by_id repo cache id w).1
  step (lists f) w = (list repo cache f w).1
  step (updates m) w = (update repo cache m w).1
  step (deletes id) w = (delete repo cache id w).1

  abbrev pub run : List Op → W → W
  run [] w = w
  run (op ∷ ops) w = run ops (step op w)

  -- What the cache holds is, but for the times, what the database holds.
  record Agrees (w : W) : Type 0 where
    agrees : (k : String) (m : Monitor) → held w k ≡ some m → db.stored w k ≡ some (content m)

  cached-Agrees :
      (m : Monitor) (w : W)
      → db.stored w m.id ≡ some (content m)
      → Agrees w
      → Agrees (cache.set_json m.id m monitor_cache_ttl w).1
  cached-Agrees m w e h = record {
    agrees = λ k n f.
        rw (laws.set_apart m.id k m monitor_cache_ttl w)
          (elim (laws.set_held m.id k m n monitor_cache_ttl w f) [
            | inl g ↦ h.agrees k n g
            | inr (g, i) ↦ rw (g, i) e
          ]);
  }

  found_lem :
      (id : String) (w : W) (m : Monitor)
      → (repo.get_by_id id w).0 ≡ ok m
      → db.stored (repo.get_by_id id w).1 m.id ≡ some (content m)
  found_lem id w m e =
      let (stored, same) = db.get_ok id w m e in
      db.get_keeps id w m.id ∙ subst (λ k. db.stored w k ≡ some (content m)) (sym same) stored

  read-Agrees : (id : String) (w : W) → Agrees w → Agrees (repo.get_by_id id w).1
  read-Agrees id w h = record {
    agrees =
        λ k m e. rw (db.get_keeps id w k) (h.agrees k m (rw (laws.repo_get_apart id w k) at e));
  }

  from_database-Agrees : (id : String) (w : W) → Agrees w → Agrees (from_database repo cache id w).1
  unfolding from_database cache_monitor
  from_database-Agrees id w h = elim (Result-cases (repo.get_by_id id w).0) [
    | inl (m, e) ↦ rw e (cached-Agrees m _ (found_lem id w m e) (read-Agrees id w h))
    | inr (x, e) ↦ rw e (read-Agrees id w h)
  ]

  read_lem :
      (id : String) (m : Monitor) (w : W)
      → (from_database repo cache id w).0 ≡ ok m
      → (repo.get_by_id id w).0 ≡ ok m
  unfolding from_database
  read_lem id m w e = elim (Result-cases (repo.get_by_id id w).0) [
    | inl (n, f) ↦ f ∙ (rw f at e)
    | inr (x, f) ↦ absurd (ground (arith, e, f))
  ]

  after_lookup-Agrees :
      (id : String) (r : Result (Option Monitor)) (w : W)
      → Agrees w
      → Agrees (after_lookup repo cache id r w).1
  unfolding after_lookup
  after_lookup-Agrees id (ok (some m)) w h = h
  after_lookup-Agrees id (ok none) w h = from_database-Agrees id w h
  after_lookup-Agrees id (err e) w h = from_database-Agrees id w h

  looked_up-Agrees : (id : String) (w : W) → Agrees w → Agrees (cache.get_json id w).1
  looked_up-Agrees id w h = record {
    agrees = λ k m e. rw (laws.get_apart id k w) (h.agrees k m (laws.get_held id k m w e));
  }

  created-Agrees :
      (m : Monitor) (w : W)
      → (repo.create m w).0 ≡ ok tt
      → Agrees w
      → Agrees (cache.set_json m.id m monitor_cache_ttl (repo.create m w).1).1
  created-Agrees m w e h = record {
    agrees = λ k n f. rw (laws.set_apart m.id k m monitor_cache_ttl (repo.create m w).1) (
        db.create_ok m w k e
        ∙ elim (laws.set_held m.id k m n monitor_cache_ttl (repo.create m w).1 f) [
          | inl g ↦
              let stored = h.agrees k n (rw (laws.create_apart m w k) at g) in
              elim (Bool-cases (str_eq m.id k)) [
                | inl same ↦
                    let old =
                      subst (λ j. db.stored w j ≡ none) ((eq_iff m.id k).0 same)
                        (laws.create_new m w e) in
                    absurd (ground (arith, old, stored))
                | inr other ↦ rw other stored
              ]
          | inr (g, i) ↦ rw (g, i, str_eq_refl m.id) refl
        ]);
  }

  failed-Agrees :
      (w v : W)
      → ((k : String) → held v k ≡ held w k)
      → ((k : String) → db.stored v k ≡ db.stored w k)
      → Agrees w
      → Agrees v
  failed-Agrees w v same_held same_stored h = record {
    agrees = λ k m e. rw (same_stored k) (h.agrees k m (rw (same_held k) at e));
  }

  changed-Agrees :
      (id : String) (w v : W)
      → ((k : String) → held v k ≡ held w k)
      → ((k : String) → str_eq id k ≡ false → db.stored v k ≡ db.stored w k)
      → Agrees w
      → Agrees (cache.delete id v).1
  changed-Agrees id w v same_held same_stored h = record {
    agrees = λ k m e.
        let (kept, other) = laws.delete_held id k m v e in
        rw (laws.delete_apart id k v, same_stored k other)
          (h.agrees k m (rw (same_held k) at kept));
  }

  step-Agrees : (op : Op) (w : W) → Agrees w → Agrees (step op w)
  unfolding create get_by_id list update delete cache_monitor invalidate_cache
  step-Agrees (creates m) w h = elim (Result-cases (repo.create m w).0) [
    | inl (a, e) ↦ rw (step, e) (created-Agrees m w e h)
    | inr (x, e) ↦
        rw (step, e) (failed-Agrees w _ (laws.create_apart m w) (λ k. db.create_err m w k x e) h)
  ]
  step-Agrees (gets id) w h = after_lookup-Agrees id _ _ (looked_up-Agrees id w h)
  step-Agrees (lists f) w h = failed-Agrees w _ (laws.list_apart f w) (db.list_keeps f w) h
  step-Agrees (updates m) w h = elim (Result-cases (repo.update m w).0) [
    | inl (a, e) ↦
        rw (step, e)
          (changed-Agrees m.id w _ (laws.update_apart m w) (λ k f. db.update_ok m w k e ∙ rw f refl)
            h)
    | inr (x, e) ↦
        rw (step, e) (failed-Agrees w _ (laws.update_apart m w) (λ k. db.update_err m w k x e) h)
  ]
  step-Agrees (deletes id) w h = elim (Result-cases (repo.delete id w).0) [
    | inl (a, e) ↦
        rw (step, e)
          (changed-Agrees id w _ (laws.repo_delete_apart id w)
            (λ k f. db.delete_ok id w k e ∙ rw f refl) h)
    | inr (x, e) ↦
        rw (step, e)
          (failed-Agrees w _ (laws.repo_delete_apart id w) (λ k. db.delete_err id w k x e) h)
  ]

  run-Agrees : (ops : List Op) (w : W) → Agrees w → Agrees (run ops w)
  run-Agrees [] w h = h
  run-Agrees (op ∷ ops) w h = run-Agrees ops (step op w) (step-Agrees op w h)

  answer_lem :
      (id : String) (m : Monitor) (r : Result (Option Monitor)) (w : W)
      → ((n : Monitor) → r ≡ ok (some n) → db.stored w id ≡ some (content n))
      → (after_lookup repo cache id r w).0 ≡ ok m
      → db.stored w id ≡ some (content m)
  unfolding after_lookup from_database
  answer_lem id m (ok (some n)) w h e = h m (ground (arith, e))
  answer_lem id m (ok none) w h e = (db.get_ok id w m (read_lem id m w e)).0
  answer_lem id m (err x) w h e = (db.get_ok id w m (read_lem id m w e)).0

  -- Over a database that does what it says and a Redis that deletes what it is told to delete, from
  -- which entries may disappear at any time and whose reads and writes may fail: after any calls of
  -- the repository, starting from an empty cache, a lookup that returns a monitor returns the one,
  -- but for its times, that the database holds under that id.
  pub cached_lookups_agree :
      (ops : List Op) (w : W) (id : String) (m : Monitor)
      → ((k : String) → held w k ≡ none)
      → (get_by_id repo cache id (run ops w)).0 ≡ ok m
      → db.stored (run ops w) id ≡ some (content m)
  unfolding get_by_id
  cached_lookups_agree ops w id m empty e =
      let v = run ops w in
      let start : Agrees w = record { agrees = λ k n f. absurd (ground (arith, empty k, f)) } in
      let now = run-Agrees ops w start in
      let (r, v') = cache.get_json id v in
      sym (laws.get_apart id id v)
      ∙ answer_lem id m r v'
          (λ n f. laws.get_apart id id v ∙ now.agrees id n (laws.get_ok id n v f)) e
