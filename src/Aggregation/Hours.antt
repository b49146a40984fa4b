-- ===== src/Aggregation/Hours.antt =====
-- healthcheck_aggregation_service.go: what one run of the aggregation of a monitor covers.
use webtracker.Shared.{
  ◌+◌, ◌%◌, ◌≡◌, ◌≢◌, inl, inr, refl, ap, subst, false, String, List, [], ◌∷◌, arith, if◌then◌else◌,
  ◌==◌, length, str_eq, Bool-cases,
}
use webtracker.Shared.Clock.{Instant, hours}
use webtracker.Shared.Errors.{Error, Result, Outcome, ok, err, wrapped}
use webtracker.Shared.Effects.{and_then, context, in_context, ignored, ◌>>◌}
use webtracker.Shared.Log.{Logged}
use webtracker.Domain.HealthCheck.{HealthCheck, AggregatedHealthCheck}
use webtracker.Aggregation.{
  AggregationService, Call, aggregate_created, checks_deleted, truncate_hour, aggregate,
  aggregate_hour, aggregate_hours, delete_aggregated_health_checks, aggregate_monitor_data,
}

paired : {A B : Type 0} (p : A × B) (a : A) → p.0 ≡ a → p ≡ (a, p.1)
paired p a e = ap (λ x. (x, p.1)) e

cons≢nil : (c : HealthCheck) (l : List HealthCheck) → c ∷ l ≢ []
cons≢nil c l e = ground (arith, e)

module _ {W : Type 0} (svc : AggregationService W) where
  -- The aggregation of the checks in an hour: they are read, and unless there are none, one
  -- aggregate of all of them is stored.
  pub data IsHour (id : String) (hour : Instant) (s : Logged W Call)
      : Outcome → Logged W Call → Type 0 where
    unread :
        (e : Error) (w : W)
        → svc.health_checks.get_by_date_range id hour (hour + hours 1) s.world ≡ (err e, w)
        → IsHour id hour s
            (err (wrapped "failed to get health checks for aggregation" e))
            (record s { world = w })
    empty :
        (w : W)
        → svc.health_checks.get_by_date_range id hour (hour + hours 1) s.world ≡ (ok [], w)
        → IsHour id hour s (ok tt) (record s { world = w })
    saved :
        (checks : List HealthCheck) (w v : W) (a : AggregatedHealthCheck)
        → svc.health_checks.get_by_date_range id hour (hour + hours 1) s.world ≡ (ok checks, w)
        → checks ≢ []
        → a.monitor_id ≡ id
        → a.hour_timestamp ≡ hour
        → a.total_checks ≡ length checks
        → IsHour id hour s
            (in_context "failed to save aggregated health check" (svc.create_aggregated a v).0)
            (record {
              world = (svc.create_aggregated a v).1;
              log = aggregate_created a (svc.create_aggregated a v).0 ∷ s.log;
            })

  -- The deletion: unless the monitor has no checks before the cutoff, the checks of all monitors
  -- before the cutoff are deleted.
  pub data IsDeletion (id : String) (cutoff : Instant) (s : Logged W Call)
      : Logged W Call → Type 0 where
    not_read :
        (e : Error) (w : W)
        → svc.health_checks.get_by_date_range id 0 cutoff s.world ≡ (err e, w)
        → IsDeletion id cutoff s (record s { world = w })
    none_before :
        (w : W)
        → svc.health_checks.get_by_date_range id 0 cutoff s.world ≡ (ok [], w)
        → IsDeletion id cutoff s (record s { world = w })
    deleted :
        (checks : List HealthCheck) (w : W)
        → svc.health_checks.get_by_date_range id 0 cutoff s.world ≡ (ok checks, w)
        → checks ≢ []
        → IsDeletion id cutoff s (record {
          world = (svc.health_checks.delete_older_than cutoff w).1;
          log = checks_deleted cutoff (svc.health_checks.delete_older_than cutoff w).0 ∷ s.log;
        })

  pub data IsAggregation (id : String) (cutoff : Instant) (s : Logged W Call)
      : Outcome → Logged W Call → Type 0 where
    on_the_hour :
        {t : Logged W Call}
        → cutoff % hours 1 ≡ 0
        → IsDeletion id cutoff s t
        → IsAggregation id cutoff s (ok tt) t
    hour_failed :
        {e : Error} {t : Logged W Call}
        → cutoff % hours 1 ≢ 0
        → IsHour id (truncate_hour cutoff) s (err e) t
        → IsAggregation id cutoff s (err (wrapped "failed to aggregate hour" e)) t
    hour_aggregated :
        {t u : Logged W Call}
        → cutoff % hours 1 ≢ 0
        → IsHour id (truncate_hour cutoff) s (ok tt) t
        → IsDeletion id cutoff t u
        → IsAggregation id cutoff s (ok tt) u

  saved_after :
      (id : String) (instant : Instant) (s : Logged W Call) (r : Result (List HealthCheck))
      → str_eq id "" ≡ false
      → let hour = truncate_hour instant in
        (svc.health_checks.get_by_date_range id hour (hour + hours 1) s.world).0 ≡ r
        → let (o, t) = aggregate_hour svc id instant s in IsHour id hour s o t
  unfolding aggregate_hour aggregate
  saved_after id instant s (err e) given f =
      rw (aggregate_hour, given, f) (unread e _ (paired _ (err e) f))
  saved_after id instant s (ok []) given f =
      rw (aggregate_hour, given, f) (empty _ (paired _ (ok []) f))
  saved_after id instant s (ok (c ∷ l)) given f =
      rw (aggregate_hour, given, f)
        (saved (c ∷ l) _ _ _ (paired _ (ok (c ∷ l)) f) (cons≢nil c l) refl refl refl)

  hour_lem :
      (id : String) (instant : Instant) (s : Logged W Call)
      → str_eq id "" ≡ false
      → let (r, t) = aggregate_hour svc id instant s in IsHour id (truncate_hour instant) s r t
  hour_lem id instant s given = saved_after id instant s _ given refl

  cleared_after :
      (id : String) (cutoff : Instant) (s : Logged W Call) (r : Result (List HealthCheck))
      → (svc.health_checks.get_by_date_range id 0 cutoff s.world).0 ≡ r
      → IsDeletion id cutoff s (delete_aggregated_health_checks svc id cutoff s).1
  unfolding delete_aggregated_health_checks
  cleared_after id cutoff s (err e) f =
      rw (delete_aggregated_health_checks, f) (not_read e _ (paired _ (err e) f))
  cleared_after id cutoff s (ok []) f =
      rw (delete_aggregated_health_checks, f) (none_before _ (paired _ (ok []) f))
  cleared_after id cutoff s (ok (c ∷ l)) f =
      rw (delete_aggregated_health_checks, f)
        (deleted (c ∷ l) _ (paired _ (ok (c ∷ l)) f) (cons≢nil c l))

  deletion_lem :
      (id : String) (cutoff : Instant) (s : Logged W Call)
      → IsDeletion id cutoff s (delete_aggregated_health_checks svc id cutoff s).1
  deletion_lem id cutoff s = cleared_after id cutoff s _ refl

  in_hour :
      (id : String) (cutoff : Instant) (s : Logged W Call)
      → str_eq id "" ≡ false
      → let (r, t) = aggregate_hour svc id (truncate_hour cutoff) s in
        IsHour id (truncate_hour cutoff) s r t
  in_hour id cutoff s given =
      let same : truncate_hour (truncate_hour cutoff) ≡ truncate_hour cutoff = omega arith in
      subst (λ h. let (r, t) = aggregate_hour svc id (truncate_hour cutoff) s in IsHour id h s r t)
        same (hour_lem id (truncate_hour cutoff) s given)

  off_the_hour :
      (id : String) (cutoff : Instant) (s : Logged W Call) (p : Outcome × Logged W Call)
      → cutoff % hours 1 ≢ 0
      → IsHour id (truncate_hour cutoff) s p.0 p.1
      → let (r, t) =
          and_then
            (in_context "failed to aggregate hour" p.0, p.1)
            (λ _. ignored (delete_aggregated_health_checks svc id cutoff)) in
        IsAggregation id cutoff s r t
  off_the_hour id cutoff s (err e, t) odd h = hour_failed odd h
  off_the_hour id cutoff s (ok _, t) odd h = hour_aggregated odd h (deletion_lem id cutoff t)

  unrolled :
      (id : String) (cutoff : Instant) (s : Logged W Call)
      → aggregate_monitor_data svc id cutoff s ≡ (
          if cutoff % hours 1 == 0
          then ignored (delete_aggregated_health_checks svc id cutoff) s
          else (context "failed to aggregate hour" (aggregate_hour svc id (truncate_hour cutoff))
                >> ignored (delete_aggregated_health_checks svc id cutoff))
              s)
  unfolding aggregate_monitor_data aggregate_hours
  unrolled id cutoff s = ground arith

  -- The aggregation of a monitor with an id covers no hour but the one that the cutoff, seven days
  -- ago, falls into, and none at all if the cutoff is on the hour; the loop ends within its fuel. Of
  -- that hour's checks, if there are any, one aggregate is stored, which counts them all. If that
  -- fails, its error is returned and nothing is deleted. Otherwise, if the monitor's checks before
  -- the cutoff can be read and there are any, the repository is told to delete all checks before it,
  -- of every monitor, and an error of that is dropped.
  pub one_hour_aggregated :
      (id : String) (cutoff : Instant) (s : Logged W Call)
      → str_eq id "" ≡ false
      → let (r, t) = aggregate_monitor_data svc id cutoff s in IsAggregation id cutoff s r t
  one_hour_aggregated id cutoff s given = elim (Bool-cases (cutoff % hours 1 == 0)) [
    | inl e ↦
        rw (unrolled id cutoff s, e) (on_the_hour (ground (arith, e)) (deletion_lem id cutoff s))
    | inr e ↦
        rw (unrolled id cutoff s, e)
          (off_the_hour id cutoff s _ (λ f. ground (arith, e, f)) (in_hour id cutoff s given))
  ]
