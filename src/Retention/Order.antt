-- ===== src/Retention/Order.antt =====
-- data_retention_service.go: what a run deletes, in which order, and where it stops.
use webtracker.Shared.{◌-◌, ◌≡◌, inl, inr, refl, Option, none, some, List, ◌∷◌}
use webtracker.Shared.Clock.{Instant}
use webtracker.Shared.Errors.{Error, Outcome, ok, err, Result-cases}
use webtracker.Shared.Effects.{M, context, ◌>>◌}
use webtracker.Shared.Log.{Logged, noted}
use webtracker.Retention.{
  Call, checks_deleted, aggregates_deleted, alerts_deleted, DataRetentionService, retention_period,
  run_cleanup, clean_before, clean_aggregates,
}

abbrev aggregate_calls : {A : Type 0} → Option A → Instant → List Call → List Call
aggregate_calls none cutoff l = l
aggregate_calls (some f) cutoff l = aggregates_deleted cutoff (ok tt) ∷ l

-- The calls of a run in which every deletion succeeds, the latest first.
abbrev pub full_run : {A : Type 0} → Option A → Instant → List Call → List Call
full_run o cutoff l =
    alerts_deleted cutoff (ok tt) ∷ aggregate_calls o cutoff (checks_deleted cutoff (ok tt) ∷ l)

-- The calls of a run that a deletion ends.
pub data Stops {A : Type 0} (o : Option A) (cutoff : Instant) (l : List Call) (after : List Call)
    : Type 0 where
  at_checks : (e : Error) → after ≡ checks_deleted cutoff (err e) ∷ l → Stops o cutoff l after
  at_aggregates :
      (a : A) (e : Error)
      → o ≡ some a
      → after ≡ aggregates_deleted cutoff (err e) ∷ checks_deleted cutoff (ok tt) ∷ l
      → Stops o cutoff l after
  at_alerts :
      (e : Error)
      → after
        ≡ alerts_deleted cutoff (err e)
          ∷ aggregate_calls o cutoff (checks_deleted cutoff (ok tt) ∷ l)
      → Stops o cutoff l after

abbrev pub Ends : {A : Type 0} → Option A → Instant → List Call → Outcome → List Call → Type 0
Ends o cutoff l (ok _) after = after ≡ full_run o cutoff l
Ends o cutoff l (err e) after = Stops o cutoff l after

module _ {W : Type 0} (s : DataRetentionService W) where
  abbrev Deletions : Type 0
  Deletions = Option (Instant → M W (Unit {0}))

  alerts_lem :
      (o : Deletions) (cutoff : Instant) (l : List Call) (t : Logged W Call)
      → t.log ≡ aggregate_calls o cutoff (checks_deleted cutoff (ok tt) ∷ l)
      → let m =
          context "failed to delete old alerts"
            (noted (alerts_deleted cutoff) (s.delete_alerts cutoff)) in
        Ends o cutoff l (m t).0 (m t).1.log
  alerts_lem o cutoff l t h = elim (Result-cases (s.delete_alerts cutoff t.world).0) [
    | inl (a, e) ↦ rw (e, h) refl
    | inr (x, e) ↦ rw e (at_alerts x (rw h refl))
  ]

  rest_lem :
      (o : Deletions) (cutoff : Instant) (l : List Call) (t : Logged W Call)
      → t.log ≡ checks_deleted cutoff (ok tt) ∷ l
      → let m =
          clean_aggregates s o cutoff
          >> context "failed to delete old alerts"
              (noted (alerts_deleted cutoff) (s.delete_alerts cutoff)) in
        Ends o cutoff l (m t).0 (m t).1.log
  unfolding clean_aggregates
  rest_lem none cutoff l t h = alerts_lem none cutoff l t h
  rest_lem (some f) cutoff l t h = elim (Result-cases (f cutoff t.world).0) [
    | inl (a, e) ↦ rw e (
        alerts_lem (some f) cutoff l
          (record { world = (f cutoff t.world).1; log = aggregates_deleted cutoff (ok tt) ∷ t.log })
          (rw h refl))
    | inr (x, e) ↦ rw e (at_aggregates f x refl (rw h refl))
  ]

  clean_lem :
      (cutoff : Instant) (t : Logged W Call)
      → let (r, t') = clean_before s cutoff t in Ends s.delete_aggregates cutoff t.log r t'.log
  unfolding clean_before
  clean_lem cutoff t = elim (Result-cases (s.delete_checks cutoff t.world).0) [
    | inl (a, e) ↦ rw e (
        rest_lem s.delete_aggregates cutoff t.log
          (record {
            world = (s.delete_checks cutoff t.world).1;
            log = checks_deleted cutoff (ok tt) ∷ t.log;
          })
          refl)
    | inr (x, e) ↦ rw e (at_checks x refl)
  ]

  -- A run deletes, with one cutoff 90 days before now, first the checks, then the aggregates where
  -- they are kept, and then the alerts. It returns no error exactly if all of these succeed; otherwise
  -- the first deletion that fails is the last call.
  pub run_cleanup_order :
      (t : Logged W Call)
      → let cutoff = (s.clock t.world).0 - retention_period in
        let (r, t') = run_cleanup s t in Ends s.delete_aggregates cutoff t.log r t'.log
  unfolding run_cleanup
  run_cleanup_order t =
      clean_lem ((s.clock t.world).0 - retention_period) (record t { world = (s.clock t.world).1 })
