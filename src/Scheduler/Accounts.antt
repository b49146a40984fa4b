-- ===== src/Scheduler/Accounts.antt =====
-- scheduler.go over a queue and a schedule of jobs: where the scheduled jobs are.
use webtracker.Shared.{
  ℕ, ◌+◌, ◌≤◌, ◌≡◌, refl, Bool, false, String, List, [], ◌∷◌, arith, tally, tally-append,
  Option-cases, Bool-cases, inl, inr,
}
use webtracker.Shared.Dict.{lookup}
use webtracker.Shared.Clock.{Instant}
use webtracker.Shared.Errors.{Result, Outcome, ok, err}
use webtracker.Shared.Log.{Logged}
use webtracker.Domain.Monitor.{Monitor}
use webtracker.Resilience.RedisClient.{Job}
use webtracker.Redis.Store.{
  IsJobStore, due, later, snds, added, moved, Schedules, Enqueues, TakesDue,
}
use webtracker.Redis.{unix}
use webtracker.Scheduler.{
  after_enqueue, Call, scheduled, enqueued, processed, JobScheduler, schedule_monitor, job_for,
  next_execution, after_enqueue, schedule_at, schedule_next_execution, enqueue_all, enqueue_due,
  process_due_jobs,
}

-- A reading that leaves the jobs as they are.
pub record KeepsJobs {W A : Type 0} (queued : W → List Job) (schedule : W → List (ℕ × Job))
    (m : W → A × W) : Type 0 where
  pub same_queue : (w : W) → queued (m w).1 ≡ queued w
  pub same_schedule : (w : W) → schedule (m w).1 ≡ schedule w

tally-due :
    (q : Job → Bool) (n : ℕ) (l : List (ℕ × Job))
    → tally (λ (e : ℕ × Job). q e.1) l
      ≡ tally q (snds (due n l)) + tally (λ (e : ℕ × Job). q e.1) (later n l)
tally-due q n [] = refl
tally-due q n ((score, job) ∷ l) = ground (arith, tally-due q n l)

-- Calls about jobs whose id passes a test.
module _ (p : String → Bool) where
  abbrev pub was_scheduled : Call → Bool
  was_scheduled (scheduled job t (ok _)) = p job.id
  was_scheduled _ = false

  abbrev pub was_processed : Call → Bool
  was_processed (processed job r) = p job.id
  was_processed _ = false

  -- Redis refused to queue a job that had been taken from the schedule.
  abbrev pub was_lost : Call → Bool
  was_lost (enqueued job (err e)) = p job.id
  was_lost _ = false

  abbrev pub about : Job → Bool
  about job = p job.id

  abbrev pub entry_about : ℕ × Job → Bool
  entry_about e = p e.1.id

module _ {W : Type 0} (queued : W → List Job) (schedule : W → List (ℕ × Job))
    (p : String → Bool) where
  -- `hand` jobs are neither in the schedule nor in the queue, and not processed yet. Each
  -- job that was scheduled is in one place at most.
  pub record IsBalanced (hand : ℕ) (s : Logged W Call) : Type 0 where
    pub balance :
        tally (entry_about p) (schedule s.world)
          + tally (about p) (queued s.world)
          + hand
          + tally (was_processed p) s.log
          + tally (was_lost p) s.log
        ≤ tally (was_scheduled p) s.log

module _ {W B : Type 0} (s : JobScheduler W B) where
  pub after_enqueue_lem :
      (job : Job) (r : Outcome) (t : Logged W Call) → after_enqueue s job r t ≡ (ok tt, t)
  unfolding after_enqueue schedule_next_execution
  after_enqueue_lem job (err e) t = refl
  after_enqueue_lem job (ok _) t = elim (Option-cases (lookup "monitor_id" job.payload)) [
    | inl e ↦ rw (after_enqueue, e) refl
    | inr (id, e) ↦ rw (after_enqueue, e) refl
  ]

module _ {W B : Type 0} (s : JobScheduler W B) (queued : W → List Job)
    (schedule : W → List (ℕ × Job))
    (store : IsJobStore s.redis s.queue_name s.schedule_name queued schedule)
    (clock_keeps : KeepsJobs queued schedule s.clock)
    (random_keeps : KeepsJobs queued schedule s.random) (p : String → Bool) where
  abbrev pub Balanced : ℕ → Logged W Call → Type 0
  Balanced = IsBalanced queued schedule p

  enqueued_lem :
      (job : Job) (r : Outcome) (before after : List Job)
      → Enqueues job before r after
      → tally (about p) before + tally (about p) (job ∷ [])
        ≡ tally (about p) after + tally (was_lost p) (enqueued job r ∷ [])
  enqueued_lem job (ok _) before after (t, e) =
      rw e (omega (arith, tally-append (about p) before (record job { created_at = t } ∷ [])))
  enqueued_lem job (err x) before after e = rw e refl

  scheduled_lem :
      (n : ℕ) (job : Job) (at : Instant) (r : Outcome) (before after : List (ℕ × Job))
      → Schedules n job before r after
      → tally (entry_about p) after
        ≤ tally (entry_about p) before + tally (was_scheduled p) (scheduled job at r ∷ [])
  scheduled_lem n job at (ok _) before after (t, added h) = omega (arith, h (entry_about p))
  scheduled_lem n job at (ok _) before after (t, moved old h) = omega (arith, h (entry_about p))
  scheduled_lem n job at (err x) before after e = rw e (omega arith)

  read_lem :
      {A : Type 0} (m : W → A × W) (hand : ℕ) (t : Logged W Call)
      → KeepsJobs queued schedule m
      → Balanced hand t
      → Balanced hand (record t { world = (m t.world).1 })
  read_lem m hand t k h = record {
    balance = rw (k.same_queue t.world, k.same_schedule t.world) h.balance;
  }

  -- Queueing takes the jobs out of hand.
  enqueue_all_lem :
      (jobs : List Job) (hand : ℕ) (t : Logged W Call)
      → Balanced (tally (about p) jobs + hand) t
      → Balanced hand (enqueue_all s jobs t).1
  unfolding enqueue_all
  enqueue_all_lem [] hand t h = record { balance = omega (arith, h.balance) }
  enqueue_all_lem (job ∷ jobs) hand t h =
      let (r, w) = s.redis.enqueue s.queue_name job t.world in
      let (done, same) = store.enqueue_effect job t.world in
      let t' : Logged W Call = record { world = w; log = enqueued job r ∷ t.log } in
      rw (after_enqueue_lem s job r t') (
        enqueue_all_lem jobs hand t' (record {
          balance =
              rw same
                (omega (arith, h.balance, enqueued_lem job r (queued t.world) (queued w) done));
        }))

  taken_lem :
      (n : ℕ) (hand : ℕ) (r : Result (List Job)) (t : Logged W Call) (w : W)
      → TakesDue n (schedule t.world) r (schedule w)
      → queued w ≡ queued t.world
      → Balanced hand t
      → Balanced hand (enqueue_due s r (record t { world = w })).1
  unfolding enqueue_due
  taken_lem n hand (err e) t w same same' h = record { balance = rw (same, same') h.balance }
  taken_lem n hand (ok jobs) t w (e, e') same h =
      enqueue_all_lem jobs hand (record t { world = w })
        (record {
          balance =
              rw (e, e', same) (omega (arith, h.balance, tally-due (about p) n (schedule t.world)));
        })

  pub process_due_jobs_lem :
      (hand : ℕ) (t : Logged W Call) → Balanced hand t → Balanced hand (process_due_jobs s t).1
  unfolding process_due_jobs
  process_due_jobs_lem hand t h =
      let (now, w) = s.clock t.world in
      let (r, w') = s.redis.get_due_jobs s.schedule_name now w in
      let (done, same) = store.due_effect now w in
      taken_lem (unix now) hand r (record t { world = w }) w' done same
        (read_lem s.clock hand t clock_keeps h)

  schedule_at_lem :
      (hand : ℕ) (m : Monitor) (now : Instant) (r : ℕ) (t : Logged W Call)
      → Balanced hand t
      → Balanced hand (schedule_at s m now r t).1
  unfolding schedule_at
  schedule_at_lem hand m now r t h =
      let (named_at, w) = s.clock t.world in
      let (created_at, w') = s.clock w in
      let job = job_for s m named_at created_at in
      let at = next_execution s.floats now m.check_interval r in
      let (done, same) = store.schedule_effect job at w' in
      let (answer, w'') = s.redis.schedule s.schedule_name job at w' in
      let h' : Balanced hand (record t { world = w' }) =
        read_lem s.clock hand (record t { world = w }) clock_keeps
          (read_lem s.clock hand t clock_keeps h) in
      record {
        balance = rw same (
            omega (
              arith,
              h'.balance,
              scheduled_lem (unix at) job at answer (schedule w') (schedule w'') done,
            ));
      }

  pub schedule_monitor_lem :
      (hand : ℕ) (m : Monitor) (t : Logged W Call)
      → Balanced hand t
      → Balanced hand (schedule_monitor s m t).1
  unfolding schedule_monitor
  schedule_monitor_lem hand m t h = elim (Bool-cases m.enabled) [
    | inr e ↦ rw e h
    | inl e ↦
        let (now, w) = s.clock t.world in
        let (r, w') = s.random w in
        rw e (
          schedule_at_lem hand m now r (record t { world = w' })
            (read_lem s.random hand (record t { world = w }) random_keeps
              (read_lem s.clock hand t clock_keeps h)))
  ]
