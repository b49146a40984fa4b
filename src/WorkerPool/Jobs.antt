-- ===== src/WorkerPool/Jobs.antt =====
-- scheduler.go and worker_pool.go together: what becomes of the jobs, with a scheduler and workers
-- that run concurrently, as any sequence of their steps.
use webtracker.Shared.{
  ◌≤◌, tally, ℕ, zero, suc, ◌+◌, ◌≡◌, refl, Bool, Option, none, some, String, List, [], ◌∷◌, arith,
  Option-cases, inl, inr, if◌then◌else◌,
}
use webtracker.Shared.Int.{pos}
use webtracker.Shared.Clock.{seconds}
use webtracker.Shared.Errors.{Result, ok, err}
use webtracker.Shared.Log.{Logged}
use webtracker.Shared.Dict.{lookup}
use webtracker.Domain.Monitor.{Monitor}
use webtracker.Resilience.RedisClient.{Job}
use webtracker.Redis.Store.{IsJobStore, Dequeues}
use webtracker.Scheduler.{
  Call, JobScheduler, schedule_monitor, reschedule_monitor, unschedule_monitor, process_due_jobs,
}
use webtracker.Scheduler.Accounts.{
  was_scheduled, was_lost, was_processed, about, entry_about, KeepsJobs, IsBalanced,
  process_due_jobs_lem, schedule_monitor_lem,
}
use webtracker.WorkerPool.{
  Worker, Services, workers_from, take_job, finish_job, end_job, execute_job, after_dequeue,
}

pub record System (W : Type 0) : Type 0 where
  pub workers : List Worker
  pub calls : Logged W Call

-- A monitor is scheduled, or scheduled anew; the scheduler's ticker fires; worker i asks for a
-- job, or finishes the one that it has.
pub data Op : Type 0 where
  schedules : Monitor → Op
  reschedules : Monitor → Op
  ticks : Op
  takes : ℕ → Op
  finishes : ℕ → Op

-- A step of the worker at an index.
abbrev pub at_worker :
    {S : Type 0} → (Worker → S → Worker × S) → ℕ → List Worker → S → List Worker × S
at_worker f i [] s = ([], s)
at_worker f zero (w ∷ ws) s = let (w', s') = f w s in (w' ∷ ws, s')
at_worker f (suc i) (w ∷ ws) s = let (ws', s') = at_worker f i ws s in (w ∷ ws', s')

abbrev by_workers : {W : Type 0} → List Worker × Logged W Call → System W
by_workers (ws, calls) = record { workers = ws; calls = calls }

-- How many of the workers' jobs have an id that passes a test.
abbrev in_hand : (String → Bool) → Option Job → ℕ
in_hand p none = 0
in_hand p (some job) = if p job.id then 1 else 0

abbrev pub held : (String → Bool) → List Worker → ℕ
held p [] = 0
held p (w ∷ ws) = in_hand p w.job + held p ws

module _ {W B C : Type 0} (s : JobScheduler W B) (svc : Services W B C) where
  abbrev pub act : Op → System W → System W
  act (schedules m) t = record t { calls = (schedule_monitor s m t.calls).1 }
  act (reschedules m) t = record t { calls = (reschedule_monitor s m t.calls).1 }
  act ticks t = record t { calls = (process_due_jobs s t.calls).1 }
  act (takes i) t = by_workers (at_worker (take_job svc) i t.workers t.calls)
  act (finishes i) t = by_workers (at_worker (finish_job svc) i t.workers t.calls)

  abbrev pub run : List Op → System W → System W
  run [] t = t
  run (op ∷ ops) t = run ops (act op t)

module _ {W B C : Type 0} (s : JobScheduler W B) (svc : Services W B C) (queued : W → List Job)
    (schedule : W → List (ℕ × Job)) (same_redis : svc.redis ≡ s.redis)
    (same_queue : svc.queue_name ≡ s.queue_name)
    (store : IsJobStore s.redis s.queue_name s.schedule_name queued schedule)
    (clock_keeps : KeepsJobs queued schedule s.clock)
    (random_keeps : KeepsJobs queued schedule s.random)
    (check_keeps : (id : String) → KeepsJobs queued schedule (svc.execute_check id))
    (p : String → Bool) where
  abbrev Balanced : ℕ → Logged W Call → Type 0
  Balanced = IsBalanced queued schedule p

  dequeued_lem :
      (hand : ℕ) (r : Result (Option Job)) (w : Worker) (t : Logged W Call) (world : W)
      → w.job ≡ none
      → Dequeues (queued t.world) r (queued world)
      → schedule world ≡ schedule t.world
      → Balanced hand t
      → Balanced (in_hand p (after_dequeue svc r w).job + hand) (record t { world = world })
  unfolding after_dequeue
  dequeued_lem hand (ok none) w t world e (e', e'') same h = record {
    balance = rw (e, same, e'') (omega (arith, rw e' at h.balance));
  }
  dequeued_lem hand (ok (some job)) w t world e done same h = record {
    balance = rw same (omega (arith, rw done at h.balance));
  }
  dequeued_lem hand (err x) w t world e done same h = record {
    balance = rw (e, same, done) (omega (arith, h.balance));
  }

  -- A step of one worker, which has `hand` jobs beside it in the balance.
  Steps : (Worker → Logged W Call → Worker × Logged W Call) → Type 0
  Steps f =
      (hand : ℕ) (w : Worker) (t : Logged W Call)
      → Balanced (in_hand p w.job + hand) t
      → Balanced (in_hand p (f w t).0.job + hand) (f w t).1

  take_job-Steps : Steps (take_job svc)
  unfolding Steps take_job
  take_job-Steps hand w t h = elim (Option-cases w.job) [
    | inr (job, e) ↦ rw e (rw e at h)
    | inl e ↦
        let (done, same) = store.dequeue_effect (pos (seconds 1)) t.world in
        rw (e, same_redis, same_queue)
          (dequeued_lem hand _ (record w { job = none }) t _ refl done same
            (record { balance = omega (arith, rw e at h.balance) }))
  ]

  executed_lem :
      (hand : ℕ) (job : Job) (t : Logged W Call)
      → Balanced ((if p job.id then 1 else 0) + hand) t
      → Balanced hand (execute_job svc job t)
  unfolding execute_job
  executed_lem hand job t h = elim (Option-cases (lookup "monitor_id" job.payload)) [
    | inl e ↦ rw (execute_job, e) (record { balance = omega (arith, h.balance) })
    | inr (id, e) ↦
        rw (execute_job, e)
          (record {
            balance =
                rw ((check_keeps id).same_queue t.world, (check_keeps id).same_schedule t.world)
                  (omega (arith, h.balance));
          })
  ]

  finish_job-Steps : Steps (finish_job svc)
  unfolding Steps finish_job end_job
  finish_job-Steps hand w t h = elim (Option-cases w.job) [
    | inl e ↦ rw e (rw e at h)
    | inr (job, e) ↦
        rw e (record { balance = omega (arith, (executed_lem hand job t (rw e at h)).balance) })
  ]

  at_worker-Balanced :
      (f : Worker → Logged W Call → Worker × Logged W Call) (i : ℕ) (ws : List Worker) (hand : ℕ)
      (t : Logged W Call)
      → Steps f
      → Balanced (held p ws + hand) t
      → Balanced (held p (at_worker f i ws t).0 + hand) (at_worker f i ws t).1
  unfolding Steps
  at_worker-Balanced f i [] hand t k h = h
  at_worker-Balanced f zero (w ∷ ws) hand t k h = record {
    balance =
        omega (
          arith,
          (k (held p ws + hand) w t (record { balance = omega (arith, h.balance) })).balance,
        );
  }
  at_worker-Balanced f (suc i) (w ∷ ws) hand t k h = record {
    balance = omega (
      arith,
      (at_worker-Balanced f i ws (in_hand p w.job + hand) t k
          (record { balance = omega (arith, h.balance) })).balance,
    );
  }

  SystemBalanced : System W → Type 0
  SystemBalanced t = Balanced (held p t.workers + 0) t.calls

  act-Balanced : (op : Op) (t : System W) → SystemBalanced t → SystemBalanced (act s svc op t)
  unfolding SystemBalanced reschedule_monitor unschedule_monitor
  act-Balanced (schedules m) t h =
      schedule_monitor_lem s queued schedule store clock_keeps random_keeps p _ m t.calls h
  act-Balanced (reschedules m) t h =
      schedule_monitor_lem s queued schedule store clock_keeps random_keeps p _ m t.calls h
  act-Balanced ticks t h =
      process_due_jobs_lem s queued schedule store clock_keeps random_keeps p _ t.calls h
  act-Balanced (takes i) t h = at_worker-Balanced _ i t.workers 0 t.calls take_job-Steps h
  act-Balanced (finishes i) t h = at_worker-Balanced _ i t.workers 0 t.calls finish_job-Steps h

  run-Balanced :
      (ops : List Op) (t : System W) → SystemBalanced t → SystemBalanced (run s svc ops t)
  run-Balanced [] t h = h
  run-Balanced (op ∷ ops) t h = run-Balanced ops (act s svc op t) (act-Balanced op t h)

  held_at_start : (n i : ℕ) → held p (workers_from n i) ≡ 0
  held_at_start zero i = refl
  held_at_start (suc n) i = omega (arith, held_at_start n (suc i))

  -- A scheduler and workers that start without jobs: however their steps interleave and whatever
  -- Redis and the checks answer, the jobs with ids that pass a test and that are in the schedule, in
  -- the queue or with a worker, or have been processed, or were lost because Redis refused to queue
  -- them when they were due, are together no more than the jobs with such ids that were scheduled.
  pub jobs_conserved :
      (n : ℕ) (w : W) (ops : List Op)
      → schedule w ≡ []
      → queued w ≡ []
      → let t =
          run s svc ops
            (record { workers = workers_from n 0; calls = record { world = w; log = [] } }) in
        tally (entry_about p) (schedule t.calls.world)
          + tally (about p) (queued t.calls.world)
          + held p t.workers
          + tally (was_processed p) t.calls.log
          + tally (was_lost p) t.calls.log
        ≤ tally (was_scheduled p) t.calls.log
  unfolding SystemBalanced
  jobs_conserved n w ops e f =
      let start : System W = record {
        workers = workers_from n 0;
        calls = record { world = w; log = [] };
      } in
      let fresh : SystemBalanced start = record {
        balance = rw (e, f) (omega (arith, held_at_start n 0));
      } in
      omega (arith, (run-Balanced ops start fresh).balance)
