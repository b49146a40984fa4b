-- ===== src/WorkerPool.antt =====
-- usecase/worker_pool.go: the workers that take jobs from the queue and run the checks.
-- The Redis client and the execution of a check are parameters over the state `W` of the world.
-- A worker holds the job that its goroutine is processing. Taking a job and finishing it are two
-- steps, since other goroutines run between them. The queue's name and logging are as in Scheduler.
pub mod Jobs
use webtracker.Shared.{
  ℕ, zero, suc, Bool, true, false, not, Option, none, some, String, List, [], ◌∷◌, if◌then◌else◌,
}
use webtracker.Shared.Int.{ℤ, pos, incr, leb_ℤ, eqb_ℤ, add_int64}
use webtracker.Shared.Clock.{Duration, seconds}
use webtracker.Shared.Dict.{lookup}
use webtracker.Shared.Errors.{Result, Outcome, ok, err, failure}
use webtracker.Shared.Effects.{M, pure, attempt, ◌>>=◌, ◌>>◌}
use webtracker.Shared.Log.{Logged, quiet, noted}
use webtracker.Resilience.RedisClient.{Job, Client}
use webtracker.Scheduler.{Call, processed}

pub record Worker : Type 0 where
  pub id : ℕ
  pub active : ℤ
  pub processed_jobs : ℤ
  pub job : Option Job

pub record WorkerPool : Type 0 where
  pub num_workers : ℤ
  pub workers : List Worker
  pub running : Bool
  pub stop_closed : Bool

pub record WorkerPoolStats : Type 0 where
  pub active_workers : ℤ
  pub queue_depth : ℤ
  pub processed_jobs : ℤ

abbrev pub new_worker_pool : WorkerPool
new_worker_pool = record {
  num_workers = pos 10;
  workers = [];
  running = false;
  stop_closed = false;
}

abbrev pub new_worker : ℕ → Worker
new_worker i = record { id = i; active = pos 0; processed_jobs = pos 0; job = none }

-- for i := 0; i < numWorkers; i++
abbrev pub workers_from : ℕ → ℕ → List Worker
workers_from zero i = []
workers_from (suc n) i = new_worker i ∷ workers_from n (suc i)

abbrev make_workers : ℤ → List Worker
make_workers (pos n) = workers_from n 0
make_workers n = []

abbrev pub pool_size : WorkerPool → ℤ → ℤ
pool_size wp num_workers = if leb_ℤ num_workers (pos 0) then wp.num_workers else num_workers

unfoldable pub start : WorkerPool → ℤ → Outcome × WorkerPool
start wp num_workers =
    if wp.running then (err (failure "worker pool is already running"), wp) else (
      ok tt,
      record wp {
        num_workers = pool_size wp num_workers;
        workers = make_workers (pool_size wp num_workers);
        running = true;
      },
    )

-- `Stop`, once the workers have finished their jobs; closing the channel again panics (none).
unfoldable pub stop : WorkerPool → Option (Outcome × WorkerPool)
stop wp =
    if not wp.running
    then some (ok tt, wp)
    else if wp.stop_closed
    then none
    else some (ok tt, record wp { running = false; stop_closed = true })

abbrev count_worker : Worker → ℤ × ℤ → ℤ × ℤ
count_worker w (active, total) =
    (if eqb_ℤ w.active (pos 1) then incr active else active, add_int64 total w.processed_jobs)

unfoldable pub count_workers : List Worker → ℤ × ℤ → ℤ × ℤ
count_workers [] sums = sums
count_workers (w ∷ ws) sums = count_workers ws (count_worker w sums)

-- The two atomic writes before a job, and the two after it.
abbrev pub begin_job : Job → Worker → Worker
begin_job job w = record w { active = pos 1; job = some job }

unfoldable pub end_job : Worker → Worker
end_job w = record w { active = pos 0; processed_jobs = incr w.processed_jobs; job = none }

abbrev depth_of : Result ℕ → ℤ
depth_of (ok n) = pos n
depth_of (err e) = pos 0

-- `Checks` stands for the check that an execution returns.
pub record Services (W B Checks : Type 0) : Type 0 where
  pub redis : Client W B
  pub execute_check : String → M W Checks
  pub queue_name : String

abbrev without_value : {A : Type 0} → Result A → Outcome
without_value (ok a) = ok tt
without_value (err e) = err e

module _ {W B C : Type 0} (svc : Services W B C) where
  unfoldable pub get_stats : WorkerPool → W → WorkerPoolStats × W
  unfolding count_workers
  get_stats wp world =
      let (answer, world') = svc.redis.get_queue_length svc.queue_name world in
      let (active, total) = count_workers wp.workers (pos 0, pos 0) in
      (
        record { active_workers = active; queue_depth = depth_of answer; processed_jobs = total },
        world',
      )

  -- The work on a job: its check is executed, and an error of the check is logged only.
  unfoldable pub execute_job : Job → Logged W Call → Logged W Call
  execute_job job s = elim (lookup "monitor_id" job.payload) [
    | none ↦ record s { log = processed job none ∷ s.log }
    | some monitor_id ↦
        let (answer, world) = svc.execute_check monitor_id s.world in
        record { world = world; log = processed job (some (without_value answer)) ∷ s.log }
  ]

  unfoldable pub after_dequeue : Result (Option Job) → Worker → Worker
  after_dequeue (ok (some job)) w = begin_job job w
  after_dequeue (ok none) w = w
  after_dequeue (err e) w = w

  -- A worker that has no job asks the queue for one.
  unfoldable pub take_job : Worker → Logged W Call → Worker × Logged W Call
  unfolding after_dequeue
  take_job w s = elim w.job [
    | some job ↦ (w, s)
    | none ↦
        let (answer, world) = svc.redis.dequeue svc.queue_name (pos (seconds 1)) s.world in
        (after_dequeue answer w, record s { world = world })
  ]

  unfoldable pub finish_job : Worker → Logged W Call → Worker × Logged W Call
  unfolding execute_job end_job
  finish_job w s = elim w.job [ none ↦ (w, s) | some job ↦ (end_job w, execute_job job s) ]
