-- ===== src/Scheduler.antt =====
-- usecase/scheduler.go: when checks are due, by jobs in a sorted set of Redis, and their queue.
-- The Redis client, the clock, the random number, the operations on floats and the text of a job's
-- id are parameters over the state `W` of the world. Scheduling and queueing are noted. Logging is
-- left out.
pub mod Accounts
pub mod Ticks
pub mod Restart
use webtracker.Shared.{
  ℕ, suc, ◌-◌, ◌*◌, ◌/◌, ◌≡◌, Bool, true, false, not, Option, none, some, String, List, [], ◌∷◌,
  if◌then◌else◌, leb,
}
use webtracker.Shared.Int.{ℤ, pos, negsuc, sub_ℕ, add_int64}
use webtracker.Shared.Float.{Float64, Floats}
use webtracker.Shared.Clock.{Instant, Duration, add}
use webtracker.Shared.Dict.{lookup}
use webtracker.Shared.Errors.{Error, Result, Outcome, ok, err, failure}
use webtracker.Shared.Effects.{M, pure, context, attempt, ignored, ◌>>=◌, ◌>>◌}
use webtracker.Shared.Log.{Logged, quiet, reading, noted}
use webtracker.Domain.Monitor.{Monitor}
use webtracker.MonitorService.{Scheduler}
use webtracker.Resilience.RedisClient.{Job, Client}

-- Jobs that were scheduled, with the answer of Redis, queued, and processed by a worker, with the
-- answer of the check where there was one.
pub data Call : Type 0 where
  scheduled : Job → Instant → Outcome → Call
  enqueued : Job → Outcome → Call
  processed : Job → Option Outcome → Call

-- The part of the scheduler that `Start` and `Stop` change: is it running, is its channel `stopCh`
-- closed, and how many main loops have not returned.
pub record Lifecycle : Type 0 where
  pub running : Bool
  pub stop_closed : Bool
  pub loops : ℕ

abbrev pub new_lifecycle : Lifecycle
new_lifecycle = record { running = false; stop_closed = false; loops = 0 }

-- A call either returns, or panics: a channel that is closed cannot be closed again.
pub data Returns : Type 0 where
  returned : Outcome → Lifecycle → Returns
  panicked : Returns

unfoldable pub start : Lifecycle → Returns
start s =
    if s.running
    then returned (err (failure "scheduler is already running")) s
    else returned (ok tt) (record s { running = true; loops = suc s.loops })

-- `Stop` waits until no loop is left; a loop that finds the channel closed returns.
unfoldable pub stop : Lifecycle → Returns
stop s =
    if not s.running
    then returned (ok tt) s
    else if s.stop_closed
    then panicked
    else returned (ok tt) (record s { running = false; stop_closed = true; loops = 0 })

-- The `select` of the main loop before a tick: a closed channel ends the loop.
unfoldable pub poll : Lifecycle → Lifecycle
poll s = if s.stop_closed then record s { loops = s.loops - 1 } else s

-- The random number is `rand.Float64()`.
unfoldable pub jitter : Floats → Duration → Float64 → Duration
jitter fl interval random =
    let jitter_range = fl.mul (fl.of_int interval) fl.tenth in
    let centred = fl.sub (fl.mul random (fl.of_int (pos 2))) (fl.of_int (pos 1)) in
    fl.to_int (fl.mul centred jitter_range)

unfoldable pub next_execution : Floats → Instant → Duration → Float64 → Instant
unfolding jitter
next_execution fl base interval random = add base (add_int64 interval (jitter fl interval random))

pub record JobScheduler (W B : Type 0) : Type 0 where
  pub redis : Client W B
  pub clock : W → Instant × W
  pub random : W → Float64 × W
  pub floats : Floats
  pub job_id : String → Instant → String
  pub schedule_name : String
  pub queue_name : String

module _ {W B : Type 0} (s : JobScheduler W B) where
  abbrev pub job_for : Monitor → Instant → Instant → Job
  job_for monitor named_at created_at = record {
    id = s.job_id monitor.id named_at;
    type = "health_check";
    payload = ("monitor_id", monitor.id) ∷ [];
    created_at = created_at;
  }

  unfoldable pub schedule_at : Monitor → Instant → Float64 → M (Logged W Call) (Unit {0})
  schedule_at monitor now r = do
    named_at ← reading s.clock
    created_at ← reading s.clock
    let job = job_for monitor named_at created_at
    let at = next_execution s.floats now monitor.check_interval r
    context "failed to schedule monitor"
        (noted (scheduled job at) (s.redis.schedule s.schedule_name job at))

  unfoldable pub schedule_monitor : Monitor → M (Logged W Call) (Unit {0})
  unfolding schedule_at
  schedule_monitor monitor =
      if not monitor.enabled
      then pure tt
      else do now ← reading s.clock; r ← reading s.random; schedule_at monitor now r

  unfoldable pub unschedule_monitor : String → M (Logged W Call) (Unit {0})
  unschedule_monitor id = pure tt

  unfoldable pub reschedule_monitor : Monitor → M (Logged W Call) (Unit {0})
  unfolding unschedule_monitor schedule_monitor
  reschedule_monitor monitor = do ignored (unschedule_monitor monitor.id); schedule_monitor monitor

  -- The scheduler as the monitor service calls it.
  abbrev pub scheduler : Scheduler (Logged W Call)
  scheduler = record {
    schedule_monitor = schedule_monitor;
    unschedule_monitor = unschedule_monitor;
    reschedule_monitor = reschedule_monitor;
  }

  -- A placeholder in the code, too: it only logs.
  unfoldable pub schedule_next_execution : String → Job → M (Logged W Call) (Unit {0})
  schedule_next_execution monitor_id job = pure tt

  unfoldable pub after_enqueue : Job → Outcome → M (Logged W Call) (Unit {0})
  unfolding schedule_next_execution
  after_enqueue job (err e) = pure tt
  after_enqueue job (ok _) = elim (lookup "monitor_id" job.payload) [
    | none ↦ pure tt
    | some monitor_id ↦ schedule_next_execution monitor_id job
  ]

  unfoldable pub enqueue_all : List Job → M (Logged W Call) (Unit {0})
  unfolding after_enqueue
  enqueue_all [] = pure tt
  enqueue_all (job ∷ jobs) = do
    answer ← attempt (noted (enqueued job) (s.redis.enqueue s.queue_name job))
    after_enqueue job answer
    enqueue_all jobs

  unfoldable pub enqueue_due : Result (List Job) → M (Logged W Call) (Unit {0})
  unfolding enqueue_all
  enqueue_due (err e) = pure tt
  enqueue_due (ok jobs) = enqueue_all jobs

  unfoldable pub process_due_jobs : M (Logged W Call) (Unit {0})
  unfolding enqueue_due
  process_due_jobs = do
    now ← reading s.clock
    found ← attempt (quiet (s.redis.get_due_jobs s.schedule_name now))
    enqueue_due found
