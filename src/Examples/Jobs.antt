-- ===== src/Examples/Jobs.antt =====
-- The Redis client, the scheduler and the workers over a Redis in memory, whose values are jobs.
use webtracker.Shared.{
  map, ◌+◌, ◌-◌, ◌*◌, ◌/◌, ◌==◌, All, ℕ, zero, suc, ◌+◌, ◌*◌, ◌≤◌, ◌<◌, ◌≡◌, refl, Bool, true,
  false, Option, none, some, String, List, [], ◌∷◌, ◌++◌, sym, str_eq, arith, tally, if◌then◌else◌,
  leb, length,
}
use webtracker.Shared.Int.{pos_part, pos}
use webtracker.Shared.Clock.{Instant, minutes}
use webtracker.Shared.Errors.{Result, ok}
use webtracker.Resilience.RedisClient.{Job, Client}
use webtracker.Redis.{Commands, Json, client, unmarshal_all, take_due, enqueue, get_due_jobs, unix}
use webtracker.Redis.Store.{IsOrdered, IsJobStore, due, later, snds, added}
use webtracker.WorkerPool.{Services, workers_from}
use webtracker.Examples.Data.{site}
use webtracker.WorkerPool.Jobs.{
  Op, schedules, ticks, takes, finishes, System, run, held, jobs_conserved,
}
use webtracker.Redis.Served.{Pops, Serves, decode, decode_entries, queued_jobs, scheduled_jobs}
use webtracker.Redis.Operations.{client-IsJobStore}
use webtracker.Shared.Float.{Floats}
use webtracker.Scheduler.{
  JobScheduler, next_execution, Call, schedule_monitor, process_due_jobs, poll, stop, start,
  panicked,
}
use webtracker.Scheduler.Restart
use webtracker.Scheduler.Restart.{starts, stops, IsSingle, run-IsSingle, restart_fails}
use webtracker.Shared.Log.{Logged}
use webtracker.Scheduler.Accounts.{
  KeepsJobs, about, entry_about, was_scheduled, was_processed, was_lost,
}
use webtracker.Scheduler.Ticks.{contents, Answers, process_due_jobs_effect}

insert : ℕ → Job → List (ℕ × Job) → List (ℕ × Job)
insert n job [] = (n, job) ∷ []
insert n job ((k, j) ∷ l) =
    let rest = insert n job l in if leb n k then (n, job) ∷ (k, j) ∷ l else (k, j) ∷ rest

insert-All :
    (m n : ℕ) (job : Job) (l : List (ℕ × Job))
    → m ≤ n
    → All (λ (e : ℕ × Job). m ≤ e.0) l
    → All (λ (e : ℕ × Job). m ≤ e.0) (insert n job l)
unfolding insert
insert-All m n job [] h all = ground arith
insert-All m n job ((k, j) ∷ l) h all = ground (arith, insert-All m n job l h all.1, all.0, all.1)

weaken :
    (m n : ℕ) (l : List (ℕ × Job))
    → m ≤ n
    → All (λ (e : ℕ × Job). n ≤ e.0) l
    → All (λ (e : ℕ × Job). m ≤ e.0) l
weaken m n [] h all = tt
weaken m n ((k, j) ∷ l) h all = ground (arith, all.0, weaken m n l h all.1)

insert-IsOrdered :
    (n : ℕ) (job : Job) (l : List (ℕ × Job)) → IsOrdered l → IsOrdered (insert n job l)
unfolding insert
insert-IsOrdered n job [] h = ground arith
insert-IsOrdered n job ((k, j) ∷ l) h = ground (
  arith,
  insert-IsOrdered n job l h.1,
  h.0,
  h.1,
  λ (le : n ≤ k). weaken n k l le h.0,
  λ (le : k ≤ n). insert-All k n job l le h.0,
)

tally-insert :
    (q : ℕ × Job → Bool) (n : ℕ) (job : Job) (l : List (ℕ × Job))
    → tally q (insert n job l) ≡ tally q l + tally q ((n, job) ∷ [])
unfolding insert
tally-insert q n job [] = omega arith
tally-insert q n job ((k, j) ∷ l) = ground (arith, tally-insert q n job l)

drop : ℕ → List (ℕ × Job) → List (ℕ × Job)
drop zero l = l
drop (suc n) [] = []
drop (suc n) (e ∷ l) = drop n l

drop-IsOrdered : (n : ℕ) (l : List (ℕ × Job)) → IsOrdered l → IsOrdered (drop n l)
unfolding drop
drop-IsOrdered zero l h = h
drop-IsOrdered (suc n) [] h = h
drop-IsOrdered (suc n) (e ∷ l) h = drop-IsOrdered n l h.1

drop-snds : (front rest : List (ℕ × Job)) → drop (length (snds front)) (front ++ rest) ≡ rest
unfolding drop
drop-snds [] rest = refl
drop-snds (e ∷ l) rest = drop-snds l rest

-- The server's list and sorted set, the time, and a random number.
record Memory : Type 0 where
  items : List Job
  members : List (ℕ × Job)
  in_order : IsOrdered members
  now : Instant
  number : ℕ

pop_item : List Job → Result (Option (List Job)) × List Job
pop_item [] = (ok none, [])
pop_item (job ∷ l) = (ok (some (job ∷ job ∷ [])), l)

pop_item_lem : (l : List Job) → Pops l (pop_item l).0 (pop_item l).1
unfolding pop_item
pop_item_lem [] = (refl, refl)
pop_item_lem (job ∷ l) = (job, job, refl, refl)

abbrev commands : Commands Memory Job
commands = record {
  get = λ t k m. (ok none, m);
  set = λ t k b d m. (ok tt, m);
  del = λ t k m. (ok tt, m);
  rpush = λ q b m. (ok tt, record m { items = m.items ++ b ∷ [] });
  blpop = λ d q m. let (r, l) = pop_item m.items in (r, record m { items = l });
  zadd = λ q n b m. (
    ok tt,
    record m {
      members = insert n b m.members;
      in_order = insert-IsOrdered n b m.members m.in_order;
    },
  );
  zrange_by_score = λ q n m. (ok (snds (due n m.members)), m);
  zrem = λ q l m. (
    ok tt,
    record m {
      members = drop (length l) m.members;
      in_order = drop-IsOrdered (length l) m.members m.in_order;
    },
  );
  llen = λ q m. (ok (length m.items), m);
  zcard = λ q m. (ok (length m.members), m);
  ping = λ m. (ok tt, m);
  close = λ m. (ok tt, m);
}

-- The codec of jobs that are stored as they are.
abbrev json : Json Job Job
json = record { marshal = ok; unmarshal = ok }

-- Six minutes pass between two readings of the clock.
abbrev clock : Memory → Instant × Memory
clock m = (m.now, record m { now = m.now + minutes 6 })

serves : Serves commands json clock "jobs" "schedule"
serves = record {
  items = λ m. m.items;
  members = λ m. m.members;
  ordered = λ m. m.in_order;
  round_trip = λ job b e. sym e;
  clock_keeps = λ m. (refl, refl);
  rpush_effect = λ b m. (refl, refl);
  blpop_effect = λ t m. (pop_item_lem m.items, refl);
  zadd_effect = λ n b m. (added (λ q. tally-insert q n b m.members), refl);
  zrange_effect = λ n m. (refl, refl, refl);
  zrem_effect = λ m front rest e. (rw e (drop-snds front rest), refl);
}

abbrev redis : Client Memory Job
redis = client commands json clock json

client-IsJobStore_example :
    IsJobStore redis "jobs" "schedule" (queued_jobs serves) (scheduled_jobs serves)
client-IsJobStore_example = client-IsJobStore commands json clock "jobs" "schedule" serves json

-- Numbers that are whole, of which a tenth is nothing.
abbrev whole : Floats
whole = record {
  of_int = pos_part;
  to_int = pos;
  add = λ x y. x + y;
  sub = λ x y. x - y;
  mul = λ x y. x * y;
  div = λ x y. x / y;
  floor = λ x. x;
  round = λ x. x;
  ceil = λ x. x;
  eq = λ x y. x == y;
  tenth = 0;
}

abbrev scheduler : JobScheduler Memory Job
scheduler = record {
  redis = redis;
  clock = clock;
  random = λ m. (m.number, m);
  floats = whole;
  job_id = λ id t. id;
  schedule_name = "schedule";
  queue_name = "jobs";
}

abbrev services : Services Memory Job (Unit {0})
services = record { redis = redis; execute_check = λ id m. (ok tt, m); queue_name = "jobs" }

abbrev empty_memory : Memory
empty_memory = record { items = []; members = []; in_order = tt; now = minutes 10; number = 7 }

clock_keeps : KeepsJobs (queued_jobs serves) (scheduled_jobs serves) clock
unfolding queued_jobs scheduled_jobs serves
clock_keeps = record { same_queue = λ w. refl; same_schedule = λ w. refl }

random_keeps : KeepsJobs (queued_jobs serves) (scheduled_jobs serves) scheduler.random
random_keeps = record { same_queue = λ w. refl; same_schedule = λ w. refl }

check_keeps :
    (id : String)
    → KeepsJobs (queued_jobs serves) (scheduled_jobs serves) (services.execute_check id)
check_keeps id = record { same_queue = λ w. refl; same_schedule = λ w. refl }

-- The monitor is scheduled twice, both jobs become due, one is processed, and one is with a worker.
abbrev ops : List Op
ops = schedules site ∷ schedules site ∷ ticks ∷ takes 0 ∷ takes 1 ∷ finishes 0 ∷ []

abbrev is_site : String → Bool
is_site id = str_eq id "m1"

abbrev ends : System Memory
ends =
    run scheduler services ops
      (record { workers = workers_from 2 0; calls = record { world = empty_memory; log = [] } })

jobs_conserved_example :
    tally (entry_about is_site) (scheduled_jobs serves ends.calls.world)
      + tally (about is_site) (queued_jobs serves ends.calls.world)
      + held is_site ends.workers
      + tally (was_processed is_site) ends.calls.log
      + tally (was_lost is_site) ends.calls.log
    ≤ tally (was_scheduled is_site) ends.calls.log
unfolding queued_jobs scheduled_jobs serves decode decode_entries
jobs_conserved_example =
    jobs_conserved scheduler services (queued_jobs serves) (scheduled_jobs serves) refl refl
      client-IsJobStore_example clock_keeps random_keeps check_keeps is_site 2 empty_memory ops refl
      refl

unmarshal_all_ok : (l : List Job) (w : Memory) → unmarshal_all commands json clock l w ≡ (ok l, w)
unfolding unmarshal_all
unmarshal_all_ok [] w = refl
unmarshal_all_ok (job ∷ l) w = rw (unmarshal_all_ok l w) refl

take_due_ok :
    (l : List Job) (w : Memory)
    → (jobs : List Job) × ((take_due commands json clock "schedule" l w).0 ≡ ok jobs)
unfolding take_due
take_due_ok [] w = ([], refl)
take_due_ok (job ∷ l) w = (job ∷ l, rw (unmarshal_all_ok (job ∷ l) w) refl)

answers :
    Answers scheduler
      (queued_jobs serves)
      (scheduled_jobs serves)
      client-IsJobStore_example
      clock_keeps
unfolding enqueue get_due_jobs
answers = record {
  enqueues = λ job w. refl;
  finds = λ t w. take_due_ok (snds (due (unix t) w.members)) w;
}

abbrev waiting : Logged Memory Call
waiting = (schedule_monitor scheduler site (record { world = empty_memory; log = [] })).1

abbrev ticked : Logged Memory Call
ticked = (process_due_jobs scheduler waiting).1

process_due_jobs_effect_example :
    let now = (clock waiting.world).0 in
    (contents (queued_jobs serves ticked.world)
      ≡ contents (queued_jobs serves waiting.world)
        ++ contents (snds (due (unix now) (scheduled_jobs serves waiting.world))))
    × (scheduled_jobs serves ticked.world ≡ later (unix now) (scheduled_jobs serves waiting.world))
process_due_jobs_effect_example =
    process_due_jobs_effect scheduler (queued_jobs serves) (scheduled_jobs serves)
      client-IsJobStore_example clock_keeps answers waiting

-- That tick queues the job.
ticked_queue : map (λ job. job.id) (queued_jobs serves ticked.world) ≡ "m1" ∷ []
unfolding queued_jobs serves decode schedule_monitor process_due_jobs next_execution
    webtracker.Redis.schedule enqueue get_due_jobs insert webtracker.Shared.Int.add_int64
    webtracker.Shared.Int.from_bits webtracker.Scheduler.jitter webtracker.Shared.Dict.lookup
ticked_queue = refl

restart_fails_example :
    let s = Restart.run (starts ∷ stops ∷ starts ∷ []) in
    (s.running ≡ true) × ((poll s).loops ≡ 0) × (stop s ≡ panicked)
unfolding start
restart_fails_example = restart_fails (starts ∷ []) refl refl
