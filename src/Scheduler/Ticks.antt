-- ===== src/Scheduler/Ticks.antt =====
-- scheduler.go over a queue and a schedule of jobs: what a tick does while Redis answers.
use webtracker.Shared.{ℕ, ◌≡◌, List, [], ◌∷◌, ◌++◌, arith, refl, sym, ◌∙◌}
use webtracker.Shared.Clock.{Instant}
use webtracker.Shared.Errors.{Outcome, ok, err}
use webtracker.Shared.Log.{Logged}
use webtracker.Resilience.RedisClient.{Job}
use webtracker.Redis.Store.{IsJobStore, due, later, snds, Enqueues}
use webtracker.Redis.{unix}
use webtracker.Scheduler.{Call, enqueued, JobScheduler, enqueue_all, process_due_jobs}
use webtracker.Scheduler.Accounts.{KeepsJobs, after_enqueue_lem}

-- A job but for the instant at which it was queued, which `Enqueue` sets.
abbrev content : Job → Job
content job = record job { created_at = 0 }

abbrev pub contents : List Job → List Job
contents [] = []
contents (job ∷ jobs) = content job ∷ contents jobs

contents-append : (xs ys : List Job) → contents (xs ++ ys) ≡ contents xs ++ contents ys
contents-append [] ys = refl
contents-append (x ∷ xs) ys = ground (arith, contents-append xs ys)

append_assoc : (xs ys zs : List Job) → xs ++ ys ++ zs ≡ xs ++ (ys ++ zs)
append_assoc [] ys zs = refl
append_assoc (x ∷ xs) ys zs = ground (arith, append_assoc xs ys zs)

append_nil : (xs : List Job) → xs ++ [] ≡ xs
append_nil [] = refl
append_nil (x ∷ xs) = ground (arith, append_nil xs)

module _ {W B : Type 0} (s : JobScheduler W B) (queued : W → List Job)
    (schedule : W → List (ℕ × Job))
    (store : IsJobStore s.redis s.queue_name s.schedule_name queued schedule)
    (clock_keeps : KeepsJobs queued schedule s.clock) where
  pub record Answers : Type 0 where
    pub enqueues : (job : Job) (w : W) → (s.redis.enqueue s.queue_name job w).0 ≡ ok tt
    pub finds :
        (t : Instant) (w : W)
        → (jobs : List Job) × ((s.redis.get_due_jobs s.schedule_name t w).0 ≡ ok jobs)

  queued_lem :
      (job : Job) (r : Outcome) (before after : List Job)
      → r ≡ ok tt
      → Enqueues job before r after
      → contents after ≡ contents before ++ content job ∷ []
  queued_lem job (ok _) before after e (t, f) =
      rw f (contents-append before (record job { created_at = t } ∷ []))
  queued_lem job (err x) before after e f = cc

  enqueue_all_effect :
      Answers
      → (jobs : List Job) (t : Logged W Call)
      → let t' = (enqueue_all s jobs t).1 in
        (contents (queued t'.world) ≡ contents (queued t.world) ++ contents jobs)
        × (schedule t'.world ≡ schedule t.world)
  unfolding enqueue_all
  enqueue_all_effect h [] t = (sym (append_nil _), refl)
  enqueue_all_effect h (job ∷ jobs) t =
      let (r, w) = s.redis.enqueue s.queue_name job t.world in
      let t' : Logged W Call = record { world = w; log = enqueued job r ∷ t.log } in
      let (done, same) = store.enqueue_effect job t.world in
      let (after, kept) = enqueue_all_effect h jobs t' in
      let one = queued_lem job r (queued t.world) (queued w) (h.enqueues job t.world) done in
      rw (after_enqueue_lem s job r t') (
        after
            ∙ rw one (append_assoc (contents (queued t.world)) (content job ∷ []) (contents jobs)),
        kept ∙ same,
      )

  -- While Redis answers, a tick takes the jobs out of the schedule whose second has come, and
  -- appends them to the queue in the order of their seconds, each as it was scheduled but for the
  -- instant of its creation, which the queue sets; the other jobs stay scheduled.
  pub process_due_jobs_effect :
      Answers
      → (t : Logged W Call)
      → let now = (s.clock t.world).0 in
        let t' = (process_due_jobs s t).1 in
        (contents (queued t'.world)
          ≡ contents (queued t.world) ++ contents (snds (due (unix now) (schedule t.world))))
        × (schedule t'.world ≡ later (unix now) (schedule t.world))
  unfolding process_due_jobs
  process_due_jobs_effect h t =
      let (now, w) = s.clock t.world in
      let (jobs, e) = h.finds now w in
      let (done, same) = store.due_effect now w in
      let w' = (s.redis.get_due_jobs s.schedule_name now w).1 in
      let taken = rw e at done in
      let (after, kept) = enqueue_all_effect h jobs (record t { world = w' }) in
      rw e (
        after
            ∙ rw (taken.0, same, clock_keeps.same_queue t.world, clock_keeps.same_schedule t.world)
                refl,
        kept ∙ rw (taken.1, clock_keeps.same_schedule t.world) refl,
      )
