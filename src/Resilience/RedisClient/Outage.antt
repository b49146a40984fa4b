-- ===== src/Resilience/RedisClient/Outage.antt =====
-- redis.go with rate_limiter.go: what works and what fails while Redis is down.
use webtracker.Shared.{◌≡◌, false, Option, none, String, [], arith}
use webtracker.Shared.Int.{ℤ}
use webtracker.Shared.Clock.{Instant, Duration}
use webtracker.Shared.Errors.{ok, err, redis_unavailable, key_not_found, wrapped}
use webtracker.RateLimiter.{
  Key, Timestamps, check_and_set_downtime_alert, check_and_set_ssl_alert, get_last_downtime_alert,
}
use webtracker.Degradation.{is_redis_available}
use webtracker.Resilience.HealthChecks.{Guarded}
use webtracker.Resilience.RedisClient.{
  Job, Client, get, set, set_json, get_json, delete, enqueue, dequeue, schedule, get_due_jobs,
  remove_scheduled_job, get_queue_length, get_schedule_length, as_cache,
}

module _ {W B : Type 0} (primary : Option (Client W B)) where
  -- While Redis counts as unavailable no command reaches it. Writes to the cache are skipped
  -- without an error and reads of JSON and of jobs that are due come back empty; a raw read and
  -- the queue's and the schedule's own operations report an error.
  pub outage :
      (now : Instant) (k : Key) (b : B) (d : Duration) (q : String) (j : Job) (s : Guarded W)
      → is_redis_available s.degrader ≡ false
      → (get primary now k s ≡ (err key_not_found, s))
        × (set primary now k b d s ≡ (ok tt, s))
        × (set_json primary now k b d s ≡ (ok tt, s))
        × (get_json primary now k s ≡ (ok none, s))
        × (delete primary now k s ≡ (ok tt, s))
        × (enqueue primary q j s ≡ (err redis_unavailable, s))
        × (dequeue primary q d s ≡ (err redis_unavailable, s))
        × (schedule primary q j now s ≡ (err redis_unavailable, s))
        × (get_due_jobs primary q now s ≡ (ok [], s))
        × (remove_scheduled_job primary q j s ≡ (ok tt, s))
        × (get_queue_length primary q s ≡ (ok 0, s))
        × (get_schedule_length primary q s ≡ (ok 0, s))
  unfolding get set set_json get_json delete enqueue dequeue schedule get_due_jobs
      remove_scheduled_job get_queue_length get_schedule_length
  outage now k b d q j s down = ground arith

  -- The rate limiter over the resilient client fails for every monitor while Redis counts as
  -- unavailable: it neither allows nor suppresses a downtime alert or an alert about a certificate,
  -- and it does not report the last downtime alert.
  pub limiter_fails_in_outage :
      (stamps : Timestamps B) (now : Instant) (id : String) (days : ℤ) (s : Guarded W)
      → is_redis_available s.degrader ≡ false
      → (check_and_set_downtime_alert (as_cache primary) stamps now id s
          ≡ (err (wrapped "failed to check rate limit" key_not_found), s))
        × (check_and_set_ssl_alert (as_cache primary) stamps now id days s
            ≡ (err (wrapped "failed to check SSL rate limit" key_not_found), s))
        × (get_last_downtime_alert (as_cache primary) stamps now id s
            ≡ (err (wrapped "failed to get last downtime alert" key_not_found), s))
  unfolding check_and_set_downtime_alert check_and_set_ssl_alert get_last_downtime_alert get
  limiter_fails_in_outage stamps now id days s down = ground arith
