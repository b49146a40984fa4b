-- ===== src/Resilience/RedisClient.antt =====
-- infrastructure/resilience/redis.go: the Redis client that does without Redis.
-- The wrapped client is a parameter, and may be nil; `B` stands for stored values, as bytes or as
-- JSON. The loggers are left out.
pub mod Outage
use webtracker.Shared.{
  ℕ, ◌≡◌, Bool, true, false, Option, none, some, String, List, [], ◌∷◌, if◌then◌else◌,
}
use webtracker.Shared.Clock.{Instant, Duration}
use webtracker.Shared.Errors.{Error, Result, Outcome, ok, err, redis_unavailable, key_not_found}
use webtracker.Shared.Effects.{M}
use webtracker.RateLimiter.{Key, RedisCache}
use webtracker.Degradation.{DegradationManager, is_redis_available, set_redis_down}
use webtracker.Resilience.HealthChecks.{Guarded}

pub record Job : Type 0 where
  pub id : String
  pub type : String
  pub payload : List (String × String)
  pub created_at : Instant

pub record Client (W B : Type 0) : Type 0 where
  pub cache : RedisCache W B
  pub get_json : Instant → Key → M W (Option B)
  pub set_json : Instant → Key → B → Duration → M W (Unit {0})
  pub enqueue : String → Job → M W (Unit {0})
  pub dequeue : String → Duration → M W (Option Job)
  pub schedule : String → Job → Instant → M W (Unit {0})
  pub get_due_jobs : String → Instant → M W (List Job)
  pub remove_scheduled_job : String → Job → M W (Unit {0})
  pub get_queue_length : String → M W ℕ
  pub get_schedule_length : String → M W ℕ
  pub ping : M W (Unit {0})
  pub close : M W (Unit {0})

-- What happens to an error of the wrapped client.
on_error :
    {W A : Type 0} → (Error → Result A) → Result A × W → DegradationManager → Result A × Guarded W
on_error handle (ok a, w) d = (ok a, record { degrader = d; world = w })
on_error handle (err e, w) d = (handle e, record { degrader = set_redis_down d; world = w })

module _ {W B : Type 0} where
  -- The shape of every method: an answer without Redis, and a treatment of its errors.
  guarded :
      {A : Type 0}
      → Option (Client W B)
      → Result A
      → (Error → Result A)
      → (Client W B → M W A)
      → M (Guarded W) A
  unfolding on_error
  guarded none refusal handle m s = (refusal, s)
  guarded (some c) refusal handle m s =
      if is_redis_available s.degrader
      then on_error handle (m c s.world) s.degrader
      else (refusal, s)

module _ {W B : Type 0} (primary : Option (Client W B)) where
  unfoldable pub get : Instant → Key → M (Guarded W) (Option B)
  unfolding guarded
  get now key = guarded primary (err key_not_found) err (λ c. c.cache.get now key)

  unfoldable pub set : Instant → Key → B → Duration → M (Guarded W) (Unit {0})
  unfolding guarded
  set now key value ttl = guarded primary (ok tt) (λ _. ok tt) (λ c. c.cache.set now key value ttl)

  unfoldable pub set_json : Instant → Key → B → Duration → M (Guarded W) (Unit {0})
  unfolding guarded
  set_json now key value ttl =
      guarded primary (ok tt) (λ _. ok tt) (λ c. c.set_json now key value ttl)

  unfoldable pub get_json : Instant → Key → M (Guarded W) (Option B)
  unfolding guarded
  get_json now key = guarded primary (ok none) (λ _. ok none) (λ c. c.get_json now key)

  unfoldable pub delete : Instant → Key → M (Guarded W) (Unit {0})
  unfolding guarded
  delete now key = guarded primary (ok tt) (λ _. ok tt) (λ c. c.cache.delete now key)

  unfoldable pub enqueue : String → Job → M (Guarded W) (Unit {0})
  unfolding guarded
  enqueue queue job = guarded primary (err redis_unavailable) err (λ c. c.enqueue queue job)

  unfoldable pub dequeue : String → Duration → M (Guarded W) (Option Job)
  unfolding guarded
  dequeue queue timeout = guarded primary (err redis_unavailable) err (λ c. c.dequeue queue timeout)

  unfoldable pub schedule : String → Job → Instant → M (Guarded W) (Unit {0})
  unfolding guarded
  schedule name job at = guarded primary (err redis_unavailable) err (λ c. c.schedule name job at)

  unfoldable pub get_due_jobs : String → Instant → M (Guarded W) (List Job)
  unfolding guarded
  get_due_jobs name now = guarded primary (ok []) (λ _. ok []) (λ c. c.get_due_jobs name now)

  unfoldable pub remove_scheduled_job : String → Job → M (Guarded W) (Unit {0})
  unfolding guarded
  remove_scheduled_job name job =
      guarded primary (ok tt) (λ _. ok tt) (λ c. c.remove_scheduled_job name job)

  unfoldable pub get_queue_length : String → M (Guarded W) ℕ
  unfolding guarded
  get_queue_length queue = guarded primary (ok 0) (λ _. ok 0) (λ c. c.get_queue_length queue)

  unfoldable pub get_schedule_length : String → M (Guarded W) ℕ
  unfolding guarded
  get_schedule_length name = guarded primary (ok 0) (λ _. ok 0) (λ c. c.get_schedule_length name)

  -- A call past the degradation manager.
  direct : Outcome → (Client W B → M W (Unit {0})) → Option (Client W B) → M (Guarded W) (Unit {0})
  direct refusal m none s = (refusal, s)
  direct refusal m (some c) s = let (r, w) = m c s.world in (r, record s { world = w })

  unfoldable pub ping : M (Guarded W) (Unit {0})
  unfolding direct
  ping = direct (err redis_unavailable) (λ c. c.ping) primary

  unfoldable pub close : M (Guarded W) (Unit {0})
  unfolding direct
  close = direct (ok tt) (λ c. c.close) primary

  -- The client as the cache of the rate limiter.
  abbrev pub as_cache : RedisCache (Guarded W) B
  as_cache = record { get = get; set = set; delete = delete }
