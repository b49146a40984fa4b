-- ===== src/Redis.antt =====
-- infrastructure/redis/client.go: the Redis client, its cache and its job queue.
-- The commands of package go-redis and the JSON codec are parameters, over the state `W` of the
-- server and values `B` in bytes. A score is a number of whole seconds; here they are counted from
-- Go's zero time and not from 1970. A caller does not see the `CreatedAt` that a call fills in.
pub mod Store
pub mod Served
pub mod Operations
use webtracker.Shared.{ℕ, ◌/◌, Option, none, some, String, List, [], ◌∷◌, if◌then◌else◌, ◌==◌}
use webtracker.Shared.Clock.{Instant, Duration, nanos_per_second}
use webtracker.Shared.Errors.{Result, ok, failure}
use webtracker.Shared.Effects.{M, pure, fail, lift, context, ◌>>=◌, ◌>>◌}
use webtracker.RateLimiter.{Key, RedisCache}
use webtracker.Resilience.RedisClient.{Job, Client}

-- The commands that are sent. The reply `redis.Nil` is `none`.
pub record Commands (W B : Type 0) : Type 0 where
  pub get : Instant → Key → M W (Option B)
  pub set : Instant → Key → B → Duration → M W (Unit {0})
  pub del : Instant → Key → M W (Unit {0})
  pub rpush : String → B → M W (Unit {0})
  pub blpop : Duration → String → M W (Option (List B))
  pub zadd : String → ℕ → B → M W (Unit {0})
  pub zrange_by_score : String → ℕ → M W (List B)
  pub zrem : String → List B → M W (Unit {0})
  pub llen : String → M W ℕ
  pub zcard : String → M W ℕ
  pub ping : M W (Unit {0})
  pub close : M W (Unit {0})

-- `json.Marshal` and `json.Unmarshal` at a type.
pub record Json (A B : Type 0) : Type 0 where
  pub marshal : A → Result B
  pub unmarshal : B → Result A

abbrev pub unix : Instant → ℕ
unix t = t / nanos_per_second

-- `if job.CreatedAt.IsZero() { job.CreatedAt = time.Now() }`
abbrev pub stamp : Instant → Job → Job
stamp now job = if job.created_at == 0 then record job { created_at = now } else job

module _ {W B : Type 0} (redis : Commands W B) where
  unfoldable pub get : Instant → Key → M W (Option B)
  get now key = context "failed to get key" (redis.get now key)

  unfoldable pub set : Instant → Key → B → Duration → M W (Unit {0})
  set now key value ttl = context "failed to set key" (redis.set now key value ttl)

  unfoldable pub delete : Instant → Key → M W (Unit {0})
  delete now key = context "failed to delete key" (redis.del now key)

  unfoldable pub get_queue_length : String → M W ℕ
  get_queue_length queue = context "failed to get queue length" (redis.llen queue)

  unfoldable pub get_schedule_length : String → M W ℕ
  get_schedule_length name = context "failed to get schedule length" (redis.zcard name)

module _ {W B A : Type 0} (redis : Commands W B) (json : Json A B) where
  unfoldable pub set_json : Instant → Key → A → Duration → M W (Unit {0})
  unfolding set
  set_json now key value ttl = do
    data_bytes ← context "failed to marshal value" (lift (json.marshal value))
    set redis now key data_bytes ttl

  unmarshal_found : Option B → M W (Option A)
  unmarshal_found none = pure none
  unmarshal_found (some data_bytes) = do
    value ← context "failed to unmarshal value" (lift (json.unmarshal data_bytes))
    pure (some value)

  unfoldable pub get_json : Instant → Key → M W (Option A)
  unfolding get unmarshal_found
  get_json now key = get redis now key >>= unmarshal_found

module _ {W B : Type 0} (redis : Commands W B) (json : Json Job B) (clock : W → Instant × W) where
  -- `time.Now()`
  abbrev pub time_now : M W Instant
  time_now w = let (t, w') = clock w in lift (ok t) w'

  unfoldable pub enqueue : String → Job → M W (Unit {0})
  enqueue queue job = do
    now ← time_now
    data_bytes ← context "failed to marshal job" (lift (json.marshal (stamp now job)))
    context "failed to enqueue job" (redis.rpush queue data_bytes)

  unfoldable pub decode_reply : Option (List B) → M W (Option Job)
  decode_reply none = pure none
  decode_reply (some (name ∷ value ∷ [])) = do
    job ← context "failed to unmarshal job" (lift (json.unmarshal value))
    pure (some job)
  decode_reply (some reply) = fail (failure "unexpected BLPop result length")

  unfoldable pub dequeue : String → Duration → M W (Option Job)
  unfolding decode_reply
  dequeue queue timeout = do
    reply ← context "failed to dequeue job" (redis.blpop timeout queue)
    decode_reply reply

  unfoldable pub schedule : String → Job → Instant → M W (Unit {0})
  schedule name job execute_at = do
    now ← time_now
    data_bytes ← context "failed to marshal job" (lift (json.marshal (stamp now job)))
    context "failed to schedule job" (redis.zadd name (unix execute_at) data_bytes)

  unfoldable pub unmarshal_all : List B → M W (List Job)
  unmarshal_all [] = pure []
  unmarshal_all (member ∷ members) = do
    job ← context "failed to unmarshal job" (lift (json.unmarshal member))
    jobs ← unmarshal_all members
    pure (job ∷ jobs)

  unfoldable pub take_due : String → List B → M W (List Job)
  unfolding unmarshal_all
  take_due name [] = pure []
  take_due name (member ∷ members) = do
    jobs ← unmarshal_all (member ∷ members)
    context "failed to remove due jobs" (redis.zrem name (member ∷ members))
    pure jobs

  unfoldable pub get_due_jobs : String → Instant → M W (List Job)
  unfolding take_due
  get_due_jobs name now = do
    members ← context "failed to get due jobs" (redis.zrange_by_score name (unix now))
    take_due name members

  unfoldable pub remove_scheduled_job : String → Job → M W (Unit {0})
  remove_scheduled_job name job = do
    data_bytes ← context "failed to marshal job" (lift (json.marshal job))
    context "failed to remove scheduled job" (redis.zrem name (data_bytes ∷ []))

  -- The client that other components call, with cached values in JSON by `values`.
  abbrev pub client : Json B B → Client W B
  client values = record {
    cache = record { get = get redis; set = set redis; delete = delete redis };
    get_json = get_json redis values;
    set_json = set_json redis values;
    enqueue = enqueue;
    dequeue = dequeue;
    schedule = schedule;
    get_due_jobs = get_due_jobs;
    remove_scheduled_job = remove_scheduled_job;
    get_queue_length = get_queue_length redis;
    get_schedule_length = get_schedule_length redis;
    ping = redis.ping;
    close = redis.close;
  }
