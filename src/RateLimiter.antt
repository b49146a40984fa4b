-- ===== src/RateLimiter.antt =====
-- usecase/rate_limiter.go: which alerts are sent and which are suppressed, by timestamps in Redis.
-- The cache, and the text form of a timestamp, are parameters. Each call takes the clock's reading,
-- and the cache's commands run at that instant. A key stands for its text:
-- `downtime_key id` for "ratelimit:alert:<id>:downtime", and `ssl_key id d` for
-- "ratelimit:alert:<id>:ssl:<d>", which differ where the ids (UUIDs) or the days differ.
pub mod Laws
pub mod Spacing
use webtracker.Shared.{Bool, true, false, Option, none, some, String, if◌then◌else◌}
use webtracker.Shared.Int.{ℤ, pos, leb_ℤ, ltb_ℤ}
use webtracker.Shared.Clock.{Instant, Duration, minutes, hours, since}
use webtracker.Shared.Errors.{Result}
use webtracker.Shared.Effects.{M, pure, lift, context, ◌>>=◌, ◌>>◌}

pub data Key : Type 0 where
  downtime_key : String → Key
  ssl_key : String → ℤ → Key

-- The interface `RedisCache`, over the state `W` of the server and values `B`.
pub record RedisCache (W B : Type 0) : Type 0 where
  pub get : Instant → Key → M W (Option B)
  pub set : Instant → Key → B → Duration → M W (Unit {0})
  pub delete : Instant → Key → M W (Unit {0})

-- `Format(time.RFC3339)` and `time.Parse(time.RFC3339, …)`.
pub record Timestamps (B : Type 0) : Type 0 where
  pub format : Instant → B
  pub parse : B → Result Instant

module _ {W B : Type 0} (cache : RedisCache W B) (stamps : Timestamps B) where
  open cache use {get, set, delete}
  open stamps use {format, parse}

  -- Set the timestamp, and allow the alert.
  allow : String → Key → Duration → Instant → M W Bool
  allow text key ttl now = do context text (set now key (format now) ttl); pure true

  decide_since : Key → Instant → Duration → M W Bool
  unfolding allow
  decide_since key now elapsed =
      if leb_ℤ (pos (hours 1)) elapsed
      then allow "failed to update rate limit" key (pos (minutes 15)) now
      else if ltb_ℤ elapsed (pos (minutes 15))
      then pure false
      else allow "failed to update rate limit" key (pos (minutes 15)) now

  decide_downtime : Key → Instant → Option B → M W Bool
  unfolding allow decide_since
  decide_downtime key now none = allow "failed to set rate limit" key (pos (minutes 15)) now
  decide_downtime key now (some stamp) = do
    last ← context "failed to parse last alert time" (lift (parse stamp))
    decide_since key now (since now last)

  unfoldable pub check_and_set_downtime_alert : Instant → String → M W Bool
  unfolding decide_downtime
  check_and_set_downtime_alert now monitor_id = do
    entry ← context "failed to check rate limit" (get now (downtime_key monitor_id))
    decide_downtime (downtime_key monitor_id) now entry

  decide_ssl : Key → Instant → Option B → M W Bool
  unfolding allow
  decide_ssl key now (some stamp) = pure false
  decide_ssl key now none = allow "failed to set SSL rate limit" key (pos (hours 24)) now

  unfoldable pub check_and_set_ssl_alert : Instant → String → ℤ → M W Bool
  unfolding decide_ssl
  check_and_set_ssl_alert now monitor_id days_until = do
    entry ← context "failed to check SSL rate limit" (get now (ssl_key monitor_id days_until))
    decide_ssl (ssl_key monitor_id days_until) now entry

  last_alert : Option B → M W (Option Instant)
  last_alert none = pure none
  last_alert (some stamp) = do
    last ← context "failed to parse last alert time" (lift (parse stamp))
    pure (some last)

  unfoldable pub get_last_downtime_alert : Instant → String → M W (Option Instant)
  unfolding last_alert
  get_last_downtime_alert now monitor_id = do
    entry ← context "failed to get last downtime alert" (get now (downtime_key monitor_id))
    last_alert entry

  unfoldable pub clear_downtime_alert : Instant → String → M W (Unit {0})
  clear_downtime_alert now monitor_id =
      context "failed to clear downtime rate limit" (delete now (downtime_key monitor_id))
