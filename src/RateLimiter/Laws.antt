-- ===== src/RateLimiter/Laws.antt =====
-- rate_limiter.go: the answers of the limiter over a Redis that works, from the documented
-- behaviour of `SET key value EX ttl`, `GET` and `DEL` and of RFC 3339 timestamps, whose
-- precision is a second.
use webtracker.Shared.{
  true, ℕ, ◌+◌, ◌*◌, ◌/◌, ◌≤◌, ◌≡◌, ◌≢◌, Option, none, some, String, if◌then◌else◌, ltb, leb, arith,
}
use webtracker.Shared.Int.{ℤ, pos}
use webtracker.Shared.Clock.{
  Instant, Duration, minutes, hours, nanos_per_second, since_at_least, since_less,
}
use webtracker.Shared.Errors.{ok, err}
use webtracker.RateLimiter.{
  ssl_key, clear_downtime_alert, get_last_downtime_alert, check_and_set_ssl_alert, Key,
  downtime_key, RedisCache, Timestamps, check_and_set_downtime_alert,
}

-- The instant cut off to a whole second.
abbrev pub whole_second : Instant → Instant
whole_second t = t / nanos_per_second * nanos_per_second

-- `live t k w` is the value that `k` has at `t`, if nothing is written from `w` until then.
pub record Works {W B : Type 0} (cache : RedisCache W B) (stamps : Timestamps B) : Type 0 where
  pub live : Instant → Key → W → Option B
  pub get_live : (t : Instant) (k : Key) (w : W) → cache.get t k w ≡ (ok (live t k w), w)
  pub set_ok :
      (t : Instant) (k : Key) (b : B) (d : Duration) (w : W) → (cache.set t k b d w).0 ≡ ok tt
  pub set_live :
      (t : Instant) (k : Key) (b : B) (ttl : ℕ) (w : W) (u : Instant)
      → t ≤ u
      → live u k (cache.set t k b (pos ttl) w).1 ≡ (if ltb u (t + ttl) then some b else none)
  pub set_other :
      (t : Instant) (k j : Key) (b : B) (d : Duration) (w : W) (u : Instant)
      → k ≢ j
      → live u j (cache.set t k b d w).1 ≡ live u j w
  pub delete_ok : (t : Instant) (k : Key) (w : W) → (cache.delete t k w).0 ≡ ok tt
  pub delete_live : (t u : Instant) (k : Key) (w : W) → live u k (cache.delete t k w).1 ≡ none
  pub delete_other :
      (t u : Instant) (k j : Key) (w : W) → k ≢ j → live u j (cache.delete t k w).1 ≡ live u j w
  pub parse_format : (t : Instant) → stamps.parse (stamps.format t) ≡ ok (whole_second t)

module _ {W B : Type 0} (cache : RedisCache W B) (stamps : Timestamps B)
    (h : Works cache stamps) where
  -- The timestamp of the alert sent at `s` is stored for `ttl`, until something else is written.
  pub record Stored (k : Key) (s : Instant) (ttl : ℕ) (w : W) : Type 0 where
    pub stamp_live :
        (u : Instant)
        → s ≤ u
        → h.live u k w ≡ (if ltb u (s + ttl) then some (stamps.format s) else none)

  -- A call that allows the alert stores its instant, and any other call changes nothing.
  pub downtime_effect :
      (t : Instant) (id : String) (w : W)
      → let (r, w') = check_and_set_downtime_alert cache stamps t id w in
        w' ≡ elim r [
          | ok allowed ↦
              if allowed
              then (cache.set t (downtime_key id) (stamps.format t) (pos (minutes 15)) w).1
              else w
          | err e ↦ w
        ]
  unfolding check_and_set_downtime_alert
  downtime_effect t id w = ground (
    arith,
    h.get_live t (downtime_key id) w,
    h.set_ok t (downtime_key id) (stamps.format t) (pos (minutes 15)) w,
  )

  -- After an alert at s, a call at u finds the alert at s due again exactly from 15 minutes after
  -- the whole second in which it was sent; there is no error.
  pub downtime_answer :
      (s u : Instant) (id : String) (w : W)
      → s ≤ u
      → Stored (downtime_key id) s (minutes 15) w
      → (check_and_set_downtime_alert cache stamps u id w).0
        ≡ ok (leb (whole_second s + minutes 15) u)
  unfolding check_and_set_downtime_alert
  downtime_answer s u id w le st = ground (
    arith,
    h.get_live u (downtime_key id) w,
    h.set_ok u (downtime_key id) (stamps.format u) (pos (minutes 15)) w,
    st.stamp_live u le,
    h.parse_format s,
    since_at_least (hours 1) u (whole_second s),
    since_less (minutes 15) u (whole_second s),
  )

  pub ssl_effect :
      (t : Instant) (id : String) (days : ℤ) (w : W)
      → let (r, w') = check_and_set_ssl_alert cache stamps t id days w in
        w' ≡ elim r [
          | ok allowed ↦
              if allowed
              then (cache.set t (ssl_key id days) (stamps.format t) (pos (hours 24)) w).1
              else w
          | err e ↦ w
        ]
  unfolding check_and_set_ssl_alert
  ssl_effect t id days w = ground (
    arith,
    h.get_live t (ssl_key id days) w,
    h.set_ok t (ssl_key id days) (stamps.format t) (pos (hours 24)) w,
  )

  -- After an alert about an expiry in so many days, the next one about the same number of days
  -- is sent exactly from 24 hours later; there is no error.
  pub ssl_answer :
      (s u : Instant) (id : String) (days : ℤ) (w : W)
      → s ≤ u
      → Stored (ssl_key id days) s (hours 24) w
      → (check_and_set_ssl_alert cache stamps u id days w).0 ≡ ok (leb (s + hours 24) u)
  unfolding check_and_set_ssl_alert
  ssl_answer s u id days w le st = ground (
    arith,
    h.get_live u (ssl_key id days) w,
    h.set_ok u (ssl_key id days) (stamps.format u) (pos (hours 24)) w,
    st.stamp_live u le,
  )

  -- After an alert at s the limiter reports it, cut off to the second, for 15 minutes, and from
  -- then on reports that there was none.
  pub last_downtime_answer :
      (s u : Instant) (id : String) (w : W)
      → s ≤ u
      → Stored (downtime_key id) s (minutes 15) w
      → get_last_downtime_alert cache stamps u id w
        ≡ (ok (if ltb u (s + minutes 15) then some (whole_second s) else none), w)
  unfolding get_last_downtime_alert
  last_downtime_answer s u id w le st =
      ground (arith, h.get_live u (downtime_key id) w, st.stamp_live u le, h.parse_format s)

  pub clear_lem :
      (t u : Instant) (id : String) (w : W)
      → ((clear_downtime_alert cache stamps t id w).0 ≡ ok tt)
        × (h.live u (downtime_key id) (clear_downtime_alert cache stamps t id w).1 ≡ none)
  unfolding clear_downtime_alert
  clear_lem t u id w =
      ground (arith, h.delete_ok t (downtime_key id) w, h.delete_live t u (downtime_key id) w)

  -- Another monitor's alerts, and alerts about certificates, leave a stored timestamp alone.
  pub downtime_other :
      (t u : Instant) (j : String) (k : Key) (w : W)
      → downtime_key j ≢ k
      → h.live u k (check_and_set_downtime_alert cache stamps t j w).1 ≡ h.live u k w
  downtime_other t u j k w ne = ground (
    arith,
    downtime_effect t j w,
    h.set_other t (downtime_key j) k (stamps.format t) (pos (minutes 15)) w u ne,
  )

  pub ssl_other :
      (t u : Instant) (j : String) (days : ℤ) (k : Key) (w : W)
      → ssl_key j days ≢ k
      → h.live u k (check_and_set_ssl_alert cache stamps t j days w).1 ≡ h.live u k w
  ssl_other t u j days k w ne = ground (
    arith,
    ssl_effect t j days w,
    h.set_other t (ssl_key j days) k (stamps.format t) (pos (hours 24)) w u ne,
  )

  pub clear_other :
      (t u : Instant) (j : String) (k : Key) (w : W)
      → downtime_key j ≢ k
      → h.live u k (clear_downtime_alert cache stamps t j w).1 ≡ h.live u k w
  unfolding clear_downtime_alert
  clear_other t u j k w ne = ground (arith, h.delete_other t u (downtime_key j) k w ne)

  -- An alert that is allowed is stored.
  pub downtime_stores :
      (t : Instant) (id : String) (w : W)
      → (check_and_set_downtime_alert cache stamps t id w).0 ≡ ok true
      → Stored (downtime_key id) t (minutes 15) (check_and_set_downtime_alert cache stamps t id w).1
  downtime_stores t id w e = record {
    stamp_live = λ u le. ground (
      arith,
      downtime_effect t id w,
      h.set_live t (downtime_key id) (stamps.format t) (minutes 15) w u le,
    );
  }
