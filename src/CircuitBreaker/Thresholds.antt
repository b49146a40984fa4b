-- ===== src/CircuitBreaker/Thresholds.antt =====
-- circuit_breaker.go: how many failures open a breaker and how many successes close it.
use webtracker.Shared.{ℕ, ◌+◌, ◌≤◌, ◌<◌, ◌≡◌, List, [], ◌∷◌, map, arith, length, if◌then◌else◌, ltb}
use native.Mathlib.Decide.{dec_lt}
use webtracker.Shared.Int.{pos, incr_pos, max_int64}
use webtracker.Shared.Clock.{Instant}
use webtracker.CircuitBreaker.{
  CircuitBreaker, state_closed, state_open, state_half_open, record_success, record_failure,
  succeeded, failed, step, run,
}

-- An open breaker stays open when late failures arrive.
failures-open :
    (cb : CircuitBreaker) (ts : List Instant)
    → cb.state ≡ state_open
    → (run cb (map failed ts)).state ≡ state_open
unfolding run step record_failure
failures-open cb [] o = o
failures-open cb (t ∷ ts) o = failures-open (record_failure cb t) ts (ground arith)

failure_short :
    (cb : CircuitBreaker) (t : Instant) (c m : ℕ)
    → cb.state ≡ state_closed
    → cb.failure_count ≡ pos c
    → cb.max_failures ≡ pos m
    → c + 1 < m
    → m ≤ max_int64
    → ((record_failure cb t).state ≡ state_closed)
      × ((record_failure cb t).failure_count ≡ pos (c + 1))
      × ((record_failure cb t).max_failures ≡ pos m)
unfolding record_failure
failure_short cb t c m s f x h k = ground (arith, incr_pos c)

failure_last :
    (cb : CircuitBreaker) (t : Instant) (c m : ℕ)
    → cb.state ≡ state_closed
    → cb.failure_count ≡ pos c
    → cb.max_failures ≡ pos m
    → c < m
    → m ≤ c + 1
    → m ≤ max_int64
    → (record_failure cb t).state ≡ state_open
unfolding record_failure
failure_last cb t c m s f x h l k = ground (arith, incr_pos c)

-- A closed breaker that has counted c failures, fewer than its limit, and then sees failures only,
-- is open exactly from the failure that brings the count to the limit, and closed before it.
pub failures_open_at_limit :
    (cb : CircuitBreaker) (ts : List Instant) (c m : ℕ)
    → cb.state ≡ state_closed
    → cb.failure_count ≡ pos c
    → cb.max_failures ≡ pos m
    → c < m
    → m ≤ max_int64
    → (run cb (map failed ts)).state ≡ (if ltb (c + length ts) m then state_closed else state_open)
unfolding run step
failures_open_at_limit cb [] c m s f x h k = ground arith
failures_open_at_limit cb (t ∷ ts) c m s f x h k = elim (dec_lt (c + 1) m) [
  | yes more ↦
      let (s', f', x') = failure_short cb t c m s f x more k in
      ground (arith, failures_open_at_limit (record_failure cb t) ts (c + 1) m s' f' x' more k)
  | no last ↦ ground (
    arith,
    failures-open (record_failure cb t) ts (failure_last cb t c m s f x h (omega arith) k),
  )
]

-- A success of a closed breaker starts the count again.
pub success_restarts :
    (cb : CircuitBreaker) (t : Instant)
    → cb.state ≡ state_closed
    → ((record_success cb t).failure_count ≡ pos 0) × ((record_success cb t).state ≡ state_closed)
unfolding record_success
success_restarts cb t s = ground arith

-- A closed breaker stays closed when successes arrive.
successes-closed :
    (cb : CircuitBreaker) (ts : List Instant)
    → cb.state ≡ state_closed
    → (run cb (map succeeded ts)).state ≡ state_closed
unfolding run step record_success
successes-closed cb [] o = o
successes-closed cb (t ∷ ts) o = successes-closed (record_success cb t) ts (ground arith)

success_short :
    (cb : CircuitBreaker) (t : Instant) (c m : ℕ)
    → cb.state ≡ state_half_open
    → cb.success_count ≡ pos c
    → cb.success_threshold ≡ pos m
    → c + 1 < m
    → m ≤ max_int64
    → ((record_success cb t).state ≡ state_half_open)
      × ((record_success cb t).success_count ≡ pos (c + 1))
      × ((record_success cb t).success_threshold ≡ pos m)
unfolding record_success
success_short cb t c m s f x h k = ground (arith, incr_pos c)

success_last :
    (cb : CircuitBreaker) (t : Instant) (c m : ℕ)
    → cb.state ≡ state_half_open
    → cb.success_count ≡ pos c
    → cb.success_threshold ≡ pos m
    → c < m
    → m ≤ c + 1
    → m ≤ max_int64
    → (record_success cb t).state ≡ state_closed
unfolding record_success
success_last cb t c m s f x h l k = ground (arith, incr_pos c)

-- A half-open breaker that has counted c successes, fewer than its threshold, and then sees
-- successes only, is closed exactly from the success that brings the count to the threshold, and
-- half-open before it.
pub successes_close_at_threshold :
    (cb : CircuitBreaker) (ts : List Instant) (c m : ℕ)
    → cb.state ≡ state_half_open
    → cb.success_count ≡ pos c
    → cb.success_threshold ≡ pos m
    → c < m
    → m ≤ max_int64
    → (run cb (map succeeded ts)).state
      ≡ (if ltb (c + length ts) m then state_half_open else state_closed)
unfolding run step
successes_close_at_threshold cb [] c m s f x h k = ground arith
successes_close_at_threshold cb (t ∷ ts) c m s f x h k = elim (dec_lt (c + 1) m) [
  | yes more ↦
      let (s', f', x') = success_short cb t c m s f x more k in
      ground
        (arith, successes_close_at_threshold (record_success cb t) ts (c + 1) m s' f' x' more k)
  | no last ↦ ground (
    arith,
    successes-closed (record_success cb t) ts (success_last cb t c m s f x h (omega arith) k),
  )
]
