-- ===== src/CircuitBreaker/Gate.antt =====
-- circuit_breaker.go: which calls `Execute` lets through, and how long a breaker stays open.
use webtracker.Shared.{
  ℕ, ◌+◌, ◌≤◌, ◌<◌, ◌≡◌, List, [], ◌∷◌, arith, leb, ltb, true, false, Bool, ◌&&◌, All,
}
use webtracker.Shared.Int.{pos, max_int64}
use webtracker.Shared.Clock.{Instant, since_at_least}
use webtracker.Shared.Errors.{Outcome, err, circuit_open}
use webtracker.CircuitBreaker.{
  CircuitBreaker, state_open, timeout_elapsed, promote, is_open, can_execute, record_success,
  record_failure, Readings, execute, Event, promoted, succeeded, failed, was_reset, step, run,
}

-- The breaker is open and its timeout, d nanoseconds, has not passed.
abbrev pub blocks : CircuitBreaker → ℕ → Instant → Bool
blocks cb d now = is_open cb.state && ltb now (cb.last_failure_time + d)

timeout_early :
    (cb : CircuitBreaker) (d : ℕ) (now : Instant)
    → cb.timeout ≡ pos d
    → d ≤ max_int64
    → timeout_elapsed cb now ≡ leb (cb.last_failure_time + d) now
unfolding timeout_elapsed
timeout_early cb d now e h = ground (arith, since_at_least d now cb.last_failure_time h)

module _ {ℓ} {W : Type ℓ} (fn : W → Outcome × W) where
  -- For a timeout that is not negative and a clock that does not run backwards: while the breaker
  -- is open and its timeout has not passed since the last failure, `Execute` refuses the call,
  -- does not run the function and changes nothing; at any other time it runs the function once and
  -- returns the function's result.
  pub execute_gate :
      (cb : CircuitBreaker) (clock : Readings) (w : W) (d : ℕ)
      → cb.timeout ≡ pos d
      → d ≤ max_int64
      → clock.tested ≤ clock.again
      → (blocks cb d clock.tested ≡ true → execute fn cb clock w ≡ (err circuit_open, cb, w))
        × (blocks cb d clock.tested ≡ false
            → ((execute fn cb clock w).0 ≡ (fn w).0) × ((execute fn cb clock w).2 ≡ (fn w).1))
  unfolding execute can_execute promote
  execute_gate cb clock w d e h le =
      ground (arith, timeout_early cb d clock.tested e h, timeout_early cb d clock.again e h)

-- An event that happens before the instant, and is no reset.
abbrev pub EventBefore : Instant → Instant → Event → Type 0
EventBefore low high (promoted t) = t < high
EventBefore low high (succeeded t) = Unit {0}
EventBefore low high (failed t) = low ≤ t
EventBefore low high was_reset = ⊥

stays_open_step :
    (cb : CircuitBreaker) (e : Event) (low d : ℕ)
    → cb.timeout ≡ pos d
    → d ≤ max_int64
    → cb.state ≡ state_open
    → low ≤ cb.last_failure_time
    → EventBefore low (low + d) e
    → ((step cb e).state ≡ state_open)
      × (low ≤ (step cb e).last_failure_time)
      × ((step cb e).timeout ≡ pos d)
unfolding step promote record_success record_failure
stays_open_step cb (promoted t) low d x h o l b = ground (arith, timeout_early cb d t)
stays_open_step cb (succeeded t) low d x h o l b = ground arith
stays_open_step cb (failed t) low d x h o l b = ground arith
stays_open_step cb was_reset low d x h o l b = absurd b

-- For a timeout that is not negative, and whatever callers do concurrently: an open breaker that
-- nobody resets stays open until its timeout has passed since the failure that it recorded last.
pub open_until_timeout :
    (cb : CircuitBreaker) (es : List Event) (low d : ℕ)
    → cb.timeout ≡ pos d
    → d ≤ max_int64
    → cb.state ≡ state_open
    → low ≤ cb.last_failure_time
    → All (EventBefore low (low + d)) es
    → (run cb es).state ≡ state_open
unfolding run
open_until_timeout cb [] low d x h o l b = o
open_until_timeout cb (e ∷ es) low d x h o l b =
    let (o', l', x') = stays_open_step cb e low d x h o l b.0 in
    open_until_timeout (step cb e) es low d x' h o' l' b.1
