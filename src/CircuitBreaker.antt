-- ===== src/CircuitBreaker.antt =====
-- infrastructure/resilience/circuit_breaker.go: one circuit breaker.
-- A method that changes the breaker returns the new record; each reading of the clock is an
-- argument. `can_execute` is its three critical sections in a row (the test under the read lock,
-- `promote` under the write lock, the last test); `Event` lists the critical sections that write,
-- so that a list of events is an interleaving of any number of callers. The logger is left out.
pub mod Invariant
pub mod Thresholds
pub mod Gate
pub mod Manager
use webtracker.Shared.{ℕ, ◌≡◌, Bool, true, false, ◌&&◌, List, [], ◌∷◌, String, if◌then◌else◌}
use webtracker.Shared.Int.{ℤ, pos, leb_ℤ, incr}
use webtracker.Shared.Clock.{Instant, Duration, since}
use webtracker.Shared.Errors.{Error, Result, Outcome, ok, err, circuit_open}

pub data CircuitState : Type 0 where
  state_closed state_open state_half_open : CircuitState

pub record CircuitBreaker : Type 0 where
  pub state : CircuitState
  pub failure_count : ℤ
  pub success_count : ℤ
  pub last_failure_time : Instant
  pub last_success_time : Instant
  pub max_failures : ℤ
  pub timeout : Duration
  pub success_threshold : ℤ
  pub name : String

unfoldable pub new_circuit_breaker : String → ℤ → Duration → ℤ → CircuitBreaker
new_circuit_breaker name max_failures timeout success_threshold = record {
  state = state_closed;
  failure_count = pos 0;
  success_count = pos 0;
  last_failure_time = 0;
  last_success_time = 0;
  max_failures = max_failures;
  timeout = timeout;
  success_threshold = success_threshold;
  name = name;
}

abbrev pub is_open : CircuitState → Bool
is_open state_open = true
is_open _ = false

abbrev pub is_half_open : CircuitState → Bool
is_half_open state_half_open = true
is_half_open _ = false

unfoldable pub timeout_elapsed : CircuitBreaker → Instant → Bool
timeout_elapsed cb now = leb_ℤ cb.timeout (since now cb.last_failure_time)

-- The section of `canExecute` under the write lock, with its double check.
unfoldable pub promote : CircuitBreaker → Instant → CircuitBreaker
promote cb now =
    if is_open cb.state && timeout_elapsed cb now
    then record cb { state = state_half_open; success_count = pos 0 }
    else cb

-- The `switch` of `canExecute`; `again` is the clock at the double check.
can_execute_in : CircuitState → CircuitBreaker → Instant → Instant → CircuitBreaker × Bool
can_execute_in state_closed cb now again = (cb, true)
can_execute_in state_open cb now again =
    let cb' = promote cb again in
    if timeout_elapsed cb now then (cb', is_half_open cb'.state) else (cb, false)
can_execute_in state_half_open cb now again = (cb, true)

unfoldable pub can_execute : CircuitBreaker → Instant → Instant → CircuitBreaker × Bool
unfolding can_execute_in
can_execute cb now again = can_execute_in cb.state cb now again

-- The `switch` of `recordSuccess`.
success_in : CircuitState → CircuitBreaker → CircuitBreaker
success_in state_closed cb = record cb { failure_count = pos 0 }
success_in state_open cb = cb
success_in state_half_open cb =
    let cb' = record cb { success_count = incr cb.success_count } in
    if leb_ℤ cb'.success_threshold cb'.success_count
    then record cb' { state = state_closed; failure_count = pos 0; success_count = pos 0 }
    else cb'

unfoldable pub record_success : CircuitBreaker → Instant → CircuitBreaker
unfolding success_in
record_success cb now = success_in cb.state (record cb { last_success_time = now })

-- The `switch` of `recordFailure`.
failure_in : CircuitState → CircuitBreaker → CircuitBreaker
failure_in state_closed cb =
    if leb_ℤ cb.max_failures cb.failure_count then record cb { state = state_open } else cb
failure_in state_open cb = cb
failure_in state_half_open cb = record cb { state = state_open; success_count = pos 0 }

unfoldable pub record_failure : CircuitBreaker → Instant → CircuitBreaker
unfolding failure_in
record_failure cb now =
    failure_in cb.state
      (record cb { last_failure_time = now; failure_count = incr cb.failure_count })

-- The loop body of the manager's `Reset`.
unfoldable pub reset_breaker : CircuitBreaker → CircuitBreaker
reset_breaker cb = record cb { state = state_closed; failure_count = pos 0; success_count = pos 0 }

-- What `Execute` does with the result of the function that it ran.
record_result : Outcome → CircuitBreaker → Instant → CircuitBreaker
record_result (ok _) cb now = record_success cb now
record_result (err _) cb now = record_failure cb now

-- The clock is read at the first test, at the double check and when the result is recorded.
pub record Readings : Type 0 where
  pub tested : Instant
  pub again : Instant
  pub recorded : Instant

-- `fn` acts on the state of the program around the breaker, `W`.
module _ {ℓ} {W : Type ℓ} (fn : W → Outcome × W) where
  run_admitted : Bool → CircuitBreaker → Readings → W → Outcome × CircuitBreaker × W
  unfolding record_result
  run_admitted false cb clock w = (err circuit_open, cb, w)
  run_admitted true cb clock w =
      let (result, w') = fn w in (result, record_result result cb clock.recorded, w')

  unfoldable pub execute : CircuitBreaker → Readings → W → Outcome × CircuitBreaker × W
  unfolding run_admitted
  execute cb clock w =
      let (cb', admitted) = can_execute cb clock.tested clock.again in
      run_admitted admitted cb' clock w

-- The critical sections that write, of any caller.
pub data Event : Type 0 where
  promoted : Instant → Event
  succeeded : Instant → Event
  failed : Instant → Event
  was_reset : Event

unfoldable pub step : CircuitBreaker → Event → CircuitBreaker
step cb (promoted t) = promote cb t
step cb (succeeded t) = record_success cb t
step cb (failed t) = record_failure cb t
step cb was_reset = reset_breaker cb

unfoldable pub run : CircuitBreaker → List Event → CircuitBreaker
run cb [] = cb
run cb (e ∷ es) = run (step cb e) es
