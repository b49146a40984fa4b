-- ===== src/Examples/Circuits.antt =====
-- Circuit breakers.
use webtracker.Shared.{
  ℕ, suc, ◌+◌, ◌≡◌, refl, true, false, none, some, List, [], ◌∷◌, map, String, arith, str_eq,
}
use webtracker.Shared.Int.{pos}
use webtracker.Shared.Clock.{Instant, seconds}
use webtracker.Shared.Errors.{Outcome, err, failure, circuit_open}
use webtracker.CircuitBreaker.{
  CircuitBreaker, state_closed, state_open, state_half_open, new_circuit_breaker, Readings, execute,
  timeout_elapsed, promote, record_success, record_failure, Event, promoted, succeeded, failed,
  step, run,
}
use webtracker.CircuitBreaker.Invariant.{Inv, run-Inv}
use webtracker.CircuitBreaker.Thresholds.{failures_open_at_limit}
use webtracker.CircuitBreaker.Gate.{execute_gate, open_until_timeout}
use webtracker.CircuitBreaker.Manager.{CircuitBreakerManager}

-- The breaker of an alert channel.
abbrev fresh : CircuitBreaker
fresh = record {
  state = state_closed;
  failure_count = pos 0;
  success_count = pos 0;
  last_failure_time = 0;
  last_success_time = 0;
  max_failures = pos 5;
  timeout = pos (seconds 60);
  success_threshold = pos 3;
  name = "email";
}

fresh_is_new : new_circuit_breaker "email" (pos 5) (pos (seconds 60)) (pos 3) ≡ fresh
unfolding new_circuit_breaker
fresh_is_new = refl

abbrev opened : CircuitBreaker
opened = record fresh { state = state_open; failure_count = pos 5; last_failure_time = seconds 100 }

abbrev half : CircuitBreaker
half = record opened { state = state_half_open }

abbrev history : List Event
history =
    failed (seconds 1) ∷ succeeded (seconds 2) ∷ failed (seconds 3) ∷ promoted (seconds 90) ∷ []

fresh-Inv : Inv fresh
fresh-Inv = ground arith

run-Inv_example : Inv (run fresh history)
run-Inv_example = run-Inv fresh history fresh-Inv

abbrev five_failures : List Instant
five_failures = seconds 1 ∷ seconds 2 ∷ seconds 3 ∷ seconds 4 ∷ seconds 5 ∷ []

failures_open_at_limit_example : (run fresh (map failed five_failures)).state ≡ state_open
failures_open_at_limit_example =
    failures_open_at_limit fresh five_failures 0 5 refl refl refl (omega arith) (omega arith)

-- A function that counts its calls and fails.
abbrev failing : ℕ → Outcome × ℕ
failing n = (err (failure "timeout"), suc n)

abbrev early : Readings
early = record { tested = seconds 120; again = seconds 120; recorded = seconds 121 }

execute_gate_example : execute failing opened early 0 ≡ (err circuit_open, opened, 0)
execute_gate_example =
    (execute_gate failing opened early 0 (seconds 60) refl (omega arith) (omega arith)).0 refl

open_until_timeout_example :
    (run opened (promoted (seconds 130) ∷ failed (seconds 140) ∷ promoted (seconds 159) ∷ [])).state
    ≡ state_open
open_until_timeout_example =
    open_until_timeout opened
      (promoted (seconds 130) ∷ failed (seconds 140) ∷ promoted (seconds 159) ∷ []) (seconds 100)
      (seconds 60) refl (omega arith) refl (omega arith) (omega arith)

abbrev manager : CircuitBreakerManager
manager = record { breakers = ("email", opened) ∷ ("telegram", half) ∷ [] }

-- Five failures open the breaker, a call 60 seconds later is let through, and three successes
-- close it again.
abbrev recovery : List Event
recovery =
    failed 1
    ∷ failed 2
    ∷ failed 3
    ∷ failed 4
    ∷ failed 5
    ∷ promoted (seconds 61)
    ∷ succeeded (seconds 62)
    ∷ succeeded (seconds 63)
    ∷ succeeded (seconds 64)
    ∷ []

recovers : (run fresh recovery).state ≡ state_closed
unfolding run step record_failure record_success promote timeout_elapsed
    webtracker.Shared.Clock.since webtracker.Shared.Int.incr
recovers = refl
