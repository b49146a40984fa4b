-- ===== src/CircuitBreaker/Invariant.antt =====
-- circuit_breaker.go: what holds of a breaker between any two critical sections.
use webtracker.Shared.{◌+◌, ◌≡◌, List, [], ◌∷◌, String, arith}
use webtracker.Shared.Int.{ℤ, pos, pos_part, neg_part, ◌≤ℤ◌, ◌<ℤ◌, incr, max_int64}
use webtracker.Shared.Clock.{Duration}
use webtracker.CircuitBreaker.{
  CircuitBreaker, state_closed, state_half_open, new_circuit_breaker, promote, record_success,
  record_failure, reset_breaker, Event, promoted, succeeded, failed, was_reset, step, run,
}

pub incr_parts :
    (c : ℤ)
    → pos 0 ≤ℤ c
    → c <ℤ pos max_int64
    → (pos_part (incr c) ≡ pos_part c + 1) × (neg_part (incr c) ≡ 0)
unfolding incr
incr_parts c h k = ground arith

-- The configured limits are positive, and a count that can still trigger a change of state is
-- below its limit.
pub record Inv (cb : CircuitBreaker) : Type 0 where
  pub max_failures_pos : pos 0 <ℤ cb.max_failures
  pub max_failures_int : cb.max_failures ≤ℤ pos max_int64
  pub threshold_pos : pos 0 <ℤ cb.success_threshold
  pub threshold_int : cb.success_threshold ≤ℤ pos max_int64
  pub closed_nonneg : cb.state ≡ state_closed → pos 0 ≤ℤ cb.failure_count
  pub closed_under : cb.state ≡ state_closed → cb.failure_count <ℤ cb.max_failures
  pub half_nonneg : cb.state ≡ state_half_open → pos 0 ≤ℤ cb.success_count
  pub half_under : cb.state ≡ state_half_open → cb.success_count <ℤ cb.success_threshold

pub new-Inv :
    (name : String) (m s : ℤ) (d : Duration)
    → pos 0 <ℤ m
    → m ≤ℤ pos max_int64
    → pos 0 <ℤ s
    → s ≤ℤ pos max_int64
    → Inv (new_circuit_breaker name m d s)
unfolding new_circuit_breaker
new-Inv name m s d a b c e = ground arith

pub step-Inv : (cb : CircuitBreaker) (e : Event) → Inv cb → Inv (step cb e)
unfolding step promote record_success record_failure reset_breaker
step-Inv cb (promoted t) v = ground arith
step-Inv cb (succeeded t) v = ground (arith, incr_parts cb.success_count)
step-Inv cb (failed t) v = ground (arith, incr_parts cb.failure_count)
step-Inv cb was_reset v = ground arith

-- Whatever callers do concurrently, in any order: of a breaker with positive limits, a count that
-- can still trigger a change of state is not negative and stays below its limit.
pub run-Inv : (cb : CircuitBreaker) (es : List Event) → Inv cb → Inv (run cb es)
unfolding run
run-Inv cb [] v = v
run-Inv cb (e ∷ es) v = run-Inv (step cb e) es (step-Inv cb e v)
