-- ===== src/HttpClient.antt =====
-- infrastructure/httpclient/retry.go: requests that are tried again, with growing delays.
-- `c.Do` for the cloned request, and the `select` between the context's end and the delay, are
-- parameters over the state `W` of the world; the latter answers whether the delay passed. The
-- loop returns the calls that it made too, the first one first. Its count of the attempts that
-- are left is `MaxAttempts - attempt`, so that the last attempt is the one after which 0 are left.
pub mod Attempts
use webtracker.Shared.{
  ℕ, zero, suc, ◌+◌, ◌-◌, ◌*◌, ◌^◌, ◌%◌, Bool, true, false, List, [], ◌∷◌, if◌then◌else◌, ◌==◌,
}
use webtracker.Shared.Int.{ℤ, pos, negsuc, pos_part, from_bits, two_64}
use webtracker.Shared.Clock.{Duration, seconds}
use webtracker.Shared.Errors.{Result, ok, err, failure}

pub record RetryConfig : Type 0 where
  pub max_attempts : ℤ
  pub initial_delay : Duration

unfoldable pub default_retry_config : RetryConfig
default_retry_config = record { max_attempts = pos 3; initial_delay = pos (seconds 1) }

-- A product of 64-bit integers, of which the second is a number.
scale : ℤ → ℕ → ℤ
scale (pos n) k = from_bits (n * k)
scale (negsuc n) k = from_bits (two_64 - suc n * k % two_64)

-- `config.InitialDelay * time.Duration(1<<uint(attempt))`.
unfoldable pub backoff : RetryConfig → ℕ → Duration
unfolding scale
backoff config attempt = scale config.initial_delay (2 ^ attempt)

pub data Call (R : Type 0) : Type 0 where
  attempted : Result R → Call R
  waited : Duration → Bool → Call R

module _ {W R : Type 0} (send : W → Result R × W) (wait : Duration → W → Bool × W)
    (config : RetryConfig) where
  unfoldable pub retry_from : ℕ → ℕ → W → Result R × List (Call R) × W
  retry_from zero attempt w = (err (failure "all retry attempts failed"), [], w)
  retry_from (suc left) attempt w =
      let (result, w') = send w in
      let delay = backoff config attempt in
      let (passed, w'') = wait delay w' in
      let (rest, calls, w''') = retry_from left (suc attempt) w'' in
      elim result [
        | ok response ↦ (ok response, attempted (ok response) ∷ [], w')
        | err e ↦
            if left == 0
            then (err e, attempted (err e) ∷ [], w')
            else if passed
            then (rest, attempted (err e) ∷ waited delay true ∷ calls, w''')
            else (err e, attempted (err e) ∷ waited delay false ∷ [], w'')
      ]

  unfoldable pub do_with_retry : W → Result R × List (Call R) × W
  do_with_retry w = retry_from (pos_part config.max_attempts) 0 w
