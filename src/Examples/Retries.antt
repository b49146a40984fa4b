-- ===== src/Examples/Retries.antt =====
-- Requests to a site that answers the third attempt.
use webtracker.Shared.{
  ℕ, suc, ◌+◌, ◌-◌, ◌≤◌, ◌≡◌, refl, Bool, true, false, List, [], ◌∷◌, length, any, if◌then◌else◌,
  ltb, arith,
}
use webtracker.Shared.Int.{pos}
use webtracker.Shared.Clock.{Duration, seconds}
use webtracker.Shared.Errors.{Result, ok, err, failure}
use webtracker.HttpClient.{
  RetryConfig, default_retry_config, backoff, Call, do_with_retry, retry_from,
}
use webtracker.HttpClient.Attempts.{
  waits, results, ended_early, last_result, do_with_retry_attempts,
}

abbrev send : ℕ → Result ℕ × ℕ
send n = (if ltb n 2 then err (failure "timeout") else ok 200, suc n)

abbrev wait : Duration → ℕ → Bool × ℕ
wait d n = (true, n)

abbrev config : RetryConfig
config = record { max_attempts = pos 3; initial_delay = pos (seconds 1) }

config_is_default : default_retry_config ≡ config
unfolding default_retry_config
config_is_default = refl

abbrev made : List (Call ℕ)
made = (do_with_retry send wait config 0).1

do_with_retry_attempts_example :
    (length (results made) ≤ 3)
    × (any ended_early made ≡ false → length (results made) ≡ 3)
    × ((do_with_retry send wait config 0).0
        ≡ last_result (err (failure "all retry attempts failed")) (results made))
do_with_retry_attempts_example = do_with_retry_attempts send wait config 0

-- The default configuration waits one second and two seconds.
waits_run : waits made ≡ pos (seconds 1) ∷ pos (seconds 2) ∷ []
unfolding do_with_retry retry_from backoff webtracker.Shared.Int.from_bits
waits_run = refl
