-- ===== src/HttpClient/Attempts.antt =====
-- retry.go: how often a request is tried, how long the delays are and what is returned.
use webtracker.Shared.{
  ℕ, zero, suc, ◌-◌, ◌≤◌, ◌<◌, ◌≡◌, refl, Bool, true, false, not, List, [], ◌∷◌, arith, length, inl,
  inr, any,
}
use webtracker.Shared.Int.{pos_part}
use webtracker.Shared.Clock.{Duration}
use webtracker.Shared.Errors.{Result, ok, err, failure, Result-cases}
use webtracker.HttpClient.{RetryConfig, backoff, Call, attempted, waited, retry_from, do_with_retry}

module _ {R : Type 0} where
  abbrev pub waits : List (Call R) → List Duration
  waits [] = []
  waits (attempted r ∷ l) = waits l
  waits (waited d b ∷ l) = d ∷ waits l

  abbrev pub results : List (Call R) → List (Result R)
  results [] = []
  results (attempted r ∷ l) = r ∷ results l
  results (waited d b ∷ l) = results l

  abbrev pub ended_early : Call R → Bool
  ended_early (attempted (ok x)) = true
  ended_early (attempted (err e)) = false
  ended_early (waited d passed) = not passed

  -- The last result, or the first argument where there is none.
  abbrev pub last_result : Result R → List (Result R) → Result R
  last_result r [] = r
  last_result r (x ∷ l) = last_result x l

abbrev pub delays : RetryConfig → ℕ → ℕ → List Duration
delays config attempt zero = []
delays config attempt (suc n) = backoff config attempt ∷ delays config (suc attempt) n

module _ {W R : Type 0} (send : W → Result R × W) (wait : Duration → W → Bool × W)
    (config : RetryConfig) where
  abbrev calls_from : ℕ → ℕ → W → List (Call R)
  calls_from left attempt w = (retry_from send wait config left attempt w).1

  -- The state in which the next attempt starts.
  abbrev next : ℕ → W → W
  next attempt w = (wait (backoff config attempt) (send w).1).1

  retry_counts :
      (left attempt : ℕ) (w : W)
      → (length (results (calls_from left attempt w)) ≤ left)
        × (any ended_early (calls_from left attempt w) ≡ false
            → length (results (calls_from left attempt w)) ≡ left)
  unfolding retry_from
  retry_counts zero attempt w = ground arith
  retry_counts (suc left) attempt w = elim (Result-cases (send w).0) [
    | inl (x, e) ↦ ground (arith, e)
    | inr (x, e) ↦ ground (arith, e, retry_counts left (suc attempt) (next attempt w))
  ]

  retry_delays :
      (left attempt : ℕ) (w : W)
      → (waits (calls_from left attempt w)
          ≡ delays config attempt (length (waits (calls_from left attempt w))))
        × (length (waits (calls_from left attempt w)) ≤ left - 1)
  unfolding retry_from
  retry_delays zero attempt w = ground arith
  retry_delays (suc left) attempt w = elim (Result-cases (send w).0) [
    | inl (x, e) ↦ ground (arith, e)
    | inr (x, e) ↦ ground (arith, e, retry_delays left (suc attempt) (next attempt w))
  ]

  retry_result :
      (left attempt : ℕ) (w : W) (r : Result R)
      → 0 < left
      → (retry_from send wait config left attempt w).0
        ≡ last_result r (results (calls_from left attempt w))
  unfolding retry_from
  retry_result zero attempt w r h = ground arith
  retry_result (suc zero) attempt w r h = elim (Result-cases (send w).0) [
    | inl (x, e) ↦ ground (arith, e)
    | inr (x, e) ↦ ground (arith, e)
  ]
  retry_result (suc (suc left)) attempt w r h = elim (Result-cases (send w).0) [
    | inl (x, e) ↦ ground (arith, e)
    | inr (x, e) ↦
        ground
          (arith, e, retry_result (suc left) (suc attempt) (next attempt w) (err x) (omega arith))
  ]

  retry_result_any :
      (left : ℕ) (w : W)
      → (retry_from send wait config left 0 w).0
        ≡ last_result (err (failure "all retry attempts failed")) (results (calls_from left 0 w))
  unfolding retry_from
  retry_result_any zero w = refl
  retry_result_any (suc left) w = retry_result (suc left) 0 w _ (omega arith)

  abbrev calls : W → List (Call R)
  calls w = (do_with_retry send wait config w).1

  -- A request is tried at most `MaxAttempts` times, and exactly so often if no attempt succeeds
  -- and the context does not end during a delay. What is returned is the result of the last
  -- attempt, or an error of its own where `MaxAttempts` allows none.
  pub do_with_retry_attempts :
      (w : W)
      → (length (results (calls w)) ≤ pos_part config.max_attempts)
        × (any ended_early (calls w) ≡ false
            → length (results (calls w)) ≡ pos_part config.max_attempts)
        × ((do_with_retry send wait config w).0
            ≡ last_result (err (failure "all retry attempts failed")) (results (calls w)))
  unfolding do_with_retry
  do_with_retry_attempts w =
      let (most, all) = retry_counts (pos_part config.max_attempts) 0 w in
      (most, all, retry_result_any (pos_part config.max_attempts) w)

  -- The delays between the attempts are the initial delay times 1, 2, 4 and so on, in 64 bits, and
  -- there is at least one fewer than `MaxAttempts`: none follows the last attempt.
  pub do_with_retry_delays :
      (w : W)
      → (waits (calls w) ≡ delays config 0 (length (waits (calls w))))
        × (length (waits (calls w)) ≤ pos_part config.max_attempts - 1)
  unfolding do_with_retry
  do_with_retry_delays w = retry_delays (pos_part config.max_attempts) 0 w
