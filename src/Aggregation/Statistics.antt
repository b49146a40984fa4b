-- ===== src/Aggregation/Statistics.antt =====
-- healthcheck_aggregation_service.go: the statistics of an hour.
use webtracker.Shared.{
  ℕ, suc, refl, ◌+◌, ◌*◌, ◌/◌, ◌≤◌, ◌<◌, ◌≡◌, true, String, List, [], ◌∷◌, if◌then◌else◌, arith,
  length, All, inl, inr, Bool-cases,
}
use native.Mathlib.Decide.{dec_lt}
use native.Mathlib.Nat.{mul-suc, le-div_iff_mul-le, mul_comm, div-le_of_le-mul}
use webtracker.Shared.Int.{add_int64_pos, div_int64, max_int64, pos, pos_part, ℤ, ◌≤ℤ◌}
use webtracker.Domain.HealthCheck.{HealthCheck, is_successful}
use webtracker.Aggregation.{empty_tally, Instant, aggregate, Tally, count_check, count_checks}

-- Every check counts once.
counts_add_up :
    (checks : List HealthCheck) (t : Tally)
    → (count_checks checks t).successful + (count_checks checks t).failed
      ≡ t.successful + t.failed + length checks
unfolding count_checks count_check
counts_add_up [] t = ground arith
counts_add_up (c ∷ checks) t = ground (arith, counts_add_up checks (count_check c t))

-- The bounds only widen.
bounds_widen :
    (checks : List HealthCheck) (t : Tally)
    → ((count_checks checks t).least ≤ℤ t.least) × (t.greatest ≤ℤ (count_checks checks t).greatest)
unfolding count_checks count_check
bounds_widen [] t = ground arith
bounds_widen (c ∷ checks) t = ground (arith, bounds_widen checks (count_check c t))

-- Within the bounds, if the check succeeded.
abbrev pub Within : ℤ → ℤ → HealthCheck → Type 0
Within low high c = is_successful c ≡ true → (low ≤ℤ c.response_time) × (c.response_time ≤ℤ high)

checks-Within :
    (checks : List HealthCheck) (t : Tally)
    → All (Within (count_checks checks t).least (count_checks checks t).greatest) checks
unfolding count_checks count_check
checks-Within [] t = tt
checks-Within (c ∷ checks) t = (
  λ ok_. ground (arith, bounds_widen checks (count_check c t)),
  checks-Within checks (count_check c t),
)

-- The checks that succeeded, and the sum of their response times, as natural numbers.
abbrev pub successes : List HealthCheck → ℕ
successes [] = 0
successes (c ∷ checks) = if is_successful c then suc (successes checks) else successes checks

abbrev pub time_spent : List HealthCheck → ℕ
time_spent [] = 0
time_spent (c ∷ checks) =
    if is_successful c then pos_part c.response_time + time_spent checks else time_spent checks

abbrev pub NotNegative : HealthCheck → Type 0
NotNegative c = pos 0 ≤ℤ c.response_time

successful-count :
    (checks : List HealthCheck) (t : Tally)
    → (count_checks checks t).successful ≡ t.successful + successes checks
unfolding count_checks count_check
successful-count [] t = ground arith
successful-count (c ∷ checks) t = ground (arith, successful-count checks (count_check c t))

total-count :
    (checks : List HealthCheck) (t : Tally) (m : ℕ)
    → All NotNegative checks
    → t.total ≡ pos m
    → m + time_spent checks ≤ max_int64
    → (count_checks checks t).total ≡ pos (m + time_spent checks)
unfolding count_checks count_check
total-count [] t m a e h = ground arith
total-count (c ∷ checks) t m a e h = elim (Bool-cases (is_successful c)) [
  | inl yes_ ↦ ground (
    arith,
    yes_,
    add_int64_pos m (pos_part c.response_time),
    total-count checks (count_check c t) (m + pos_part c.response_time) a.1,
  )
  | inr no_ ↦ ground (arith, no_, total-count checks (count_check c t) m a.1)
]

least_not_negative :
    (checks : List HealthCheck) (t : Tally)
    → All NotNegative checks
    → pos 0 ≤ℤ t.least
    → pos 0 ≤ℤ (count_checks checks t).least
unfolding count_checks count_check
least_not_negative [] t a h = h
least_not_negative (c ∷ checks) t a h =
    ground (arith, least_not_negative checks (count_check c t) a.1)

time-bounds :
    (checks : List HealthCheck) (low high : ℤ)
    → pos 0 ≤ℤ low
    → pos 0 ≤ℤ high
    → All NotNegative checks
    → All (Within low high) checks
    → (pos_part low * successes checks ≤ time_spent checks)
      × (time_spent checks ≤ pos_part high * successes checks)
time-bounds [] low high p q a w = ground arith
time-bounds (c ∷ checks) low high p q a w = ground (
  arith,
  w.0,
  a.0,
  mul-suc (pos_part low) (successes checks),
  mul-suc (pos_part high) (successes checks),
  time-bounds checks low high p q a.1 w.1,
)

-- The quotient of a sum by its number of summands is between their bounds.
pub quotient_between :
    (low high total n : ℕ)
    → 0 < n
    → low * n ≤ total
    → total ≤ high * n
    → (low ≤ total / n) × (total / n ≤ high)
quotient_between low high total n h l u =
    ((le-div_iff_mul-le h).1 l, div-le_of_le-mul n (rw (mul_comm n high) u))

average-between :
    (checks : List HealthCheck)
    → All NotNegative checks
    → time_spent checks ≤ max_int64
    → 0 < successes checks
    → let t = count_checks checks empty_tally in
      (t.least ≤ℤ div_int64 t.total t.successful) × (div_int64 t.total t.successful ≤ℤ t.greatest)
unfolding div_int64
average-between checks a h some =
    let t : Tally = count_checks checks empty_tally in
    let low = least_not_negative checks empty_tally a (omega arith) in
    let high : pos 0 ≤ℤ t.greatest = (bounds_widen checks empty_tally).1 in
    let sums =
      time-bounds checks t.least t.greatest low high a (checks-Within checks empty_tally) in
    ground (
      arith,
      low,
      high,
      total-count checks empty_tally 0 a,
      successful-count checks empty_tally,
      quotient_between (pos_part t.least) (pos_part t.greatest) (time_spent checks)
          (successes checks) some sums.0 sums.1,
    )

none-Within :
    (checks : List HealthCheck) (low high : ℤ) → successes checks ≡ 0 → All (Within low high) checks
none-Within [] low high e = tt
none-Within (c ∷ checks) low high e =
    (λ yes_. absurd (ground arith), none-Within checks low high (ground arith))

-- What an hour's aggregate says of checks whose response times are not negative and sum up to an
-- `int64`: every check is counted once, the average is between the least and the greatest response
-- time, and so is the response time of every check that succeeded.
pub aggregate_bounds :
    (monitor_id id : String) (checks : List HealthCheck) (hour now : Instant)
    → All NotNegative checks
    → time_spent checks ≤ max_int64
    → let a = aggregate monitor_id checks id hour now in
      (a.successful_checks + a.failed_checks ≡ a.total_checks)
      × (a.total_checks ≡ length checks)
      × (a.min_response_time ≤ℤ a.avg_response_time)
      × (a.avg_response_time ≤ℤ a.max_response_time)
      × All (Within a.min_response_time a.max_response_time) checks
unfolding aggregate div_int64
aggregate_bounds monitor_id id checks hour now a h = (
  ground (arith, counts_add_up checks empty_tally),
  refl,
  ground (arith, average-between checks a h, successful-count checks empty_tally),
  ground (arith, average-between checks a h, successful-count checks empty_tally),
  elim (dec_lt 0 (successes checks)) [
    | yes some ↦
        ground (arith, checks-Within checks empty_tally, successful-count checks empty_tally)
    | no none_ ↦
        none-Within checks (aggregate monitor_id checks id hour now).min_response_time
          (aggregate monitor_id checks id hour now).max_response_time (omega arith)
  ],
)
