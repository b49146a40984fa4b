-- ===== src/Metrics.antt =====
-- usecase/metrics_service.go: the uptime and the response times of a monitor.
-- The repository, the cache (which may be nil), the clock and the operations on floats are
-- parameters over the state `W` of the world. Of a failure of the cache only what becomes of it is
-- kept, not its log line.
pub mod Times
use webtracker.Shared.{
  ℕ, zero, suc, ◌+◌, ◌-◌, ◌*◌, ◌/◌, ◌%◌, Bool, true, false, ◌&&◌, Option, none, some, String, List,
  [], ◌∷◌, if◌then◌else◌, ltb, leb, ◌==◌, length,
}
use webtracker.Shared.Int.{ℤ, pos, negsuc, pos_part, add_int64, div_int64}
use webtracker.Shared.Float.{Float64, Floats}
use webtracker.Shared.Clock.{Instant, Duration, minutes, hours}
use webtracker.Shared.Errors.{Error, Result, ok, err, deadline_exceeded, canceled, wrapped}
use webtracker.Shared.Effects.{M, pure, fail, lift, context, attempt, ignored, ◌>>=◌, ◌>>◌}
use webtracker.Domain.HealthCheck.{HealthCheck, is_successful}

pub record UptimeStats : Type 0 where
  pub period_24h : Float64
  pub period_7d : Float64
  pub period_30d : Float64

pub record ResponseTimeStats : Type 0 where
  pub average : Duration
  pub min : Duration
  pub max : Duration
  pub p95 : Duration
  pub p99 : Duration

abbrev pub count_successful : List HealthCheck → ℕ
count_successful [] = 0
count_successful (c ∷ checks) =
    if is_successful c then suc (count_successful checks) else count_successful checks

-- math.Round(percentage*100) / 100
unfoldable pub uptime : Floats → List HealthCheck → Float64
uptime fl [] = fl.of_int (pos 0)
uptime fl (c ∷ checks) =
    let successful = fl.of_int (pos (count_successful (c ∷ checks))) in
    let total = fl.of_int (pos (length (c ∷ checks))) in
    let percentage = fl.mul (fl.div successful total) (fl.of_int (pos 100)) in
    fl.div (fl.round (fl.mul percentage (fl.of_int (pos 100)))) (fl.of_int (pos 100))

-- The response times of the successful checks that took any time.
unfoldable pub response_times : List HealthCheck → List ℕ
response_times [] = []
response_times (c ∷ checks) =
    let rest = response_times checks in
    elim c.response_time [
      | pos n ↦ if is_successful c && ltb 0 n then n ∷ rest else rest
      | negsuc n ↦ rest
    ]

-- `sort.Slice` by `<`.
unfoldable pub insert : ℕ → List ℕ → List ℕ
insert n [] = n ∷ []
insert n (m ∷ l) = let rest = insert n l in if leb n m then n ∷ m ∷ l else m ∷ rest

unfoldable pub sort : List ℕ → List ℕ
unfolding insert
sort [] = []
sort (n ∷ l) = insert n (sort l)

-- The element at an index; out of range, where the code would panic, 0.
unfoldable pub nth : List ℕ → ℕ → ℕ
nth [] i = 0
nth (n ∷ l) zero = n
nth (n ∷ l) (suc i) = nth l i

unfoldable pub total_time : List ℕ → ℤ → ℤ
total_time [] total = total
total_time (n ∷ l) total = total_time l (add_int64 total (pos n))

unfoldable pub calculate_average : List ℕ → Duration
unfolding total_time
calculate_average [] = pos 0
calculate_average (n ∷ l) = div_int64 (total_time (n ∷ l) (pos 0)) (length (n ∷ l))

-- Between the two elements that the index p / 100 * (length - 1) lies between.
interpolate : Floats → List ℕ → Float64 → Duration
unfolding nth
interpolate fl times index =
    let lower = pos_part (fl.to_int (fl.floor index)) in
    let upper = pos_part (fl.to_int (fl.ceil index)) in
    let weight = fl.sub index (fl.of_int (pos lower)) in
    let lower_val = fl.of_int (pos (nth times lower)) in
    let upper_val = fl.of_int (pos (nth times upper)) in
    if leb (length times) upper
    then pos (nth times (length times - 1))
    else fl.to_int (fl.add lower_val (fl.mul weight (fl.sub upper_val lower_val)))

unfoldable pub calculate_percentile : Floats → List ℕ → ℕ → Duration
unfolding nth interpolate
calculate_percentile fl [] p = pos 0
calculate_percentile fl (n ∷ l) p =
    let times = n ∷ l in
    let index =
      fl.mul (fl.div (fl.of_int (pos p)) (fl.of_int (pos 100))) (fl.of_int (pos (length l))) in
    let whole = fl.to_int index in
    if p == 0
    then pos n
    else if leb 100 p
    then pos (nth times (length l))
    else if fl.eq index (fl.of_int whole)
    then pos (nth times (pos_part whole))
    else interpolate fl times index

unfoldable pub stats_of : Floats → List ℕ → ResponseTimeStats
unfolding calculate_average calculate_percentile nth
stats_of fl times = record {
  average = calculate_average times;
  min = pos (nth times 0);
  max = pos (nth times (length times - 1));
  p95 = calculate_percentile fl times 95;
  p99 = calculate_percentile fl times 99;
}

abbrev pub no_stats : ResponseTimeStats
no_stats = record { average = pos 0; min = pos 0; max = pos 0; p95 = pos 0; p99 = pos 0 }

-- `errors.Is(err, context.DeadlineExceeded)` and `errors.Is(err, context.Canceled)`.
abbrev pub is_deadline_exceeded : Error → Bool
is_deadline_exceeded deadline_exceeded = true
is_deadline_exceeded (wrapped text e) = is_deadline_exceeded e
is_deadline_exceeded _ = false

abbrev pub is_canceled : Error → Bool
is_canceled canceled = true
is_canceled (wrapped text e) = is_canceled e
is_canceled _ = false

-- The keys `cache:metrics:<id>:uptime` and `cache:metrics:<id>:response:<period>`.
pub data MetricsKey : Type 0 where
  uptime_key : String → MetricsKey
  response_key : String → Duration → MetricsKey

-- The interface `MetricsRedisClient` at one type of values. `expired` tells whether the deadline of
-- a call has passed.
pub record MetricsCache (W A : Type 0) : Type 0 where
  pub get_json : MetricsKey → M W (Option A)
  pub set_json : MetricsKey → A → Duration → M W (Unit {0})
  pub expired : W → Bool

pub record MetricsService (W : Type 0) : Type 0 where
  pub get_by_date_range : String → Instant → Instant → M W (List HealthCheck)
  pub clock : W → Instant × W
  pub floats : Floats
  pub uptimes : Option (MetricsCache W UptimeStats)
  pub times : Option (MetricsCache W ResponseTimeStats)

module _ {W A : Type 0} where
  -- An error that is a timeout of the cache becomes `instead`.
  unfoldable pub unless_late : {B : Type 0} → MetricsCache W A → B → Result B → M W B
  unless_late cache instead (ok b) w = pure b w
  unless_late cache instead (err e) w =
      if is_canceled e
      then fail e w
      else if is_deadline_exceeded e
      then pure instead w
      else if cache.expired w
      then pure instead w
      else fail e w

  unfoldable pub get_cached_json : Option (MetricsCache W A) → MetricsKey → M W (Option A)
  unfolding unless_late
  get_cached_json none key = pure none
  get_cached_json (some cache) key = attempt (cache.get_json key) >>= unless_late cache none

  unfoldable pub set_cached_json :
      Option (MetricsCache W A) → MetricsKey → A → Duration → M W (Unit {0})
  unfolding unless_late
  set_cached_json none key value ttl = pure tt
  set_cached_json (some cache) key value ttl =
      attempt (cache.set_json key value ttl) >>= unless_late cache tt

  -- An entry of the cache, or else what is computed, which is then cached for a minute.
  unfoldable pub or_compute : M W A → Result (Option A) → M W A
  or_compute m (ok (some a)) = pure a
  or_compute m (ok none) = m
  or_compute m (err e) = m

module _ {W : Type 0} (s : MetricsService W) where
  abbrev time_now : M W Instant
  time_now w = let (t, w') = s.clock w in lift (ok t) w'

  unfoldable pub calculate_uptime_for_period : String → Instant → Instant → M W ℕ
  unfolding uptime
  calculate_uptime_for_period id start end = do
    checks ← context "failed to get health checks" (s.get_by_date_range id start end)
    pure (uptime s.floats checks)

  unfoldable pub compute_uptimes : String → M W UptimeStats
  unfolding calculate_uptime_for_period set_cached_json
  compute_uptimes id = do
    now ← time_now
    day ←
        context "failed to calculate 24h uptime"
          (calculate_uptime_for_period id (now - hours 24) now)
    week ←
        context "failed to calculate 7d uptime"
          (calculate_uptime_for_period id (now - hours 168) now)
    month ←
        context "failed to calculate 30d uptime"
          (calculate_uptime_for_period id (now - hours 720) now)
    let stats : UptimeStats = record { period_24h = day; period_7d = week; period_30d = month }
    ignored (set_cached_json s.uptimes (uptime_key id) stats (pos (minutes 1)))
    pure stats

  unfoldable pub get_uptime_percentage : String → M W UptimeStats
  unfolding get_cached_json or_compute compute_uptimes
  get_uptime_percentage id =
      attempt (get_cached_json s.uptimes (uptime_key id)) >>= or_compute (compute_uptimes id)

  unfoldable pub report_times : String → Duration → List ℕ → M W ResponseTimeStats
  unfolding stats_of set_cached_json sort
  report_times id period [] = pure no_stats
  report_times id period (n ∷ l) = do
    let stats = stats_of s.floats (sort (n ∷ l))
    ignored (set_cached_json s.times (response_key id period) stats (pos (minutes 1)))
    pure stats

  -- For a period that is not negative, as the callers give it.
  unfoldable pub compute_times : String → ℕ → M W ResponseTimeStats
  unfolding report_times response_times
  compute_times id period = do
    now ← time_now
    checks ← context "failed to get health checks" (s.get_by_date_range id (now - period) now)
    report_times id (pos period) (response_times checks)

  unfoldable pub get_response_time_stats : String → ℕ → M W ResponseTimeStats
  unfolding get_cached_json or_compute compute_times
  get_response_time_stats id period =
      attempt (get_cached_json s.times (response_key id (pos period)))
      >>= or_compute (compute_times id period)
