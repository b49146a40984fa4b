-- ===== src/Examples/Latencies.antt =====
-- Statistics of response times.
use webtracker.Shared.Float.{Floats}
use webtracker.Shared.Int.{pos, pos_part, ◌≤ℤ◌}
use webtracker.Shared.{◌+◌, ◌-◌, ◌*◌, ◌/◌, ◌==◌, All, ◌≡◌, refl, List, [], ◌∷◌, arith, ℕ}
use webtracker.Metrics.{sort, insert, stats_of, calculate_percentile, nth}
use webtracker.Metrics.Times.{stats_of-Between}

abbrev times : List ℕ
times = 300 ∷ 100 ∷ 200 ∷ []

-- Floats that are multiples of a hundredth.
abbrev hundredths : Floats
hundredths = record {
  of_int = λ n. 100 * pos_part n;
  to_int = λ x. pos (x / 100);
  add = λ x y. x + y;
  sub = λ x y. x - y;
  mul = λ x y. x * y / 100;
  div = λ x y. 100 * x / y;
  floor = λ x. 100 * (x / 100);
  round = λ x. 100 * ((x + 50) / 100);
  ceil = λ x. 100 * ((x + 99) / 100);
  eq = λ x y. x == y;
  tenth = 10;
}

stats_of-Between_example :
    let stats = stats_of hundredths (sort times) in
    (stats.min ≤ℤ stats.average)
    × (stats.average ≤ℤ stats.max)
    × All (λ n. (stats.min ≤ℤ pos n) × (pos n ≤ℤ stats.max)) times
stats_of-Between_example = stats_of-Between hundredths times (omega arith) (omega arith)

-- The index 1.9 lies between 200 and 300.
percentile_interpolated : calculate_percentile hundredths (sort times) 95 ≡ pos 290
unfolding sort insert calculate_percentile nth
percentile_interpolated = refl
