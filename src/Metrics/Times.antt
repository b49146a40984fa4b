-- ===== src/Metrics/Times.antt =====
-- metrics_service.go: the statistics of the response times lie between the least and the greatest.
use webtracker.Shared.{
  ℕ, zero, suc, ◌+◌, ◌-◌, ◌*◌, ◌≤◌, ◌<◌, ◌≡◌, refl, List, [], ◌∷◌, All, arith, length, Bool-cases,
  leb, inl, inr, subst,
}
use webtracker.Shared.Int.{pos, ◌≤ℤ◌, max_int64, add_int64_pos, div_int64}
use webtracker.Metrics.{insert, sort, nth, total_time, calculate_average, stats_of}
use webtracker.Shared.Float.{Floats}
use webtracker.Aggregation.Statistics.{quotient_between}
use native.Mathlib.Nat.{mul-suc}

abbrev pub Between : ℕ → ℕ → ℕ → Type 0
Between low high n = (low ≤ n) × (n ≤ high)

nth-Between :
    (low high : ℕ) (l : List ℕ) (i : ℕ)
    → All (Between low high) l
    → i < length l
    → Between low high (nth l i)
unfolding nth
nth-Between low high [] i a h = absurd (omega arith)
nth-Between low high (n ∷ l) zero a h = a.0
nth-Between low high (n ∷ l) (suc i) a h = nth-Between low high l i a.1 (omega arith)

abbrev pub IsSorted : List ℕ → Type 0
IsSorted [] = Unit
IsSorted (n ∷ l) = All (λ m. n ≤ m) l × IsSorted l

insert-All :
    (low n : ℕ) (l : List ℕ) → low ≤ n → All (λ m. low ≤ m) l → All (λ m. low ≤ m) (insert n l)
unfolding insert
insert-All low n [] h a = (h, tt)
insert-All low n (m ∷ l) h a = ground (arith, h, a.0, insert-All low n l h a.1)

weaken : (low n : ℕ) (l : List ℕ) → low ≤ n → All (λ m. n ≤ m) l → All (λ m. low ≤ m) l
weaken low n [] h a = tt
weaken low n (m ∷ l) h a = (omega (arith, a.0), weaken low n l h a.1)

insert-IsSorted : (n : ℕ) (l : List ℕ) → IsSorted l → IsSorted (insert n l)
unfolding insert
insert-IsSorted n [] h = (tt, tt)
insert-IsSorted n (m ∷ l) h = ground (
  arith,
  insert-IsSorted n l h.1,
  h.0,
  λ (le : n ≤ m). weaken n m l le h.0,
  λ (le : m ≤ n). insert-All m n l le h.0,
)

sort-IsSorted : (l : List ℕ) → IsSorted (sort l)
unfolding sort
sort-IsSorted [] = tt
sort-IsSorted (n ∷ l) = insert-IsSorted n (sort l) (sort-IsSorted l)

length-insert : (n : ℕ) (l : List ℕ) → length (insert n l) ≡ suc (length l)
unfolding insert
length-insert n [] = refl
length-insert n (m ∷ l) = ground (arith, length-insert n l)

-- In a list in order, nothing is above the last element.
last-All : (n : ℕ) (l : List ℕ) → IsSorted (n ∷ l) → All (λ m. m ≤ nth (n ∷ l) (length l)) (n ∷ l)
unfolding nth
last-All n [] h = (omega arith, tt)
last-All n (m ∷ l) h = let rest = last-All m l h.1 in (omega (arith, h.0.0, rest.0), rest)

both-All :
    (low high : ℕ) (l : List ℕ)
    → All (λ m. low ≤ m) l
    → All (λ m. m ≤ high) l
    → All (Between low high) l
both-All low high [] h k = tt
both-All low high (n ∷ l) h k = ((h.0, k.0), both-All low high l h.1 k.1)

-- A list in order lies between its ends.
ends-Between : (l : List ℕ) → IsSorted l → All (Between (nth l 0) (nth l (length l - 1))) l
unfolding nth
ends-Between [] h = tt
ends-Between (n ∷ l) h =
    let e : length l ≡ suc (length l) - 1 = omega arith in
    subst (λ i. All (Between n (nth (n ∷ l) i)) (n ∷ l)) e
      (both-All n (nth (n ∷ l) (length l)) (n ∷ l) (omega arith, h.0) (last-All n l h))

abbrev pub sum : List ℕ → ℕ
sum [] = 0
sum (n ∷ l) = n + sum l

sum-insert : (n : ℕ) (l : List ℕ) → sum (insert n l) ≡ n + sum l
unfolding insert
sum-insert n [] = refl
sum-insert n (m ∷ l) = ground (arith, sum-insert n l)

-- Sorting keeps the number of the times and their sum.
sort-keeps : (l : List ℕ) → (sum (sort l) ≡ sum l) × (length (sort l) ≡ length l)
unfolding sort
sort-keeps [] = (refl, refl)
sort-keeps (n ∷ l) = ground (arith, sum-insert n (sort l), length-insert n (sort l), sort-keeps l)

total_time_lem :
    (l : List ℕ) (t : ℕ) → t + sum l ≤ max_int64 → total_time l (pos t) ≡ pos (t + sum l)
unfolding total_time
total_time_lem [] t h = ground arith
total_time_lem (n ∷ l) t h =
    ground (arith, add_int64_pos t n (omega arith), total_time_lem l (t + n) (omega arith))

sum-Between :
    (low high : ℕ) (l : List ℕ)
    → All (Between low high) l
    → (low * length l ≤ sum l) × (sum l ≤ high * length l)
sum-Between low high [] a = ground arith
sum-Between low high (n ∷ l) a =
    ground (arith, a.0, sum-Between low high l a.1, mul-suc low (length l), mul-suc high (length l))

average-Between :
    (low high : ℕ) (l : List ℕ)
    → All (Between low high) l
    → 0 < length l
    → sum l ≤ max_int64
    → (pos low ≤ℤ calculate_average l) × (calculate_average l ≤ℤ pos high)
unfolding calculate_average div_int64
average-Between low high [] a h le = absurd (omega arith)
average-Between low high (n ∷ l) a h le =
    let (below, above) = sum-Between low high (n ∷ l) a in
    let (least, most) = quotient_between low high (sum (n ∷ l)) (length (n ∷ l)) h below above in
    ground (arith, total_time_lem (n ∷ l) 0 (omega arith), least, most)

uninsert-All : (P : ℕ → Type 0) (n : ℕ) (l : List ℕ) → All P (insert n l) → P n × All P l
unfolding insert
uninsert-All P n [] a = a
uninsert-All P n (m ∷ l) a = elim (Bool-cases (leb n m)) [
  | inl e ↦ rw (insert, e) at a
  | inr e ↦
      let (here, rest) = (rw (insert, e) at a) in
      let (p, q) = uninsert-All P n l rest in (p, (here, q))
]

-- What holds of the times in order holds of them all.
unsort-All : (P : ℕ → Type 0) (l : List ℕ) → All P (sort l) → All P l
unfolding sort
unsort-All P [] a = tt
unsort-All P (n ∷ l) a = let (p, q) = uninsert-All P n (sort l) a in (p, unsort-All P l q)

as_durations :
    (low high : ℕ) (l : List ℕ)
    → All (Between low high) l
    → All (λ n. (pos low ≤ℤ pos n) × (pos n ≤ℤ pos high)) l
as_durations low high [] a = tt
as_durations low high (n ∷ l) a =
    ((ground (arith, a.0), ground (arith, a.0)), as_durations low high l a.1)

-- The statistics of response times of which there is one at least, and whose sum fits an `int64`:
-- every time lies between the least and the greatest, and so does the average.
pub stats_of-Between :
    (fl : Floats) (times : List ℕ)
    → 0 < length times
    → sum times ≤ max_int64
    → let stats = stats_of fl (sort times) in
      (stats.min ≤ℤ stats.average)
      × (stats.average ≤ℤ stats.max)
      × All (λ n. (stats.min ≤ℤ pos n) × (pos n ≤ℤ stats.max)) times
unfolding stats_of
stats_of-Between fl times h le =
    let l = sort times in
    let a = ends-Between l (sort-IsSorted times) in
    let (same, count) = sort-keeps times in
    let some : 0 < length l = omega (arith, h, count) in
    let fits : sum l ≤ max_int64 = omega (arith, le, same) in
    let high = nth l (length l - 1) in
    let (below, above) = average-Between (nth l 0) high l a some fits in
    (below, above, as_durations (nth l 0) high times (unsort-All _ times a))
