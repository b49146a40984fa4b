-- ===== src/Web/Intervals.antt =====
-- The interval of a request, in minutes, and what the monitor service makes of it.
use webtracker.Shared.{ℕ, ◌*◌, ◌/◌, ◌%◌, ◌≤◌, ◌≡◌, ◌↔◌, ◌⊎◌, inl, inr, refl, ap, arith}
use webtracker.Shared.Int.{to_bits, from_bits, two_64, max_int64, ℤ, pos, div_int64}
use webtracker.Shared.Clock.{Duration, minutes}
use webtracker.Shared.Errors.{ok}
use webtracker.Domain.Monitor.{validate_check_interval}
use webtracker.Web.{minutes_to_duration}

abbrev pub two_53 : ℕ
two_53 = 9007199254740992

-- The low 53 bits of a number of minutes are 1, 5, 15 or 60.
abbrev pub IsAcceptable : ℤ → Type 0
IsAcceptable n =
    (to_bits n % two_53 ≡ 1)
    ⊎ (to_bits n % two_53 ≡ 5)
    ⊎ (to_bits n % two_53 ≡ 15)
    ⊎ (to_bits n % two_53 ≡ 60)

-- The product has the bits of k minutes exactly if the low 53 bits are those of k.
bits_lem :
    (b : ℕ)
    → let p = (b * 60000000000) % two_64 in
      ((p ≡ 60000000000) ↔ (b % two_53 ≡ 1))
      × ((p ≡ 300000000000) ↔ (b % two_53 ≡ 5))
      × ((p ≡ 900000000000) ↔ (b % two_53 ≡ 15))
      × ((p ≡ 3600000000000) ↔ (b % two_53 ≡ 60))
bits_lem b = (
  (λ h. omega arith, λ h. omega arith),
  (λ h. omega arith, λ h. omega arith),
  (λ h. omega arith, λ h. omega arith),
  (λ h. omega arith, λ h. omega arith),
)

from_bits_pos : (n k : ℕ) → k ≤ max_int64 → from_bits n ≡ pos k → n % two_64 ≡ k
unfolding from_bits
from_bits_pos n k h e = ground arith

pos_from_bits : (n k : ℕ) → k ≤ max_int64 → n % two_64 ≡ k → from_bits n ≡ pos k
unfolding from_bits
pos_from_bits n k h e = ground arith

accepted_cases :
    (d : Duration)
    → validate_check_interval d ≡ ok tt
    → (d ≡ pos 60000000000)
      ⊎ (d ≡ pos 300000000000)
      ⊎ (d ≡ pos 900000000000)
      ⊎ (d ≡ pos 3600000000000)
unfolding validate_check_interval
accepted_cases d h = ground arith

interval_sound :
    (n : ℤ)
    → let d = minutes_to_duration n in
      (d ≡ pos 60000000000)
        ⊎ (d ≡ pos 300000000000)
        ⊎ (d ≡ pos 900000000000)
        ⊎ (d ≡ pos 3600000000000)
      → IsAcceptable n
unfolding minutes_to_duration
interval_sound n (inl e) = inl ((bits_lem (to_bits n)).0.0 (from_bits_pos _ _ (omega arith) e))
interval_sound n (inr (inl e)) =
    inr (inl ((bits_lem (to_bits n)).1.0 (from_bits_pos _ _ (omega arith) e)))
interval_sound n (inr (inr (inl e))) =
    inr (inr (inl ((bits_lem (to_bits n)).2.0 (from_bits_pos _ _ (omega arith) e))))
interval_sound n (inr (inr (inr e))) =
    inr (inr (inr ((bits_lem (to_bits n)).3.0 (from_bits_pos _ _ (omega arith) e))))

interval_complete :
    (n : ℤ) → IsAcceptable n → validate_check_interval (minutes_to_duration n) ≡ ok tt
unfolding minutes_to_duration validate_check_interval
interval_complete n (inl e) =
    rw (pos_from_bits _ 60000000000 (omega arith) ((bits_lem (to_bits n)).0.1 e)) refl
interval_complete n (inr (inl e)) =
    rw (pos_from_bits _ 300000000000 (omega arith) ((bits_lem (to_bits n)).1.1 e)) refl
interval_complete n (inr (inr (inl e))) =
    rw (pos_from_bits _ 900000000000 (omega arith) ((bits_lem (to_bits n)).2.1 e)) refl
interval_complete n (inr (inr (inr e))) =
    rw (pos_from_bits _ 3600000000000 (omega arith) ((bits_lem (to_bits n)).3.1 e)) refl

shown_lem :
    (n : ℤ) (k : ℕ)
    → (60000000000 * k) / 60000000000 ≡ k
    → minutes_to_duration n ≡ pos (60000000000 * k)
    → to_bits n % two_53 ≡ k
    → div_int64 (minutes_to_duration n) 60000000000 ≡ pos (to_bits n % two_53)
unfolding div_int64
shown_lem n k q e f = rw (e, f) (ap pos q)

-- An accepted interval is shown as the low 53 bits of what was asked for.
pub shown_interval :
    (n : ℤ)
    → let d = minutes_to_duration n in
      (d ≡ pos (minutes 1))
        ⊎ (d ≡ pos (minutes 5))
        ⊎ (d ≡ pos (minutes 15))
        ⊎ (d ≡ pos (minutes 60))
      → div_int64 d (minutes 1) ≡ pos (to_bits n % two_53)
unfolding minutes_to_duration
shown_interval n (inl e) =
    shown_lem n 1 (omega arith) e ((bits_lem (to_bits n)).0.0 (from_bits_pos _ _ (omega arith) e))
shown_interval n (inr (inl e)) =
    shown_lem n 5 (omega arith) e ((bits_lem (to_bits n)).1.0 (from_bits_pos _ _ (omega arith) e))
shown_interval n (inr (inr (inl e))) =
    shown_lem n 15 (omega arith) e ((bits_lem (to_bits n)).2.0 (from_bits_pos _ _ (omega arith) e))
shown_interval n (inr (inr (inr e))) =
    shown_lem n 60 (omega arith) e ((bits_lem (to_bits n)).3.0 (from_bits_pos _ _ (omega arith) e))

-- The interval of a request, a number of minutes, passes the validation of the monitor exactly if
-- its low 53 bits are 1, 5, 15 or 60: the multiplication wraps, so that also 2^53 + 1 is accepted.
pub accepted_interval_iff :
    (n : ℤ) → (validate_check_interval (minutes_to_duration n) ≡ ok tt) ↔ IsAcceptable n
accepted_interval_iff n = (λ h. interval_sound n (accepted_cases _ h), interval_complete n)
