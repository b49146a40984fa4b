-- ===== src/Shared/Int.antt =====
-- Go's `int` and `int64` as signed integers over the native numbers, with the wrap-around of
-- their 64 bits written out in `incr` and `int64`.
use Prim.Native.Nat.{ℕ, zero, suc, ◌+◌, ◌-◌, ◌/◌, ◌%◌, ◌≤◌, ◌<◌}
use mathlib.Core.Path.{◌≡◌}
use mathlib.Core.Bool.{Bool}
use native.Mathlib.Omega.{arith}
use webtracker.Shared.Tests.{ltb, leb, ◌==◌, if◌then◌else◌}

-- `negsuc n` is -(n + 1).
pub data ℤ : Type 0 where
  pos : ℕ → ℤ
  negsuc : ℕ → ℤ

abbrev pub pos_part : ℤ → ℕ
pos_part (pos n) = n
pos_part (negsuc n) = 0

abbrev pub neg_part : ℤ → ℕ
neg_part (pos n) = 0
neg_part (negsuc n) = suc n

-- a - b, as an integer.
abbrev pub sub_ℕ : ℕ → ℕ → ℤ
sub_ℕ a b = if leb b a then pos (a - b) else negsuc (b - a - 1)

abbrev pub ltb_ℤ : ℤ → ℤ → Bool
ltb_ℤ a b = ltb (pos_part a + neg_part b) (pos_part b + neg_part a)

abbrev pub leb_ℤ : ℤ → ℤ → Bool
leb_ℤ a b = leb (pos_part a + neg_part b) (pos_part b + neg_part a)

abbrev pub eqb_ℤ : ℤ → ℤ → Bool
eqb_ℤ a b = pos_part a + neg_part b == pos_part b + neg_part a

infix 50 ◌≤ℤ◌ ◌<ℤ◌
abbrev pub ◌≤ℤ◌ : ℤ → ℤ → Type 0
a ≤ℤ b = pos_part a + neg_part b ≤ pos_part b + neg_part a

abbrev pub ◌<ℤ◌ : ℤ → ℤ → Type 0
a <ℤ b = pos_part a + neg_part b < pos_part b + neg_part a

-- The largest `int64`, 2^63 - 1.
abbrev pub max_int64 : ℕ
max_int64 = 9223372036854775807

abbrev pub two_64 : ℕ
two_64 = 18446744073709551616

-- The `int64` with the low 64 bits of the number.
unfoldable pub from_bits : ℕ → ℤ
from_bits n = let r = n % two_64 in if leb r max_int64 then pos r else negsuc (two_64 - r - 1)

-- `x++` on an `int`: past 2^63 - 1 it continues at -2^63.
unfoldable pub incr : ℤ → ℤ
incr (pos n) = if leb max_int64 n then negsuc n else pos (n + 1)
incr (negsuc zero) = pos 0
incr (negsuc (suc n)) = negsuc n

pub incr_pos : (n : ℕ) → n < max_int64 → incr (pos n) ≡ pos (n + 1)
unfolding incr
incr_pos n h = ground arith

pub incr_below : (n m : ℕ) → n < m → pos m ≤ℤ pos max_int64 → incr (pos n) ≡ pos (n + 1)
incr_below n m h k = incr_pos n (omega arith)

pub from_bits_small : (n : ℕ) → n ≤ max_int64 → from_bits n ≡ pos n
unfolding from_bits
from_bits_small n h = ground arith

-- The low 64 bits of an integer, in two's complement.
abbrev pub to_bits : ℤ → ℕ
to_bits (pos n) = n % two_64
to_bits (negsuc n) = two_64 - 1 - n % two_64

-- `x + y` on an `int64`.
unfoldable pub add_int64 : ℤ → ℤ → ℤ
add_int64 a b = from_bits (to_bits a + to_bits b)

-- `x / n` for a positive n, which rounds towards 0.
unfoldable pub div_int64 : ℤ → ℕ → ℤ
div_int64 (pos m) n = pos (m / n)
div_int64 (negsuc m) n = sub_ℕ 0 (suc m / n)

pub add_int64_pos : (m n : ℕ) → m + n ≤ max_int64 → add_int64 (pos m) (pos n) ≡ pos (m + n)
unfolding add_int64 from_bits
add_int64_pos m n h = ground arith

pub add_int64_neg : (m n : ℕ) → n ≤ m → m ≤ max_int64 → add_int64 (pos m) (sub_ℕ 0 n) ≡ pos (m - n)
unfolding add_int64 from_bits
add_int64_neg m n h k = ground arith
