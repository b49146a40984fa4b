-- ===== src/Shared/Float.antt =====
-- Go's float64 as the code uses it: the operations of the hardware on its 64 bits are parameters.
use Prim.Native.Nat.{ℕ}
use mathlib.Core.Bool.{Bool}
use webtracker.Shared.Int.{ℤ}

abbrev pub Float64 : Type 0
Float64 = ℕ

-- `of_int` is `float64(n)`, `to_int` is `int64(x)`, and `tenth` is the constant 0.1.
pub record Floats : Type 0 where
  pub of_int : ℤ → Float64
  pub to_int : Float64 → ℤ
  pub add : Float64 → Float64 → Float64
  pub sub : Float64 → Float64 → Float64
  pub mul : Float64 → Float64 → Float64
  pub div : Float64 → Float64 → Float64
  pub floor : Float64 → Float64
  pub round : Float64 → Float64
  pub ceil : Float64 → Float64
  pub eq : Float64 → Float64 → Bool
  pub tenth : Float64
