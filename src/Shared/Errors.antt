-- ===== src/Shared/Errors.antt =====
-- Go's error values. `fmt.Errorf("context: %w", err)` is `wrapped "context" err`, and
-- `errors.New("text")` is `failure "text"`; the sentinel errors that the program compares by
-- identity are constructors.
use Prim.Native.String.{String}
use mathlib.Core.Path.{◌≡◌, refl}
use mathlib.Core.Logic.{◌⊎◌, inl, inr}
use mathlib.Core.Bool.{Bool, true, false}

pub data Error : Type 0 where
  monitor_not_found : Error
  circuit_open : Error
  redis_unavailable : Error
  key_not_found : Error
  deadline_exceeded : Error
  canceled : Error
  failure : String → Error
  wrapped : String → Error → Error

-- `err == ErrCircuitOpen`: identity, which does not look under a wrapping.
abbrev pub is_circuit_open : Error → Bool
is_circuit_open circuit_open = true
is_circuit_open _ = false

-- `errors.Is(err, domain.ErrMonitorNotFound)`, which unwraps.
abbrev pub is_not_found : Error → Bool
is_not_found monitor_not_found = true
is_not_found (wrapped s e) = is_not_found e
is_not_found _ = false

-- A call that returns a value and an error.
pub data Result {ℓ} (A : Type ℓ) : Type ℓ where
  ok : A → Result A
  err : Error → Result A

-- A call that returns only an error, which may be nil.
abbrev pub Outcome : Type 0
Outcome = Result (Unit {0})

pub Result-cases {ℓ} :
    {A : Type ℓ} (r : Result A) → ((a : A) × (r ≡ ok a)) ⊎ ((e : Error) × (r ≡ err e))
Result-cases (ok a) = inl (a, refl)
Result-cases (err e) = inr (e, refl)
