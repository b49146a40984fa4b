-- ===== src/Shared/Effects.antt =====
-- Code that calls out of the program: a call takes the state, and returns its result and the new
-- state. An error ends a chain of calls and leaves the state as the last call left it.
use mathlib.Core.Option.{Option, none, some}
use Prim.Native.String.{String}
use webtracker.Shared.Errors.{Error, Result, ok, err, wrapped}

abbrev pub M : Type 0 → Type 0 → Type 0
M S A = S → Result A × S

abbrev pub pure : {S A : Type 0} → A → M S A
pure a s = (ok a, s)

abbrev pub fail : {S A : Type 0} → Error → M S A
fail e s = (err e, s)

abbrev pub and_then : {S A B : Type 0} → Result A × S → (A → M S B) → Result B × S
and_then (ok a, s) f = f a s
and_then (err e, s) f = (err e, s)

infixl 5 ◌>>=◌ ◌>>◌
abbrev pub ◌>>=◌ : {S A B : Type 0} → M S A → (A → M S B) → M S B
◌>>=◌ m f s = and_then (m s) f

abbrev pub ◌>>◌ : {S B : Type 0} → M S (Unit {0}) → M S B → M S B
m >> k = m >>= λ _. k

abbrev pub in_context : {A : Type 0} → String → Result A → Result A
in_context text (ok a) = ok a
in_context text (err e) = err (wrapped text e)

-- `if err != nil { return fmt.Errorf("text: %w", err) }`
abbrev pub context : {S A : Type 0} → String → M S A → M S A
context text m s = let (r, s') = m s in (in_context text r, s')

-- A result that needs no call.
abbrev pub lift : {S A : Type 0} → Result A → M S A
lift r s = (r, s)

-- The call's error is a value; the code goes on.
abbrev pub attempt : {S A : Type 0} → M S A → M S (Result A)
attempt m s = let (r, s') = m s in (ok r, s')

-- `_ = err`: an error is dropped.
abbrev pub ignored : {S A : Type 0} → M S A → M S (Unit {0})
ignored m s = let (r, s') = m s in (ok tt, s')

-- A test in a chain.
abbrev pub when_some : {S A B : Type 0} → Option A → M S B → (A → M S B) → M S B
when_some none m f = m
when_some (some a) m f = f a
