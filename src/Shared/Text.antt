-- ===== src/Shared/Text.antt =====
-- Equality of texts, which are compared whole.
use Prim.Native.String.{String}
use mathlib.Core.Path.{◌≡◌}
use mathlib.Core.Bool.{true, false}
use mathlib.Core.Logic.{◌≢◌, inl, inr}
use text.Mathlib.Text.{◌==◌}
use text.Mathlib.TextEquality.{eq_iff}
use webtracker.Shared.Tests.{Bool-cases}

pub str_eq_refl : (s : String) → (s == s) ≡ true
str_eq_refl s = (eq_iff s s).1 (λ i. s)

pub str_eq_ne : (s t : String) → s ≢ t → (s == t) ≡ false
str_eq_ne s t h = elim (Bool-cases (s == t)) [ inl e ↦ absurd (h ((eq_iff s t).0 e)) | inr e ↦ e ]
