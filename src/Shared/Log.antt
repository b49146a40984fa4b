-- ===== src/Shared/Log.antt =====
-- Calls that are noted: the state of the world around the program with the list of the calls that
-- changed it, the latest first. The list is read by theorems only.
use Prim.Native.String.{String}
use mathlib.Core.Path.{◌≡◌, refl}
use mathlib.Core.Bool.{Bool, true, false}
use mathlib.Core.List.{List, ◌∷◌}
use webtracker.Shared.Tests.{if◌then◌else◌}
use webtracker.Shared.Errors.{Result, ok, err}
use webtracker.Shared.Effects.{context, M, and_then, ◌>>=◌}

pub record Logged (W C : Type 0) : Type 0 where
  pub world : W
  pub log : List C

module _ {W C : Type 0} where
  -- A call that only reads.
  abbrev pub quiet : {A : Type 0} → M W A → M (Logged W C) A
  quiet m s = let (r, w) = m s.world in (r, record s { world = w })

  -- A reading that cannot fail, such as the clock's.
  abbrev pub reading : {A : Type 0} → (W → A × W) → M (Logged W C) A
  reading m s = let (a, w) = m s.world in (ok a, record s { world = w })

  -- A call that is noted, with what it returned.
  abbrev pub noted : {A : Type 0} → (Result A → C) → M W A → M (Logged W C) A
  noted note m s = let (r, w) = m s.world in (r, record { world = w; log = note r ∷ s.log })

module _ {W C : Type 0} (P : List C → Type 0) where
  -- Code that keeps a property of the list of calls.
  pub record Keeps {A : Type 0} (m : M (Logged W C) A) : Type 0 where
    pub keeps : (s : Logged W C) → P s.log → P (m s).1.log

  and_then-Keeps :
      {A B : Type 0} (r : Result A × Logged W C) (f : A → M (Logged W C) B)
      → P r.1.log
      → ((a : A) → Keeps (f a))
      → P (and_then r f).1.log
  and_then-Keeps (ok a, s) f h k = (k a).keeps s h
  and_then-Keeps (err e, s) f h k = h

  pub >>=-Keeps :
      {A B : Type 0} (m : M (Logged W C) A) (f : A → M (Logged W C) B)
      → Keeps m
      → ((a : A) → Keeps (f a))
      → Keeps (m >>= f)
  >>=-Keeps m f h k = record { keeps = λ s p. and_then-Keeps (m s) f (h.keeps s p) k }

  pub if-Keeps :
      {A : Type 0} (b : Bool) (m n : M (Logged W C) A)
      → (b ≡ true → Keeps m)
      → (b ≡ false → Keeps n)
      → Keeps (if b then m else n)
  if-Keeps true m n h k = h refl
  if-Keeps false m n h k = k refl

  pub context-Keeps :
      {A : Type 0} (text : String) (m : M (Logged W C) A) → Keeps m → Keeps (context text m)
  context-Keeps text m h = record { keeps = h.keeps }
