-- ===== src/Shared/Clock.antt =====
-- Go's `time` package as the program uses it. An instant is its distance from Go's zero time
-- (1 January of year 1) in nanoseconds, so `time.Time{}` is 0; a `Duration` is a signed number
-- of nanoseconds. `Time.Sub` saturates at the bounds of `int64`, as the library documents.
use Prim.Native.Nat.{ℕ, suc, ◌-◌, ◌+◌, ◌*◌, ◌≤◌}
use mathlib.Core.Path.{◌≡◌}
use native.Mathlib.Omega.{arith}
use webtracker.Shared.Tests.{ltb, leb, if◌then◌else◌}
use webtracker.Shared.Int.{ℤ, pos, negsuc, sub_ℕ, leb_ℤ, ltb_ℤ, max_int64}

abbrev pub Instant : Type 0
Instant = ℕ

abbrev pub Duration : Type 0
Duration = ℤ

abbrev pub nanos_per_second : ℕ
nanos_per_second = 1000000000

abbrev pub seconds : ℕ → ℕ
seconds n = n * nanos_per_second

abbrev pub minutes : ℕ → ℕ
minutes n = n * 60000000000

abbrev pub hours : ℕ → ℕ
hours n = n * 3600000000000

-- A difference outside `int64` is cut off at the nearer bound.
saturate : ℤ → Duration
saturate (pos n) = if leb n max_int64 then pos n else pos max_int64
saturate (negsuc n) = if leb n max_int64 then negsuc n else negsuc max_int64

-- `later.Sub(earlier)`; `time.Since(t)` is `since now t`.
unfoldable pub since : Instant → Instant → Duration
unfolding saturate
since now earlier = saturate (sub_ℕ now earlier)

-- `t.Add(d)`; before Go's zero time there is no instant here.
abbrev pub add : Instant → Duration → Instant
add t (pos d) = t + d
add t (negsuc d) = t - suc d

-- A duration within `int64` has passed exactly when the clock shows as much.
pub since_at_least :
    (d now earlier : ℕ) → d ≤ max_int64 → leb_ℤ (pos d) (since now earlier) ≡ leb (earlier + d) now
unfolding since
since_at_least d now earlier h = ground arith

pub since_less :
    (d now earlier : ℕ) → d ≤ max_int64 → ltb_ℤ (since now earlier) (pos d) ≡ ltb now (earlier + d)
unfolding since
since_less d now earlier h = ground arith
