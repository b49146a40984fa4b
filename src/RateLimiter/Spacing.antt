-- ===== src/RateLimiter/Spacing.antt =====
-- rate_limiter.go: any sequence of the limiter's calls, for any monitors, and when the downtime
-- alerts of one monitor are allowed in it.
use webtracker.Shared.{
  ◌∙◌, ap, str_eq_refl, ◌+◌, ◌≤◌, ◌≡◌, ◌≢◌, Bool, true, false, ◌&&◌, Option, none, some, String,
  List, [], ◌∷◌, if◌then◌else◌, leb, arith, str_eq, eq_iff, Bool-cases, inl, inr,
}
use webtracker.Shared.Int.{ℤ}
use webtracker.Shared.Clock.{Instant, minutes}
use webtracker.Shared.Errors.{Result, ok, err}
use webtracker.RateLimiter.{
  downtime_key, ssl_key, RedisCache, Timestamps, check_and_set_downtime_alert,
  check_and_set_ssl_alert, clear_downtime_alert,
}
use webtracker.RateLimiter.Laws.{
  Works, Stored, whole_second, downtime_answer, downtime_other, ssl_other, clear_other,
  downtime_stores, downtime_effect,
}

-- The calls that write, each with its instant.
pub data Op : Type 0 where
  downtime : Instant → String → Op
  ssl : Instant → String → ℤ → Op
  cleared : Instant → String → Op

abbrev pub op_time : Op → Instant
op_time (downtime t j) = t
op_time (ssl t j d) = t
op_time (cleared t j) = t

abbrev pub allowed : Result Bool → Bool
allowed (ok b) = b
allowed (err e) = false

allowed-true : (r : Result Bool) → allowed r ≡ true → r ≡ ok true
allowed-true r e = ground arith

-- The clock does not run backwards.
abbrev pub Ordered : Instant → List Op → Type 0
Ordered t [] = Unit {0}
Ordered t (op ∷ ops) = (t ≤ op_time op) × Ordered (op_time op) ops

abbrev pub AsDue : Option Instant → Instant → Bool → Type 0
AsDue none t d = Unit {0}
AsDue (some s) t d = d ≡ leb (whole_second s + minutes 15) t

-- What a monitor's last alert is after a call.
abbrev pub last_after : String → Op → Bool → Option Instant → Option Instant
last_after id (downtime t j) d last = if str_eq j id && d then some t else last
last_after id (ssl t j n) d last = last
last_after id (cleared t j) d last = if str_eq j id then none else last

abbrev pub Fits : String → Op → Bool → Option Instant → Type 0
Fits id (downtime t j) d last = str_eq j id ≡ true → AsDue last t d
Fits id (ssl t j n) d last = Unit {0}
Fits id (cleared t j) d last = Unit {0}

-- Each downtime alert of the monitor is allowed exactly when it is due after the one before.
abbrev pub IsSpaced : String → Option Instant → List (Op × Bool) → Type 0
IsSpaced id last [] = Unit {0}
IsSpaced id last ((op, d) ∷ ops) = Fits id op d last × IsSpaced id (last_after id op d last) ops

module _ {W B : Type 0} (cache : RedisCache W B) (stamps : Timestamps B) where
  perform : Op → W → Bool × W
  perform (downtime t j) w =
      let (r, w') = check_and_set_downtime_alert cache stamps t j w in (allowed r, w')
  perform (ssl t j d) w =
      let (r, w') = check_and_set_ssl_alert cache stamps t j d w in (allowed r, w')
  perform (cleared t j) w = let (r, w') = clear_downtime_alert cache stamps t j w in (false, w')

  -- The calls with their decisions.
  unfoldable pub decisions : List Op → W → List (Op × Bool)
  unfolding perform
  decisions [] w = []
  decisions (op ∷ ops) w = let (d, w') = perform op w in (op, d) ∷ decisions ops w'

key_ne : (j id : String) → str_eq j id ≡ false → downtime_key j ≢ downtime_key id
key_ne j id h = ground (arith, eq_iff j id)

ssl_key_ne : (j id : String) (d : ℤ) → ssl_key j d ≢ downtime_key id
ssl_key_ne j id d e = cc

module _ {W B : Type 0} (cache : RedisCache W B) (stamps : Timestamps B)
    (h : Works cache stamps) where
  -- The limiter remembers the monitor's last alert.
  abbrev Remembers : String → Option Instant → Instant → W → Type 0
  Remembers id none now w = Unit {0}
  Remembers id (some s) now w = (s ≤ now) × Stored cache stamps h (downtime_key id) s (minutes 15) w

  step-Fits :
      (id : String) (op : Op) (last : Option Instant) (now : Instant) (w : W)
      → now ≤ op_time op
      → Remembers id last now w
      → Fits id op (perform cache stamps op w).0 last
  unfolding perform
  step-Fits id (downtime t j) none now w le r = λ e. tt
  step-Fits id (downtime t j) (some s) now w le r =
      λ e. ground (arith, eq_iff j id, downtime_answer cache stamps h s t id w (omega arith) r.1)
  step-Fits id (ssl t j d) last now w le r = tt
  step-Fits id (cleared t j) last now w le r = tt

  keep-Remembers :
      (id : String) (last : Option Instant) (now later : Instant) (w w' : W)
      → now ≤ later
      → ((u : Instant) → h.live u (downtime_key id) w' ≡ h.live u (downtime_key id) w)
      → Remembers id last now w
      → Remembers id last later w'
  keep-Remembers id none now later w w' le same r = tt
  keep-Remembers id (some s) now later w w' le same r =
      (omega arith, record { stamp_live = λ u k. same u ∙ r.1.stamp_live u k })

  abbrev result : Instant → String → W → Result Bool
  result t id w = (check_and_set_downtime_alert cache stamps t id w).0

  downtime_unchanged :
      (t : Instant) (id : String) (w : W)
      → allowed (result t id w) ≡ false
      → (check_and_set_downtime_alert cache stamps t id w).1 ≡ w
  downtime_unchanged t id w e = ground (arith, downtime_effect cache stamps h t id w)

  downtime-Remembers :
      (id : String) (t : Instant) (last : Option Instant) (now : Instant) (w : W)
      → now ≤ t
      → Remembers id last now w
      → let (r, w') = check_and_set_downtime_alert cache stamps t id w in
        Remembers id (if allowed r then some t else last) t w'
  downtime-Remembers id t last now w le r = elim (Bool-cases (allowed (result t id w))) [
    | inl sent ↦
        rw sent
          (omega arith, downtime_stores cache stamps h t id w (allowed-true (result t id w) sent))
    | inr held ↦ rw held (
        keep-Remembers id last now t w _ le
          (λ u. ap (h.live u (downtime_key id)) (downtime_unchanged t id w held)) r)
  ]

  step-Remembers :
      (id : String) (op : Op) (last : Option Instant) (now : Instant) (w : W)
      → now ≤ op_time op
      → Remembers id last now w
      → let (d, w') = perform cache stamps op w in
        Remembers id (last_after id op d last) (op_time op) w'
  unfolding perform
  step-Remembers id (downtime t j) last now w le r = elim (Bool-cases (str_eq j id)) [
    | inl same ↦ rw ((eq_iff j id).0 same, str_eq_refl id) (downtime-Remembers id t last now w le r)
    | inr other ↦ rw other (
        keep-Remembers id last now t w _ le
          (λ u. downtime_other cache stamps h t u j (downtime_key id) w (key_ne j id other)) r)
  ]
  step-Remembers id (ssl t j d) last now w le r =
      keep-Remembers id last now t w _ le
        (λ u. ssl_other cache stamps h t u j d (downtime_key id) w (ssl_key_ne j id d)) r
  step-Remembers id (cleared t j) last now w le r = elim (Bool-cases (str_eq j id)) [
    | inl same ↦ rw same tt
    | inr other ↦ rw other (
        keep-Remembers id last now t w _ le
          (λ u. clear_other cache stamps h t u j (downtime_key id) w (key_ne j id other)) r)
  ]

  IsSpaced-from :
      (id : String) (ops : List Op) (last : Option Instant) (now : Instant) (w : W)
      → Ordered now ops
      → Remembers id last now w
      → IsSpaced id last (decisions cache stamps ops w)
  unfolding decisions
  IsSpaced-from id [] last now w o r = tt
  IsSpaced-from id (op ∷ ops) last now w o r =
      let (d, w') = perform cache stamps op w in
      (
        step-Fits id op last now w o.0 r,
        IsSpaced-from id ops (last_after id op d last) (op_time op) w' o.1
            (step-Remembers id op last now w o.0 r),
      )

  -- Over a Redis that works, in any sequence of calls for any monitors, in the order of time and
  -- from any state of the server: after an alert of a monitor is allowed at s, its next downtime
  -- alert is allowed exactly if it is asked for 15 minutes or more after the second of s, unless a
  -- recovery has cleared the limit; so alerts about other monitors and certificates have no effect.
  pub downtime_alerts-IsSpaced :
      (id : String) (ops : List Op) (now : Instant) (w : W)
      → Ordered now ops
      → IsSpaced id none (decisions cache stamps ops w)
  downtime_alerts-IsSpaced id ops now w o = IsSpaced-from id ops none now w o tt
