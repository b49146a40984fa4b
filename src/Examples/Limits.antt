-- ===== src/Examples/Limits.antt =====
-- The rate limiter over a Redis in memory, and over one that is down.
use webtracker.Shared.{
  ℕ, ◌+◌, ◌*◌, ◌/◌, ◌≤◌, ◌≡◌, ◌≢◌, refl, Bool, true, false, ◌&&◌, Option, none, some, String, List,
  [], ◌∷◌, if◌then◌else◌, ltb, arith, str_eq, eq_iff, str_eq_refl, Bool-cases, inl, inr,
}
use webtracker.Shared.Int.{pos, negsuc, eqb_ℤ}
use webtracker.Shared.Clock.{Instant, Duration, nanos_per_second, seconds, minutes, hours}
use webtracker.Shared.Errors.{ok}
use webtracker.RateLimiter.{
  Key, downtime_key, ssl_key, RedisCache, Timestamps, check_and_set_downtime_alert,
  check_and_set_ssl_alert, get_last_downtime_alert,
}
use webtracker.RateLimiter.Laws.{Works, Stored}
use webtracker.RateLimiter.Spacing.{
  Op, downtime, ssl, cleared, IsSpaced, decisions, downtime_alerts-IsSpaced,
}

abbrev key_eq : Key → Key → Bool
key_eq (downtime_key a) (downtime_key b) = str_eq a b
key_eq (ssl_key a d) (ssl_key b e) = str_eq a b && eqb_ℤ d e
key_eq (downtime_key a) (ssl_key b e) = false
key_eq (ssl_key a d) (downtime_key b) = false

key_eq_refl : (k : Key) → key_eq k k ≡ true
key_eq_refl (downtime_key a) = str_eq_refl a
key_eq_refl (ssl_key a d) = ground (arith, str_eq_refl a)

key_eq_sound : (k j : Key) → key_eq k j ≡ true → k ≡ j
key_eq_sound (downtime_key a) (downtime_key b) e = ground (arith, eq_iff a b)
key_eq_sound (ssl_key a d) (ssl_key b f) e = ground (arith, eq_iff a b)
key_eq_sound (downtime_key a) (ssl_key b f) e = cc
key_eq_sound (ssl_key a d) (downtime_key b) e = cc

key_eq_ne : (k j : Key) → k ≢ j → key_eq k j ≡ false
key_eq_ne k j ne = elim (Bool-cases (key_eq k j)) [
  | inl e ↦ absurd (ne (key_eq_sound k j e))
  | inr e ↦ e
]

-- Each key's value, a number of whole seconds, and when it expires.
abbrev Table : Type 0
Table = Key → Option (ℕ × Instant)

abbrev expiry : Instant → Duration → Instant
expiry t (pos d) = t + d
expiry t (negsuc d) = t

abbrev alive : Instant → Option (ℕ × Instant) → Option ℕ
alive t none = none
alive t (some (b, e)) = if ltb t e then some b else none

abbrev memory : RedisCache Table ℕ
memory = record {
  get = λ t k w. (ok (alive t (w k)), w);
  set = λ t k b d w. (ok tt, λ j. if key_eq k j then some (b, expiry t d) else w j);
  delete = λ t k w. (ok tt, λ j. if key_eq k j then none else w j);
}

abbrev stamps : Timestamps ℕ
stamps = record { format = λ t. t / nanos_per_second; parse = λ b. ok (b * nanos_per_second) }

memory-Works : Works memory stamps
memory-Works = record {
  live = λ t k w. alive t (w k);
  get_live = λ t k w. refl;
  set_ok = λ t k b d w. refl;
  set_live = λ t k b ttl w u le. rw (key_eq_refl k);
  set_other = λ t k j b d w u ne. rw (key_eq_ne k j ne);
  delete_ok = λ t k w. refl;
  delete_live = λ t u k w. rw (key_eq_refl k);
  delete_other = λ t u k j w ne. rw (key_eq_ne k j ne);
  parse_format = λ t. refl;
}

abbrev empty : Table
empty = λ k. none

abbrev ops : List Op
ops =
    downtime (minutes 10) "m1"
    ∷ downtime (minutes 11) "m2"
    ∷ downtime (minutes 12) "m1"
    ∷ ssl (minutes 20) "m1" (pos 7)
    ∷ downtime (minutes 25) "m1"
    ∷ cleared (minutes 30) "m1"
    ∷ downtime (minutes 31) "m1"
    ∷ []

downtime_alerts-IsSpaced_example : IsSpaced "m1" none (decisions memory stamps ops empty)
downtime_alerts-IsSpaced_example =
    downtime_alerts-IsSpaced memory stamps memory-Works "m1" ops (minutes 1) empty (omega arith)

-- An alert at 10 minutes is stored.
abbrev sent : Key → ℕ → Table
sent k ttl j = if key_eq k j then some (600, minutes 10 + ttl) else none

sent_downtime :
    Stored memory stamps memory-Works
      (downtime_key "m1")
      (minutes 10)
      (minutes 15)
      (sent (downtime_key "m1") (minutes 15))
unfolding memory-Works
sent_downtime = record { stamp_live = λ u le. refl }

sent_ssl :
    Stored memory stamps memory-Works
      (ssl_key "m1" (pos 7))
      (minutes 10)
      (hours 24)
      (sent (ssl_key "m1" (pos 7)) (hours 24))
unfolding memory-Works
sent_ssl = record { stamp_live = λ u le. refl }

-- The decisions of the run above.
run_decisions :
    webtracker.Shared.map (λ e. e.1) (decisions memory stamps ops empty)
    ≡ true ∷ true ∷ false ∷ true ∷ true ∷ false ∷ true ∷ []
unfolding decisions check_and_set_downtime_alert check_and_set_ssl_alert
    webtracker.RateLimiter.clear_downtime_alert webtracker.Shared.Clock.since
run_decisions = refl
