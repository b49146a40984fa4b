-- ===== src/Resilience/AlertChannel/Isolation.antt =====
-- alert_channel.go: one result for each channel, and channels that do not affect one another.
use webtracker.Shared.{
  Option-cases, ℕ, ◌≤◌, ◌≡◌, refl, true, false, some, List, [], ◌∷◌, arith, str_eq, eq_iff, All,
  inl, inr, ◌∙◌,
}
use webtracker.Shared.Int.{pos, max_int64}
use webtracker.Shared.Dict.{lookup, lookup-store}
use webtracker.Shared.Errors.{err, circuit_open}
use webtracker.CircuitBreaker.{Readings}
use webtracker.CircuitBreaker.Gate.{blocks, execute_gate}
use webtracker.Domain.Alert.{Alert, AlertChannelType}
use webtracker.Domain.Monitor.{AlertChannel}
use webtracker.Resilience.AlertChannel.{
  ResilientAdapter, DeliveryResult, is_nil, send, State, deliver_one, deliver_alert,
}

-- What a delivery's results say of the channels.
abbrev pub Reports : List (AlertChannel × Readings) → List DeliveryResult → Type 0
Reports [] [] = Unit {0}
Reports ((c, clock) ∷ cs) (r ∷ rs) =
    (r.channel ≡ c.type) × (r.success ≡ is_nil r.error) × Reports cs rs
Reports [] (r ∷ rs) = ⊥
Reports (c ∷ cs) [] = ⊥

module _ {W : Type 0} where
  -- A delivery reports on every channel once, in the order of the channels, and as a success
  -- exactly where there was no error.
  pub deliver_alert-Reports :
      (alert : Alert) (cs : List (AlertChannel × Readings)) (s : State W)
      → Reports cs (deliver_alert alert cs s).0
  unfolding deliver_alert deliver_one
  deliver_alert-Reports alert [] s = tt
  deliver_alert-Reports alert ((c, clock) ∷ cs) s =
      ground (arith, deliver_alert-Reports alert cs (deliver_one alert c clock s).1)

  one-other :
      (alert : Alert) (c : AlertChannel) (clock : Readings) (s : State W) (type : AlertChannelType)
      → str_eq c.type type ≡ false
      → lookup type (deliver_one alert c clock s).1.adapters ≡ lookup type s.adapters
  unfolding deliver_one
  one-other alert c clock s type ne = elim (Option-cases (lookup c.type s.adapters)) [
    | inl gone ↦ ground arith
    | inr (r, found) ↦
        ground (arith, lookup-store c.type type (send r clock alert c.config s.world).1 s.adapters)
  ]

  -- Delivery to channels of other types leaves a channel's adapter and its breaker as they were,
  -- whatever fails there.
  pub other_channels_keep :
      (alert : Alert) (cs : List (AlertChannel × Readings)) (s : State W) (type : AlertChannelType)
      → All (λ c. str_eq c.0.type type ≡ false) cs
      → lookup type (deliver_alert alert cs s).1.adapters ≡ lookup type s.adapters
  unfolding deliver_alert
  other_channels_keep alert [] s type a = refl
  other_channels_keep alert ((c, clock) ∷ cs) s type a =
      other_channels_keep alert cs (deliver_one alert c clock s).1 type a.1
      ∙ one-other alert c clock s type a.0

  -- A channel whose breaker is open, its timeout not passed, is skipped: nothing is sent, the
  -- result is the open circuit, and no adapter changes.
  pub blocked_channel_skipped :
      (alert : Alert) (c : AlertChannel) (clock : Readings) (s : State W) (r : ResilientAdapter W)
      (d : ℕ)
      → lookup c.type s.adapters ≡ some r
      → r.circuit_breaker.timeout ≡ pos d
      → d ≤ max_int64
      → clock.tested ≤ clock.again
      → blocks r.circuit_breaker d clock.tested ≡ true
      → let (result, s') = deliver_one alert c clock s in
        (result.error ≡ err circuit_open)
        × (s'.world ≡ s.world)
        × ((type : AlertChannelType) → lookup type s'.adapters ≡ lookup type s.adapters)
  unfolding deliver_one send
  blocked_channel_skipped alert c clock s r d found t h le b =
      let gate =
        (execute_gate (r.send_raw alert c.config) r.circuit_breaker clock s.world d t h le).0 b in
      (
        ground (arith, gate),
        ground (arith, gate),
        λ type. ground (arith, gate, eq_iff c.type type, lookup-store c.type type r s.adapters),
      )
