-- ===== src/Resilience/AlertChannel.antt =====
-- infrastructure/resilience/alert_channel.go: alert channels behind circuit breakers.
-- What an adapter sends, over the state `W` of the outside world, is a parameter. The breaker of an
-- adapter is kept with it: the manager holds pointers to the same breakers, one for each channel
-- type, and `reset_circuit_breakers` reaches them through it. The loggers are left out.
pub mod Isolation
use webtracker.Shared.{
  ◌≡◌, Bool, true, false, Option, none, some, String, List, [], ◌∷◌, if◌then◌else◌, map,
}
use webtracker.Shared.Int.{pos}
use webtracker.Shared.Clock.{seconds}
use webtracker.Shared.Dict.{lookup, store}
use webtracker.Shared.Errors.{Error, Result, Outcome, ok, err, circuit_open}
use webtracker.CircuitBreaker.{CircuitBreaker, Readings, execute, reset_breaker}
use webtracker.CircuitBreaker.Manager.{
  CircuitBreakerManager, get_or_create, breaker_stats, CircuitBreakerStats,
}
use webtracker.Domain.Alert.{
  Alert, AlertChannelType, channel_telegram, channel_email, channel_webhook,
}
use webtracker.Domain.Monitor.{AlertChannel}

-- `AlertChannelAdapter.Send`.
abbrev pub Send : Type 0 → Type 0
Send W = Alert → List (String × String) → W → Outcome × W

pub record ResilientAdapter (W : Type 0) : Type 0 where
  pub send_raw : Send W
  pub circuit_breaker : CircuitBreaker

pub record State (W : Type 0) : Type 0 where
  pub adapters : List (AlertChannelType × ResilientAdapter W)
  pub world : W

pub record DeliveryResult : Type 0 where
  pub channel : AlertChannelType
  pub success : Bool
  pub error : Outcome

abbrev pub is_nil : Outcome → Bool
is_nil (ok _) = true
is_nil (err e) = false

module _ {W : Type 0} where
  unfoldable pub new_resilient_adapter :
      Send W → AlertChannelType → CircuitBreakerManager → ResilientAdapter W × CircuitBreakerManager
  new_resilient_adapter adapter type manager =
      let (cb, manager') = get_or_create manager type (pos 5) (pos (seconds 60)) (pos 3) in
      (record { send_raw = adapter; circuit_breaker = cb }, manager')

  -- The three adapters, and the manager with their breakers.
  unfoldable pub new_resilient_delivery_service :
      Send W
      → Send W
      → Send W
      → CircuitBreakerManager
      → List (AlertChannelType × ResilientAdapter W) × CircuitBreakerManager
  new_resilient_delivery_service telegram email webhook manager =
      let (t, m₁) = new_resilient_adapter telegram channel_telegram manager in
      let (e, m₂) = new_resilient_adapter email channel_email m₁ in
      let (w, m₃) = new_resilient_adapter webhook channel_webhook m₂ in
      (store channel_webhook w (store channel_email e (store channel_telegram t [])), m₃)

  unfoldable pub send :
      ResilientAdapter W
      → Readings
      → Alert
      → List (String × String)
      → W
      → Outcome × ResilientAdapter W × W
  send r clock alert config w =
      let (result, cb, w') = execute (r.send_raw alert config) r.circuit_breaker clock w in
      (result, record r { circuit_breaker = cb }, w')

module _ {W : Type 0} where
  deliver_to :
      Option (ResilientAdapter W)
      → Alert
      → AlertChannel
      → Readings
      → State W
      → DeliveryResult × State W
  deliver_to none alert channel clock s =
      (record { channel = channel.type; success = false; error = err circuit_open }, s)
  deliver_to (some r) alert channel clock s =
      let (result, r', w) = send r clock alert channel.config s.world in
      (
        record { channel = channel.type; success = is_nil result; error = result },
        record { adapters = store channel.type r' s.adapters; world = w },
      )

  -- The loop body of `DeliverAlert`.
  unfoldable pub deliver_one : Alert → AlertChannel → Readings → State W → DeliveryResult × State W
  unfolding deliver_to
  deliver_one alert channel clock s =
      deliver_to (lookup channel.type s.adapters) alert channel clock s

  -- The channels, each with the readings of the clock while it is served.
  unfoldable pub deliver_alert :
      Alert → List (AlertChannel × Readings) → State W → List DeliveryResult × State W
  deliver_alert alert [] s = ([], s)
  deliver_alert alert ((channel, clock) ∷ rest) s =
      let (r, s') = deliver_one alert channel clock s in
      let (rs, s'') = deliver_alert alert rest s' in (r ∷ rs, s'')

  reset_adapters :
      List (AlertChannelType × ResilientAdapter W) → List (AlertChannelType × ResilientAdapter W)
  reset_adapters [] = []
  reset_adapters ((type, r) ∷ m) =
      (type, record r { circuit_breaker = reset_breaker r.circuit_breaker }) ∷ reset_adapters m

  unfoldable pub reset_circuit_breakers : State W → State W
  unfolding reset_adapters
  reset_circuit_breakers s = record s { adapters = reset_adapters s.adapters }
