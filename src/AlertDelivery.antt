-- ===== src/AlertDelivery.antt =====
-- interface/alertchannel/delivery.go: delivery of an alert to all channels concurrently.
-- What an adapter sends, over the state `W` of the world, is a parameter; each call of it is one
-- step. `Finishes` lets any of the goroutines that are left send its result next, so that it
-- relates the channels to the results in every order in which the Go channel may carry them.
pub mod Results
use webtracker.Shared.{◌≡◌, Bool, true, false, Option, none, some, String, List, [], ◌∷◌, ◌++◌}
use Prim.Native.String.{◌++◌ as concat}
use webtracker.Shared.Dict.{lookup, store}
use webtracker.Shared.Errors.{ok, err, failure}
use webtracker.Domain.Alert.{Alert, AlertChannelType}
use webtracker.Domain.Monitor.{AlertChannel}
use webtracker.Resilience.AlertChannel.{Send, DeliveryResult, is_nil}

abbrev pub Adapters : Type 0 → Type 0
Adapters W = List (AlertChannelType × Send W)

unfoldable pub register_adapter : {W : Type 0} → AlertChannelType → Send W → Adapters W → Adapters W
register_adapter type adapter adapters = store type adapter adapters

module _ {W : Type 0} (adapters : Adapters W) (alert : Alert) where
  -- A channel's goroutine, with the adapter found for it.
  send_by : Option (Send W) → AlertChannel → W → DeliveryResult × W
  send_by none c w = (
    record {
      channel = c.type;
      success = false;
      error = err (failure (concat "no adapter found for channel type: " c.type));
    },
    w,
  )
  send_by (some send) c w =
      let (result, w') = send alert c.config w in
      (record { channel = c.type; success = is_nil result; error = result }, w')

  unfoldable pub deliver_channel : AlertChannel → W → DeliveryResult × W
  unfolding send_by
  deliver_channel c w = send_by (lookup c.type adapters) c w

  -- The channels that are left, the world before, the results in their order, the world after.
  pub data Finishes : List AlertChannel → W → List DeliveryResult → W → Type 0 where
    all_done : {w : W} → Finishes [] w [] w
    one_done :
        (before after : List AlertChannel) (c : AlertChannel) {cs : List AlertChannel} {w : W}
        {rs : List DeliveryResult} {w' : W}
        → cs ≡ before ++ (c ∷ after)
        → Finishes (before ++ after) (deliver_channel c w).1 rs w'
        → Finishes cs w ((deliver_channel c w).0 ∷ rs) w'
